-- ===== src/Node/Process/Lan/Always.antt =====
-- The LAN addresses that a node advertises from its start on, over any moves: core/src/runtime/node.rs
-- and core/src/runtime/event_loop.rs.
use swarm_p2p.Prelude.{
  ℕ, ◌≡◌, inl, inr, Option-cases, Poll, ready, pending, panicked, Option, none, some, List, [], ◌∷◌,
  take_at,
}
use swarm_p2p.DataChannel.{DataChannel}
use swarm_p2p.Error.{Error, Result, ok, err, ok_injective}
use swarm_p2p.Handle.{Channel, recv}
use swarm_p2p.Config.{NodeConfig}
use swarm_p2p.Swarm.{Types, Swarm, Trace}
use swarm_p2p.Command.Active.Queue.{Active, active_trait}
use swarm_p2p.EventLoop.{EventLoop, start_listen, connect_bootstrap_peers}
use swarm_p2p.EventLoop.Lan.Advertised.{Advertises, empty, externals}
use swarm_p2p.Node.{start_node, after_listening, loop_of}
use swarm_p2p.Node.Process.{
  Process, Move, turned, asked, polled_at, abandoned_at, received, unheard, dropped_at,
  unwrapped_at, launched, take_received, move, moves,
}
use swarm_p2p.Node.Process.Lan.{
  Views-Advertises, connect-Views, externals-listened, turn-Advertises,
}

module _ {T : Types} {C : Type 0} where
  received-Advertises :
      (r : Poll (Option DataChannel) × Channel DataChannel) (s : Process T C)
      → Advertises s.loop
      → Advertises (take_received r s).loop
  received-Advertises (ready (some channel), rx) s a = record { fit = a.fit; told = a.told }
  received-Advertises (ready none, rx) s a = a
  received-Advertises (pending, rx) s a = a
  received-Advertises (panicked, rx) s a = a

  begun-Advertises :
      (config : NodeConfig) (next_id : ℕ) (listened : Trace T × Result (Unit {0}) Error)
      (loop : EventLoop T C)
      → externals listened.0 ≡ []
      → (after_listening config next_id listened).1 ≡ ok loop
      → Advertises loop
  begun-Advertises config next_id (trace, err e) loop quiet started = cc
  begun-Advertises config next_id (trace, ok u) loop quiet started =
      let begun : EventLoop T C = loop_of config next_id trace in
      let connected : EventLoop T C = connect_bootstrap_peers config.bootstrap_peers begun in
      let same : connected ≡ loop = ok_injective started in
      rw (← same) (
        Views-Advertises begun connected (connect-Views config.bootstrap_peers begun)
          (record { fit = empty; told = quiet }))

module _ {T : Types} (sw : Swarm T) where
  move-Advertises :
      (m : Move sw (active_trait sw)) (s : Process T (Active T))
      → Advertises s.loop
      → Advertises (move sw (active_trait sw) m s).loop
  unfolding move
  move-Advertises (turned env selected) s a = turn-Advertises sw env selected s.loop a
  move-Advertises (asked start) s a = a
  move-Advertises (polled_at i answer) s a = elim (Option-cases (take_at i s.futures)) [
    | inl missing ↦ rw missing a
    | inr ((st, others), found) ↦ rw found (record { fit = a.fit; told = a.told })
  ]
  move-Advertises (abandoned_at i) s a = elim (Option-cases (take_at i s.futures)) [
    | inl missing ↦ rw missing a
    | inr ((st, others), found) ↦ rw found (record { fit = a.fit; told = a.told })
  ]
  move-Advertises received s a = received-Advertises (recv 1 s.loop.inbound_dc_tx) s a
  move-Advertises unheard s a = record { fit = a.fit; told = a.told }
  move-Advertises (dropped_at i) s a = elim (Option-cases (take_at i s.channels)) [
    | inl missing ↦ rw missing a
    | inr ((c, others), found) ↦ rw found (record { fit = a.fit; told = a.told })
  ]
  move-Advertises (unwrapped_at i) s a = elim (Option-cases (take_at i s.channels)) [
    | inl missing ↦ rw missing a
    | inr ((c, others), found) ↦ rw found (record { fit = a.fit; told = a.told })
  ]

  moves-Advertises_from :
      (ms : List (Move sw (active_trait sw))) (s : Process T (Active T))
      → Advertises s.loop
      → Advertises (moves sw (active_trait sw) ms s).loop
  unfolding moves
  moves-Advertises_from [] s a = a
  moves-Advertises_from (m ∷ ms) s a =
      moves-Advertises_from ms (move sw (active_trait sw) m s) (move-Advertises m s a)

  -- From a start of the node that succeeds, whatever commands the loop runs, whatever events and
  -- streams it takes and whatever clients and the user do, in any order: each LAN address that the
  -- node advertises is usable, none stands twice, and they are exactly the external addresses that
  -- the swarm was given, in order.
  pub moves-Advertises :
      (config : NodeConfig) (next_id : ℕ) (loop : EventLoop T (Active T))
      (ms : List (Move sw (active_trait sw)))
      → (start_node sw config next_id).1 ≡ ok loop
      → Advertises (moves sw (active_trait sw) ms (launched loop)).loop
  unfolding start_node
  moves-Advertises config next_id loop ms started = moves-Advertises_from ms (launched loop) (
      begun-Advertises config next_id (start_listen sw config.listen_addrs []) loop
        (externals-listened sw config.listen_addrs []) started)
