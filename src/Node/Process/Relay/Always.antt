-- ===== src/Node/Process/Relay/Always.antt =====
-- The relay reservations of a node from its start on, over any moves: core/src/runtime/node.rs and
-- core/src/runtime/event_loop.rs.
use swarm_p2p.Prelude.{
  ℕ, ◌+◌, ◌≡◌, inl, inr, Bool, Option-cases, Poll, ready, pending, panicked, Option, none, some,
  List, [], ◌∷◌, arith, length, if◌then◌else◌, take_at,
}
use swarm_p2p.Prelude.Map.{IsMap}
use swarm_p2p.DataChannel.{DataChannel}
use swarm_p2p.Error.{Error, Result, ok, err, ok_injective}
use swarm_p2p.Handle.{Channel, recv}
use swarm_p2p.Config.{NodeConfig}
use swarm_p2p.Swarm.{Types, Swarm, Trace}
use swarm_p2p.Command.Active.Queue.{Active, active_trait}
use swarm_p2p.EventLoop.{EventLoop, start_listen, connect_bootstrap_peers}
use swarm_p2p.EventLoop.Relay.Conserved.{balance, connect-Adds}
use swarm_p2p.Node.{start_node, after_listening, loop_of}
use swarm_p2p.Node.Started.{Listened, start_listen-Listened}
use swarm_p2p.Node.Process.{
  Process, Move, turned, asked, polled_at, abandoned_at, received, unheard, dropped_at,
  unwrapped_at, launched, take_received, move, moves,
}
use swarm_p2p.Node.Process.Relay.{Grown}
use swarm_p2p.Node.Process.Relay.Turn.{selected_for, turn-Grown}

module _ {T : Types} (sw : Swarm T) where
  -- The relay addresses that are registered from a start on: the bootstrap peers', and those of the
  -- infrastructure peers that commands add.
  abbrev pub moved_for : Bool → Move sw (active_trait sw) → ℕ
  moved_for relay_client (turned env selected) = selected_for sw relay_client selected
  moved_for relay_client _ = 0

  abbrev pub asked_by : Bool → List (Move sw (active_trait sw)) → ℕ
  asked_by relay_client [] = 0
  asked_by relay_client (m ∷ ms) = moved_for relay_client m + asked_by relay_client ms

  abbrev pub begun_with : NodeConfig → ℕ
  begun_with config =
      length config.listen_addrs
      + (if config.enable_relay_client then length config.bootstrap_peers else 0)

  received-Grown :
      (r : Poll (Option DataChannel) × Channel DataChannel) (s : Process T (Active T))
      → IsMap s.loop.bootstrap_peers
      → Grown 0 s.loop (take_received r s).loop
  received-Grown (ready (some channel), rx) s k = record { sum = omega arith; kept = k }
  received-Grown (ready none, rx) s k = record { sum = omega arith; kept = k }
  received-Grown (pending, rx) s k = record { sum = omega arith; kept = k }
  received-Grown (panicked, rx) s k = record { sum = omega arith; kept = k }

  -- A start that succeeds holds what the configuration registers.
  begun-Grown :
      (config : NodeConfig) (next_id : ℕ) (listened : Trace T × Result (Unit {0}) Error)
      (loop : EventLoop T (Active T))
      → Listened sw config.listen_addrs [] listened
      → (after_listening config next_id listened).1 ≡ ok loop
      → (balance loop ≡ begun_with config) × IsMap loop.bootstrap_peers
  begun-Grown config next_id (trace, err e) loop heard started = cc
  begun-Grown config next_id (trace, ok u) loop (n, d, accepted) started =
      let begun : EventLoop T (Active T) = loop_of config next_id trace in
      let (b, c, m) = connect-Adds config.bootstrap_peers begun tt in
      let same : connect_bootstrap_peers config.bootstrap_peers begun ≡ loop =
        ok_injective started in
      rw (← same) (omega (arith, b, n), m)

  module _ (relay_client : Bool)
      (steady : (trace : Trace T) → sw.relay_client_is_enabled trace ≡ relay_client) where
    move-Grown :
        (m : Move sw (active_trait sw)) (s : Process T (Active T))
        → IsMap s.loop.bootstrap_peers
        → Grown (moved_for relay_client m) s.loop (move sw (active_trait sw) m s).loop
    unfolding move
    move-Grown (turned env selected) s k = turn-Grown sw relay_client steady env selected s.loop k
    move-Grown (asked start) s k = record { sum = omega arith; kept = k }
    move-Grown (polled_at i answer) s k = elim (Option-cases (take_at i s.futures)) [
      | inl missing ↦ rw missing (record { sum = omega arith; kept = k })
      | inr ((st, others), found) ↦ rw found (record { sum = omega arith; kept = k })
    ]
    move-Grown (abandoned_at i) s k = elim (Option-cases (take_at i s.futures)) [
      | inl missing ↦ rw missing (record { sum = omega arith; kept = k })
      | inr ((st, others), found) ↦ rw found (record { sum = omega arith; kept = k })
    ]
    move-Grown received s k = received-Grown (recv 1 s.loop.inbound_dc_tx) s k
    move-Grown unheard s k = record { sum = omega arith; kept = k }
    move-Grown (dropped_at i) s k = elim (Option-cases (take_at i s.channels)) [
      | inl missing ↦ rw missing (record { sum = omega arith; kept = k })
      | inr ((c, others), found) ↦ rw found (record { sum = omega arith; kept = k })
    ]
    move-Grown (unwrapped_at i) s k = elim (Option-cases (take_at i s.channels)) [
      | inl missing ↦ rw missing (record { sum = omega arith; kept = k })
      | inr ((c, others), found) ↦ rw found (record { sum = omega arith; kept = k })
    ]

    moves-Grown :
        (ms : List (Move sw (active_trait sw))) (s : Process T (Active T))
        → IsMap s.loop.bootstrap_peers
        → balance (moves sw (active_trait sw) ms s).loop ≡ balance s.loop + asked_by relay_client ms
    unfolding moves
    moves-Grown [] s k = omega arith
    moves-Grown (m ∷ ms) s k =
        let g = move-Grown m s k in
        omega (arith, g.sum, moves-Grown ms (move sw (active_trait sw) m s) g.kept)

    -- From a start of the node that succeeds, whatever commands the loop runs, whatever events and
    -- streams it takes and whatever clients and the user do, in any order, where the relay client
    -- stays enabled or stays disabled: the calls to listen and the addresses that still wait for their
    -- relay to be identified number together exactly the configured listen addresses, the bootstrap
    -- entries if the configuration enables the relay client, and the addresses of the reservations
    -- that the commands to add an infrastructure peer ask for.
    pub moves-balance :
        (config : NodeConfig) (next_id : ℕ) (loop : EventLoop T (Active T))
        (ms : List (Move sw (active_trait sw)))
        → (start_node sw config next_id).1 ≡ ok loop
        → balance (moves sw (active_trait sw) ms (launched loop)).loop
          ≡ begun_with config + asked_by relay_client ms
    unfolding start_node
    moves-balance config next_id loop ms started =
        let (b, m) =
          begun-Grown config next_id (start_listen sw config.listen_addrs []) loop
            (start_listen-Listened sw config.listen_addrs []) started in
        omega (arith, b, moves-Grown ms (launched loop) m)
