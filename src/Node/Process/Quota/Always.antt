-- ===== src/Node/Process/Quota/Always.antt =====
-- The quota of a node that has started, over any moves: core/src/runtime/node.rs,
-- core/src/runtime/event_loop.rs, core/src/client/data_channel_open.rs and core/src/data_channel.rs.
use swarm_p2p.Prelude.{ℕ, ◌≡◌, refl, ap, inl, inr, Option-cases, List, [], ◌∷◌, take_at}
use swarm_p2p.DataChannel.{DataChannelLimits}
use swarm_p2p.DataChannel.Quota.{IsUsize}
use swarm_p2p.DataChannel.Bounds.{fresh-IsSound}
use swarm_p2p.Handle.{recv}
use swarm_p2p.Swarm.{Types, Swarm}
use swarm_p2p.Command.{CommandTrait}
use swarm_p2p.EventLoop.{EventLoop}
use swarm_p2p.Error.{ok}
use swarm_p2p.Config.{NodeConfig}
use swarm_p2p.Node.{start_node, loop_of}
use swarm_p2p.Node.Process.Share.{Share, share, share-start_node}
use swarm_p2p.Node.Process.{
  Process, Move, turned, asked, polled_at, abandoned_at, received, unheard, dropped_at,
  unwrapped_at, launched, move, moves,
}
use swarm_p2p.Node.Process.Quota.{
  IsWithin, dropped-IsWithin, unwrapped-IsWithin, abandoned-IsWithin, polled-IsWithin,
  received-IsWithin, unheard-IsWithin,
}
use swarm_p2p.Node.Process.Quota.Turned.{turned-IsWithin}

module _ {T : Types} {C : Type 0} (sw : Swarm T) (cmds : CommandTrait T C)
    {limits : DataChannelLimits} where
  move-IsWithin :
      (s : Process T C) (m : Move sw cmds)
      → IsUsize limits
      → IsWithin limits s
      → IsWithin limits (move sw cmds m s)
  unfolding move
  move-IsWithin s (turned env selected) u v = turned-IsWithin sw cmds env s selected u v
  move-IsWithin s (asked start) u v = record { limited = v.limited; sound = v.sound }
  move-IsWithin s (polled_at i answer) u v = elim (Option-cases (take_at i s.futures)) [
    | inl missing ↦ rw missing v
    | inr ((st, others), found) ↦ rw found (polled-IsWithin v u i answer st others found)
  ]
  move-IsWithin s (abandoned_at i) u v = elim (Option-cases (take_at i s.futures)) [
    | inl missing ↦ rw missing v
    | inr ((st, others), found) ↦ rw found (abandoned-IsWithin v i st others found)
  ]
  move-IsWithin s received u v = received-IsWithin v (recv 1 s.loop.inbound_dc_tx) refl
  move-IsWithin s unheard u v = unheard-IsWithin v
  move-IsWithin s (dropped_at i) u v = elim (Option-cases (take_at i s.channels)) [
    | inl missing ↦ rw missing v
    | inr ((c, others), found) ↦ rw found (dropped-IsWithin v i c others found)
  ]
  move-IsWithin s (unwrapped_at i) u v = elim (Option-cases (take_at i s.channels)) [
    | inl missing ↦ rw missing v
    | inr ((c, others), found) ↦ rw found (unwrapped-IsWithin v i c others found)
  ]

  moves-IsWithin_from :
      (ms : List (Move sw cmds)) (s : Process T C)
      → IsUsize limits
      → IsWithin limits s
      → IsWithin limits (moves sw cmds ms s)
  unfolding moves
  moves-IsWithin_from [] s u v = v
  moves-IsWithin_from (m ∷ ms) s u v =
      moves-IsWithin_from ms (move sw cmds m s) u (move-IsWithin s m u v)

begun-IsWithin :
    {T : Types} {C : Type 0} (config : NodeConfig) (next_id : ℕ) (loop : EventLoop T C)
    → share loop ≡ share (loop_of {T = T} {C = C} config next_id [])
    → IsWithin config.data_channel_limits (launched loop)
begun-IsWithin config next_id loop e = record {
  limited = ap (λ (x : Share). x.0) e;
  sound =
      rw (ap (λ (x : Share). x.1) e, ap (λ (x : Share). x.2) e)
        (fresh-IsSound config.data_channel_limits);
}

module _ {T : Types} {C : Type 0} (sw : Swarm T) (cmds : CommandTrait T C) where
  -- From a start of the node that succeeds, whatever turns the loop takes, whatever clients open,
  -- poll and abandon, and whatever the user receives, drops or takes apart, in any order: the limits
  -- stay those of the configuration, the registry's counters are the tallies of the guards in the
  -- unfinished futures, the consumer's queue and the channels of the user, with no counter of 0
  -- kept, and no peer's guards in one direction nor a protocol's in both exceed their limit. The
  -- limits are `usize`.
  pub moves-IsWithin :
      (config : NodeConfig) (next_id : ℕ) (loop : EventLoop T C) (ms : List (Move sw cmds))
      → (start_node sw config next_id).1 ≡ ok loop
      → IsUsize config.data_channel_limits
      → IsWithin config.data_channel_limits (moves sw cmds ms (launched loop))
  moves-IsWithin config next_id loop ms started u =
      moves-IsWithin_from sw cmds ms (launched loop) u
        (begun-IsWithin config next_id loop (share-start_node sw config next_id loop started))
