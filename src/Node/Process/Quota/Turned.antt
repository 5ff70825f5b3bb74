-- ===== src/Node/Process/Quota/Turned.antt =====
-- The quota over a turn of the loop in core/src/runtime/event_loop.rs, between the other moves of a
-- node.
use swarm_p2p.Prelude.{
  ◌≡◌, refl, ap, inl, inr, not, Option-cases, Option, none, some, ◌∷◌, ◌++◌, retain,
}
use swarm_p2p.DataChannel.{
  PeerId, StreamProtocol, Stream, inbound, DataChannelLimits, ChannelGuard, DataChannel,
  next_channel_id,
}
use swarm_p2p.DataChannel.Registry.{RegistryInner}
use swarm_p2p.DataChannel.Quota.{IsUsize, try_acquire-Acquires}
use swarm_p2p.DataChannel.Bounds.{with_guard, granted-IsSound}
use swarm_p2p.DataChannel.Bounds.Moves.{SoundWith, SoundWith-Same, drop_guard-SoundWith}
use swarm_p2p.Handle.{try_send}
use swarm_p2p.Swarm.{Types, Swarm, polled}
use swarm_p2p.Command.{CommandTrait}
use swarm_p2p.EventLoop.{EventLoop, Env}
use swarm_p2p.EventLoop.Inbound.{hand_over, accept_channel, handle_inbound_channel}
use swarm_p2p.EventLoop.Run.{handle_selected, Selected, command, swarm_event, inbound_channel, turn}
use swarm_p2p.Node.Process.{Process}
use swarm_p2p.Node.Process.Share.{Share, share, share-handle_command, share-handle_swarm_event}
use swarm_p2p.DataChannel.OpenQuota.{held}
use swarm_p2p.Node.Process.Parts.{queued_parts}
use swarm_p2p.Node.Process.Quota.{IsWithin, guard_in, guards}

module _ {T : Types} {C : Type 0} where
  abbrev with_loop : EventLoop T C → Process T C → Process T C
  with_loop loop s = record s { loop = loop }

module _ {T : Types} {C : Type 0} {limits : DataChannelLimits} where
  -- A loop with the same share keeps the quota.
  share-IsWithin :
      (s : Process T C) (loop : EventLoop T C)
      → share loop ≡ share s.loop
      → IsWithin limits s
      → IsWithin limits (with_loop loop s)
  share-IsWithin s loop e v = record {
    limited = rw (ap (λ (x : Share). x.0) e) v.limited;
    sound = rw (ap (λ (x : Share). x.1) e, ap (λ (x : Share). x.2) e) v.sound;
  }

  module _ (s : Process T C) (loop : EventLoop T C) (limited : loop.dc_limits ≡ limits) where
    -- An accepted stream's channel holds the guard that was acquired for it.
    hand_over-IsWithin :
        (g : ChannelGuard) (channel : DataChannel)
        → channel.guard ≡ some g
        → SoundWith limits loop.dc_registry (guard_in channel ++ guards (with_loop loop s))
        → IsWithin limits (with_loop (hand_over (try_send channel loop.inbound_dc_tx) g loop) s)
    hand_over-IsWithin g channel own v = elim (Option-cases (try_send channel loop.inbound_dc_tx)) [
      | inl full ↦ rw full (record {
        limited = limited;
        sound = drop_guard-SoundWith g (guards (with_loop loop s)) (rw own at v) (λ f. refl);
      })
      | inr (tx, sent) ↦ rw sent (record {
        limited = limited;
        sound =
            SoundWith-Same _ v
              (queued_parts held guard_in s.futures s.channels loop.inbound_dc_tx channel tx sent);
      })
    ]

  accepted-IsWithin :
      (s : Process T C) (peer : PeerId) (protocol : StreamProtocol) (stream : Stream)
      (r : RegistryInner × Option ChannelGuard)
      → s.loop.dc_limits ≡ limits
      → SoundWith limits r.0 (with_guard r.1 (guards s))
      → IsWithin limits (with_loop (accept_channel peer protocol stream r s.loop) s)
  unfolding next_channel_id
  accepted-IsWithin s peer protocol stream (inner, none) limited v = record {
    limited = limited;
    sound = v;
  }
  accepted-IsWithin s peer protocol stream (inner, some g) limited v =
      let (id, counter) = next_channel_id s.loop.next_channel_id in
      let channel : DataChannel = record {
        id = id;
        peer = peer;
        protocol = protocol;
        direction = inbound;
        stream = stream;
        guard = some g;
      } in
      hand_over-IsWithin s (record s.loop { dc_registry = inner; next_channel_id = counter })
        limited g channel refl v

  inbound-IsWithin :
      (s : Process T C) (protocol : StreamProtocol) (peer : PeerId) (stream : Stream)
      → IsUsize limits
      → IsWithin limits s
      → IsWithin limits (with_loop (handle_inbound_channel protocol peer stream s.loop) s)
  unfolding handle_inbound_channel
  inbound-IsWithin s protocol peer stream u v =
      accepted-IsWithin s peer protocol stream _ v.limited (
        rw v.limited (
          granted-IsSound v.sound peer protocol inbound _
            (try_acquire-Acquires u v.sound.backs peer protocol inbound)))

  module _ (sw : Swarm T) (cmds : CommandTrait T C) (env : Env) where
    selected-IsWithin :
        (s : Process T C) (selected : Selected sw cmds)
        → IsUsize limits
        → IsWithin limits s
        → IsWithin limits (with_loop (handle_selected sw cmds env selected s.loop) s)
    selected-IsWithin s (command cmd) u v =
        share-IsWithin s _ (share-handle_command sw env cmds cmd s.loop) v
    selected-IsWithin s (swarm_event event) u v =
        share-IsWithin s _
          (share-handle_swarm_event sw env cmds event
            (record s.loop { trace = polled ∷ s.loop.trace }))
          v
    selected-IsWithin s (inbound_channel protocol peer stream) u v =
        inbound-IsWithin s protocol peer stream u v

    pub turned-IsWithin :
        (s : Process T C) (selected : Selected sw cmds)
        → IsUsize limits
        → IsWithin limits s
        → IsWithin limits (with_loop (turn sw cmds env selected s.loop) s)
    unfolding turn
    turned-IsWithin s selected u v =
        let kept = retain (λ c. not (cmds.is_cancelled c)) s.loop.active_commands in
        selected-IsWithin (with_loop (record s.loop { active_commands = kept }) s) selected u
          (record { limited = v.limited; sound = v.sound })
