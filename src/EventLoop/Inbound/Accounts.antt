-- ===== src/EventLoop/Inbound/Accounts.antt =====
-- What `handle_inbound_channel` of core/src/runtime/event_loop.rs does to the quota and the
-- consumer's channel.
use swarm_p2p.Prelude.{
  ◌≡◌, refl, inl, inr, true, false, Option, none, some, List, ◌∷◌, Option-cases,
}
use swarm_p2p.DataChannel.{
  PeerId, StreamProtocol, Stream, inbound, ChannelGuard, DataChannel, next_channel_id,
}
use swarm_p2p.DataChannel.Registry.{RegistryInner, try_acquire}
use swarm_p2p.DataChannel.Quota.{Backs, IsUsize, Acquires, has_room, guard_of, try_acquire-Acquires}
use swarm_p2p.DataChannel.Quota.Drops.{drop_guard-Backs}
use swarm_p2p.Handle.{try_send}
use swarm_p2p.Swarm.{Types}
use swarm_p2p.EventLoop.{EventLoop}
use swarm_p2p.EventLoop.Inbound.{accept_channel, handle_inbound_channel}

module _ {T : Types} {C : Type 0} where
  abbrev pub channel_of : EventLoop T C → PeerId → StreamProtocol → Stream → DataChannel
  channel_of s peer protocol stream = record {
    id = record { value = s.next_channel_id };
    peer = peer;
    protocol = protocol;
    direction = inbound;
    stream = stream;
    guard = some (guard_of peer protocol inbound);
  }

  module _ (guards : List ChannelGuard) (peer : PeerId) (protocol : StreamProtocol)
      (stream : Stream) (s : EventLoop T C) where
    -- What becomes of the loop's state `s` with the live guards `guards`.
    pub data Handled (after : EventLoop T C) : Type 0 where
      refused :
          has_room s.dc_limits guards peer protocol inbound ≡ false → after ≡ s → Handled after
      dropped :
          has_room s.dc_limits guards peer protocol inbound ≡ true
          → try_send (channel_of s peer protocol stream) s.inbound_dc_tx ≡ none
          → Backs after.dc_registry guards
          → after.inbound_dc_tx ≡ s.inbound_dc_tx
          → Handled after
      accepted :
          has_room s.dc_limits guards peer protocol inbound ≡ true
          → try_send (channel_of s peer protocol stream) s.inbound_dc_tx ≡ some after.inbound_dc_tx
          → Backs after.dc_registry (guard_of peer protocol inbound ∷ guards)
          → Handled after

    handed_over :
        (inner : RegistryInner)
        → has_room s.dc_limits guards peer protocol inbound ≡ true
        → Backs inner (guard_of peer protocol inbound ∷ guards)
        → Handled
            (accept_channel peer protocol stream (inner, some (guard_of peer protocol inbound)) s)
    unfolding next_channel_id
    handed_over inner room b =
        elim (Option-cases (try_send (channel_of s peer protocol stream) s.inbound_dc_tx)) [
          | inl full ↦ rw full (
              dropped room full
                (drop_guard-Backs guards b (guard_of peer protocol inbound) (λ f. refl)) refl)
          | inr (tx, sent) ↦ rw sent (accepted room sent b)
        ]

    accept_channel-Handled :
        (r : RegistryInner × Option ChannelGuard)
        → Acquires s.dc_limits guards s.dc_registry peer protocol inbound r
        → Handled (accept_channel peer protocol stream r s)
    accept_channel-Handled (inner, none) (full, same) = rw same (refused full refl)
    accept_channel-Handled (inner, some g) (room, own, b) =
        rw own (handed_over inner room (rw own at b))

    -- With counters backed by the live guards, an inbound stream is refused, and nothing changes, if a
    -- limit is reached. Otherwise it gets a channel: if the consumer's queue takes the channel, the
    -- counters afterwards back the live guards with the channel's own, and if the queue is full or
    -- closed, it is unchanged and the counters back the same guards as before. The limits are `usize`.
    pub handle_inbound_channel-Handled :
        IsUsize s.dc_limits
        → Backs s.dc_registry guards
        → Handled (handle_inbound_channel protocol peer stream s)
    unfolding handle_inbound_channel
    handle_inbound_channel-Handled u b =
        accept_channel-Handled (try_acquire s.dc_limits s.dc_registry peer protocol inbound)
          (try_acquire-Acquires u b peer protocol inbound)
