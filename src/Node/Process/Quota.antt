-- ===== src/Node/Process/Quota.antt =====
-- The quota of a whole node over any moves: core/src/data_channel.rs under core/src/runtime/event_loop.rs,
-- core/src/client/data_channel_open.rs and the user.
pub mod Turned
pub mod Always
use swarm_p2p.Prelude.{
  ℕ, ◌+◌, ◌≡◌, refl, ap, inl, inr, Bool, Poll, ready, pending, panicked, Option, none, some, List,
  [], ◌∷◌, ◌++◌, arith, tally, tally-append, take_at, flat_map, tally-flat_map-append,
  tally-flat_map-take_at, Option-cases,
}
use swarm_p2p.DataChannel.{DataChannelLimits, ChannelGuard, DataChannel}
use swarm_p2p.DataChannel.Registry.{RegistryInner}
use swarm_p2p.DataChannel.Quota.{IsUsize}
use swarm_p2p.DataChannel.Bounds.{with_guard}
use swarm_p2p.DataChannel.Bounds.Moves.{
  SoundWith, SoundWith-Same, release-SoundWith, Keeps, poll_open-Keeps, drop_open-SoundWith,
}
use swarm_p2p.DataChannel.Channel.{drop_channel, into_stream}
use swarm_p2p.DataChannel.Open.{OpenState, init, OpenAnswer, Polled, poll_open}
use swarm_p2p.DataChannel.OpenQuota.{held, handed_over}
use swarm_p2p.Error.{Error, Result, ok, err}
use swarm_p2p.Handle.{Channel, recv}
use swarm_p2p.Swarm.{Types, Swarm}
use swarm_p2p.Command.{CommandTrait}
use swarm_p2p.EventLoop.{EventLoop}
use swarm_p2p.Node.Process.{
  Process, Move, turned, asked, polled_at, abandoned_at, received, unheard, dropped_at,
  unwrapped_at, returned, shared, after_poll, poll_taken, abandon, take_received, drop_channels,
  drop_receiver, drop_taken, unwrap_taken, move, moves,
}
use swarm_p2p.Node.Process.Parts.{
  all_parts, one_first, queue_first, future_first, channel_first, polled_parts, received_parts,
}

abbrev pub guard_in : DataChannel → List ChannelGuard
guard_in c = with_guard c.guard []

-- The guards of a node: those of the futures, of the consumer's queue and of the user's channels.
abbrev pub guards : {T : Types} {C : Type 0} → Process T C → List ChannelGuard
guards s = all_parts held guard_in s

tally-returned :
    (f : ChannelGuard → Bool) (r : Poll (Result DataChannel Error))
    → tally f (flat_map guard_in (returned r)) ≡ tally f (handed_over r)
tally-returned f (ready (ok channel)) = omega (arith, tally-append f (guard_in channel) [])
tally-returned f (ready (err e)) = refl
tally-returned f pending = refl
tally-returned f panicked = refl

-- The channels of a queue that is dropped give back what they hold.
drop_channels-SoundWith :
    {limits : DataChannelLimits} (cs : List DataChannel) {inner : RegistryInner}
    (others : List ChannelGuard)
    → SoundWith limits inner (flat_map guard_in cs ++ others)
    → SoundWith limits (drop_channels cs inner) others
unfolding drop_channels drop_channel
drop_channels-SoundWith [] others v = v
drop_channels-SoundWith (c ∷ cs) others v = drop_channels-SoundWith cs others (
    release-SoundWith c.guard (flat_map guard_in cs ++ others)
      (SoundWith-Same _ v (one_first guard_in c cs others)))

module _ {T : Types} {C : Type 0} where
  -- The limits are those of the start, the counters are the tallies of the live guards, wherever
  -- they are, and none exceeds its limit.
  pub record IsWithin (limits : DataChannelLimits) (s : Process T C) : Type 0 where
    pub limited : s.loop.dc_limits ≡ limits
    pub sound : SoundWith limits s.loop.dc_registry (guards s)

  module _ {limits : DataChannelLimits} {s : Process T C} (v : IsWithin limits s) where
    pub dropped-IsWithin :
        (i : ℕ) (c : DataChannel) (others : List DataChannel)
        → take_at i s.channels ≡ some (c, others)
        → IsWithin limits (drop_taken (some (c, others)) s)
    unfolding drop_channel
    dropped-IsWithin i c others e = record {
      limited = v.limited;
      sound = release-SoundWith c.guard (guards (record s { channels = others })) (
          SoundWith-Same _ v.sound (
            channel_first held guard_in s.futures s.loop.inbound_dc_tx.queue s.channels i c others
              e));
    }

    pub unwrapped-IsWithin :
        (i : ℕ) (c : DataChannel) (others : List DataChannel)
        → take_at i s.channels ≡ some (c, others)
        → IsWithin limits (unwrap_taken (some (c, others)) s)
    unfolding into_stream drop_channel
    unwrapped-IsWithin i c others e = dropped-IsWithin i c others e

    pub abandoned-IsWithin :
        (i : ℕ) (st : OpenState) (others : List OpenState)
        → take_at i s.futures ≡ some (st, others)
        → IsWithin limits (abandon (some (st, others)) s)
    abandoned-IsWithin i st others e = record {
      limited = v.limited;
      sound = drop_open-SoundWith (guards (record s { futures = others })) st (shared s) (
          SoundWith-Same _ v.sound (
            future_first held guard_in s.futures s.loop.inbound_dc_tx.queue s.channels i st others
              e));
    }

    after_poll-IsWithin :
        (others : List OpenState) (p : Polled)
        → Keeps limits p (guards (record s { futures = others }))
        → IsWithin limits (after_poll others p s)
    after_poll-IsWithin others (sh, st, r) k = record {
      limited = v.limited;
      sound = SoundWith-Same _ k (
          polled_parts held guard_in others s.loop.inbound_dc_tx.queue s.channels st (returned r)
            (handed_over r) λ f. tally-returned f r);
    }

    pub polled-IsWithin :
        IsUsize limits
        → (i : ℕ) (answer : OpenAnswer) (st : OpenState) (others : List OpenState)
        → take_at i s.futures ≡ some (st, others)
        → IsWithin limits (poll_taken answer (some (st, others)) s)
    polled-IsWithin u i answer st others e =
        after_poll-IsWithin others (poll_open s.loop.dc_limits st answer (shared s)) (
          rw v.limited (
            poll_open-Keeps (guards (record s { futures = others })) st answer (shared s) u (
              SoundWith-Same _ v.sound (
                future_first held guard_in s.futures s.loop.inbound_dc_tx.queue s.channels i st
                  others e))))

    pub received-IsWithin :
        (r : Poll (Option DataChannel) × Channel DataChannel)
        → recv 1 s.loop.inbound_dc_tx ≡ r
        → IsWithin limits (take_received r s)
    received-IsWithin (ready (some channel), rx) e = record {
      limited = v.limited;
      sound =
          SoundWith-Same _ v.sound
            (received_parts held guard_in s.futures s.channels s.loop.inbound_dc_tx channel rx e);
    }
    received-IsWithin (ready none, rx) e = v
    received-IsWithin (pending, rx) e = v
    received-IsWithin (panicked, rx) e = v

    pub unheard-IsWithin : IsWithin limits (drop_receiver s)
    unheard-IsWithin = record {
      limited = v.limited;
      sound = drop_channels-SoundWith s.loop.inbound_dc_tx.queue (guards (drop_receiver s)) (
          SoundWith-Same _ v.sound
            (queue_first held guard_in s.futures s.loop.inbound_dc_tx.queue s.channels));
    }
