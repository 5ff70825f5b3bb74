-- ===== src/DataChannel/Bounds/Moves.antt =====
-- What a drop, a channel's end and a poll of an opening future do to a sound registry of
-- core/src/data_channel.rs. The live guards are counted, whatever their order.
use swarm_p2p.Prelude.{refl, Option, none, some, List, [], ◌∷◌, ◌++◌, arith, Same}
use swarm_p2p.DataChannel.{DataChannelLimits, ChannelGuard, outbound}
use swarm_p2p.DataChannel.Registry.{RegistryInner, drop_guard}
use swarm_p2p.DataChannel.Quota.{IsUsize, Acquires, try_acquire-Acquires}
use swarm_p2p.DataChannel.Quota.Drops.{Without, drop_guard-Backs}
use swarm_p2p.DataChannel.Quota
use swarm_p2p.DataChannel.Bounds.{IsSound, with_guard, granted-IsSound}
use swarm_p2p.DataChannel.Channel.{release}
use swarm_p2p.DataChannel.Open.{
  OpenState, init, opening, finished, OpenInit, Opening, OpenAnswer, waiting, answered, elapsed,
  Shared, Polled, poll_open, drop_open, open_stream_with_guard, after_poll, poll_opened,
  opened_with,
}
use swarm_p2p.DataChannel.OpenQuota.{held, handed_over}
use swarm_p2p.Error.{ok, err}

abbrev pub SoundWith : DataChannelLimits → RegistryInner → List ChannelGuard → Type 0
SoundWith limits inner guards = IsSound limits (record { inner = inner; guards = guards })

-- After a poll: what the future still holds, what it has returned, and the others.
abbrev pub Keeps : DataChannelLimits → Polled → List ChannelGuard → Type 0
Keeps limits (s, st, r) others = SoundWith limits s.inner (held st ++ (handed_over r ++ others))

module _ {limits : DataChannelLimits} where
  pub SoundWith-Same :
      {inner : RegistryInner} {gs : List ChannelGuard} (hs : List ChannelGuard)
      → SoundWith limits inner gs
      → Same gs hs
      → SoundWith limits inner hs
  SoundWith-Same hs v same = record {
    backs = record {
      peers = λ d p. rw (← same (Quota.of_peer d p)) (v.backs.peers d p);
      protocols = λ q. rw (← same (Quota.of_protocol q)) (v.backs.protocols q);
    };
    within_peer = λ d p. rw (← same (Quota.of_peer d p)) (v.within_peer d p);
    within_protocol = λ q. rw (← same (Quota.of_protocol q)) (v.within_protocol q);
  }

  pub drop_guard-SoundWith :
      {inner : RegistryInner} {gs : List ChannelGuard} (g : ChannelGuard) (rest : List ChannelGuard)
      → SoundWith limits inner gs
      → Without gs g rest
      → SoundWith limits (drop_guard inner g) rest
  drop_guard-SoundWith g rest v without = record {
    backs = drop_guard-Backs rest v.backs g without;
    within_peer = λ d p. ground (arith, v.within_peer d p, without (Quota.of_peer d p));
    within_protocol = λ q. ground (arith, v.within_protocol q, without (Quota.of_protocol q));
  }

  -- A handle that goes gives back what it holds.
  pub release-SoundWith :
      {inner : RegistryInner} (guard : Option ChannelGuard) (others : List ChannelGuard)
      → SoundWith limits inner (with_guard guard [] ++ others)
      → SoundWith limits (release guard inner) others
  release-SoundWith none others v = v
  release-SoundWith (some g) others v = drop_guard-SoundWith g others v (λ f. refl)

  opening-Keeps :
      (others : List ChannelGuard) (o : Opening) (answer : OpenAnswer) (s : Shared)
      → SoundWith limits s.inner (o.guard ∷ others)
      → Keeps limits (after_poll (open_stream_with_guard o answer s)) others
  unfolding open_stream_with_guard
  opening-Keeps others o waiting s v = v
  opening-Keeps others o (answered (ok stream)) s v = v
  opening-Keeps others o (answered (err e)) s v = drop_guard-SoundWith o.guard others v (λ f. refl)
  opening-Keeps others o elapsed s v = drop_guard-SoundWith o.guard others v (λ f. refl)

  opened-Keeps :
      (others : List ChannelGuard) (start : OpenInit) (answer : OpenAnswer) (s : Shared)
      (r : RegistryInner × Option ChannelGuard)
      → SoundWith limits r.0 (with_guard r.1 others)
      → Keeps limits (poll_opened s answer (opened_with start r)) others
  opened-Keeps others start answer s (inner, none) v = v
  opened-Keeps others start answer s (inner, some g) v =
      opening-Keeps others _ answer (record s { inner = inner }) v

  pub poll_open-Keeps :
      (others : List ChannelGuard) (st : OpenState) (answer : OpenAnswer) (s : Shared)
      → IsUsize limits
      → SoundWith limits s.inner (held st ++ others)
      → Keeps limits (poll_open limits st answer s) others
  unfolding poll_open
  poll_open-Keeps others (init start) answer s u v = opened-Keeps others start answer s _ (
      granted-IsSound v start.peer_id start.protocol outbound _
        (try_acquire-Acquires u v.backs start.peer_id start.protocol outbound))
  poll_open-Keeps others (opening o) answer s u v = opening-Keeps others o answer s v
  poll_open-Keeps others finished answer s u v = v

  pub drop_open-SoundWith :
      (others : List ChannelGuard) (st : OpenState) (s : Shared)
      → SoundWith limits s.inner (held st ++ others)
      → SoundWith limits (drop_open st s).inner others
  unfolding drop_open
  drop_open-SoundWith others (init start) s v = v
  drop_open-SoundWith others (opening o) s v = drop_guard-SoundWith o.guard others v (λ f. refl)
  drop_open-SoundWith others finished s v = v
