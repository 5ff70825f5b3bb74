-- ===== src/DataChannel/OpenQuota.antt =====
-- core/src/client/data_channel_open.rs: an opening future holds one guard from its first poll until
-- it fails, is dropped, or hands the guard to its channel.
use swarm_p2p.Prelude.{
  Poll, ready, pending, panicked, refl, Option, none, some, List, [], ◌∷◌, ◌++◌,
}
use swarm_p2p.DataChannel.{DataChannelLimits, ChannelGuard, DataChannel, outbound}
use swarm_p2p.DataChannel.Registry.{RegistryInner}
use swarm_p2p.DataChannel.Quota.{Backs, IsUsize, Acquires, try_acquire-Acquires}
use swarm_p2p.DataChannel.Quota.Drops.{drop_guard-Backs}
use swarm_p2p.DataChannel.Bounds.{with_guard}
use swarm_p2p.DataChannel.Open.{
  OpenState, init, opening, finished, OpenInit, Opening, OpenAnswer, waiting, answered, elapsed,
  Shared, Polled, poll_open, drop_open, open_stream_with_guard, after_poll, poll_opened,
  opened_with,
}
use swarm_p2p.Error.{Error, Result, ok, err}

abbrev pub held : OpenState → List ChannelGuard
held (opening o) = o.guard ∷ []
held _ = []

-- The guard that a returned channel owns.
abbrev pub handed_over : Poll (Result DataChannel Error) → List ChannelGuard
handed_over (ready (ok channel)) = with_guard channel.guard []
handed_over _ = []

abbrev pub Accounts : Polled → List ChannelGuard → Type 0
Accounts (s, st, r) others = Backs s.inner (held st ++ (handed_over r ++ others))

opening-Accounts :
    (others : List ChannelGuard) (o : Opening) (answer : OpenAnswer) (s : Shared)
    → Backs s.inner (o.guard ∷ others)
    → Accounts (after_poll (open_stream_with_guard o answer s)) others
unfolding open_stream_with_guard
opening-Accounts others o waiting s b = b
opening-Accounts others o (answered (ok stream)) s b = b
opening-Accounts others o (answered (err e)) s b = drop_guard-Backs others b o.guard (λ f. refl)
opening-Accounts others o elapsed s b = drop_guard-Backs others b o.guard (λ f. refl)

opened-Accounts :
    (limits : DataChannelLimits) (others : List ChannelGuard) (start : OpenInit)
    (answer : OpenAnswer) (s : Shared) (r : RegistryInner × Option ChannelGuard)
    → Backs s.inner others
    → Acquires limits others s.inner start.peer_id start.protocol outbound r
    → Accounts (poll_opened s answer (opened_with start r)) others
opened-Accounts limits others start answer s (inner, none) b (full, same) = rw same b
opened-Accounts limits others start answer s (inner, some g) b (room, mine, grown) =
    opening-Accounts others _ answer (record s { inner = inner }) grown

-- One poll, whatever it is answered, leaves counters that back the guard of a future still
-- pending, or of the channel that it returned, and those of the others. The limits are `usize`.
pub poll_open-Accounts :
    (limits : DataChannelLimits) (others : List ChannelGuard) (st : OpenState) (answer : OpenAnswer)
    (s : Shared)
    → IsUsize limits
    → Backs s.inner (held st ++ others)
    → Accounts (poll_open limits st answer s) others
unfolding poll_open
poll_open-Accounts limits others (init start) answer s u b =
    opened-Accounts limits others start answer s _ b
      (try_acquire-Acquires u b start.peer_id start.protocol outbound)
poll_open-Accounts limits others (opening o) answer s u b = opening-Accounts others o answer s b
poll_open-Accounts limits others finished answer s u b = b

drop_open-Backs :
    (others : List ChannelGuard) (st : OpenState) (s : Shared)
    → Backs s.inner (held st ++ others)
    → Backs (drop_open st s).inner others
unfolding drop_open
drop_open-Backs others (init start) s b = b
drop_open-Backs others (opening o) s b = drop_guard-Backs others b o.guard (λ f. refl)
drop_open-Backs others finished s b = b

abbrev pub Driven : Type 0
Driven = Shared × Poll (Result DataChannel Error)

-- A future that is ready, or has panicked, is dropped.
abbrev settle : (OpenState → Shared → Driven) → Polled → Driven
settle again (s, st, pending) = again st s
settle again (s, st, ready x) = (drop_open st s, ready x)
settle again (s, st, panicked) = (drop_open st s, panicked)

-- A future that is polled with these answers until it is ready, and dropped.
pub drive : DataChannelLimits → OpenState → List OpenAnswer → Shared → Driven
drive limits st [] s = (drop_open st s, pending)
drive limits st (answer ∷ answers) s =
    settle (λ st' s'. drive limits st' answers s') (poll_open limits st answer s)

abbrev pub Settles : List ChannelGuard → Driven → Type 0
Settles others (s, r) = Backs s.inner (handed_over r ++ others)

settle-Settles :
    (others : List ChannelGuard) (again : OpenState → Shared → Driven)
    → ((st : OpenState) (s : Shared)
        → Backs s.inner (held st ++ others)
        → Settles others (again st s))
    → (p : Polled) → Accounts p others
    → Settles others (settle again p)
settle-Settles others again keep (s, st, pending) b = keep st s b
settle-Settles others again keep (s, st, ready x) b =
    drop_open-Backs (handed_over (ready x) ++ others) st s b
settle-Settles others again keep (s, st, panicked) b = drop_open-Backs others st s b

-- Whatever a future is answered, and whenever it is abandoned, the registry ends up backing the
-- other guards, and besides them only the guard of a channel that the future returned: a timeout,
-- an error and a cancellation give the quota back. The limits are `usize`.
pub drive-Settles :
    (limits : DataChannelLimits) (others : List ChannelGuard) (answers : List OpenAnswer)
    (st : OpenState) (s : Shared)
    → IsUsize limits
    → Backs s.inner (held st ++ others)
    → Settles others (drive limits st answers s)
unfolding drive
drive-Settles limits others [] st s u b = drop_open-Backs others st s b
drive-Settles limits others (answer ∷ answers) st s u b =
    settle-Settles others (λ st' s'. drive limits st' answers s')
      (λ st' s' b'. drive-Settles limits others answers st' s' u b') _
      (poll_open-Accounts limits others st answer s u b)
