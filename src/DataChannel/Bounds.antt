-- ===== src/DataChannel/Bounds.antt =====
-- The registry of core/src/data_channel.rs under any schedule of requests and drops.
pub mod Moves
use swarm_p2p.Prelude.{
  ℕ, ◌≤◌, ◌≡◌, refl, inl, inr, Option, none, some, List, [], ◌∷◌, arith, tally, take_at,
  tally-take_at, Option-cases, ==-self, ap, true,
}
use swarm_p2p.DataChannel.{
  PeerId, StreamProtocol, DataChannelDirection, DataChannelLimits, ChannelGuard, same_direction,
  outbound, inbound,
}
use swarm_p2p.DataChannel.Registry.{
  RegistryInner, new_registry, per_peer_limit, try_acquire, drop_guard,
}
use swarm_p2p.DataChannel.Quota.{
  Backs, IsUsize, of_peer, of_protocol, has_room, guard_of, Acquires, try_acquire-Acquires,
  new_registry-Backs,
}
use swarm_p2p.DataChannel.Quota.Drops.{Without, drop_guard-Backs}

-- The registry and the guards that the program holds, wherever they are.
pub record Live : Type 0 where
  pub inner : RegistryInner
  pub guards : List ChannelGuard

abbrev pub fresh : Live
fresh = record { inner = new_registry; guards = [] }

pub data Action : Type 0 where
  acquire : PeerId → StreamProtocol → DataChannelDirection → Action
  drop_at : ℕ → Action

abbrev pub with_guard : Option ChannelGuard → List ChannelGuard → List ChannelGuard
with_guard none guards = guards
with_guard (some g) guards = g ∷ guards

unfoldable pub step : DataChannelLimits → Live → Action → Live
step limits s (acquire peer protocol d) =
    let (inner, granted) = try_acquire limits s.inner peer protocol d in
    record { inner = inner; guards = with_guard granted s.guards }
step limits s (drop_at i) = elim (take_at i s.guards) [
  | none ↦ s
  | some (g, rest) ↦ record { inner = drop_guard s.inner g; guards = rest }
]

unfoldable pub run : DataChannelLimits → Live → List Action → Live
run limits s [] = s
run limits s (a ∷ as') = run limits (step limits s a) as'

pub record IsSound (limits : DataChannelLimits) (s : Live) : Type 0 where
  pub backs : Backs s.inner s.guards
  pub within_peer :
      (d : DataChannelDirection) (p : PeerId)
      → tally (of_peer d p) s.guards ≤ per_peer_limit limits d
  pub within_protocol :
      (q : StreamProtocol) → tally (of_protocol q) s.guards ≤ limits.max_per_protocol

module _ {limits : DataChannelLimits} {s : Live} (v : IsSound limits s) where
  -- One more guard where there is room.
  within_peer-cons :
      (peer : PeerId) (protocol : StreamProtocol) (d e : DataChannelDirection) (p : PeerId)
      → has_room limits s.guards peer protocol d ≡ true
      → tally (of_peer e p) (guard_of peer protocol d ∷ s.guards) ≤ per_peer_limit limits e
  within_peer-cons peer protocol inbound inbound p room = ground (arith, v.within_peer inbound p)
  within_peer-cons peer protocol outbound outbound p room = ground (arith, v.within_peer outbound p)
  within_peer-cons peer protocol inbound outbound p room = v.within_peer outbound p
  within_peer-cons peer protocol outbound inbound p room = v.within_peer inbound p

  pub granted-IsSound :
      (peer : PeerId) (protocol : StreamProtocol) (d : DataChannelDirection)
      (r : RegistryInner × Option ChannelGuard)
      → Acquires limits s.guards s.inner peer protocol d r
      → IsSound limits (record { inner = r.0; guards = with_guard r.1 s.guards })
  granted-IsSound peer protocol d (inner, none) (full, same) = rw same v
  granted-IsSound peer protocol d (inner, some g) (room, e, b) = record {
    backs = b;
    within_peer = λ f p. rw e (within_peer-cons peer protocol d f p room);
    within_protocol = λ q. ground (arith, v.within_protocol q);
  }

  dropped-IsSound :
      (i : ℕ) (g : ChannelGuard) (rest : List ChannelGuard)
      → take_at i s.guards ≡ some (g, rest)
      → IsSound limits (record { inner = drop_guard s.inner g; guards = rest })
  dropped-IsSound i g rest e =
      let without = tally-take_at i s.guards g rest e in
      record {
        backs = drop_guard-Backs rest v.backs g without;
        within_peer = λ f p. ground (arith, v.within_peer f p, without (of_peer f p));
        within_protocol = λ q. ground (arith, v.within_protocol q, without (of_protocol q));
      }

pub step-IsSound :
    {limits : DataChannelLimits} {s : Live}
    → IsUsize limits
    → (a : Action) → IsSound limits s
    → IsSound limits (step limits s a)
unfolding step
step-IsSound {s = s} u (acquire peer protocol d) v =
    granted-IsSound v peer protocol d _ (try_acquire-Acquires u v.backs peer protocol d)
step-IsSound {s = s} u (drop_at i) v = elim (Option-cases (take_at i s.guards)) [
  | inl missing ↦ rw (missing, step) v
  | inr ((g, rest), found) ↦ rw (found, step) (dropped-IsSound v i g rest found)
]

run-IsSound_from :
    {limits : DataChannelLimits} (s : Live)
    → IsUsize limits
    → (as' : List Action) → IsSound limits s
    → IsSound limits (run limits s as')
unfolding run
run-IsSound_from s u [] v = v
run-IsSound_from {limits} s u (a ∷ as') v =
    run-IsSound_from (step limits s a) u as' (step-IsSound u a v)

pub fresh-IsSound : (limits : DataChannelLimits) → IsSound limits fresh
fresh-IsSound limits = record {
  backs = new_registry-Backs;
  within_peer = λ d p. omega arith;
  within_protocol = λ q. omega arith;
}

-- From a new registry, whatever the requests and drops and in whatever order, the counters are the
-- tallies of the live guards with no counter of 0 kept, and no peer's live guards in one direction
-- nor a protocol's live guards in both exceed their limit. The limits are `usize`.
pub run-IsSound :
    (limits : DataChannelLimits) (actions : List Action)
    → IsUsize limits
    → IsSound limits (run limits fresh actions)
run-IsSound limits actions u = run-IsSound_from fresh u actions (fresh-IsSound limits)

same_direction_self : (d : DataChannelDirection) → same_direction d d ≡ true
same_direction_self inbound = refl
same_direction_self outbound = refl

-- Dropping a live guard makes room for another like it.
room_after_drop :
    (limits : DataChannelLimits) (s : Live) (g : ChannelGuard) (rest : List ChannelGuard)
    → IsSound limits s
    → Without s.guards g rest
    → has_room limits rest g.peer g.protocol g.direction ≡ true
room_after_drop limits s g rest v without = ground (
  arith,
  v.within_peer g.direction g.peer,
  v.within_protocol g.protocol,
  without (of_peer g.direction g.peer),
  without (of_protocol g.protocol),
  same_direction_self g.direction,
  ==-self g.peer,
  ==-self g.protocol,
)

granted_of_room :
    (limits : DataChannelLimits) (inner : RegistryInner) (guards : List ChannelGuard)
    (g : ChannelGuard) (r : RegistryInner × Option ChannelGuard)
    → has_room limits guards g.peer g.protocol g.direction ≡ true
    → Acquires limits guards inner g.peer g.protocol g.direction r
    → r.1 ≡ some g
granted_of_room limits old guards g (inner, none) room (full, same) = cc
granted_of_room limits old guards g (inner, some h) room (found, e, b) = ap some e

-- In a sound state, once any live guard is dropped, a request like it is granted, and with an
-- equal guard. The limits are `usize`.
pub drop-then-acquire :
    (limits : DataChannelLimits) (s : Live) (i : ℕ) (g : ChannelGuard) (rest : List ChannelGuard)
    → IsUsize limits
    → IsSound limits s
    → take_at i s.guards ≡ some (g, rest)
    → (try_acquire limits (drop_guard s.inner g) g.peer g.protocol g.direction).1 ≡ some g
drop-then-acquire limits s i g rest u v e =
    let without = tally-take_at i s.guards g rest e in
    granted_of_room limits _ rest g _ (room_after_drop limits s g rest v without) (
      try_acquire-Acquires u (drop_guard-Backs rest v.backs g without) g.peer g.protocol
        g.direction)
