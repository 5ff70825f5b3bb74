-- ===== src/DataChannel/Quota.antt =====
-- The registry of core/src/data_channel.rs beside the guards that are alive: what its counters mean.
pub mod Drops
use swarm_p2p.Prelude.{
  ◌+◌, ◌<◌, ◌≡◌, refl, inl, inr, Bool, true, false, ◌&&◌, ◌||◌, Option, none, some, List, [], ◌∷◌,
  arith, leb, ◌==◌, if◌then◌else◌, tally, word_mod, Bool-cases,
}
use swarm_p2p.Prelude.Map.{get}
use swarm_p2p.DataChannel.{
  PeerId, StreamProtocol, DataChannelDirection, outbound, inbound, same_direction,
  DataChannelLimits, ChannelGuard,
}
use swarm_p2p.DataChannel.Registry.{
  RegistryInner, new_registry, per_peer, set_per_peer, per_peer_limit, try_acquire, drop_guard,
  increment,
}
use swarm_p2p.DataChannel.Registry.Counters.{entry, unwrap_or-entry, get-increment, get-decrement}

abbrev pub of_peer : DataChannelDirection → PeerId → ChannelGuard → Bool
of_peer direction peer g = same_direction direction g.direction && g.peer == peer

abbrev pub of_protocol : StreamProtocol → ChannelGuard → Bool
of_protocol protocol g = g.protocol == protocol

-- The counters are the tallies of the live guards, and no counter of 0 is kept.
pub record Backs (inner : RegistryInner) (guards : List ChannelGuard) : Type 0 where
  pub peers :
      (d : DataChannelDirection) (p : PeerId)
      → get p (per_peer d inner) ≡ entry (tally (of_peer d p) guards)
  pub protocols :
      (q : StreamProtocol) → get q inner.per_protocol ≡ entry (tally (of_protocol q) guards)

-- Limits are `usize`.
pub record IsUsize (limits : DataChannelLimits) : Type 0 where
  pub inbound_fits : limits.max_inbound_per_peer < word_mod
  pub outbound_fits : limits.max_outbound_per_peer < word_mod
  pub protocol_fits : limits.max_per_protocol < word_mod

pub per_peer_limit-lt :
    (limits : DataChannelLimits) (d : DataChannelDirection)
    → IsUsize limits
    → per_peer_limit limits d < word_mod
per_peer_limit-lt limits inbound u = u.inbound_fits
per_peer_limit-lt limits outbound u = u.outbound_fits

abbrev pub has_room :
    DataChannelLimits → List ChannelGuard → PeerId → StreamProtocol → DataChannelDirection → Bool
has_room limits guards peer protocol d =
    if leb (per_peer_limit limits d) (tally (of_peer d peer) guards)
      || leb limits.max_per_protocol (tally (of_protocol protocol) guards)
    then false
    else true

abbrev pub guard_of : PeerId → StreamProtocol → DataChannelDirection → ChannelGuard
guard_of peer protocol d = record { peer = peer; protocol = protocol; direction = d }

-- `try_acquire` in terms of the live guards.
abbrev pub Acquires :
    DataChannelLimits
    → List ChannelGuard
    → RegistryInner
    → PeerId
    → StreamProtocol
    → DataChannelDirection
    → RegistryInner × Option ChannelGuard
    → Type 0
Acquires limits guards inner peer protocol d (inner', none) =
    (has_room limits guards peer protocol d ≡ false) × (inner' ≡ inner)
Acquires limits guards inner peer protocol d (inner', some g) =
    (has_room limits guards peer protocol d ≡ true)
    × (g ≡ guard_of peer protocol d)
    × Backs inner' (g ∷ guards)

-- What a granted request makes of the counters.
abbrev grown : RegistryInner → PeerId → StreamProtocol → DataChannelDirection → RegistryInner
grown inner peer protocol d = record (set_per_peer d (increment peer (per_peer d inner)) inner) {
  per_protocol = increment protocol inner.per_protocol;
}

module _ {inner : RegistryInner} {guards : List ChannelGuard} (b : Backs inner guards) where
  increment-peers :
      (d e : DataChannelDirection) (peer p : PeerId) (protocol : StreamProtocol)
      → tally (of_peer d peer) guards + 1 < word_mod
      → get p (per_peer e (grown inner peer protocol d))
        ≡ entry (tally (of_peer e p) (guard_of peer protocol d ∷ guards))
  increment-peers inbound inbound peer p protocol h = ground (
    arith,
    get-increment peer p inner.inbound_per_peer _ (b.peers inbound peer) h,
    b.peers inbound p,
  )
  increment-peers inbound outbound peer p protocol h = b.peers outbound p
  increment-peers outbound inbound peer p protocol h = b.peers inbound p
  increment-peers outbound outbound peer p protocol h = ground (
    arith,
    get-increment peer p inner.outbound_per_peer _ (b.peers outbound peer) h,
    b.peers outbound p,
  )

  increment-protocols :
      (d : DataChannelDirection) (peer : PeerId) (protocol q : StreamProtocol)
      → tally (of_protocol protocol) guards + 1 < word_mod
      → get q (grown inner peer protocol d).per_protocol
        ≡ entry (tally (of_protocol q) (guard_of peer protocol d ∷ guards))
  increment-protocols d peer protocol q h =
      ground (
        arith,
        get-increment protocol q inner.per_protocol _ (b.protocols protocol) h,
        b.protocols q,
      )

  grown-Backs :
      (peer : PeerId) (protocol : StreamProtocol) (d : DataChannelDirection)
      → tally (of_peer d peer) guards + 1 < word_mod
      → tally (of_protocol protocol) guards + 1 < word_mod
      → Backs (grown inner peer protocol d) (guard_of peer protocol d ∷ guards)
  grown-Backs peer protocol d hp hq = record {
    peers = λ e p. increment-peers d e peer p protocol hp;
    protocols = λ q. increment-protocols d peer protocol q hq;
  }

try_acquire-eq :
    (limits : DataChannelLimits) {inner : RegistryInner} {guards : List ChannelGuard}
    → Backs inner guards
    → (peer : PeerId) (protocol : StreamProtocol) (d : DataChannelDirection)
    → try_acquire limits inner peer protocol d ≡ (
        if has_room limits guards peer protocol d
        then (grown inner peer protocol d, some (guard_of peer protocol d))
        else (inner, none))
unfolding try_acquire
try_acquire-eq limits {inner} {guards} b peer protocol d =
    rw
      (
        b.peers d peer,
        b.protocols protocol,
        unwrap_or-entry (tally (of_peer d peer) guards),
        unwrap_or-entry (tally (of_protocol protocol) guards),
      )
      (ground arith)

-- With the counters backed by the live guards, a request is granted exactly when the live guards
-- of its peer and direction, and those of its protocol, are below their limits. A granted request
-- returns its own guard and leaves counters that back the guards with it; a refused one changes
-- nothing. The limits are `usize`.
pub try_acquire-Acquires :
    {limits : DataChannelLimits} {inner : RegistryInner} {guards : List ChannelGuard}
    → IsUsize limits
    → Backs inner guards
    → (peer : PeerId) (protocol : StreamProtocol) (d : DataChannelDirection)
    → Acquires limits guards inner peer protocol d (try_acquire limits inner peer protocol d)
try_acquire-Acquires {limits} {inner} {guards} u b peer protocol d =
    elim (Bool-cases (has_room limits guards peer protocol d)) [
      | inl room ↦
          rw (try_acquire-eq limits b peer protocol d, room)
            (
              room,
              refl,
              grown-Backs b peer protocol d (ground (arith, per_peer_limit-lt limits d u))
                  (ground arith),
            )
      | inr full ↦ rw (try_acquire-eq limits b peer protocol d, full) (full, refl)
    ]

pub new_registry-Backs : Backs new_registry []
unfolding get
new_registry-Backs = record { peers = λ d p. new_registry-peers d p; protocols = λ q. refl }
  where
    new_registry-peers :
        (d : DataChannelDirection) (p : PeerId) → get p (per_peer d new_registry) ≡ none
    new_registry-peers inbound p = refl
    new_registry-peers outbound p = refl
