-- ===== src/DataChannel/Registry.antt =====
-- core/src/data_channel.rs: `ChannelRegistry::try_acquire` and the drop of a `ChannelGuard`.
pub mod Counters
use swarm_p2p.Prelude.{
  ℕ, ◌-◌, Option, none, some, [], ◌||◌, leb, ◌==◌, if◌then◌else◌, unwrap_or, word_add,
}
use swarm_p2p.Prelude.Map.{Map, get, insert, remove}
use swarm_p2p.DataChannel.{
  PeerId, StreamProtocol, DataChannelDirection, outbound, inbound, DataChannelLimits, ChannelGuard,
}

pub record RegistryInner : Type 0 where
  pub inbound_per_peer : Map ℕ
  pub outbound_per_peer : Map ℕ
  pub per_protocol : Map ℕ

abbrev pub new_registry : RegistryInner
new_registry = record { inbound_per_peer = []; outbound_per_peer = []; per_protocol = [] }

-- `*map.entry(key).or_default() += 1`.
unfoldable pub increment : ℕ → Map ℕ → Map ℕ
increment key counts = insert key (word_add (unwrap_or (get key counts) 0) 1) counts

-- `saturating_sub(1)`, and the entry goes when it reaches 0.
unfoldable pub decrement : ℕ → Map ℕ → Map ℕ
decrement key counts = elim (get key counts) [
  | none ↦ counts
  | some c ↦ if (c - 1) == 0 then remove key counts else insert key (c - 1) counts
]

abbrev pub per_peer_limit : DataChannelLimits → DataChannelDirection → ℕ
per_peer_limit limits inbound = limits.max_inbound_per_peer
per_peer_limit limits outbound = limits.max_outbound_per_peer

abbrev pub per_peer : DataChannelDirection → RegistryInner → Map ℕ
per_peer inbound inner = inner.inbound_per_peer
per_peer outbound inner = inner.outbound_per_peer

abbrev pub set_per_peer : DataChannelDirection → Map ℕ → RegistryInner → RegistryInner
set_per_peer inbound counts inner = record inner { inbound_per_peer = counts }
set_per_peer outbound counts inner = record inner { outbound_per_peer = counts }

-- `none` for the guard: a limit is reached, and nothing has changed.
unfoldable pub try_acquire :
    DataChannelLimits
    → RegistryInner
    → PeerId
    → StreamProtocol
    → DataChannelDirection
    → RegistryInner × Option ChannelGuard
try_acquire limits inner peer protocol direction =
    let per_peer_count = unwrap_or (get peer (per_peer direction inner)) 0 in
    let per_protocol_count = unwrap_or (get protocol inner.per_protocol) 0 in
    if leb (per_peer_limit limits direction) per_peer_count
      || leb limits.max_per_protocol per_protocol_count
    then (inner, none)
    else (
      record (set_per_peer direction (increment peer (per_peer direction inner)) inner) {
        per_protocol = increment protocol inner.per_protocol;
      },
      some (record { peer = peer; protocol = protocol; direction = direction }),
    )

-- `Drop for ChannelGuard`.
unfoldable pub drop_guard : RegistryInner → ChannelGuard → RegistryInner
drop_guard inner guard =
    record (set_per_peer guard.direction (decrement guard.peer (per_peer guard.direction inner))
      inner) { per_protocol = decrement guard.protocol inner.per_protocol }
