-- ===== src/DataChannel/Quota/Drops.antt =====
-- The drop of a `ChannelGuard` in core/src/data_channel.rs beside the guards that are alive.
use swarm_p2p.Prelude.{◌≡◌, Bool, List, ◌∷◌, arith, tally}
use swarm_p2p.Prelude.Map.{get}
use swarm_p2p.DataChannel.{
  PeerId, StreamProtocol, DataChannelDirection, outbound, inbound, ChannelGuard,
}
use swarm_p2p.DataChannel.Registry.{RegistryInner, per_peer, drop_guard}
use swarm_p2p.DataChannel.Registry.Counters.{entry, get-decrement}
use swarm_p2p.DataChannel.Quota.{Backs, of_peer, of_protocol, guard_of}

-- The guards that are left when one of them goes, wherever it stands.
abbrev pub Without : List ChannelGuard → ChannelGuard → List ChannelGuard → Type 0
Without guards g rest = (f : ChannelGuard → Bool) → tally f guards ≡ tally f (g ∷ rest)

module _ {inner : RegistryInner} {guards : List ChannelGuard} (rest : List ChannelGuard)
    (b : Backs inner guards) where
  decrement-peers :
      (d e : DataChannelDirection) (peer p : PeerId) (protocol : StreamProtocol)
      → Without guards (guard_of peer protocol d) rest
      → get p (per_peer e (drop_guard inner (guard_of peer protocol d)))
        ≡ entry (tally (of_peer e p) rest)
  unfolding drop_guard
  decrement-peers inbound inbound peer p protocol same = ground (
    arith,
    get-decrement peer p inner.inbound_per_peer _ (b.peers inbound peer),
    b.peers inbound p,
    same (of_peer inbound peer),
    same (of_peer inbound p),
  )
  decrement-peers inbound outbound peer p protocol same =
      ground (arith, b.peers outbound p, same (of_peer outbound p))
  decrement-peers outbound inbound peer p protocol same =
      ground (arith, b.peers inbound p, same (of_peer inbound p))
  decrement-peers outbound outbound peer p protocol same = ground (
    arith,
    get-decrement peer p inner.outbound_per_peer _ (b.peers outbound peer),
    b.peers outbound p,
    same (of_peer outbound peer),
    same (of_peer outbound p),
  )

  decrement-protocols :
      (g : ChannelGuard) (q : StreamProtocol)
      → Without guards g rest
      → get q (drop_guard inner g).per_protocol ≡ entry (tally (of_protocol q) rest)
  unfolding drop_guard
  decrement-protocols g q same = ground (
    arith,
    get-decrement g.protocol q inner.per_protocol _ (b.protocols g.protocol),
    b.protocols q,
    same (of_protocol g.protocol),
    same (of_protocol q),
  )

  -- Dropping a live guard leaves counters that back the other guards: no count saturates, and a
  -- counter that reaches 0 is removed.
  pub drop_guard-Backs :
      (g : ChannelGuard) → Without guards g rest → Backs (drop_guard inner g) rest
  drop_guard-Backs g same = record {
    peers = λ e p. decrement-peers g.direction e g.peer p g.protocol same;
    protocols = λ q. decrement-protocols g q same;
  }
