-- ===== src/EventLoop/Convert/Discovery.antt =====
-- Which discovered peers core/src/runtime/event_loop.rs dials.
use swarm_p2p.Prelude.{
  ℕ, ◌+◌, ◌≡◌, refl, ◌∙◌, Bool, not, ◌&&◌, List, [], ◌∷◌, ◌==◌, if◌then◌else◌, tally, arith,
  Bool-cases, inl, inr,
}
use swarm_p2p.DataChannel.{PeerId}
use swarm_p2p.Swarm.{Types, Swarm, Trace, dial, add_peer_address, mdns_discovered}
use swarm_p2p.Swarm.Addr.{Multiaddr}
use swarm_p2p.EventLoop.{EventLoop, Env}
use swarm_p2p.EventLoop.Relay.{any}
use swarm_p2p.EventLoop.Convert.{
  peers_of, distinct, add_discovered, dial_discovered, convert_to_node_event,
}

abbrev pub is_in : PeerId → List PeerId → Bool
is_in p peers = any (λ q. q == p) peers

tally-distinct :
    (p : PeerId) (xs : List PeerId)
    → tally (λ q. q == p) (distinct xs) ≡ (if is_in p (distinct xs) then 1 else 0)
unfolding distinct
tally-distinct p [] = refl
tally-distinct p (x ∷ xs) = ground (arith, tally-distinct p xs)

is_in-distinct : (p : PeerId) (xs : List PeerId) → is_in p (distinct xs) ≡ is_in p xs
unfolding distinct
is_in-distinct p [] = refl
is_in-distinct p (x ∷ xs) = ground (arith, is_in-distinct p xs)

module _ {T : Types} where
  -- How often a trace dials the peer.
  abbrev pub dials : PeerId → Trace T → ℕ
  dials p [] = 0
  dials p (dial q ∷ trace) = if q == p then dials p trace + 1 else dials p trace
  dials p (_ ∷ trace) = dials p trace

  -- Neither a dial nor a new address connects or disconnects a peer at once.
  pub record IsSteady (sw : Swarm T) : Type 0 where
    pub after_dial :
        (trace : Trace T) (q p : PeerId)
        → sw.is_connected (dial q ∷ trace) p ≡ sw.is_connected trace p
    pub after_address :
        (trace : Trace T) (q : PeerId) (addr : Multiaddr) (p : PeerId)
        → sw.is_connected (add_peer_address q addr ∷ trace) p ≡ sw.is_connected trace p

  dials-add_discovered :
      (p : PeerId) (peers : List (PeerId × Multiaddr)) (trace : Trace T)
      → dials p (add_discovered peers trace) ≡ dials p trace
  unfolding add_discovered
  dials-add_discovered p [] trace = refl
  dials-add_discovered p ((q, addr) ∷ peers) trace = dials-add_discovered p peers _

  module _ (sw : Swarm T) (steady : IsSteady sw) where
    connected-add_discovered :
        (p : PeerId) (peers : List (PeerId × Multiaddr)) (trace : Trace T)
        → sw.is_connected (add_discovered peers trace) p ≡ sw.is_connected trace p
    unfolding add_discovered
    connected-add_discovered p [] trace = refl
    connected-add_discovered p ((q, addr) ∷ peers) trace =
        connected-add_discovered p peers _ ∙ steady.after_address trace q addr p

    dials-dial_discovered :
        (p : PeerId) (peers : List PeerId) (trace : Trace T)
        → dials p (dial_discovered sw peers trace)
          ≡ dials p trace + (if sw.is_connected trace p then 0 else tally (λ q. q == p) peers)
    unfolding dial_discovered
    dials-dial_discovered p [] trace = ground arith
    dials-dial_discovered p (q ∷ peers) trace = elim (Bool-cases (sw.is_connected trace q)) [
      | inl connected ↦
          rw connected (ground (arith, connected, dials-dial_discovered p peers trace))
      | inr not_connected ↦ rw not_connected (
          ground (
            arith,
            not_connected,
            dials-dial_discovered p peers (dial q ∷ trace),
            steady.after_dial trace q p,
          ))
    ]

    module _ {C : Type 0} where
      -- If neither a dial nor a new address changes at once who is connected, and the set of peers
      -- comes out in any order without losing or repeating one, then an mDNS discovery dials each
      -- discovered peer that is not connected exactly once, however many addresses it has, and no
      -- other peer.
      pub discovered-dials :
          (env : Env)
          → ((test : PeerId → Bool) (xs : List PeerId)
              → tally test (env.set_order xs) ≡ tally test xs)
          → (peers : List (PeerId × Multiaddr)) (s : EventLoop T C) (p : PeerId)
          → dials p (convert_to_node_event sw env (mdns_discovered peers) s).0.trace
            ≡ dials p s.trace
              + (if is_in p (peers_of peers) && not (sw.is_connected s.trace p) then 1 else 0)
      unfolding convert_to_node_event
      discovered-dials env same peers s p = ground (
        arith,
        dials-dial_discovered p (env.set_order (distinct (peers_of peers)))
            (add_discovered peers s.trace),
        dials-add_discovered p peers s.trace,
        connected-add_discovered p peers s.trace,
        same (λ q. q == p) (distinct (peers_of peers)),
        tally-distinct p (peers_of peers),
        is_in-distinct p (peers_of peers),
      )
