-- ===== src/Swarm/Addr.antt =====
-- Multiaddresses as the program reads them: sequences of protocol components.
use swarm_p2p.Prelude.{
  ℕ, Bool, true, false, ◌&&◌, List, [], ◌∷◌, ◌==◌, ◌≡◌, refl, ap, ==→eq, ==-self, arith,
}
use mathlib.Core.Path.{ap₂}
use swarm_p2p.DataChannel.{PeerId}

pub record Ipv4Addr : Type 0 where
  pub a : ℕ
  pub b : ℕ
  pub c : ℕ
  pub d : ℕ

-- The 128 bits of an `Ipv6Addr`, as one number.
pub data Protocol : Type 0 where
  ip4 : Ipv4Addr → Protocol
  ip6 : ℕ → Protocol
  p2p : PeerId → Protocol
  p2p_circuit : Protocol
  tcp udp : ℕ → Protocol
  quic_v1 : Protocol
  other : ℕ → Protocol

abbrev pub Multiaddr : Type 0
Multiaddr = List Protocol

abbrev pub same_protocol : Protocol → Protocol → Bool
same_protocol (ip4 x) (ip4 y) = x.a == y.a && x.b == y.b && x.c == y.c && x.d == y.d
same_protocol (ip6 x) (ip6 y) = x == y
same_protocol (p2p x) (p2p y) = x == y
same_protocol p2p_circuit p2p_circuit = true
same_protocol (tcp x) (tcp y) = x == y
same_protocol (udp x) (udp y) = x == y
same_protocol quic_v1 quic_v1 = true
same_protocol (other x) (other y) = x == y
same_protocol _ _ = false

abbrev pub same_addr : Multiaddr → Multiaddr → Bool
same_addr [] [] = true
same_addr (x ∷ xs) (y ∷ ys) = same_protocol x y && same_addr xs ys
same_addr _ _ = false

and-parts : (a b : Bool) → (a && b) ≡ true → (a ≡ true) × (b ≡ true)
and-parts a b h = (ground (arith, h), ground (arith, h))

same_protocol-eq : (p q : Protocol) → same_protocol p q ≡ true → p ≡ q
same_protocol-eq (ip4 x) (ip4 y) h = ground (arith, h)
same_protocol-eq (ip6 x) (ip6 y) h = ap ip6 (==→eq x y h)
same_protocol-eq (p2p x) (p2p y) h = ap p2p (==→eq x y h)
same_protocol-eq p2p_circuit p2p_circuit h = refl
same_protocol-eq (tcp x) (tcp y) h = ap tcp (==→eq x y h)
same_protocol-eq (udp x) (udp y) h = ap udp (==→eq x y h)
same_protocol-eq quic_v1 quic_v1 h = refl
same_protocol-eq (other x) (other y) h = ap other (==→eq x y h)
same_protocol-eq _ _ h = absurd (ground (arith, h))

same_protocol_self : (p : Protocol) → same_protocol p p ≡ true
same_protocol_self (ip4 x) = ground arith
same_protocol_self (ip6 x) = ==-self x
same_protocol_self (p2p x) = ==-self x
same_protocol_self p2p_circuit = refl
same_protocol_self (tcp x) = ==-self x
same_protocol_self (udp x) = ==-self x
same_protocol_self quic_v1 = refl
same_protocol_self (other x) = ==-self x

pub same_addr-eq : (x y : Multiaddr) → same_addr x y ≡ true → x ≡ y
same_addr-eq [] [] h = refl
same_addr-eq (p ∷ x) (q ∷ y) h =
    let (a, b) = and-parts (same_protocol p q) (same_addr x y) h in
    ap₂ (λ r z. r ∷ z) (same_protocol-eq p q a) (same_addr-eq x y b)
same_addr-eq _ _ h = absurd (ground (arith, h))

pub same_addr_self : (x : Multiaddr) → same_addr x x ≡ true
same_addr_self [] = refl
same_addr_self (p ∷ x) = rw (same_protocol_self p, same_addr_self x) refl
