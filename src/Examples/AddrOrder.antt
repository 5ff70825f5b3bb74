-- ===== src/Examples/AddrOrder.antt =====
-- An order of addresses for the concrete network: lexicographic on their components.
use swarm_p2p.Prelude.{
  ℕ, Bool, true, false, List, [], ◌∷◌, ◌==◌, ltb, if◌then◌else◌, ◌≡◌, refl, ap, arith,
}
use mathlib.Core.Path.{ap₂}
use swarm_p2p.Prelude.Sort.{IsOrder}
use swarm_p2p.Swarm.Addr.{
  Protocol, Multiaddr, ip4, ip6, p2p, p2p_circuit, tcp, udp, quic_v1, other, same_addr,
  same_addr-eq, same_addr_self,
}

abbrev encode : Multiaddr → List ℕ
encode [] = []
encode (ip4 x ∷ r) = 0 ∷ x.a ∷ x.b ∷ x.c ∷ x.d ∷ encode r
encode (ip6 n ∷ r) = 1 ∷ n ∷ encode r
encode (p2p n ∷ r) = 2 ∷ n ∷ encode r
encode (p2p_circuit ∷ r) = 3 ∷ encode r
encode (tcp n ∷ r) = 4 ∷ n ∷ encode r
encode (udp n ∷ r) = 5 ∷ n ∷ encode r
encode (quic_v1 ∷ r) = 6 ∷ encode r
encode (other n ∷ r) = 7 ∷ n ∷ encode r

cons_parts : {x y : ℕ} {xs ys : List ℕ} → x ∷ xs ≡ y ∷ ys → (x ≡ y) × (xs ≡ ys)
cons_parts e = (cc, cc)

abbrev is_nil : List ℕ → Bool
is_nil [] = true
is_nil (x ∷ xs) = false

nonempty : (p : Protocol) (r : Multiaddr) → is_nil (encode (p ∷ r)) ≡ false
nonempty (ip4 x) r = refl
nonempty _ r = refl

encode_injective : (x y : Multiaddr) → encode x ≡ encode y → x ≡ y
encode_injective [] [] e = refl
encode_injective (ip4 x ∷ r) (ip4 y ∷ s) e =
    let (_, e1) = cons_parts e in
    let (a, e2) = cons_parts e1 in
    let (b, e3) = cons_parts e2 in
    let (c, e4) = cons_parts e3 in
    let (d, e5) = cons_parts e4 in
    let whole : x ≡ y = λ i. record { a = a i; b = b i; c = c i; d = d i } in
    ap₂ (λ u z. ip4 u ∷ z) whole (encode_injective r s e5)
encode_injective (ip6 n ∷ r) (ip6 m ∷ s) e =
    let (_, f) = cons_parts e in
    let (a, g) = cons_parts f in ap₂ (λ u z. ip6 u ∷ z) a (encode_injective r s g)
encode_injective (p2p n ∷ r) (p2p m ∷ s) e =
    let (_, f) = cons_parts e in
    let (a, g) = cons_parts f in ap₂ (λ u z. p2p u ∷ z) a (encode_injective r s g)
encode_injective (p2p_circuit ∷ r) (p2p_circuit ∷ s) e =
    ap (λ z. p2p_circuit ∷ z) (encode_injective r s (cons_parts e).1)
encode_injective (tcp n ∷ r) (tcp m ∷ s) e =
    let (_, f) = cons_parts e in
    let (a, g) = cons_parts f in ap₂ (λ u z. tcp u ∷ z) a (encode_injective r s g)
encode_injective (udp n ∷ r) (udp m ∷ s) e =
    let (_, f) = cons_parts e in
    let (a, g) = cons_parts f in ap₂ (λ u z. udp u ∷ z) a (encode_injective r s g)
encode_injective (quic_v1 ∷ r) (quic_v1 ∷ s) e =
    ap (λ z. quic_v1 ∷ z) (encode_injective r s (cons_parts e).1)
encode_injective (other n ∷ r) (other m ∷ s) e =
    let (_, f) = cons_parts e in
    let (a, g) = cons_parts f in ap₂ (λ u z. other u ∷ z) a (encode_injective r s g)
encode_injective [] (p ∷ r) e = absurd (ground (arith, nonempty p r, ap is_nil e))
encode_injective (p ∷ r) [] e = absurd (ground (arith, nonempty p r, ap is_nil e))
encode_injective _ _ e = cc

abbrev lex : List ℕ → List ℕ → Bool
lex [] ys = true
lex (x ∷ xs) [] = false
lex (x ∷ xs) (y ∷ ys) = if x == y then lex xs ys else ltb x y

lex_total : (x y : List ℕ) → lex x y ≡ false → lex y x ≡ true
lex_total [] y h = absurd (ground (arith, h))
lex_total (x ∷ xs) [] h = refl
lex_total (x ∷ xs) (y ∷ ys) h = ground (arith, lex_total xs ys)

lex_trans : (x y z : List ℕ) → lex x y ≡ true → lex y z ≡ true → lex x z ≡ true
lex_trans [] y z h k = refl
lex_trans (x ∷ xs) [] z h k = absurd (ground (arith, h))
lex_trans (x ∷ xs) (y ∷ ys) [] h k = absurd (ground (arith, k))
lex_trans (x ∷ xs) (y ∷ ys) (z ∷ zs) h k = ground (arith, lex_trans xs ys zs)

lex_antisym : (x y : List ℕ) → lex x y ≡ true → lex y x ≡ true → x ≡ y
lex_antisym [] [] h k = refl
lex_antisym [] (y ∷ ys) h k = absurd (ground (arith, k))
lex_antisym (x ∷ xs) [] h k = absurd (ground (arith, h))
lex_antisym (x ∷ xs) (y ∷ ys) h k = ground (arith, lex_antisym xs ys)

abbrev pub addr_le : Multiaddr → Multiaddr → Bool
addr_le x y = lex (encode x) (encode y)

pub addr_le-IsOrder : IsOrder addr_le same_addr
addr_le-IsOrder = record {
  total = λ x y h. lex_total (encode x) (encode y) h;
  trans = λ x y z h k. lex_trans (encode x) (encode y) (encode z) h k;
  antisym = λ x y h k. encode_injective x y (lex_antisym (encode x) (encode y) h k);
  same_eq = same_addr-eq;
  same_self = same_addr_self;
}
