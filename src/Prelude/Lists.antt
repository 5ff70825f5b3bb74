-- ===== src/Prelude/Lists.antt =====
-- Lists measured by native numbers, and tallies of the entries that pass a test.
use Prim.Native.Nat.{ℕ, zero, suc, ◌+◌, ◌≤◌}
use mathlib.Core.Path.{◌≡◌}
use mathlib.Core.Logic.{inl, inr}
use mathlib.Core.Option
use mathlib.Core.Option.{Option, none, some}
use mathlib.Core.Bool.{Bool}
use mathlib.Core.List.{List, [], ◌∷◌, ◌++◌}
use native.Mathlib.Omega.{arith}
use swarm_p2p.Prelude.Tests.{Option-cases, if◌then◌else◌}

module _ {ℓ} {A : Type ℓ} where
  abbrev pub length : List A → ℕ
  length [] = 0
  length (x ∷ xs) = suc (length xs)

  pub length-append : (xs ys : List A) → length (xs ++ ys) ≡ length xs + length ys
  length-append [] ys = omega arith
  length-append (x ∷ xs) ys = omega (arith, length-append xs ys)

  -- How many entries pass the test.
  abbrev pub tally : (A → Bool) → List A → ℕ
  tally p [] = 0
  tally p (x ∷ xs) = if p x then suc (tally p xs) else tally p xs

  -- The same entries, in any order.
  abbrev pub Same : List A → List A → Type ℓ
  Same xs ys = (p : A → Bool) → tally p xs ≡ tally p ys

  pub tally-append : (p : A → Bool) (xs ys : List A) → tally p (xs ++ ys) ≡ tally p xs + tally p ys
  tally-append p [] ys = omega arith
  tally-append p (x ∷ xs) ys = ground (arith, tally-append p xs ys)

  pub tally-le-length : (p : A → Bool) (xs : List A) → tally p xs ≤ length xs
  tally-le-length p [] = omega arith
  tally-le-length p (x ∷ xs) = ground (arith, tally-le-length p xs)

  -- The entries that pass a Boolean test, in order (`retain`).
  abbrev pub retain : (A → Bool) → List A → List A
  retain p [] = []
  retain p (x ∷ xs) = if p x then x ∷ retain p xs else retain p xs

  pub length-retain : (p : A → Bool) (xs : List A) → length (retain p xs) ≡ tally p xs
  length-retain p [] = omega arith
  length-retain p (x ∷ xs) = ground (arith, length-retain p xs)

  -- The entry at a position, and the others in order.
  abbrev pub take_at : ℕ → List A → Option (A × List A)
  take_at i [] = none
  take_at zero (x ∷ xs) = some (x, xs)
  take_at (suc i) (x ∷ xs) = Option.map (λ (y, ys). (y, x ∷ ys)) (take_at i xs)

  pub tally-take_at :
      (i : ℕ) (xs : List A) (y : A) (ys : List A)
      → take_at i xs ≡ some (y, ys)
      → (p : A → Bool) → tally p xs ≡ tally p (y ∷ ys)
  tally-take_at i [] y ys e p = cc
  tally-take_at zero (x ∷ xs) y ys e p = ground arith
  tally-take_at (suc i) (x ∷ xs) y ys e p = elim (Option-cases (take_at i xs)) [
    | inl missing ↦ ground arith
    | inr ((z, zs), found) ↦ ground (arith, tally-take_at i xs z zs found p)
  ]

-- What the entries have, one after the other.
module _ {ℓ κ} {A : Type ℓ} {B : Type κ} (f : A → List B) where
  abbrev pub flat_map : List A → List B
  flat_map [] = []
  flat_map (x ∷ xs) = f x ++ flat_map xs

  pub tally-flat_map-append :
      (p : B → Bool) (xs ys : List A)
      → tally p (flat_map (xs ++ ys)) ≡ tally p (flat_map xs) + tally p (flat_map ys)
  tally-flat_map-append p [] ys = omega arith
  tally-flat_map-append p (x ∷ xs) ys = omega (
    arith,
    tally-append p (f x) (flat_map (xs ++ ys)),
    tally-append p (f x) (flat_map xs),
    tally-flat_map-append p xs ys,
  )

  pub tally-flat_map-take_at :
      (p : B → Bool) (i : ℕ) (xs : List A) (y : A) (ys : List A)
      → take_at i xs ≡ some (y, ys)
      → tally p (flat_map xs) ≡ tally p (f y) + tally p (flat_map ys)
  tally-flat_map-take_at p i [] y ys e = cc
  tally-flat_map-take_at p zero (x ∷ xs) y ys e = ground (arith, tally-append p (f x) (flat_map xs))
  tally-flat_map-take_at p (suc i) (x ∷ xs) y ys e = elim (Option-cases (take_at i xs)) [
    | inl missing ↦ ground arith
    | inr ((z, zs), found) ↦ ground (
      arith,
      tally-append p (f x) (flat_map xs),
      tally-append p (f x) (flat_map zs),
      tally-flat_map-take_at p i xs z zs found,
    )
  ]
