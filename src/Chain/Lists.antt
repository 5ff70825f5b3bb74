-- ===== src/Chain/Lists.antt =====
-- `Vec` by position: `get`, a write, and `swap_remove`, which fills the gap with the last entry.
use mathlib.Core.List.{Perm}
use mathlib.Core.List.Perm
use swarm_p2p.Prelude.{ℕ, zero, suc, ◌≡◌, refl, ap, Option, none, some, List, [], ◌∷◌, ◌++◌, length}

module _ {ℓ} {A : Type ℓ} where
  abbrev pub get_elem? : List A → ℕ → Option A
  get_elem? [] i = none
  get_elem? (x ∷ xs) zero = some x
  get_elem? (x ∷ xs) (suc i) = get_elem? xs i

  abbrev pub set : List A → ℕ → A → List A
  set [] i v = []
  set (x ∷ xs) zero v = v ∷ xs
  set (x ∷ xs) (suc i) v = x ∷ set xs i v

  abbrev pub cons_first : A → List A → List A
  cons_first x [] = x ∷ []
  cons_first x (y ∷ ys) = y ∷ x ∷ ys

  -- The last entry moved to the front.
  abbrev pub last_first : List A → List A
  last_first [] = []
  last_first (x ∷ xs) = cons_first x (last_first xs)

  abbrev pub swap_remove : ℕ → List A → List A
  swap_remove i [] = []
  swap_remove zero (x ∷ xs) = last_first xs
  swap_remove (suc i) (x ∷ xs) = x ∷ swap_remove i xs

  cons_first-perm : (x : A) (ys : List A) → Perm (x ∷ ys) (cons_first x ys)
  cons_first-perm x [] = Perm.refl _
  cons_first-perm x (y ∷ ys) = Perm.swap y x ys

  pub last_first-perm : (xs : List A) → Perm xs (last_first xs)
  last_first-perm [] = Perm.refl _
  last_first-perm (x ∷ xs) =
      Perm.trans (Perm.cons x (last_first-perm xs)) (cons_first-perm x (last_first xs))

  length-cons_first : (x : A) (ys : List A) → length (cons_first x ys) ≡ suc (length ys)
  length-cons_first x [] = refl
  length-cons_first x (y ∷ ys) = refl

  pub length-last_first : (xs : List A) → length (last_first xs) ≡ length xs
  length-last_first [] = refl
  length-last_first (x ∷ xs) = cc (length-cons_first x (last_first xs), length-last_first xs)

  -- Positions behind a prefix.
  pub get_elem?-prefix : (pre xs : List A) → get_elem? (pre ++ xs) (length pre) ≡ get_elem? xs 0
  get_elem?-prefix [] xs = refl
  get_elem?-prefix (p ∷ pre) xs = get_elem?-prefix pre xs

  pub set-prefix :
      (pre : List A) (x : A) (xs : List A) (v : A)
      → set (pre ++ x ∷ xs) (length pre) v ≡ pre ++ v ∷ xs
  set-prefix [] x xs v = refl
  set-prefix (p ∷ pre) x xs v = ap (λ t. p ∷ t) (set-prefix pre x xs v)

  pub swap_remove-prefix :
      (pre : List A) (x : A) (xs : List A)
      → swap_remove (length pre) (pre ++ x ∷ xs) ≡ pre ++ last_first xs
  swap_remove-prefix [] x xs = refl
  swap_remove-prefix (p ∷ pre) x xs = ap (λ t. p ∷ t) (swap_remove-prefix pre x xs)
