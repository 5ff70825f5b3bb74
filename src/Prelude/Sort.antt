-- ===== src/Prelude/Sort.antt =====
-- `sort` and `dedup` of a vector, for an order and an equality given as Boolean tests.
use mathlib.Core.Path.{◌≡◌, refl, sym, ◌∙◌}
use mathlib.Core.Logic.{inl, inr}
use mathlib.Core.Bool.{Bool, true, false, ◌||◌}
use mathlib.Core.List.{List, [], ◌∷◌}
use native.Mathlib.Omega.{arith}
use swarm_p2p.Prelude.Tests.{Bool-cases, if◌then◌else◌}

abbrev pub All {ℓ κ} : {A : Type ℓ} → (A → Type κ) → List A → Type κ
All P [] = Unit
All P (x ∷ xs) = P x × All P xs

module _ {ℓ} {A : Type ℓ} (le same : A → A → Bool) where
  unfoldable pub insert_sorted : A → List A → List A
  insert_sorted x [] = x ∷ []
  insert_sorted x (y ∷ ys) =
      let rest = insert_sorted x ys in if le x y then x ∷ y ∷ ys else y ∷ rest

  unfoldable pub sort : List A → List A
  unfolding insert_sorted
  sort [] = []
  sort (x ∷ xs) = insert_sorted x (sort xs)

  -- The entries that differ from the last one kept.
  unfoldable pub dedup_after : A → List A → List A
  dedup_after x [] = []
  dedup_after x (y ∷ ys) =
      let dropped = dedup_after x ys in
      let kept = dedup_after y ys in if same x y then dropped else y ∷ kept

  unfoldable pub dedup : List A → List A
  unfolding dedup_after
  dedup [] = []
  dedup (x ∷ xs) = x ∷ dedup_after x xs

  abbrev pub member : A → List A → Bool
  member a [] = false
  member a (x ∷ xs) = same a x || member a xs

  pub record IsOrder : Type ℓ where
    pub total : (x y : A) → (le x y ≡ false) → le y x ≡ true
    pub trans : (x y z : A) → le x y ≡ true → le y z ≡ true → le x z ≡ true
    pub antisym : (x y : A) → le x y ≡ true → le y x ≡ true → x ≡ y
    pub same_eq : (x y : A) → same x y ≡ true → x ≡ y
    pub same_self : (x : A) → same x x ≡ true

  abbrev pub Sorted : List A → Type 0
  Sorted [] = Unit
  Sorted (x ∷ xs) = All (λ y. le x y ≡ true) xs × Sorted xs

  abbrev pub Above : A → A → Type 0
  Above x y = (le x y ≡ true) × (same x y ≡ false)

  -- Each entry is before and different from every later one.
  abbrev pub Rising : List A → Type 0
  Rising [] = Unit
  Rising (x ∷ xs) = All (Above x) xs × Rising xs

  module _ (o : IsOrder) where
    All-trans :
        (x y : A) (ys : List A)
        → le x y ≡ true
        → All (λ z. le y z ≡ true) ys
        → All (λ z. le x z ≡ true) ys
    All-trans x y [] h a = tt
    All-trans x y (z ∷ ys) h (a, as') = (o.trans x y z h a, All-trans x y ys h as')

    All-insert :
        (z x : A) (ys : List A)
        → le z x ≡ true
        → All (λ y. le z y ≡ true) ys
        → All (λ y. le z y ≡ true) (insert_sorted x ys)
    unfolding insert_sorted
    All-insert z x [] h a = (h, tt)
    All-insert z x (y ∷ ys) h (a, as') = elim (Bool-cases (le x y)) [
      | inl before ↦ rw before (h, (a, as'))
      | inr after ↦ rw after (a, All-insert z x ys h as')
    ]

    insert-Sorted : (x : A) (ys : List A) → Sorted ys → Sorted (insert_sorted x ys)
    unfolding insert_sorted
    insert-Sorted x [] s = (tt, tt)
    insert-Sorted x (y ∷ ys) (a, s) = elim (Bool-cases (le x y)) [
      | inl before ↦ rw before ((before, All-trans x y ys before a), (a, s))
      | inr after ↦ rw after (All-insert y x ys (o.total x y after) a, insert-Sorted x ys s)
    ]

    sort-Sorted : (xs : List A) → Sorted (sort xs)
    unfolding sort
    sort-Sorted [] = tt
    sort-Sorted (x ∷ xs) = insert-Sorted x (sort xs) (sort-Sorted xs)

    -- What is above `y` is above everything below `y`.
    Above-lower : (x y z : A) → le x y ≡ true → same x y ≡ false → Above y z → Above x z
    Above-lower x y z h d (k, e) = elim (Bool-cases (same x z)) [
      | inr differ ↦ (o.trans x y z h k, differ)
      | inl equal ↦
          let xz = o.same_eq x z equal in
          let yz = o.antisym y z k (rw (sym xz) h) in
          absurd (ground (arith, rw yz at e, o.same_self z))
    ]

    All-Above :
        (x y : A) (zs : List A)
        → le x y ≡ true
        → same x y ≡ false
        → All (Above y) zs
        → All (Above x) zs
    All-Above x y [] h d a = tt
    All-Above x y (z ∷ zs) h d (a, as') = (Above-lower x y z h d a, All-Above x y zs h d as')

    dedup_after-Rising :
        (x : A) (ys : List A)
        → All (λ y. le x y ≡ true) ys
        → Sorted ys
        → All (Above x) (dedup_after x ys) × Rising (dedup_after x ys)
    unfolding dedup_after
    dedup_after-Rising x [] a s = (tt, tt)
    dedup_after-Rising x (y ∷ ys) (h, a) (b, s) = elim (Bool-cases (same x y)) [
      | inl equal ↦ rw equal (dedup_after-Rising x ys a s)
      | inr differ ↦
          let (above, rising) = dedup_after-Rising y ys b s in
          rw differ (((h, differ), All-Above x y _ h differ above), (above, rising))
    ]

    dedup-Rising : (xs : List A) → Sorted xs → Rising (dedup xs)
    unfolding dedup
    dedup-Rising [] s = tt
    dedup-Rising (x ∷ xs) (a, s) = dedup_after-Rising x xs a s

    pub dedup-sort-Rising : (xs : List A) → Rising (dedup (sort xs))
    dedup-sort-Rising xs = dedup-Rising (sort xs) (sort-Sorted xs)

    member-insert :
        (a x : A) (ys : List A) → member a (insert_sorted x ys) ≡ (same a x || member a ys)
    unfolding insert_sorted
    member-insert a x [] = refl
    member-insert a x (y ∷ ys) = ground (arith, member-insert a x ys)

    member-sort : (a : A) (xs : List A) → member a (sort xs) ≡ member a xs
    unfolding sort
    member-sort a [] = refl
    member-sort a (x ∷ xs) = rw (member-insert a x (sort xs), member-sort a xs) refl

    member-dedup_after :
        (a x : A) (ys : List A)
        → (same a x || member a (dedup_after x ys)) ≡ (same a x || member a ys)
    unfolding dedup_after
    member-dedup_after a x [] = refl
    member-dedup_after a x (y ∷ ys) = elim (Bool-cases (same x y)) [
      | inl equal ↦
          let e = o.same_eq x y equal in rw equal (member-dedup_after a x ys ∙ rw e (ground arith))
      | inr differ ↦ rw differ (ground (arith, member-dedup_after a y ys))
    ]

    member-dedup : (a : A) (xs : List A) → member a (dedup xs) ≡ member a xs
    unfolding dedup
    member-dedup a [] = refl
    member-dedup a (x ∷ xs) = member-dedup_after a x xs

    pub member-dedup-sort : (a : A) (xs : List A) → member a (dedup (sort xs)) ≡ member a xs
    member-dedup-sort a xs = member-dedup a (sort xs) ∙ member-sort a xs
