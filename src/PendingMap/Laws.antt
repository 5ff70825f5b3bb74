-- ===== src/PendingMap/Laws.antt =====
-- What a lookup finds after each operation of core/src/pending_map.rs.
use swarm_p2p.Prelude.{
  ℕ, ◌+◌, ◌-◌, ◌≡◌, refl, Bool, not, Option, none, some, [], ◌∷◌, arith, ltb, leb, ◌&&◌, ◌==◌,
  if◌then◌else◌, length, retain, tally, length-retain,
}
use swarm_p2p.Prelude.Map.{Map, IsMap, get, get-insert, get-remove, insert-IsMap, remove-IsMap}
use swarm_p2p.PendingMap.{
  PendingEntry, PendingMap, insert_pending, take_pending, len_pending, is_fresh, purge_expired,
}
use mathlib.Core.Option

-- The entry that a lookup sees, if it has not expired.
abbrev pub if_fresh {ℓ} : {V : Type ℓ} → ℕ → ℕ → Option (PendingEntry V) → Option (PendingEntry V)
if_fresh ttl now none = none
if_fresh ttl now (some e) = if ltb (now - e.created_at) ttl then some e else none

module _ {ℓ} {V : Type ℓ} where
  get-retain-none :
      (ttl now key : ℕ) (m : Map (PendingEntry V))
      → get key m ≡ none
      → get key (retain (is_fresh ttl now) m) ≡ none
  unfolding get
  get-retain-none ttl now key [] h = refl
  get-retain-none ttl now key ((k, e) ∷ m) h = ground (arith, get-retain-none ttl now key m)

  get-retain :
      (ttl now key : ℕ) (m : Map (PendingEntry V))
      → IsMap m
      → get key (retain (is_fresh ttl now) m) ≡ if_fresh ttl now (get key m)
  unfolding get
  get-retain ttl now key [] u = refl
  get-retain ttl now key ((k, e) ∷ m) u =
      ground (arith, get-retain ttl now key m u.1, get-retain-none ttl now key m)

  IsMap-retain :
      (ttl now : ℕ) (m : Map (PendingEntry V)) → IsMap m → IsMap (retain (is_fresh ttl now) m)
  IsMap-retain ttl now [] u = tt
  IsMap-retain ttl now ((k, e) ∷ m) u =
      ground (arith, IsMap-retain ttl now m u.1, get-retain-none ttl now k m)

module _ {ℓ} {V : Type ℓ} (m : PendingMap V) where
  abbrev pub entry_at : ℕ → Option (PendingEntry V)
  entry_at key = get key m.inner

-- What an operation makes of the entry at each key, of the keys' uniqueness and of the time to live.
module _ {ℓ} {V : Type ℓ} (m : PendingMap V) (u : IsMap m.inner) where
  pub insert_pending-effect :
      (now key : ℕ) (v : V)
      → IsMap (insert_pending now key v m).inner
        × ((j : ℕ)
            → entry_at (insert_pending now key v m) j
              ≡ (if key == j then some (record { value = v; created_at = now }) else entry_at m j))
  unfolding insert_pending
  insert_pending-effect now key v = (
    insert-IsMap key (record { value = v; created_at = now }) m.inner u,
    λ j. get-insert key j _ m.inner,
  )

  pub take_pending-effect :
      (key : ℕ)
      → ((take_pending key m).0 ≡ Option.map (λ e. e.value) (entry_at m key))
        × IsMap (take_pending key m).1.inner
        × ((j : ℕ) → entry_at (take_pending key m).1 j ≡ (if key == j then none else entry_at m j))
  unfolding take_pending
  take_pending-effect key = (refl, remove-IsMap key m.inner u, λ j. get-remove key j m.inner)

  pub purge_expired-effect :
      (now : ℕ)
      → IsMap (purge_expired now m).1.inner
        × ((j : ℕ) → entry_at (purge_expired now m).1 j ≡ if_fresh m.ttl now (entry_at m j))
  unfolding purge_expired
  purge_expired-effect now =
      (IsMap-retain m.ttl now m.inner u, λ j. get-retain m.ttl now j m.inner u)

-- As old as the time to live, or older. The age of an entry from after `now` is 0.
abbrev pub is_stale {ℓ} : {V : Type ℓ} → ℕ → ℕ → ℕ × PendingEntry V → Bool
is_stale ttl now (key, e) = leb ttl (now - e.created_at)

-- What a purge keeps, counted by any test.
tally-kept {ℓ} :
    {V : Type ℓ} (ttl now : ℕ) (p : ℕ × PendingEntry V → Bool) (m : Map (PendingEntry V))
    → tally p (retain (is_fresh ttl now) m) ≡ tally (λ x. p x && not (is_stale ttl now x)) m
tally-kept ttl now p [] = refl
tally-kept ttl now p ((k, e) ∷ m) = ground (arith, tally-kept ttl now p m)

tally-split {ℓ} :
    {V : Type ℓ} (ttl now : ℕ) (m : Map (PendingEntry V))
    → tally (is_fresh ttl now) m + tally (is_stale ttl now) m ≡ length m
tally-split ttl now [] = omega arith
tally-split ttl now ((k, e) ∷ m) = ground (arith, tally-split ttl now m)

tally-stale {ℓ} :
    {V : Type ℓ} (ttl now : ℕ) (m : Map (PendingEntry V))
    → tally (is_stale ttl now) (retain (is_fresh ttl now) m) ≡ 0
tally-stale ttl now [] = omega arith
tally-stale ttl now ((k, e) ∷ m) = ground (arith, tally-stale ttl now m)

-- The count that a purge returns is the number of entries as old as the time to live or older; these
-- are gone after it; every other entry is there after it as often as before, by whatever test the
-- entries are counted; and the subtraction that computes the count does not wrap.
pub purge_expired-count {ℓ} :
    {V : Type ℓ} (now : ℕ) (m : PendingMap V)
    → ((purge_expired now m).0 ≡ tally (is_stale m.ttl now) m.inner)
      × ((purge_expired now m).0 + len_pending (purge_expired now m).1 ≡ len_pending m)
      × (tally (is_stale m.ttl now) (purge_expired now m).1.inner ≡ 0)
      × ((p : ℕ × PendingEntry V → Bool)
          → tally p (purge_expired now m).1.inner
            ≡ tally (λ x. p x && not (is_stale m.ttl now x)) m.inner)
unfolding purge_expired
purge_expired-count now m =
    let kept = length-retain (is_fresh m.ttl now) m.inner in
    let all = tally-split m.ttl now m.inner in
    (
      omega (arith, kept, all),
      omega (arith, kept, all),
      tally-stale m.ttl now m.inner,
      λ p. tally-kept m.ttl now p m.inner,
    )
