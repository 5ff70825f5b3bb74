-- ===== src/PendingMap.antt =====
-- core/src/pending_map.rs: the map with a time to live. Clones share one map, so there is one
-- state here; the clock is an argument of the operations that read it. `V` is the value type.
pub mod Laws
pub mod History
pub mod Cleaner
use swarm_p2p.Prelude.{ℕ, ◌-◌, Bool, true, false, Option, none, some, [], ◌∷◌, ltb, length, retain}
use swarm_p2p.Prelude.Map.{Map, get, insert, remove}
use mathlib.Core.Option

-- Seconds.
abbrev pub default_cleanup_interval : ℕ
default_cleanup_interval = 10

pub record PendingEntry {ℓ} (V : Type ℓ) : Type ℓ where
  pub value : V
  pub created_at : ℕ

pub record PendingMap {ℓ} (V : Type ℓ) : Type ℓ where
  pub inner : Map (PendingEntry V)
  pub ttl : ℕ

module _ {ℓ} {V : Type ℓ} where
  abbrev pub new_pending : ℕ → PendingMap V
  new_pending ttl = record { inner = []; ttl = ttl }

  -- `HashMap::insert` replaces an entry of the same key.
  unfoldable pub insert_pending : ℕ → ℕ → V → PendingMap V → PendingMap V
  insert_pending now key value m = record m {
    inner = insert key (record { value = value; created_at = now }) m.inner;
  }

  unfoldable pub take_pending : ℕ → PendingMap V → Option V × PendingMap V
  take_pending key m =
      (Option.map (λ e. e.value) (get key m.inner), record m { inner = remove key m.inner })

  abbrev pub len_pending : PendingMap V → ℕ
  len_pending m = length m.inner

  abbrev pub is_empty_pending : PendingMap V → Bool
  is_empty_pending m = elim m.inner [ [] ↦ true | e ∷ es ↦ false ]

  -- `Instant::duration_since` stops at 0, as `-` does.
  abbrev pub is_fresh : ℕ → ℕ → ℕ × PendingEntry V → Bool
  is_fresh ttl now (key, e) = ltb (now - e.created_at) ttl

  -- The number of entries removed, and what is left.
  unfoldable pub purge_expired_entries : ℕ → ℕ → Map (PendingEntry V) → ℕ × Map (PendingEntry V)
  purge_expired_entries ttl now entries =
      let kept = retain (is_fresh ttl now) entries in (length entries - length kept, kept)

  unfoldable pub purge_expired : ℕ → PendingMap V → ℕ × PendingMap V
  unfolding purge_expired_entries
  purge_expired now m =
      let (removed, kept) = purge_expired_entries m.ttl now m.inner in
      (removed, record m { inner = kept })
