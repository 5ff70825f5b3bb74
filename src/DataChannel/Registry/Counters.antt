-- ===== src/DataChannel/Registry/Counters.antt =====
-- A map of counters that stands for a function into the numbers: a missing entry is 0, and no
-- entry is 0.
use swarm_p2p.Prelude.{
  ℕ, zero, suc, ◌+◌, ◌-◌, ◌<◌, ◌≡◌, refl, Option, none, some, arith, ◌==◌, if◌then◌else◌, word_mod,
  word_add-eq, unwrap_or,
}
use native.Mathlib.Numerals.{add-one}
use swarm_p2p.Prelude.Map.{Map, get, get-insert, get-remove}
use swarm_p2p.DataChannel.Registry.{increment, decrement}

-- What the map holds for a count.
abbrev pub entry : ℕ → Option ℕ
entry zero = none
entry (suc n) = some (suc n)

pub unwrap_or-entry : (n : ℕ) → unwrap_or (entry n) 0 ≡ n
unwrap_or-entry zero = refl
unwrap_or-entry (suc n) = refl

pub get-increment :
    (key j : ℕ) (counts : Map ℕ) (n : ℕ)
    → get key counts ≡ entry n
    → n + 1 < word_mod
    → get j (increment key counts) ≡ (if key == j then entry (suc n) else get j counts)
unfolding increment
get-increment key j counts n held fits =
    rw (held, unwrap_or-entry, word_add-eq n 1 fits, get-insert) (rw add-one refl)

pub get-decrement :
    (key j : ℕ) (counts : Map ℕ) (n : ℕ)
    → get key counts ≡ entry n
    → get j (decrement key counts) ≡ (if key == j then entry (n - 1) else get j counts)
unfolding decrement
get-decrement key j counts zero held = ground arith
get-decrement key j counts (suc zero) held = ground (arith, get-remove key j counts)
get-decrement key j counts (suc (suc n)) held = ground (arith, get-insert key j (suc n) counts)
