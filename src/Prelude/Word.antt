-- ===== src/Prelude/Word.antt =====
-- `usize` and `u64` of a 64-bit target: numbers below 2 ^ 64, with the wrap-around of `+`.
use Prim.Native.Nat.{ℕ, ◌+◌, ◌%◌, ◌<◌, ◌^◌}
use mathlib.Core.Path.{◌≡◌}
use native.Mathlib.Omega.{arith}

abbrev pub word_mod : ℕ
word_mod = 2 ^ 64

unfoldable pub word_add : ℕ → ℕ → ℕ
word_add a b = (a + b) % word_mod

pub word_add-eq : (a b : ℕ) → a + b < word_mod → word_add a b ≡ a + b
unfolding word_add
word_add-eq a b h = omega arith

pub word_add-lt : (a b : ℕ) → word_add a b < word_mod
unfolding word_add
word_add-lt a b = omega arith
