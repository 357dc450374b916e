-- ===== src/Base/Words.antt =====
-- `usize` and `u64` arithmetic of a release build: it wraps at 2 ^ 64.
use Prim.Native.Nat.{ℕ, ◌+◌, ◌-◌, ◌*◌, ◌%◌, ◌^◌, ◌≤◌, ◌<◌}
use mathlib.Core.Path.{◌≡◌}
use native.Mathlib.Omega.{arith}

abbrev pub word : ℕ
word = 2 ^ 64

abbrev pub add_word : ℕ → ℕ → ℕ
add_word a b = (a + b) % 2 ^ 64

-- `-` on ℕ stops at 0, so the modulus is added first.
abbrev pub sub_word : ℕ → ℕ → ℕ
sub_word a b = (a + 2 ^ 64 - b) % 2 ^ 64

abbrev pub mul_word : ℕ → ℕ → ℕ
mul_word a b = (a * b) % 2 ^ 64

pub add_word-eq_add : (a b : ℕ) → a + b < 2 ^ 64 → add_word a b ≡ a + b
add_word-eq_add a b h = omega arith

pub sub_word-eq_sub : (a b : ℕ) → a < 2 ^ 64 → b ≤ a → sub_word a b ≡ a - b
sub_word-eq_sub a b h k = omega arith
