-- ===== src/Base/Bits.antt =====
-- The laws of `bit_and` and `bit_or` at variables: both work digit by digit, in any base that is a
-- power of two.
use Prim.Native.Nat.{
  ℕ, zero, suc, ◌+◌, ◌*◌, ◌/◌, ◌%◌, ◌^◌, ◌≤◌, ◌<◌, min, max, bit_and, bit_or, digits,
  bit_and-bitwise, bit_or-bitwise,
}
use mathlib.Core.Path.{◌≡◌, refl, ap, ap₂, ◌∙◌}
use mathlib.Core.Bool.{true}
use native.Mathlib.Omega.{arith}
use okots_os.Base.Tests.{◌==◌, ==_iff, checked, checked_all}

-- the digits that both operations are made of, with fuel for the left number
module _ (end : ℕ → ℕ) (digit : ℕ → ℕ → ℕ) where
  digits_enough : (n m a b : ℕ) → a ≤ n → a ≤ m → digits end digit n a b ≡ digits end digit m a b
  digits_enough zero zero a b p q = refl
  digits_enough zero (suc m) zero b p q = refl
  digits_enough zero (suc m) (suc a) b p q = absurd (omega arith)
  digits_enough (suc n) zero zero b p q = refl
  digits_enough (suc n) zero (suc a) b p q = absurd (omega arith)
  digits_enough (suc n) (suc m) zero b p q = refl
  digits_enough (suc n) (suc m) (suc a) b p q =
      omega (arith, digits_enough n m (suc a / 2) (b / 2) (omega arith) (omega arith))

pub bit_or_halves : (a b : ℕ) → bit_or a b ≡ bit_or (a / 2) (b / 2) * 2 + max (a % 2) (b % 2)
bit_or_halves zero b = omega (arith, bit_or-bitwise 0 b, bit_or-bitwise 0 (b / 2))
bit_or_halves (suc a) b = omega (
  arith,
  bit_or-bitwise (suc a) b,
  bit_or-bitwise (suc a / 2) (b / 2),
  digits_enough (λ b. b) max a (suc a / 2) (suc a / 2) (b / 2) (omega arith) (omega arith),
)

pub bit_and_halves : (a b : ℕ) → bit_and a b ≡ bit_and (a / 2) (b / 2) * 2 + min (a % 2) (b % 2)
bit_and_halves zero b = omega (arith, bit_and-bitwise 0 b, bit_and-bitwise 0 (b / 2))
bit_and_halves (suc a) b = omega (
  arith,
  bit_and-bitwise (suc a) b,
  bit_and-bitwise (suc a / 2) (b / 2),
  digits_enough (λ b. 0) min a (suc a / 2) (suc a / 2) (b / 2) (omega arith) (omega arith),
)

-- An operation works digit by digit in base `s`.
abbrev pub Splits : (ℕ → ℕ → ℕ) → ℕ → Type 0
Splits op s = (a b c d : ℕ) → b < s → d < s → op (a * s + b) (c * s + d) ≡ op a c * s + op b d

Splits-2 :
    (op digit : ℕ → ℕ → ℕ)
    → ((a b : ℕ) → op a b ≡ op (a / 2) (b / 2) * 2 + digit (a % 2) (b % 2))
    → ((b d : ℕ) → b < 2 → d < 2 → op b d ≡ digit b d)
    → Splits op 2
Splits-2 op digit halves bits a b c d p q =
    let high : op ((a * 2 + b) / 2) ((c * 2 + d) / 2) ≡ op a c =
      ap₂ op (omega arith) (omega arith) in
    let low : digit ((a * 2 + b) % 2) ((c * 2 + d) % 2) ≡ digit b d =
      ap₂ digit (omega arith) (omega arith) in
    omega (arith, halves (a * 2 + b) (c * 2 + d), bits b d p q)

bit_or_bits : (b d : ℕ) → b < 2 → d < 2 → bit_or b d ≡ max b d
bit_or_bits zero zero p q = refl
bit_or_bits zero (suc zero) p q = refl
bit_or_bits (suc zero) zero p q = refl
bit_or_bits (suc zero) (suc zero) p q = refl
bit_or_bits (suc (suc b)) d p q = absurd (omega arith)
bit_or_bits b (suc (suc d)) p q = absurd (omega arith)

bit_and_bits : (b d : ℕ) → b < 2 → d < 2 → bit_and b d ≡ min b d
bit_and_bits zero zero p q = refl
bit_and_bits zero (suc zero) p q = refl
bit_and_bits (suc zero) zero p q = refl
bit_and_bits (suc zero) (suc zero) p q = refl
bit_and_bits (suc (suc b)) d p q = absurd (omega arith)
bit_and_bits b (suc (suc d)) p q = absurd (omega arith)

expand : (x y z s : ℕ) → (x * s + y) * s + z ≡ x * (s * s) + (y * s + z)
expand x y z s = omega arith

-- Two digits make one of the squared base.
Splits-square :
    (op : ℕ → ℕ → ℕ) (s : ℕ)
    → ((b : ℕ) → b < s * s → (q : ℕ) × (r : ℕ) × (b ≡ q * s + r) × (q < s) × (r < s))
    → Splits op s
    → Splits op (s * s)
Splits-square op s parts h a b c d p q =
    let (b1, b0, eb, b1s, b0s) = parts b p in
    let (d1, d0, ed, d1s, d0s) = parts d q in
    let whole : op (a * (s * s) + b) (c * (s * s) + d)
        ≡ op ((a * s + b1) * s + b0) ((c * s + d1) * s + d0) =
      ap₂ op (omega arith) (omega arith) in
    let rest : op b d ≡ op b1 d1 * s + op b0 d0 = ap₂ op eb ed ∙ h b1 b0 d1 d0 b0s d0s in
    let top : op (a * s + b1) (c * s + d1) ≡ op a c * s + op b1 d1 = h a b1 c d1 b1s d1s in
    whole
    ∙ h (a * s + b1) b0 (c * s + d1) d0 b0s d0s
    ∙ rw (top, rest) (expand (op a c) (op b1 d1) (op b0 d0) s)

module _ (op : ℕ → ℕ → ℕ) (h : Splits op 2) where
  pub Splits-4 : Splits op 4
  Splits-4 = Splits-square op 2 (λ b p. (b / 2, b % 2, omega arith, omega arith, omega arith)) h

  Splits-16 : Splits op 16
  Splits-16 =
      Splits-square op 4 (λ b p. (b / 4, b % 4, omega arith, omega arith, omega arith)) Splits-4

  pub Splits-8_bits : Splits op 256
  Splits-8_bits =
      Splits-square op 16 (λ b p. (b / 16, b % 16, omega arith, omega arith, omega arith)) Splits-16

  pub Splits-16_bits : Splits op 65536
  Splits-16_bits =
      Splits-square op 256 (λ b p. (b / 256, b % 256, omega arith, omega arith, omega arith))
        Splits-8_bits

  pub Splits-32_bits : Splits op (2 ^ 32)
  Splits-32_bits =
      Splits-square op 65536 (λ b p. (b / 65536, b % 65536, omega arith, omega arith, omega arith))
        Splits-16_bits

pub bit_or-Splits : Splits bit_or 2
bit_or-Splits = Splits-2 bit_or max bit_or_halves bit_or_bits

pub bit_and-Splits : Splits bit_and 2
bit_and-Splits = Splits-2 bit_and min bit_and_halves bit_and_bits

-- Zeros change nothing in a sum of bits, and clear a mask.
zeros :
    (op digit : ℕ → ℕ → ℕ) (f : ℕ → ℕ)
    → ((a b : ℕ) → op a b ≡ op (a / 2) (b / 2) * 2 + digit (a % 2) (b % 2))
    → ((a : ℕ) → f (a / 2) * 2 + digit (a % 2) 0 ≡ f a)
    → op 0 0 ≡ f 0
    → (n a : ℕ) → a ≤ n
    → op a 0 ≡ f a
zeros op digit f halves same none n zero h = none
zeros op digit f halves same none zero (suc a) h = absurd (omega arith)
zeros op digit f halves same none (suc n) (suc a) h = omega (
  arith,
  halves (suc a) 0,
  zeros op digit f halves same none n (suc a / 2) (omega arith),
  same (suc a),
)

pub bit_or-zero : (a : ℕ) → bit_or a 0 ≡ a
bit_or-zero a = zeros bit_or max (λ b. b) bit_or_halves (λ b. omega arith) refl a a (omega arith)

pub bit_and-zero : (a : ℕ) → bit_and a 0 ≡ 0
bit_and-zero a = zeros bit_and min (λ b. 0) bit_and_halves (λ b. omega arith) refl a a (omega arith)

pub zero-bit_or : (b : ℕ) → bit_or 0 b ≡ b
zero-bit_or b = bit_or-bitwise 0 b

pub zero-bit_and : (b : ℕ) → bit_and 0 b ≡ 0
zero-bit_and b = bit_and-bitwise 0 b

-- A mask that keeps every digit of a base keeps the lowest one of a number.
lowest :
    (s m : ℕ)
    → Splits bit_and s
    → m < s
    → checked (λ b. bit_and b m == b) s ≡ true
    → (q r : ℕ) → r < s
    → bit_and (q * s + r) m ≡ r
lowest s m h p keeps q r below =
    let kept : bit_and r m ≡ r = (==_iff (bit_and r m) r).0 (checked_all _ s r below keeps) in
    let whole : bit_and (q * s + r) m ≡ bit_and (q * s + r) (0 * s + m) =
      ap (bit_and (q * s + r)) (omega arith) in
    whole ∙ h q r 0 m below p ∙ rw (kept, bit_and-zero q) (omega arith)

pub bit_and-byte : (a : ℕ) → bit_and a 255 ≡ a % 256
unfolding checked
bit_and-byte a =
    ap (λ n. bit_and n 255) (omega arith)
    ∙ lowest 256 255 (Splits-8_bits bit_and bit_and-Splits) (omega arith) refl (a / 256) (a % 256)
        (omega arith)

pub bit_and_3 : (a : ℕ) → bit_and a 3 ≡ a % 4
unfolding checked
bit_and_3 a =
    ap (λ n. bit_and n 3) (omega arith)
    ∙ lowest 4 3 (Splits-4 bit_and bit_and-Splits) (omega arith) refl (a / 4) (a % 4) (omega arith)

-- A mask in two halves of a base.
pub masked_halves :
    (s : ℕ)
    → Splits bit_and s
    → (h l q r x y : ℕ) → r < s
    → l < s
    → bit_and q h ≡ x
    → bit_and r l ≡ y
    → bit_and (q * s + r) (h * s + l) ≡ x * s + y
masked_halves s split h l q r x y p p' e e' = split q r h l p p' ∙ rw (e, e') refl

-- A test of one value of a digit.
pub by_table :
    (s : ℕ) (f g : ℕ → ℕ) → checked (λ b. f b == g b) s ≡ true → (b : ℕ) → b < s → f b ≡ g b
by_table s f g table b p = (==_iff (f b) (g b)).0 (checked_all (λ b. f b == g b) s b p table)
