-- ===== src/CpuFlags/Bit.antt =====
-- The bits of a word, one by one, and the words that have one bit or all but one.
use okots_os.Base.{
  ℕ, zero, suc, ◌+◌, ◌-◌, ◌*◌, ◌/◌, ◌%◌, ◌^◌, ◌<◌, ◌≡◌, refl, ap, ◌∙◌, true, false, min, max,
  bit_and, bit_or, arith, ◌==◌, ==_iff, Bool-cases, inl, inr, checked, checked_all, if◌then◌else◌,
  bit_or_halves, bit_and_halves, bit_and-zero,
}
use okots_os.CpuFlags.{is_set, fetch_or, fetch_and}
use native.Mathlib.Nat.{pow-suc, one-le-pow}

abbrev pub bit : ℕ → ℕ → ℕ
bit zero n = n % 2
bit (suc i) n = bit i (n / 2)

pub bit-two : (i n : ℕ) → bit i n < 2
bit-two zero n = omega arith
bit-two (suc i) n = bit-two i (n / 2)

pub bit-zero : (i : ℕ) → bit i 0 ≡ 0
bit-zero zero = refl
bit-zero (suc i) = bit-zero i

pub bit-bit_or : (i a b : ℕ) → bit i (bit_or a b) ≡ max (bit i a) (bit i b)
bit-bit_or zero a b = omega (arith, bit_or_halves a b)
bit-bit_or (suc i) a b =
    ap (bit i) (omega (arith, bit_or_halves a b)) ∙ bit-bit_or i (a / 2) (b / 2)

pub bit-bit_and : (i a b : ℕ) → bit i (bit_and a b) ≡ min (bit i a) (bit i b)
bit-bit_and zero a b = omega (arith, bit_and_halves a b)
bit-bit_and (suc i) a b =
    ap (bit i) (omega (arith, bit_and_halves a b)) ∙ bit-bit_and i (a / 2) (b / 2)

half-pow : (i : ℕ) → (2 ^ suc i / 2 ≡ 2 ^ i) × (2 ^ suc i % 2 ≡ 0)
half-pow i = let h = pow-suc 2 i in (omega (arith, h), omega (arith, h))

double : (x y z : ℕ) → x * y * 2 + min z 0 ≡ x * (y * 2)
double x y z = omega arith

-- A mask of one bit picks that bit.
pub bit_and-pow : (i n : ℕ) → bit_and n (2 ^ i) ≡ bit i n * 2 ^ i
bit_and-pow zero n = omega (arith, bit_and_halves n 1, bit_and-zero (n / 2))
bit_and-pow (suc i) n =
    let (h, l) = half-pow i in
    let rest : bit_and (n / 2) (2 ^ suc i / 2) ≡ bit i (n / 2) * 2 ^ i =
      ap (bit_and (n / 2)) h ∙ bit_and-pow i (n / 2) in
    bit_and_halves n (2 ^ suc i)
    ∙ rw (rest, l, pow-suc 2 i) (double (bit i (n / 2)) (2 ^ i) (n % 2))

pub bit-pow : (i j : ℕ) → bit j (2 ^ i) ≡ (if j == i then 1 else 0)
bit-pow zero zero = refl
bit-pow zero (suc j) = bit-zero j ∙ ground arith
bit-pow (suc i) zero = (half-pow i).1 ∙ ground arith
bit-pow (suc i) (suc j) = ap (bit j) (half-pow i).0 ∙ bit-pow i j ∙ ground arith

table :
    checked (λ i. checked (λ j. bit j (2 ^ 64 - 1 - 2 ^ i) == (if j == i then 0 else 1)) 64) 64
    ≡ true
unfolding checked
table = refl

-- all bits but one
pub bit-rest : (i j : ℕ) → i < 64 → j < 64 → bit j (2 ^ 64 - 1 - 2 ^ i) ≡ (if j == i then 0 else 1)
bit-rest i j p q = (==_iff _ _).0 (checked_all _ 64 j q (checked_all _ 64 i p table))

pub is_set-pow : (i n : ℕ) → is_set n (2 ^ i) ≡ (bit i n == 1)
is_set-pow i n =
    let two = bit-two i n in
    elim (Bool-cases (bit i n == 1)) [
      | inl e ↦
          let one : bit_and n (2 ^ i) ≡ 2 ^ i =
            bit_and-pow i n ∙ rw ((==_iff _ 1).0 e) (omega arith) in
          rw one (ground (arith, e, one-le-pow i 2))
      | inr e ↦
          let none : bit i n ≡ 0 = ground (arith, e, two) in
          let zero' : bit_and n (2 ^ i) ≡ 0 = bit_and-pow i n ∙ rw none (omega arith) in
          rw (zero', none) refl
    ]

-- the bit with a number, in an array of words
abbrev pub at : (ℕ → ℕ) → ℕ → ℕ
at words id = bit (id % 64) (words (id / 64))

same : (i j : ℕ) → (j / 64 == i / 64) ≡ true → (j % 64 == i % 64) ≡ (j == i)
same i j e = ground (arith, e)

other : (i j : ℕ) → (j / 64 == i / 64) ≡ false → (j == i) ≡ false
other i j e = ground (arith, e)

-- Setting or clearing one of the bits leaves the others.
pub at-fetch_or :
    (words : ℕ → ℕ) (id j : ℕ)
    → at (fetch_or (id / 64) (2 ^ (id % 64)) words) j ≡ (if j == id then 1 else at words j)
at-fetch_or words id j = elim (Bool-cases (j / 64 == id / 64)) [
  | inl e ↦
      let two = bit-two (j % 64) (words (id / 64)) in
      let w : words (j / 64) ≡ words (id / 64) = ap words ((==_iff (j / 64) (id / 64)).0 e) in
      rw
        (
          e,
          bit-bit_or (j % 64) (words (id / 64)) (2 ^ (id % 64)),
          bit-pow (id % 64) (j % 64),
          same id j e,
          w,
        )
        (ground (arith, two))
  | inr e ↦ rw (e, other id j e) refl
]

pub at-fetch_and :
    (words : ℕ → ℕ) (id j : ℕ)
    → at (fetch_and (id / 64) (2 ^ 64 - 1 - 2 ^ (id % 64)) words) j
      ≡ (if j == id then 0 else at words j)
at-fetch_and words id j = elim (Bool-cases (j / 64 == id / 64)) [
  | inl e ↦
      let two = bit-two (j % 64) (words (id / 64)) in
      let w : words (j / 64) ≡ words (id / 64) = ap words ((==_iff (j / 64) (id / 64)).0 e) in
      rw
        (
          e,
          bit-bit_and (j % 64) (words (id / 64)) (2 ^ 64 - 1 - 2 ^ (id % 64)),
          bit-rest (id % 64) (j % 64) (omega arith) (omega arith),
          same id j e,
          w,
        )
        (ground (arith, two))
  | inr e ↦ rw (e, other id j e) refl
]
