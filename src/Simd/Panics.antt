-- ===== src/Simd/Panics.antt =====
-- src/simd/mod.rs: when a division by vectors panics, and that it else gives what the loop one by one
-- gives.
use okots_os.Base.{
  ℕ, zero, suc, ◌+◌, ◌*◌, ◌-◌, ◌/◌, ◌%◌, ◌≤◌, ◌<◌, ◌≡◌, refl, sym, ap, ap₂, ◌∙◌, inl, inr, min,
  Bool, Bool-cases, true, false, not, ◌&&◌, ◌||◌, Option, List, [], ◌∷◌, length, ltb, leb, ◌==◌,
  if◌then◌else◌, drop, take, arith,
}
use okots_os.Base as Base
use native.Mathlib.Nat.{zero-mod, add-mod_left, mod-eq_of_lt}
use mathlib.Core.Bool.{and_assoc, and-false}
use okots_os.Simd.{SimdLevel, none, sse4, avx2, avx512, mask, at, block, blocks, scalars, lanes_of}
use okots_os.Simd.Division.{DivOp, quotient, are_divisors, div_blocks, unless_zero, div_batch}
use okots_os.Simd.Blocks.{suc-add, drop-drop, length-drop}
use okots_os.Simd.Levels.{whole, lanes_of-positive}

abbrev pub nonzero : List ℕ → Bool
nonzero [] = true
nonzero (y ∷ b) = not (y == 0) && nonzero b

-- The divisors of all blocks, `fuel` of them.
all_divisors : ℕ → ℕ → ℕ → ℕ → List ℕ → Bool
all_divisors lanes len zero i b = true
all_divisors lanes len (suc fuel) i b =
    let rest = all_divisors lanes len fuel (i + lanes) b in
    if ltb i len then are_divisors lanes (len - i) 0 lanes (drop i b) && rest else true

div_blocks-blocks :
    (op : DivOp) (lanes len fuel i : ℕ) (a b : List ℕ)
    → div_blocks op lanes len fuel i a b ≡ (
        if all_divisors lanes len fuel i b
        then Base.some (blocks (quotient op) lanes len fuel i a b)
        else Base.none)
unfolding div_blocks all_divisors blocks
div_blocks-blocks op lanes len zero i a b = refl
div_blocks-blocks op lanes len (suc fuel) i a b =
    let next : List ℕ = at i (λ s. block (quotient op) lanes (len - i) 0 lanes s (drop i b)) a in
    elim (Bool-cases (ltb i len)) [
      | inl e ↦ elim (Bool-cases (are_divisors lanes (len - i) 0 lanes (drop i b))) [
        | inl d ↦ rw (e, d) (div_blocks-blocks op lanes len fuel (i + lanes) next b)
        | inr d ↦ rw (e, d) refl
      ]
      | inr e ↦ rw e refl
    ]

-- a whole block
are_divisors-whole :
    (lanes remain lane k : ℕ) (b : List ℕ)
    → lanes ≤ remain
    → k ≤ length b
    → are_divisors lanes remain lane k b ≡ nonzero (take k b)
unfolding are_divisors
are_divisors-whole lanes remain lane zero b h p = refl
are_divisors-whole lanes remain lane (suc k) [] h p = absurd (omega arith)
are_divisors-whole lanes remain lane (suc k) (y ∷ b) h p =
    let m : mask lanes remain lane ≡ true = ground arith in
    rw (m, are_divisors-whole lanes remain (lane + 1) k b h (omega arith)) refl

-- a block that is not full
are_divisors-part :
    (lanes remain lane k : ℕ) (b : List ℕ)
    → remain < lanes
    → lane ≤ remain
    → remain < lane + k
    → are_divisors lanes remain lane k b ≡ false
unfolding are_divisors
are_divisors-part lanes remain lane zero b h p q = absurd (omega arith)
are_divisors-part lanes remain lane (suc k) [] h p q = refl
are_divisors-part lanes remain lane (suc k) (y ∷ b) h p q = elim (Bool-cases (lane == remain)) [
  | inl e ↦ let m : mask lanes remain lane ≡ false = ground (arith, e) in rw m refl
  | inr e ↦
      rw (are_divisors-part lanes remain (lane + 1) k b h (ground (arith, e)) (omega arith))
        (and-false (mask lanes remain lane && not (y == 0)))
]

take_nil : (k : ℕ) → nonzero (take k []) ≡ true
take_nil zero = refl
take_nil (suc k) = refl

nonzero-take :
    (k n : ℕ) (b : List ℕ)
    → nonzero (take (k + n) b) ≡ (nonzero (take k b) && nonzero (take n (drop k b)))
nonzero-take zero n b = ap (λ j. nonzero (take j b)) (omega arith)
nonzero-take (suc k) n [] = take_nil (suc k + n) ∙ sym (take_nil n)
nonzero-take (suc k) n (y ∷ b) =
    ap (λ j. nonzero (take j (y ∷ b))) (suc-add k n)
    ∙ ap (λ z. not (y == 0) && z) (nonzero-take k n b)
    ∙ sym (and_assoc (not (y == 0)) (nonzero (take k b)) (nonzero (take n (drop k b))))

-- how many lanes are left over, and what is in all of them
divides : ℕ → ℕ → List ℕ → Bool
divides lanes rest b = (rest % lanes == 0) && nonzero (take rest b)

none_left : (lanes rest : ℕ) (b : List ℕ) → rest ≡ 0 → true ≡ divides lanes rest b
unfolding divides
none_left lanes rest b e = rw (e, zero-mod lanes) refl

swap : (p q r : Bool) → (p && (q && r)) ≡ (q && (p && r))
swap true q r = refl
swap false true r = refl
swap false false r = refl

one_more :
    (lanes n : ℕ) (b : List ℕ)
    → (nonzero (take lanes b) && divides lanes n (drop lanes b)) ≡ divides lanes (lanes + n) b
unfolding divides
one_more lanes n b =
    rw (add-mod_left lanes n, nonzero-take lanes n b)
      (swap (nonzero (take lanes b)) (n % lanes == 0) (nonzero (take n (drop lanes b))))

too_few : (lanes rest : ℕ) (b : List ℕ) → 0 < rest → rest < lanes → false ≡ divides lanes rest b
unfolding divides
too_few lanes rest b p q =
    let some_left : (rest == 0) ≡ false = ground arith in
    rw (mod-eq_of_lt {n = rest} {m = lanes} q, some_left) refl

all_divisors-divides :
    (lanes len fuel i : ℕ) (b : List ℕ)
    → 0 < lanes
    → len ≤ length b
    → i ≤ len
    → len ≤ i + fuel
    → all_divisors lanes len fuel i b ≡ divides lanes (len - i) (drop i b)
unfolding all_divisors
all_divisors-divides lanes len zero i b pos fits below enough =
    none_left lanes (len - i) (drop i b) (omega arith)
all_divisors-divides lanes len (suc fuel) i b pos fits below enough =
    elim (Bool-cases (ltb i len)) [
      | inr e ↦ rw e (none_left lanes (len - i) (drop i b) (ground (arith, e)))
      | inl e ↦ rw e (elim (Bool-cases (leb lanes (len - i))) [
        | inl w ↦
            let n : ℕ = len - (i + lanes) in
            let split : len - i ≡ lanes + n = ground (arith, w) in
            let more =
              all_divisors-divides lanes len fuel (i + lanes) b pos fits (ground (arith, w, e))
                (omega arith) in
            rw
              (
                are_divisors-whole lanes (len - i) 0 lanes (drop i b) (ground (arith, w))
                    (ground (arith, w, length-drop i b)),
                more,
                drop-drop i lanes b,
              )
              (one_more lanes n (drop i b) ∙ ap (λ r. divides lanes r (drop i b)) (sym split))
        | inr w ↦
            rw
              (are_divisors-part lanes (len - i) 0 lanes (drop i b) (ground (arith, w))
                (omega arith) (ground (arith, w)))
              (too_few lanes (len - i) (drop i b) (ground (arith, e)) (ground (arith, w)))
      ])
    ]

same_scalars :
    (op : DivOp) (a b : List ℕ)
    → nonzero (take (min (length a) (length b)) b) ≡ true
    → scalars (unless_zero op) a b ≡ scalars (quotient op) a b
unfolding scalars
same_scalars op [] b h = refl
same_scalars op (x ∷ a) [] h = refl
same_scalars op (x ∷ a) (y ∷ b) h =
    let n : ℕ = min (length a) (length b) in
    let more : min (suc (length a)) (suc (length b)) ≡ suc n = omega arith in
    let h' : (not (y == 0) && nonzero (take n b)) ≡ true =
      sym (ap (λ k. nonzero (take k (y ∷ b))) more) ∙ h in
    elim (Bool-cases (y == 0)) [
      | inl e ↦ absurd (ground (arith, e, h'))
      | inr e ↦
          let rest : nonzero (take n b) ≡ true = sym (rw e refl) ∙ h' in
          rw (e, same_scalars op a b rest) refl
    ]

-- the vectors of a level
abbrev pub vector_bits : SimdLevel → Option ℕ
vector_bits none = Base.none
vector_bits sse4 = Base.some 128
vector_bits avx2 = Base.some 256
vector_bits avx512 = Base.some 512

bits_in : Option ℕ → ℕ
bits_in Base.none = 0
bits_in (Base.some bits) = bits

bits_are : (bits n : ℕ) → Base.some n ≡ Base.some bits → bits ≡ n
unfolding bits_in
bits_are bits n v = sym (ap bits_in v)

by_vectors :
    (op : DivOp) (lanes : ℕ) (a b : List ℕ)
    → 0 < lanes
    → let len = min (length a) (length b) in
      div_blocks op lanes len len 0 a b ≡ (
        if (len % lanes == 0) && nonzero (take len b)
        then Base.some (scalars (unless_zero op) a b)
        else Base.none)
unfolding divides
by_vectors op lanes a b pos =
    let len : ℕ = min (length a) (length b) in
    let blocks_of = div_blocks-blocks op lanes len len 0 a b in
    let checks : all_divisors lanes len len 0 b ≡ divides lanes len b =
      all_divisors-divides lanes len len 0 b pos (omega arith) (omega arith) (omega arith)
      ∙ ap (λ r. divides lanes r b) (omega arith) in
    blocks_of
    ∙ rw (checks, whole (quotient op) lanes a b pos)
        (elim (Bool-cases (nonzero (take len b))) [
          | inl e ↦ rw (same_scalars op a b e) refl
          | inr e ↦ rw (e, and-false (len % lanes == 0)) refl
        ])

-- For elements of 1 to 8 bytes, at a level with vectors, and slices of any two lengths: a division or
-- a remainder panics unless the elements fill whole vectors and no divisor is 0; else it gives what
-- the loop one by one gives, which never panics.
pub div_batch-IsChecked :
    (op : DivOp) (size : ℕ) (a b : List ℕ) (level : SimdLevel) (bits : ℕ)
    → vector_bits level ≡ Base.some bits
    → 1 ≤ size
    → size ≤ 8
    → let len = min (length a) (length b) in
      div_batch op size a b level ≡ (
        if (len % lanes_of bits size == 0) && nonzero (take len b)
        then div_batch op size a b none
        else Base.none)
unfolding div_batch
div_batch-IsChecked op size a b none bits v p q = absurd (ground (arith, v))
div_batch-IsChecked op size a b sse4 bits v p q =
    rw (bits_are bits 128 v) (by_vectors op (lanes_of 128 size) a b (lanes_of-positive size p q).0)
div_batch-IsChecked op size a b avx2 bits v p q =
    rw (bits_are bits 256 v) (by_vectors op (lanes_of 256 size) a b (lanes_of-positive size p q).1)
div_batch-IsChecked op size a b avx512 bits v p q =
    rw (bits_are bits 512 v) (by_vectors op (lanes_of 512 size) a b (lanes_of-positive size p q).2)
