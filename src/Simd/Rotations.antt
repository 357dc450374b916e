-- ===== src/Simd/Rotations.antt =====
-- src/simd/mod.rs: the shifts that a rotation is made of have no bit in common.
use okots_os.Base.{
  ℕ, zero, suc, ◌+◌, ◌*◌, ◌-◌, ◌/◌, ◌%◌, ◌^◌, ◌≤◌, ◌<◌, ◌≡◌, refl, sym, ap, ap₂, ◌∙◌, inl, inr, ◌⊎◌,
  List, [], ◌∷◌, All, subst, map, length, replicate, bit_or, bit_or_halves, bit_or-zero, arith,
}
use native.Mathlib.Nat.{
  pow-suc, one-le-pow, mod-lt, mod-eq_of_lt, mul-add-mod_self_right, div-lt_iff_lt-mul, div-add-mod,
  mod_self, div-eq_of_lt, mul-mod_left,
}
use okots_os.Simd.{SimdLevel, none, sse4, avx2, avx512, scalars, lanes_of, at}
use okots_os.Simd.Shifts.{
  UnaryOp, complement, shl, shr, rotl, rotr, vector_op, scalar_op, by_blocks, unary_batch,
}
use okots_os.Simd.Blocks.{blocks-scalars}

double : (x y : ℕ) → x * (y * 2) ≡ x * y * 2
double x y = omega arith

-- The low digits are put in.
or_fields : (k q r : ℕ) → r < 2 ^ k → bit_or (q * 2 ^ k) r ≡ q * 2 ^ k + r
or_fields zero q r p = let none : r ≡ 0 = omega arith in rw none (bit_or-zero (q * 1) ∙ omega arith)
or_fields (suc k) q r p =
    let h = pow-suc 2 k in
    let e : q * 2 ^ suc k ≡ q * 2 ^ k * 2 = ap (λ n. q * n) h ∙ double q (2 ^ k) in
    let halves : bit_or (q * 2 ^ suc k / 2) (r / 2) ≡ q * 2 ^ k + r / 2 =
      ap (λ n. bit_or n (r / 2)) (omega (arith, e)) ∙ or_fields k q (r / 2) (omega (arith, h)) in
    bit_or_halves (q * 2 ^ suc k) r ∙ omega (arith, halves, e)

or_self : (n v : ℕ) → v ≤ n → bit_or v v ≡ v
or_self n zero p = refl
or_self zero (suc v) p = absurd (omega arith)
or_self (suc n) (suc v) p =
    omega (arith, bit_or_halves (suc v) (suc v), or_self n (suc v / 2) (omega arith))

small : (r a d : ℕ) → 0 < a → r * a < a * (r + 1 + d)
small r a d p = omega arith

product : (q r a b : ℕ) → (q * b + r) * a ≡ q * (a * b) + r * a
product q r a b = omega arith

-- The high digits go out.
carried : (q r a b : ℕ) → 0 < a → r < b → (q * b + r) * a % (a * b) ≡ r * a
carried q r a b p h =
    let d : ℕ = b - r - 1 in
    let e : b ≡ r + 1 + d = omega arith in
    let below : r * a < a * b = rw e (small r a d p) in
    ap (λ n. n % (a * b)) (product q r a b)
    ∙ mul-add-mod_self_right q (a * b) (r * a)
    ∙ mod-eq_of_lt {n = r * a} {m = a * b} below

middle : (x y : ℕ) → x * y * 2 ≡ x * 2 * y
middle x y = omega arith

pow_split : (k m : ℕ) → 2 ^ (k + m) ≡ 2 ^ k * 2 ^ m
pow_split zero m = let e : 0 + m ≡ m = omega arith in ap (λ n. 2 ^ n) e ∙ omega arith
pow_split (suc k) m =
    let e : suc k + m ≡ suc (k + m) = omega arith in
    ap (λ n. 2 ^ n) e
    ∙ pow-suc 2 (k + m)
    ∙ ap (λ n. n * 2) (pow_split k m)
    ∙ middle (2 ^ k) (2 ^ m)
    ∙ ap (λ n. n * 2 ^ m) (sym (pow-suc 2 k))

divided : (v b : ℕ) → v ≡ v / b * b + v % b
divided v b = sym (div-add-mod v b) ∙ omega arith

-- A number of `k + m` digits is turned by `k` of them.
turned :
    (k m v : ℕ)
    → v < 2 ^ (k + m)
    → bit_or (v * 2 ^ k % 2 ^ (k + m)) (v / 2 ^ m) ≡ v * 2 ^ k % 2 ^ (k + m) + v / 2 ^ m
turned k m v p =
    let a : ℕ = 2 ^ k in
    let b : ℕ = 2 ^ m in
    let pa : 0 < a = one-le-pow k 2 (omega arith) in
    let pb : 0 < b = one-le-pow m 2 (omega arith) in
    let whole : 2 ^ (k + m) ≡ a * b = pow_split k m in
    let high : v / b < a =
      (div-lt_iff_lt-mul {k = b} {x = v} {y = a} pb).1 (subst (λ n. v < n) whole p) in
    let shape : v ≡ v / b * b + v % b = divided v b in
    let out : v * a % (a * b) ≡ v % b * a =
      ap (λ n. n * a % (a * b)) shape ∙ carried (v / b) (v % b) a b pa (mod-lt v pb) in
    rw (whole, out) (or_fields k (v % b) (v / b) high)

-- `%` by the width, and the other way round
module _ (w : ℕ) where
  -- how far the other shift goes, from a distance that has lost its high digits
  IsWidth : Type 0
  IsWidth =
      (0 < w)
      × ((n : ℕ) → n % 2 ^ w % w ≡ n % w)
      × ((n : ℕ) → (w + 2 ^ w - n % 2 ^ w) % 2 ^ w % w ≡ (w - n % w) % w)

-- the sizes of the integer types
abbrev pub IsSize : ℕ → Type 0
IsSize size = (size ≡ 1) ⊎ (size ≡ 2) ⊎ (size ≡ 4) ⊎ (size ≡ 8)

widths : (size : ℕ) → IsSize size → IsWidth (size * 8)
unfolding IsWidth
widths size (inl e) = rw e (omega arith, λ n. omega arith, λ n. omega arith)
widths size (inr (inl e)) = rw e (omega arith, λ n. omega arith, λ n. omega arith)
widths size (inr (inr (inl e))) = rw e (omega arith, λ n. omega arith, λ n. omega arith)
widths size (inr (inr (inr e))) = rw e (omega arith, λ n. omega arith, λ n. omega arith)

bit_or_comm : (n a b : ℕ) → a ≤ n → b ≤ n → bit_or a b ≡ bit_or b a
bit_or_comm zero zero zero p q = refl
bit_or_comm zero (suc a) b p q = absurd (omega arith)
bit_or_comm zero zero (suc b) p q = absurd (omega arith)
bit_or_comm (suc n) a b p q = omega (
  arith,
  bit_or_halves a b,
  bit_or_halves b a,
  bit_or_comm n (a / 2) (b / 2) (omega arith) (omega arith),
)

no_distance : (w v : ℕ) → v < 2 ^ w → bit_or (v * 2 ^ 0 % 2 ^ w) (v / 2 ^ ((w - 0) % w)) ≡ v
no_distance w v p =
    let whole : w - 0 ≡ w = omega arith in
    let kept : v * 2 ^ 0 % 2 ^ w ≡ v = ap (λ n. n % 2 ^ w) (omega arith) ∙ mod-eq_of_lt p in
    rw (whole, mod_self w, kept) (ap (bit_or v) (omega arith) ∙ or_self v v (omega arith))

-- Both parts of a rotation to the left by `k`, and to the right by `w - k`.
turn :
    (w k v : ℕ)
    → k < w
    → v < 2 ^ w
    → bit_or (v * 2 ^ k % 2 ^ w) (v / 2 ^ ((w - k) % w)) ≡ v * 2 ^ k % 2 ^ w + v / 2 ^ (w - k)
turn w zero v q p =
    let whole : w - 0 ≡ w = omega arith in
    let kept : v * 2 ^ 0 % 2 ^ w ≡ v = ap (λ n. n % 2 ^ w) (omega arith) ∙ mod-eq_of_lt p in
    no_distance w v p ∙ rw (kept, whole, div-eq_of_lt p) (omega arith)
turn w (suc k) v q p =
    let m : ℕ = w - suc k in
    let e : w ≡ suc k + m = omega arith in
    let far : m % w ≡ m = mod-eq_of_lt (omega arith) in
    rw far (
      subst (λ n. bit_or (v * 2 ^ suc k % 2 ^ n) (v / 2 ^ m) ≡ v * 2 ^ suc k % 2 ^ n + v / 2 ^ m)
        (sym e) (turned (suc k) m v (subst (λ n. v < 2 ^ n) e p)))

turn_right :
    (w k v : ℕ)
    → k < w
    → v < 2 ^ w
    → bit_or (v / 2 ^ k) (v * 2 ^ ((w - k) % w) % 2 ^ w) ≡ v / 2 ^ k + v * 2 ^ (w - k) % 2 ^ w
turn_right w zero v q p =
    let whole : w - 0 ≡ w = omega arith in
    let kept : v * 2 ^ 0 % 2 ^ w ≡ v = ap (λ n. n % 2 ^ w) (omega arith) ∙ mod-eq_of_lt p in
    let one : v / 2 ^ 0 ≡ v = omega arith in
    rw (whole, mod_self w, kept, one, mul-mod_left v (2 ^ w))
      (or_self v v (omega arith) ∙ omega arith)
turn_right w (suc k) v q p =
    let m : ℕ = w - suc k in
    let e : w ≡ m + suc k = omega arith in
    let far : m % w ≡ m = mod-eq_of_lt (omega arith) in
    let parts : bit_or (v * 2 ^ m % 2 ^ w) (v / 2 ^ suc k) ≡ v * 2 ^ m % 2 ^ w + v / 2 ^ suc k =
      subst (λ n. bit_or (v * 2 ^ m % 2 ^ n) (v / 2 ^ suc k) ≡ v * 2 ^ m % 2 ^ n + v / 2 ^ suc k)
        (sym e) (turned m (suc k) v (subst (λ n. v < 2 ^ n) e p)) in
    rw far (
      bit_or_comm (v / 2 ^ suc k + v * 2 ^ m % 2 ^ w) (v / 2 ^ suc k) (v * 2 ^ m % 2 ^ w)
        (omega arith) (omega arith)
      ∙ parts
      ∙ omega arith)

vector_op-scalar :
    (op : UnaryOp) (w v n : ℕ)
    → IsWidth w
    → v < 2 ^ w
    → vector_op w op v (n % 2 ^ w) ≡ scalar_op w op n v
unfolding vector_op scalar_op IsWidth
vector_op-scalar complement w v n h p = refl
vector_op-scalar shl w v n (pos, same, back) p = rw (same n) refl
vector_op-scalar shr w v n (pos, same, back) p = rw (same n) refl
vector_op-scalar rotl w v n (pos, same, back) p =
    rw (same n, back n) (turn w (n % w) v (mod-lt n pos) p)
vector_op-scalar rotr w v n (pos, same, back) p =
    rw (same n, back n) (turn_right w (n % w) v (mod-lt n pos) p)

lanes :
    (size : ℕ)
    → IsSize size
    → (0 < lanes_of 128 size) × (0 < lanes_of 256 size) × (0 < lanes_of 512 size)
lanes size (inl e) = rw e (omega arith, omega arith, omega arith)
lanes size (inr (inl e)) = rw e (omega arith, omega arith, omega arith)
lanes size (inr (inr (inl e))) = rw e (omega arith, omega arith, omega arith)
lanes size (inr (inr (inr e))) = rw e (omega arith, omega arith, omega arith)

-- Each lane of the slice, beside the same number.
scalars-replicate :
    (f : ℕ → ℕ → ℕ) (g : ℕ → ℕ) (limit n : ℕ) (a : List ℕ)
    → ((v : ℕ) → v < limit → f v n ≡ g v)
    → All (λ v. v < limit) a
    → scalars f a (replicate (length a) n) ≡ map g a
unfolding scalars
scalars-replicate f g limit n [] h p = refl
scalars-replicate f g limit n (x ∷ a) h p =
    ap₂ (λ y ys. y ∷ ys) (h x p.0) (scalars-replicate f g limit n a h p.1)

by_blocks-map :
    (op : UnaryOp) (size lanes n : ℕ) (a : List ℕ)
    → 0 < lanes
    → IsSize size
    → All (λ v. v < 2 ^ (size * 8)) a
    → by_blocks op size lanes a n ≡ map (scalar_op (size * 8) op n) a
unfolding at
by_blocks-map op size lanes n a pos s p =
    let w : ℕ = size * 8 in
    let len : ℕ = length a in
    let splat : List ℕ = replicate len (n % 2 ^ w) in
    blocks-scalars (vector_op w op) lanes len len 0 a splat pos (omega arith) (omega arith)
    ∙ scalars-replicate (vector_op w op) (scalar_op w op n) (2 ^ w) (n % 2 ^ w) a
        (λ v q. vector_op-scalar op w v n (widths size s) q) p

-- For the integer types without a sign, slices of any length and any distance, also one beyond the
-- width: complement, shifts and rotations give the same slice at every level. The two shifts that a
-- rotation is made of are the rotation of the language.
pub unary_batch-none :
    (op : UnaryOp) (size n : ℕ) (a : List ℕ) (level : SimdLevel)
    → IsSize size
    → All (λ v. v < 2 ^ (size * 8)) a
    → unary_batch op size a n level ≡ unary_batch op size a n none
unfolding unary_batch
unary_batch-none op size n a avx512 s p =
    by_blocks-map op size (lanes_of 512 size) n a (lanes size s).2 s p
unary_batch-none op size n a avx2 s p =
    by_blocks-map op size (lanes_of 256 size) n a (lanes size s).1 s p
unary_batch-none op size n a sse4 s p =
    by_blocks-map op size (lanes_of 128 size) n a (lanes size s).0 s p
unary_batch-none op size n a none s p = refl
