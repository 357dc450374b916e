-- ===== src/Simd.antt =====
-- src/simd/mod.rs: the batch operations on slices, by blocks of lanes and one by one. A lane is a
-- number; what the types of core::simd do with one lane is a parameter.
pub mod Blocks
pub mod Levels
pub mod Division
pub mod Panics
pub mod Shifts
pub mod Rotations
use okots_os.Base.{
  ℕ, zero, suc, ◌+◌, ◌*◌, ◌-◌, ◌/◌, ◌%◌, ◌^◌, min, Bool, true, false, not, ◌&&◌, ◌||◌, List, [],
  ◌∷◌, length, ltb, leb, ◌==◌, if◌then◌else◌, drop, bit_and, bit_or, bit_xor,
}

pub data SimdLevel : Type 0 where
  none sse4 avx2 avx512 : SimdLevel

-- `Mask::from_bitmask` of `!0` or of `(1 << remain) - 1`: which of the lanes take part
abbrev pub mask : ℕ → ℕ → ℕ → Bool
mask lanes remain lane = leb lanes remain || ltb lane remain

-- a change of the slice from `i` on
unfoldable pub at : ℕ → (List ℕ → List ℕ) → List ℕ → List ℕ
at zero f a = f a
at (suc i) f [] = f []
at (suc i) f (x ∷ a) = x ∷ at i f a

module _ (op : ℕ → ℕ → ℕ) where
  -- One block: `load_select` of both slices, the operation, and `store_select`. `k` lanes are left,
  -- from `lane` on; a lane past the end of a slice does not take part.
  unfoldable pub block : ℕ → ℕ → ℕ → ℕ → List ℕ → List ℕ → List ℕ
  block lanes remain lane zero a b = a
  block lanes remain lane (suc k) [] b = []
  block lanes remain lane (suc k) (x ∷ a) [] = x ∷ a
  block lanes remain lane (suc k) (x ∷ a) (y ∷ b) =
      (if mask lanes remain lane then op x y else x) ∷ block lanes remain (lane + 1) k a b

  -- `while i < len`, at most `fuel` rounds
  unfoldable pub blocks : ℕ → ℕ → ℕ → ℕ → List ℕ → List ℕ → List ℕ
  unfolding block at
  blocks lanes len zero i a b = a
  blocks lanes len (suc fuel) i a b =
      let rest =
        blocks lanes len fuel (i + lanes) (at i (λ s. block lanes (len - i) 0 lanes s (drop i b)) a)
          b in
      if ltb i len then rest else a

  -- `for i in 0..len`: the loop of the level that has no SIMD
  unfoldable pub scalars : List ℕ → List ℕ → List ℕ
  scalars [] b = []
  scalars (x ∷ a) [] = x ∷ a
  scalars (x ∷ a) (y ∷ b) = op x y ∷ scalars a b

-- the operations of two slices that are defined on all lanes; integers of `w` bits
pub data BatchOp : Type 0 where
  add sub mul bitand bitor bitxor : BatchOp

unfoldable pub lane_op : ℕ → BatchOp → ℕ → ℕ → ℕ
lane_op w add x y = (x + y) % 2 ^ w
lane_op w sub x y = (x + 2 ^ w - y) % 2 ^ w
lane_op w mul x y = x * y % 2 ^ w
lane_op w bitand x y = bit_and x y
lane_op w bitor x y = bit_or x y
lane_op w bitxor x y = bit_xor x y

-- the lanes of a vector of `bits` bits, for elements of `size` bytes
abbrev pub lanes_of : ℕ → ℕ → ℕ
lanes_of bits size = bits / 8 / size

-- `_batch_add` and its kin, for elements of `size` bytes; `len` rounds are enough for the loop.
unfoldable pub batch : BatchOp → ℕ → List ℕ → List ℕ → SimdLevel → List ℕ
unfolding blocks scalars lane_op
batch op size a b avx512 =
    let len = min (length a) (length b) in
    blocks (lane_op (size * 8) op) (lanes_of 512 size) len len 0 a b
batch op size a b avx2 =
    let len = min (length a) (length b) in
    blocks (lane_op (size * 8) op) (lanes_of 256 size) len len 0 a b
batch op size a b sse4 =
    let len = min (length a) (length b) in
    blocks (lane_op (size * 8) op) (lanes_of 128 size) len len 0 a b
batch op size a b none = scalars (lane_op (size * 8) op) a b
