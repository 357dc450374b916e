-- ===== src/Simd/Levels.antt =====
-- src/simd/mod.rs: the level changes how a batch is worked off, not what it gives.
use okots_os.Base.{
  Bool, true, ◌&&◌, ◌||◌, ltb, ◌==◌, checked, checked_all, ℕ, ◌*◌, ◌≤◌, ◌<◌, ◌≡◌, refl, min, List,
  length, arith,
}
use okots_os.Simd.{
  SimdLevel, none, sse4, avx2, avx512, BatchOp, lane_op, lanes_of, blocks, scalars, batch, at,
}
use okots_os.Simd.Blocks.{blocks-scalars}

pub whole :
    (op : ℕ → ℕ → ℕ) (lanes : ℕ) (a b : List ℕ)
    → 0 < lanes
    → blocks op lanes (min (length a) (length b)) (min (length a) (length b)) 0 a b ≡ scalars op a b
unfolding at
whole op lanes a b pos =
    blocks-scalars op lanes (min (length a) (length b)) (min (length a) (length b)) 0 a b pos
      (omega arith) (omega arith)

has_lanes : ℕ → Bool
has_lanes size =
    (size == 0)
    || ltb 0 (lanes_of 128 size) && ltb 0 (lanes_of 256 size) && ltb 0 (lanes_of 512 size)

lanes-table : checked has_lanes 9 ≡ true
unfolding checked has_lanes
lanes-table = refl

pub lanes_of-positive :
    (size : ℕ)
    → 1 ≤ size
    → size ≤ 8
    → (0 < lanes_of 128 size) × (0 < lanes_of 256 size) × (0 < lanes_of 512 size)
unfolding has_lanes
lanes_of-positive size p q = ground (arith, checked_all has_lanes 9 size (omega arith) lanes-table)

-- For elements of 1 to 8 bytes and slices of any two lengths, sums, differences, products and the
-- logical operations give the same slice at every level: the loop by blocks, with its mask for the
-- last block, ends within as many rounds as there are elements and gives what the loop one by one
-- gives.
pub batch-none :
    (op : BatchOp) (size : ℕ) (a b : List ℕ) (level : SimdLevel)
    → 1 ≤ size
    → size ≤ 8
    → batch op size a b level ≡ batch op size a b none
unfolding batch
batch-none op size a b avx512 p q =
    whole (lane_op (size * 8) op) (lanes_of 512 size) a b (lanes_of-positive size p q).2
batch-none op size a b avx2 p q =
    whole (lane_op (size * 8) op) (lanes_of 256 size) a b (lanes_of-positive size p q).1
batch-none op size a b sse4 p q =
    whole (lane_op (size * 8) op) (lanes_of 128 size) a b (lanes_of-positive size p q).0
batch-none op size a b none p q = refl
