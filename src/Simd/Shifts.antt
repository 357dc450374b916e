-- ===== src/Simd/Shifts.antt =====
-- src/simd/mod.rs: complement, shifts and rotations of unsigned integers, in a build without checks for
-- overflow: a shift counts its distance modulo the width, and a subtraction wraps.
use okots_os.Base.{ℕ, ◌+◌, ◌*◌, ◌-◌, ◌/◌, ◌%◌, ◌^◌, List, map, length, replicate, bit_or}
use okots_os.Simd.{SimdLevel, none, sse4, avx2, avx512, blocks, lanes_of}

pub data UnaryOp : Type 0 where
  complement shl shr rotl rotr : UnaryOp

-- `<<` and `>>` of a lane of `w` bits
abbrev pub shifted_left : ℕ → ℕ → ℕ → ℕ
shifted_left w v n = v * 2 ^ (n % w) % 2 ^ w

abbrev pub shifted_right : ℕ → ℕ → ℕ → ℕ
shifted_right w v n = v / 2 ^ (n % w)

-- `$bits - $vn`
abbrev pub complement_of : ℕ → ℕ → ℕ
complement_of w vn = (w + 2 ^ w - vn) % 2 ^ w

-- what the vectors do with a lane, and with the lane of `splat(n as $inner)`
unfoldable pub vector_op : ℕ → UnaryOp → ℕ → ℕ → ℕ
vector_op w complement v vn = 2 ^ w - 1 - v
vector_op w shl v vn = shifted_left w v vn
vector_op w shr v vn = shifted_right w v vn
vector_op w rotl v vn = bit_or (shifted_left w v vn) (shifted_right w v (complement_of w vn))
vector_op w rotr v vn = bit_or (shifted_right w v vn) (shifted_left w v (complement_of w vn))

-- `!`, `<<=`, `>>=`, `rotate_left` and `rotate_right`
unfoldable pub scalar_op : ℕ → UnaryOp → ℕ → ℕ → ℕ
scalar_op w complement n v = 2 ^ w - 1 - v
scalar_op w shl n v = shifted_left w v n
scalar_op w shr n v = shifted_right w v n
scalar_op w rotl n v = v * 2 ^ (n % w) % 2 ^ w + v / 2 ^ (w - n % w)
scalar_op w rotr n v = v / 2 ^ (n % w) + v * 2 ^ (w - n % w) % 2 ^ w

-- the loop by blocks; the second operand is the same in all lanes
abbrev pub by_blocks : UnaryOp → ℕ → ℕ → List ℕ → ℕ → List ℕ
by_blocks op size lanes a n =
    let len = length a in
    blocks (vector_op (size * 8) op) lanes len len 0 a (replicate len (n % 2 ^ (size * 8)))

-- `_batch_not`, `_batch_shl`, `_batch_shr`, `_batch_rotl` and `_batch_rotr`, for elements of `size`
-- bytes; the complement has no use for `n`.
unfoldable pub unary_batch : UnaryOp → ℕ → List ℕ → ℕ → SimdLevel → List ℕ
unfolding blocks vector_op scalar_op
unary_batch op size a n avx512 = by_blocks op size (lanes_of 512 size) a n
unary_batch op size a n avx2 = by_blocks op size (lanes_of 256 size) a n
unary_batch op size a n sse4 = by_blocks op size (lanes_of 128 size) a n
unary_batch op size a n none = map (scalar_op (size * 8) op n) a
