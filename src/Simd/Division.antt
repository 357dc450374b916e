-- ===== src/Simd/Division.antt =====
-- src/simd/mod.rs: division and remainder of unsigned integers. A vector's division panics if one of
-- the lanes of the divisor is 0, also if it is a lane that takes no part; a panic is no result.
use okots_os.Base.{
  ℕ, zero, suc, ◌+◌, ◌*◌, ◌-◌, ◌/◌, ◌%◌, min, Bool, true, false, not, ◌&&◌, Option, List, [], ◌∷◌,
  length, ltb, ◌==◌, if◌then◌else◌, drop,
}
use okots_os.Base as Base
use okots_os.Simd.{SimdLevel, none, sse4, avx2, avx512, mask, at, block, scalars, lanes_of}

pub data DivOp : Type 0 where
  div rem : DivOp

abbrev pub quotient : DivOp → ℕ → ℕ → ℕ
quotient div x y = x / y
quotient rem x y = x % y

-- Whether `k` lanes of the divisor, from `lane` on, are all other than 0: a lane that is not loaded
-- holds the 0 of `splat(0)`.
unfoldable pub are_divisors : ℕ → ℕ → ℕ → ℕ → List ℕ → Bool
are_divisors lanes remain lane zero b = true
are_divisors lanes remain lane (suc k) [] = false
are_divisors lanes remain lane (suc k) (y ∷ b) =
    mask lanes remain lane && not (y == 0) && are_divisors lanes remain (lane + 1) k b

module _ (op : DivOp) where
  -- `while i < len`, at most `fuel` rounds
  unfoldable pub div_blocks : ℕ → ℕ → ℕ → ℕ → List ℕ → List ℕ → Option (List ℕ)
  unfolding are_divisors block at
  div_blocks lanes len zero i a b = Base.some a
  div_blocks lanes len (suc fuel) i a b =
      let rest =
        div_blocks lanes len fuel (i + lanes)
          (at i (λ s. block (quotient op) lanes (len - i) 0 lanes s (drop i b)) a) b in
      if ltb i len
      then if are_divisors lanes (len - i) 0 lanes (drop i b) then rest else Base.none
      else Base.some a

  -- `if b[i] != 0`
  abbrev pub unless_zero : ℕ → ℕ → ℕ
  unless_zero x y = if not (y == 0) then quotient op x y else x

  -- `_batch_div` and `_batch_rem`, for elements of `size` bytes
  unfoldable pub div_batch : ℕ → List ℕ → List ℕ → SimdLevel → Option (List ℕ)
  unfolding div_blocks scalars
  div_batch size a b avx512 =
      let len = min (length a) (length b) in div_blocks (lanes_of 512 size) len len 0 a b
  div_batch size a b avx2 =
      let len = min (length a) (length b) in div_blocks (lanes_of 256 size) len len 0 a b
  div_batch size a b sse4 =
      let len = min (length a) (length b) in div_blocks (lanes_of 128 size) len len 0 a b
  div_batch size a b none = Base.some (scalars unless_zero a b)
