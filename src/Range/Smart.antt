-- ===== src/Range/Smart.antt =====
-- src/util_types.rs, `SmartPtr`: an allocation that gives itself back when it is dropped. `limit`
-- is the number of values of the address type `DT`; addresses and sizes are `usize`. The allocator
-- is the caller's: a drop is the call of `dealloc` that it makes.
use okots_os.Base.{
  inl, inr, Bool-cases, leb, ℕ, ◌*◌, ◌/◌, ◌%◌, ◌^◌, ◌≤◌, ◌<◌, ◌≡◌, ◌≢◌, ◌⊎◌, ◌||◌, Option, none,
  some, arith, ltb, ◌==◌, if◌then◌else◌,
}
use native.Mathlib.Nat.{div-add-mod', div-le_self}
use okots_os.Range.{MemRangeData, new}

-- `core::alloc::Layout`
pub record Layout : Type 0 where
  pub size : ℕ
  pub align : ℕ

pub record SmartPtr : Type 0 where
  pub range : MemRangeData
  pub align : ℕ

infixl 5 ◌>>=◌
abbrev ◌>>=◌ : {A B : Type 0} → Option A → (A → Option B) → Option B
none >>= f = none
some a >>= f = f a

-- `from_usize` and `to_usize` of the address type
abbrev from_usize : ℕ → ℕ → Option ℕ
from_usize limit x = if ltb x limit then some x else none

abbrev to_usize : ℕ → Option ℕ
to_usize x = if ltb x (2 ^ 64) then some x else none

unfoldable pub new_ptr : ℕ → ℕ → Layout → Option SmartPtr
new_ptr limit ptr layout = if ptr == 0 || layout.size == 0 then none else do
  start ← from_usize limit ptr
  len ← from_usize limit layout.size
  some (record { range = new start len; align = layout.align })

abbrev pub get_addr : SmartPtr → ℕ
get_addr p = p.range.start

pub get_ptr : SmartPtr → Option ℕ
get_ptr p = to_usize p.range.start

-- Address and number of elements; a slice of a part of an element is refused.
slice_of : ℕ → SmartPtr → Option (ℕ × ℕ)
slice_of size p =
    if (p.range.len % size) == 0
    then (do
      start ← to_usize p.range.start
      count ← to_usize (p.range.len / size)
      some (start, count))
    else none

-- `type_size` is `size_of::<TY>()`. `get_mut_slice` makes the same tests.
pub get_slice : ℕ → ℕ → SmartPtr → Option (ℕ × ℕ)
unfolding slice_of
get_slice limit type_size p =
    if type_size == 0 then none else do size ← from_usize limit type_size; slice_of size p

-- The call of `dealloc`. The length of a pointer that `new_ptr` made is a `usize`.
pub drop : SmartPtr → Option (ℕ × Layout)
drop p = do
  size ← to_usize p.range.len
  ptr ← to_usize p.range.start
  some (ptr, record { size = size; align = p.align })

-- when `new_ptr` refuses
abbrev pub IsRefused : ℕ → ℕ → Layout → Type 0
IsRefused limit ptr layout = (ptr ≡ 0) ⊎ (layout.size ≡ 0) ⊎ (limit ≤ ptr) ⊎ (limit ≤ layout.size)

-- For an address and a layout of `usize`s: either `new_ptr` refuses, and then the pointer is null,
-- the layout empty or the address type cannot hold one of them; or it gives a pointer whose drop
-- gives back exactly the allocation, with its size and its alignment.
pub drop-new_ptr :
    (limit ptr : ℕ) (layout : Layout)
    → ptr < 2 ^ 64
    → layout.size < 2 ^ 64
    → ((new_ptr limit ptr layout ≡ none) × IsRefused limit ptr layout)
      ⊎ ((p : SmartPtr) × (new_ptr limit ptr layout ≡ some p) × (drop p ≡ some (ptr, layout)))
unfolding new_ptr drop
drop-new_ptr limit ptr layout hp hl =
    elim (Bool-cases ((ptr == 0) || (layout.size == 0) || leb limit ptr || leb limit layout.size)) [
      | inl e ↦ inl (ground arith, ground arith)
      | inr e ↦
          inr (
            record { range = new ptr layout.size; align = layout.align },
            ground arith,
            ground arith,
          )
    ]

-- For a pointer that `new_ptr` made and elements that fit the address type, `get_slice` gives
-- exactly the allocation, from its address on and filled by the elements, when their size divides
-- it, and nothing when it does not.
pub get_slice-new_ptr :
    (limit ptr type_size : ℕ) (layout : Layout) (p : SmartPtr)
    → ptr < 2 ^ 64
    → layout.size < 2 ^ 64
    → new_ptr limit ptr layout ≡ some p
    → 0 < type_size
    → type_size < limit
    → ((layout.size % type_size ≢ 0) × (get_slice limit type_size p ≡ none))
      ⊎ ((count : ℕ) × (get_slice limit type_size p ≡ some (ptr, count))
          × (count * type_size ≡ layout.size))
unfolding new_ptr get_slice
get_slice-new_ptr limit ptr type_size layout p hp hl e pos fits =
    elim (Bool-cases (layout.size % type_size == 0)) [
      | inl d ↦ inr (
        layout.size / type_size,
        ground (arith, div-le_self layout.size type_size),
        ground (arith, div-add-mod' layout.size type_size),
      )
      | inr d ↦ inl (ground arith, ground arith)
    ]
