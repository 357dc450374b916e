-- ===== src/SendAndGet.antt =====
-- src/send_and_get.rs, `Data`: a slice or a vector that is passed on by address. `align` is the
-- alignment of the element type; a vector is its address, length and capacity.
pub mod Once
use okots_os.Base.{
  ℕ, ◌+◌, ◌-◌, ◌/◌, ◌%◌, ◌^◌, Bool, true, false, not, ◌&&◌, ◌||◌, Option, none, some, ltb, ◌==◌,
  if◌then◌else◌, bit_or, List, [], ◌∷◌,
}
use mathlib.Core.Option.{map}

abbrev pub struct_ver : ℕ
struct_ver = 1

-- `DataTag`, a byte
abbrev pub borrow : ℕ → Bool
borrow tag = (tag % 2) == 1

abbrev pub is_static : ℕ → Bool
is_static tag = (tag / 2 % 2) == 1

abbrev pub is_mut : ℕ → Bool
is_mut tag = (tag / 4 % 2) == 1

abbrev pub empty : ℕ
empty = 0

abbrev pub as_static_borrow : ℕ → ℕ
as_static_borrow tag = bit_or (bit_or tag 2) 1

abbrev pub as_borrow : ℕ → ℕ
as_borrow tag = bit_or tag 1

abbrev pub as_mut : ℕ → ℕ
as_mut tag = bit_or tag 4

pub record Data : Type 0 where
  pub ver : ℕ
  pub ptr : ℕ
  pub len : ℕ
  pub cap : ℕ
  pub tag : ℕ

pub record Slice : Type 0 where
  pub ptr : ℕ
  pub len : ℕ

pub record Vec : Type 0 where
  pub ptr : ℕ
  pub len : ℕ
  pub cap : ℕ

abbrev of_slice : Slice → ℕ → Data
of_slice source tag = record {
  ver = struct_ver;
  ptr = source.ptr;
  len = source.len;
  cap = source.len;
  tag = tag;
}

abbrev pub new_static : Slice → Data
new_static source = of_slice source (as_static_borrow empty)

abbrev pub new_static_mut : Slice → Data
new_static_mut source = of_slice source (as_mut (as_static_borrow empty))

abbrev pub new_borrow : Slice → Data
new_borrow source = of_slice source 1

abbrev pub new_owned : Vec → Data
new_owned v = record { ver = struct_ver; ptr = v.ptr; len = v.len; cap = v.cap; tag = empty }

-- The methods give the data as they leave it.
module _ (align : ℕ) where
  unfoldable pub get_raw_ptr : Data → Option ℕ × Data
  get_raw_ptr d =
      if (d.ptr == 0) || ltb (2 ^ 63 - 1) d.len || not ((d.ptr % align) == 0)
      then (none, d)
      else (some d.ptr, record d { ptr = 0 })

  abbrev as_slice : ℕ → Option ℕ × Data → Option Slice × Data
  as_slice len (p, d) = (map (λ ptr. record { ptr = ptr; len = len }) p, d)

  unfoldable pub get_slice_static : Data → Option Slice × Data
  unfolding get_raw_ptr
  get_slice_static d = if not (is_static d.tag) then (none, d) else as_slice d.len (get_raw_ptr d)

  unfoldable pub get_slice_static_mut : Data → Option Slice × Data
  unfolding get_raw_ptr
  get_slice_static_mut d =
      if not (is_static d.tag) || not (is_mut d.tag)
      then (none, d)
      else as_slice d.len (get_raw_ptr d)

  unfoldable pub get_slice : Data → Option Slice × Data
  unfolding get_raw_ptr
  get_slice d = as_slice d.len (get_raw_ptr d)

  unfoldable pub get_mut_slice : Data → Option Slice × Data
  unfolding get_raw_ptr
  get_mut_slice d = if not (is_mut d.tag) then (none, d) else as_slice d.len (get_raw_ptr d)

  abbrev as_vec : ℕ → ℕ → Option ℕ × Data → Option Vec × Data
  as_vec len cap (p, d) = (map (λ ptr. record { ptr = ptr; len = len; cap = cap }) p, d)

  unfoldable pub take_vec : Data → Option Vec × Data
  unfolding get_raw_ptr
  take_vec d =
      if borrow d.tag || is_static d.tag then (none, d) else as_vec d.len d.cap (get_raw_ptr d)

-- The vector that is given back, if any.
unfoldable pub drop : Data → Option Vec
drop d =
    if not (borrow d.tag) && not (d.ptr == 0)
    then some (record { ptr = d.ptr; len = d.len; cap = d.cap })
    else none
