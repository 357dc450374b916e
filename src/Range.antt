-- ===== src/Range.antt =====
-- src/util_types.rs, `MemRangeData`: a range of memory given by its start and its length, at the
-- type `usize` (or `u64`) that the kernel uses it with.
pub mod Bounds
pub mod Smart
use okots_os.Base.{
  ℕ, Bool, true, false, Option, none, some, ◌&&◌, ltb, leb, if◌then◌else◌, add_word, sub_word,
}

pub record MemRangeData : Type 0 where
  pub start : ℕ
  pub len : ℕ

abbrev pub new : ℕ → ℕ → MemRangeData
new start len = record { start = start; len = len }

unfoldable pub new_start_end : ℕ → ℕ → Option MemRangeData
new_start_end start end = if ltb end start then none else some (new start (sub_word end start))

abbrev pub end_of : MemRangeData → ℕ
end_of r = add_word r.start r.len

abbrev pub set_start : MemRangeData → ℕ → MemRangeData
set_start r start = record r { start = start }

-- The Boolean is what the method returns.
unfoldable pub set_end : MemRangeData → ℕ → MemRangeData × Bool
set_end r end =
    if ltb end r.start then (r, false) else (record r { len = sub_word end r.start }, true)

abbrev pub set_len : MemRangeData → ℕ → MemRangeData
set_len r len = record r { len = len }

-- an address lies in a range
abbrev pub contains : MemRangeData → ℕ → Bool
contains r a = leb r.start a && ltb a (end_of r)
