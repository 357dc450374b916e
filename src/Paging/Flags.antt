-- ===== src/Paging/Flags.antt =====
-- src/memory/paging.rs, `PageEntryFlags`: the kernel's own flags and how they become the bits of an
-- entry. The flag types of the `x86` crate are given by `Hardware`.
pub mod Bits
use okots_os.Base.{ℕ, ◌^◌, Bool, ◌==◌, if◌then◌else◌, bit_and, bit_or}
use okots_os.Paging.Level.{PageLevel, pt, pd, pdpt, pml4, pml5}
use okots_os.Paging.Hardware.{Hardware}

abbrev pub present : ℕ
present = 2 ^ 0

abbrev pub writable : ℕ
writable = 2 ^ 1

abbrev pub user_page : ℕ
user_page = 2 ^ 2

abbrev pub pwt : ℕ
pwt = 2 ^ 3

abbrev pub pcd : ℕ
pcd = 2 ^ 4

abbrev pub accessed : ℕ
accessed = 2 ^ 5

abbrev pub dirty : ℕ
dirty = 2 ^ 6

abbrev pub pat : ℕ
pat = 2 ^ 7

abbrev pub global : ℕ
global = 2 ^ 8

abbrev pub execute_disable : ℕ
execute_disable = 2 ^ 9

abbrev pub huge : ℕ
huge = 2 ^ 10

abbrev pub relay_flags : ℕ
relay_flags = bit_or (bit_or present writable) user_page

-- `contains` of a `bitflags` type
abbrev pub contains : ℕ → ℕ → Bool
contains flags flag = bit_and flags flag == flag

-- `bits |= flag`, if `flags` contains `when`
abbrev pub or_if : ℕ → ℕ → ℕ → ℕ → ℕ
or_if flags when flag bits = if contains flags when then bit_or bits flag else bits

unfoldable pub apply_to_raw : ℕ → ℕ → ℕ
apply_to_raw flags raw_bits = or_if flags execute_disable (2 ^ 63) (
    or_if flags accessed (2 ^ 5) (
      or_if flags pcd (2 ^ 4) (
        or_if flags pwt (2 ^ 3) (
          or_if flags user_page (2 ^ 2)
            (or_if flags writable (2 ^ 1) (or_if flags present (2 ^ 0) raw_bits))))))

module _ (hw : Hardware) where
  unfoldable pub to_pml5f : ℕ → ℕ
  unfolding apply_to_raw
  to_pml5f flags = hw.truncate pml5 (apply_to_raw flags 0)

  unfoldable pub to_pml4f : ℕ → ℕ
  unfolding apply_to_raw
  to_pml4f flags = hw.truncate pml4 (apply_to_raw flags 0)

  unfoldable pub to_pdptf : ℕ → ℕ
  unfolding apply_to_raw
  to_pdptf flags = hw.truncate pdpt (
      or_if flags huge (hw.bit_ps pdpt) (
        or_if flags global (hw.bit_g pdpt) (
          or_if flags dirty (hw.bit_d pdpt)
            (or_if flags pat (hw.bit_pat pdpt) (apply_to_raw flags 0)))))

  unfoldable pub to_pdf : ℕ → ℕ
  unfolding apply_to_raw
  to_pdf flags = hw.truncate pd (
      or_if flags huge (hw.bit_ps pd) (
        or_if flags global (hw.bit_g pd) (
          or_if flags dirty (hw.bit_d pd)
            (or_if flags pat (hw.bit_pat pd) (apply_to_raw flags 0)))))

  unfoldable pub to_ptf : ℕ → ℕ
  unfolding apply_to_raw
  to_ptf flags =
      hw.truncate pt
        (or_if flags global (hw.bit_g pt) (or_if flags dirty (hw.bit_d pt) (apply_to_raw flags 0)))
