-- ===== src/Start.antt =====
-- src/main.rs, `create_paging` and `clone_paging`: the page tables of the kernel. What the
-- processor can do is a parameter: `nx` no-execute pages, `pdpt_huge` huge pages of level `Pdpt`,
-- `five` tables of five levels in use.
pub mod Exit
pub mod Grow
pub mod Tables
pub mod Update
use Prim.Native.String.{String}
use okots_os.Base.{
  ℕ, Bool, true, false, Option, none, some, List, [], ◌∷◌, ◌==◌, if◌then◌else◌, bit_and,
}
use okots_os.Range.{MemRangeData}
use okots_os.Errors.{Error, Result, ok, err}
use okots_os.Paging.Level.{PageLevel, pd, pdpt, pml4, pml5}
use okots_os.Paging.Hardware.{Hardware}
use okots_os.Paging.Table.{Memory, M}
use okots_os.Paging.Create.{TopPageTable, create_page_table}

-- `!PageEntryFlags::EXECUTE_DISABLE`, within the flags that there are
abbrev pub nx_mask : ℕ
nx_mask = 0x5ff

abbrev pub masked : Bool → ℕ → ℕ
masked nx f = if nx then f else bit_and f nx_mask

-- the two vectors with one more pair, or one more flag
abbrev pub kept_pair :
    MemRangeData → ℕ → Option (List MemRangeData × List ℕ) → Option (List MemRangeData × List ℕ)
kept_pair m f none = none
kept_pair m f (some (ms, fs)) = some (m ∷ ms, f ∷ fs)

abbrev pub kept_flag : ℕ → Option (List MemRangeData × List ℕ) → Option (List MemRangeData × List ℕ)
kept_flag f none = none
kept_flag f (some (ms, fs)) = some (ms, f ∷ fs)

-- `flags.retain_mut`, with `map_list.remove(i)` for a flag set that is empty; `none` is a panic of
-- `remove`.
unfoldable pub retain : Bool → List MemRangeData → List ℕ → Option (List MemRangeData × List ℕ)
retain nx map_list [] = some (map_list, [])
retain nx [] (f ∷ fs) =
    let rest = retain nx [] fs in if masked nx f == 0 then none else kept_flag (masked nx f) rest
retain nx (m ∷ ms) (f ∷ fs) =
    let rest = retain nx ms fs in if masked nx f == 0 then rest else kept_pair m (masked nx f) rest

-- the current table, in CR3 and in the processor's data
pub record Current : Type 0 where
  pub cr3 : ℕ
  pub page_table : TopPageTable

abbrev pub allow_huge_at : Bool → PageLevel
allow_huge_at pdpt_huge = if pdpt_huge then pdpt else pd

abbrev pub target : Bool → PageLevel
target five = if five then pml5 else pml4

module _ (hw : Hardware) (nx pdpt_huge five : Bool) where
  -- the tables of two vectors; `none` is a panic
  unfoldable pub create_of :
      Option (List MemRangeData × List ℕ) → Memory → Option (Result TopPageTable × Memory)
  unfolding create_page_table
  create_of none m = none
  create_of (some (map_list, flags)) m =
      some (create_page_table hw map_list flags (allow_huge_at pdpt_huge) (target five) m)

  abbrev pub make_current :
      Result TopPageTable × Memory → Current → Result (Unit {0}) × Current × Memory
  make_current (err e, m) c = (err e, c, m)
  make_current (ok res, m) c = (ok tt, record { cr3 = res.phys; page_table = res }, m)

  abbrev pub make_current? :
      Option (Result TopPageTable × Memory)
      → Current
      → Option (Result (Unit {0}) × Current × Memory)
  make_current? none c = none
  make_current? (some r) c = some (make_current r c)

  unfoldable pub create_paging :
      List MemRangeData → List ℕ → Current → Memory → Option (Result (Unit {0}) × Current × Memory)
  unfolding retain create_of
  create_paging map_list flags c m = make_current? (create_of (retain nx map_list flags) m) c

  unfoldable pub clone_paging : Current → Memory → Option (Result TopPageTable × Memory)
  unfolding retain create_of
  clone_paging c m =
      create_of (retain nx c.page_table.memory_mapping.0 c.page_table.memory_mapping.1) m
