-- ===== src/Paging/Build.antt =====
-- src/memory/paging.rs, `create_page_table` and `create_recursive`: the tables of a map list.
-- `PHY_OFFSET` is 0, so physical and virtual addresses of tables are the same.
pub mod Frame
pub mod Translate
pub mod Step
pub mod Loop
pub mod Enough
pub mod Slots
pub mod Entries
use Prim.Native.String.{String}
use okots_os.Base.{
  ℕ, zero, suc, ◌+◌, ◌*◌, ◌%◌, ◌-◌, ◌^◌, Bool, true, false, not, ◌&&◌, ◌||◌, Option, none, some,
  List, [], ◌∷◌, length, ltb, leb, ◌==◌, if◌then◌else◌, add_word, mul_word, bit_or, bit_and,
}
use okots_os.Range.{MemRangeData, end_of}
use okots_os.Errors.{
  Error, Result, ok, err, new, invalid_data, try_raise, failed, own_failure, from_self,
}
use okots_os.Paging.Normalize.{Entry, zip, normalize_map_list}
use okots_os.Paging.Level.{PageLevel, pt, pd, pdpt, pml4, pml5, rank, down, entry_size}
use okots_os.Paging.Hardware.{Hardware}
use okots_os.Paging.Flags.{relay_flags, to_pml5f, to_pml4f, to_pdptf, to_pdf, to_ptf}
use okots_os.Paging.Table.{Memory, M, pure, raise, ◌>>=◌, ◌>>◌, store, alloc_zeroed, dealloc}

-- the ranges that meet a slot, with their flags
abbrev pub overlaps : ℕ → ℕ → Entry → Bool
overlaps range_vstart range_vend (m, f) = ltb m.start range_vend && ltb range_vstart (end_of m)

unfoldable pub sub_map : ℕ → ℕ → List Entry → List Entry
sub_map range_vstart range_vend [] = []
sub_map range_vstart range_vend (e ∷ es) =
    if overlaps range_vstart range_vend e
    then e ∷ sub_map range_vstart range_vend es
    else sub_map range_vstart range_vend es

-- One range alone covers the slot, and the level may hold a huge page.
unfoldable pub can_be_huge : PageLevel → PageLevel → ℕ → ℕ → List Entry → Bool
can_be_huge level allow_huge range_vstart range_vend [] = false
can_be_huge level allow_huge range_vstart range_vend ((m, f) ∷ []) =
    not (rank level == 0)
    && leb (rank level) (rank allow_huge)
    && leb m.start range_vstart
    && leb range_vend (end_of m)
can_be_huge level allow_huge range_vstart range_vend (e ∷ e' ∷ es) = false

-- `if (f_bits & (1 << 7)) != 0 { (f_bits & !(1 << 7)) | (1 << 12) }`
abbrev pub move_pat : ℕ → ℕ
move_pat f_bits =
    if bit_and f_bits (2 ^ 7) == 0
    then f_bits
    else bit_or (bit_and f_bits (2 ^ 64 - 1 - 2 ^ 7)) (2 ^ 12)

-- `create_recursive` of the level below, on the slot's address and ranges
abbrev pub Below : Type 0
Below = ℕ → List Entry → M ℕ

-- A failed sub-table gives this table back and wraps the error.
abbrev pub or_dealloc : ℕ → Result ℕ × Memory → Result ℕ × Memory
or_dealloc table (ok next_table, m) = (ok next_table, m)
or_dealloc table (err e, m) =
    (dealloc table >> raise (from_self e (some "failed to create recursive"))) m

module _ (hw : Hardware) where
  -- the flags of a huge page, at the two levels that have them
  unfoldable pub huge_flags : PageLevel → ℕ → ℕ
  huge_flags level f_orig =
      bit_or (bit_or (hw.truncate level (move_pat f_orig)) (hw.bit_ps level)) (hw.bit_p level)

  unfoldable pub huge_entry : PageLevel → ℕ → ℕ → ℕ
  unfolding huge_flags
  huge_entry pt addr flags = 0
  huge_entry pd addr flags = hw.entry pd addr (huge_flags pd (to_pdf hw flags))
  huge_entry pdpt addr flags = hw.entry pdpt addr (huge_flags pdpt (to_pdptf hw flags))
  huge_entry pml4 addr flags = 0
  huge_entry pml5 addr flags = 0

  unfoldable pub relay_entry : PageLevel → ℕ → ℕ
  relay_entry pt phys_addr = 0
  relay_entry pd phys_addr = hw.entry pd phys_addr (bit_or (to_pdf hw relay_flags) (hw.bit_p pd))
  relay_entry pdpt phys_addr =
      hw.entry pdpt phys_addr (bit_or (to_pdptf hw relay_flags) (hw.bit_p pdpt))
  relay_entry pml4 phys_addr =
      hw.entry pml4 phys_addr (bit_or (to_pml4f hw relay_flags) (hw.bit_p pml4))
  relay_entry pml5 phys_addr =
      hw.entry pml5 phys_addr (bit_or (to_pml5f hw relay_flags) (hw.bit_p pml5))

  unfoldable pub page_entry : ℕ → ℕ → ℕ
  page_entry addr flags = hw.entry pt addr (bit_or (to_ptf hw flags) (hw.bit_p pt))

  -- The body of the loop for one index whose ranges are not empty.
  unfoldable pub fill_slot :
      PageLevel → PageLevel → Option Below → ℕ → ℕ → ℕ → ℕ → Entry → List Entry → M (Unit {0})
  fill_slot level allow_huge below table idx range_vstart range_vend first more =
      if can_be_huge level allow_huge range_vstart range_vend (first ∷ more)
      then store table idx (huge_entry level range_vstart first.1)
      else (elim below [
        | none ↦ store table idx (page_entry range_vstart first.1)
        | some create ↦ do
          next_table ← λ m. or_dealloc table (create range_vstart (first ∷ more) m)
          store table idx (relay_entry level next_table)
      ])

  unfoldable pub fill_ranges :
      PageLevel → PageLevel → Option Below → ℕ → ℕ → ℕ → ℕ → List Entry → M (Unit {0})
  unfolding fill_slot
  fill_ranges level allow_huge below table idx range_vstart range_vend [] = pure tt
  fill_ranges level allow_huge below table idx range_vstart range_vend (first ∷ more) =
      fill_slot level allow_huge below table idx range_vstart range_vend first more

  unfoldable pub fill_index :
      PageLevel → PageLevel → Option Below → ℕ → ℕ → List Entry → ℕ → M (Unit {0})
  unfolding fill_ranges
  fill_index level allow_huge below table vaddr_base map_list idx =
      let range_vstart = add_word vaddr_base (mul_word idx (entry_size level)) in
      let range_vend = add_word range_vstart (entry_size level) in
      fill_ranges level allow_huge below table idx range_vstart range_vend
        (sub_map range_vstart range_vend map_list)

  -- `for idx in 0..512`, with `n` rounds left
  unfoldable pub fill_from :
      PageLevel → PageLevel → Option Below → ℕ → ℕ → List Entry → ℕ → ℕ → M (Unit {0})
  unfolding fill_index
  fill_from level allow_huge below table vaddr_base map_list idx zero = pure tt
  fill_from level allow_huge below table vaddr_base map_list idx (suc n) =
      fill_index level allow_huge below table vaddr_base map_list idx
      >> fill_from level allow_huge below table vaddr_base map_list (idx + 1) n

  -- One table and what hangs below it.
  unfoldable pub create_with : PageLevel → PageLevel → Option Below → ℕ → List Entry → M ℕ
  unfolding fill_from
  create_with level allow_huge below vaddr_base map_list = do
    table ← alloc_zeroed
    fill_from level allow_huge below table vaddr_base map_list 0 512
    pure table

  -- `create_recursive`, one clause for each level that `down` goes through.
  unfoldable pub create_pt : PageLevel → Below
  unfolding create_with
  create_pt allow_huge = create_with pt allow_huge none

  unfoldable pub create_pd : PageLevel → Below
  unfolding create_pt
  create_pd allow_huge = create_with pd allow_huge (some (create_pt allow_huge))

  unfoldable pub create_pdpt : PageLevel → Below
  unfolding create_pd
  create_pdpt allow_huge = create_with pdpt allow_huge (some (create_pd allow_huge))

  unfoldable pub create_pml4 : PageLevel → Below
  unfolding create_pdpt
  create_pml4 allow_huge = create_with pml4 allow_huge (some (create_pdpt allow_huge))

  unfoldable pub create_pml5 : PageLevel → Below
  unfolding create_pml4
  create_pml5 allow_huge = create_with pml5 allow_huge (some (create_pml4 allow_huge))

  unfoldable pub create_recursive : PageLevel → PageLevel → Below
  unfolding create_pml5
  create_recursive pt allow_huge = create_pt allow_huge
  create_recursive pd allow_huge = create_pd allow_huge
  create_recursive pdpt allow_huge = create_pdpt allow_huge
  create_recursive pml4 allow_huge = create_pml4 allow_huge
  create_recursive pml5 allow_huge = create_pml5 allow_huge
