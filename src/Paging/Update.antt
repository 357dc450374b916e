-- ===== src/Paging/Update.antt =====
-- src/memory/paging.rs, `update_paging` and `update_recursive`: the tables in use are changed to
-- those of another map. The tables that fall out are gathered, for the caller to give back.
pub mod Owned
pub mod Plain
pub mod Frame
pub mod Huge
pub mod Row
pub mod Loop
pub mod Call
pub mod Levels
pub mod Enough
pub mod Top
pub mod Identity
use okots_os.Base.{
  ℕ, zero, suc, ◌+◌, ◌*◌, ◌%◌, ◌^◌, Bool, true, false, not, ◌&&◌, ◌||◌, Option, none, some, List,
  [], ◌∷◌, ◌++◌, leb, ◌==◌, if◌then◌else◌, add_word, mul_word, bit_or, bit_and,
}
use okots_os.Errors.{Error, Result, ok, err}
use okots_os.Range.{MemRangeData}
use okots_os.Paging.Normalize.{Entry, zip, normalize_map_list}
use okots_os.Paging.Level.{PageLevel, pt, pd, pdpt, pml4, pml5, rank, down, entry_size}
use okots_os.Paging.Hardware.{Hardware}
use okots_os.Paging.Flags.{to_pdptf, to_pdf}
use okots_os.Paging.Table.{Memory, M, write_cell, dealloc}
use okots_os.Paging.Build.{
  sub_map, can_be_huge, relay_entry, page_entry, Below, create_pt, create_pd, create_pdpt,
  create_pml4,
}
use okots_os.Paging.Create.{TopPageTable, create_page_table}

abbrev pub flags_mask : ℕ
flags_mask = 0x8000000000000fff

abbrev pub addr_mask : ℕ
addr_mask = 0x000ffffffffff000

-- the tests on the word of an entry
abbrev pub raw_present : ℕ → Bool
raw_present entry = not (bit_and entry 1 == 0)

abbrev pub raw_huge : ℕ → Bool
raw_huge entry = not (bit_and entry (2 ^ 7) == 0)

abbrev pub raw_addr : ℕ → ℕ
raw_addr entry = bit_and entry addr_mask

-- what a call changes: the memory, the tables that have fallen out (`tmp_vec`, with their levels),
-- and `frlevel`
pub record Updating : Type 0 where
  pub memory : Memory
  pub tmp_vec : List (ℕ × PageLevel)
  pub frlevel : ℕ

abbrev pub U : Type 0 → Type 0
U A = Updating → Result A × Updating

abbrev pub pure : {A : Type 0} → A → U A
pure a s = (ok a, s)

abbrev pub and_then : {A B : Type 0} → Result A × Updating → (A → U B) → Result B × Updating
and_then (ok a, s) f = f a s
and_then (err e, s) f = (err e, s)

infixl 5 ◌>>=◌ ◌>>◌
abbrev pub ◌>>=◌ : {A B : Type 0} → U A → (A → U B) → U B
◌>>=◌ c f s = and_then (c s) f

abbrev pub ◌>>◌ : {B : Type 0} → U (Unit {0}) → U B → U B
c >> k = c >>= λ _. k

abbrev pub with_memory : {A : Type 0} → Updating → Result A × Memory → Result A × Updating
with_memory s (r, m) = (r, record s { memory = m })

-- a call that only changes the memory
abbrev pub in_memory : {A : Type 0} → M A → U A
in_memory c s = with_memory s (c s.memory)

abbrev pub store : ℕ → ℕ → ℕ → U (Unit {0})
store p i w s =
    (ok tt, record s { memory = record s.memory { cell = write_cell s.memory.cell p i w } })

-- `tmp_vec.push` of the table that an entry leads to, unless it is a huge page; `next` is the level
-- below, if there is one.
abbrev pub detach : Option PageLevel → ℕ → U (Unit {0})
detach none entry s = (ok tt, s)
detach (some next) entry s = (
  ok tt,
  if raw_huge entry then s else record s { tmp_vec = s.tmp_vec ++ (raw_addr entry, next) ∷ [] },
)

abbrev pub detach_present : Option PageLevel → ℕ → U (Unit {0})
detach_present next entry = if raw_present entry then detach next entry else pure tt

-- `update_recursive` of the level below, on its table, the slot's address and its ranges
abbrev pub Change : Type 0
Change = ℕ → ℕ → List Entry → U (Unit {0})

-- No range meets the slot.
unfoldable pub clear_slot : PageLevel → ℕ → ℕ → U (Unit {0})
clear_slot level table idx s =
    (if raw_present (s.memory.cell table idx)
        then detach (down level) (s.memory.cell table idx) >> store table idx 0
        else pure tt)
      s

-- The entries from `i` on, `n` of them, go on from the first with its flags.
unfoldable pub is_all_aligned : PageLevel → (ℕ → ℕ) → ℕ → ℕ → Bool
is_all_aligned level entries i zero = true
is_all_aligned level entries i (suc n) =
    let rest = is_all_aligned level entries (i + 1) n in
    bit_and (entries i) flags_mask == bit_and (entries 0) flags_mask
    && raw_addr (entries i) == add_word (raw_addr (entries 0)) (mul_word i (entry_size level))
    && rest

-- a table that could be one huge page
unfoldable pub is_fragment : PageLevel → PageLevel → (ℕ → ℕ) → Bool
unfolding is_all_aligned
is_fragment level allow_huge entries =
    leb (rank level) (rank allow_huge)
    && raw_present (entries 0)
    && (raw_huge (entries 0) || (rank level == 0))
    && is_all_aligned level entries 1 511

abbrev pub count_fragment : PageLevel → PageLevel → ℕ → U (Unit {0})
count_fragment level allow_huge table s = (
  ok tt,
  if is_fragment level allow_huge (s.memory.cell table)
      then record s { frlevel = s.frlevel + 1 }
      else s,
)

module _ (hw : Hardware) where
  unfoldable pub generate_huge_entry : PageLevel → ℕ → ℕ → ℕ
  generate_huge_entry pt vaddr flags = 0
  generate_huge_entry pd vaddr flags =
      hw.entry pd vaddr (bit_or (bit_or (to_pdf hw flags) (hw.bit_ps pd)) (hw.bit_p pd))
  generate_huge_entry pdpt vaddr flags =
      hw.entry pdpt vaddr (bit_or (bit_or (to_pdptf hw flags) (hw.bit_ps pdpt)) (hw.bit_p pdpt))
  generate_huge_entry pml4 vaddr flags = 0
  generate_huge_entry pml5 vaddr flags = 0

  -- A huge page is written unless it is there.
  unfoldable pub put_huge : PageLevel → ℕ → ℕ → ℕ → U (Unit {0})
  put_huge level table idx target_entry s =
      (if s.memory.cell table idx == target_entry
          then pure tt
          else detach_present (down level) (s.memory.cell table idx)
            >> store table idx target_entry)
        s

  -- The table that is there is changed, or a new one is made.
  unfoldable pub put_table : PageLevel → Change → Below → ℕ → ℕ → ℕ → List Entry → U (Unit {0})
  put_table level change create table idx range_vstart es s =
      (let current_entry = s.memory.cell table idx in
          if raw_present current_entry && not (raw_huge current_entry)
          then change (raw_addr current_entry) range_vstart es
            >> store table idx (relay_entry hw level (raw_addr current_entry))
          else (in_memory (create range_vstart es) >>= λ next_ptr.
              store table idx (relay_entry hw level next_ptr)))
        s

  unfoldable pub put_slot :
      PageLevel
      → PageLevel
      → Option (Change × Below)
      → ℕ
      → ℕ
      → ℕ
      → ℕ
      → Entry
      → List Entry
      → U (Unit {0})
  unfolding generate_huge_entry put_huge put_table
  put_slot level allow_huge below table idx range_vstart range_vend first more =
      if can_be_huge level allow_huge range_vstart range_vend (first ∷ more)
      then put_huge level table idx (generate_huge_entry level range_vstart first.1)
      else (elim below [
        | none ↦ store table idx (page_entry hw range_vstart first.1)
        | some calls ↦ put_table level calls.0 calls.1 table idx range_vstart (first ∷ more)
      ])

  unfoldable pub put_ranges :
      PageLevel → PageLevel → Option (Change × Below) → ℕ → ℕ → ℕ → ℕ → List Entry → U (Unit {0})
  unfolding clear_slot put_slot
  put_ranges level allow_huge below table idx range_vstart range_vend [] =
      clear_slot level table idx
  put_ranges level allow_huge below table idx range_vstart range_vend (first ∷ more) =
      put_slot level allow_huge below table idx range_vstart range_vend first more

  unfoldable pub put_index :
      PageLevel → PageLevel → Option (Change × Below) → ℕ → ℕ → List Entry → ℕ → U (Unit {0})
  unfolding put_ranges
  put_index level allow_huge below table vaddr_base map_list idx =
      let range_vstart = add_word vaddr_base (mul_word idx (entry_size level)) in
      let range_vend = add_word range_vstart (entry_size level) in
      put_ranges level allow_huge below table idx range_vstart range_vend
        (sub_map range_vstart range_vend map_list)

  -- `for idx in 0..512`, with `n` rounds left
  unfoldable pub put_from :
      PageLevel → PageLevel → Option (Change × Below) → ℕ → ℕ → List Entry → ℕ → ℕ → U (Unit {0})
  unfolding put_index
  put_from level allow_huge below table vaddr_base map_list idx zero = pure tt
  put_from level allow_huge below table vaddr_base map_list idx (suc n) =
      put_index level allow_huge below table vaddr_base map_list idx
      >> put_from level allow_huge below table vaddr_base map_list (idx + 1) n

  unfoldable pub update_with : PageLevel → PageLevel → Option (Change × Below) → Change
  unfolding put_from is_fragment
  update_with level allow_huge below table vaddr_base map_list =
      put_from level allow_huge below table vaddr_base map_list 0 512
      >> count_fragment level allow_huge table

  -- `update_recursive`, one clause for each level that `down` goes through.
  unfoldable pub update_pt : PageLevel → Change
  unfolding update_with
  update_pt allow_huge = update_with pt allow_huge none

  unfoldable pub update_pd : PageLevel → Change
  unfolding update_pt
  update_pd allow_huge =
      update_with pd allow_huge (some (update_pt allow_huge, create_pt hw allow_huge))

  unfoldable pub update_pdpt : PageLevel → Change
  unfolding update_pd
  update_pdpt allow_huge =
      update_with pdpt allow_huge (some (update_pd allow_huge, create_pd hw allow_huge))

  unfoldable pub update_pml4 : PageLevel → Change
  unfolding update_pdpt
  update_pml4 allow_huge =
      update_with pml4 allow_huge (some (update_pdpt allow_huge, create_pdpt hw allow_huge))

  unfoldable pub update_pml5 : PageLevel → Change
  unfolding update_pml4
  update_pml5 allow_huge =
      update_with pml5 allow_huge (some (update_pml4 allow_huge, create_pml4 hw allow_huge))

  unfoldable pub update_recursive : PageLevel → PageLevel → Change
  unfolding update_pml5
  update_recursive pt allow_huge = update_pt allow_huge
  update_recursive pd allow_huge = update_pd allow_huge
  update_recursive pdpt allow_huge = update_pdpt allow_huge
  update_recursive pml4 allow_huge = update_pml4 allow_huge
  update_recursive pml5 allow_huge = update_pml5 allow_huge
