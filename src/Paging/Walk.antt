-- ===== src/Paging/Walk.antt =====
-- src/memory/paging.rs, `get_addr`: the walk from the top table down to the page of an address.
-- `cr3` is the address of the top table, and `l5` the flag L5_PAGING of CR4.
use okots_os.Base.{ℕ, ◌+◌, ◌%◌, Bool, Option, none, some, if◌then◌else◌}
use okots_os.Errors.{Error, Result, ok, err, new, not_found}
use okots_os.Paging.Level.{PageLevel, pt, pd, pdpt, pml4, pml5, entry_size, get_index}
use okots_os.Paging.Hardware.{Hardware}
use okots_os.Paging.Table.{Memory}

-- table, address, memory
abbrev pub Walk : Type 0
Walk = ℕ → ℕ → Memory → Result ℕ

abbrev pub absent : Error
absent = new not_found (some "page table entry not present")

module _ (hw : Hardware) where
  -- the page that an entry names, and `addr.as_u64() & mask` within it
  abbrev pub page_of : PageLevel → ℕ → ℕ → Result ℕ
  page_of level entry vaddr = ok (hw.addr entry + vaddr % entry_size level)

  unfoldable pub walk_entry : PageLevel → Option Walk → ℕ → ℕ → Memory → Result ℕ
  walk_entry level below entry vaddr m =
      if hw.is_present entry
      then (elim below [
        | none ↦ page_of level entry vaddr
        | some walk ↦
            if hw.is_huge entry then page_of level entry vaddr else walk (hw.addr entry) vaddr m
      ])
      else err absent

  -- one round of the loop; `below` are the rounds that are left
  unfoldable pub walk_with : PageLevel → Option Walk → Walk
  unfolding walk_entry
  walk_with level below table vaddr m =
      walk_entry level below (m.cell table (get_index level vaddr)) vaddr m

  unfoldable pub walk_pt : Walk
  unfolding walk_with
  walk_pt = walk_with pt none

  unfoldable pub walk_pd : Walk
  unfolding walk_pt
  walk_pd = walk_with pd (some walk_pt)

  unfoldable pub walk_pdpt : Walk
  unfolding walk_pd
  walk_pdpt = walk_with pdpt (some walk_pd)

  unfoldable pub walk_pml4 : Walk
  unfolding walk_pdpt
  walk_pml4 = walk_with pml4 (some walk_pdpt)

  unfoldable pub walk_pml5 : Walk
  unfolding walk_pml4
  walk_pml5 = walk_with pml5 (some walk_pml4)

  unfoldable pub get_addr : Bool → ℕ → ℕ → Memory → Result ℕ
  unfolding walk_pml5
  get_addr l5 cr3 vaddr m = if l5 then walk_pml5 cr3 vaddr m else walk_pml4 cr3 vaddr m
