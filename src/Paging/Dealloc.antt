-- ===== src/Paging/Dealloc.antt =====
-- src/memory/paging.rs, `dealloc_all` and `dealloc_recursive`: the tables below a table are given
-- back, and then the table itself.
pub mod Taken
pub mod Rows
pub mod Slots
pub mod Returned
pub mod Balance
use okots_os.Base.{
  ℕ, zero, suc, ◌+◌, Bool, true, false, not, ◌&&◌, Option, none, some, List, [], ◌∷◌, ◌++◌,
  if◌then◌else◌,
}
use okots_os.Paging.Level.{PageLevel, pt, pd, pdpt, pml4, pml5}
use okots_os.Paging.Hardware.{Hardware}
use okots_os.Paging.Create.{TopPageTable}

-- The tables that a call gives back, in order; it changes nothing else. `below` is the call for
-- the level below.
abbrev pub Dealloc : Type 0
Dealloc = (ℕ → ℕ → ℕ) → ℕ → List ℕ

module _ (hw : Hardware) where
  -- `PRESENT` and not `HUGE_PAGE`
  abbrev pub is_table : ℕ → Bool
  is_table entry = hw.is_present entry && not (hw.is_huge entry)

  -- the entries from `i` on, `n` of them
  unfoldable pub dealloc_entries : Dealloc → (ℕ → ℕ → ℕ) → ℕ → ℕ → ℕ → List ℕ
  dealloc_entries below cell target i zero = []
  dealloc_entries below cell target i (suc n) =
      let rest = dealloc_entries below cell target (i + 1) n in
      if is_table (cell target i) then below cell (hw.addr (cell target i)) ++ rest else rest

  unfoldable pub dealloc_with : Option Dealloc → Dealloc
  unfolding dealloc_entries
  dealloc_with none cell target = target ∷ []
  dealloc_with (some below) cell target = dealloc_entries below cell target 0 512 ++ target ∷ []

  unfoldable pub dealloc_pt : Dealloc
  unfolding dealloc_with
  dealloc_pt = dealloc_with none

  unfoldable pub dealloc_pd : Dealloc
  unfolding dealloc_pt
  dealloc_pd = dealloc_with (some dealloc_pt)

  unfoldable pub dealloc_pdpt : Dealloc
  unfolding dealloc_pd
  dealloc_pdpt = dealloc_with (some dealloc_pd)

  unfoldable pub dealloc_pml4 : Dealloc
  unfolding dealloc_pdpt
  dealloc_pml4 = dealloc_with (some dealloc_pdpt)

  unfoldable pub dealloc_pml5 : Dealloc
  unfolding dealloc_pml4
  dealloc_pml5 = dealloc_with (some dealloc_pml4)

  unfoldable pub dealloc_recursive : PageLevel → Dealloc
  unfolding dealloc_pml5
  dealloc_recursive pt = dealloc_pt
  dealloc_recursive pd = dealloc_pd
  dealloc_recursive pdpt = dealloc_pdpt
  dealloc_recursive pml4 = dealloc_pml4
  dealloc_recursive pml5 = dealloc_pml5

  unfoldable pub dealloc_all : TopPageTable → (ℕ → ℕ → ℕ) → List ℕ
  unfolding dealloc_recursive
  dealloc_all map cell = dealloc_recursive map.level cell map.virt

  -- `free_not_used_paging`, on what `update_paging` returns
  unfoldable pub free_not_used_paging : List (ℕ × PageLevel) → (ℕ → ℕ → ℕ) → List ℕ
  unfolding dealloc_recursive
  free_not_used_paging [] cell = []
  free_not_used_paging ((table, level) ∷ rest) cell =
      dealloc_recursive level cell table ++ free_not_used_paging rest cell
