-- ===== src/Tests/Kernel.antt =====
-- The kernel's tables at the end of the boot, and while they are in use.
use okots_os.Base.{
  ◌+◌, if◌then◌else◌, ◌==◌, ◌<◌, ℕ, ◌^◌, ◌≡◌, refl, ◌⊎◌, true, false, some, List, [], ◌∷◌, arith,
  inl, inr, Bool-cases,
}
use okots_os.Range.{MemRangeData, new}
use okots_os.Firmware.{MemoryDescriptor, loader_code, boot_services_data}
use okots_os.Paging.Normalize.{Entry, zip}
use okots_os.Paging.Normalize.Lookup.{flags_at}
use okots_os.Paging.Level.{pd, pml4}
use okots_os.Paging.Hardware.{plain, plain-IsX86}
use okots_os.Paging.Flags.{execute_disable, contains}
use okots_os.Paging.Table.{Memory}
use okots_os.Paging.Build.Slots.{IsMapped}
use okots_os.Paging.Build.Frame.{has, IsSupply}
use okots_os.Paging.Create.{TopPageTable, top_table, create_page_table}
use okots_os.Paging.Create.Identity.{top_level}
use okots_os.Paging.Dealloc.Balance.{IsBalanced, create_page_table-IsBalanced}
use okots_os.Paging.Update.Plain.{plain-IsRaw}
use okots_os.Paging.Update.Levels.{tree_pml4, tree_pdpt}
use okots_os.Paging.Update.Top.{update_paging}
use okots_os.Paging.Update.Identity.{IsInUse, IsUpdated, update_paging-IsUpdated}
use okots_os.Start.{Current}
use okots_os.Start.Tables.{kept}
use okots_os.Start.Exit.{last_of, exit_uefi}
use okots_os.Start.Exit
use okots_os.Start.Exit.Executable.{held_by_code, update_paging-IsGuarded}
use okots_os.Start.Exit.Mapped.{IsRunning, exit_uefi-IsRunning}
use okots_os.Start.Exit.Pages.{IsPages, IsPlaced}
use okots_os.Start.Update.{util_update_add_paging}
use okots_os.Start.Update.Added.{IsReady, IsTold, added, util_update_add_paging-IsTold}
use okots_os.Tests.Pages.{pages, pages_IsSupply, enough_pages, has-pages}

abbrev low : MemRangeData
low = new 0 0x200000

abbrev entry : Entry
entry = (low, 3)

pub mapped : IsMapped entry
mapped = record {
  paged = record {
    positive = omega arith;
    fits = omega arith;
    start_aligned = omega arith;
    len_aligned = omega arith;
  };
  physical = omega arith;
  flags = omega arith;
  no_pat = refl;
  no_huge = refl;
}

-- a top table, above the supply, whose first entry leads to a table without entries
abbrev top_address : ℕ
top_address = 2 ^ 40

abbrev child_address : ℕ
child_address = 2 ^ 41

abbrev cells : ℕ → ℕ → ℕ
cells p i = if (p == top_address) then (if i == 0 then child_address + 7 else 0) else 0

abbrev pub running : Memory
running = record { cell = cells; supply = pages 134480385; freed = [] }

abbrev pub in_order : List ℕ
in_order = top_address ∷ child_address ∷ []

abbrev own : ℕ → List ℕ
own i = if i == 0 then child_address ∷ [] else []

child_tree : tree_pdpt cells child_address (child_address ∷ [])
child_tree = record {
  own = λ i. [];
  head = refl;
  inside = λ i p h. absurd (ground arith);
  not_t = λ i. refl;
  apart = λ i j p ne h. refl;
  subtree = λ i present small. absurd (ground arith);
}

top_tree_now : tree_pml4 cells top_address in_order
top_tree_now = record {
  own = own;
  head = refl;
  inside = λ i p h. ground arith;
  not_t = λ i. ground arith;
  apart = λ i j p ne h. ground arith;
  subtree = λ i present small. elim (Bool-cases (i == 0)) [
    | inl e ↦ rw e child_tree
    | inr e ↦ absurd (ground (arith, present, e))
  ];
}

running-IsInUse : IsInUse false top_address in_order running
running-IsInUse = record {
  tree = top_tree_now;
  outside = λ p h. above_supply p h;
  pages = λ p h. ground arith;
}
  where
    above_supply : (p : ℕ) → has p in_order ≡ true → has p (pages 134480385) ≡ false
    above_supply p h = elim (Bool-cases (has p (pages 134480385))) [
      | inr e ↦ e
      | inl e ↦ absurd (ground (arith, has-pages 134480385 p e))
    ]

abbrev top : TopPageTable
top = top_table pml4 (low ∷ []) (3 ∷ []) top_address

abbrev supply : IsSupply (pages 134480385)
supply = pages_IsSupply 134480385 (omega arith)

update_paging-IsUpdated_example :
    IsUpdated plain false (entry ∷ []) top (update_paging plain top (low ∷ []) (3 ∷ []) pd running)
unfolding zip
update_paging-IsUpdated_example =
    update_paging-IsUpdated plain plain-IsX86 plain-IsRaw pd (omega arith) false top in_order
      (low ∷ []) (3 ∷ []) running refl (omega arith) (mapped, tt) running-IsInUse supply
      enough_pages

create_page_table-IsBalanced_example :
    IsBalanced plain running
      (create_page_table plain (low ∷ []) (3 ∷ []) pd (top_level false) running)
unfolding zip
create_page_table-IsBalanced_example =
    create_page_table-IsBalanced plain plain-IsX86 pd (omega arith) false (low ∷ []) (3 ∷ [])
      running refl (mapped, tt) supply enough_pages

abbrev pub current : Current
current = record { cr3 = top_address; page_table = top }

pub ready : IsReady plain true false current in_order running
ready = record {
  level = refl;
  calm = omega arith;
  current = refl;
  lengths = refl;
  in_use = running-IsInUse;
  supply = supply;
  enough = enough_pages;
}

abbrev device : MemRangeData
device = new 0xfee00000 0x1000

device-IsMapped : IsMapped (device, 3)
device-IsMapped = record {
  paged = record {
    positive = omega arith;
    fits = omega arith;
    start_aligned = omega arith;
    len_aligned = omega arith;
  };
  physical = omega arith;
  flags = omega arith;
  no_pat = refl;
  no_huge = refl;
}

util_update_add_paging-IsTold_example :
    IsTold plain false
      (added true current (device ∷ []) (3 ∷ []))
      current
      (util_update_add_paging plain true true false (device ∷ []) (3 ∷ []) current running)
unfolding zip
util_update_add_paging-IsTold_example =
    util_update_add_paging-IsTold plain plain-IsX86 plain-IsRaw true true false false current
      in_order (device ∷ []) (3 ∷ []) running ready refl (mapped, (device-IsMapped, tt))

-- the kernel's own code, and memory of the boot services
abbrev map : List MemoryDescriptor
map =
    record { ty = loader_code; phys_start = 0x100000; page_count = 16 }
    ∷ record { ty = boot_services_data; phys_start = 0; page_count = 32 }
    ∷ []

abbrev stack : MemRangeData
stack = new 0x80000 0x4000

stack-IsPages : IsPages stack
stack-IsPages = record {
  positive = omega arith;
  start_aligned = refl;
  len_aligned = refl;
  physical = omega arith;
}

first_IsPlaced : IsPlaced (record { ty = loader_code; phys_start = 0x100000; page_count = 16 })
first_IsPlaced = record { positive = omega arith; aligned = refl; physical = omega arith }

second_IsPlaced : IsPlaced (record { ty = boot_services_data; phys_start = 0; page_count = 32 })
second_IsPlaced = record { positive = omega arith; aligned = refl; physical = omega arith }

ends_above : 0 < last_of map
unfolding last_of
ends_above = omega arith

exit_uefi-IsRunning_example :
    IsRunning plain false map stack (exit_uefi plain true false false map stack current running)
exit_uefi-IsRunning_example =
    exit_uefi-IsRunning plain plain-IsX86 true false false map stack current running
      (first_IsPlaced, (second_IsPlaced, tt)) ends_above stack-IsPages supply enough_pages

-- the flags of an address in the kernel's code
code_flags :
    (let (t, r) = Exit.update_paging map stack in flags_at (kept true (zip t r)) 0x100010) ≡ some 3
unfolding Exit.update_paging zip flags_at Exit.push_all last_of
code_flags = refl

update_paging-IsGuarded_example :
    (contains 3 execute_disable ≡ true) ⊎ (held_by_code map 0x100010 ≡ true)
update_paging-IsGuarded_example = update_paging-IsGuarded map stack 0x100010 3 code_flags
