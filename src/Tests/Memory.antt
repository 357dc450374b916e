-- ===== src/Tests/Memory.antt =====
-- Concrete ranges, pointers, mappings and page tables.
use okots_os.Base.{
  ◌+◌, if◌then◌else◌, ◌==◌, ◌≤◌, ◌<◌, ℕ, ◌^◌, ◌≤◌, ◌<◌, ◌≡◌, refl, ◌⊎◌, false, none, some, List, [],
  ◌∷◌, All, arith,
}
use okots_os.Range.{MemRangeData, new}
use okots_os.Range.Smart.{Layout, SmartPtr, new_ptr}
use okots_os.Paging.Create.{top_table}
use okots_os.Start.{Current}
use okots_os.PhysicalAllocator.{
  Allocator, OsPhysicalAllocator, allocator_add_offset, add_target_to_os_alloc,
  change_to_os_allocator,
}
use okots_os.PhysicalAllocator.Claim.{add_target_to_os_alloc-bounds}
use okots_os.PhysicalAllocator.Switch.{
  Request, alloc, dealloc, serve_all, handle_all, handle_all-switch,
}
use okots_os.Interrupt.{Idt}
use okots_os.Interrupt.Held.{added, removed, run, run-held}
use okots_os.Paging.Normalize.{Entry, zip, normalize}
use okots_os.Paging.Normalize.Lookup.{flags_at}
use okots_os.Paging.Normalize.Order.{flags_at-normalize}
use okots_os.Paging.Normalize.Normal.{IsPaged, IsNormal, normalize-IsNormal}
use okots_os.Paging.Level.{pt, pd}
use okots_os.Paging.Hardware.{plain, plain-IsX86}
use okots_os.Paging.Table.{Memory}
use okots_os.Paging.Build.Slots.{IsMapped}
use okots_os.Paging.Create.{create_page_table}
use okots_os.Tests.Pages.{pages, pages_IsSupply, enough_pages}
use okots_os.Paging.Create.Identity.{top_level, IsIdentity, create_page_table-IsIdentity}

abbrev words : Layout
words = record { size = 32; align = 8 }

abbrev pointer : SmartPtr
pointer = record { range = new 0x1000 32; align = 8 }

pointer_new : new_ptr (2 ^ 64) 0x1000 words ≡ some pointer
unfolding new_ptr
pointer_new = refl

-- two ranges that overlap, the later one read-only
abbrev ranges : List MemRangeData
ranges = new 0 0x200000 ∷ new 0x1000 0x2000 ∷ []

abbrev flags : List ℕ
flags = 3 ∷ 1 ∷ []

abbrev entries : List Entry
entries = (new 0 0x200000, 3) ∷ (new 0x1000 0x2000, 1) ∷ []

flags_at-normalize_example : flags_at (normalize entries) 0x1800 ≡ flags_at entries 0x1800
flags_at-normalize_example = flags_at-normalize entries 0x1800 (omega arith, (omega arith, tt))

first_IsPaged : IsPaged (new 0 0x200000, 3)
first_IsPaged = record {
  positive = omega arith;
  fits = omega arith;
  start_aligned = omega arith;
  len_aligned = omega arith;
}

second_IsPaged : IsPaged (new 0x1000 0x2000, 1)
second_IsPaged = record {
  positive = omega arith;
  fits = omega arith;
  start_aligned = omega arith;
  len_aligned = omega arith;
}

normalize-IsNormal_example : IsNormal (normalize entries) × All IsPaged (normalize entries)
normalize-IsNormal_example = normalize-IsNormal entries (first_IsPaged, (second_IsPaged, tt))

abbrev fresh : Memory
fresh = record { cell = λ p i. 0; supply = pages 134480385; freed = [] }

first_IsMapped : IsMapped (new 0 0x200000, 3)
first_IsMapped = record {
  paged = first_IsPaged;
  physical = omega arith;
  flags = omega arith;
  no_pat = refl;
  no_huge = refl;
}

second_IsMapped : IsMapped (new 0x1000 0x2000, 1)
second_IsMapped = record {
  paged = second_IsPaged;
  physical = omega arith;
  flags = omega arith;
  no_pat = refl;
  no_huge = refl;
}

create_page_table-IsIdentity_example :
    IsIdentity plain false entries (create_page_table plain ranges flags pd (top_level false) fresh)
unfolding zip
create_page_table-IsIdentity_example =
    create_page_table-IsIdentity plain plain-IsX86 pd (omega arith) false ranges flags fresh refl
      (first_IsMapped, (second_IsMapped, tt)) (pages_IsSupply 134480385 (omega arith)) enough_pages

-- no table yet
abbrev unset : Current
unset = record { cr3 = 0; page_table = top_table pt [] [] 0 }

-- a processor without no-execute pages

abbrev high : MemRangeData
high = new 0x8000 0x9000

add_target_to_os_alloc-bounds_example :
    ((add_target_to_os_alloc high ≡ none)
      × (0x8000 < allocator_add_offset)
      × (0x8000 + 0x9000 < allocator_add_offset + 1024))
    ⊎ ((ptr : ℕ) × (len : ℕ) × (add_target_to_os_alloc high ≡ some (ptr, len))
        × (allocator_add_offset ≤ ptr)
        × (0x8000 ≤ ptr)
        × ((ptr ≡ 0x8000) ⊎ (ptr ≡ allocator_add_offset))
        × (ptr + len ≡ 0x8000 + 0x9000))
add_target_to_os_alloc-bounds_example = add_target_to_os_alloc-bounds high (omega arith)

-- an allocator that counts its requests
abbrev counting : Allocator
counting = record {
  State = ℕ;
  alloc_in = λ layout n. (n, n + 1);
  alloc_zeroed_in = λ layout n. (n, n + 1);
  dealloc_in = λ ptr layout n. n + 1;
  realloc_in = λ ptr layout new_size n. (n, n + 1);
}

abbrev requests : List Request
requests = alloc words ∷ dealloc 0 words ∷ []

abbrev booting : OsPhysicalAllocator counting counting
booting = record { uefi_alloc = 1; os_allocator = 100; use_os_alloc = false }

handle_all-switch_example :
    (let booted = handle_all counting counting requests booting in
      let running =
        handle_all counting counting requests (change_to_os_allocator counting counting booted.1) in
      (booted.0 ≡ (serve_all counting requests 1).0)
      × (running.0 ≡ (serve_all counting requests 100).0)
      × (running.1.uefi_alloc ≡ (serve_all counting requests 1).1))
handle_all-switch_example = handle_all-switch counting counting requests requests 1 100

abbrev table : Idt
table v = record { handler = if v == 65 then 0x1000 else 0; present = v == 65; code_selector = 1 }

run-held_example : run (added 65 0x2000 false ∷ removed 8 64 ∷ []) table 65 ≡ table 65
run-held_example =
    run-held (added 65 0x2000 false ∷ removed 8 64 ∷ []) table 65 (λ e. absurd (omega arith))
      (refl, (refl, tt))
