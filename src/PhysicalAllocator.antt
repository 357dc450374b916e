-- ===== src/PhysicalAllocator.antt =====
-- src/memory/physical_allocator.rs: the global allocator, which goes over from the firmware's
-- allocator to the kernel's own. Both are parameters, with a state each.
pub mod Claim
pub mod Switch
use okots_os.Base.{
  ℕ, ◌+◌, ◌-◌, Bool, true, false, Option, none, some, List, [], ◌∷◌, ltb, ◌||◌, if◌then◌else◌,
  sub_word,
}
use okots_os.Range.{MemRangeData}
use okots_os.Range.Smart.{Layout}

-- `GlobalAlloc`: the answers are addresses.
pub record Allocator : Type 1 where
  pub State : Type 0
  pub alloc_in : Layout → State → ℕ × State
  pub alloc_zeroed_in : Layout → State → ℕ × State
  pub dealloc_in : ℕ → Layout → State → State
  pub realloc_in : ℕ → Layout → ℕ → State → ℕ × State

abbrev pub allocator_add_offset : ℕ
allocator_add_offset = 0x10000

-- What is claimed for the kernel's allocator: address and length.
unfoldable pub add_target_to_os_alloc : MemRangeData → Option (ℕ × ℕ)
add_target_to_os_alloc range =
    if ltb range.start allocator_add_offset
    then (if ltb range.len tmp || ltb (sub_word range.len tmp) 1024
        then none
        else some (allocator_add_offset, sub_word range.len tmp))
    else some (range.start, range.len)
  where
    tmp : ℕ
    tmp = sub_word allocator_add_offset range.start

module _ (uefi os : Allocator) where
  pub record OsPhysicalAllocator : Type 0 where
    pub uefi_alloc : uefi.State
    pub os_allocator : os.State
    pub use_os_alloc : Bool

  abbrev pub change_to_os_allocator : OsPhysicalAllocator → OsPhysicalAllocator
  change_to_os_allocator s = record s { use_os_alloc = true }

  unfoldable pub os_alloc : Layout → OsPhysicalAllocator → ℕ × OsPhysicalAllocator
  os_alloc layout s =
      if s.use_os_alloc
      then (let (p, a) = os.alloc_in layout s.os_allocator in (p, record s { os_allocator = a }))
      else (let (p, a) = uefi.alloc_in layout s.uefi_alloc in (p, record s { uefi_alloc = a }))

  unfoldable pub os_dealloc : ℕ → Layout → OsPhysicalAllocator → OsPhysicalAllocator
  os_dealloc ptr layout s =
      if s.use_os_alloc
      then record s { os_allocator = os.dealloc_in ptr layout s.os_allocator }
      else record s { uefi_alloc = uefi.dealloc_in ptr layout s.uefi_alloc }

  unfoldable pub os_alloc_zeroed : Layout → OsPhysicalAllocator → ℕ × OsPhysicalAllocator
  os_alloc_zeroed layout s =
      if s.use_os_alloc
      then (let (p, a) = os.alloc_zeroed_in layout s.os_allocator in
          (p, record s { os_allocator = a }))
      else (let (p, a) = uefi.alloc_zeroed_in layout s.uefi_alloc in
          (p, record s { uefi_alloc = a }))

  unfoldable pub os_realloc : ℕ → Layout → ℕ → OsPhysicalAllocator → ℕ × OsPhysicalAllocator
  os_realloc ptr layout new_size s =
      if s.use_os_alloc
      then (let (p, a) = os.realloc_in ptr layout new_size s.os_allocator in
          (p, record s { os_allocator = a }))
      else (let (p, a) = uefi.realloc_in ptr layout new_size s.uefi_alloc in
          (p, record s { uefi_alloc = a }))
