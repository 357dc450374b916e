-- ===== src/PhysicalAllocator/Claim.antt =====
-- src/memory/physical_allocator.rs, `add_target_to_os_alloc`: which memory is claimed.
use okots_os.Base.{ℕ, ◌+◌, ◌<◌, ◌≤◌, ◌≡◌, ◌⊎◌, inl, inr, none, some, arith, Option-cases}
use okots_os.Range.{MemRangeData}
use okots_os.Range.Bounds.{Fits}
use okots_os.PhysicalAllocator.{allocator_add_offset, add_target_to_os_alloc}

-- For a range that fits: the part from `ALLOCATOR_ADD_OFFSET` on is claimed, up to the end of the
-- range, and nothing below; or nothing is claimed, where the range begins below that address and
-- has fewer than 1024 bytes from it on.
pub add_target_to_os_alloc-bounds :
    (range : MemRangeData)
    → Fits range
    → ((add_target_to_os_alloc range ≡ none)
        × (range.start < allocator_add_offset)
        × (range.start + range.len < allocator_add_offset + 1024))
      ⊎ ((ptr : ℕ) × (len : ℕ) × (add_target_to_os_alloc range ≡ some (ptr, len))
          × (allocator_add_offset ≤ ptr)
          × (range.start ≤ ptr)
          × ((ptr ≡ range.start) ⊎ (ptr ≡ allocator_add_offset))
          × (ptr + len ≡ range.start + range.len))
unfolding add_target_to_os_alloc
add_target_to_os_alloc-bounds range fits = elim (Option-cases (add_target_to_os_alloc range)) [
  | inl e ↦ inl (e, ground arith, ground arith)
  | inr (r, e) ↦ inr (r.0, r.1, e, ground arith, ground arith, ground arith, ground arith)
]
