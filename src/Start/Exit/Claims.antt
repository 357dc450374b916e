-- ===== src/Start/Exit/Claims.antt =====
-- src/main.rs, `exit_uefi`: which memory the kernel's allocator gets.
use okots_os.Base.{
  ℕ, ◌+◌, ◌*◌, ◌≡◌, refl, ◌∙◌, Bool, false, ◌&&◌, ◌||◌, List, [], ◌∷◌, All, ltb, leb, arith,
  Bool-cases, inl, inr,
}
use okots_os.Firmware.{MemoryDescriptor, is_boot_services}
use okots_os.PhysicalAllocator.{add_target_to_os_alloc, allocator_add_offset}
use okots_os.PhysicalAllocator.Claim.{add_target_to_os_alloc-bounds}
use okots_os.Start.Exit.{range_of, claim_range, claim_all}
use okots_os.Start.Exit.Pages.{IsPlaced}

-- an address of one of the claims
abbrev pub claimed : List (ℕ × ℕ) → ℕ → Bool
claimed [] a = false
claimed ((ptr, len) ∷ cs) a = leb ptr a && ltb a (ptr + len) || claimed cs a

abbrev is_in : MemoryDescriptor → ℕ → Bool
is_in i a = leb i.phys_start a && ltb a (i.phys_start + i.page_count * 4096)

-- an address of the memory of the boot services
abbrev pub of_boot_services : List MemoryDescriptor → ℕ → Bool
of_boot_services [] a = false
of_boot_services (i ∷ map) a = is_boot_services i.ty && is_in i a || of_boot_services map a

claim_range-claimed :
    (i : MemoryDescriptor) (cs : List (ℕ × ℕ)) (a : ℕ)
    → IsPlaced i
    → claimed (claim_range (add_target_to_os_alloc (range_of i)) cs) a
      ≡ (is_in i a && leb allocator_add_offset a || claimed cs a)
claim_range-claimed i cs a h =
    elim (add_target_to_os_alloc-bounds (range_of i) (omega (arith, h.physical))) [
      | inl (e, low, short) ↦ rw e (ground (arith, h.positive, h.aligned, h.physical))
      | inr (ptr, len, e, above, from, start, end) ↦ rw e (ground (arith, h.physical))
    ]

-- The claims of placed descriptors are the memory of the boot services from `ALLOCATOR_ADD_OFFSET`
-- on, byte for byte.
pub claim_all-claimed :
    (map : List MemoryDescriptor) (a : ℕ)
    → All IsPlaced map
    → claimed (claim_all map) a ≡ (of_boot_services map a && leb allocator_add_offset a)
unfolding claim_all
claim_all-claimed [] a h = refl
claim_all-claimed (i ∷ map) a (p, h) = elim (Bool-cases (is_boot_services i.ty)) [
  | inl e ↦
      rw e (claim_range-claimed i (claim_all map) a p ∙ ground (arith, claim_all-claimed map a h))
  | inr e ↦ rw e (ground (arith, claim_all-claimed map a h))
]
