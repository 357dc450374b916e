-- ===== src/Start/Exit/Mapped.antt =====
-- src/main.rs, `exit_uefi`: what the kernel's tables translate once the firmware is gone.
use okots_os.Base.{
  leb, ◌&&◌, ℕ, ◌+◌, ◌*◌, ◌≤◌, ◌<◌, ◌≡◌, refl, sym, ap, subst, ◌∙◌, inl, inr, Bool-cases, Bool,
  false, ◌||◌, Option, some, List, [], ◌∷◌, All, All-append, length, if◌then◌else◌, arith, ltb,
}
use okots_os.Range.{MemRangeData, new, contains}
use okots_os.Errors.{Result, ok, err}
use okots_os.Firmware.{MemoryDescriptor}
use okots_os.Paging.Normalize.{zip}
use okots_os.Paging.Hardware.{Hardware, IsX86}
use okots_os.Paging.Table.{Memory}
use okots_os.Paging.Walk.{get_addr, absent}
use okots_os.Paging.Build.Slots.{IsMapped, covered}
use okots_os.Paging.Build.Frame.{IsSupply, answer}
use okots_os.Paging.Build.Enough.{tables_below}
use okots_os.Paging.Create.Identity.{top_level, top_span}
use okots_os.Start.{masked, Current}
use okots_os.Start.Tables.{kept, create_paging-IsCurrent}
use okots_os.Start.Exit.{range_of, last_of, data_flags, update_paging, exit_uefi, claim_all}
use okots_os.PhysicalAllocator.{allocator_add_offset}
use okots_os.Start.Exit.Claims.{claimed, of_boot_services, claim_all-claimed}
use okots_os.Start.Exit.Plan.{entry_pairs, pairs, update_paging-Pairs}
use okots_os.Start.Exit.Pages.{
  IsPages, IsPlaced, range_of-IsPages, flagged, kept-append, covered-append, AllEnd, last_of-AllEnd,
  kept_entry, whole, data_IsPlain, kept-plan,
}

module _ (nx : Bool) where
  entry_pairs-IsMapped :
      (i : MemoryDescriptor) → IsPlaced i → All IsMapped (kept nx (entry_pairs i))
  entry_pairs-IsMapped i h = elim (kept_entry nx i) [
    | inl e ↦ rw e tt
    | inr (f, e, (small, no_pat, no_huge)) ↦
        rw e (flagged (range_of i) f (range_of-IsPages i h) small no_pat no_huge, tt)
  ]

  entry_beyond :
      (last a : ℕ) (i : MemoryDescriptor)
      → IsPlaced i
      → i.phys_start + i.page_count * 4096 ≤ last
      → last ≤ a
      → covered (kept nx (entry_pairs i)) a ≡ false
  unfolding covered
  entry_beyond last a i p h le = elim (kept_entry nx i) [
    | inl e ↦ rw e refl
    | inr (f, e, plain) ↦ rw e (ground arith)
  ]

  pairs-IsMapped :
      (map : List MemoryDescriptor) → All IsPlaced map → All IsMapped (kept nx (pairs map))
  unfolding pairs
  pairs-IsMapped [] h = tt
  pairs-IsMapped (i ∷ map) (p, h) = rw (kept-append nx (entry_pairs i) (pairs map)) (
      All-append IsMapped (kept nx (entry_pairs i)) (kept nx (pairs map)) (entry_pairs-IsMapped i p)
        (pairs-IsMapped map h))

  -- Nothing of the descriptors lies beyond the last end.
  pairs_beyond :
      (last a : ℕ) (map : List MemoryDescriptor)
      → All IsPlaced map
      → AllEnd last map
      → last ≤ a
      → covered (kept nx (pairs map)) a ≡ false
  unfolding pairs covered
  pairs_beyond last a [] p h le = refl
  pairs_beyond last a (i ∷ map) p h le =
      rw
        (
          kept-append nx (entry_pairs i) (pairs map),
          covered-append (kept nx (entry_pairs i)) (kept nx (pairs map)) a,
          pairs_beyond last a map p.1 h.1 le,
          entry_beyond last a i p.0 h.0 le,
        )
        refl

  whole-IsMapped :
      (map : List MemoryDescriptor) (stack : MemRangeData)
      → All IsPlaced map
      → 0 < last_of map
      → IsPages stack
      → All IsMapped (whole nx map stack)
  whole-IsMapped map stack p pos h =
      let (small, no_pat, no_huge) = data_IsPlain nx in
      let (below, aligned, bound) = last_of-AllEnd map p in
      let all_pages : IsPages (new 0 (last_of map)) = record {
        positive = pos;
        start_aligned = refl;
        len_aligned = aligned;
        physical = omega arith;
      } in
      (
        flagged (new 0 (last_of map)) (masked nx data_flags) all_pages small no_pat no_huge,
        All-append IsMapped (kept nx (pairs map)) ((stack, masked nx data_flags) ∷ [])
            (pairs-IsMapped map p)
            (flagged stack (masked nx data_flags) h small no_pat no_huge, tt),
      )

  covered-whole :
      (map : List MemoryDescriptor) (stack : MemRangeData) (a : ℕ)
      → All IsPlaced map
      → covered (whole nx map stack) a ≡ (ltb a (last_of map) || contains stack a)
  unfolding covered
  covered-whole map stack a p =
      let (below, aligned, bound) = last_of-AllEnd map p in
      elim (Bool-cases (ltb a (last_of map))) [
        | inl e ↦ ground arith
        | inr e ↦
            rw
              (
                covered-append (kept nx (pairs map)) ((stack, masked nx data_flags) ∷ []) a,
                pairs_beyond (last_of map) a map p below (ground arith),
                e,
              )
              (ground arith)
      ]

-- `exit_uefi` succeeds. In its tables the memory up to the last end and the range `stack` translate to
-- themselves, the null page too, and nothing else is mapped; what is claimed is the memory of the
-- boot services from `ALLOCATOR_ADD_OFFSET` on.
abbrev pub IsRunning :
    Hardware
    → Bool
    → List MemoryDescriptor
    → MemRangeData
    → Option (Result (List (ℕ × ℕ)) × Current × Memory)
    → Type 0
IsRunning hw five map stack r =
    (claims : List (ℕ × ℕ)) × (c : Current) × (m : Memory) × (r ≡ some (ok claims, c, m))
    × ((a : ℕ) → claimed claims a ≡ (of_boot_services map a && leb allocator_add_offset a))
    × ((a : ℕ)
        → a < top_span five
        → get_addr hw five c.cr3 a m
          ≡ (if ltb a (last_of map) || contains stack a then ok a else err absent))

-- For a map of the firmware's with at least one page, every descriptor and the range `stack` a
-- non-empty run of whole pages below 2 ^ 52, and an allocator that gives out as many distinct pages
-- as a complete tree of tables below the top table has: `exit_uefi` succeeds with any features of the
-- processor. In the tables that it leaves, `get_addr` gives back every address below the last end of
-- the map, those of the null page among them, and every address of `stack`, and `NotFound` for the
-- others. An address is claimed for the allocator exactly when it is one of the memory of the boot
-- services and not below `ALLOCATOR_ADD_OFFSET`.
pub exit_uefi-IsRunning :
    (hw : Hardware)
    → IsX86 hw
    → (nx pdpt_huge five : Bool) (map : List MemoryDescriptor) (stack : MemRangeData) (c : Current)
      (m : Memory)
    → All IsPlaced map
    → 0 < last_of map
    → IsPages stack
    → IsSupply m.supply
    → tables_below (top_level five) ≤ length m.supply
    → IsRunning hw five map stack (exit_uefi hw nx pdpt_huge five map stack c m)
unfolding exit_uefi
exit_uefi-IsRunning hw x nx pdpt_huge five map stack c m p pos h supply enough =
    let (t, r) = update_paging map stack in
    let (len, z) = update_paging-Pairs map stack in
    let left : kept nx (zip t r) ≡ whole nx map stack = ap (kept nx) z ∙ kept-plan nx map stack in
    let (c', m', e, current, walk) =
      create_paging-IsCurrent hw x nx pdpt_huge five t r c m len
        (subst (All IsMapped) (sym left) (whole-IsMapped nx map stack p pos h)) supply enough in
    (
      claim_all map,
      c',
      m',
      rw e refl,
      λ a. claim_all-claimed map a p,
      λ a below.
          walk a below
          ∙ ap (λ es. answer es a) left
          ∙ ap (λ (b : Bool). if b then ok a else err absent) (covered-whole nx map stack a p),
    )
