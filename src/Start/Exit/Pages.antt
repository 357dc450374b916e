-- ===== src/Start/Exit/Pages.antt =====
-- src/main.rs: the pages of the firmware's map, and the pairs that `exit_uefi` makes of them.
use okots_os.Base.{
  ℕ, ◌+◌, ◌*◌, ◌/◌, ◌%◌, ◌^◌, ◌≤◌, ◌<◌, ◌≡◌, refl, ◌⊎◌, inl, inr, Bool-cases, Bool, true, false,
  ◌||◌, List, [], ◌∷◌, ◌++◌, All, ◌==◌, arith, append_assoc,
}
use okots_os.Range.{MemRangeData, new}
use okots_os.Firmware.{MemoryDescriptor, is_code, is_mmio}
use okots_os.Paging.Normalize.{Entry}
use okots_os.Paging.Build.Slots.{IsMapped, covered}
use okots_os.Start.{masked}
use okots_os.Start.Tables.{kept}
use okots_os.Start.Exit.{range_of, last_of, data_flags, code_flags, device_flags}
use okots_os.Start.Exit.Plan.{entry_pairs, pairs, plan}

-- a non-empty run of pages of physical memory
pub record IsPages (m : MemRangeData) : Type 0 where
  pub positive : 0 < m.len
  pub start_aligned : m.start % 4096 ≡ 0
  pub len_aligned : m.len % 4096 ≡ 0
  pub physical : m.start + m.len ≤ 2 ^ 52

pub record IsPlaced (i : MemoryDescriptor) : Type 0 where
  pub positive : 0 < i.page_count
  pub aligned : i.phys_start % 4096 ≡ 0
  pub physical : i.phys_start + i.page_count * 4096 ≤ 2 ^ 52

pub range_of-IsPages : (i : MemoryDescriptor) → IsPlaced i → IsPages (range_of i)
range_of-IsPages i h = record {
  positive = omega arith;
  start_aligned = omega arith;
  len_aligned = omega arith;
  physical = omega arith;
}

-- the flags of the three kinds, on either processor
pub flagged :
    (m : MemRangeData) (f : ℕ)
    → IsPages m
    → f < 2048
    → f / 2 ^ 7 % 2 ≡ 0
    → f / 2 ^ 10 % 2 ≡ 0
    → IsMapped (m, f)
flagged m f h small no_pat no_huge = record {
  paged = record {
    positive = omega arith;
    fits = omega arith;
    start_aligned = omega arith;
    len_aligned = omega arith;
  };
  physical = omega arith;
  flags = small;
  no_pat = no_pat;
  no_huge = no_huge;
}

pub kept-append : (nx : Bool) (xs ys : List Entry) → kept nx (xs ++ ys) ≡ kept nx xs ++ kept nx ys
kept-append nx [] ys = refl
kept-append nx ((m, f) ∷ xs) ys = elim (Bool-cases (masked nx f == 0)) [
  | inl e ↦ rw (e, kept-append nx xs ys) refl
  | inr e ↦ rw (e, kept-append nx xs ys) refl
]

pub covered-append :
    (xs ys : List Entry) (a : ℕ) → covered (xs ++ ys) a ≡ (covered xs a || covered ys a)
unfolding covered
covered-append [] ys a = refl
covered-append (x ∷ xs) ys a = ground (arith, covered-append xs ys a)

-- Every descriptor ends at or below the last end, which is a page's.
abbrev pub AllEnd : ℕ → List MemoryDescriptor → Type 0
AllEnd last = All (λ i. i.phys_start + i.page_count * 4096 ≤ last)

AllEnd-weaken : (k n : ℕ) (map : List MemoryDescriptor) → k ≤ n → AllEnd k map → AllEnd n map
AllEnd-weaken k n [] le h = tt
AllEnd-weaken k n (i ∷ map) le h = (omega (arith, h.0), AllEnd-weaken k n map le h.1)

pub last_of-AllEnd :
    (map : List MemoryDescriptor)
    → All IsPlaced map
    → AllEnd (last_of map) map × (last_of map % 4096 ≡ 0) × (last_of map ≤ 2 ^ 52)
unfolding last_of
last_of-AllEnd [] h = (tt, refl, omega arith)
last_of-AllEnd (i ∷ map) (p, h) =
    let (below, aligned, bound) = last_of-AllEnd map h in
    ((omega arith, AllEnd-weaken (last_of map) _ map (omega arith) below), omega arith, omega arith)

-- flags that a page can have
abbrev pub IsPlain : ℕ → Type 0
IsPlain f = (f < 2048) × (f / 2 ^ 7 % 2 ≡ 0) × (f / 2 ^ 10 % 2 ≡ 0)

-- the pairs of a descriptor, with the flags that are left
pub kept_entry :
    (nx : Bool) (i : MemoryDescriptor)
    → (kept nx (entry_pairs i) ≡ [])
      ⊎ ((f : ℕ) × (kept nx (entry_pairs i) ≡ (range_of i, f) ∷ []) × IsPlain f)
kept_entry true i = elim (Bool-cases (is_code i.ty)) [
  | inl c ↦ inr (code_flags, rw c refl, omega arith)
  | inr c ↦ elim (Bool-cases (is_mmio i.ty)) [
    | inl d ↦ inr (device_flags, rw (c, d) refl, omega arith)
    | inr d ↦ inl (rw (c, d) refl)
  ]
]
kept_entry false i = elim (Bool-cases (is_code i.ty)) [
  | inl c ↦ inr (code_flags, rw c refl, omega arith)
  | inr c ↦ elim (Bool-cases (is_mmio i.ty)) [
    | inl d ↦ inr (masked false device_flags, rw (c, d) refl, omega arith)
    | inr d ↦ inl (rw (c, d) refl)
  ]
]

-- the whole plan, with the flags that are left
abbrev pub whole : Bool → List MemoryDescriptor → MemRangeData → List Entry
whole nx map stack =
    (new 0 (last_of map), masked nx data_flags) ∷ kept nx (pairs map)
    ++ (stack, masked nx data_flags) ∷ []

pub data_IsPlain : (nx : Bool) → IsPlain (masked nx data_flags)
data_IsPlain true = omega arith
data_IsPlain false = omega arith

-- The pair of the null page goes, since its flags are empty; no other does.
pub kept-plan :
    (nx : Bool) (map : List MemoryDescriptor) (stack : MemRangeData)
    → kept nx (plan map stack ++ (new 0 4096, 0) ∷ []) ≡ whole nx map stack
unfolding plan
kept-plan true map stack =
    rw
      (
        append_assoc (pairs map) ((stack, data_flags) ∷ []) ((new 0 4096, 0) ∷ []),
        kept-append true (pairs map) ((stack, data_flags) ∷ (new 0 4096, 0) ∷ []),
      )
      refl
kept-plan false map stack =
    rw
      (
        append_assoc (pairs map) ((stack, data_flags) ∷ []) ((new 0 4096, 0) ∷ []),
        kept-append false (pairs map) ((stack, data_flags) ∷ (new 0 4096, 0) ∷ []),
      )
      refl
