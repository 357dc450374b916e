-- ===== src/Start/Grow/Ends.antt =====
-- src/main.rs, `change_allocator`: the loop ends, and what it has taken by then.
use okots_os.Base.{
  ℕ, zero, suc, ◌+◌, ◌*◌, ◌/◌, ◌^◌, ◌≤◌, ◌<◌, ◌≡◌, refl, ap, ◌⊎◌, inl, inr, Bool, true, false,
  Option, none, some, List, [], ◌∷◌, ltb, All, arith, Bool-cases, min,
}
use okots_os.Firmware.{MemoryDescriptor}
use okots_os.Start.Grow.{
  min_allocate_size, max_allocate_size, free_memory, PageAllocator, request_size, Growing, halved,
  next_growing, round, go_on, grow, switched, change_allocator, claim,
}
use okots_os.Range.{new as range_of}
use okots_os.PhysicalAllocator.{allocator_add_offset, add_target_to_os_alloc}
use okots_os.PhysicalAllocator.Claim.{add_target_to_os_alloc-bounds}

-- What the code relies on the firmware for: it has finitely many pages, takes as many off as it
-- gives out, and keeps what it has when it refuses.
pub record IsFinite (pa : PageAllocator) : Type 1 where
  pub left : pa.State → ℕ
  pub granted :
      (n : ℕ) (s : pa.State) (ptr : ℕ) (s' : pa.State)
      → pa.allocate_pages n s ≡ (some ptr, s')
      → (left s' + n ≡ left s) × (ptr + n * 4096 < 2 ^ 64)
  pub refused : (n : ℕ) (s s' : pa.State) → pa.allocate_pages n s ≡ (none, s') → left s' ≡ left s

abbrev pub bytes : List (ℕ × ℕ) → ℕ
bytes [] = 0
bytes (r ∷ rs) = r.1 + bytes rs

module _ (pa : PageAllocator) (fin : IsFinite pa) where
  answer-cases :
      (r : Option ℕ × pa.State)
      → ((ptr : ℕ) × (s : pa.State) × (r ≡ (some ptr, s))) ⊎ ((s : pa.State) × (r ≡ (none, s)))
  answer-cases (some ptr, s) = inl (ptr, s, refl)
  answer-cases (none, s) = inr (s, refl)

  -- how long the loop can go on
  abbrev measure : Growing pa.State → ℕ
  measure g = fin.left g.firmware + g.current_attempt_size

  -- Nothing below `ALLOCATOR_ADD_OFFSET` is claimed, and no more than the firmware has given out
  -- since it had `pages` pages.
  abbrev pub IsGrown : ℕ → Growing pa.State → Type 0
  IsGrown pages g =
      All (λ r. allocator_add_offset ≤ r.0) g.claimed
      × (bytes g.claimed + 4096 * fin.left g.firmware ≤ 4096 * pages)

  -- The firmware has just refused a request of at most three pages.
  abbrev pub IsExhausted : Growing pa.State → Type 0
  IsExhausted g =
      (n : ℕ) × (s : pa.State) × (1 ≤ n) × (n ≤ 3) × (pa.allocate_pages n s ≡ (none, g.firmware))

  -- What a round does: the end, or a step towards it.
  abbrev pub IsRound : ℕ → Growing pa.State → Bool × Growing pa.State → Type 0
  IsRound pages g r =
      IsGrown pages r.1
      × (((r.0 ≡ false) × IsExhausted r.1)
          ⊎ ((r.0 ≡ true) × (measure r.1 < measure g) × (4096 ≤ r.1.current_attempt_size)))

  claimed-IsGrown :
      (pages ptr len : ℕ) (claimed : List (ℕ × ℕ)) (old new : pa.State)
      → (All (λ r. allocator_add_offset ≤ r.0) claimed
          × (bytes claimed + 4096 * fin.left old ≤ 4096 * pages))
      → ptr + len < 2 ^ 64
      → 4096 * fin.left new + len ≡ 4096 * fin.left old
      → let claimed' = claim (add_target_to_os_alloc (range_of ptr len)) claimed in
        All (λ r. allocator_add_offset ≤ r.0) claimed'
        × (bytes claimed' + 4096 * fin.left new ≤ 4096 * pages)
  claimed-IsGrown pages ptr len claimed old new h fits e =
      elim (add_target_to_os_alloc-bounds (range_of ptr len) fits) [
        | inl (none_claimed, low, short) ↦ rw none_claimed (h.0, omega (arith, h.1))
        | inr (p, l, some_claimed, above, inside, at_p, at_end) ↦
            rw some_claimed ((above, h.0), omega (arith, h.1))
      ]

  round-IsRound :
      (pages : ℕ) (g : Growing pa.State)
      → 4096 ≤ g.current_attempt_size
      → IsGrown pages g
      → IsRound pages g (round pa g)
  unfolding round next_growing
  round-IsRound pages g h grown =
      let n : ℕ = request_size g.current_attempt_size / 4096 in
      elim (answer-cases (pa.allocate_pages n g.firmware)) [
        | inl (ptr, s, e) ↦
            let (taken, fits) = fin.granted n g.firmware ptr s e in
            rw e (
              claimed-IsGrown pages ptr (request_size g.current_attempt_size) g.claimed g.firmware s
                  grown (omega arith) (omega arith),
              inr (refl, omega arith, h),
            )
        | inr (s, e) ↦
            let same = fin.refused n g.firmware s e in
            elim (Bool-cases (ltb (halved g.current_attempt_size) min_allocate_size)) [
              | inl small ↦
                  rw (e, small)
                    (
                      (grown.0, omega (arith, grown.1)),
                      inl (refl, (n, g.firmware, omega arith, ground arith, e)),
                    )
              | inr large ↦
                  rw (e, large)
                    ((grown.0, omega (arith, grown.1)), inr (refl, ground arith, ground arith))
            ]
      ]

  -- Enough fuel for a loop that begins in `g`.
  abbrev pub Ends : ℕ → Option (Growing pa.State) → Type 0
  Ends pages r = (g : Growing pa.State) × (r ≡ some g) × IsGrown pages g × IsExhausted g

  -- `loop` is the rest of the loop.
  go_on-Ends :
      (pages : ℕ) (g : Growing pa.State) (loop : Growing pa.State → Option (Growing pa.State))
      → ((g' : Growing pa.State)
          → measure g' < measure g
          → 4096 ≤ g'.current_attempt_size
          → IsGrown pages g'
          → Ends pages (loop g'))
      → (r : Bool × Growing pa.State) → IsRound pages g r
      → Ends pages (go_on pa loop r)
  go_on-Ends pages g loop rest (true, g') (grown, inl (e, x)) = absurd (ground (arith, e))
  go_on-Ends pages g loop rest (true, g') (grown, inr (e, less, h)) = rest g' less h grown
  go_on-Ends pages g loop rest (false, g') (grown, inl (e, x)) = (g', refl, grown, x)
  go_on-Ends pages g loop rest (false, g') (grown, inr (e, less, h)) = absurd (ground (arith, e))

  grow-Ends :
      (pages fuel : ℕ) (g : Growing pa.State)
      → measure g < fuel
      → 4096 ≤ g.current_attempt_size
      → IsGrown pages g
      → Ends pages (grow pa fuel g)
  unfolding grow
  grow-Ends pages zero g more h grown = absurd (omega arith)
  grow-Ends pages (suc fuel) g more h grown =
      go_on-Ends pages g (grow pa fuel)
        (λ g' less h' grown'. grow-Ends pages fuel g' (omega arith) h' grown') (round pa g)
        (round-IsRound pages g h grown)

-- For a firmware with finitely many pages, at least one page in its map, and fuel for as many rounds
-- as it has pages and the first size has bytes: `change_allocator` ends, with the kernel's allocator in
-- use. Then the firmware has just refused a request of at most three pages; nothing below `ALLOCATOR_ADD_OFFSET` has
-- been claimed, and in all no more bytes than the pages that the firmware no longer has.
pub change_allocator-Ends :
    (pa : PageAllocator) (fin : IsFinite pa) (fuel : ℕ) (entries : List MemoryDescriptor)
    (s : pa.State)
    → 4096 ≤ free_memory entries 0
    → fin.left s + min max_allocate_size (free_memory entries 0) < fuel
    → (g : Growing pa.State) × (change_allocator pa fuel entries s ≡ some g)
      × (g.use_os_alloc ≡ true)
      × IsGrown pa fin (fin.left s) g
      × IsExhausted pa fin g
unfolding change_allocator
change_allocator-Ends pa fin fuel entries s h more =
    let (g, e, grown, out) =
      grow-Ends pa fin (fin.left s) fuel
        (record {
          current_attempt_size = min max_allocate_size (free_memory entries 0);
          claimed = [];
          firmware = s;
          use_os_alloc = false;
        })
        (omega arith) (omega arith) (tt, omega arith) in
    (record g { use_os_alloc = true }, ap (switched pa) e, refl, grown, out)
