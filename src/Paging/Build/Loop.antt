-- ===== src/Paging/Build/Loop.antt =====
-- src/memory/paging.rs: the loop of `create_recursive`, and the levels on top of one another.
use okots_os.Base.{
  ℕ, zero, suc, ◌+◌, ◌*◌, ◌%◌, ◌^◌, ◌≤◌, ◌≡◌, ◌≢◌, refl, subst, ◌∙◌, ◌⊎◌, inl, inr, Bool-cases,
  true, false, Option, none, some, List, [], ◌∷◌, All, arith,
}
use okots_os.Errors.{Result, ok, err}
use okots_os.Paging.Normalize.{Entry}
use okots_os.Paging.Level.{PageLevel, pt, pd, pdpt, pml4, pml5, rank, entry_size}
use okots_os.Paging.Hardware.{Hardware, IsX86, IsPage}
use okots_os.Paging.Table.{Memory, store, zero_table}
use okots_os.Paging.Walk.{Walk, walk_with, walk_pt, walk_pd, walk_pdpt, walk_pml4, walk_pml5}
use okots_os.Paging.Build.{
  sub_map, can_be_huge, relay_entry, or_dealloc, fill_slot, fill_ranges, fill_index, fill_from,
  create_with, create_pt, create_pd, create_pdpt, create_pml4, create_pml5,
}
use okots_os.Paging.Build.Slots.{IsMapped, IsBase, slot_start, slot_end, slot_aligned, All-sub_map}
use okots_os.Paging.Build.Frame.{Outcome, Outcome-and_then, has, Distinct, IsSupply, Built, Filled}
use okots_os.Paging.Build.Translate.{FilledTo}
use okots_os.Paging.Build.Step.{
  IsBuilder, Storey, lowest, upper, slot_huge, slot_page, slot_table, slot_empty,
}

pub Outcome-or_dealloc :
    (P : ℕ → Memory → Type 0) (table : ℕ) (r : Result ℕ × Memory)
    → Outcome P r
    → Outcome P (or_dealloc table r)
Outcome-or_dealloc P table (ok a, m) h = h
Outcome-or_dealloc P table (err e, m) h = tt

-- What the loop's round does to a memory in which the rounds before it are done.
record Round (hw : Hardware) (level : PageLevel) (below : Option Walk) (base t : ℕ)
    (es : List Entry) (s : Memory) (i : ℕ) (m : Memory) : Type 0 where
  x : IsX86 hw
  mapped : All IsMapped es
  fresh : has t s.supply ≡ false
  pages : (p : ℕ) → has p s.supply ≡ true → IsPage p
  at : IsBase level base i
  filled : FilledTo hw level below base t es s fresh i m

module _ (hw : Hardware) (level allow : PageLevel) (shallow : rank allow ≤ 2) (base t : ℕ)
    (es : List Entry) (s : Memory) (i : ℕ) (m : Memory) where
  abbrev Next : Option Walk → Unit {0} → Memory → Type 0
  Next below u m' = Filled (walk_with hw level below) (entry_size level) base es t s (i + 1) m'

  abbrev vstart : ℕ
  vstart = base + i * entry_size level

  fill_slot-Filled :
      {create : Option (ℕ → List Entry → Memory → Result ℕ × Memory)} {below : Option Walk}
      → Storey level create below
      → (first : Entry) (more : List Entry) → Round hw level below base t es s i m
      → sub_map vstart (vstart + entry_size level) es ≡ first ∷ more
      → Outcome
          (Next below)
          (fill_slot hw level allow create t i vstart (vstart + entry_size level) first more m)
  unfolding fill_slot
  fill_slot-Filled (lowest low) first more r sub =
      elim (Bool-cases
        (can_be_huge level allow vstart (vstart + entry_size level) (first ∷ more))) [
          | inl c ↦ rw c (
              slot_huge hw r.x level allow shallow base t es s r.mapped r.fresh r.pages none none i
                m r.at r.filled first more sub (lowest low) c)
          | inr c ↦ rw c (
              slot_page hw r.x level allow shallow base t es s r.mapped r.fresh r.pages none none i
                m r.at r.filled first more sub low refl)
        ]
  fill_slot-Filled (upper {create} {walk} ne build) first more r sub =
      elim (Bool-cases
        (can_be_huge level allow vstart (vstart + entry_size level) (first ∷ more))) [
          | inl c ↦ rw c (
              slot_huge hw r.x level allow shallow base t es s r.mapped r.fresh r.pages
                (some create) (some walk) i m r.at r.filled first more sub (upper ne build) c)
          | inr c ↦ rw c (
              Outcome-and_then
                (λ child m'. Built walk vstart (entry_size level) (first ∷ more) m child m')
                (Next (some walk)) (or_dealloc t (create vstart (first ∷ more) m))
                (λ next_table. store t i (relay_entry hw level next_table))
                (Outcome-or_dealloc _ t (create vstart (first ∷ more) m) built)
                λ child m' done.
                  slot_table hw r.x level allow shallow base t es s r.mapped r.fresh r.pages
                    (some create) (some walk) i m r.at r.filled first more sub walk child m' refl ne
                    done)
        ]
    where
      built :
          Outcome
            (λ child m'. Built walk vstart (entry_size level) (first ∷ more) m child m')
            (create vstart (first ∷ more) m)
      built =
          let at = slot_aligned level base i r.at in
          build vstart (first ∷ more) m at.0 at.2
            (subst (All IsMapped) sub
              (All-sub_map IsMapped vstart (vstart + entry_size level) es r.mapped))
            (record {
              distinct = r.filled.distinct;
              pages = λ p k. r.pages p (r.filled.shrinks p k);
            })

  fill_ranges-Filled :
      {create : Option (ℕ → List Entry → Memory → Result ℕ × Memory)} {below : Option Walk}
      → Storey level create below
      → (l : List Entry) → Round hw level below base t es s i m
      → sub_map vstart (vstart + entry_size level) es ≡ l
      → Outcome
          (Next below)
          (fill_ranges hw level allow create t i vstart (vstart + entry_size level) l m)
  unfolding fill_ranges
  fill_ranges-Filled {create} {below} st [] r sub =
      slot_empty hw r.x level allow shallow base t es s r.mapped r.fresh r.pages create below i m
        r.at r.filled sub
  fill_ranges-Filled st (first ∷ more) r sub = fill_slot-Filled st first more r sub

  fill_index-Filled :
      {create : Option (ℕ → List Entry → Memory → Result ℕ × Memory)} {below : Option Walk}
      → Storey level create below
      → Round hw level below base t es s i m
      → Outcome (Next below) (fill_index hw level allow create t base es i m)
  unfolding fill_index
  fill_index-Filled st r =
      rw (slot_start level base i r.at, slot_end level base i r.at)
        (fill_ranges-Filled st (sub_map vstart (vstart + entry_size level) es) r refl)

-- `n` rounds from index `i` on
fill_from-Filled :
    (hw : Hardware) (level allow : PageLevel)
    → rank allow ≤ 2
    → (base t : ℕ) (es : List Entry) (s : Memory) (n i : ℕ) (m : Memory)
    → {create : Option (ℕ → List Entry → Memory → Result ℕ × Memory)} {below : Option Walk}
    → Storey level create below
    → i + n ≡ 512
    → base % (512 * entry_size level) ≡ 0
    → base + 512 * entry_size level ≤ 2 ^ 60
    → IsX86 hw
    → All IsMapped es
    → has t s.supply ≡ false
    → ((p : ℕ) → has p s.supply ≡ true → IsPage p)
    → Filled (walk_with hw level below) (entry_size level) base es t s i m
    → Outcome
        (λ u m'. Filled (walk_with hw level below) (entry_size level) base es t s 512 m')
        (fill_from hw level allow create t base es i n m)
unfolding fill_from
fill_from-Filled hw level allow sh base t es s zero i m {below} st e al sm x mp fr pg h =
    let e' : i ≡ 512 = omega arith in
    subst (λ (k : ℕ). Filled (walk_with hw level below) (entry_size level) base es t s k m) e' h
fill_from-Filled hw level allow sh base t es s (suc n) i m {create} {below} st e al sm x mp fr pg
      h =
    Outcome-and_then
      (λ u m'. Filled (walk_with hw level below) (entry_size level) base es t s (i + 1) m') _
      (fill_index hw level allow create t base es i m)
      (λ u. fill_from hw level allow create t base es (i + 1) n)
      (fill_index-Filled hw level allow sh base t es s i m st (record {
        x = x;
        mapped = mp;
        fresh = fr;
        pages = pg;
        at = record { aligned = al; small = sm; index = omega arith };
        filled = h;
      }))
      λ u m' h'.
        fill_from-Filled hw level allow sh base t es s n (i + 1) m' st (omega arith) al sm x mp fr
          pg h'

-- The loop begins on a table of zeros.
Filled-start :
    (walk : Walk) (size base t : ℕ) (es : List Entry) (rest freed : List ℕ) (c : ℕ → ℕ → ℕ)
    → Distinct rest
    → let s : Memory = record { cell = zero_table c t; supply = rest; freed = freed } in
      Filled walk size base es t s 0 s
Filled-start walk size base t es rest freed c d = record {
  shrinks = λ p k. k;
  distinct = d;
  kept = λ p j ne k. refl;
  clear = λ j k. ground arith;
  translates = λ n keep line a lo hi. absurd (omega arith);
}

Built-end :
    (walk : Walk) (size base t : ℕ) (es : List Entry) (rest freed : List ℕ) (c : ℕ → ℕ → ℕ)
    (m' : Memory)
    → has t rest ≡ false
    → Filled walk size base es t
        (record { cell = zero_table c t; supply = rest; freed = freed })
        512
        m'
    → Built walk base (512 * size) es (record { cell = c; supply = t ∷ rest; freed = freed }) t m'
Built-end walk size base t es rest freed c m' fr h = record {
  given = ground arith;
  taken = ground (arith, h.shrinks t);
  shrinks = λ p k. ground (arith, h.shrinks p);
  distinct = h.distinct;
  kept = λ p j k. h.kept p j (other p k) (unused p k) ∙ ground (arith, other p k);
  translates = λ n keep a lo hi.
      h.translates n (λ p j k l. keep p j (ground arith) l)
        (λ j k. keep t j (ground arith) (ground (arith, h.shrinks t))) a lo hi;
}
  where
    other : (p : ℕ) → (has p (t ∷ rest) ≡ false) ⊎ (has p m'.supply ≡ true) → p ≢ t
    other p (inl k) e = ground arith
    other p (inr k) e =
        let k' : has t rest ≡ true = subst (λ q. has q rest ≡ true) e (h.shrinks p k) in cc

    unused :
        (p : ℕ)
        → (has p (t ∷ rest) ≡ false) ⊎ (has p m'.supply ≡ true)
        → (has p rest ≡ false) ⊎ (has p m'.supply ≡ true)
    unused p k = ground arith

create_with-Built :
    (hw : Hardware) (level allow : PageLevel)
    → rank allow ≤ 2
    → IsX86 hw
    → {create : Option (ℕ → List Entry → Memory → Result ℕ × Memory)} {below : Option Walk}
    → Storey level create below
    → (base : ℕ) (es : List Entry) (c : ℕ → ℕ → ℕ) (supply freed : List ℕ)
    → base % (512 * entry_size level) ≡ 0
    → base + 512 * entry_size level ≤ 2 ^ 60
    → All IsMapped es
    → IsSupply supply
    → let m : Memory = record { cell = c; supply = supply; freed = freed } in
      Outcome
        (λ t m'. Built (walk_with hw level below) base (512 * entry_size level) es m t m')
        (create_with hw level allow create base es m)
unfolding create_with
create_with-Built hw level allow sh x st base es c [] freed al sm mp su = tt
create_with-Built hw level allow sh x {create} {below} st base es c (t ∷ rest) freed al sm mp su =
    let s : Memory = record { cell = zero_table c t; supply = rest; freed = freed } in
    Outcome-and_then
      (λ u m'. Filled (walk_with hw level below) (entry_size level) base es t s 512 m') _
      (fill_from hw level allow create t base es 0 512 s) (λ u m'. (ok t, m'))
      (fill_from-Filled hw level allow sh base t es s 512 0 s st refl al sm x mp su.distinct.0
        (λ p k. su.pages p (ground arith))
        (Filled-start (walk_with hw level below) (entry_size level) base t es rest freed c
          su.distinct.1))
      λ u m' h.
        Built-end (walk_with hw level below) (entry_size level) base t es rest freed c m'
          su.distinct.0 h

module _ (hw : Hardware) (x : IsX86 hw) (allow : PageLevel) (shallow : rank allow ≤ 2) where
  Storey-IsBuilder :
      (level : PageLevel) {create : Option (ℕ → List Entry → Memory → Result ℕ × Memory)}
      {below : Option Walk}
      → Storey level create below
      → IsBuilder
          (walk_with hw level below)
          (create_with hw level allow create)
          (512 * entry_size level)
  Storey-IsBuilder level st base es m al sm mp su =
      create_with-Built hw level allow shallow x st base es m.cell m.supply m.freed al sm mp su

  pub pt-IsBuilder : IsBuilder (walk_pt hw) (create_pt hw allow) (2 ^ 21)
  unfolding walk_pt create_pt
  pt-IsBuilder = Storey-IsBuilder pt (lowest refl)

  pub pd-IsBuilder : IsBuilder (walk_pd hw) (create_pd hw allow) (2 ^ 30)
  unfolding walk_pd create_pd
  pd-IsBuilder = Storey-IsBuilder pd (upper (λ e. ground arith) pt-IsBuilder)

  pub pdpt-IsBuilder : IsBuilder (walk_pdpt hw) (create_pdpt hw allow) (2 ^ 39)
  unfolding walk_pdpt create_pdpt
  pdpt-IsBuilder = Storey-IsBuilder pdpt (upper (λ e. ground arith) pd-IsBuilder)

  pub pml4-IsBuilder : IsBuilder (walk_pml4 hw) (create_pml4 hw allow) (2 ^ 48)
  unfolding walk_pml4 create_pml4
  pml4-IsBuilder = Storey-IsBuilder pml4 (upper (λ e. ground arith) pdpt-IsBuilder)

  pub pml5-IsBuilder : IsBuilder (walk_pml5 hw) (create_pml5 hw allow) (2 ^ 57)
  unfolding walk_pml5 create_pml5
  pml5-IsBuilder = Storey-IsBuilder pml5 (upper (λ e. ground arith) pml4-IsBuilder)
