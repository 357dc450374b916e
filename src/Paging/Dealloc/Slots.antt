-- ===== src/Paging/Dealloc/Slots.antt =====
-- src/memory/paging.rs: the loop of `create_recursive`, by the tables that it takes.
use okots_os.Base.{
  ℕ, zero, suc, ◌+◌, ◌*◌, ◌%◌, ◌^◌, ◌≤◌, ◌≡◌, ◌≢◌, refl, ap, subst, inl, inr, Bool-cases, true,
  false, Option, none, some, List, [], ◌∷◌, arith, All,
}
use okots_os.Errors.{Result}
use okots_os.Paging.Normalize.{Entry}
use okots_os.Paging.Level.{PageLevel, pt, rank, entry_size}
use okots_os.Paging.Hardware.{Hardware, IsX86, IsPage}
use okots_os.Paging.Table.{Memory, store, write_cell}
use okots_os.Paging.Build.{
  sub_map, can_be_huge, huge_entry, relay_entry, page_entry, or_dealloc, fill_slot, fill_ranges,
  fill_index, fill_from,
}
use okots_os.Paging.Build.Slots.{IsMapped, IsBase, slot_start, slot_end, slot_aligned, All-sub_map}
use okots_os.Paging.Build.Entries.{relay_entry-Names}
use okots_os.Paging.Build.Step.{huge_level, huge_inside, huge-Names, at_start}
use okots_os.Paging.Build.Frame.{has, Distinct, IsSupply, Outcome, Outcome-and_then}
use okots_os.Paging.Build.Loop.{Outcome-or_dealloc}
use okots_os.Paging.Dealloc.{Dealloc, is_table}
use okots_os.Paging.Dealloc.Taken.{count, has-append, Distinct-append, Takes, Returned, Entered}
use okots_os.Paging.Dealloc.Rows.{slot_tables, Entered-row}

-- Every table that `create` builds is given back by `dealloc`, with all that was taken for it.
abbrev pub IsReturner : Dealloc → (ℕ → List Entry → Memory → Result ℕ × Memory) → ℕ → Type 0
IsReturner dealloc create span =
    (base : ℕ) (es : List Entry) (m : Memory)
    → base % span ≡ 0
    → base + span ≤ 2 ^ 60
    → All IsMapped es
    → IsSupply m.supply
    → Outcome (λ t m'. Returned dealloc m t m') (create base es m)

-- what stands below a level
pub data Storey (level : PageLevel)
    : Option (ℕ → List Entry → Memory → Result ℕ × Memory) → Option Dealloc → Type 0 where
  lowest : level ≡ pt → Storey level none none
  upper :
      {create : ℕ → List Entry → Memory → Result ℕ × Memory} {dealloc : Dealloc}
      → level ≢ pt
      → IsReturner dealloc create (entry_size level)
      → Storey level (some create) (some dealloc)

takes_none : (m : Memory) → Takes m [] m
takes_none m = record { supply = refl; kept = λ p j h. refl }

-- Neither an absent entry nor a huge page leads to a table.
no_table :
    (hw : Hardware) (below : Option Dealloc) (cell : ℕ → ℕ → ℕ) (e : ℕ)
    → is_table hw e ≡ false
    → slot_tables hw below cell e ≡ []
no_table hw none cell e h = refl
no_table hw (some below) cell e h = rw h refl

module _ (hw : Hardware) (x : IsX86 hw) (level allow : PageLevel) (shallow : rank allow ≤ 2)
    (base t : ℕ) (es : List Entry) (mapped : All IsMapped es) (s : Memory)
    (supply : IsSupply s.supply) (fresh : has t s.supply ≡ false) where
  module _ (below : Option Dealloc) (i : ℕ) (m : Memory) (b : IsBase level base i)
      (h : Entered hw below t s i m) where
    abbrev vstart : ℕ
    vstart = base + i * entry_size level

    abbrev vend : ℕ
    vend = vstart + entry_size level

    abbrev Next : Unit {0} → Memory → Type 0
    Next u m' = Entered hw below t s (i + 1) m'

    -- An entry that leads to no table.
    leaf :
        (e : ℕ)
        → ((cell : ℕ → ℕ → ℕ) → slot_tables hw below cell e ≡ [])
        → Next tt (record m { cell = write_cell m.cell t i e })
    unfolding count
    leaf e no_table =
        Entered-row hw below t s supply.distinct fresh i e m m [] (write_cell m.cell t i e) h
          (takes_none m) (λ p j ne. ground arith) (λ j ne. ground arith) (ground arith)
          (λ cell agree p. rw (no_table cell) refl)

    huge_leaf :
        (first : Entry) (more : List Entry)
        → sub_map vstart vend es ≡ first ∷ more
        → can_be_huge level allow vstart vend (first ∷ more) ≡ true
        → (cell : ℕ → ℕ → ℕ) → slot_tables hw below cell (huge_entry hw level vstart first.1) ≡ []
    huge_leaf first more sub c cell =
        let first-IsMapped : IsMapped first =
          (subst (All IsMapped) sub (All-sub_map IsMapped vstart vend es mapped)).0 in
        let (deep, from, to) = huge_level level allow vstart vend first more shallow c in
        let page : IsPage vstart = record {
          aligned = (slot_aligned level base i b).1;
          physical =
              (huge_inside vstart vend vstart first first-IsMapped from to (omega arith)
                (at_start level vstart)).1;
        } in
        let (names, big) = huge-Names hw level vstart 0 first x page first-IsMapped deep in
        no_table hw below cell (huge_entry hw level vstart first.1) (ground (arith, big))

    skip : Next tt m
    skip =
        Entered-row hw below t s supply.distinct fresh i 0 m m [] m.cell h (takes_none m)
          (λ p j ne. refl) (λ j ne. refl) (h.clear i (omega arith))
          (λ cell agree p. ap (count p) (no_table hw below cell 0 (ground (arith, x.zero_absent))))

  -- The table of the level below, and the entry that leads to it.
  child :
      (dealloc : Dealloc) (i : ℕ) (m : Memory) (c : ℕ) (m1 : Memory)
      → level ≢ pt
      → Entered hw (some dealloc) t s i m
      → Returned dealloc m c m1
      → Entered hw
          (some dealloc)
          t
          s
          (i + 1)
          (record m1 { cell = write_cell m1.cell t i (relay_entry hw level c) })
  child dealloc i m c m1 ne h r =
      let given : has c s.supply ≡ true = ground (
        arith,
        r.own,
        ap (has c) h.supply,
        ap (has c) r.takes.supply,
        has-append c h.taken m.supply,
        has-append c r.taken m1.supply,
      ) in
      let (names, small) = relay_entry-Names hw x c (supply.pages c given) level ne in
      Entered-row hw (some dealloc) t s supply.distinct fresh i (relay_entry hw level c) m m1
        r.taken (write_cell m1.cell t i (relay_entry hw level c)) h r.takes (λ p j ne. ground arith)
        (λ j ne. ground arith) (ground arith)
        (λ cell agree p. rw (names.present, small, names.address) (r.returns cell agree p))

  module _ (i : ℕ) (b : IsBase level base i) where
    abbrev start : ℕ
    start = base + i * entry_size level

    fill_slot-Entered :
        {create : Option (ℕ → List Entry → Memory → Result ℕ × Memory)} {below : Option Dealloc}
        → Storey level create below
        → (first : Entry) (more : List Entry) (m : Memory) → Entered hw below t s i m
        → sub_map start (start + entry_size level) es ≡ first ∷ more
        → Outcome
            (λ u m'. Entered hw below t s (i + 1) m')
            (fill_slot hw level allow create t i start (start + entry_size level) first more m)
    unfolding fill_slot
    fill_slot-Entered (lowest low) first more m h sub =
        elim (Bool-cases
          (can_be_huge level allow start (start + entry_size level) (first ∷ more))) [
            | inl c ↦ rw c (
                leaf none i m b h (huge_entry hw level start first.1)
                  (huge_leaf none i m b h first more sub c))
            | inr c ↦ rw c (leaf none i m b h (page_entry hw start first.1) (λ cell. refl))
          ]
    fill_slot-Entered (upper {create} {dealloc} ne build) first more m h sub =
        elim (Bool-cases
          (can_be_huge level allow start (start + entry_size level) (first ∷ more))) [
            | inl c ↦ rw c (
                leaf (some dealloc) i m b h (huge_entry hw level start first.1)
                  (huge_leaf (some dealloc) i m b h first more sub c))
            | inr c ↦ rw c (
                Outcome-and_then (λ c m'. Returned dealloc m c m') _
                  (or_dealloc t (create start (first ∷ more) m))
                  (λ next_table. store t i (relay_entry hw level next_table))
                  (Outcome-or_dealloc _ t (create start (first ∷ more) m) built)
                  λ c m' r. child dealloc i m c m' ne h r)
          ]
      where
        built : Outcome (λ c m'. Returned dealloc m c m') (create start (first ∷ more) m)
        built =
            let at = slot_aligned level base i b in
            build start (first ∷ more) m at.0 at.2
              (subst (All IsMapped) sub
                (All-sub_map IsMapped start (start + entry_size level) es mapped))
              (record {
                distinct =
                    (Distinct-append h.taken m.supply (subst Distinct h.supply supply.distinct)).0;
                pages = λ p k.
                    supply.pages p
                      (ground (arith, ap (has p) h.supply, has-append p h.taken m.supply));
              })

    fill_ranges-Entered :
        {create : Option (ℕ → List Entry → Memory → Result ℕ × Memory)} {below : Option Dealloc}
        → Storey level create below
        → (l : List Entry) (m : Memory) → Entered hw below t s i m
        → sub_map start (start + entry_size level) es ≡ l
        → Outcome
            (λ u m'. Entered hw below t s (i + 1) m')
            (fill_ranges hw level allow create t i start (start + entry_size level) l m)
    unfolding fill_ranges
    fill_ranges-Entered {create} {below} st [] m h sub = skip below i m b h
    fill_ranges-Entered st (first ∷ more) m h sub = fill_slot-Entered st first more m h sub

    fill_index-Entered :
        {create : Option (ℕ → List Entry → Memory → Result ℕ × Memory)} {below : Option Dealloc}
        → Storey level create below
        → (m : Memory) → Entered hw below t s i m
        → Outcome
            (λ u m'. Entered hw below t s (i + 1) m')
            (fill_index hw level allow create t base es i m)
    unfolding fill_index
    fill_index-Entered st m h =
        rw (slot_start level base i b, slot_end level base i b)
          (fill_ranges-Entered st (sub_map start (start + entry_size level) es) m h refl)

  -- `n` rounds from index `i` on
  pub fill_from-Entered :
      {create : Option (ℕ → List Entry → Memory → Result ℕ × Memory)} {below : Option Dealloc}
      → Storey level create below
      → base % (512 * entry_size level) ≡ 0
      → base + 512 * entry_size level ≤ 2 ^ 60
      → (n i : ℕ) (m : Memory) → i + n ≡ 512
      → Entered hw below t s i m
      → Outcome
          (λ u m'. Entered hw below t s 512 m')
          (fill_from hw level allow create t base es i n m)
  unfolding fill_from
  fill_from-Entered {below} st al sm zero i m e h =
      let e' : i ≡ 512 = omega arith in subst (λ (k : ℕ). Entered hw below t s k m) e' h
  fill_from-Entered {create} {below} st al sm (suc n) i m e h =
      Outcome-and_then (λ u m'. Entered hw below t s (i + 1) m') _
        (fill_index hw level allow create t base es i m)
        (λ u. fill_from hw level allow create t base es (i + 1) n)
        (fill_index-Entered i (record { aligned = al; small = sm; index = omega arith }) st m h)
        λ u m' h'. fill_from-Entered st al sm n (i + 1) m' (omega arith) h'
