-- ===== src/Paging/Build/Step.antt =====
-- src/memory/paging.rs: one round of the loop of `create_recursive`, on each of its branches.
use okots_os.Base.{
  ℕ, ◌+◌, ◌*◌, ◌%◌, ◌^◌, ◌≤◌, ◌<◌, ◌≡◌, ◌≢◌, refl, sym, subst, ◌∙◌, ap, ◌⊎◌, inl, inr, Bool, true,
  false, Option, none, some, List, [], ◌∷◌, All, arith, if◌then◌else◌,
}
use okots_os.Range.{end_of, contains}
use okots_os.Errors.{Result, ok, err}
use okots_os.Paging.Normalize.{Entry}
use okots_os.Paging.Level.{PageLevel, pt, pd, pdpt, pml4, pml5, rank, entry_size}
use okots_os.Paging.Hardware.{Hardware, IsX86, IsPage}
use okots_os.Paging.Table.{Memory, write_cell}
use okots_os.Paging.Walk.{Walk, absent, walk_entry}
use okots_os.Paging.Build.{overlaps, sub_map, can_be_huge, huge_entry, relay_entry, page_entry}
use okots_os.Paging.Build.Slots.{
  IsMapped, covered, IsBase, slot_aligned, covered-sub_map, All-sub_map, sub_map-overlaps,
}
use okots_os.Paging.Build.Entries.{
  Names, page_entry-Names, huge_pd-Names, huge_pdpt-Names, relay_entry-Names,
}
use okots_os.Paging.Build.Frame.{Outcome, has, IsSupply, Built}
use okots_os.Paging.Build.Translate.{
  walk_absent, walk_page, walk_huge, walk_relay, FilledTo, Filled-store, Filled-skip, Filled-child,
  IsRight-leaf, IsRight-absent,
}

-- Every table that `create` builds is walked right by `walk`.
abbrev pub IsBuilder : Walk → (ℕ → List Entry → Memory → Result ℕ × Memory) → ℕ → Type 0
IsBuilder walk create span =
    (base : ℕ) (es : List Entry) (m : Memory)
    → base % span ≡ 0
    → base + span ≤ 2 ^ 60
    → All IsMapped es
    → IsSupply m.supply
    → Outcome (λ t m'. Built walk base span es m t m') (create base es m)

-- What stands below a level: nothing below the lowest, else a builder.
pub data Storey (level : PageLevel)
    : Option (ℕ → List Entry → Memory → Result ℕ × Memory) → Option Walk → Type 0 where
  lowest : level ≡ pt → Storey level none none
  upper :
      {create : ℕ → List Entry → Memory → Result ℕ × Memory} {walk : Walk}
      → level ≢ pt
      → IsBuilder walk create (entry_size level)
      → Storey level (some create) (some walk)

-- The level allows huge pages, and so has them.
pub huge_level :
    (level allow : PageLevel) (vstart vend : ℕ) (first : Entry) (more : List Entry)
    → rank allow ≤ 2
    → can_be_huge level allow vstart vend (first ∷ more) ≡ true
    → ((level ≡ pd) ⊎ (level ≡ pdpt)) × (first.0.start ≤ vstart) × (vend ≤ end_of first.0)
unfolding can_be_huge
huge_level pt allow vstart vend (r, f) [] h c = ground arith
huge_level pd allow vstart vend (r, f) [] h c = (inl refl, ground arith, ground arith)
huge_level pdpt allow vstart vend (r, f) [] h c = (inr refl, ground arith, ground arith)
huge_level pml4 allow vstart vend (r, f) [] h c = ground arith
huge_level pml5 allow vstart vend (r, f) [] h c = ground arith
huge_level level allow vstart vend (r, f) (e ∷ es) h c = cc

-- A page that a page range meets lies in it.
pub page_inside :
    (vstart a : ℕ) (e : Entry)
    → IsMapped e
    → vstart % 4096 ≡ 0
    → vstart + 4096 ≤ 2 ^ 60
    → overlaps vstart (vstart + 4096) e ≡ true
    → vstart ≤ a
    → a < vstart + 4096
    → (contains e.0 a ≡ true) × (vstart < 2 ^ 52)
page_inside vstart a (r, f) e al sm o lo hi = ground arith

pub huge_inside :
    (vstart vend a : ℕ) (e : Entry)
    → IsMapped e
    → e.0.start ≤ vstart
    → vend ≤ end_of e.0
    → vstart ≤ a
    → a < vend
    → (contains e.0 a ≡ true) × (vstart < 2 ^ 52)
huge_inside vstart vend a (r, f) e al sm lo hi = ground arith

pub huge-Names :
    (hw : Hardware) (level : PageLevel) (a f : ℕ) (e : Entry)
    → IsX86 hw
    → IsPage a
    → IsMapped e
    → (level ≡ pd) ⊎ (level ≡ pdpt)
    → Names hw (huge_entry hw level a e.1) a × (hw.is_huge (huge_entry hw level a e.1) ≡ true)
huge-Names hw pt a f e x page h k = ground arith
huge-Names hw pd a f e x page h k = huge_pd-Names hw x a page e.1 h.flags h.no_pat h.no_huge
huge-Names hw pdpt a f e x page h k = huge_pdpt-Names hw x a page e.1 h.flags h.no_pat h.no_huge
huge-Names hw pml4 a f e x page h k = ground arith
huge-Names hw pml5 a f e x page h k = ground arith

-- one address of the slot, its first
pub at_start : (level : PageLevel) (v : ℕ) → v < v + entry_size level
at_start pt v = omega arith
at_start pd v = omega arith
at_start pdpt v = omega arith
at_start pml4 v = omega arith
at_start pml5 v = omega arith

pub reads_huge :
    (hw : Hardware) (level : PageLevel)
    (create : Option (ℕ → List Entry → Memory → Result ℕ × Memory)) (below : Option Walk)
    → Storey level create below
    → (e page : ℕ) → Names hw e page
    → hw.is_huge e ≡ true
    → (a : ℕ) (n : Memory) → walk_entry hw level below e a n ≡ ok (page + a % entry_size level)
reads_huge hw level create below (lowest q) e page names big a n =
    walk_page hw level e a page n names
reads_huge hw level create below (upper {walk = w} ne bld) e page names big a n =
    walk_huge hw level w e a page n names big

module _ (hw : Hardware) (x : IsX86 hw) (level allow : PageLevel) (shallow : rank allow ≤ 2)
    (base t : ℕ) (es : List Entry) (s : Memory) (mapped : All IsMapped es)
    (fresh : has t s.supply ≡ false) (pages : (p : ℕ) → has p s.supply ≡ true → IsPage p) where
  -- the walk through what a slot gets, whatever stands below
  module _ (create : Option (ℕ → List Entry → Memory → Result ℕ × Memory)) (below : Option Walk)
      (i : ℕ) (m : Memory) (b : IsBase level base i)
      (h : FilledTo hw level below base t es s fresh i m) where
    abbrev pub Done : Unit {0} → Memory → Type 0
    Done u m' = FilledTo hw level below base t es s fresh (i + 1) m'

    abbrev pub vstart : ℕ
    vstart = base + i * entry_size level

    abbrev pub vend : ℕ
    vend = vstart + entry_size level

    module _ (first : Entry) (more : List Entry) (sub : sub_map vstart vend es ≡ first ∷ more) where
      pub first-IsMapped : IsMapped first
      first-IsMapped = (subst (All IsMapped) sub (All-sub_map IsMapped vstart vend es mapped)).0

      first_overlaps : overlaps vstart vend first ≡ true
      first_overlaps =
          (subst (All (λ e. overlaps vstart vend e ≡ true)) sub (sub_map-overlaps vstart vend es)).0

      covered_by_first :
          ((a : ℕ) → vstart ≤ a → a < vend → contains first.0 a ≡ true)
          → (a : ℕ) → vstart ≤ a
          → a < vend
          → covered es a ≡ true
      unfolding covered
      covered_by_first inside a lo hi =
          sym (covered-sub_map vstart vend a es lo hi) ∙ rw sub (rw (inside a lo hi))

      pub slot_huge :
          Storey level create below
          → can_be_huge level allow vstart vend (first ∷ more) ≡ true
          → Done tt (record m { cell = write_cell m.cell t i (huge_entry hw level vstart first.1) })
      slot_huge st c =
          let (deep, from, to) = huge_level level allow vstart vend first more shallow c in
          let inside = λ (a : ℕ) (lo : vstart ≤ a) (hi : a < vend).
            huge_inside vstart vend a first first-IsMapped from to lo hi in
          let page : IsPage vstart = record {
            aligned = (slot_aligned level base i b).1;
            physical = (inside vstart (omega arith) (at_start level vstart)).1;
          } in
          let (names, big) = huge-Names hw level vstart 0 first x page first-IsMapped deep in
          Filled-store hw level below base t es s fresh i (huge_entry hw level vstart first.1) m b h
            (IsRight-leaf hw level below base t es s fresh i (huge_entry hw level vstart first.1) m
              b (reads_huge hw level create below st _ vstart names big)
              (covered_by_first (λ a lo hi. (inside a lo hi).0)))

      -- The lowest level: the first range that meets the page.
      pub slot_page :
          level ≡ pt
          → below ≡ none
          → Done tt (record m { cell = write_cell m.cell t i (page_entry hw vstart first.1) })
      slot_page low no_walk =
          let size : entry_size level ≡ 4096 = ap entry_size low in
          let at = slot_aligned level base i b in
          let inside = λ (a : ℕ) (lo : vstart ≤ a) (hi : a < vend).
            page_inside vstart a first first-IsMapped at.1 (omega (arith, size))
              (subst (λ (k : ℕ). overlaps vstart (vstart + k) first ≡ true) size first_overlaps) lo
              (omega (arith, size)) in
          let page : IsPage vstart = record {
            aligned = at.1;
            physical = (inside vstart (omega arith) (at_start level vstart)).1;
          } in
          let f = first-IsMapped in
          let names = page_entry-Names hw x vstart page first.1 f.flags f.no_pat f.no_huge in
          Filled-store hw level below base t es s fresh i (page_entry hw vstart first.1) m b h (
            IsRight-leaf hw level below base t es s fresh i (page_entry hw vstart first.1) m b
              (λ a n. rw no_walk (walk_page hw level _ a vstart n names))
              (covered_by_first (λ a lo hi. (inside a lo hi).0)))

      -- A table below: built from the slot's ranges, and linked.
      pub slot_table :
          (walk : Walk) (child : ℕ) (m' : Memory)
          → below ≡ some walk
          → level ≢ pt
          → Built walk vstart (entry_size level) (first ∷ more) m child m'
          → Done tt (record m' { cell = write_cell m'.cell t i (relay_entry hw level child) })
      slot_table walk child m' has_walk ne built =
          let (names, small) =
            relay_entry-Names hw x child (pages child (h.shrinks child built.given)) level ne in
          Filled-store hw level below base t es s fresh i (relay_entry hw level child) m' b
            (Filled-child hw level below base t es s fresh i m m' walk vstart (entry_size level)
              child (first ∷ more) h built)
            λ a lo hi n keep.
              rw has_walk
                (walk_relay hw level walk (relay_entry hw level child) a child n names small)
              ∙ built.translates n (λ p j k l. keep p j (h.shrinks p k) l) a lo hi
              ∙ ap (λ (c : Bool). if c then ok a else err absent)
                  (ap (λ l. covered l a) (sym sub) ∙ covered-sub_map vstart vend a es lo hi)

    pub slot_empty : sub_map vstart vend es ≡ [] → Done tt m
    slot_empty sub = Filled-skip hw level below base t es s fresh i m b h (
        IsRight-absent hw level below base t es s fresh i m
          (λ a n. walk_absent hw level below a n x) sub)
