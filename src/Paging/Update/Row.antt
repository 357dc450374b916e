-- ===== src/Paging/Update/Row.antt =====
-- src/memory/paging.rs: one round of the loop of `update_recursive`, on each of its branches.
use okots_os.Base.{
  ℕ, ◌+◌, ◌*◌, ◌%◌, ◌≤◌, ◌<◌, ◌≡◌, ◌≢◌, refl, sym, subst, ◌∙◌, ap, Bool, true, false, ◌||◌, Option,
  none, some, List, [], ◌∷◌, All, arith, if◌then◌else◌,
}
use okots_os.Range.{contains}
use okots_os.Errors.{ok, err}
use okots_os.Paging.Normalize.{Entry}
use okots_os.Paging.Level.{PageLevel, pt, rank, entry_size}
use okots_os.Paging.Hardware.{Hardware, IsX86, IsPage}
use okots_os.Paging.Table.{Memory, write_cell}
use okots_os.Paging.Walk.{Walk, absent, walk_entry}
use okots_os.Paging.Build.{overlaps, sub_map, can_be_huge, relay_entry, page_entry}
use okots_os.Paging.Build.Slots.{
  IsMapped, covered, IsBase, slot_offset, slot_aligned, covered-sub_map, All-sub_map,
  sub_map-overlaps,
}
use okots_os.Paging.Build.Entries.{Names, page_entry-Names, relay_entry-Names}
use okots_os.Paging.Build.Frame.{has, Distinct, answer}
use okots_os.Paging.Build.Step.{huge_level, huge_inside, page_inside, at_start}
use okots_os.Paging.Build.Translate.{walk_page, walk_huge, walk_relay}
use okots_os.Paging.Update.{generate_huge_entry, raw_present}
use okots_os.Paging.Update.Huge.{generate_huge_entry-Names}
use okots_os.Paging.Update.Owned.{IsRaw, Tree, Owns}
use okots_os.Paging.Update.Frame.{given_out, Shrinks, Effect, ChangedTo, IsRight, Changed-row}

same_supply : (m : Memory) → Distinct m.supply → Shrinks m m
same_supply m d = record { within = λ p k. k; distinct = d }

no-Effect : (own : List ℕ) (m : Memory) → Distinct m.supply → Effect own m m
no-Effect own m d = (same_supply m d, λ p j k l. refl)

-- the walk through an entry that is present, with or without a level below
reads :
    (hw : Hardware) (level : PageLevel) (below : Option Walk) (e page : ℕ)
    → Names hw e page
    → hw.is_huge e ≡ true
    → (a : ℕ) (n : Memory) → walk_entry hw level below e a n ≡ ok (page + a % entry_size level)
reads hw level none e page names big a n = walk_page hw level e a page n names
reads hw level (some w) e page names big a n = walk_huge hw level w e a page n names big

module _ (hw : Hardware) (x : IsX86 hw) (raw : IsRaw hw) (level allow : PageLevel)
    (shallow : rank allow ≤ 2) (base t : ℕ) (es : List Entry) (mapped : All IsMapped es)
    (s : Memory) (tree : Option Tree) (ts : List ℕ) (o : Owns tree s.cell t ts)
    (outside : (p : ℕ) → has p ts ≡ true → has p s.supply ≡ false)
    (pages : (p : ℕ) → (has p ts || has p s.supply) ≡ true → IsPage p) where
  module _ (below : Option Walk) (i : ℕ) (m : Memory) (b : IsBase level base i)
      (h : ChangedTo hw level below base t es s tree ts o outside i m) where
    abbrev vstart : ℕ
    vstart = base + i * entry_size level

    abbrev vend : ℕ
    vend = vstart + entry_size level

    abbrev pub Next : Memory → Type 0
    Next m' = ChangedTo hw level below base t es s tree ts o outside (i + 1) m'

    -- An entry is written, and nothing else.
    write :
        (e : ℕ)
        → IsRight hw level below base t es s tree ts o outside i e m m
        → Next (record m { cell = write_cell m.cell t i e })
    write e right =
        Changed-row hw level below base t es s tree ts o outside i e m m (write_cell m.cell t i e) b
          h (no-Effect (o.own i) m h.shrinks.distinct) (λ p j ne. ground arith)
          (λ j ne. ground arith) (ground arith) right

    -- The entry stands as it is.
    leave : IsRight hw level below base t es s tree ts o outside i (m.cell t i) m m → Next m
    leave right =
        Changed-row hw level below base t es s tree ts o outside i (m.cell t i) m m m.cell b h
          (no-Effect (o.own i) m h.shrinks.distinct) (λ p j ne. refl) (λ j ne. refl) refl right

    -- An absent entry is right where no range meets the slot.
    IsRight-absent :
        (e : ℕ)
        → sub_map vstart vend es ≡ []
        → hw.is_present e ≡ false
        → IsRight hw level below base t es s tree ts o outside i e m m
    unfolding walk_entry covered
    IsRight-absent e sub gone n keep a lo hi =
        let uncovered : covered es a ≡ false =
          sym (covered-sub_map vstart vend a es lo hi) ∙ ap (λ l. covered l a) sub in
        rw (gone, uncovered) refl

    pub row_clear :
        sub_map vstart vend es ≡ []
        → ((raw_present (m.cell t i) ≡ false) → Next m)
          × Next (record m { cell = write_cell m.cell t i 0 })
    row_clear sub = (
      λ e. leave (IsRight-absent (m.cell t i) sub (sym (raw.present (m.cell t i)) ∙ e)),
      write 0 (IsRight-absent 0 sub x.zero_absent),
    )

    module _ (first : Entry) (more : List Entry) (sub : sub_map vstart vend es ≡ first ∷ more) where
      first-IsMapped : IsMapped first
      first-IsMapped = (subst (All IsMapped) sub (All-sub_map IsMapped vstart vend es mapped)).0

      first_overlaps : overlaps vstart vend first ≡ true
      first_overlaps =
          (subst (All (λ e. overlaps vstart vend e ≡ true)) sub (sub_map-overlaps vstart vend es)).0

      -- An entry that maps the whole slot is right where the first range covers the slot.
      IsRight-leaf :
          (e : ℕ)
          → ((a : ℕ) (n : Memory)
              → walk_entry hw level below e a n ≡ ok (vstart + a % entry_size level))
          → ((a : ℕ) → vstart ≤ a → a < vend → contains first.0 a ≡ true)
          → IsRight hw level below base t es s tree ts o outside i e m m
      unfolding covered
      IsRight-leaf e read inside n keep a lo hi =
          let all : covered es a ≡ true =
            sym (covered-sub_map vstart vend a es lo hi) ∙ rw sub (rw (inside a lo hi)) in
          read a n
          ∙ rw all (
              ap ok (
                slot_offset level base i a (record {
                  aligned = b.aligned;
                  small = b.small;
                  index = b.index;
                  from = lo;
                  to = hi;
                })))

      -- The huge page is there, or it is written.
      pub row_huge :
          can_be_huge level allow vstart vend (first ∷ more) ≡ true
          → let e = generate_huge_entry hw level vstart first.1 in
            ((m.cell t i ≡ e) → Next m) × Next (record m { cell = write_cell m.cell t i e })
      row_huge c =
          let (deep, from, to) = huge_level level allow vstart vend first more shallow c in
          let inside = λ (a : ℕ) (lo : vstart ≤ a) (hi : a < vend).
            huge_inside vstart vend a first first-IsMapped from to lo hi in
          let page : IsPage vstart = record {
            aligned = (slot_aligned level base i b).1;
            physical = (inside vstart (omega arith) (at_start level vstart)).1;
          } in
          let (names, big) =
            generate_huge_entry-Names hw x vstart page first first-IsMapped level deep in
          let e : ℕ = generate_huge_entry hw level vstart first.1 in
          let right =
            IsRight-leaf e (reads hw level below e vstart names big)
              (λ a lo hi. (inside a lo hi).0) in
          (
            λ same. leave (
                subst (λ (w : ℕ). IsRight hw level below base t es s tree ts o outside i w m m)
                  (sym same) right),
            write e right,
          )

      -- The lowest level: the first range that meets the page.
      pub row_page :
          level ≡ pt
          → below ≡ none
          → Next (record m { cell = write_cell m.cell t i (page_entry hw vstart first.1) })
      row_page low no_walk =
          let size : entry_size level ≡ 4096 = ap entry_size low in
          let at = slot_aligned level base i b in
          let inside = λ (a : ℕ) (lo : vstart ≤ a) (hi : a < vend).
            page_inside vstart a first first-IsMapped at.1 (omega (arith, size))
              (subst (λ (k : ℕ). overlaps vstart (vstart + k) first ≡ true) size first_overlaps) lo
              (omega (arith, size)) in
          let page : IsPage vstart = record {
            aligned = at.1;
            physical = (inside vstart (omega arith) (at_start level vstart)).1;
          } in
          let f = first-IsMapped in
          let names = page_entry-Names hw x vstart page first.1 f.flags f.no_pat f.no_huge in
          write (page_entry hw vstart first.1) (
            IsRight-leaf (page_entry hw vstart first.1)
              (λ a n. rw no_walk (walk_page hw level _ a vstart n names))
              (λ a lo hi. (inside a lo hi).0))

      -- A table below, which now is right for the ranges of the slot, is linked.
      pub row_table :
          (walk : Walk) (child : ℕ) (m1 : Memory)
          → below ≡ some walk
          → level ≢ pt
          → IsPage child
          → Effect (o.own i) m m1
          → ((n : Memory)
              → ((p j : ℕ)
                  → (has p (o.own i) || given_out m m1 p) ≡ true
                  → n.cell p j ≡ m1.cell p j)
              → (a : ℕ) → vstart ≤ a
              → a < vend
              → walk child a n ≡ answer (first ∷ more) a)
          → Next (record m1 { cell = write_cell m1.cell t i (relay_entry hw level child) })
      row_table walk child m1 has_walk ne page effect translates =
          let (names, small) = relay_entry-Names hw x child page level ne in
          let e : ℕ = relay_entry hw level child in
          Changed-row hw level below base t es s tree ts o outside i e m m1
            (write_cell m1.cell t i e) b h effect (λ p j ne. ground arith) (λ j ne. ground arith)
            (ground arith)
            λ n keep a lo hi.
              rw has_walk (walk_relay hw level walk e a child n names small)
              ∙ translates n keep a lo hi
              ∙ ap (λ (c : Bool). if c then ok a else err absent)
                  (ap (λ l. covered l a) (sym sub) ∙ covered-sub_map vstart vend a es lo hi)
