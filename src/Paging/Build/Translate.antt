-- ===== src/Paging/Build/Translate.antt =====
-- src/memory/paging.rs: the walk through the tables that `create_recursive` builds.
use okots_os.Base.{
  ℕ, ◌+◌, ◌*◌, ◌%◌, ◌≤◌, ◌<◌, ◌≡◌, ◌≢◌, refl, sym, ◌∙◌, ap, ◌⊎◌, inl, true, false, Option, none,
  some, List, [], arith,
}
use native.Mathlib.Decide.{dec_lt}
use okots_os.Errors.{ok, err}
use okots_os.Paging.Normalize.{Entry}
use okots_os.Paging.Level.{PageLevel, entry_size}
use okots_os.Paging.Hardware.{Hardware, IsX86}
use okots_os.Paging.Table.{Memory, write_cell}
use okots_os.Paging.Walk.{Walk, absent, walk_with, walk_entry}
use okots_os.Paging.Build.{sub_map}
use okots_os.Paging.Build.Slots.{
  covered, InSlot, IsBase, get_index_slot, slot_offset, covered-sub_map,
}
use okots_os.Paging.Build.Entries.{Names}
use okots_os.Paging.Build.Frame.{has, answer, Built, Filled}

module _ (hw : Hardware) where
  -- the walk stops at an absent entry, and at a page
  pub walk_absent :
      (level : PageLevel) (below : Option Walk) (a : ℕ) (n : Memory)
      → IsX86 hw
      → walk_entry hw level below 0 a n ≡ err absent
  unfolding walk_entry
  walk_absent level below a n x = rw x.zero_absent

  pub walk_page :
      (level : PageLevel) (e a page : ℕ) (n : Memory)
      → Names hw e page
      → walk_entry hw level none e a n ≡ ok (page + a % entry_size level)
  unfolding walk_entry
  walk_page level e a page n names = rw (names.present, names.address)

  pub walk_huge :
      (level : PageLevel) (w : Walk) (e a page : ℕ) (n : Memory)
      → Names hw e page
      → hw.is_huge e ≡ true
      → walk_entry hw level (some w) e a n ≡ ok (page + a % entry_size level)
  unfolding walk_entry
  walk_huge level w e a page n names big = rw (names.present, big, names.address)

  pub walk_relay :
      (level : PageLevel) (w : Walk) (e a table : ℕ) (n : Memory)
      → Names hw e table
      → hw.is_huge e ≡ false
      → walk_entry hw level (some w) e a n ≡ w table a n
  unfolding walk_entry
  walk_relay level w e a table n names small = rw (names.present, small, names.address)

  module _ (level : PageLevel) (below : Option Walk) (base t : ℕ) (es : List Entry) (s : Memory)
      (fresh : has t s.supply ≡ false) where
    abbrev pub FilledTo : ℕ → Memory → Type 0
    FilledTo i m = Filled (walk_with hw level below) (entry_size level) base es t s i m

    -- Round `i` ends with `e` as entry `i`, if the walk through it is right in the slot.
    abbrev pub IsRight : ℕ → ℕ → Memory → Type 0
    IsRight i e m =
        (a : ℕ)
        → base + i * entry_size level ≤ a
        → a < base + i * entry_size level + entry_size level
        → (n : Memory)
        → ((p j : ℕ) → has p s.supply ≡ true → has p m.supply ≡ false → n.cell p j ≡ m.cell p j)
        → walk_entry hw level below e a n ≡ answer es a

    Filled-row :
        (i e : ℕ) (m : Memory) (c : ℕ → ℕ → ℕ)
        → IsBase level base i
        → FilledTo i m
        → ((p j : ℕ) → p ≢ t → c p j ≡ m.cell p j)
        → ((j : ℕ) → j ≢ i → c t j ≡ m.cell t j)
        → c t i ≡ e
        → IsRight i e m
        → FilledTo (i + 1) (record m { cell = c })
    unfolding walk_with
    Filled-row i e m c b h same row new right = record {
      shrinks = h.shrinks;
      distinct = h.distinct;
      kept = λ p j ne k. same p j ne ∙ h.kept p j ne k;
      clear = λ j k. row j (omega arith) ∙ h.clear j (omega arith);
      translates = λ n keep line a lo hi. walk n keep line a lo hi;
    }
      where
        other : (p : ℕ) → has p s.supply ≡ true → p ≢ t
        other p k e = cc (ap (λ q. has q s.supply) e)

        walk :
            (n : Memory)
            → ((p j : ℕ) → has p s.supply ≡ true → has p m.supply ≡ false → n.cell p j ≡ c p j)
            → ((j : ℕ) → j < i + 1 → n.cell t j ≡ c t j)
            → (a : ℕ) → base ≤ a
            → a < base + (i + 1) * entry_size level
            → walk_with hw level below t a n ≡ answer es a
        walk n keep line a lo hi = elim (dec_lt a (base + i * entry_size level)) [
          | yes early ↦
              h.translates n (λ p j k l. keep p j k l ∙ same p j (other p k))
                (λ j k. line j (omega arith) ∙ row j (omega arith)) a lo early
          | no late ↦
              let from : base + i * entry_size level ≤ a = omega arith in
              let to : a < base + i * entry_size level + entry_size level = omega arith in
              let slot : InSlot level base i a = record {
                aligned = b.aligned;
                small = b.small;
                index = b.index;
                from = from;
                to = to;
              } in
              ap (λ (w : ℕ). walk_entry hw level below w a n)
                (ap (n.cell t) (get_index_slot level base i a slot) ∙ line i (omega arith) ∙ new)
              ∙ right a from to n (λ p j k l. keep p j k l ∙ same p j (other p k))
        ]

    -- A stored entry.
    pub Filled-store :
        (i e : ℕ) (m : Memory)
        → IsBase level base i
        → FilledTo i m
        → IsRight i e m
        → FilledTo (i + 1) (record m { cell = write_cell m.cell t i e })
    Filled-store i e m b h right =
        Filled-row i e m (write_cell m.cell t i e) b h (λ p j ne. ground arith)
          (λ j ne. ground arith) (ground arith) right

    -- A slot that no range meets is left at zero.
    pub Filled-skip :
        (i : ℕ) (m : Memory)
        → IsBase level base i
        → FilledTo i m
        → IsRight i 0 m
        → FilledTo (i + 1) m
    Filled-skip i m b h right =
        Filled-row i 0 m m.cell b h (λ p j ne. refl) (λ j ne. refl) (h.clear i (omega arith)) right

    -- A table that is built in between, out of what is left of the supply.
    pub Filled-child :
        (i : ℕ) (m m' : Memory) (walk : Walk) (from span child : ℕ) (sub : List Entry)
        → FilledTo i m
        → Built walk from span sub m child m'
        → FilledTo i m'
    Filled-child i m m' walk from span child sub h c = record {
      shrinks = λ p k. h.shrinks p (c.shrinks p k);
      distinct = c.distinct;
      kept = λ p j ne k. c.kept p j (unused p k) ∙ h.kept p j ne (unused_before p k);
      clear = λ j k. at_table j ∙ h.clear j k;
      translates = λ n keep line a lo hi.
          h.translates n (λ p j k l. keep p j k (later p l) ∙ c.kept p j (inl l))
            (λ j k. line j k ∙ at_table j) a lo hi;
    }
      where
        unused :
            (p : ℕ)
            → (has p s.supply ≡ false) ⊎ (has p m'.supply ≡ true)
            → (has p m.supply ≡ false) ⊎ (has p m'.supply ≡ true)
        unused p k = ground (arith, h.shrinks p)

        unused_before :
            (p : ℕ)
            → (has p s.supply ≡ false) ⊎ (has p m'.supply ≡ true)
            → (has p s.supply ≡ false) ⊎ (has p m.supply ≡ true)
        unused_before p k = ground (arith, c.shrinks p)

        later : (p : ℕ) → has p m.supply ≡ false → has p m'.supply ≡ false
        later p k = ground (arith, c.shrinks p)

        at_table : (j : ℕ) → m'.cell t j ≡ m.cell t j
        at_table j = c.kept t j (inl (ground (arith, h.shrinks t)))

    abbrev pub start_of : ℕ → ℕ
    start_of i = base + i * entry_size level

    -- An entry that maps the whole slot.
    pub IsRight-leaf :
        (i e : ℕ) (m : Memory)
        → IsBase level base i
        → ((a : ℕ) (n : Memory)
            → walk_entry hw level below e a n ≡ ok (start_of i + a % entry_size level))
        → ((a : ℕ) → start_of i ≤ a → a < start_of i + entry_size level → covered es a ≡ true)
        → IsRight i e m
    IsRight-leaf i e m b reads all a lo hi n keep =
        reads a n
        ∙ rw (all a lo hi) (
            ap ok (
              slot_offset level base i a (record {
                aligned = b.aligned;
                small = b.small;
                index = b.index;
                from = lo;
                to = hi;
              })))

    -- The entry of a slot that no range meets.
    pub IsRight-absent :
        (i : ℕ) (m : Memory)
        → ((a : ℕ) (n : Memory) → walk_entry hw level below 0 a n ≡ err absent)
        → sub_map (start_of i) (start_of i + entry_size level) es ≡ []
        → IsRight i 0 m
    unfolding covered
    IsRight-absent i m reads none_meets a lo hi n keep =
        let off : covered es a ≡ false =
          sym (covered-sub_map (start_of i) (start_of i + entry_size level) a es lo hi)
          ∙ ap (λ l. covered l a) none_meets in
        reads a n ∙ rw off
