-- ===== src/Paging/Update/Loop.antt =====
-- src/memory/paging.rs: the loop of `update_recursive`.
use okots_os.Base.{
  ℕ, ◌+◌, ◌*◌, ◌≡◌, ◌≢◌, refl, sym, subst, ◌∙◌, ap, ◌⊎◌, inl, inr, true, false, Option, none, some,
  List, ◌∷◌, All, arith, Bool-cases,
}
use okots_os.Paging.Normalize.{Entry}
use okots_os.Paging.Level.{PageLevel, pt, entry_size}
use okots_os.Paging.Hardware.{Hardware}
use okots_os.Paging.Table.{Memory}
use okots_os.Paging.Walk.{Walk}
use okots_os.Paging.Build.{sub_map, can_be_huge, relay_entry, Below}
use okots_os.Paging.Build.Slots.{IsMapped, IsBase, slot_aligned, All-sub_map}
use okots_os.Paging.Build.Frame.{has, IsSupply, Built}
use okots_os.Paging.Build.Step.{IsBuilder}
use okots_os.Paging.Update.{
  Updating, raw_present, raw_huge, raw_addr, and_then, store, with_memory, Change, put_table,
  put_slot,
}
use okots_os.Paging.Update.Owned.{Tree, IsTree, any_own, any_own-apart}
use okots_os.Paging.Update.Frame.{given_out, Updated}
use okots_os.Paging.Update.Row.{row_page, row_table}
use okots_os.Paging.Update.Call.{
  lowest, upper, Leaves, Leaves-and_then, Leaves-with_memory, IsUpdater, Storey, Call, all_pages,
  To, put_huge-To,
}

not_given :
    (m m1 : Memory) (p : ℕ)
    → given_out m m1 p ≡ false
    → (has p m.supply ≡ false) ⊎ (has p m1.supply ≡ true)
not_given m m1 p h = ground arith

module _ (hw : Hardware) (level allow : PageLevel) (base t : ℕ) (es : List Entry) (s : Memory)
    (tree : Tree) (ts : List ℕ) (k : Call hw allow t es s (some tree) ts) (walk : Walk) (i : ℕ)
    (b : IsBase level base i) (ne : level ≢ pt) (first : Entry) (more : List Entry)
    (sub : sub_map (base + i * entry_size level) (base + i * entry_size level + entry_size level) es
      ≡ first ∷ more) where
  abbrev start_of : ℕ
  start_of = base + i * entry_size level

  abbrev Linked : Unit {0} → Memory → Type 0
  Linked v m' = To hw level allow base t es s (some tree) ts k (some walk) (i + 1) m'

  sub-IsMapped : All IsMapped (first ∷ more)
  sub-IsMapped =
      subst (All IsMapped) sub
        (All-sub_map IsMapped start_of (start_of + entry_size level) es k.mapped)

  module _ (u : Updating)
      (h : To hw level allow base t es s (some tree) ts k (some walk) i u.memory) where
    left : IsSupply u.memory.supply
    left = record {
      distinct = h.shrinks.distinct;
      pages = λ p q. k.supply.pages p (h.shrinks.within p q);
    }

    -- The rounds before have not changed the tables below this entry.
    untouched : (p j : ℕ) → has p (k.owns.own i) ≡ true → u.memory.cell p j ≡ s.cell p j
    untouched p j q =
        let in_tree : has p ts ≡ true = k.owns.inside i p q in
        let fresh : given_out s u.memory p ≡ false = ground (arith, k.outside p in_tree) in
        elim (Bool-cases (any_own k.owns.own i p)) [
          | inl r ↦ absurd (
              ground
                (arith, q, (any_own-apart (some tree) s.cell t ts k.owns i i p (omega arith) r).1))
          | inr r ↦
              h.kept p j (λ e. ground (arith, ap (λ w. has w (k.owns.own i)) e, k.owns.not_t i))
                (ground (arith, fresh))
        ]

    -- The table that is there is changed.
    changed :
        (change : Change)
        → IsTree tree
        → IsUpdater walk tree change (entry_size level)
        → raw_present (u.memory.cell t i) ≡ true
        → raw_huge (u.memory.cell t i) ≡ false
        → let child = raw_addr (u.memory.cell t i) in
          Leaves Linked (
            and_then
              (change child start_of (first ∷ more) u)
              (λ v. store t i (relay_entry hw level child)))
    changed change is_tree updates present small =
        let at = slot_aligned level base i b in
        let same : u.memory.cell t i ≡ s.cell t i = h.line i (omega arith) in
        let child : ℕ = raw_addr (u.memory.cell t i) in
        let old : tree s.cell child (k.owns.own i) =
          subst (λ w. tree s.cell (raw_addr w) (k.owns.own i)) (sym same)
            (k.owns.subtree i (ap raw_present (sym same) ∙ present)
              (ap raw_huge (sym same) ∙ small)) in
        let now : tree u.memory.cell child (k.owns.own i) =
          is_tree.local s.cell u.memory.cell child (k.owns.own i) untouched old in
        let outside : (p : ℕ) → has p (k.owns.own i) ≡ true → has p u.memory.supply ≡ false =
          λ p q. ground (arith, k.outside p (k.owns.inside i p q), h.shrinks.within p) in
        Leaves-and_then
          (λ v m1.
            Updated walk start_of (entry_size level) (first ∷ more) u.memory child (k.owns.own i)
              m1)
          _ _ _
          (updates start_of child (first ∷ more) u (k.owns.own i) at.0 at.2 sub-IsMapped left now
            outside (λ p q. k.pages p (k.owns.inside i p q)))
          λ v u' done.
            row_table hw k.x k.raw level allow k.shallow base t es k.mapped s (some tree) ts k.owns
              k.outside (all_pages k) (some walk) i u.memory b h first more sub walk child u'.memory
              refl ne
              (k.pages child
                (k.owns.inside i child (is_tree.rooted s.cell child (k.owns.own i) old)))
              (done.shrinks, done.kept) done.translates

    -- A new table is made.
    created :
        (create : Below)
        → IsBuilder walk create (entry_size level)
        → Leaves Linked (
            and_then
              (with_memory u (create start_of (first ∷ more) u.memory))
              (λ next_ptr. store t i (relay_entry hw level next_ptr)))
    created create builds =
        let at = slot_aligned level base i b in
        Leaves-and_then
          (λ child m1. Built walk start_of (entry_size level) (first ∷ more) u.memory child m1) _ _
          _
          (Leaves-with_memory _ u (create start_of (first ∷ more) u.memory)
            (builds start_of (first ∷ more) u.memory at.0 at.2 sub-IsMapped left))
          λ child u' built.
            row_table hw k.x k.raw level allow k.shallow base t es k.mapped s (some tree) ts k.owns
              k.outside (all_pages k) (some walk) i u.memory b h first more sub walk child u'.memory
              refl ne (k.supply.pages child (h.shrinks.within child built.given))
              (
                record { within = built.shrinks; distinct = built.distinct },
                λ p j out out'. built.kept p j (not_given u.memory u'.memory p out'),
              )
              λ n keep a lo hi. built.translates n (λ p j q q'. keep p j (ground arith)) a lo hi

-- The loop, with `n` rounds left, and what stands below.
module _ (hw : Hardware) (level allow : PageLevel) (base t : ℕ) (es : List Entry) (s : Memory) where
  pub put_slot-To :
      {calls : Option (Change × Below)} {below : Option Walk} {tree : Option Tree}
      → Storey level calls below tree
      → (ts : List ℕ) (k : Call hw allow t es s tree ts) (i : ℕ) (b : IsBase level base i)
        (first : Entry) (more : List Entry) (u : Updating)
      → To hw level allow base t es s tree ts k below i u.memory
      → let start = base + i * entry_size level in
        sub_map start (start + entry_size level) es ≡ first ∷ more
        → Leaves
            (λ v m'. To hw level allow base t es s tree ts k below (i + 1) m')
            (put_slot hw level allow calls t i start (start + entry_size level) first more u)
  unfolding put_slot put_table
  put_slot-To (lowest low) ts k i b first more u h sub =
      let start : ℕ = base + i * entry_size level in
      elim (Bool-cases (can_be_huge level allow start (start + entry_size level) (first ∷ more))) [
        | inl c ↦
            rw c (put_huge-To hw level allow base t es s none ts k i b none u first more h sub c)
        | inr c ↦ rw c (
            row_page hw k.x k.raw level allow k.shallow base t es k.mapped s none ts k.owns
              k.outside (all_pages k) none i u.memory b h first more sub low refl)
      ]
  put_slot-To (upper {change} {create} {walk} {tree} ne is_tree updates builds) ts k i b first more
        u h sub =
      let start : ℕ = base + i * entry_size level in
      let e : ℕ = u.memory.cell t i in
      elim (Bool-cases (can_be_huge level allow start (start + entry_size level) (first ∷ more))) [
        | inl c ↦ rw c (
            put_huge-To hw level allow base t es s (some tree) ts k i b (some walk) u first more h
              sub c)
        | inr c ↦ elim (Bool-cases (raw_present e)) [
          | inr q ↦
              rw (c, q)
                (created hw level allow base t es s tree ts k walk i b ne first more sub u h create
                  builds)
          | inl q ↦ elim (Bool-cases (raw_huge e)) [
            | inl r ↦
                rw (c, q, r)
                  (created hw level allow base t es s tree ts k walk i b ne first more sub u h
                    create builds)
            | inr r ↦
                rw (c, q, r)
                  (changed hw level allow base t es s tree ts k walk i b ne first more sub u h
                    change is_tree updates q r)
          ]
        ]
      ]
