-- ===== src/Paging/Update/Levels.antt =====
-- src/memory/paging.rs: `update_recursive`, with the levels on top of one another.
use okots_os.Base.{
  ℕ, zero, suc, ◌+◌, ◌*◌, ◌%◌, ◌^◌, ◌≤◌, ◌≡◌, refl, sym, subst, ◌∙◌, ap, true, false, ◌||◌, Option,
  none, some, List, [], ◌∷◌, arith, Bool-cases, inl, inr,
}
use okots_os.Paging.Normalize.{Entry}
use okots_os.Paging.Level.{PageLevel, pt, pd, pdpt, pml4, pml5, rank, entry_size}
use okots_os.Paging.Hardware.{Hardware, IsX86}
use okots_os.Paging.Table.{Memory}
use okots_os.Paging.Walk.{Walk, walk_with, walk_pt, walk_pd, walk_pdpt, walk_pml4, walk_pml5}
use okots_os.Paging.Build.{sub_map, Below}
use okots_os.Paging.Build.Slots.{IsBase, slot_start, slot_end}
use okots_os.Paging.Build.Frame.{has}
use okots_os.Paging.Build.Loop.{pt-IsBuilder, pd-IsBuilder, pdpt-IsBuilder, pml4-IsBuilder}
use okots_os.Paging.Update.{
  Updating, Change, put_ranges, put_index, put_from, count_fragment, is_fragment, update_with,
  update_pt, update_pd, update_pdpt, update_pml4, update_pml5, raw_present, raw_huge, raw_addr,
}
use okots_os.Paging.Update.Owned.{IsRaw, Tree, IsTree, Subtree, Owns, any_own, any_own-apart}
use okots_os.Paging.Update.Frame.{given_out, Updated, touched}
use okots_os.Paging.Update.Loop.{put_slot-To}
use okots_os.Paging.Update.Call.{
  Leaves, Leaves-and_then, IsUpdater, Storey, Call, To, clear_slot-To, lowest, upper,
}

module _ (hw : Hardware) (level allow : PageLevel) (base t : ℕ) (es : List Entry) (s : Memory)
    {calls : Option (Change × Below)} {below : Option Walk} {tree : Option Tree}
    (st : Storey level calls below tree) (ts : List ℕ) (k : Call hw allow t es s tree ts) where
  abbrev At : ℕ → Memory → Type 0
  At i m = To hw level allow base t es s tree ts k below i m

  put_ranges-To :
      (i : ℕ) (b : IsBase level base i) (l : List Entry) (u : Updating)
      → At i u.memory
      → let start = base + i * entry_size level in
        sub_map start (start + entry_size level) es ≡ l
        → Leaves
            (λ v m'. At (i + 1) m')
            (put_ranges hw level allow calls t i start (start + entry_size level) l u)
  unfolding put_ranges
  put_ranges-To i b [] u h sub =
      clear_slot-To hw level allow base t es s tree ts k i b below u h sub
  put_ranges-To i b (first ∷ more) u h sub =
      put_slot-To hw level allow base t es s st ts k i b first more u h sub

  put_index-To :
      (i : ℕ)
      → IsBase level base i
      → (u : Updating) → At i u.memory
      → Leaves (λ v m'. At (i + 1) m') (put_index hw level allow calls t base es i u)
  unfolding put_index
  put_index-To i b u h =
      let start : ℕ = base + i * entry_size level in
      rw (slot_start level base i b, slot_end level base i b)
        (put_ranges-To i b (sub_map start (start + entry_size level) es) u h refl)

  -- `n` rounds from index `i` on
  put_from-To :
      base % (512 * entry_size level) ≡ 0
      → base + 512 * entry_size level ≤ 2 ^ 60
      → (n i : ℕ) (u : Updating) → i + n ≡ 512
      → At i u.memory
      → Leaves (λ v m'. At 512 m') (put_from hw level allow calls t base es i n u)
  unfolding put_from
  put_from-To al sm zero i u e h =
      let e' : i ≡ 512 = omega arith in subst (λ (j : ℕ). At j u.memory) e' h
  put_from-To al sm (suc n) i u e h =
      Leaves-and_then (λ v m'. At (i + 1) m') _ (put_index hw level allow calls t base es i u)
        (λ v. put_from hw level allow calls t base es (i + 1) n)
        (put_index-To i (record { aligned = al; small = sm; index = omega arith }) u h)
        λ v u' h'. put_from-To al sm n (i + 1) u' (omega arith) h'

  -- Before the loop nothing is done.
  At-start : At 0 s
  At-start = record {
    shrinks = record { within = λ p q. q; distinct = k.supply.distinct };
    kept = λ p j ne q. refl;
    line = λ j le. refl;
    translates = λ n keep line a lo hi. absurd (omega arith);
  }

  -- After it all is.
  At-end :
      (m : Memory)
      → At 512 m
      → Updated (walk_with hw level below) base (512 * entry_size level) es s t ts m
  At-end m h = record {
    shrinks = h.shrinks;
    kept = λ p j out out'.
        h.kept p j (λ e. ground (arith, ap (λ q. has q ts) e, k.owns.head)) (no_own p out out');
    translates = λ n keep a lo hi.
        h.translates n (λ p j q. keep p j (in_tree p q))
          (λ j lt. keep t j (ground (arith, k.owns.head))) a lo hi;
  }
    where
      no_own :
          (p : ℕ)
          → has p ts ≡ false
          → given_out s m p ≡ false
          → touched k.owns.own s 512 m p ≡ false
      no_own p out out' = elim (Bool-cases (any_own k.owns.own 512 p)) [
        | inl q ↦ absurd (
            ground
              (arith, out, (any_own-apart tree s.cell t ts k.owns 512 512 p (omega arith) q).0))
        | inr q ↦ ground (arith, q, out')
      ]

      in_tree : (p : ℕ) → touched k.owns.own s 512 m p ≡ true → (has p ts || given_out s m p) ≡ true
      in_tree p q = elim (Bool-cases (any_own k.owns.own 512 p)) [
        | inl r ↦
            ground (arith, (any_own-apart tree s.cell t ts k.owns 512 512 p (omega arith) r).0)
        | inr r ↦ ground (arith, q, r)
      ]

-- Counting a fragment changes no memory.
count-memory :
    (level allow : PageLevel) (t : ℕ) (P : Memory → Type 0) (u : Updating)
    → P u.memory
    → Leaves (λ v m. P m) (count_fragment level allow t u)
count-memory level allow t P u h = elim (Bool-cases (is_fragment level allow (u.memory.cell t))) [
  | inl e ↦ rw e h
  | inr e ↦ rw e h
]

module _ (hw : Hardware) (x : IsX86 hw) (raw : IsRaw hw) (allow : PageLevel)
    (shallow : rank allow ≤ 2) where
  Storey-IsUpdater :
      (level : PageLevel) {calls : Option (Change × Below)} {below : Option Walk}
      {tree : Option Tree}
      → Storey level calls below tree
      → IsUpdater
          (walk_with hw level below)
          (Owns tree)
          (update_with hw level allow calls)
          (512 * entry_size level)
  unfolding update_with
  Storey-IsUpdater level {calls} {below} {tree} st base t es u ts al sm mp su o outside pages =
      let k : Call hw allow t es u.memory tree ts = record {
        x = x;
        raw = raw;
        shallow = shallow;
        mapped = mp;
        supply = su;
        owns = o;
        outside = outside;
        pages = pages;
      } in
      Leaves-and_then (λ v m'. At hw level allow base t es u.memory st ts k 512 m') _
        (put_from hw level allow calls t base es 0 512 u) (λ v. count_fragment level allow t)
        (put_from-To hw level allow base t es u.memory st ts k al sm 512 0 u refl
          (At-start hw level allow base t es u.memory st ts k))
        λ v u' h.
          count-memory level allow t
            (Updated (walk_with hw level below) base (512 * entry_size level) es u.memory t ts) u'
            (At-end hw level allow base t es u.memory st ts k u'.memory h)

-- the trees of each level: the tables below are trees of the level below
abbrev pub tree_pt : Tree
tree_pt = Owns none

abbrev pub tree_pd : Tree
tree_pd = Owns (some tree_pt)

abbrev pub tree_pdpt : Tree
tree_pdpt = Owns (some tree_pd)

abbrev pub tree_pml4 : Tree
tree_pml4 = Owns (some tree_pdpt)

abbrev pub tree_pml5 : Tree
tree_pml5 = Owns (some tree_pml4)

-- what is below a level depends on its own tables only
abbrev IsLocalBelow : Option Tree → Type 0
IsLocalBelow below =
    (cell cell' : ℕ → ℕ → ℕ) (e : ℕ) (ts : List ℕ)
    → ((p j : ℕ) → has p ts ≡ true → cell' p j ≡ cell p j)
    → Subtree below cell e ts
    → Subtree below cell' e ts

Owns-IsTree : (below : Option Tree) → IsLocalBelow below → IsTree (Owns below)
Owns-IsTree below local = record {
  local = λ cell cell' t ts same o. record {
    own = o.own;
    head = o.head;
    inside = o.inside;
    not_t = o.not_t;
    apart = o.apart;
    subtree = λ i present small.
        let e : cell' t i ≡ cell t i = same t i o.head in
        local cell cell' (cell' t i) (o.own i) (λ p j q. same p j (o.inside i p q))
          (subst (λ w. Subtree below cell w (o.own i)) (sym e)
            (o.subtree i (ap raw_present (sym e) ∙ present) (ap raw_huge (sym e) ∙ small)));
  };
  rooted = λ cell t ts o. o.head;
}

pt-IsTree : IsTree tree_pt
pt-IsTree = Owns-IsTree none (λ cell cell' e ts same o. o)

-- One level more.
upper-IsTree : (tree : Tree) → IsTree tree → IsTree (Owns (some tree))
upper-IsTree tree h =
    Owns-IsTree (some tree) (λ cell cell' e ts same o. h.local cell cell' (raw_addr e) ts same o)

module _ (hw : Hardware) (x : IsX86 hw) (raw : IsRaw hw) (allow : PageLevel)
    (shallow : rank allow ≤ 2) where
  pt-IsUpdater : IsUpdater (walk_pt hw) tree_pt (update_pt hw allow) (2 ^ 21)
  unfolding walk_pt update_pt
  pt-IsUpdater = Storey-IsUpdater hw x raw allow shallow pt (lowest refl)

  pd-IsUpdater : IsUpdater (walk_pd hw) tree_pd (update_pd hw allow) (2 ^ 30)
  unfolding walk_pd update_pd
  pd-IsUpdater =
      Storey-IsUpdater hw x raw allow shallow pd
        (upper (λ e. ground arith) pt-IsTree pt-IsUpdater (pt-IsBuilder hw x allow shallow))

  pdpt-IsUpdater : IsUpdater (walk_pdpt hw) tree_pdpt (update_pdpt hw allow) (2 ^ 39)
  unfolding walk_pdpt update_pdpt
  pdpt-IsUpdater = Storey-IsUpdater hw x raw allow shallow pdpt (
      upper (λ e. ground arith) (upper-IsTree tree_pt pt-IsTree) pd-IsUpdater
        (pd-IsBuilder hw x allow shallow))

  pub pml4-IsUpdater : IsUpdater (walk_pml4 hw) tree_pml4 (update_pml4 hw allow) (2 ^ 48)
  unfolding walk_pml4 update_pml4
  pml4-IsUpdater = Storey-IsUpdater hw x raw allow shallow pml4 (
      upper (λ e. ground arith) (upper-IsTree tree_pd (upper-IsTree tree_pt pt-IsTree))
        pdpt-IsUpdater (pdpt-IsBuilder hw x allow shallow))

  pub pml5-IsUpdater : IsUpdater (walk_pml5 hw) tree_pml5 (update_pml5 hw allow) (2 ^ 57)
  unfolding walk_pml5 update_pml5
  pml5-IsUpdater = Storey-IsUpdater hw x raw allow shallow pml5 (
      upper (λ e. ground arith)
        (upper-IsTree tree_pdpt (upper-IsTree tree_pd (upper-IsTree tree_pt pt-IsTree)))
        pml4-IsUpdater (pml4-IsBuilder hw x allow shallow))
