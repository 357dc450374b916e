-- ===== src/Paging/Update/Frame.antt =====
-- src/memory/paging.rs: what a call of `update_recursive` may touch, and what it leaves behind.
use okots_os.Base.{
  ℕ, ◌+◌, ◌*◌, ◌≤◌, ◌<◌, ◌≡◌, ◌≢◌, ap, ◌∙◌, Bool, true, false, ◌||◌, ◌&&◌, not, Option, List, arith,
  inl, inr, Bool-cases,
}
use native.Mathlib.Decide.{dec_lt}
use okots_os.Paging.Normalize.{Entry}
use okots_os.Paging.Level.{PageLevel, entry_size}
use okots_os.Paging.Hardware.{Hardware}
use okots_os.Paging.Table.{Memory}
use okots_os.Paging.Walk.{Walk, walk_with, walk_entry}
use okots_os.Paging.Build.Slots.{InSlot, IsBase, get_index_slot}
use okots_os.Paging.Build.Frame.{has, Distinct, answer}
use okots_os.Paging.Update.Owned.{Tree, Owns, any_own, any_own-next, any_own-apart, any_own-not_t}

-- a table that was given out between two memories
abbrev pub given_out : Memory → Memory → ℕ → Bool
given_out m m' p = has p m.supply && not (has p m'.supply)

-- The supply of a memory comes from that of an earlier one.
pub record Shrinks (m m' : Memory) : Type 0 where
  pub within : (p : ℕ) → has p m'.supply ≡ true → has p m.supply ≡ true
  pub distinct : Distinct m'.supply

-- A call that began in `m` has ended in `m'`, on the table `t` with the tables `ts`. `translates`
-- holds in any later memory that keeps these and what the call has taken.
pub record Updated (walk : Walk) (base span : ℕ) (es : List Entry) (m : Memory) (t : ℕ)
    (ts : List ℕ) (m' : Memory) : Type 0 where
  pub shrinks : Shrinks m m'
  pub kept : (p j : ℕ) → has p ts ≡ false → given_out m m' p ≡ false → m'.cell p j ≡ m.cell p j
  pub translates :
      (n : Memory)
      → ((p j : ℕ) → (has p ts || given_out m m' p) ≡ true → n.cell p j ≡ m'.cell p j)
      → (a : ℕ) → base ≤ a
      → a < base + span
      → walk t a n ≡ answer es a

-- the tables that the rounds before `i` have changed or taken
abbrev pub touched : (ℕ → List ℕ) → Memory → ℕ → Memory → ℕ → Bool
touched own s i m p = any_own own i p || given_out s m p

-- The loop that began in `s` with the table `t` has done the indices below `i`.
pub record Changed (walk : Walk) (size base : ℕ) (es : List Entry) (t : ℕ) (own : ℕ → List ℕ)
    (s : Memory) (i : ℕ) (m : Memory) : Type 0 where
  pub shrinks : Shrinks s m
  pub kept : (p j : ℕ) → p ≢ t → touched own s i m p ≡ false → m.cell p j ≡ s.cell p j
  pub line : (j : ℕ) → i ≤ j → m.cell t j ≡ s.cell t j
  pub translates :
      (n : Memory)
      → ((p j : ℕ) → touched own s i m p ≡ true → n.cell p j ≡ m.cell p j)
      → ((j : ℕ) → j < i → n.cell t j ≡ m.cell t j)
      → (a : ℕ) → base ≤ a
      → a < base + i * size
      → walk t a n ≡ answer es a

-- what round `i` may change besides the entry
abbrev pub Effect : List ℕ → Memory → Memory → Type 0
Effect own m m1 =
    Shrinks m m1
    × ((p j : ℕ) → has p own ≡ false → given_out m m1 p ≡ false → m1.cell p j ≡ m.cell p j)

module _ (hw : Hardware) (level : PageLevel) (below : Option Walk) (base t : ℕ) (es : List Entry)
    (s : Memory) (tree : Option Tree) (ts : List ℕ) (o : Owns tree s.cell t ts)
    (outside : (p : ℕ) → has p ts ≡ true → has p s.supply ≡ false) where
  abbrev pub ChangedTo : ℕ → Memory → Type 0
  ChangedTo i m = Changed (walk_with hw level below) (entry_size level) base es t o.own s i m

  -- The walk through `e` is right in slot `i`, while what the round has touched is kept.
  abbrev pub IsRight : ℕ → ℕ → Memory → Memory → Type 0
  IsRight i e m m1 =
      (n : Memory)
      → ((p j : ℕ) → (has p (o.own i) || given_out m m1 p) ≡ true → n.cell p j ≡ m1.cell p j)
      → (a : ℕ) → base + i * entry_size level ≤ a
      → a < base + i * entry_size level + entry_size level
      → walk_entry hw level below e a n ≡ answer es a

  pub Changed-row :
      (i e : ℕ) (m m1 : Memory) (c : ℕ → ℕ → ℕ)
      → IsBase level base i
      → ChangedTo i m
      → Effect (o.own i) m m1
      → ((p j : ℕ) → p ≢ t → c p j ≡ m1.cell p j)
      → ((j : ℕ) → j ≢ i → c t j ≡ m1.cell t j)
      → c t i ≡ e
      → IsRight i e m m1
      → ChangedTo (i + 1) (record m1 { cell = c })
  unfolding walk_with
  Changed-row i e m m1 c b h (shr, eff) same row new right = record {
    shrinks = record {
      within = λ p k. h.shrinks.within p (shr.within p k);
      distinct = shr.distinct;
    };
    kept = λ p j ne k.
        same p j ne
        ∙ eff p j (ground (arith, any_own-next o.own i p))
            (ground (arith, any_own-next o.own i p, h.shrinks.within p))
        ∙ h.kept p j ne (ground (arith, any_own-next o.own i p, shr.within p));
    line = λ j le. row j (omega arith) ∙ at_t j ∙ h.line j (omega arith);
    translates = λ n keep line a lo hi. walk n keep line a lo hi;
  }
    where
      t_outside : has t s.supply ≡ false
      t_outside = outside t o.head

      at_t : (j : ℕ) → m1.cell t j ≡ m.cell t j
      at_t j = eff t j (o.not_t i) (ground (arith, t_outside, h.shrinks.within t))

      not_t_before : (p : ℕ) → touched o.own s i m p ≡ true → p ≢ t
      not_t_before p k e =
          ground (
            arith,
            ap (λ q. touched o.own s i m q) e,
            any_own-not_t tree s.cell t ts o i,
            t_outside,
          )

      not_t_now : (p : ℕ) → (has p (o.own i) || given_out m m1 p) ≡ true → p ≢ t
      not_t_now p k e = ground (
        arith,
        ap (λ q. has q (o.own i) || given_out m m1 q) e,
        o.not_t i,
        t_outside,
        h.shrinks.within t,
      )

      before_kept : (p j : ℕ) → touched o.own s i m p ≡ true → m1.cell p j ≡ m.cell p j
      before_kept p j k = elim (Bool-cases (any_own o.own i p)) [
        | inl q ↦
            let (in_tree, not_i) = any_own-apart tree s.cell t ts o i i p (omega arith) q in
            eff p j not_i (ground (arith, outside p in_tree, h.shrinks.within p))
        | inr q ↦ elim (Bool-cases (has p (o.own i))) [
          | inl r ↦ absurd (ground (arith, outside p (o.inside i p r)))
          | inr r ↦ eff p j r (ground arith)
        ]
      ]

      walk :
          (n : Memory)
          → ((p j : ℕ) → touched o.own s (i + 1) m1 p ≡ true → n.cell p j ≡ c p j)
          → ((j : ℕ) → j < i + 1 → n.cell t j ≡ c t j)
          → (a : ℕ) → base ≤ a
          → a < base + (i + 1) * entry_size level
          → walk_with hw level below t a n ≡ answer es a
      walk n keep line a lo hi = elim (dec_lt a (base + i * entry_size level)) [
        | yes early ↦
            h.translates n
              (λ p j k.
                keep p j (ground (arith, any_own-next o.own i p, shr.within p))
                ∙ same p j (not_t_before p k)
                ∙ before_kept p j k)
              (λ j k. line j (omega arith) ∙ row j (omega arith) ∙ at_t j) a lo early
        | no late ↦
            let from : base + i * entry_size level ≤ a = omega arith in
            let to : a < base + i * entry_size level + entry_size level = omega arith in
            let slot : InSlot level base i a = record {
              aligned = b.aligned;
              small = b.small;
              index = b.index;
              from = from;
              to = to;
            } in
            ap (λ (w : ℕ). walk_entry hw level below w a n)
              (ap (n.cell t) (get_index_slot level base i a slot) ∙ line i (omega arith) ∙ new)
            ∙ right n
                (λ p j k.
                  keep p j (ground (arith, any_own-next o.own i p, h.shrinks.within p))
                  ∙ same p j (not_t_now p k))
                a from to
      ]
