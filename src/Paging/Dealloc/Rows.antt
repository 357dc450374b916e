-- ===== src/Paging/Dealloc/Rows.antt =====
-- src/memory/paging.rs: one round of the loop of `create_recursive`, by the tables that it takes.

use okots_os.Base.{
  ℕ, suc, ◌+◌, ◌≡◌, ◌≢◌, refl, sym, ap, subst, ◌∙◌, true, false, Option, none, some, List, [], ◌++◌,
  arith, append_assoc,
}
use okots_os.Paging.Hardware.{Hardware}
use okots_os.Paging.Table.{Memory}
use okots_os.Paging.Build.Frame.{has, Distinct}
use okots_os.Paging.Dealloc.{Dealloc}
use okots_os.Paging.Dealloc.Taken.{
  count, count-append, has-append, Distinct-append, entry_tables, count-entries, below_entries,
  Takes, Agree, Entered,
}

-- what one entry leads to
abbrev pub slot_tables : Hardware → Option Dealloc → (ℕ → ℕ → ℕ) → ℕ → List ℕ
slot_tables hw none cell e = []
slot_tables hw (some below) cell e = entry_tables hw below cell e

count-below_entries :
    (hw : Hardware) (below : Option Dealloc) (cell : ℕ → ℕ → ℕ) (t i p : ℕ)
    → count p (below_entries hw below cell t (i + 1))
      ≡ count p (below_entries hw below cell t i) + count p (slot_tables hw below cell (cell t i))
unfolding count
count-below_entries hw none cell t i p = omega arith
count-below_entries hw (some below) cell t i p =
    let e : i + 1 ≡ suc i = omega arith in
    let e' : 0 + i ≡ i = omega arith in rw e (count-entries hw below cell t 0 i p ∙ rw e' refl)

module _ (hw : Hardware) (below : Option Dealloc) (t : ℕ) (s : Memory)
    (distinct : Distinct s.supply) (fresh : has t s.supply ≡ false) where
  -- Round `i` has taken `child`, and leaves `e` as the entry, which leads to what it has taken.
  pub Entered-row :
      (i e : ℕ) (m m1 : Memory) (child : List ℕ) (c : ℕ → ℕ → ℕ)
      → Entered hw below t s i m
      → Takes m child m1
      → ((p j : ℕ) → p ≢ t → c p j ≡ m1.cell p j)
      → ((j : ℕ) → j ≢ i → c t j ≡ m1.cell t j)
      → c t i ≡ e
      → ((cell : ℕ → ℕ → ℕ)
          → Agree child cell m1.cell
          → (p : ℕ) → count p (slot_tables hw below cell e) ≡ count p child)
      → Entered hw below t s (i + 1) (record m1 { cell = c })
  Entered-row i e m m1 child c h k same row at right =
      let split : s.supply ≡ h.taken ++ (child ++ m1.supply) =
        h.supply ∙ ap (λ l. h.taken ++ l) k.supply in
      let supply : s.supply ≡ h.taken ++ child ++ m1.supply =
        split ∙ sym (append_assoc h.taken child m1.supply) in
      let apart : (p : ℕ) → has p h.taken ≡ true → has p child ≡ false = λ p hp. ground (
        arith,
        (Distinct-append h.taken (child ++ m1.supply) (subst Distinct split distinct)).1 p hp,
        has-append p child m1.supply,
      ) in
      let t_taken : has t h.taken ≡ false =
        ground (arith, ap (has t) split, fresh, has-append t h.taken (child ++ m1.supply)) in
      let t_child : has t child ≡ false = ground (
        arith,
        ap (has t) split,
        fresh,
        has-append t h.taken (child ++ m1.supply),
        has-append t child m1.supply,
      ) in
      let not_t : (p : ℕ) → (has p (h.taken ++ child) ≡ true) → p ≢ t = λ p hp e.
        ground (arith, ap (λ q. has q (h.taken ++ child)) e, has-append t h.taken child) in
      record {
        taken = h.taken ++ child;
        supply = supply;
        clear = λ j le. row j (omega arith) ∙ k.kept t j t_child ∙ h.clear j (omega arith);
        kept = λ p j ne out.
            same p j ne
            ∙ k.kept p j (ground (arith, has-append p h.taken child))
            ∙ h.kept p j ne (ground (arith, has-append p h.taken child));
        returns = λ cell agree line p.
            let old : count p (below_entries hw below cell t i) ≡ count p h.taken =
              h.returns cell
                (λ q j hq.
                  agree q j (ground (arith, has-append q h.taken child))
                  ∙ same q j (not_t q (ground (arith, has-append q h.taken child)))
                  ∙ k.kept q j (apart q hq))
                (λ j lt. line j (omega arith) ∙ row j (omega arith) ∙ k.kept t j t_child) p in
            let new : count p (slot_tables hw below cell (cell t i)) ≡ count p child =
              ap (λ w. count p (slot_tables hw below cell w)) (line i (omega arith) ∙ at)
              ∙ right cell
                  (λ q j hq.
                    agree q j (ground (arith, has-append q h.taken child))
                    ∙ same q j (not_t q (ground (arith, has-append q h.taken child))))
                  p in
            omega (
              arith,
              count-below_entries hw below cell t i p,
              old,
              new,
              count-append p h.taken child,
            );
      }
