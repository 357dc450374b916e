-- ===== src/Paging/Dealloc/Returned.antt =====
-- src/memory/paging.rs: at each level, what `create_recursive` has taken is what `dealloc_recursive`
-- gives back.
use okots_os.Base.{
  ℕ, ◌+◌, ◌*◌, ◌%◌, ◌^◌, ◌≤◌, ◌≡◌, refl, ap, ◌∙◌, false, Option, none, some, List, [], ◌∷◌, ==_iff,
  arith, All,
}
use okots_os.Errors.{Result, ok}
use okots_os.Paging.Normalize.{Entry}
use okots_os.Paging.Level.{PageLevel, pt, pd, pdpt, pml4, pml5, rank, entry_size}
use okots_os.Paging.Hardware.{Hardware, IsX86}
use okots_os.Paging.Table.{Memory, zero_table}
use okots_os.Paging.Build.{
  fill_from, create_with, create_pt, create_pd, create_pdpt, create_pml4, create_pml5,
}
use okots_os.Paging.Build.Slots.{IsMapped}
use okots_os.Paging.Build.Frame.{has, IsSupply, Outcome, Outcome-and_then}
use okots_os.Paging.Dealloc.{
  Dealloc, dealloc_entries, dealloc_with, dealloc_pt, dealloc_pd, dealloc_pdpt, dealloc_pml4,
  dealloc_pml5,
}
use okots_os.Paging.Dealloc.Taken.{
  count, count-append, has-append, below_entries, Returned, Entered,
}
use okots_os.Paging.Dealloc.Slots.{IsReturner, Storey, lowest, upper, fill_from-Entered}

-- The loop begins on a table of zeros, and has taken nothing.
Entered-start :
    (hw : Hardware) (below : Option Dealloc) (t : ℕ) (s : Memory)
    → ((j : ℕ) → s.cell t j ≡ 0)
    → Entered hw below t s 0 s
unfolding dealloc_entries
Entered-start hw none t s z = record {
  taken = [];
  supply = refl;
  clear = λ j le. z j;
  kept = λ p j ne out. refl;
  returns = λ cell agree line p. refl;
}
Entered-start hw (some below) t s z = record {
  taken = [];
  supply = refl;
  clear = λ j le. z j;
  kept = λ p j ne out. refl;
  returns = λ cell agree line p. refl;
}

count-dealloc_with :
    (hw : Hardware) (below : Option Dealloc) (cell : ℕ → ℕ → ℕ) (t p : ℕ)
    → count p (dealloc_with hw below cell t)
      ≡ count p (below_entries hw below cell t 512) + count p (t ∷ [])
unfolding dealloc_with count
count-dealloc_with hw none cell t p = omega arith
count-dealloc_with hw (some below) cell t p =
    count-append p (dealloc_entries hw below cell t 0 512) (t ∷ [])

-- At the end the table itself is one more.
Returned-end :
    (hw : Hardware) (below : Option Dealloc) (t : ℕ) (rest freed : List ℕ) (c : ℕ → ℕ → ℕ)
    (m' : Memory)
    → has t rest ≡ false
    → Entered hw below t (record { cell = zero_table c t; supply = rest; freed = freed }) 512 m'
    → Returned (dealloc_with hw below) (record { cell = c; supply = t ∷ rest; freed = freed }) t m'
unfolding count
Returned-end hw below t rest freed c m' fr h =
    let t_taken : has t h.taken ≡ false =
      ground (arith, fr, ap (has t) h.supply, has-append t h.taken m'.supply) in
    record {
      taken = t ∷ h.taken;
      takes = record {
        supply = ap (λ l. t ∷ l) h.supply;
        kept = λ p j out.
            h.kept p j (λ e. ground (arith, (==_iff p t).1 e)) (ground arith) ∙ ground arith;
      };
      own = ground arith;
      returns = λ cell agree p.
          let old =
            h.returns cell (λ q j k. agree q j (ground arith)) (λ j lt. agree t j (ground arith))
              p in
          omega (arith, count-dealloc_with hw below cell t p, old);
    }

create_with-Returned :
    (hw : Hardware)
    → IsX86 hw
    → (level allow : PageLevel) → rank allow ≤ 2
    → {create : Option (ℕ → List Entry → Memory → Result ℕ × Memory)} {below : Option Dealloc}
    → Storey level create below
    → (base : ℕ) (es : List Entry) (c : ℕ → ℕ → ℕ) (supply freed : List ℕ)
    → base % (512 * entry_size level) ≡ 0
    → base + 512 * entry_size level ≤ 2 ^ 60
    → All IsMapped es
    → IsSupply supply
    → let m : Memory = record { cell = c; supply = supply; freed = freed } in
      Outcome
        (λ t m'. Returned (dealloc_with hw below) m t m')
        (create_with hw level allow create base es m)
unfolding create_with
create_with-Returned hw x level allow sh st base es c [] freed al sm mp su = tt
create_with-Returned hw x level allow sh {create} {below} st base es c (t ∷ rest) freed al sm mp
      su =
    let s : Memory = record { cell = zero_table c t; supply = rest; freed = freed } in
    let su' : IsSupply rest = record {
      distinct = su.distinct.1;
      pages = λ p k. su.pages p (ground arith);
    } in
    Outcome-and_then (λ u m'. Entered hw below t s 512 m') _
      (fill_from hw level allow create t base es 0 512 s) (λ u m'. (ok t, m'))
      (fill_from-Entered hw x level allow sh base t es mp s su' su.distinct.0 st al sm 512 0 s refl
        (Entered-start hw below t s (λ j. ground arith)))
      λ u m' h. Returned-end hw below t rest freed c m' su.distinct.0 h

module _ (hw : Hardware) (x : IsX86 hw) (allow : PageLevel) (shallow : rank allow ≤ 2) where
  Storey-IsReturner :
      (level : PageLevel) {create : Option (ℕ → List Entry → Memory → Result ℕ × Memory)}
      {below : Option Dealloc}
      → Storey level create below
      → IsReturner
          (dealloc_with hw below)
          (create_with hw level allow create)
          (512 * entry_size level)
  Storey-IsReturner level st base es m al sm mp su =
      create_with-Returned hw x level allow shallow st base es m.cell m.supply m.freed al sm mp su

  pt-IsReturner : IsReturner (dealloc_pt hw) (create_pt hw allow) (2 ^ 21)
  unfolding dealloc_pt create_pt
  pt-IsReturner = Storey-IsReturner pt (lowest refl)

  pd-IsReturner : IsReturner (dealloc_pd hw) (create_pd hw allow) (2 ^ 30)
  unfolding dealloc_pd create_pd
  pd-IsReturner = Storey-IsReturner pd (upper (λ e. ground arith) pt-IsReturner)

  pdpt-IsReturner : IsReturner (dealloc_pdpt hw) (create_pdpt hw allow) (2 ^ 39)
  unfolding dealloc_pdpt create_pdpt
  pdpt-IsReturner = Storey-IsReturner pdpt (upper (λ e. ground arith) pd-IsReturner)

  pub pml4-IsReturner : IsReturner (dealloc_pml4 hw) (create_pml4 hw allow) (2 ^ 48)
  unfolding dealloc_pml4 create_pml4
  pml4-IsReturner = Storey-IsReturner pml4 (upper (λ e. ground arith) pdpt-IsReturner)

  pub pml5-IsReturner : IsReturner (dealloc_pml5 hw) (create_pml5 hw allow) (2 ^ 57)
  unfolding dealloc_pml5 create_pml5
  pml5-IsReturner = Storey-IsReturner pml5 (upper (λ e. ground arith) pml4-IsReturner)
