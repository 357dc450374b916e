-- ===== src/Interrupt/Held.antt =====
-- src/interrupt/api.rs: a vector that has a handler keeps it.
use okots_os.Base.{
  ℕ, ◌≡◌, ◌≢◌, refl, sym, ap, ◌∙◌, Bool-cases, ==_iff, inl, inr, Bool, true, false, ◌&&◌, List, [],
  ◌∷◌, All, ◌==◌, arith,
}
use okots_os.Interrupt.{Entry, Idt, add, remove}

pub data Call : Type 0 where
  added : ℕ → ℕ → Bool → Call
  removed : ℕ → ℕ → Call

unfoldable pub run : List Call → Idt → Idt
unfolding add remove
run [] idt = idt
run (added id target over_write ∷ cs) idt = run cs (add id target over_write idt).1
run (removed sel id ∷ cs) idt = run cs (remove sel id idt)

-- a call that may take the handler of a vector away
abbrev pub takes : ℕ → Call → Bool
takes v (added id target over_write) = (v == id) && over_write
takes v (removed cs id) = v == id

add-held :
    (id target : ℕ) (over_write : Bool) (idt : Idt) (v : ℕ)
    → (idt v).handler ≢ 0
    → takes v (added id target over_write) ≡ false
    → (add id target over_write idt).1 v ≡ idt v
unfolding add
add-held id target true idt v h a = ground (arith, a)
add-held id target false idt v h a = elim (Bool-cases ((idt id).handler == 0)) [
  | inl e ↦ elim (Bool-cases (v == id)) [
    | inl f ↦ absurd (h (ap (λ (k : ℕ). (idt k).handler) ((==_iff v id).0 f) ∙ (==_iff _ 0).0 e))
    | inr f ↦ rw (e, f) refl
  ]
  | inr e ↦ rw e refl
]

remove-held :
    (cs id : ℕ) (idt : Idt) (v : ℕ) → takes v (removed cs id) ≡ false → remove cs id idt v ≡ idt v
unfolding remove
remove-held cs id idt v a = rw a refl

-- For a vector with a handler, and calls of which none removes it or overwrites it: the entry of
-- the vector stays as it is, whatever is added to it or done to other vectors.
pub run-held :
    (cs : List Call) (idt : Idt) (v : ℕ)
    → (idt v).handler ≢ 0
    → All (λ c. takes v c ≡ false) cs
    → run cs idt v ≡ idt v
unfolding run
run-held [] idt v h a = refl
run-held (added id target over_write ∷ cs) idt v h a =
    let same = add-held id target over_write idt v h a.0 in
    run-held cs (add id target over_write idt).1 v
      (λ e. h (ap (λ (x : Entry). x.handler) (sym same) ∙ e)) a.1
    ∙ same
run-held (removed sel id ∷ cs) idt v h a =
    let same = remove-held sel id idt v a.0 in
    run-held cs (remove sel id idt) v (λ e. h (ap (λ (x : Entry). x.handler) (sym same) ∙ e)) a.1
    ∙ same
