-- ===== src/Start/Exit/Executable.antt =====
-- src/main.rs, `update_paging`: which pages of the kernel's map hold code.
use okots_os.Base.{
  ℕ, ◌≡◌, refl, sym, ap, subst, ◌∙◌, ◌⊎◌, inl, inr, Bool-cases, Option-cases, Bool, true, false,
  ◌||◌, ◌&&◌, some, List, [], ◌∷◌, All, All-append, arith,
}
use okots_os.Range.{MemRangeData, contains}
use okots_os.Firmware.{MemoryDescriptor, is_code, is_mmio}
use okots_os.Paging.Normalize.{Entry, zip}
use okots_os.Paging.Normalize.Lookup.{flags_at}
use okots_os.Paging.Flags.{execute_disable, contains as has_flag}
use okots_os.Start.Tables.{kept}
use okots_os.Start.Exit.{range_of, data_flags, update_paging}
use okots_os.Start.Exit.Plan.{entry_pairs, pairs, update_paging-Pairs}
use okots_os.Start.Exit.Pages.{kept-append, kept-plan, whole}

-- Memory of the type `RUNTIME_SERVICES_CODE` or `LOADER_CODE` holds the address.
unfoldable pub held_by_code : List MemoryDescriptor → ℕ → Bool
held_by_code [] a = false
held_by_code (i ∷ map) a = (is_code i.ty && contains (range_of i) a) || held_by_code map a

-- What every entry that holds the address says of its flags, the lookup says of its answer.
flags_at-All :
    (Q : ℕ → Type 0) (a : ℕ) (es : List Entry)
    → All (λ e. (contains e.0 a ≡ false) ⊎ Q e.1) es
    → (f : ℕ) → flags_at es a ≡ some f
    → Q f
unfolding flags_at
flags_at-All Q a [] h f e = absurd (ground arith)
flags_at-All Q a ((m, g) ∷ es) h f e = elim (Option-cases (flags_at es a)) [
  | inr (f', e') ↦ subst Q (ground (arith, e, e')) (flags_at-All Q a es h.1 f' e')
  | inl e' ↦ elim h.0 [
    | inl out ↦ absurd (ground (arith, e, e', out))
    | inr q ↦ elim (Bool-cases (contains m a)) [
      | inl inside ↦ subst Q (ground (arith, e, e', inside)) q
      | inr out ↦ absurd (ground (arith, e, e', out))
    ]
  ]
]

-- what the claim says of flags, for an address
abbrev IsGuarded : List MemoryDescriptor → ℕ → ℕ → Type 0
IsGuarded map a f = (has_flag f execute_disable ≡ true) ⊎ (held_by_code map a ≡ true)

weaken :
    (a : ℕ) (i : MemoryDescriptor) (map : List MemoryDescriptor) (es : List Entry)
    → All (λ e. (contains e.0 a ≡ false) ⊎ IsGuarded map a e.1) es
    → All (λ e. (contains e.0 a ≡ false) ⊎ IsGuarded (i ∷ map) a e.1) es
unfolding held_by_code
weaken a i map [] h = tt
weaken a i map (e ∷ es) (h, hs) = (stronger h, weaken a i map es hs)
  where
    stronger :
        (contains e.0 a ≡ false) ⊎ IsGuarded map a e.1
        → (contains e.0 a ≡ false) ⊎ IsGuarded (i ∷ map) a e.1
    stronger (inl out) = inl out
    stronger (inr (inl q)) = inr (inl q)
    stronger (inr (inr q)) = inr (inr (ground arith))

entry-IsGuarded :
    (a : ℕ) (i : MemoryDescriptor) (map : List MemoryDescriptor)
    → All (λ e. (contains e.0 a ≡ false) ⊎ IsGuarded (i ∷ map) a e.1) (kept true (entry_pairs i))
unfolding held_by_code
entry-IsGuarded a i map = elim (Bool-cases (is_code i.ty)) [
  | inl c ↦ elim (Bool-cases (contains (range_of i) a)) [
    | inl inside ↦ rw c (inr (inr (ground (arith, inside, c))), tt)
    | inr out ↦ rw c (inl out, tt)
  ]
  | inr c ↦ elim (Bool-cases (is_mmio i.ty)) [
    | inl d ↦ rw (c, d) (inr (inl refl), tt)
    | inr d ↦ rw (c, d) tt
  ]
]

pairs-IsGuarded :
    (a : ℕ) (map : List MemoryDescriptor)
    → All (λ e. (contains e.0 a ≡ false) ⊎ IsGuarded map a e.1) (kept true (pairs map))
unfolding pairs
pairs-IsGuarded a [] = tt
pairs-IsGuarded a (i ∷ map) = rw (kept-append true (entry_pairs i) (pairs map)) (
    All-append _ (kept true (entry_pairs i)) (kept true (pairs map)) (entry-IsGuarded a i map)
      (weaken a i map (kept true (pairs map)) (pairs-IsGuarded a map)))

-- For any map of the firmware's and any range `stack`, on a processor with no-execute pages: a page of the
-- kernel's map can only be executed if a descriptor of the type `RUNTIME_SERVICES_CODE` or
-- `LOADER_CODE` holds it; the flags of any other address have `EXECUTE_DISABLE`.
pub update_paging-IsGuarded :
    (map : List MemoryDescriptor) (stack : MemRangeData) (a f : ℕ)
    → let (t, r) = update_paging map stack in
      flags_at (kept true (zip t r)) a ≡ some f
      → (has_flag f execute_disable ≡ true) ⊎ (held_by_code map a ≡ true)
update_paging-IsGuarded map stack a f e =
    let (len, z) = update_paging-Pairs map stack in
    flags_at-All (IsGuarded map a) a (whole true map stack)
      (
        inr (inl refl),
        All-append _ (kept true (pairs map)) ((stack, data_flags) ∷ []) (pairs-IsGuarded a map)
            (inr (inl refl), tt),
      )
      f (ap (λ es. flags_at es a) (sym (ap (kept true) z ∙ kept-plan true map stack)) ∙ e)
