-- ===== src/Paging/Update/Enough.antt =====
-- src/memory/paging.rs: how many new tables `update_recursive` needs at most. With as many it
-- succeeds.
use okots_os.Base.{
  ℕ, zero, suc, ◌+◌, ◌*◌, ◌≤◌, ◌≡◌, inl, inr, Bool-cases, Option, none, some, List, [], ◌∷◌, arith,
  add_word, mul_word, length, ◌==◌,
}
use okots_os.Errors.{Result, ok, err}
use okots_os.Paging.Normalize.{Entry}
use okots_os.Paging.Level.{PageLevel, pt, pd, pdpt, pml4, pml5, entry_size, down}
use okots_os.Paging.Hardware.{Hardware}
use okots_os.Paging.Table.{Memory}
use okots_os.Paging.Build.{sub_map, can_be_huge, relay_entry, Below}
use okots_os.Paging.Build.Enough.{Uses, tables_below, pt-Uses, pd-Uses, pdpt-Uses, pml4-Uses}
use okots_os.Paging.Update.{
  Updating, U, and_then, store, with_memory, raw_present, raw_huge, raw_addr, detach,
  detach_present, Change, clear_slot, generate_huge_entry, put_huge, put_table, put_slot,
  put_ranges, put_index, put_from, is_fragment, count_fragment, update_with, update_pt, update_pd,
  update_pdpt, update_pml4, update_pml5,
}

-- The run succeeds, and takes at most `n` of the `k` tables that there were.
abbrev pub Spends : {A : Type 0} → ℕ → ℕ → Result A × Updating → Type 0
Spends n k (ok a, s) = k ≤ length s.memory.supply + n
Spends n k (err e, s) = ⊥

-- More may be spent than is.
Spends-weaken :
    {A : Type 0} (n n' k k' : ℕ) (r : Result A × Updating)
    → k' + n ≤ k + n'
    → Spends n k r
    → Spends n' k' r
Spends-weaken n n' k k' (ok a, s) le h = omega arith
Spends-weaken n n' k k' (err e, s) le h = h

Spends-and_then :
    {A B : Type 0} (n n' k : ℕ) (r : Result A × Updating) (f : A → U B)
    → Spends n k r
    → n + n' ≤ k
    → ((a : A) (s : Updating)
        → n' ≤ length s.memory.supply
        → Spends n' (length s.memory.supply) (f a s))
    → Spends (n + n') k (and_then r f)
Spends-and_then n n' k (ok a, s) f h le g =
    Spends-weaken n' (n + n') (length s.memory.supply) k (f a s) (omega arith) (g a s (omega arith))
Spends-and_then n n' k (err e, s) f h le g = absurd h

-- A stored entry takes no table.
Spends-store :
    {A : Type 0} (n k : ℕ) (r : Result A × Updating) (t i : ℕ) (e : A → ℕ)
    → Spends n k r
    → Spends n k (and_then r (λ a. store t i (e a)))
Spends-store n k (ok a, s) t i e h = h
Spends-store n k (err x, s) t i e h = h

Spends-with_memory :
    {A : Type 0} (n k : ℕ) (s : Updating) (r : Result A × Memory)
    → Uses n k r
    → Spends n k (with_memory s r)
Spends-with_memory n k s (ok a, m) h = h
Spends-with_memory n k s (err e, m) h = h

detach-Spends :
    (n : ℕ) (next : Option PageLevel) (e : ℕ) (s : Updating)
    → Spends n (length s.memory.supply) (detach next e s)
detach-Spends n none e s = omega arith
detach-Spends n (some next) e s = elim (Bool-cases (raw_huge e)) [
  | inl h ↦ rw h (omega arith)
  | inr h ↦ rw h (omega arith)
]

detach_present-Spends :
    (n : ℕ) (next : Option PageLevel) (e : ℕ) (s : Updating)
    → Spends n (length s.memory.supply) (detach_present next e s)
detach_present-Spends n next e s = elim (Bool-cases (raw_present e)) [
  | inl h ↦ rw h (detach-Spends n next e s)
  | inr h ↦ rw h (omega arith)
]

-- Below a level stands nothing, or what needs at most `n` tables.
data Needs (n : ℕ) : Option (Change × Below) → Type 0 where
  nothing : Needs n none
  tables :
      {change : Change} {create : Below}
      → ((t base : ℕ) (es : List Entry) (s : Updating)
          → n ≤ length s.memory.supply
          → Spends n (length s.memory.supply) (change t base es s))
      → ((base : ℕ) (es : List Entry) (m : Memory)
          → n ≤ length m.supply
          → Uses n (length m.supply) (create base es m))
      → Needs n (some (change, create))

module _ (hw : Hardware) (level allow : PageLevel) (n : ℕ) where
  clear_slot-Spends :
      (t i : ℕ) (s : Updating) → Spends n (length s.memory.supply) (clear_slot level t i s)
  unfolding clear_slot
  clear_slot-Spends t i s = elim (Bool-cases (raw_present (s.memory.cell t i))) [
    | inl e ↦ rw e (
        Spends-store n (length s.memory.supply) (detach (down level) (s.memory.cell t i) s) t i
          (λ v. 0) (detach-Spends n (down level) (s.memory.cell t i) s))
    | inr e ↦ rw e (omega arith)
  ]

  put_huge-Spends :
      (t i e : ℕ) (s : Updating) → Spends n (length s.memory.supply) (put_huge hw level t i e s)
  unfolding put_huge
  put_huge-Spends t i e s = elim (Bool-cases (s.memory.cell t i == e)) [
    | inl q ↦ rw q (omega arith)
    | inr q ↦ rw q (
        Spends-store n (length s.memory.supply) (detach_present (down level) (s.memory.cell t i) s)
          t i (λ v. e) (detach_present-Spends n (down level) (s.memory.cell t i) s))
  ]

  put_slot-Spends :
      {calls : Option (Change × Below)}
      → Needs n calls
      → (t i vstart vend : ℕ) (e : Entry) (es : List Entry) (s : Updating)
      → n ≤ length s.memory.supply
      → Spends n (length s.memory.supply) (put_slot hw level allow calls t i vstart vend e es s)
  unfolding put_slot put_table
  put_slot-Spends nothing t i vstart vend e es s h =
      elim (Bool-cases (can_be_huge level allow vstart vend (e ∷ es))) [
        | inl q ↦ rw q (put_huge-Spends t i (generate_huge_entry hw level vstart e.1) s)
        | inr q ↦ rw q (omega arith)
      ]
  put_slot-Spends (tables {change} {create} u c) t i vstart vend e es s h =
      let w : ℕ = s.memory.cell t i in
      let made =
        Spends-store n (length s.memory.supply) (with_memory s (create vstart (e ∷ es) s.memory)) t
          i (relay_entry hw level)
          (Spends-with_memory n (length s.memory.supply) s (create vstart (e ∷ es) s.memory)
            (c vstart (e ∷ es) s.memory h)) in
      elim (Bool-cases (can_be_huge level allow vstart vend (e ∷ es))) [
        | inl q ↦ rw q (put_huge-Spends t i (generate_huge_entry hw level vstart e.1) s)
        | inr q ↦ elim (Bool-cases (raw_present w)) [
          | inr p ↦ rw (q, p) made
          | inl p ↦ elim (Bool-cases (raw_huge w)) [
            | inl r ↦ rw (q, p, r) made
            | inr r ↦
                rw (q, p, r)
                  (Spends-store n (length s.memory.supply) (change (raw_addr w) vstart (e ∷ es) s) t
                    i (λ v. relay_entry hw level (raw_addr w)) (u (raw_addr w) vstart (e ∷ es) s h))
          ]
        ]
      ]

  put_ranges-Spends :
      {calls : Option (Change × Below)}
      → Needs n calls
      → (t i vstart vend : ℕ) (l : List Entry) (s : Updating) → n ≤ length s.memory.supply
      → Spends n (length s.memory.supply) (put_ranges hw level allow calls t i vstart vend l s)
  unfolding put_ranges
  put_ranges-Spends c t i vstart vend [] s h = clear_slot-Spends t i s
  put_ranges-Spends c t i vstart vend (e ∷ es) s h = put_slot-Spends c t i vstart vend e es s h

  put_from-Spends :
      {calls : Option (Change × Below)}
      → Needs n calls
      → (t base : ℕ) (es : List Entry) (k i : ℕ) (s : Updating) → k * n ≤ length s.memory.supply
      → Spends (k * n) (length s.memory.supply) (put_from hw level allow calls t base es i k s)
  unfolding put_from put_index
  put_from-Spends c t base es zero i s h = omega arith
  put_from-Spends {calls} c t base es (suc k) i s h =
      let vstart = add_word base (mul_word i (entry_size level)) in
      let vend = add_word vstart (entry_size level) in
      let e : suc k * n ≡ n + k * n = omega arith in
      rw e (
        Spends-and_then n (k * n) (length s.memory.supply)
          (put_ranges hw level allow calls t i vstart vend (sub_map vstart vend es) s)
          (λ v. put_from hw level allow calls t base es (i + 1) k)
          (put_ranges-Spends c t i vstart vend (sub_map vstart vend es) s (omega arith))
          (omega arith) λ v s' h'. put_from-Spends c t base es k (i + 1) s' h')

  update_with-Spends :
      {calls : Option (Change × Below)}
      → Needs n calls
      → (t base : ℕ) (es : List Entry) (s : Updating) → 1 + 512 * n ≤ length s.memory.supply
      → Spends (1 + 512 * n) (length s.memory.supply) (update_with hw level allow calls t base es s)
  unfolding update_with
  update_with-Spends {calls} c t base es s h =
      counted (put_from hw level allow calls t base es 0 512 s)
        (put_from-Spends c t base es 512 0 s (omega arith))
    where
      counted :
          (r : Result (Unit {0}) × Updating)
          → Spends (512 * n) (length s.memory.supply) r
          → Spends
              (1 + 512 * n)
              (length s.memory.supply)
              (and_then r (λ v. count_fragment level allow t))
      counted (ok v, s') p = elim (Bool-cases (is_fragment level allow (s'.memory.cell t))) [
        | inl e ↦ rw e (omega arith)
        | inr e ↦ rw e (omega arith)
      ]
      counted (err e, s') p = p

module _ (hw : Hardware) (allow : PageLevel) where
  abbrev Spending : ℕ → Change → Type 0
  Spending n change =
      (t base : ℕ) (es : List Entry) (s : Updating)
      → n ≤ length s.memory.supply
      → Spends n (length s.memory.supply) (change t base es s)

  pt-Spends : Spending 1 (update_pt hw allow)
  unfolding update_pt
  pt-Spends = update_with-Spends hw pt allow 0 nothing

  pd-Spends : Spending (tables_below pd) (update_pd hw allow)
  unfolding update_pd
  pd-Spends = update_with-Spends hw pd allow 1 (tables pt-Spends (pt-Uses hw allow))

  pdpt-Spends : Spending (tables_below pdpt) (update_pdpt hw allow)
  unfolding update_pdpt
  pdpt-Spends =
      update_with-Spends hw pdpt allow (tables_below pd) (tables pd-Spends (pd-Uses hw allow))

  pub pml4-Spends : Spending (tables_below pml4) (update_pml4 hw allow)
  unfolding update_pml4
  pml4-Spends =
      update_with-Spends hw pml4 allow (tables_below pdpt) (tables pdpt-Spends (pdpt-Uses hw allow))

  pub pml5-Spends : Spending (tables_below pml5) (update_pml5 hw allow)
  unfolding update_pml5
  pml5-Spends =
      update_with-Spends hw pml5 allow (tables_below pml4) (tables pml4-Spends (pml4-Uses hw allow))
