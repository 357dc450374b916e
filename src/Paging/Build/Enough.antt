-- ===== src/Paging/Build/Enough.antt =====
-- src/memory/paging.rs: how many tables `create_recursive` needs at most. With as many it succeeds.
use okots_os.Base.{
  ℕ, zero, suc, ◌+◌, ◌*◌, ◌≤◌, ◌≡◌, inl, inr, Bool-cases, Option, none, some, List, [], ◌∷◌, arith,
  add_word, mul_word, length,
}
use okots_os.Errors.{Result, ok, err}
use okots_os.Paging.Normalize.{Entry}
use okots_os.Paging.Level.{PageLevel, pt, pd, pdpt, pml4, pml5, entry_size}
use okots_os.Paging.Hardware.{Hardware}
use okots_os.Paging.Table.{Memory, M, and_then, store, zero_table}
use okots_os.Paging.Build.{
  sub_map, can_be_huge, relay_entry, or_dealloc, fill_slot, fill_ranges, fill_index, fill_from,
  create_with, create_pt, create_pd, create_pdpt, create_pml4, create_pml5,
}

-- The run succeeds, and takes at most `n` of the `k` tables that there were.
abbrev pub Uses : {A : Type 0} → ℕ → ℕ → Result A × Memory → Type 0
Uses n k (ok a, m) = k ≤ length m.supply + n
Uses n k (err e, m) = ⊥

Uses-and_then :
    {A B : Type 0} (n n' k : ℕ) (r : Result A × Memory) (f : A → M B)
    → Uses n k r
    → n + n' ≤ k
    → ((a : A) (m : Memory) → n' ≤ length m.supply → Uses n' (length m.supply) (f a m))
    → Uses (n + n') k (and_then r f)
Uses-and_then n n' k (ok a, m) f h le g = weaken (f a m) (g a m (omega arith))
  where
    weaken : {B : Type 0} (r : Result B × Memory) → Uses n' (length m.supply) r → Uses (n + n') k r
    weaken (ok b, m') u = omega arith
    weaken (err e, m') u = u
Uses-and_then n n' k (err e, m) f h le g = absurd h

Uses-or_dealloc :
    (n k table : ℕ) (r : Result ℕ × Memory) → Uses n k r → Uses n k (or_dealloc table r)
Uses-or_dealloc n k table (ok a, m) u = u
Uses-or_dealloc n k table (err e, m) u = absurd u

-- Below a level stands nothing, or what needs at most `n` tables.
pub data Needs (n : ℕ) : Option (ℕ → List Entry → Memory → Result ℕ × Memory) → Type 0 where
  nothing : Needs n none
  tables :
      {create : ℕ → List Entry → Memory → Result ℕ × Memory}
      → ((base : ℕ) (es : List Entry) (m : Memory)
          → n ≤ length m.supply
          → Uses n (length m.supply) (create base es m))
      → Needs n (some create)

module _ (hw : Hardware) (level allow : PageLevel) (n : ℕ) where
  fill_ranges-Uses :
      {create : Option (ℕ → List Entry → Memory → Result ℕ × Memory)}
      → Needs n create
      → (t i vstart vend : ℕ) (l : List Entry) (m : Memory) → n ≤ length m.supply
      → Uses n (length m.supply) (fill_ranges hw level allow create t i vstart vend l m)
  unfolding fill_ranges fill_slot
  fill_ranges-Uses c t i vstart vend [] m h = omega arith
  fill_ranges-Uses nothing t i vstart vend (e ∷ es) m h =
      elim (Bool-cases (can_be_huge level allow vstart vend (e ∷ es))) [
        | inl q ↦ rw q (omega arith)
        | inr q ↦ rw q (omega arith)
      ]
  fill_ranges-Uses (tables {create} u) t i vstart vend (e ∷ es) m h =
      elim (Bool-cases (can_be_huge level allow vstart vend (e ∷ es))) [
        | inl q ↦ rw q (omega arith)
        | inr q ↦ rw q (child (create vstart (e ∷ es) m) (u vstart (e ∷ es) m h))
      ]
    where
      child :
          (r : Result ℕ × Memory)
          → Uses n (length m.supply) r
          → Uses n (length m.supply) (
              and_then (or_dealloc t r) (λ next_table. store t i (relay_entry hw level next_table)))
      child (ok a, m') v = v
      child (err x, m') v = absurd v

  fill_from-Uses :
      {create : Option (ℕ → List Entry → Memory → Result ℕ × Memory)}
      → Needs n create
      → (t base : ℕ) (es : List Entry) (k i : ℕ) (m : Memory) → k * n ≤ length m.supply
      → Uses (k * n) (length m.supply) (fill_from hw level allow create t base es i k m)
  unfolding fill_from fill_index
  fill_from-Uses c t base es zero i m h = omega arith
  fill_from-Uses {create} c t base es (suc k) i m h =
      let vstart = add_word base (mul_word i (entry_size level)) in
      let vend = add_word vstart (entry_size level) in
      let e : suc k * n ≡ n + k * n = omega arith in
      rw e (
        Uses-and_then n (k * n) (length m.supply)
          (fill_ranges hw level allow create t i vstart vend (sub_map vstart vend es) m)
          (λ u. fill_from hw level allow create t base es (i + 1) k)
          (fill_ranges-Uses c t i vstart vend (sub_map vstart vend es) m (omega arith))
          (omega arith) λ u m' h'. fill_from-Uses c t base es k (i + 1) m' h')

  create_with-Uses :
      {create : Option (ℕ → List Entry → Memory → Result ℕ × Memory)}
      → Needs n create
      → (base : ℕ) (es : List Entry) (c : ℕ → ℕ → ℕ) (supply freed : List ℕ)
      → 1 + 512 * n ≤ length supply
      → Uses (1 + 512 * n) (length supply) (
          create_with hw level allow create base es
            (record { cell = c; supply = supply; freed = freed }))
  unfolding create_with
  create_with-Uses c base es cell [] freed h = absurd (omega arith)
  create_with-Uses {create} c base es cell (t ∷ rest) freed h =
      let s : Memory = record { cell = zero_table cell t; supply = rest; freed = freed } in
      finish (fill_from hw level allow create t base es 0 512 s)
        (fill_from-Uses c t base es 512 0 s (omega arith))
    where
      finish :
          (r : Result (Unit {0}) × Memory)
          → Uses (512 * n) (length rest) r
          → Uses (1 + 512 * n) (suc (length rest)) (and_then r (λ u m'. (ok t, m')))
      finish (ok u, m') v = omega arith
      finish (err e, m') v = v

-- the tables of a whole tree down from a level
abbrev pub tables_below : PageLevel → ℕ
tables_below pt = 1
tables_below pd = 513
tables_below pdpt = 262657
tables_below pml4 = 134480385
tables_below pml5 = 68853957121

module _ (hw : Hardware) (allow : PageLevel) where
  -- A call takes at most `n` tables where there are `n`.
  abbrev pub Within : ℕ → (ℕ → List Entry → Memory → Result ℕ × Memory) → Type 0
  Within n create =
      (base : ℕ) (es : List Entry) (m : Memory)
      → n ≤ length m.supply
      → Uses n (length m.supply) (create base es m)

  storey_uses :
      (level : PageLevel) (n : ℕ) {create : Option (ℕ → List Entry → Memory → Result ℕ × Memory)}
      → Needs n create
      → Within (1 + 512 * n) (create_with hw level allow create)
  storey_uses level n c base es m h =
      create_with-Uses hw level allow n c base es m.cell m.supply m.freed h

  pub pt-Uses : Within 1 (create_pt hw allow)
  unfolding create_pt
  pt-Uses = storey_uses pt 0 nothing

  pub pd-Uses : Within (tables_below pd) (create_pd hw allow)
  unfolding create_pd
  pd-Uses = storey_uses pd 1 (tables pt-Uses)

  pub pdpt-Uses : Within (tables_below pdpt) (create_pdpt hw allow)
  unfolding create_pdpt
  pdpt-Uses = storey_uses pdpt (tables_below pd) (tables pd-Uses)

  pub pml4-Uses : Within (tables_below pml4) (create_pml4 hw allow)
  unfolding create_pml4
  pml4-Uses = storey_uses pml4 (tables_below pdpt) (tables pdpt-Uses)

  pub pml5-Uses : Within (tables_below pml5) (create_pml5 hw allow)
  unfolding create_pml5
  pml5-Uses = storey_uses pml5 (tables_below pml4) (tables pml4-Uses)
