-- ===== src/Paging/Dealloc/Taken.antt =====
-- src/memory/paging.rs: which tables a run has taken from the allocator, and how often a list names
-- a table.
use okots_os.Base.{
  ℕ, zero, suc, ◌+◌, ◌≤◌, ◌<◌, ◌≡◌, ◌≢◌, refl, sym, subst, inl, inr, Bool-cases, true, false, ◌||◌,
  Option, none, some, List, [], ◌∷◌, ◌++◌, ◌==◌, if◌then◌else◌, arith, ==_iff,
}
use okots_os.Paging.Hardware.{Hardware}
use okots_os.Paging.Table.{Memory}
use okots_os.Paging.Build.Frame.{has, Distinct}
use okots_os.Paging.Dealloc.{Dealloc, is_table, dealloc_entries}

-- how often a list has a table
unfoldable pub count : ℕ → List ℕ → ℕ
count p [] = 0
count p (q ∷ qs) = (if p == q then 1 else 0) + count p qs

pub count-append : (p : ℕ) (xs ys : List ℕ) → count p (xs ++ ys) ≡ count p xs + count p ys
unfolding count
count-append p [] ys = omega arith
count-append p (x ∷ xs) ys = omega (arith, count-append p xs ys)

pub has-append : (p : ℕ) (xs ys : List ℕ) → has p (xs ++ ys) ≡ (has p xs || has p ys)
has-append p [] ys = refl
has-append p (x ∷ xs) ys = ground (arith, has-append p xs ys)

-- Of distinct tables, those in front are not among the rest.
pub Distinct-append :
    (xs ys : List ℕ)
    → Distinct (xs ++ ys)
    → Distinct ys × ((p : ℕ) → has p xs ≡ true → has p ys ≡ false)
Distinct-append [] ys d = (d, λ p h. absurd (ground arith))
Distinct-append (x ∷ xs) ys d =
    let (rest, apart) = Distinct-append xs ys d.1 in
    (
      rest,
      λ p h. elim (Bool-cases (p == x)) [
        | inl e ↦
            subst (λ q. has q ys ≡ false) (sym ((==_iff p x).0 e))
              (ground (arith, d.0, has-append x xs ys))
        | inr e ↦ apart p (ground arith)
      ],
    )

module _ (hw : Hardware) where
  -- the tables below one entry
  abbrev pub entry_tables : Dealloc → (ℕ → ℕ → ℕ) → ℕ → List ℕ
  entry_tables below cell e = if is_table hw e then below cell (hw.addr e) else []

  count-first :
      (below : Dealloc) (cell : ℕ → ℕ → ℕ) (t i n p : ℕ)
      → count p (dealloc_entries hw below cell t i (suc n))
        ≡ count p (entry_tables below cell (cell t i))
          + count p (dealloc_entries hw below cell t (i + 1) n)
  unfolding dealloc_entries count
  count-first below cell t i n p = elim (Bool-cases (is_table hw (cell t i))) [
    | inl e ↦ rw e (
        count-append p (below cell (hw.addr (cell t i)))
          (dealloc_entries hw below cell t (i + 1) n))
    | inr e ↦ rw e (omega arith)
  ]

  -- One entry more, at the end.
  pub count-entries :
      (below : Dealloc) (cell : ℕ → ℕ → ℕ) (t i n p : ℕ)
      → count p (dealloc_entries hw below cell t i (suc n))
        ≡ count p (dealloc_entries hw below cell t i n)
          + count p (entry_tables below cell (cell t (i + n)))
  unfolding dealloc_entries
  count-entries below cell t i zero p =
      let e : i + 0 ≡ i = omega arith in rw e (omega (arith, count-first below cell t i 0 p))
  count-entries below cell t i (suc n) p =
      let e : i + suc n ≡ i + 1 + n = omega arith in
      rw e (
        omega (
          arith,
          count-first below cell t i (suc n) p,
          count-first below cell t i n p,
          count-entries below cell t (i + 1) n p,
        ))

-- what is given back before a table itself, up to entry `i`
abbrev pub below_entries : Hardware → Option Dealloc → (ℕ → ℕ → ℕ) → ℕ → ℕ → List ℕ
below_entries hw none cell t i = []
below_entries hw (some below) cell t i = dealloc_entries hw below cell t 0 i

-- A run from `m` to `m'` has taken these tables, in order, and has written to no others.
pub record Takes (m : Memory) (taken : List ℕ) (m' : Memory) : Type 0 where
  pub supply : m.supply ≡ taken ++ m'.supply
  pub kept : (p j : ℕ) → has p taken ≡ false → m'.cell p j ≡ m.cell p j

-- Two memories agree on some tables.
abbrev pub Agree : List ℕ → (ℕ → ℕ → ℕ) → (ℕ → ℕ → ℕ) → Type 0
Agree ts cell cell' = (p j : ℕ) → has p ts ≡ true → cell p j ≡ cell' p j

-- A call has left the table `t`. In any later memory that keeps what the call has taken, the
-- tables that `dealloc` gives back are those, each as often as it was taken.
pub record Returned (dealloc : Dealloc) (m : Memory) (t : ℕ) (m' : Memory) : Type 0 where
  pub taken : List ℕ
  pub takes : Takes m taken m'
  pub own : has t taken ≡ true
  pub returns :
      (cell : ℕ → ℕ → ℕ)
      → Agree taken cell m'.cell
      → (p : ℕ) → count p (dealloc cell t) ≡ count p taken

-- The loop that began in `s` with the table `t` has done the indices below `i`.
pub record Entered (hw : Hardware) (below : Option Dealloc) (t : ℕ) (s : Memory) (i : ℕ)
    (m : Memory) : Type 0 where
  pub taken : List ℕ
  pub supply : s.supply ≡ taken ++ m.supply
  pub clear : (j : ℕ) → i ≤ j → m.cell t j ≡ 0
  pub kept : (p j : ℕ) → p ≢ t → has p taken ≡ false → m.cell p j ≡ s.cell p j
  pub returns :
      (cell : ℕ → ℕ → ℕ)
      → Agree taken cell m.cell
      → ((j : ℕ) → j < i → cell t j ≡ m.cell t j)
      → (p : ℕ) → count p (below_entries hw below cell t i) ≡ count p taken
