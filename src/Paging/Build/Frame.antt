-- ===== src/Paging/Build/Frame.antt =====
-- src/memory/paging.rs: what a call of `create_recursive` may touch, and what it leaves behind.
use okots_os.Base.{
  ℕ, ◌+◌, ◌*◌, ◌≤◌, ◌<◌, ◌≡◌, ◌≢◌, ◌⊎◌, Bool, true, false, ◌||◌, List, [], ◌∷◌, ◌==◌, if◌then◌else◌,
}
use okots_os.Errors.{Result, ok, err}
use okots_os.Paging.Normalize.{Entry}
use okots_os.Paging.Hardware.{IsPage}
use okots_os.Paging.Table.{Memory, M, and_then}
use okots_os.Paging.Walk.{Walk, absent}
use okots_os.Paging.Build.Slots.{covered}

-- Partial correctness of a run; `Paging.Build.Enough` has that the run succeeds.
abbrev pub Outcome : {A : Type 0} → (A → Memory → Type 0) → Result A × Memory → Type 0
Outcome P (ok a, m) = P a m
Outcome P (err e, m) = Unit

pub Outcome-and_then :
    {A B : Type 0} (P : A → Memory → Type 0) (Q : B → Memory → Type 0) (r : Result A × Memory)
    (f : A → M B)
    → Outcome P r
    → ((a : A) (m : Memory) → P a m → Outcome Q (f a m))
    → Outcome Q (and_then r f)
Outcome-and_then P Q (ok a, m) f h k = k a m h
Outcome-and_then P Q (err e, m) f h k = tt

abbrev pub has : ℕ → List ℕ → Bool
has p [] = false
has p (q ∷ qs) = (p == q) || has p qs

abbrev pub Distinct : List ℕ → Type 0
Distinct [] = Unit
Distinct (p ∷ ps) = (has p ps ≡ false) × Distinct ps

-- What the kernel relies on the allocator for: every table is a page, and is given out once.
pub record IsSupply (supply : List ℕ) : Type 0 where
  pub distinct : Distinct supply
  pub pages : (p : ℕ) → has p supply ≡ true → IsPage p

-- what `get_addr` should give: the address itself if it is mapped, else `NotFound`
abbrev pub answer : List Entry → ℕ → Result ℕ
answer es a = if covered es a then ok a else err absent

-- A call that began in `m` has ended in `m'` with the table `t`. `translates` holds in any later
-- memory that keeps the tables that the call has taken.
pub record Built (walk : Walk) (base span : ℕ) (es : List Entry) (m : Memory) (t : ℕ) (m' : Memory)
    : Type 0 where
  pub given : has t m.supply ≡ true
  pub taken : has t m'.supply ≡ false
  pub shrinks : (p : ℕ) → has p m'.supply ≡ true → has p m.supply ≡ true
  pub distinct : Distinct m'.supply
  pub kept :
      (p i : ℕ) → (has p m.supply ≡ false) ⊎ (has p m'.supply ≡ true) → m'.cell p i ≡ m.cell p i
  pub translates :
      (n : Memory)
      → ((p i : ℕ) → has p m.supply ≡ true → has p m'.supply ≡ false → n.cell p i ≡ m'.cell p i)
      → (a : ℕ) → base ≤ a
      → a < base + span
      → walk t a n ≡ answer es a

-- The loop that began in `s` with the table `t` has done the indices below `i`.
pub record Filled (walk : Walk) (size base : ℕ) (es : List Entry) (t : ℕ) (s : Memory) (i : ℕ)
    (m : Memory) : Type 0 where
  pub shrinks : (p : ℕ) → has p m.supply ≡ true → has p s.supply ≡ true
  pub distinct : Distinct m.supply
  pub kept :
      (p j : ℕ)
      → p ≢ t
      → (has p s.supply ≡ false) ⊎ (has p m.supply ≡ true)
      → m.cell p j ≡ s.cell p j
  pub clear : (j : ℕ) → i ≤ j → m.cell t j ≡ 0
  pub translates :
      (n : Memory)
      → ((p j : ℕ) → has p s.supply ≡ true → has p m.supply ≡ false → n.cell p j ≡ m.cell p j)
      → ((j : ℕ) → j < i → n.cell t j ≡ m.cell t j)
      → (a : ℕ) → base ≤ a
      → a < base + i * size
      → walk t a n ≡ answer es a
