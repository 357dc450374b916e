-- ===== src/Paging/Update/Owned.antt =====
-- src/memory/paging.rs: tables in use, each with the tables below it. No table stands below two
-- entries.
use okots_os.Base.{
  ℕ, zero, suc, ◌+◌, ◌≤◌, ◌≡◌, ◌≢◌, refl, Bool, true, false, ◌||◌, Option, none, some, List, arith,
  inl, inr, Bool-cases,
}
use okots_os.Paging.Hardware.{Hardware}
use okots_os.Paging.Build.Frame.{has}
use okots_os.Paging.Update.{raw_present, raw_huge, raw_addr}

-- What the tests on words rely on: the crate `x86_64` reads an entry by the same bits.
pub record IsRaw (hw : Hardware) : Type 0 where
  pub present : (e : ℕ) → raw_present e ≡ hw.is_present e
  pub huge : (e : ℕ) → raw_huge e ≡ hw.is_huge e
  pub addr : (e : ℕ) → raw_addr e ≡ hw.addr e

-- the entries, a table, and the tables from it on
abbrev pub Tree : Type 1
Tree = (ℕ → ℕ → ℕ) → ℕ → List ℕ → Type 0

-- what an entry that leads to a table has below it
abbrev pub Subtree : Option Tree → (ℕ → ℕ → ℕ) → ℕ → List ℕ → Type 0
Subtree none cell e ts = Unit
Subtree (some tree) cell e ts = tree cell (raw_addr e) ts

-- `own i` are the tables below entry `i`.
pub record Owns (below : Option Tree) (cell : ℕ → ℕ → ℕ) (t : ℕ) (ts : List ℕ) : Type 0 where
  pub own : ℕ → List ℕ
  pub head : has t ts ≡ true
  pub inside : (i p : ℕ) → has p (own i) ≡ true → has p ts ≡ true
  pub not_t : (i : ℕ) → has t (own i) ≡ false
  pub apart : (i j p : ℕ) → i ≢ j → has p (own i) ≡ true → has p (own j) ≡ false
  pub subtree :
      (i : ℕ)
      → raw_present (cell t i) ≡ true
      → raw_huge (cell t i) ≡ false
      → Subtree below cell (cell t i) (own i)

-- A tree depends on the entries of its own tables only.
abbrev pub IsLocal : Tree → Type 0
IsLocal tree =
    (cell cell' : ℕ → ℕ → ℕ) (t : ℕ) (ts : List ℕ)
    → ((p j : ℕ) → has p ts ≡ true → cell' p j ≡ cell p j)
    → tree cell t ts
    → tree cell' t ts

-- What a round needs to know of the trees below.
pub record IsTree (tree : Tree) : Type 1 where
  pub local : IsLocal tree
  pub rooted : (cell : ℕ → ℕ → ℕ) (t : ℕ) (ts : List ℕ) → tree cell t ts → has t ts ≡ true

-- the tables below the entries before `i`
unfoldable pub any_own : (ℕ → List ℕ) → ℕ → ℕ → Bool
any_own own zero p = false
any_own own (suc i) p = has p (own i) || any_own own i p

pub any_own-next :
    (own : ℕ → List ℕ) (i p : ℕ) → any_own own (i + 1) p ≡ (has p (own i) || any_own own i p)
unfolding any_own
any_own-next own i p = let e : i + 1 ≡ suc i = omega arith in rw e refl

-- Those stand in the tree, and below no later entry.
pub any_own-apart :
    (below : Option Tree) (cell : ℕ → ℕ → ℕ) (t : ℕ) (ts : List ℕ) (o : Owns below cell t ts)
    (i k p : ℕ)
    → i ≤ k
    → any_own o.own i p ≡ true
    → (has p ts ≡ true) × (has p (o.own k) ≡ false)
unfolding any_own
any_own-apart below cell t ts o zero k p le h = ground arith
any_own-apart below cell t ts o (suc i) k p le h = elim (Bool-cases (has p (o.own i))) [
  | inl e ↦ (o.inside i p e, o.apart i k p (λ q. omega (arith, q)) e)
  | inr e ↦ any_own-apart below cell t ts o i k p (omega arith) (ground arith)
]

pub any_own-not_t :
    (below : Option Tree) (cell : ℕ → ℕ → ℕ) (t : ℕ) (ts : List ℕ) (o : Owns below cell t ts)
    (i : ℕ)
    → any_own o.own i t ≡ false
unfolding any_own
any_own-not_t below cell t ts o zero = refl
any_own-not_t below cell t ts o (suc i) =
    ground (arith, o.not_t i, any_own-not_t below cell t ts o i)
