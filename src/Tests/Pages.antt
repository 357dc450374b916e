-- ===== src/Tests/Pages.antt =====
-- A supply of pages of physical memory.
use okots_os.Base.{
  ℕ, zero, suc, ◌*◌, ◌%◌, ◌^◌, ◌≤◌, ◌<◌, ◌≡◌, refl, true, false, List, [], ◌∷◌, length, arith,
}
use okots_os.Paging.Level.{pml4}
use okots_os.Paging.Build.Frame.{has, Distinct, IsSupply}
use okots_os.Paging.Build.Enough.{tables_below}

-- `n` pages of physical memory
unfoldable pub pages : ℕ → List ℕ
pages zero = []
pages (suc n) = suc n * 4096 ∷ pages n

length-pages : (n : ℕ) → length (pages n) ≡ n
unfolding pages
length-pages zero = refl
length-pages (suc n) = omega (arith, length-pages n)

pub has-pages : (n p : ℕ) → has p (pages n) ≡ true → (p ≤ n * 4096) × (p % 4096 ≡ 0)
unfolding pages
has-pages zero p h = ground arith
has-pages (suc n) p h = ground (arith, has-pages n p)

pub has_beyond : (n p : ℕ) → n * 4096 < p → has p (pages n) ≡ false
unfolding pages
has_beyond zero p h = refl
has_beyond (suc n) p h = ground (arith, has_beyond n p)

pages_Distinct : (n : ℕ) → Distinct (pages n)
unfolding pages
pages_Distinct zero = tt
pages_Distinct (suc n) = (has_beyond n (suc n * 4096) (omega arith), pages_Distinct n)

pub pages_IsSupply : (n : ℕ) → n ≤ 2 ^ 38 → IsSupply (pages n)
pages_IsSupply n h = record {
  distinct = pages_Distinct n;
  pages = λ p e.
      let (bound, aligned) = has-pages n p e in
      record { aligned = aligned; physical = omega arith };
}

pub enough_pages : tables_below pml4 ≤ length (pages 134480385)
enough_pages = rw (length-pages 134480385) (omega arith)
