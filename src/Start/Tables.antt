-- ===== src/Start/Tables.antt =====
-- src/main.rs, `create_paging`: what the kernel's page tables translate.
use okots_os.Base.{
  ℕ, ◌≤◌, ◌<◌, ◌≡◌, refl, sym, ap, subst, ◌∙◌, Bool, true, false, Option, some, List, [], ◌∷◌, All,
  length, ◌==◌, if◌then◌else◌, arith, Bool-cases, inl, inr,
}
use okots_os.Range.{MemRangeData}
use okots_os.Errors.{Result, ok}
use okots_os.Paging.Normalize.{Entry, zip}
use okots_os.Paging.Level.{rank}
use okots_os.Paging.Hardware.{Hardware, IsX86}
use okots_os.Paging.Table.{Memory}
use okots_os.Paging.Walk.{get_addr}
use okots_os.Paging.Build.Slots.{IsMapped}
use okots_os.Paging.Build.Frame.{IsSupply, answer}
use okots_os.Paging.Build.Enough.{tables_below}
use okots_os.Paging.Create.{create_page_table}
use okots_os.Paging.Create.Identity.{top_level, top_span, create_page_table-IsIdentity}
use okots_os.Start.{
  masked, retain, Current, create_of, make_current, make_current?, create_paging, allow_huge_at,
  target,
}

-- the ranges that have a flag left, with the flags that are left
abbrev pub kept : Bool → List Entry → List Entry
kept nx [] = []
kept nx ((m, f) ∷ es) = if masked nx f == 0 then kept nx es else (m, masked nx f) ∷ kept nx es

-- `retain` keeps the vectors in step.
abbrev pub IsRetained : Bool → List MemRangeData → List ℕ → Type 0
IsRetained nx ms fs =
    (ms' : List MemRangeData) × (fs' : List ℕ) × (retain nx ms fs ≡ some (ms', fs'))
    × (length ms' ≡ length fs')
    × (zip ms' fs' ≡ kept nx (zip ms fs))

pub retain-IsRetained :
    (nx : Bool) (ms : List MemRangeData) (fs : List ℕ) → length ms ≡ length fs → IsRetained nx ms fs
unfolding retain zip
retain-IsRetained nx [] [] h = ([], [], refl, refl, refl)
retain-IsRetained nx [] (f ∷ fs) h = absurd (omega arith)
retain-IsRetained nx (m ∷ ms) [] h = absurd (omega arith)
retain-IsRetained nx (m ∷ ms) (f ∷ fs) h =
    let (ms', fs', e, len, z) = retain-IsRetained nx ms fs (omega arith) in
    elim (Bool-cases (masked nx f == 0)) [
      | inl b ↦ (ms', fs', ground (arith, e), len, ground (arith, z))
      | inr b ↦
          (m ∷ ms', masked nx f ∷ fs', ground (arith, e), omega (arith, len), ground (arith, z))
    ]

-- The tables are made, CR3 holds them, and they translate the ranges that are left.
abbrev pub IsCurrent :
    Hardware → Bool → List Entry → Option (Result (Unit {0}) × Current × Memory) → Type 0
IsCurrent hw five es r =
    (c : Current) × (m : Memory) × (r ≡ some (ok tt, c, m))
    × (c.page_table.phys ≡ c.cr3)
    × ((a : ℕ) → a < top_span five → get_addr hw five c.cr3 a m ≡ answer es a)

target-top_level : (five : Bool) → target five ≡ top_level five
target-top_level true = refl
target-top_level false = refl

pub allow-shallow : (pdpt_huge : Bool) → rank (allow_huge_at pdpt_huge) ≤ 2
allow-shallow true = omega arith
allow-shallow false = omega arith

-- For as many flags as ranges, an allocator that gives out enough distinct pages, and ranges of
-- pages whose flags, without `EXECUTE_DISABLE` on a processor that lacks it, have neither `PAT` nor
-- `HUGE`: `create_paging` succeeds with any features of the processor, CR3 holds the new tables, and
-- `get_addr` gives every address below the top's span back unchanged if a range with some flag left
-- holds it, and `NotFound` if none does.
pub create_paging-IsCurrent :
    (hw : Hardware)
    → IsX86 hw
    → (nx pdpt_huge five : Bool) (ms : List MemRangeData) (fs : List ℕ) (c : Current) (m : Memory)
    → length ms ≡ length fs
    → All IsMapped (kept nx (zip ms fs))
    → IsSupply m.supply
    → tables_below (top_level five) ≤ length m.supply
    → IsCurrent hw five (kept nx (zip ms fs)) (create_paging hw nx pdpt_huge five ms fs c m)
unfolding create_paging create_of
create_paging-IsCurrent hw x nx pdpt_huge five ms fs c m len mapped supply enough =
    let (ms', fs', e, len', z) = retain-IsRetained nx ms fs len in
    let (top, m', done, level, walk) =
      create_page_table-IsIdentity hw x (allow_huge_at pdpt_huge) (allow-shallow pdpt_huge) five ms'
        fs' m len' (subst (All IsMapped) (sym z) mapped) supply enough in
    (
      record { cr3 = top.phys; page_table = top },
      m',
      ap (λ o. make_current? hw nx pdpt_huge five (create_of hw nx pdpt_huge five o m) c) e
          ∙ ap
              (λ l. some (
                make_current hw nx pdpt_huge five
                  (create_page_table hw ms' fs' (allow_huge_at pdpt_huge) l m) c))
              (target-top_level five)
          ∙ ap (λ r. some (make_current hw nx pdpt_huge five r c)) done,
      refl,
      λ a h. walk a h ∙ ap (λ es. answer es a) z,
    )
