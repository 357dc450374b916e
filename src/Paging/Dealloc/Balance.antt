-- ===== src/Paging/Dealloc/Balance.antt =====
-- src/memory/paging.rs: `dealloc_all` gives back what `create_page_table` has taken.
use okots_os.Base.{
  ℕ, ◌≤◌, ◌≡◌, refl, sym, subst, Bool, true, false, List, ◌++◌, All, length, arith, ==_iff,
}
use okots_os.Range.{MemRangeData}
use okots_os.Errors.{Result, ok}
use okots_os.Paging.Normalize.{zip, normalize_map_list}
use okots_os.Paging.Normalize.Each.{All-normalize}
use okots_os.Paging.Level.{PageLevel, pml4, pml5, rank}
use okots_os.Paging.Hardware.{Hardware, IsX86}
use okots_os.Paging.Table.{Memory}
use okots_os.Paging.Build.{create_recursive}
use okots_os.Paging.Build.Slots.{IsMapped}
use okots_os.Paging.Build.Frame.{IsSupply}
use okots_os.Paging.Build.Enough.{tables_below, pml4-Uses, pml5-Uses}
use okots_os.Paging.Create.{TopPageTable, top_table, build_top, create_page_table}
use okots_os.Paging.Create.Identity.{
  top_level, zip-normalize_map_list, IsMapped-Closed, all_aligned_of_mapped, finished,
}
use okots_os.Paging.Dealloc.{dealloc_recursive, dealloc_all}
use okots_os.Paging.Dealloc.Taken.{count}
use okots_os.Paging.Dealloc.Returned.{pml4-IsReturner, pml5-IsReturner}

-- The run succeeds, and `dealloc_all` of its tables gives back what it has taken.
abbrev pub IsBalanced : Hardware → Memory → Result TopPageTable × Memory → Type 0
IsBalanced hw m r =
    (top : TopPageTable) × (m' : Memory) × (taken : List ℕ) × (r ≡ (ok top, m'))
    × (m.supply ≡ taken ++ m'.supply)
    × ((p : ℕ) → count p (dealloc_all hw top m'.cell) ≡ count p taken)

build_top-IsBalanced :
    (hw : Hardware)
    → IsX86 hw
    → (allow : PageLevel) → rank allow ≤ 2
    → (l5 : Bool) (ms : List MemRangeData) (fs : List ℕ) (m : Memory) → All IsMapped (zip ms fs)
    → IsSupply m.supply
    → tables_below (top_level l5) ≤ length m.supply
    → IsBalanced hw m (build_top hw allow (top_level l5) ms fs m)
unfolding build_top create_recursive dealloc_all dealloc_recursive
build_top-IsBalanced hw x allow sh true ms fs m mp su enough =
    let (t, m', e, r) =
      finished _ _ _ _
        (pml5-IsReturner hw x allow sh 0 (zip ms fs) m (omega arith) (omega arith) mp su)
        (pml5-Uses hw allow 0 (zip ms fs) m enough) in
    (
      top_table pml5 ms fs t,
      m',
      r.taken,
      rw e refl,
      r.takes.supply,
      λ p. r.returns m'.cell (λ q j k. refl) p,
    )
build_top-IsBalanced hw x allow sh false ms fs m mp su enough =
    let (t, m', e, r) =
      finished _ _ _ _
        (pml4-IsReturner hw x allow sh 0 (zip ms fs) m (omega arith) (omega arith) mp su)
        (pml4-Uses hw allow 0 (zip ms fs) m enough) in
    (
      top_table pml4 ms fs t,
      m',
      r.taken,
      rw e refl,
      r.takes.supply,
      λ p. r.returns m'.cell (λ q j k. refl) p,
    )

-- For as many flags as ranges, every range a non-empty run of pages of physical memory with neither
-- `PAT` nor `HUGE` set, huge pages allowed up to `Pdpt` at most, and an allocator that gives out
-- enough distinct pages: the tables that `dealloc_all` gives back after `create_page_table` are the
-- ones that it has taken from the allocator, each as often. So no table is lost, and none is given
-- back twice.
pub create_page_table-IsBalanced :
    (hw : Hardware)
    → IsX86 hw
    → (allow : PageLevel) → rank allow ≤ 2
    → (l5 : Bool) (ms : List MemRangeData) (fs : List ℕ) (m : Memory) → length ms ≡ length fs
    → All IsMapped (zip ms fs)
    → IsSupply m.supply
    → tables_below (top_level l5) ≤ length m.supply
    → IsBalanced hw m (create_page_table hw ms fs allow (top_level l5) m)
unfolding create_page_table
create_page_table-IsBalanced hw x allow sh l5 ms fs m len mp su enough =
    let (ms', fs') = normalize_map_list ms fs in
    let mp' =
      subst (All IsMapped) (sym (zip-normalize_map_list ms fs))
        (All-normalize IsMapped IsMapped-Closed (zip ms fs) mp) in
    rw ((==_iff (length ms) (length fs)).1 len, all_aligned_of_mapped ms fs len mp)
      (build_top-IsBalanced hw x allow sh l5 ms' fs' m mp' su enough)
