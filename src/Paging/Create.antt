-- ===== src/Paging/Create.antt =====
-- src/memory/paging.rs, `create_page_table`: the checks, the normalisation and the tables.
pub mod Identity
use Prim.Native.String.{String}
use okots_os.Base.{
  ℕ, ◌%◌, Bool, true, false, not, ◌&&◌, Option, none, some, List, [], ◌∷◌, length, ◌==◌,
  if◌then◌else◌,
}
use okots_os.Range.{MemRangeData}
use okots_os.Errors.{Error, new, invalid_data, ok, err}
use okots_os.Paging.Normalize.{Entry, zip, normalize_map_list}
use okots_os.Paging.Level.{PageLevel, pt, pd, pdpt, pml4, pml5}
use okots_os.Paging.Hardware.{Hardware}
use okots_os.Paging.Table.{Memory, M, pure, raise, ◌>>=◌}
use okots_os.Paging.Build.{create_recursive}

-- `memory_mapping` is the pair of parallel vectors.
pub record TopPageTable : Type 0 where
  pub phys : ℕ
  pub virt : ℕ
  pub level : PageLevel
  pub page_fragmentation_level : ℕ
  pub memory_mapping : List MemRangeData × List ℕ

-- Every range lies on page bounds.
unfoldable pub all_aligned : List MemRangeData → Bool
all_aligned [] = true
all_aligned (m ∷ ms) = (m.len % 4096 == 0) && (m.start % 4096 == 0) && all_aligned ms

abbrev pub top_table : PageLevel → List MemRangeData → List ℕ → ℕ → TopPageTable
top_table target map_list flags table_addr = record {
  phys = table_addr;
  virt = table_addr;
  level = target;
  page_fragmentation_level = 0;
  memory_mapping = (map_list, flags);
}

module _ (hw : Hardware) where
  unfoldable pub build_top : PageLevel → PageLevel → List MemRangeData → List ℕ → M TopPageTable
  unfolding create_recursive zip
  build_top allow_huge_at pml5 map_list flags = do
    table_addr ← create_recursive hw pml5 allow_huge_at 0 (zip map_list flags)
    pure (top_table pml5 map_list flags table_addr)
  build_top allow_huge_at pml4 map_list flags = do
    table_addr ← create_recursive hw pml4 allow_huge_at 0 (zip map_list flags)
    pure (top_table pml4 map_list flags table_addr)
  build_top allow_huge_at target map_list flags =
      raise (new invalid_data (some "Invalid target level"))

  -- The map list and the flags are the vectors before normalisation.
  unfoldable pub create_page_table :
      List MemRangeData → List ℕ → PageLevel → PageLevel → M TopPageTable
  unfolding all_aligned normalize_map_list build_top
  create_page_table map_list flags allow_huge_at target =
      if not (length map_list == length flags)
      then raise (new invalid_data (some "map_list length is not eq to flags"))
      else if not (all_aligned map_list)
      then raise (new invalid_data (some "map data align/size align is need 4096, but not 4096"))
      else (let (maps, fs) = normalize_map_list map_list flags in
          build_top allow_huge_at target maps fs)
