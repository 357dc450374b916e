-- ===== src/Start/Update.antt =====
-- src/main.rs, `util_update_paging` and `util_update_add_paging`, and `map_physical_region` of
-- src/acpi/handler.rs, which calls it: the kernel's tables are changed while they are in use.
pub mod Added
pub mod Mapped
use Prim.Native.String.{String}
use okots_os.Base.{
  ℕ, ◌+◌, ◌-◌, ◌*◌, ◌/◌, ◌%◌, ◌^◌, Bool, true, false, Option, none, some, List, [], ◌∷◌, ◌++◌, ◌==◌,
  if◌then◌else◌, add_word, sub_word, bit_or,
}
use okots_os.Range.{MemRangeData, new}
use okots_os.Errors.{Error, Result, ok, err}
use okots_os.Paging.Flags.{present, writable, pcd, execute_disable}
use okots_os.Paging.Level.{PageLevel}
use okots_os.Paging.Hardware.{Hardware}
use okots_os.Paging.Table.{Memory}
use okots_os.Paging.Walk.{get_addr}
use okots_os.Paging.Create.{TopPageTable}
use okots_os.Paging.Dealloc.{free_not_used_paging}
use okots_os.Paging.Update.Top.{Updates, UpdatePagingResults, update_paging}
use okots_os.Start.{retain, Current, allow_huge_at}

-- `dealloc` of tables, in order
abbrev pub give_back : List ℕ → Memory → Memory
give_back [] m = m
give_back (t ∷ ts) m = give_back ts (record m { freed = t ∷ m.freed })

-- what the other processors are told by an interrupt, and the memory after the call
abbrev pub Told : Type 0
Told = List ℕ × Memory

module _ (hw : Hardware) (free nx pdpt_huge : Bool) where
  -- after the new tables: the interrupt 33, and the tables that have fallen out
  abbrev pub broadcast : Updates → Result (Unit {0}) × Told
  broadcast (err e, top, m) = (err e, ([], m))
  broadcast (ok res, top, m) =
      (ok tt, (33 ∷ [], if free then give_back (free_not_used_paging hw res m.cell) m else m))

  abbrev pub broadcast? : Option Updates → Option (Result (Unit {0}) × Told)
  broadcast? none = none
  broadcast? (some r) = some (broadcast r)

  unfoldable pub update_kept :
      TopPageTable
      → Option (List MemRangeData × List ℕ)
      → Memory
      → Option (Result (Unit {0}) × Told)
  unfolding update_paging free_not_used_paging
  update_kept old none m = none
  update_kept old (some (map_list, flags)) m =
      broadcast? (update_paging hw old map_list flags (allow_huge_at pdpt_huge) m)

  -- The processor's own record of its table is only read: the table is changed in a copy.
  unfoldable pub util_update_paging :
      List MemRangeData → List ℕ → Current → Memory → Option (Result (Unit {0}) × Told)
  unfolding retain update_kept
  util_update_paging map_list flags c m = update_kept c.page_table (retain nx map_list flags) m

  unfoldable pub util_update_add_paging :
      List MemRangeData → List ℕ → Current → Memory → Option (Result (Unit {0}) × Told)
  unfolding util_update_paging
  util_update_add_paging map_list flags c m =
      let (map, flag) = c.page_table.memory_mapping in
      util_update_paging (map ++ map_list) (flag ++ flags) c m

-- `physical_address & !0xFFF`, and `(size + offset + 0xFFF) & !0xFFF`
abbrev pub page_base : ℕ → ℕ
page_base physical_address = physical_address / 4096 * 4096

abbrev pub aligned_size : ℕ → ℕ → ℕ
aligned_size physical_address size =
    let offset = sub_word physical_address (page_base physical_address) in
    add_word (add_word size offset) 0xfff / 4096 * 4096

abbrev pub io_flags : ℕ
io_flags = bit_or (bit_or (bit_or present writable) pcd) execute_disable

-- the mapping that the call returns
pub record PhysicalMapping : Type 0 where
  pub physical_start : ℕ
  pub virtual_start : ℕ
  pub region_length : ℕ
  pub mapped_length : ℕ

-- `unwrap` of an update
abbrev pub unwrap : Option (Result (Unit {0}) × Told) → Option Told
unwrap none = none
unwrap (some (err e, r)) = none
unwrap (some (ok u, r)) = some r

-- A null pointer is a panic.
abbrev pub mapping : ℕ → ℕ → Option Told → Option (PhysicalMapping × Told)
mapping physical_address size none = none
mapping physical_address size (some r) =
    if physical_address == 0
    then none
    else some (
      record {
        physical_start = physical_address;
        virtual_start = physical_address;
        region_length = size;
        mapped_length = aligned_size physical_address size;
      },
      r,
    )

module _ (hw : Hardware) (nx pdpt_huge l5 : Bool) where
  unfoldable pub map_if : Result ℕ → ℕ → ℕ → Current → Memory → Option Told
  unfolding util_update_add_paging
  map_if (ok a) physical_address size c m = some ([], m)
  map_if (err e) physical_address size c m = unwrap (
      util_update_add_paging hw true nx pdpt_huge
        (new (page_base physical_address) (aligned_size physical_address size) ∷ []) (io_flags ∷ [])
        c m)

  unfoldable pub map_physical_region : ℕ → ℕ → Current → Memory → Option (PhysicalMapping × Told)
  unfolding get_addr map_if
  map_physical_region physical_address size c m =
      mapping physical_address size
        (map_if (get_addr hw l5 c.cr3 physical_address m) physical_address size c m)
