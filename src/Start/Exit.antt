-- ===== src/Start/Exit.antt =====
-- src/main.rs, `exit_uefi` with its `update_paging`: the map of the memory that the firmware leaves,
-- the tables for it, and the memory that the kernel's allocator gets.
pub mod Executable
pub mod Plan
pub mod Mapped
pub mod Claims
pub mod Pages
use okots_os.Base.{
  ℕ, Bool, true, false, ◌||◌, Option, none, some, List, [], ◌∷◌, ◌++◌, if◌then◌else◌, add_word,
  mul_word, max, bit_or,
}
use okots_os.Range.{MemRangeData, new}
use okots_os.Errors.{Error, Result, ok, err}
use okots_os.Firmware.{MemoryDescriptor, is_code, is_mmio, is_boot_services}
use okots_os.Paging.Flags.{present, writable, execute_disable, pcd}
use okots_os.Paging.Hardware.{Hardware}
use okots_os.Paging.Table.{Memory}
use okots_os.PhysicalAllocator.{add_target_to_os_alloc}
use okots_os.Start.{Current, create_paging}

-- `i.page_count as usize * 4096`
abbrev pub len_of : MemoryDescriptor → ℕ
len_of i = mul_word i.page_count 4096

abbrev pub range_of : MemoryDescriptor → MemRangeData
range_of i = new i.phys_start (len_of i)

-- `.max().unwrap_or(0)`
unfoldable pub last_of : List MemoryDescriptor → ℕ
last_of [] = 0
last_of (e ∷ map) = max (add_word e.phys_start (len_of e)) (last_of map)

abbrev pub data_flags : ℕ
data_flags = bit_or (bit_or present writable) execute_disable

abbrev pub code_flags : ℕ
code_flags = bit_or present writable

abbrev pub device_flags : ℕ
device_flags = bit_or (bit_or (bit_or pcd present) writable) execute_disable

-- the vectors `t` and `r`
abbrev pub Vectors : Type 0
Vectors = List MemRangeData × List ℕ

abbrev pub push : MemRangeData → ℕ → Vectors → Vectors
push range flags (t, r) = (t ++ range ∷ [], r ++ flags ∷ [])

abbrev pub push_entry : MemoryDescriptor → Vectors → Vectors
push_entry i v =
    if is_code i.ty
    then push (range_of i) code_flags v
    else if is_mmio i.ty
    then push (range_of i) device_flags v
    else v

unfoldable pub push_all : List MemoryDescriptor → Vectors → Vectors
push_all [] v = v
push_all (i ∷ map) v = push_all map (push_entry i v)

-- `stack` is `MemRangeData::new(lock.top, lock.len)`: `top` is the high end of the boot stack, so the
-- range begins where the stack ends.
unfoldable pub update_paging : List MemoryDescriptor → MemRangeData → Vectors
unfolding last_of push_all
update_paging map stack =
    push (new 0 4096) 0
      (push stack data_flags (push_all map (new 0 (last_of map) ∷ [], data_flags ∷ [])))

-- what `add_target_to_os_alloc` claims, in order
abbrev pub claim_range : Option (ℕ × ℕ) → List (ℕ × ℕ) → List (ℕ × ℕ)
claim_range none claimed = claimed
claim_range (some r) claimed = r ∷ claimed

unfoldable pub claim_all : List MemoryDescriptor → List (ℕ × ℕ)
claim_all [] = []
claim_all (i ∷ map) =
    let rest = claim_all map in
    if is_boot_services i.ty then claim_range (add_target_to_os_alloc (range_of i)) rest else rest

-- The tables are first; if they fail, nothing is claimed.
abbrev pub with_claims :
    List MemoryDescriptor
    → Option (Result (Unit {0}) × Current × Memory)
    → Option (Result (List (ℕ × ℕ)) × Current × Memory)
with_claims map none = none
with_claims map (some (err e, c, m)) = some (err e, c, m)
with_claims map (some (ok u, c, m)) = some (ok (claim_all map), c, m)

-- `map` are the descriptors that the firmware leaves.
unfoldable pub exit_uefi :
    Hardware
    → Bool
    → Bool
    → Bool
    → List MemoryDescriptor
    → MemRangeData
    → Current
    → Memory
    → Option (Result (List (ℕ × ℕ)) × Current × Memory)
unfolding update_paging claim_all create_paging
exit_uefi hw nx pdpt_huge five map stack c m =
    let (t, r) = update_paging map stack in
    with_claims map (create_paging hw nx pdpt_huge five t r c m)
