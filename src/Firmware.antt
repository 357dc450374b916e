-- ===== src/Firmware.antt =====
-- src/uefi_helper/boot.rs: the firmware's memory map, and the end of the boot services. A panic is
-- `none`. The firmware is a parameter.
pub mod Entries
pub mod Attempts
use okots_os.Base.{
  ℕ, zero, suc, ◌+◌, ◌-◌, ◌^◌, Bool, true, false, ◌||◌, Option, none, some, List, [], ◌∷◌, leb, ltb,
  ◌==◌, if◌then◌else◌, add_word, mul_word,
}

pub record MemoryMapIter : Type 0 where
  pub ptr : ℕ
  pub end : ℕ
  pub desc_size : ℕ

-- the address of the descriptor, and the iterator after it
unfoldable pub next : MemoryMapIter → Option (ℕ × MemoryMapIter)
next self =
    if leb self.end self.ptr
    then none
    else some (self.ptr, record self { ptr = self.ptr + self.desc_size })

pub record MyMemoryMapOwned : Type 0 where
  pub ptr : ℕ
  pub layout : ℕ × ℕ
  pub total_size : ℕ
  pub desc_size : ℕ

abbrev pub iter : MyMemoryMapOwned → MemoryMapIter
iter self = record { ptr = self.ptr; end = self.ptr + self.total_size; desc_size = self.desc_size }

-- the firmware's names for kinds of memory; the others are known by a number
pub data MemoryType : Type 0 where
  conventional loader_code loader_data boot_services_code boot_services_data : MemoryType
  runtime_services_code runtime_services_data mmio mmio_port_space : MemoryType
  other_type : ℕ → MemoryType

-- what the kernel reads of a descriptor
pub record MemoryDescriptor : Type 0 where
  pub ty : MemoryType
  pub phys_start : ℕ
  pub page_count : ℕ

abbrev pub is_conventional : MemoryType → Bool
is_conventional conventional = true
is_conventional ty = false

-- `RUNTIME_SERVICES_CODE` or `LOADER_CODE`
abbrev pub is_code : MemoryType → Bool
is_code runtime_services_code = true
is_code loader_code = true
is_code ty = false

-- `MMIO` or `MMIO_PORT_SPACE`
abbrev pub is_mmio : MemoryType → Bool
is_mmio mmio = true
is_mmio mmio_port_space = true
is_mmio ty = false

-- `BOOT_SERVICES_CODE` or `BOOT_SERVICES_DATA`
abbrev pub is_boot_services : MemoryType → Bool
is_boot_services boot_services_code = true
is_boot_services boot_services_data = true
is_boot_services ty = false

-- What `get_memory_map` answers: a status, 0 for success, and what it writes.
pub record Answer : Type 0 where
  pub status : ℕ
  pub map_size : ℕ
  pub map_key : ℕ
  pub desc_size : ℕ

-- The two services take the capacity of the buffer and the key.
pub record BootServices : Type 1 where
  pub State : Type 0
  pub get_memory_map : ℕ → State → Answer × State
  pub exit_boot_services : ℕ → State → ℕ × State

-- the capacity of the buffer, after the first answer
abbrev pub capacity_for : Answer → ℕ
capacity_for first = add_word first.map_size (mul_word first.desc_size 8)

-- The panics before the loop: no size of a descriptor, a size that makes no `Layout` (above
-- `isize::MAX` with the alignment), no memory. `alloc` gives the buffer's address for its size, 0
-- for a null pointer.
unfoldable pub is_refused : (ℕ → ℕ) → Answer → Bool
is_refused alloc first =
    (first.desc_size == 0)
    || ltb (2 ^ 63 - 4096) (capacity_for first)
    || (alloc (capacity_for first) == 0)

module _ (bt : BootServices) where
  -- the exit with the key of an answer; a size is given back for `return map`
  unfoldable pub exit_with : Answer × bt.State → Option ℕ × bt.State
  exit_with (a, s) =
      if a.status == 0
      then (let (exit_status, s') = bt.exit_boot_services a.map_key s in
          if exit_status == 0 then (some a.map_size, s') else (none, s'))
      else (none, s)

  -- one round of the loop
  unfoldable pub attempt : ℕ → bt.State → Option ℕ × bt.State
  unfolding exit_with
  attempt buffer_capacity s = exit_with (bt.get_memory_map buffer_capacity s)

  abbrev pub or_again : (bt.State → Option ℕ × bt.State) → Option ℕ × bt.State → Option ℕ × bt.State
  or_again again (some size, s) = (some size, s)
  or_again again (none, s) = again s

  -- `for _ in 0..3`, with `n` rounds left
  unfoldable pub attempts : ℕ → ℕ → bt.State → Option ℕ × bt.State
  unfolding attempt
  attempts buffer_capacity zero s = (none, s)
  attempts buffer_capacity (suc n) s =
      or_again (attempts buffer_capacity n) (attempt buffer_capacity s)

  abbrev pub owned : ℕ → ℕ → ℕ → Option ℕ × bt.State → Option MyMemoryMapOwned × bt.State
  owned buffer_ptr buffer_capacity desc_size (none, s) = (none, s)
  owned buffer_ptr buffer_capacity desc_size (some actual_map_size, s) = (
    some (record {
      ptr = buffer_ptr;
      layout = (buffer_capacity, 4096);
      total_size = actual_map_size;
      desc_size = desc_size;
    }),
    s,
  )

  unfoldable pub with_buffer : (ℕ → ℕ) → Answer × bt.State → Option MyMemoryMapOwned × bt.State
  unfolding is_refused attempts
  with_buffer alloc (first, s) =
      if is_refused alloc first
      then (none, s)
      else owned (alloc (capacity_for first)) (capacity_for first) first.desc_size
          (attempts (capacity_for first) 3 s)

  unfoldable pub exit_boot_services_with_talc :
      (ℕ → ℕ) → bt.State → Option MyMemoryMapOwned × bt.State
  unfolding with_buffer
  exit_boot_services_with_talc alloc s = with_buffer alloc (bt.get_memory_map 0 s)
