-- ===== src/Trampoline.antt =====
-- src/multi_core/init/raw.rs: the page from which the other processors start. The program that is
-- copied there is a parameter, and so are the processor's registers; a panic is no result.
pub mod Bytes
pub mod Checks
pub mod Ready
pub mod Args
use Prim.Native.String.{String}
use okots_os.Base.{
  ℕ, zero, suc, ◌+◌, ◌-◌, ◌*◌, ◌/◌, ◌%◌, ◌^◌, Bool, true, false, not, ◌&&◌, ◌||◌, Option, none,
  some, List, [], ◌∷◌, length, ltb, leb, ◌==◌, if◌then◌else◌, add_word, mul_word, bit_or, get_elem?,
}
use okots_os.Errors.{
  Error, ErrorType, Result, ok, err, new, invalid_argument, allocation_failed, invalid_data,
  not_supported, internal_error,
}
use okots_os.Range.{MemRangeData, new_start_end}
use okots_os.Firmware.{MemoryDescriptor, MemoryType, runtime_services_code, runtime_services_data}
use okots_os.Paging.Flags.{present, writable}
use okots_os.Paging.Hardware.{Hardware}
use okots_os.Paging.Table.{Memory}
use okots_os.Paging.Walk.{get_addr}
use okots_os.Start.{Current}
use okots_os.Start.Update.{Told, util_update_add_paging, unwrap}

abbrev pub tramp_target : ℕ
tramp_target = 0x7500

-- the bytes of low memory, by their addresses
abbrev pub Ram : Type 0
Ram = ℕ → ℕ

abbrev pub read_le : ℕ → ℕ → Ram → ℕ
read_le zero a ram = 0
read_le (suc n) a ram = ram a + 256 * read_le n (a + 1) ram

abbrev pub write_le : ℕ → ℕ → ℕ → Ram → Ram
write_le zero v a ram = ram
write_le (suc n) v a ram = write_le n (v / 256) (a + 1) (λ b. if b == a then v % 256 else ram b)

-- The fields of `TrampolineArgs`, which begins at `TRAMP_TARGET`.
abbrev pub safety_at : ℕ
safety_at = tramp_target

abbrev pub tmp_table_at : ℕ
tmp_table_at = tramp_target + 8

abbrev pub stack_at : ℕ
stack_at = tramp_target + 16

abbrev pub target_at : ℕ
target_at = tramp_target + 24

abbrev pub frarg_at : ℕ
frarg_at = tramp_target + 32

abbrev pub cr4_at : ℕ
cr4_at = tramp_target + 40

abbrev pub flags_at : ℕ
flags_at = tramp_target + 48

abbrev pub refuse : ErrorType → String → Result (Unit {0})
refuse ty message = err (new ty (some message))

-- the loop over the stacks, from index `l` on
abbrev pub stacks_valid : ℕ → ℕ → List ℕ → Bool
stacks_valid len l [] = true
stacks_valid len l (st ∷ stack) =
    let is_aligned = st % 16 == 0 in
    let is_last_entry = l == len - 1 in
    let is_canary = st == 1 in
    let is_ok = is_aligned || is_last_entry && is_canary in
    not ((st == 0) || not is_ok) && stacks_valid len (l + 1) stack

abbrev pub last_is_one : List ℕ → Bool
last_is_one [] = false
last_is_one (st ∷ []) = st == 1
last_is_one (st ∷ st' ∷ stack) = last_is_one (st' ∷ stack)

abbrev pub is_runtime : MemoryType → Bool
is_runtime runtime_services_code = true
is_runtime runtime_services_data = true
is_runtime ty = false

-- whether a descriptor of the firmware's own memory is in the way
abbrev pub is_in_the_way : ℕ → MemoryDescriptor → Bool
is_in_the_way len i =
    let mem_start = i.phys_start in
    let mem_end = add_word i.phys_start (mul_word i.page_count 4096) in
    ltb mem_start (tramp_target + len) && ltb tramp_target mem_end && is_runtime i.ty

abbrev pub any_in_the_way : ℕ → List MemoryDescriptor → Bool
any_in_the_way len [] = false
any_in_the_way len (i ∷ map) = is_in_the_way len i || any_in_the_way len map

-- The fields hold what the program comes with.
abbrev pub is_untouched : Ram → Bool
is_untouched ram =
    (read_le 8 tmp_table_at ram == 0x56)
    && (read_le 8 stack_at ram == 0x72)
    && (read_le 8 target_at ram == 0x85)
    && (read_le 8 frarg_at ram == 0x95)
    && (ram flags_at == 2)

abbrev pub is_safe : Ram → Bool
is_safe ram = read_le 8 safety_at ram == 0x54855fafb595ad

-- `copy_nonoverlapping` of the program
abbrev pub copied : List ℕ → ℕ → Ram → Ram
copied [] a ram = ram
copied (byte ∷ bytes) a ram = copied bytes (a + 1) (λ b. if b == a then byte else ram b)

abbrev pub align_up : ℕ → ℕ → ℕ
align_up addr align = (addr + align - 1) / align * align

-- `CR3`, `CR4` and the flags of the processor
pub record Processor : Type 0 where
  pub l5 : Bool
  pub nx : Bool
  pub pdpt_huge : Bool
  pub cr4 : ℕ

abbrev pub flags_of : Processor → ℕ
flags_of cpu = (if cpu.l5 then 2 else 0) + (if cpu.nx then 1 else 0)

-- the interrupts that have been sent, the tables and low memory
pub record State : Type 0 where
  pub told : List ℕ
  pub memory : Memory
  pub ram : Ram

abbrev pub Outcome : Type 0
Outcome = Option (Result (Unit {0}) × State)

module _ (cpu : Processor) (program : List ℕ) (c : Current) (entry_point stack_ptr : ℕ) where
  -- the last assignments
  unfoldable pub write_args : Ram → Ram
  write_args ram = write_le 8 cpu.cr4 cr4_at (
      write_le 8 c.cr3 tmp_table_at (
        write_le 8 entry_point target_at
          (write_le 8 stack_ptr stack_at (write_le 1 (flags_of cpu) flags_at ram))))

  -- from the copy on
  unfoldable pub install : State → Result (Unit {0}) × State
  install s =
      let ram = copied program tramp_target s.ram in
      if not (is_untouched ram && is_safe ram)
      then (refuse internal_error "The health check failed.", record s { ram = ram })
      else (ok tt, record s { ram = write_args ram })

  module _ (hw : Hardware) (over_write : Bool) where
    -- whether both ends of the program are mapped to themselves, and the program is not there yet
    unfoldable pub check_mapping : Result ℕ → Result ℕ → State → Result (Unit {0}) × State
    check_mapping (err e) end s = (refuse invalid_data "Mapping is required.", s)
    check_mapping (ok start) (err e) s = (refuse invalid_data "Mapping is required.", s)
    check_mapping (ok start) (ok end) s =
        if not (start == tramp_target) || not (end == tramp_target + length program)
        then (refuse not_supported "The scope of influence must be a 1:1 mapping.", s)
        else if not over_write && (is_untouched s.ram || is_safe s.ram)
        then (refuse internal_error "It has already been created.", s)
        else install s

    unfoldable pub after_mapping : List MemoryDescriptor → State → Result (Unit {0}) × State
    after_mapping uefi_map s =
        if any_in_the_way (length program) uefi_map
        then (refuse allocation_failed "The location for the trampoline code is already in use.", s)
        else check_mapping (get_addr hw cpu.l5 c.cr3 tramp_target s.memory)
            (get_addr hw cpu.l5 c.cr3 (tramp_target + length program) s.memory) s

    abbrev pub mapped_then : List MemoryDescriptor → Ram → Option Told → Outcome
    mapped_then uefi_map ram none = none
    mapped_then uefi_map ram (some (told, m)) =
        some (after_mapping uefi_map (record { told = told; memory = m; ram = ram }))

    -- `util_update_add_paging` of the pages of the program
    unfoldable pub map_program :
        Option MemRangeData → List MemoryDescriptor → Memory → Ram → Outcome
    map_program none uefi_map m ram = none
    map_program (some range) uefi_map m ram = mapped_then uefi_map ram (
        unwrap (
          util_update_add_paging hw true cpu.nx cpu.pdpt_huge (range ∷ [])
            (bit_or present writable ∷ []) c m))

    unfoldable pub init_trampoline : List ℕ → List MemoryDescriptor → Memory → Ram → Outcome
    init_trampoline stack uefi_map m ram =
        let s : State = record { told = []; memory = m; ram = ram } in
        if not (stacks_valid (length stack) 0 stack)
        then some (refuse invalid_argument "stack pointer is invalid.", s)
        else if not (last_is_one stack)
        then some (refuse invalid_argument "stack last item is need 0x1.", s)
        else map_program
            (new_start_end (tramp_target / 4096 * 4096)
              (align_up (tramp_target + length program) 4096))
            uefi_map m ram
