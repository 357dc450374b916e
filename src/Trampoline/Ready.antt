-- ===== src/Trampoline/Ready.antt =====
-- src/multi_core/init/raw.rs: what is in memory once the program is installed.
use okots_os.Base.{
  ℕ, ◌+◌, ◌%◌, ◌^◌, ◌≤◌, ◌<◌, ◌≡◌, ◌≢◌, ◌⊎◌, Bool, true, false, ◌&&◌, ◌||◌, some, List, [], ◌∷◌,
  All, length, sub_word,
}
use okots_os.Errors.{ok}
use okots_os.Firmware.{MemoryDescriptor}
use okots_os.Range.{MemRangeData, new}
use okots_os.Paging.Normalize.{Entry}
use okots_os.Paging.Hardware.{Hardware, IsX86}
use okots_os.Paging.Walk.{get_addr}
use okots_os.Paging.Build.Slots.{covered}
use okots_os.Paging.Update.Owned.{IsRaw}
use okots_os.Start.{Current}
use okots_os.Trampoline.{
  Ram, Processor, State, Outcome, tramp_target, copied, align_up, is_in_the_way, is_untouched,
  is_safe,
}
use okots_os.Trampoline.Checks.{IsStack}
use okots_os.Trampoline.Args.{IsInstalled}

-- the pages of the program
abbrev pages_of : List ℕ → MemRangeData
pages_of program = new 0x7000 (sub_word (align_up (tramp_target + length program) 4096) 0x7000)

-- The address behind the program, which the check of the mapping asks for too: it is in the last page
-- of the program, or the processor's record of the map has it.
abbrev pub IsEndMapped : List ℕ → List Entry → Type 0
IsEndMapped program es =
    ((tramp_target + length program) % 4096 ≢ 0)
    ⊎ (covered es (tramp_target + length program) ≡ true)

-- What the call relies on, beside the tables: a program that comes with its fields, a stack for each
-- processor, and no memory of the firmware's in the way.
pub record IsPlanned (program stacks : List ℕ) (uefi_map : List MemoryDescriptor)
    (over_write : Bool) (ram : Ram) : Type 0 where
  pub long : 8192 ≤ length program
  pub short : length program ≤ 2 ^ 40
  pub genuine :
      (is_untouched (copied program tramp_target (λ a. 0))
        && is_safe (copied program tramp_target (λ a. 0)))
      ≡ true
  pub stacks_valid : All IsStack stacks
  pub free : All (λ i. is_in_the_way (length program) i ≡ false) uefi_map
  pub fresh : (over_write ≡ true) ⊎ ((is_untouched ram || is_safe ram) ≡ false)

module _ (hw : Hardware) (x : IsX86 hw) (raw : IsRaw hw) (cpu : Processor) (program : List ℕ)
    (c : Current) (entry_point stack_ptr : ℕ) (over_write : Bool) (stacks : List ℕ)
    (uefi_map : List MemoryDescriptor) (ram : Ram)
    (h : IsPlanned program stacks uefi_map over_write ram) where
  abbrev tramp_len : ℕ
  tramp_len = tramp_target + length program

-- `init_trampoline` succeeds: the other processors are told once, the arguments are in their fields,
-- the rest of the program is around them, and every address of it translates to itself.
abbrev pub IsInstalledAt : Hardware → Processor → List ℕ → Current → ℕ → ℕ → Ram → Outcome → Type 0
IsInstalledAt hw cpu program c entry_point stack_ptr ram r =
    (s : State) × (r ≡ some (ok tt, s))
    × (s.told ≡ 33 ∷ [])
    × IsInstalled cpu program c.cr3 entry_point stack_ptr ram s.ram
    × ((a : ℕ)
        → tramp_target ≤ a
        → a < tramp_target + length program
        → get_addr hw cpu.l5 c.cr3 a s.memory ≡ ok a)
