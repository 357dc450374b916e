-- ===== src/Trampoline/Args.antt =====
-- src/multi_core/init/raw.rs: the fields of the program that `init_trampoline` fills.
use okots_os.Base.{
  ℕ, ◌+◌, ◌%◌, ◌^◌, ◌<◌, ◌≡◌, refl, ◌∙◌, inl, inr, Bool, true, false, List, if◌then◌else◌, arith,
}
use okots_os.Start.{Current}
use okots_os.Trampoline.{
  Ram, Processor, tramp_target, read_le, write_le, copied, tmp_table_at, stack_at, target_at,
  cr4_at, flags_at, flags_of, write_args,
}
use okots_os.Trampoline.Bytes.{Outside, write_le-Outside, read_le-write_le, read_le-apart}

-- The other processors find the arguments in their fields, and the program around them.
pub record IsInstalled (cpu : Processor) (program : List ℕ) (cr3 entry_point stack_ptr : ℕ)
    (before ram : Ram) : Type 0 where
  pub tmp_table : read_le 8 tmp_table_at ram ≡ cr3
  pub stack : read_le 8 stack_at ram ≡ stack_ptr
  pub target : read_le 8 target_at ram ≡ entry_point
  pub cr4 : read_le 8 cr4_at ram ≡ cpu.cr4
  pub flags : ram flags_at ≡ flags_of cpu
  pub program_kept :
      (b : ℕ)
      → Outside 24 tmp_table_at b
      → Outside 9 cr4_at b
      → ram b ≡ copied program tramp_target before b

pub write_args-IsInstalled :
    (cpu : Processor) (program : List ℕ) (c : Current) (entry_point stack_ptr : ℕ) (before : Ram)
    → c.cr3 < 2 ^ 64
    → entry_point < 2 ^ 64
    → stack_ptr < 2 ^ 64
    → cpu.cr4 < 2 ^ 64
    → IsInstalled cpu program c.cr3 entry_point stack_ptr before
        (write_args cpu program c entry_point stack_ptr (copied program tramp_target before))
unfolding write_args
write_args-IsInstalled cpu program c entry_point stack_ptr before p q r t =
    let ram0 : Ram = copied program tramp_target before in
    let ram1 : Ram = write_le 1 (flags_of cpu) flags_at ram0 in
    let ram2 : Ram = write_le 8 stack_ptr stack_at ram1 in
    let ram3 : Ram = write_le 8 entry_point target_at ram2 in
    let ram4 : Ram = write_le 8 c.cr3 tmp_table_at ram3 in
    record {
      tmp_table =
          read_le-apart 8 tmp_table_at 8 cpu.cr4 cr4_at ram4 (inl (omega arith))
          ∙ read_le-write_le 8 c.cr3 tmp_table_at ram3 p;
      stack =
          read_le-apart 8 stack_at 8 cpu.cr4 cr4_at ram4 (inl (omega arith))
          ∙ read_le-apart 8 stack_at 8 c.cr3 tmp_table_at ram3 (inr (omega arith))
          ∙ read_le-apart 8 stack_at 8 entry_point target_at ram2 (inl (omega arith))
          ∙ read_le-write_le 8 stack_ptr stack_at ram1 r;
      target =
          read_le-apart 8 target_at 8 cpu.cr4 cr4_at ram4 (inl (omega arith))
          ∙ read_le-apart 8 target_at 8 c.cr3 tmp_table_at ram3 (inr (omega arith))
          ∙ read_le-write_le 8 entry_point target_at ram2 q;
      cr4 = read_le-write_le 8 cpu.cr4 cr4_at ram4 t;
      flags =
          write_le-Outside 8 cpu.cr4 cr4_at flags_at ram4 (inr (omega arith))
          ∙ write_le-Outside 8 c.cr3 tmp_table_at flags_at ram3 (inr (omega arith))
          ∙ write_le-Outside 8 entry_point target_at flags_at ram2 (inr (omega arith))
          ∙ write_le-Outside 8 stack_ptr stack_at flags_at ram1 (inr (omega arith))
          ∙ small_flags cpu.l5 cpu.nx;
      program_kept = λ b o o'.
          write_le-Outside 8 cpu.cr4 cr4_at b ram4 (ground (arith, o'))
          ∙ write_le-Outside 8 c.cr3 tmp_table_at b ram3 (ground (arith, o))
          ∙ write_le-Outside 8 entry_point target_at b ram2 (ground (arith, o))
          ∙ write_le-Outside 8 stack_ptr stack_at b ram1 (ground (arith, o))
          ∙ write_le-Outside 1 (flags_of cpu) flags_at b ram0 (ground (arith, o'));
    }
  where
    small_flags :
        (l5 nx : Bool)
        → ((if l5 then 2 else 0) + (if nx then 1 else 0)) % 256
          ≡ (if l5 then 2 else 0) + (if nx then 1 else 0)
    small_flags true true = refl
    small_flags true false = refl
    small_flags false true = refl
    small_flags false false = refl
