-- ===== src/Apic.antt =====
-- src/apic_helper/mod.rs: the registers of the local APIC in both of its modes, and the interrupts
-- that a processor sends to others. The processor is a parameter.
pub mod Sent
pub mod Setup
use okots_os.Base.{
  ℕ, zero, suc, ◌+◌, ◌*◌, ◌/◌, ◌%◌, ◌^◌, Bool, not, Option, none, some, ◌==◌, if◌then◌else◌, bit_or,
  bit_and,
}

-- the model specific registers, and the double words of physical memory
pub record Processor : Type 1 where
  pub State : Type 0
  pub read_msr : ℕ → State → ℕ × State
  pub write_msr : ℕ → ℕ → State → State
  pub read_volatile : ℕ → State → ℕ × State
  pub write_volatile : ℕ → ℕ → State → State

abbrev pub is_x2apic : ℕ → Bool
is_x2apic base = not (bit_and base (2 ^ 10) == 0)

abbrev pub ia32_apic_base_msr : ℕ
ia32_apic_base_msr = 0x1B

abbrev pub x2apic_msr_base : ℕ
x2apic_msr_base = 0x800

abbrev pub x2apic_msr_icr : ℕ
x2apic_msr_icr = 0x830

abbrev pub xapic_base_addr : ℕ
xapic_base_addr = 0xFEE00000

abbrev pub apic_reg_icr_low : ℕ
apic_reg_icr_low = 0x300

abbrev pub apic_reg_icr_high : ℕ
apic_reg_icr_high = 0x310

abbrev pub icr_init : ℕ
icr_init = 5 * 2 ^ 8

abbrev pub icr_startup : ℕ
icr_startup = 6 * 2 ^ 8

-- `ICR_ASSERT` and `ICR_LEVEL_ASSERT`
abbrev pub icr_assert : ℕ
icr_assert = 2 ^ 14

abbrev pub icr_dest_all_exc_self : ℕ
icr_dest_all_exc_self = 3 * 2 ^ 18

module _ (cpu : Processor) where
  -- the two branches on `is_x2apic_active`
  unfoldable pub if_x2apic_active : {A : Type 0} → cpu.State → (cpu.State → A) → (cpu.State → A) → A
  if_x2apic_active s x2apic xapic =
      let (base, s') = cpu.read_msr ia32_apic_base_msr s in
      if is_x2apic base then x2apic s' else xapic s'

  unfoldable pub write_apic : ℕ → ℕ → cpu.State → cpu.State
  unfolding if_x2apic_active
  write_apic reg_offset value s =
      if_x2apic_active s
        (λ s.
          if reg_offset == apic_reg_icr_high
          then s
          else cpu.write_msr (x2apic_msr_base + reg_offset / 16) value s)
        (cpu.write_volatile (xapic_base_addr + reg_offset) value)

  unfoldable pub read_apic : ℕ → cpu.State → ℕ × cpu.State
  unfolding if_x2apic_active
  read_apic reg_offset s =
      if_x2apic_active s
        (λ s.
          if reg_offset == apic_reg_icr_high
          then (0, s)
          else (let (value, s') = cpu.read_msr (x2apic_msr_base + reg_offset / 16) s in
              (value % 2 ^ 32, s')))
        (cpu.read_volatile (xapic_base_addr + reg_offset))

  -- the body that `send_fixed_ipi`, `send_init_ipi` and `send_sipi` have in common
  unfoldable pub send_ipi : ℕ → ℕ → cpu.State → cpu.State
  send_ipi apic_id cmd s =
      if_x2apic_active s (cpu.write_msr x2apic_msr_icr (bit_or (apic_id * 2 ^ 32 % 2 ^ 64) cmd))
        (λ s.
          write_apic apic_reg_icr_low (cmd % 2 ^ 32)
            (write_apic apic_reg_icr_high (apic_id * 2 ^ 24 % 2 ^ 32) s))

  unfoldable pub send_fixed_ipi : ℕ → ℕ → cpu.State → cpu.State
  unfolding send_ipi
  send_fixed_ipi apic_id vector = send_ipi apic_id (bit_or (bit_or 0 icr_assert) vector)

  unfoldable pub send_init_ipi : ℕ → cpu.State → cpu.State
  unfolding send_ipi
  send_init_ipi apic_id = send_ipi apic_id (bit_or icr_init icr_assert)

  unfoldable pub send_sipi : ℕ → ℕ → cpu.State → cpu.State
  unfolding send_ipi
  send_sipi apic_id vector = send_ipi apic_id (bit_or icr_startup vector)

  -- `while (read_apic(APIC_REG_ICR_LOW) & (1 << 12)) != 0`, over at most `fuel` readings
  unfoldable pub wait_for_delivery : ℕ → cpu.State → Option cpu.State
  unfolding read_apic
  wait_for_delivery zero s = none
  wait_for_delivery (suc fuel) s =
      let (status, s') = read_apic apic_reg_icr_low s in
      let rest = wait_for_delivery fuel s' in if bit_and status (2 ^ 12) == 0 then some s' else rest

  unfoldable pub broadcast_ipi_exc_self : ℕ → ℕ → ℕ → cpu.State → Option cpu.State
  broadcast_ipi_exc_self fuel mode_flags vector s =
      if_x2apic_active s (λ s. some (cpu.write_msr x2apic_msr_icr cmd s))
        (λ s.
          wait_for_delivery fuel
            (write_apic apic_reg_icr_low (cmd % 2 ^ 32) (write_apic apic_reg_icr_high 0 s)))
    where
      cmd : ℕ
      cmd = bit_or (bit_or icr_dest_all_exc_self mode_flags) vector

  unfoldable pub broadcast_init_ipi_exc_self : ℕ → cpu.State → Option cpu.State
  unfolding broadcast_ipi_exc_self
  broadcast_init_ipi_exc_self fuel = broadcast_ipi_exc_self fuel (bit_or icr_init icr_assert) 0

  unfoldable pub broadcast_fixed_ipi : ℕ → ℕ → cpu.State → Option cpu.State
  unfolding broadcast_ipi_exc_self
  broadcast_fixed_ipi fuel vector = broadcast_ipi_exc_self fuel (bit_or 0 icr_assert) vector
