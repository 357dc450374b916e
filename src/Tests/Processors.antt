-- ===== src/Tests/Processors.antt =====
-- src/apic_helper/mod.rs: a local APIC whose commands take one reading to be delivered, and one
-- whose registers are memory.
use okots_os.Base.{
  ℕ, ◌/◌, ◌%◌, ◌^◌, ◌<◌, ◌≡◌, refl, Bool, true, false, some, List, [], ◌∷◌, ◌++◌, if◌then◌else◌,
  ◌==◌, arith, bit_and, ◌+◌, ◌-◌, ◌*◌,
}
use okots_os.Apic.{
  Processor, send_fixed_ipi, send_init_ipi, send_sipi, broadcast_init_ipi_exc_self,
  broadcast_fixed_ipi,
}
use okots_os.Apic.Setup.{
  IsRegisterFile, init_local_apic, init_local_apic-IsSet, is_any, written_regs, IsMasked,
  masked_regs,
}
use okots_os.Interrupt.{Idt}
use okots_os.Apic.Sent.{Ipi, ipi, ipi_of, IsLocalApic, send-IsSent, broadcast-IsSent}

record Registers : Type 0 where
  base : ℕ
  high : ℕ
  busy : Bool
  sent : List Ipi

abbrev write_msr : ℕ → ℕ → Registers → Registers
write_msr register v s =
    if register == 0x830
    then record s { sent = s.sent ++ ipi_of (v / 2 ^ 32) (v % 2 ^ 32) ∷ [] }
    else s

abbrev write_volatile : ℕ → ℕ → Registers → Registers
write_volatile addr v s =
    if addr == 0xFEE00310
    then record s { high = v / 2 ^ 24 }
    else if addr == 0xFEE00300
    then record s { busy = true; sent = s.sent ++ ipi_of s.high v ∷ [] }
    else s

abbrev local_apic : Processor
local_apic = record {
  State = Registers;
  read_msr = λ register s. (s.base, s);
  write_msr = write_msr;
  read_volatile = λ addr s. (if s.busy then 2 ^ 12 else 0, record s { busy = false });
  write_volatile = write_volatile;
}

one_reading :
    (s : Registers)
    → (bit_and (if s.busy then 2 ^ 12 else 0) (2 ^ 12) == 0) ≡ false
    → 0 < (if s.busy then 1 else 0)
one_reading s = go s.busy
  where
    go :
        (busy : Bool)
        → (bit_and (if busy then 2 ^ 12 else 0) (2 ^ 12) == 0) ≡ false
        → 0 < (if busy then 1 else 0)
    go true h = omega arith
    go false h = ground arith

abbrev local_apic-IsLocalApic : IsLocalApic local_apic
local_apic-IsLocalApic = record {
  base = λ s. s.base;
  sent = λ s. s.sent;
  high = λ s. s.high;
  waiting = λ s. if s.busy then 1 else 0;
  patience = 2;
  patient = λ s. ground arith;
  read_base = λ s. refl;
  command = λ s v h. refl;
  set_high = λ s v h. (refl, refl, refl);
  set_low = λ s v h. (refl, refl);
  read_low = λ s h. (refl, refl, one_reading s);
}

-- without x2APIC
abbrev started : Registers
started = record { base = 0xFEE00900; high = 0; busy = false; sent = [] }

send-IsSent_example :
    ((send_fixed_ipi local_apic 3 0x21 started).sent ≡ [] ++ ipi 3 0 1 0 0x21 ∷ [])
    × ((send_init_ipi local_apic 3 started).sent ≡ [] ++ ipi 3 0 1 5 0 ∷ [])
    × ((send_sipi local_apic 3 0x21 started).sent ≡ [] ++ ipi 3 0 0 6 0x21 ∷ [])
send-IsSent_example =
    send-IsSent local_apic local_apic-IsLocalApic started 3 0x21 (omega arith) (omega arith)

broadcast-IsSent_example :
    ((s' : Registers) × (broadcast_init_ipi_exc_self local_apic 5 started ≡ some s')
      × (s'.sent ≡ [] ++ ipi 0 3 1 5 0 ∷ []))
    × ((s' : Registers) × (broadcast_fixed_ipi local_apic 5 0x21 started ≡ some s')
        × (s'.sent ≡ [] ++ ipi 0 3 1 0 0x21 ∷ []))
broadcast-IsSent_example =
    broadcast-IsSent local_apic local_apic-IsLocalApic 5 0x21 started (omega arith) (omega arith)

-- a local APIC whose registers are memory, by their offsets
abbrev put : (ℕ → ℕ) → ℕ → ℕ → ℕ → ℕ
put register r v q = if q == r then v else register q

abbrev memory_apic : Processor
memory_apic = record {
  State = ℕ × (ℕ → ℕ);
  read_msr = λ i s. (if i == 0x1B then s.0 else s.1 ((i - 0x800) * 16) % 2 ^ 32, s);
  write_msr = λ i v s. if i == 0x1B then (v, s.1) else (s.0, put s.1 ((i - 0x800) * 16) v);
  read_volatile = λ addr s. (s.1 (addr - 0xFEE00000) % 2 ^ 32, s);
  write_volatile = λ addr v s. (s.0, put s.1 (addr - 0xFEE00000) v);
}

offset_of_msr :
    (r : ℕ)
    → is_any r written_regs ≡ true
    → ((0x800 + r / 16 == 0x1B) ≡ false) × ((0x800 + r / 16 - 0x800) * 16 ≡ r)
offset_of_msr r h = (ground arith, ground (arith, h))

offset_of_address : (r : ℕ) → 0xFEE00000 + r - 0xFEE00000 ≡ r
offset_of_address r = omega arith

abbrev memory_apic-IsRegisterFile : IsRegisterFile memory_apic
memory_apic-IsRegisterFile = record {
  base = λ s. s.0;
  register = λ s. s.1;
  read_base = λ s. refl;
  read_x2apic = λ s r h k.
      let (other, offset) = offset_of_msr r (ground (arith, k)) in rw (other, offset) refl;
  read_xapic = λ s r h k. rw (offset_of_address r) refl;
  write_x2apic =
      λ s r v q h w k. let (other, offset) = offset_of_msr r w in rw (other, offset) refl;
  write_xapic = λ s r v q h w k. rw (offset_of_address r) refl;
}

abbrev no_handlers : Idt
no_handlers v = record { handler = 0; present = false; code_selector = 0 }

init_local_apic-IsSet_example :
    (s' : ℕ × (ℕ → ℕ)) × (idt' : Idt) × (init_local_apic memory_apic 0x5000 0x6000 true
        (0xFEE00900, λ r. 7)
        no_handlers
      ≡ some (s', idt'))
    × ((q : ℕ) → is_any q masked_regs ≡ true → IsMasked (s'.1 q))
    × (s'.1 0x370 ≡ 0xFE)
    × (s'.1 0x80 ≡ 0)
    × (s'.1 0xF0 ≡ 0x1FF)
    × (idt' 0xFF ≡ record { handler = 0x5000; present = true; code_selector = 1 })
    × (idt' 0xFE ≡ record { handler = 0x6000; present = true; code_selector = 1 })
init_local_apic-IsSet_example =
    init_local_apic-IsSet memory_apic memory_apic-IsRegisterFile 0x5000 0x6000 true
      (0xFEE00900, λ r. 7) no_handlers
