-- ===== src/Apic/Sent.antt =====
-- src/apic_helper/mod.rs: the interrupts that go out, whichever mode the local APIC is in.
use okots_os.Base.{
  ℕ, zero, suc, ◌+◌, ◌*◌, ◌/◌, ◌%◌, ◌^◌, ◌<◌, ◌≤◌, ◌≡◌, refl, ap, ap₂, ◌∙◌, inl, inr, Bool-cases,
  true, false, some, List, [], ◌∷◌, ◌++◌, if◌then◌else◌, bit_and, bit_or, arith, ◌==◌,
  Splits-8_bits, Splits-32_bits, bit_or-Splits, bit_or-zero, zero-bit_or,
}
use okots_os.Apic.{
  Processor, is_x2apic, send_fixed_ipi, send_init_ipi, send_sipi, send_ipi, if_x2apic_active,
  write_apic, read_apic, wait_for_delivery, broadcast_ipi_exc_self, broadcast_init_ipi_exc_self,
  broadcast_fixed_ipi,
}

-- an interrupt as the processor's manual has it: with no shorthand it goes to `destination`
pub record Ipi : Type 0 where
  pub destination : ℕ
  pub shorthand : ℕ
  pub level : ℕ
  pub delivery_mode : ℕ
  pub vector : ℕ

abbrev pub ipi : ℕ → ℕ → ℕ → ℕ → ℕ → Ipi
ipi destination shorthand level delivery_mode vector = record {
  destination = destination;
  shorthand = shorthand;
  level = level;
  delivery_mode = delivery_mode;
  vector = vector;
}

-- the fields of a command
abbrev pub ipi_of : ℕ → ℕ → Ipi
ipi_of destination command =
    ipi destination (command / 2 ^ 18 % 4) (command / 2 ^ 14 % 2) (command / 2 ^ 8 % 8)
      (command % 2 ^ 8)

-- How a local APIC behaves. A command is the 64 bits of one register, or in the mode without x2APIC
-- its low half, which goes to the destination that the high half holds. A read of the low half shows
-- in bit 12 that the command is not delivered yet, which it is after some reads, `waiting` of them.
pub record IsLocalApic (cpu : Processor) : Type 0 where
  pub base : cpu.State → ℕ
  pub sent : cpu.State → List Ipi
  pub high : cpu.State → ℕ
  pub waiting : cpu.State → ℕ
  pub patience : ℕ
  pub patient : (s : cpu.State) → waiting s < patience
  pub read_base : (s : cpu.State) → cpu.read_msr 0x1B s ≡ (base s, s)
  pub command :
      (s : cpu.State) (v : ℕ)
      → is_x2apic (base s) ≡ true
      → sent (cpu.write_msr 0x830 v s) ≡ sent s ++ ipi_of (v / 2 ^ 32) (v % 2 ^ 32) ∷ []
  pub set_high :
      (s : cpu.State) (v : ℕ)
      → is_x2apic (base s) ≡ false
      → (base (cpu.write_volatile 0xFEE00310 v s) ≡ base s)
        × (sent (cpu.write_volatile 0xFEE00310 v s) ≡ sent s)
        × (high (cpu.write_volatile 0xFEE00310 v s) ≡ v / 2 ^ 24)
  pub set_low :
      (s : cpu.State) (v : ℕ)
      → is_x2apic (base s) ≡ false
      → (base (cpu.write_volatile 0xFEE00300 v s) ≡ base s)
        × (sent (cpu.write_volatile 0xFEE00300 v s) ≡ sent s ++ ipi_of (high s) v ∷ [])
  pub read_low :
      (s : cpu.State)
      → is_x2apic (base s) ≡ false
      → (base (cpu.read_volatile 0xFEE00300 s).1 ≡ base s)
        × (sent (cpu.read_volatile 0xFEE00300 s).1 ≡ sent s)
        × ((bit_and (cpu.read_volatile 0xFEE00300 s).0 (2 ^ 12) == 0) ≡ false
            → waiting (cpu.read_volatile 0xFEE00300 s).1 < waiting s)

-- an identifier has 8 bits without x2APIC
abbrev pub ids : ℕ → ℕ
ids base = if is_x2apic base then 2 ^ 32 else 2 ^ 8

or_vector : (k vector : ℕ) → vector < 256 → bit_or (k * 256) vector ≡ k * 256 + vector
or_vector k vector p =
    ap₂ bit_or (omega arith) (omega arith)
    ∙ Splits-8_bits bit_or bit_or-Splits k 0 0 vector (omega arith) p
    ∙ rw (bit_or-zero k, zero-bit_or vector) refl

or_destination :
    (destination cmd : ℕ)
    → cmd < 2 ^ 32
    → bit_or (destination * 2 ^ 32) cmd ≡ destination * 2 ^ 32 + cmd
or_destination destination cmd p =
    ap₂ bit_or (omega arith) (omega arith)
    ∙ Splits-32_bits bit_or bit_or-Splits destination 0 0 cmd (omega arith) p
    ∙ rw (bit_or-zero destination, zero-bit_or cmd) refl

command_fields :
    (destination k vector : ℕ)
    → vector < 2 ^ 8
    → k < 2 ^ 24
    → (bit_or (k * 256) vector < 2 ^ 32)
      × (ipi_of destination (bit_or (k * 256) vector)
          ≡ ipi destination (k / 2 ^ 10 % 4) (k / 2 ^ 6 % 2) (k % 8) vector)
command_fields destination k vector p q =
    let shorthand : (k * 256 + vector) / 2 ^ 18 % 4 ≡ k / 2 ^ 10 % 4 = omega arith in
    let level : (k * 256 + vector) / 2 ^ 14 % 2 ≡ k / 2 ^ 6 % 2 = omega arith in
    let mode : (k * 256 + vector) / 2 ^ 8 % 8 ≡ k % 8 = omega arith in
    let low : (k * 256 + vector) % 2 ^ 8 ≡ vector = omega arith in
    rw (or_vector k vector p) (omega arith, rw (shorthand, level, mode, low) refl)

module _ (cpu : Processor) (l : IsLocalApic cpu) where
  branches :
      {A : Type 0} (s : cpu.State) (x y : cpu.State → A)
      → if_x2apic_active cpu s x y ≡ (if is_x2apic (l.base s) then x s else y s)
  unfolding if_x2apic_active
  branches s x y = rw (l.read_base s) refl

  -- A command without x2APIC is two writes.
  abbrev written : ℕ → ℕ → cpu.State → cpu.State
  written high low s = cpu.write_volatile 0xFEE00300 low (cpu.write_volatile 0xFEE00310 high s)

  two_writes :
      (s : cpu.State) (high low : ℕ)
      → is_x2apic (l.base s) ≡ false
      → (write_apic cpu 0x300 low (write_apic cpu 0x310 high s) ≡ written high low s)
        × (l.base (written high low s) ≡ l.base s)
        × (l.sent (written high low s) ≡ l.sent s ++ ipi_of (high / 2 ^ 24) low ∷ [])
  unfolding write_apic
  two_writes s high low e =
      let (b, t, h) = l.set_high s high e in
      let e' : is_x2apic (l.base (cpu.write_volatile 0xFEE00310 high s)) ≡ false =
        ap is_x2apic b ∙ e in
      let (b', t') = l.set_low (cpu.write_volatile 0xFEE00310 high s) low e' in
      (
        rw (l.read_base s, e, l.read_base (cpu.write_volatile 0xFEE00310 high s), e') refl,
        b' ∙ b,
        t' ∙ rw (t, h) refl,
      )

  -- the fields that a command of 64 bits has
  command-sent :
      (s : cpu.State) (destination cmd : ℕ)
      → is_x2apic (l.base s) ≡ true
      → cmd < 2 ^ 32
      → l.sent (cpu.write_msr 0x830 (destination * 2 ^ 32 + cmd) s)
        ≡ l.sent s ++ ipi_of destination cmd ∷ []
  command-sent s destination cmd e p =
      l.command s (destination * 2 ^ 32 + cmd) e
      ∙ ap₂ (λ d c. l.sent s ++ ipi_of d c ∷ []) (omega arith) (omega arith)

  send_ipi-sent :
      (s : cpu.State) (apic_id cmd : ℕ)
      → apic_id < ids (l.base s)
      → cmd < 2 ^ 32
      → l.sent (send_ipi cpu apic_id cmd s) ≡ l.sent s ++ ipi_of apic_id cmd ∷ []
  unfolding send_ipi
  send_ipi-sent s apic_id cmd p q = elim (Bool-cases (is_x2apic (l.base s))) [
    | inl e ↦
        let bound : ids (l.base s) ≡ 2 ^ 32 = rw e refl in
        let shift : apic_id * 2 ^ 32 % 2 ^ 64 ≡ apic_id * 2 ^ 32 = omega arith in
        rw (branches s, e, shift, or_destination apic_id cmd q) (command-sent s apic_id cmd e q)
    | inr e ↦
        let bound : ids (l.base s) ≡ 2 ^ 8 = rw e refl in
        let (w, b, t) = two_writes s (apic_id * 2 ^ 24 % 2 ^ 32) (cmd % 2 ^ 32) e in
        rw (branches s, e)
          (ap l.sent w ∙ t ∙ ap₂ (λ d c. l.sent s ++ ipi_of d c ∷ []) (omega arith) (omega arith))
  ]

  -- For an identifier that the mode has: the three commands send one interrupt each, to that
  -- processor and no other, whichever mode the local APIC is in. It is a fixed one with the vector,
  -- an INIT, or a startup with the vector; the first two assert the level.
  pub send-IsSent :
      (s : cpu.State) (apic_id vector : ℕ)
      → apic_id < ids (l.base s)
      → vector < 2 ^ 8
      → (l.sent (send_fixed_ipi cpu apic_id vector s) ≡ l.sent s ++ ipi apic_id 0 1 0 vector ∷ [])
        × (l.sent (send_init_ipi cpu apic_id s) ≡ l.sent s ++ ipi apic_id 0 1 5 0 ∷ [])
        × (l.sent (send_sipi cpu apic_id vector s) ≡ l.sent s ++ ipi apic_id 0 0 6 vector ∷ [])
  unfolding send_fixed_ipi send_init_ipi send_sipi
  send-IsSent s apic_id vector p q =
      let (fixed_small, fixed) = command_fields apic_id 64 vector q (omega arith) in
      let (startup_small, startup) = command_fields apic_id 6 vector q (omega arith) in
      (
        send_ipi-sent s apic_id (bit_or (64 * 256) vector) p fixed_small
            ∙ ap (λ i. l.sent s ++ i ∷ []) fixed,
        send_ipi-sent s apic_id (69 * 256) p (omega arith),
        send_ipi-sent s apic_id (bit_or (6 * 256) vector) p startup_small
            ∙ ap (λ i. l.sent s ++ i ∷ []) startup,
      )

  wait_for_delivery-Ends :
      (fuel : ℕ) (s : cpu.State)
      → is_x2apic (l.base s) ≡ false
      → l.waiting s < fuel
      → (s' : cpu.State) × (wait_for_delivery cpu fuel s ≡ some s') × (l.sent s' ≡ l.sent s)
  unfolding wait_for_delivery read_apic
  wait_for_delivery-Ends zero s e p = absurd (omega arith)
  wait_for_delivery-Ends (suc fuel) s e p =
      let (b, t, w) = l.read_low s e in
      let (status, s') = cpu.read_volatile 0xFEE00300 s in
      rw (l.read_base s, e)
        (elim (Bool-cases (bit_and status (2 ^ 12) == 0)) [
          | inl d ↦ (s', rw d refl, t)
          | inr d ↦
              let (s'', r, t') =
                wait_for_delivery-Ends fuel s' (ap is_x2apic b ∙ e) (omega (arith, w d)) in
              (s'', rw d r, t' ∙ t)
        ])

  broadcast-Ends :
      (fuel k mode_flags vector : ℕ) (s : cpu.State)
      → bit_or (3 * 2 ^ 18) mode_flags ≡ k * 256
      → k < 2 ^ 24
      → vector < 2 ^ 8
      → l.patience ≤ fuel
      → (s' : cpu.State) × (broadcast_ipi_exc_self cpu fuel mode_flags vector s ≡ some s')
        × (l.sent s' ≡ l.sent s ++ ipi 0 (k / 2 ^ 10 % 4) (k / 2 ^ 6 % 2) (k % 8) vector ∷ [])
  unfolding broadcast_ipi_exc_self
  broadcast-Ends fuel k mode_flags vector s m r q p =
      let (small, fields) = command_fields 0 k vector q r in
      let cmd : ℕ = bit_or (k * 256) vector in
      let extended = ap (λ i. l.sent s ++ i ∷ []) fields in
      elim (Bool-cases (is_x2apic (l.base s))) [
        | inl e ↦ (
          cpu.write_msr 0x830 cmd s,
          rw (m, branches s, e) refl,
          ap (λ c. l.sent (cpu.write_msr 0x830 c s)) (omega arith)
              ∙ command-sent s 0 cmd e small
              ∙ extended,
        )
        | inr e ↦
            let (w, b, t) = two_writes s 0 (cmd % 2 ^ 32) e in
            let (s', d, t') =
              wait_for_delivery-Ends fuel (written 0 (cmd % 2 ^ 32) s) (ap is_x2apic b ∙ e)
                (omega (arith, l.patient (written 0 (cmd % 2 ^ 32) s))) in
            (
              s',
              rw (m, branches s, e) (ap (wait_for_delivery cpu fuel) w ∙ d),
              t' ∙ t ∙ ap (λ c. l.sent s ++ ipi_of 0 c ∷ []) (omega (arith, small)) ∙ extended,
            )
      ]

  -- For fuel for as many readings as a delivery takes: both broadcasts end, whichever mode the local
  -- APIC is in, and have sent one interrupt, to all processors but this one. It is an INIT, or a
  -- fixed one with the vector, and asserts the level.
  pub broadcast-IsSent :
      (fuel vector : ℕ) (s : cpu.State)
      → vector < 2 ^ 8
      → l.patience ≤ fuel
      → ((s' : cpu.State) × (broadcast_init_ipi_exc_self cpu fuel s ≡ some s')
          × (l.sent s' ≡ l.sent s ++ ipi 0 3 1 5 0 ∷ []))
        × ((s' : cpu.State) × (broadcast_fixed_ipi cpu fuel vector s ≡ some s')
            × (l.sent s' ≡ l.sent s ++ ipi 0 3 1 0 vector ∷ []))
  unfolding broadcast_init_ipi_exc_self broadcast_fixed_ipi
  broadcast-IsSent fuel vector s q p = (
    broadcast-Ends fuel 3141 (5 * 2 ^ 8 + 2 ^ 14) 0 s refl (omega arith) (omega arith) p,
    broadcast-Ends fuel 3136 (2 ^ 14) vector s refl (omega arith) q p,
  )
