-- ===== src/Apic/Setup.antt =====
-- src/apic_helper/mod.rs, `init_local_apic`: the registers and the two handlers. The addresses of the
-- handlers are parameters, and a failed `unwrap` is no result.
use okots_os.Base.{
  ℕ, ◌+◌, ◌*◌, ◌/◌, ◌%◌, ◌^◌, ◌≡◌, refl, ap, ap₂, ◌∙◌, inl, inr, Bool, Bool-cases, true, false,
  Option, none, some, List, [], ◌∷◌, All, if◌then◌else◌, bit_or, arith, ◌==◌, Splits-16_bits,
  bit_or-Splits, bit_or-zero, by_table, checked, ◌||◌, ◌⊎◌, sym,
}
use okots_os.Errors.{ok, err}
use okots_os.Interrupt.{Idt, write, add}
use okots_os.Apic.{Processor, is_x2apic, write_apic, read_apic}

abbrev pub lvt_regs : List ℕ
lvt_regs = 0x320 ∷ 0x330 ∷ 0x340 ∷ 0x350 ∷ 0x360 ∷ 0x370 ∷ []

abbrev spurious_vector : ℕ
spurious_vector = 0xFF

abbrev error_vector : ℕ
error_vector = 0xFE

-- `add(..., true).unwrap().set_present(true)`
abbrev pub add_present : ℕ → ℕ → Idt → Option Idt
add_present id target idt =
    let (r, idt') = add id target true idt in
    elim r [ err e ↦ none | ok u ↦ some (write idt' id (record (idt' id) { present = true })) ]

module _ (cpu : Processor) where
  -- an entry of the local vector table is masked
  unfoldable pub mask : ℕ → cpu.State → cpu.State
  mask reg s = let (val, s') = read_apic cpu reg s in write_apic cpu reg (bit_or val (2 ^ 16)) s'

  unfoldable pub mask_all : List ℕ → cpu.State → cpu.State
  unfolding mask
  mask_all [] s = s
  mask_all (reg ∷ regs) s = mask_all regs (mask reg s)

  -- `base_msr`
  abbrev pub new_base : Bool → ℕ → ℕ
  new_base x2_supported base_msr =
      if x2_supported then bit_or (bit_or base_msr (2 ^ 11)) (2 ^ 10) else bit_or base_msr (2 ^ 11)

  unfoldable pub init_registers : Bool → cpu.State → cpu.State
  init_registers x2_supported s =
      let (base_msr, s') = cpu.read_msr 0x1B s in
      let enabled = cpu.write_msr 0x1B (new_base x2_supported base_msr) s' in
      let cleared = write_apic cpu 0x280 0 (write_apic cpu 0x280 0 enabled) in
      let masked = mask_all lvt_regs cleared in
      let accepting = write_apic cpu 0x80 0 masked in
      let on = write_apic cpu 0xF0 (bit_or (2 ^ 8) spurious_vector) accepting in
      write_apic cpu 0x370 error_vector on

  unfoldable pub init_local_apic : ℕ → ℕ → Bool → cpu.State → Idt → Option (cpu.State × Idt)
  unfolding add
  init_local_apic spurious_handler error_handler x2_supported s idt =
      elim (add_present spurious_vector spurious_handler idt) [
        | none ↦ none
        | some idt' ↦ (elim (add_present error_vector error_handler idt') [
          | none ↦ none
          | some idt'' ↦ some (init_registers x2_supported s, idt'')
        ])
      ]

abbrev pub is_any : ℕ → List ℕ → Bool
is_any q [] = false
is_any q (r ∷ regs) = (q == r) || is_any q regs

abbrev pub masked_regs : List ℕ
masked_regs = 0x320 ∷ 0x330 ∷ 0x340 ∷ 0x350 ∷ 0x360 ∷ []

-- what the set-up leaves, and what it writes
abbrev pub kept_regs : List ℕ
kept_regs = 0x80 ∷ 0xF0 ∷ lvt_regs

abbrev pub written_regs : List ℕ
written_regs = 0x280 ∷ kept_regs

-- The registers of the local APIC that the set-up reads and writes keep what is written, whichever
-- mode it is in; but what a write of the error status leaves there is open.
pub record IsRegisterFile (cpu : Processor) : Type 0 where
  pub base : cpu.State → ℕ
  pub register : cpu.State → ℕ → ℕ
  pub read_base : (s : cpu.State) → cpu.read_msr 0x1B s ≡ (base s, s)
  pub read_x2apic :
      (s : cpu.State) (r : ℕ)
      → is_x2apic (base s) ≡ true
      → is_any r kept_regs ≡ true
      → cpu.read_msr (0x800 + r / 16) s ≡ (register s r % 2 ^ 32, s)
  pub read_xapic :
      (s : cpu.State) (r : ℕ)
      → is_x2apic (base s) ≡ false
      → is_any r kept_regs ≡ true
      → cpu.read_volatile (0xFEE00000 + r) s ≡ (register s r % 2 ^ 32, s)
  pub write_x2apic :
      (s : cpu.State) (r v q : ℕ)
      → is_x2apic (base s) ≡ true
      → is_any r written_regs ≡ true
      → is_any q kept_regs ≡ true
      → register (cpu.write_msr (0x800 + r / 16) v s) q ≡ (if q == r then v else register s q)
  pub write_xapic :
      (s : cpu.State) (r v q : ℕ)
      → is_x2apic (base s) ≡ false
      → is_any r written_regs ≡ true
      → is_any q kept_regs ≡ true
      → register (cpu.write_volatile (0xFEE00000 + r) v s) q ≡ (if q == r then v else register s q)

abbrev pub IsMasked : ℕ → Type 0
IsMasked entry = entry / 2 ^ 16 % 2 ≡ 1

odd_or : (n : ℕ) → bit_or n 1 % 2 ≡ 1
unfolding checked
odd_or n =
    let whole : bit_or n 1 ≡ bit_or (n / 2 * 2 + n % 2) (0 * 2 + 1) =
      ap₂ bit_or (omega arith) refl in
    let split = bit_or-Splits (n / 2) (n % 2) 0 1 (omega arith) (omega arith) in
    let low : bit_or (n % 2) 1 ≡ 1 =
      by_table 2 (λ b. bit_or b 1) (λ b. 1) refl (n % 2) (omega arith) in
    rw (whole, split, low) (omega arith)

or_mask : (n : ℕ) → IsMasked (bit_or n (2 ^ 16))
or_mask n =
    let whole : bit_or n (2 ^ 16) ≡ bit_or (n / 2 ^ 16 * 2 ^ 16 + n % 2 ^ 16) (1 * 2 ^ 16 + 0) =
      ap₂ bit_or (omega arith) refl in
    let split =
      Splits-16_bits bit_or bit_or-Splits (n / 2 ^ 16) (n % 2 ^ 16) 1 0 (omega arith)
        (omega arith) in
    let low = bit_or-zero (n % 2 ^ 16) in
    rw (whole, split, low) (omega (arith, odd_or (n / 2 ^ 16)))

-- The two handlers are added, whatever the table had at their vectors.
handlers :
    (cpu : Processor) (spurious error : ℕ) (x2_supported : Bool) (s : cpu.State) (idt : Idt)
    → (idt' : Idt) × (init_local_apic cpu spurious error x2_supported s idt
        ≡ some (init_registers cpu x2_supported s, idt'))
      × (idt' 0xFF ≡ record { handler = spurious; present = true; code_selector = 1 })
      × (idt' 0xFE ≡ record { handler = error; present = true; code_selector = 1 })
unfolding init_local_apic
handlers cpu spurious error x2_supported s idt = (_, refl, refl, refl)

module _ (cpu : Processor) (f : IsRegisterFile cpu) where
  write_apic-register :
      (s : cpu.State) (r v q : ℕ)
      → is_any r written_regs ≡ true
      → is_any q kept_regs ≡ true
      → f.register (write_apic cpu r v s) q ≡ (if q == r then v else f.register s q)
  unfolding write_apic
  write_apic-register s r v q w h =
      let d : (r == 0x310) ≡ false = ground (arith, w) in
      elim (Bool-cases (is_x2apic (f.base s))) [
        | inl e ↦ rw (f.read_base s, e, d) (f.write_x2apic s r v q e w h)
        | inr e ↦ rw (f.read_base s, e) (f.write_xapic s r v q e w h)
      ]

  read_apic-register :
      (s : cpu.State) (r : ℕ)
      → is_any r kept_regs ≡ true
      → read_apic cpu r s ≡ (f.register s r % 2 ^ 32, s)
  unfolding read_apic
  read_apic-register s r k =
      let d : (r == 0x310) ≡ false = ground (arith, k) in
      elim (Bool-cases (is_x2apic (f.base s))) [
        | inl e ↦ rw (f.read_base s, e, d, f.read_x2apic s r e k) (ap (λ v. (v, s)) (omega arith))
        | inr e ↦ rw (f.read_base s, e) (f.read_xapic s r e k)
      ]

  -- the entries that the list has, and those that were masked before
  mask-IsMasked :
      (s : cpu.State) (r q : ℕ)
      → is_any r kept_regs ≡ true
      → is_any q kept_regs ≡ true
      → (q == r) ≡ true ⊎ IsMasked (f.register s q)
      → IsMasked (f.register (mask cpu r s) q)
  unfolding mask
  mask-IsMasked s r q d c m =
      let n : ℕ = f.register s r % 2 ^ 32 in
      rw
        (
          read_apic-register s r d,
          write_apic-register s r (bit_or n (2 ^ 16)) q (ground (arith, d)) c,
        )
        (elim (Bool-cases (q == r)) [
          | inl e ↦ rw e (or_mask n)
          | inr e ↦ rw e (elim m [ inl t ↦ absurd (ground (arith, e, t)) | inr k ↦ k ])
        ])

  mask_all-IsMasked :
      (regs : List ℕ) (s : cpu.State) (q : ℕ)
      → All (λ r. is_any r kept_regs ≡ true) regs
      → is_any q kept_regs ≡ true
      → is_any q regs ≡ true ⊎ IsMasked (f.register s q)
      → IsMasked (f.register (mask_all cpu regs s) q)
  unfolding mask_all
  mask_all-IsMasked [] s q d c (inl t) = absurd (ground (arith, t))
  mask_all-IsMasked [] s q d c (inr m) = m
  mask_all-IsMasked (r ∷ regs) s q d c m =
      mask_all-IsMasked regs (mask cpu r s) q d.1 c (elim (Bool-cases (q == r)) [
        | inl e ↦ inr (mask-IsMasked s r q d.0 c (inl e))
        | inr e ↦ elim m [
          | inl t ↦ inl (ap (λ b. b || is_any q regs) (sym e) ∙ t)
          | inr k ↦ inr (mask-IsMasked s r q d.0 c (inr k))
        ]
      ])

  last_writes :
      (m : cpu.State) (q : ℕ)
      → is_any q kept_regs ≡ true
      → f.register
          (write_apic cpu 0x370 0xFE (write_apic cpu 0xF0 0x1FF (write_apic cpu 0x80 0 m)))
          q
        ≡ (if q == 0x370
            then 0xFE
            else if q == 0xF0
            then 0x1FF
            else if q == 0x80
            then 0
            else f.register m q)
  last_writes m q c =
      let accepting : cpu.State = write_apic cpu 0x80 0 m in
      let on : cpu.State = write_apic cpu 0xF0 0x1FF accepting in
      write_apic-register on 0x370 0xFE q refl c
      ∙ rw
          (write_apic-register accepting 0xF0 0x1FF q refl c, write_apic-register m 0x80 0 q refl c)
          refl

  -- Whichever mode the local APIC comes to be in: `init_local_apic` succeeds, with both handlers
  -- present at their vectors, and all interrupts are accepted, with the spurious vector. The timer
  -- and the four other entries of the local vector table are masked; the last one is not, and has
  -- the vector of the errors.
  pub init_local_apic-IsSet :
      (spurious error : ℕ) (x2_supported : Bool) (s : cpu.State) (idt : Idt)
      → (s' : cpu.State) × (idt' : Idt) × (init_local_apic cpu spurious error x2_supported s idt
          ≡ some (s', idt'))
        × ((q : ℕ) → is_any q masked_regs ≡ true → IsMasked (f.register s' q))
        × (f.register s' 0x370 ≡ 0xFE)
        × (f.register s' 0x80 ≡ 0)
        × (f.register s' 0xF0 ≡ 0x1FF)
        × (idt' 0xFF ≡ record { handler = spurious; present = true; code_selector = 1 })
        × (idt' 0xFE ≡ record { handler = error; present = true; code_selector = 1 })
  unfolding init_registers
  init_local_apic-IsSet spurious error x2_supported s idt =
      let (idt', succeeds, at_spurious, at_error) =
        handlers cpu spurious error x2_supported s idt in
      let enabled : cpu.State = cpu.write_msr 0x1B (new_base cpu x2_supported (f.base s)) s in
      let cleared : cpu.State = write_apic cpu 0x280 0 (write_apic cpu 0x280 0 enabled) in
      let m : cpu.State = mask_all cpu lvt_regs cleared in
      let s' : cpu.State =
        write_apic cpu 0x370 0xFE (write_apic cpu 0xF0 0x1FF (write_apic cpu 0x80 0 m)) in
      (
        s',
        idt',
        succeeds ∙ ap (λ z. some (z, idt')) (rw (f.read_base s) refl),
        λ q h.
            let other : is_any q kept_regs ≡ true = ground (arith, h) in
            let error_entry : (q == 0x370) ≡ false = ground (arith, h) in
            let sv : (q == 0xF0) ≡ false = ground (arith, h) in
            let tp : (q == 0x80) ≡ false = ground (arith, h) in
            let listed : is_any q lvt_regs ≡ true = ground (arith, h) in
            rw (last_writes m q other, error_entry, sv, tp)
              (mask_all-IsMasked lvt_regs cleared q
                (refl, (refl, (refl, (refl, (refl, (refl, tt)))))) other (inl listed)),
        last_writes m 0x370 refl,
        last_writes m 0x80 refl,
        last_writes m 0xF0 refl,
        at_spurious,
        at_error,
      )
