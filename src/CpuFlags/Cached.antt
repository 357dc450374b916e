-- ===== src/CpuFlags/Cached.antt =====
-- src/cpu_flags/mod.rs: what the cache answers.
use okots_os.Base.{
  ℕ, ◌%◌, ◌^◌, ◌≡◌, refl, sym, ap, ap₂, ◌∙◌, Bool, false, ◌&&◌, List, [], ◌∷◌, map, if◌then◌else◌,
  arith, ltb,
}
use okots_os.CpuFlags.{
  Cpu, CpuidResult, InternalFlagKind, current_paging_pml5, environment_capabilities,
  environment_cpuid_support_leaf7, environment_paging_pml5, environment_paging_pdpt_huge,
  environment_paging_nx, environment_tsc_hardware_adjust, environment_tsc_invariant_tsc,
  environment_tsc_aux, environment_apic_x2_supported, id_of, CpuFlagCache, new, has,
  raw_detect_flag_impl, is_set, given, found, has_leaf7, is_environment_pml5, cpuid_7_0,
  is_environment_cpuid_support_leaf7, is_current_pml5,
}
use okots_os.CpuFlags.Bit.{bit-zero, is_set-pow}
use okots_os.CpuFlags.Remember.{
  has_bit, base_leaf, ext_leaf, said, IsRight, Answers, has_id-Answers, kinds, spec_of, refused,
  accepted, guarded, again,
}

module _ (cpu : Cpu) where
  abbrev few : ℕ → Bool
  few leaf = ltb (cpu.cpuid 0 0).eax leaf

  abbrev few_ext : ℕ → Bool
  few_ext leaf = ltb (cpu.cpuid 0x80000000 0).eax leaf

  has_leaf7-Answers :
      (c : CpuFlagCache)
      → IsRight (spec_of cpu) c
      → Answers (spec_of cpu) (base_leaf cpu 7) (has_leaf7 cpu c)
  has_leaf7-Answers c right =
      has_id-Answers (spec_of cpu) 2 (found (is_environment_cpuid_support_leaf7 cpu)) c right
        (refl, right)

  -- The answer of a flag that rests on the leaf 7.
  on_leaf7 :
      (i : ℕ) (field : CpuidResult → ℕ) (c : CpuFlagCache)
      → IsRight (spec_of cpu) c
      → Answers
          (spec_of cpu)
          (base_leaf cpu 7 && has_bit i (field (cpu.cpuid 7 0)))
          (given (has_leaf7 cpu) (is_set (field (cpuid_7_0 cpu)) (2 ^ i)) c)
  on_leaf7 i field c right =
      let (e, right') = has_leaf7-Answers c right in
      (
        ap (λ b. b && is_set (field (cpuid_7_0 cpu)) (2 ^ i)) e
            ∙ guarded (few 7) i field _ (cpu.cpuid 7 0),
        right',
      )

  -- a flag of one bit, where the processor has the leaf
  on_ext :
      (leaf i word : ℕ)
      → (if few_ext leaf then false else is_set word (2 ^ i))
        ≡ (ext_leaf cpu leaf && has_bit i word)
  on_ext leaf i word =
      refused (few_ext leaf) _ ∙ ap (λ b. ext_leaf cpu leaf && b) (is_set-pow i word)

  raw_detect-Answers :
      (kind : InternalFlagKind) (c : CpuFlagCache)
      → IsRight (spec_of cpu) c
      → Answers (spec_of cpu) (said cpu kind) (raw_detect_flag_impl cpu kind c)
  unfolding raw_detect_flag_impl
  raw_detect-Answers current_paging_pml5 c right =
      let (e, right') =
        has_id-Answers (spec_of cpu) 3 (is_environment_pml5 cpu) c right
          (on_leaf7 16 (λ r. r.ecx) c right) in
      (
        ap (λ b. b && is_current_pml5 cpu) e
            ∙ ap (λ b. (base_leaf cpu 7 && has_bit 16 (cpu.cpuid 7 0).ecx) && b)
                (is_set-pow 12 cpu.cr4),
        right',
      )
  raw_detect-Answers environment_capabilities c right = on_leaf7 29 (λ r. r.edx) c right
  raw_detect-Answers environment_cpuid_support_leaf7 c right = (refl, right)
  raw_detect-Answers environment_paging_pml5 c right = on_leaf7 16 (λ r. r.ecx) c right
  raw_detect-Answers environment_paging_pdpt_huge c right =
      (on_ext 0x80000001 26 (cpu.cpuid 0x80000001 0).edx, right)
  raw_detect-Answers environment_paging_nx c right =
      (on_ext 0x80000001 20 (cpu.cpuid 0x80000001 0).edx, right)
  raw_detect-Answers environment_tsc_hardware_adjust c right = (
    accepted (few 7) _ ∙ ap (λ b. base_leaf cpu 7 && b) (is_set-pow 1 (cpu.cpuid 7 0).ebx),
    right,
  )
  raw_detect-Answers environment_tsc_invariant_tsc c right =
      (on_ext 0x80000007 8 (cpu.cpuid 0x80000007 0).edx, right)
  raw_detect-Answers environment_tsc_aux c right =
      (on_ext 0x80000001 27 (cpu.cpuid 0x80000007 0).edx, right)
  raw_detect-Answers environment_apic_x2_supported c right =
      (is_set-pow 21 (cpu.cpuid 1 0).ecx, right)

  spec-id : (kind : InternalFlagKind) → spec_of cpu (id_of kind) ≡ said cpu kind
  spec-id current_paging_pml5 = refl
  spec-id environment_capabilities = refl
  spec-id environment_cpuid_support_leaf7 = refl
  spec-id environment_paging_pml5 = refl
  spec-id environment_paging_pdpt_huge = refl
  spec-id environment_paging_nx = refl
  spec-id environment_tsc_hardware_adjust = refl
  spec-id environment_tsc_invariant_tsc = refl
  spec-id environment_tsc_aux = refl
  spec-id environment_apic_x2_supported = refl

  has-Answers :
      (kind : InternalFlagKind) (c : CpuFlagCache)
      → IsRight (spec_of cpu) c
      → Answers (spec_of cpu) (said cpu kind) (has cpu kind c)
  unfolding has
  has-Answers kind c right =
      let d = raw_detect-Answers kind c right in
      let answered =
        has_id-Answers (spec_of cpu) (id_of kind) (raw_detect_flag_impl cpu kind) c right
          (d.0 ∙ sym (spec-id kind), d.1) in
      (answered.0 ∙ spec-id kind, answered.1)

  -- the answers to one question after another
  unfoldable pub answers : List InternalFlagKind → CpuFlagCache → List Bool
  unfolding has
  answers [] c = []
  answers (kind ∷ kinds) c = let (result, c') = has cpu kind c in result ∷ answers kinds c'

  answers-from :
      (kinds : List InternalFlagKind) (c : CpuFlagCache)
      → IsRight (spec_of cpu) c
      → answers kinds c ≡ map (said cpu) kinds
  unfolding answers
  answers-from [] c right = refl
  answers-from (kind ∷ kinds) c right =
      let (e, right') = has-Answers kind c right in
      ap₂ (λ x xs. x ∷ xs) e (answers-from kinds (has cpu kind c).1 right')

  -- From an empty cache on, and whatever has been asked before: each answer is whether the processor
  -- has what the flag names, with the leaf or the level of tables that it rests on. The answer for
  -- TSC_AUX alone is bit 27 of EDX at the leaf 0x80000007, where the processor has the leaf
  -- 0x80000001.
  pub answers-supports : (kinds : List InternalFlagKind) → answers kinds new ≡ map (said cpu) kinds
  unfolding IsRight
  answers-supports kinds =
      answers-from kinds new (λ j known. absurd (omega (arith, known, bit-zero (j % 64))))

-- Asking again gives the same answer and leaves the cache as it is, also if the processor says
-- something else by then: a flag is detected once.
pub has-again :
    (cpu cpu' : Cpu) (kind : InternalFlagKind) (c : CpuFlagCache)
    → has cpu' kind (has cpu kind c).1 ≡ has cpu kind c
unfolding has
has-again cpu cpu' kind c =
    again (id_of kind) (raw_detect_flag_impl cpu kind) (raw_detect_flag_impl cpu' kind) c
