-- ===== src/CpuFlags/Remember.antt =====
-- src/cpu_flags/mod.rs: what the processor says of a flag, and one call of `has`.
use okots_os.Base.{
  ℕ, zero, suc, ◌/◌, ◌%◌, ◌^◌, ◌≡◌, refl, sym, ap, ◌∙◌, inl, inr, Bool, Bool-cases, true, false,
  not, ◌&&◌, List, [], ◌∷◌, if◌then◌else◌, arith, ◌==◌, ==_iff, ltb,
}
use okots_os.CpuFlags.{
  Cpu, CpuidResult, InternalFlagKind, current_paging_pml5, environment_capabilities,
  environment_cpuid_support_leaf7, environment_paging_pml5, environment_paging_pdpt_huge,
  environment_paging_nx, environment_tsc_hardware_adjust, environment_tsc_invariant_tsc,
  environment_tsc_aux, environment_apic_x2_supported, CpuFlagCache, has_id, remember, is_set,
}
use okots_os.CpuFlags.Bit.{bit, is_set-pow, at, at-fetch_or, at-fetch_and}

-- the bit `i` of a register
abbrev pub has_bit : ℕ → ℕ → Bool
has_bit i word = bit i word == 1

abbrev pub base_leaf : Cpu → ℕ → Bool
base_leaf cpu leaf = not (ltb (cpu.cpuid 0 0).eax leaf)

abbrev pub ext_leaf : Cpu → ℕ → Bool
ext_leaf cpu leaf = not (ltb (cpu.cpuid 0x80000000 0).eax leaf)

-- Whether the processor has what a flag names, by its manual.
abbrev pub supports : Cpu → InternalFlagKind → Bool
supports cpu current_paging_pml5 =
    base_leaf cpu 7 && has_bit 16 (cpu.cpuid 7 0).ecx && has_bit 12 cpu.cr4
supports cpu environment_capabilities = base_leaf cpu 7 && has_bit 29 (cpu.cpuid 7 0).edx
supports cpu environment_cpuid_support_leaf7 = base_leaf cpu 7
supports cpu environment_paging_pml5 = base_leaf cpu 7 && has_bit 16 (cpu.cpuid 7 0).ecx
supports cpu environment_paging_pdpt_huge =
    ext_leaf cpu 0x80000001 && has_bit 26 (cpu.cpuid 0x80000001 0).edx
supports cpu environment_paging_nx =
    ext_leaf cpu 0x80000001 && has_bit 20 (cpu.cpuid 0x80000001 0).edx
supports cpu environment_tsc_hardware_adjust = base_leaf cpu 7 && has_bit 1 (cpu.cpuid 7 0).ebx
supports cpu environment_tsc_invariant_tsc =
    ext_leaf cpu 0x80000007 && has_bit 8 (cpu.cpuid 0x80000007 0).edx
supports cpu environment_tsc_aux =
    ext_leaf cpu 0x80000001 && has_bit 27 (cpu.cpuid 0x80000001 0).edx
supports cpu environment_apic_x2_supported = has_bit 21 (cpu.cpuid 1 0).ecx

-- What the code takes for it: the bit of TSC_AUX is read at another leaf than the one of RDTSCP.
abbrev pub said : Cpu → InternalFlagKind → Bool
said cpu environment_tsc_aux = ext_leaf cpu 0x80000001 && has_bit 27 (cpu.cpuid 0x80000007 0).edx
said cpu kind = supports cpu kind

-- What the cache has of a flag is what a description of all flags says.
unfoldable pub IsRight : (ℕ → Bool) → CpuFlagCache → Type 0
IsRight spec c = (j : ℕ) → at c.status j ≡ 1 → (at c.values j == 1) ≡ spec j

-- the answer, and the cache afterwards
abbrev pub Answers : (ℕ → Bool) → Bool → Bool × CpuFlagCache → Type 0
Answers spec answer (result, c) = (result ≡ answer) × IsRight spec c

abbrev stored : Bool → ℕ
stored result = if result then 1 else 0

stored-one : (b : Bool) → (stored b == 1) ≡ b
stored-one true = refl
stored-one false = refl

at-remember :
    (id : ℕ) (result : Bool) (c : CpuFlagCache) (j : ℕ)
    → at (remember (id / 64) (2 ^ (id % 64)) (result, c)).1.values j
      ≡ (if j == id then stored result else at c.values j)
unfolding remember
at-remember id true c j = at-fetch_or c.values id j
at-remember id false c j = at-fetch_and c.values id j

remember-Answers :
    (spec : ℕ → Bool) (id : ℕ) (r : Bool × CpuFlagCache)
    → Answers spec (spec id) r
    → Answers spec (spec id) (remember (id / 64) (2 ^ (id % 64)) r)
unfolding remember IsRight
remember-Answers spec id (result, c) (e, right) = (
  e,
  λ j known. elim (Bool-cases (j == id)) [
    | inl q ↦
        rw (at-remember id result c j, q)
          (stored-one result ∙ e ∙ ap spec (sym ((==_iff j id).0 q)))
    | inr q ↦
        let before : at c.status j ≡ 1 = sym (at-fetch_or c.status id j ∙ rw q refl) ∙ known in
        rw (at-remember id result c j, q) (right j before)
  ],
)

pub has_id-Answers :
    (spec : ℕ → Bool) (id : ℕ) (detect : CpuFlagCache → Bool × CpuFlagCache) (c : CpuFlagCache)
    → IsRight spec c
    → Answers spec (spec id) (detect c)
    → Answers spec (spec id) (has_id id detect c)
unfolding has_id IsRight
has_id-Answers spec id detect c right d =
    elim (Bool-cases (is_set (c.status (id / 64)) (2 ^ (id % 64)))) [
      | inl e ↦ rw e (
        is_set-pow (id % 64) (c.values (id / 64))
            ∙ right id ((==_iff _ _).0 (sym (is_set-pow (id % 64) (c.status (id / 64))) ∙ e)),
        right,
      )
      | inr e ↦ rw e (remember-Answers spec id (detect c) d)
    ]

-- the kind with a number
abbrev pub kinds : List InternalFlagKind
kinds =
    current_paging_pml5 ∷ environment_capabilities ∷ environment_cpuid_support_leaf7
    ∷ environment_paging_pml5 ∷ environment_paging_pdpt_huge ∷ environment_paging_nx
    ∷ environment_tsc_hardware_adjust ∷ environment_tsc_invariant_tsc ∷ environment_tsc_aux ∷ []

abbrev nth : List InternalFlagKind → ℕ → InternalFlagKind
nth [] n = environment_apic_x2_supported
nth (k ∷ ks) zero = k
nth (k ∷ ks) (suc n) = nth ks n

abbrev kind_of : ℕ → InternalFlagKind
kind_of = nth kinds

abbrev pub spec_of : Cpu → ℕ → Bool
spec_of cpu id = said cpu (kind_of id)

-- The test of a leaf, however it is written.
pub refused : (few result : Bool) → (if few then false else result) ≡ (not few && result)
refused true result = refl
refused false result = refl

pub accepted : (few result : Bool) → (if not few then result else false) ≡ (not few && result)
accepted true result = refl
accepted false result = refl

-- What is read of a leaf that is not there counts only where it is there.
pub guarded :
    (few : Bool) (i : ℕ) (field : CpuidResult → ℕ) (absent leaf : CpuidResult)
    → (not few && is_set (field (if few then absent else leaf)) (2 ^ i))
      ≡ (not few && has_bit i (field leaf))
guarded true i field absent leaf = refl
guarded false i field absent leaf = is_set-pow i (field leaf)

-- the two branches of `has`
module _ (id : ℕ) (detect : CpuFlagCache → Bool × CpuFlagCache) (c : CpuFlagCache) where
  hit :
      is_set (c.status (id / 64)) (2 ^ (id % 64)) ≡ true
      → has_id id detect c ≡ (is_set (c.values (id / 64)) (2 ^ (id % 64)), c)
  unfolding has_id
  hit e = rw e refl

  missed :
      is_set (c.status (id / 64)) (2 ^ (id % 64)) ≡ false
      → has_id id detect c ≡ remember (id / 64) (2 ^ (id % 64)) (detect c)
  unfolding has_id
  missed e = rw e refl

-- A flag that has been detected is known.
remember-known :
    (id : ℕ) (detect : CpuFlagCache → Bool × CpuFlagCache) (r : Bool × CpuFlagCache)
    → let r' = remember (id / 64) (2 ^ (id % 64)) r in has_id id detect r'.1 ≡ r'
unfolding remember
remember-known id detect (result, c) =
    let c' = (remember (id / 64) (2 ^ (id % 64)) (result, c)).1 in
    let self : (id == id) ≡ true = ground arith in
    let known : is_set (c'.status (id / 64)) (2 ^ (id % 64)) ≡ true =
      is_set-pow (id % 64) (c'.status (id / 64)) ∙ rw (at-fetch_or c.status id id, self) refl in
    let value : is_set (c'.values (id / 64)) (2 ^ (id % 64)) ≡ result =
      is_set-pow (id % 64) (c'.values (id / 64))
      ∙ rw (at-remember id result c id, self) (stored-one result) in
    hit id detect c' known ∙ ap (λ b. (b, c')) value

pub again :
    (id : ℕ) (detect detect' : CpuFlagCache → Bool × CpuFlagCache) (c : CpuFlagCache)
    → has_id id detect' (has_id id detect c).1 ≡ has_id id detect c
again id detect detect' c = elim (Bool-cases (is_set (c.status (id / 64)) (2 ^ (id % 64)))) [
  | inl e ↦ rw (hit id detect c e) (hit id detect' c e)
  | inr e ↦ rw (missed id detect c e) (remember-known id detect' (detect c))
]
