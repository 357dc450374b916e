-- ===== src/CpuFlags.antt =====
-- src/cpu_flags/mod.rs and local_macros/src/lib.rs: the features of the processor, and the cache of
-- what has been found out about them. The processor is a parameter.
pub mod Bit
pub mod Cached
pub mod Remember
pub mod Numbering
use okots_os.Base.{
  ℕ, ◌+◌, ◌-◌, ◌*◌, ◌/◌, ◌%◌, ◌^◌, Bool, true, false, not, ◌&&◌, ltb, ◌==◌, if◌then◌else◌, bit_and,
  bit_or,
}

pub record CpuidResult : Type 0 where
  pub eax : ℕ
  pub ebx : ℕ
  pub ecx : ℕ
  pub edx : ℕ

-- `cpuid` at a leaf and a subleaf, and the control register
pub record Cpu : Type 0 where
  pub cpuid : ℕ → ℕ → CpuidResult
  pub cr4 : ℕ

-- the flags of `define_cpu_flags!`, by their order
pub data InternalFlagKind : Type 0 where
  current_paging_pml5 environment_capabilities environment_cpuid_support_leaf7
        environment_paging_pml5 environment_paging_pdpt_huge environment_paging_nx
        environment_tsc_hardware_adjust environment_tsc_invariant_tsc environment_tsc_aux
        environment_apic_x2_supported :
      InternalFlagKind

-- the discriminant
abbrev pub id_of : InternalFlagKind → ℕ
id_of current_paging_pml5 = 0
id_of environment_capabilities = 1
id_of environment_cpuid_support_leaf7 = 2
id_of environment_paging_pml5 = 3
id_of environment_paging_pdpt_huge = 4
id_of environment_paging_nx = 5
id_of environment_tsc_hardware_adjust = 6
id_of environment_tsc_invariant_tsc = 7
id_of environment_tsc_aux = 8
id_of environment_apic_x2_supported = 9

-- The words of both arrays, by their index.
pub record CpuFlagCache : Type 0 where
  pub status : ℕ → ℕ
  pub values : ℕ → ℕ

abbrev pub new : CpuFlagCache
new = record { status = λ index. 0; values = λ index. 0 }

abbrev pub put : (ℕ → ℕ) → ℕ → ℕ → ℕ → ℕ
put words index w i = if i == index then w else words i

abbrev pub fetch_or : ℕ → ℕ → (ℕ → ℕ) → ℕ → ℕ
fetch_or index mask words = put words index (bit_or (words index) mask)

abbrev pub fetch_and : ℕ → ℕ → (ℕ → ℕ) → ℕ → ℕ
fetch_and index mask words = put words index (bit_and (words index) mask)

-- the test `(word & mask) != 0`
abbrev pub is_set : ℕ → ℕ → Bool
is_set w mask = not (bit_and w mask == 0)

-- what is left of `has` once the flag is detected
unfoldable pub remember : ℕ → ℕ → Bool × CpuFlagCache → Bool × CpuFlagCache
remember index mask (result, c) = (
  result,
  record {
    values =
        if result
        then fetch_or index mask c.values
        else fetch_and index (2 ^ 64 - 1 - mask) c.values;
    status = fetch_or index mask c.status;
  },
)

-- `CpuFlagCache::has` of the flag with the number `id`; `detect` is `raw_detect_flag_impl` of it.
unfoldable pub has_id :
    ℕ → (CpuFlagCache → Bool × CpuFlagCache) → CpuFlagCache → Bool × CpuFlagCache
unfolding remember
has_id id detect c =
    let index = id / 64 in
    let mask = 2 ^ (id % 64) in
    if is_set (c.status index) mask
    then (is_set (c.values index) mask, c)
    else remember index mask (detect c)

abbrev pub found : Bool → CpuFlagCache → Bool × CpuFlagCache
found result c = (result, c)

-- `if !cpu_info!(...) { return false; }` and `&&`: the test of another flag first
abbrev pub given : (CpuFlagCache → Bool × CpuFlagCache) → Bool → CpuFlagCache → Bool × CpuFlagCache
given other result c = let (first, c') = other c in (first && result, c')

module _ (cpu : Cpu) where
  abbrev pub max_base_leaf_supported : ℕ
  max_base_leaf_supported = (cpu.cpuid 0 0).eax

  abbrev pub max_ext_leaf_supported : ℕ
  max_ext_leaf_supported = (cpu.cpuid 0x80000000 0).eax

  abbrev pub cpuid_7_0 : CpuidResult
  cpuid_7_0 =
      if ltb max_base_leaf_supported 7
      then record { eax = 0; ebx = 0; ecx = 0; edx = 0 }
      else cpu.cpuid 7 0

  abbrev pub is_environment_apic_x2_supported : Bool
  is_environment_apic_x2_supported = is_set (cpu.cpuid 0x01 0).ecx (2 ^ 21)

  abbrev pub is_environment_tsc_aux : Bool
  is_environment_tsc_aux =
      if ltb max_ext_leaf_supported 0x80000001
      then false
      else is_set (cpu.cpuid 0x80000007 0).edx (2 ^ 27)

  abbrev pub is_environment_tsc_invariant_tsc : Bool
  is_environment_tsc_invariant_tsc =
      if ltb max_ext_leaf_supported 0x80000007
      then false
      else is_set (cpu.cpuid 0x80000007 0).edx (2 ^ 8)

  abbrev pub is_environment_tsc_hardwareadjust : Bool
  is_environment_tsc_hardwareadjust =
      if not (ltb max_base_leaf_supported 0x07)
      then is_set (cpu.cpuid 0x07 0).ebx (2 ^ 1)
      else false

  abbrev pub is_environment_paging_nx : Bool
  is_environment_paging_nx =
      if ltb max_ext_leaf_supported 0x80000001
      then false
      else is_set (cpu.cpuid 0x80000001 0).edx (2 ^ 20)

  abbrev pub is_environment_pdpt_huge : Bool
  is_environment_pdpt_huge =
      if ltb max_ext_leaf_supported 0x80000001
      then false
      else is_set (cpu.cpuid 0x80000001 0).edx (2 ^ 26)

  abbrev pub is_environment_cpuid_support_leaf7 : Bool
  is_environment_cpuid_support_leaf7 = not (ltb max_base_leaf_supported 7)

  -- `Cr4Flags::L5_PAGING`
  abbrev pub is_current_pml5 : Bool
  is_current_pml5 = is_set cpu.cr4 (2 ^ 12)

  abbrev pub has_leaf7 : CpuFlagCache → Bool × CpuFlagCache
  has_leaf7 =
      has_id (id_of environment_cpuid_support_leaf7) (found is_environment_cpuid_support_leaf7)

  abbrev pub is_environment_capabilities : CpuFlagCache → Bool × CpuFlagCache
  is_environment_capabilities = given has_leaf7 (is_set cpuid_7_0.edx (2 ^ 29))

  abbrev pub is_environment_pml5 : CpuFlagCache → Bool × CpuFlagCache
  is_environment_pml5 = given has_leaf7 (is_set cpuid_7_0.ecx (2 ^ 16))

  -- A flag is detected by way of the flags that it rests on, and these by way of the cache.
  unfoldable pub raw_detect_flag_impl : InternalFlagKind → CpuFlagCache → Bool × CpuFlagCache
  unfolding has_id
  raw_detect_flag_impl environment_capabilities = is_environment_capabilities
  raw_detect_flag_impl environment_cpuid_support_leaf7 = found is_environment_cpuid_support_leaf7
  raw_detect_flag_impl environment_paging_pml5 = is_environment_pml5
  raw_detect_flag_impl environment_paging_pdpt_huge = found is_environment_pdpt_huge
  raw_detect_flag_impl current_paging_pml5 =
      given (has_id (id_of environment_paging_pml5) is_environment_pml5) is_current_pml5
  raw_detect_flag_impl environment_paging_nx = found is_environment_paging_nx
  raw_detect_flag_impl environment_tsc_hardware_adjust = found is_environment_tsc_hardwareadjust
  raw_detect_flag_impl environment_tsc_invariant_tsc = found is_environment_tsc_invariant_tsc
  raw_detect_flag_impl environment_tsc_aux = found is_environment_tsc_aux
  raw_detect_flag_impl environment_apic_x2_supported = found is_environment_apic_x2_supported

  unfoldable pub has : InternalFlagKind → CpuFlagCache → Bool × CpuFlagCache
  has kind = has_id (id_of kind) (raw_detect_flag_impl kind)
