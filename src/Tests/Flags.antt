-- ===== src/Tests/Flags.antt =====
-- src/cpu_flags/mod.rs and local_macros/src/lib.rs: the flags by their numbers, and a processor that
-- has some of them.
use okots_os.Base.{◌/◌, ◌<◌, ◌≡◌, refl, List, [], ◌∷◌, map, All}
use okots_os.CpuFlags.{
  Cpu, InternalFlagKind, current_paging_pml5, environment_capabilities,
  environment_cpuid_support_leaf7, environment_paging_pml5, environment_paging_pdpt_huge,
  environment_paging_nx, environment_tsc_hardware_adjust, environment_tsc_invariant_tsc,
  environment_tsc_aux, environment_apic_x2_supported, id_of, new, has,
}
use okots_os.CpuFlags.Cached.{answers, answers-supports, has-again}
use okots_os.CpuFlags.Remember.{said}
use okots_os.CpuFlags.Numbering.{
  cpu_flags, define_cpu_flags, names_all, variants_all, numbered, define_cpu_flags-IsNumbered,
}

-- The kinds have the numbers that the macro gives to their names.
kinds_numbered :
    (define_cpu_flags cpu_flags).internal_variants
    ≡ (id_of current_paging_pml5, "current_paging_Pml5")
      ∷ (id_of environment_capabilities, "environment_capabilities")
      ∷ (id_of environment_cpuid_support_leaf7, "environment_cpuid_SupportLeaf7")
      ∷ (id_of environment_paging_pml5, "environment_paging_Pml5")
      ∷ (id_of environment_paging_pdpt_huge, "environment_paging_PdptHuge")
      ∷ (id_of environment_paging_nx, "environment_paging_NX")
      ∷ (id_of environment_tsc_hardware_adjust, "environment_tsc_TscHardWareAdjust")
      ∷ (id_of environment_tsc_invariant_tsc, "environment_tsc_InvariantTsc")
      ∷ (id_of environment_tsc_aux, "environment_tsc_Aux")
      ∷ (id_of environment_apic_x2_supported, "environment_apic_X2Supported")
      ∷ []
unfolding define_cpu_flags
kinds_numbered = refl

define_cpu_flags-IsNumbered_example :
    let e = define_cpu_flags cpu_flags in
    (e.internal_variants ≡ numbered 0 (names_all "" cpu_flags))
    × (variants_all e.flags ≡ names_all "" cpu_flags)
    × All (λ v. v.0 / 64 < e.num_u64) e.internal_variants
define_cpu_flags-IsNumbered_example = define_cpu_flags-IsNumbered cpu_flags

-- all leaves, with every bit set; and a processor with none
abbrev rich : Cpu
rich = record {
  cpuid = λ leaf subleaf. record {
    eax = 0xFFFFFFFF;
    ebx = 0xFFFFFFFF;
    ecx = 0xFFFFFFFF;
    edx = 0xFFFFFFFF;
  };
  cr4 = 0x1000;
}

abbrev poor : Cpu
poor = record { cpuid = λ leaf subleaf. record { eax = 1; ebx = 0; ecx = 0; edx = 0 }; cr4 = 0 }

abbrev asked : List InternalFlagKind
asked = current_paging_pml5 ∷ environment_paging_nx ∷ environment_paging_pml5 ∷ []

answers-supports_example : answers rich asked new ≡ map (said rich) asked
answers-supports_example = answers-supports rich asked

has-again_example :
    has poor environment_capabilities (has rich environment_capabilities new).1
    ≡ has rich environment_capabilities new
has-again_example = has-again rich poor environment_capabilities new
