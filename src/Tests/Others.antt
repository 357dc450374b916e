-- ===== src/Tests/Others.antt =====
-- src/multi_core/init/raw.rs: a program of zeros behind its fields, as long as trampoline.asm, for two processors.
use okots_os.Base.{ℕ, true, false, List, [], ◌∷◌, ◌++◌, replicate}
use okots_os.Firmware.{MemoryDescriptor, loader_code, runtime_services_data}
use okots_os.Trampoline.{Ram, Processor}

abbrev word_of : ℕ → List ℕ
word_of n = n ∷ 0 ∷ 0 ∷ 0 ∷ 0 ∷ 0 ∷ 0 ∷ 0 ∷ []

abbrev fields : List ℕ
fields =
    (0xad ∷ 0x95 ∷ 0xb5 ∷ 0xaf ∷ 0x5f ∷ 0x85 ∷ 0x54 ∷ 0 ∷ [])
    ++ word_of 0x56
    ++ word_of 0x72
    ++ word_of 0x85
    ++ word_of 0x95
    ++ word_of 0
    ++ 2 ∷ []

abbrev program : List ℕ
program = fields ++ replicate 23247 0

zeros : Ram
zeros = λ a. 0

abbrev bsp : Processor
bsp = record { l5 = false; nx = true; pdpt_huge = false; cr4 = 0x20 }

abbrev stacks : List ℕ
stacks = 0x90000 ∷ 0xa0000 ∷ []

abbrev descriptors : List MemoryDescriptor
descriptors =
    record { ty = loader_code; phys_start = 0; page_count = 32 }
    ∷ record { ty = runtime_services_data; phys_start = 0x80000; page_count = 4 }
    ∷ []
