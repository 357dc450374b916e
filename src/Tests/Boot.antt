-- ===== src/Tests/Boot.antt =====
-- Concrete memory maps of a firmware, and ports.
use okots_os.Base.{
  ℕ, ◌+◌, ◌-◌, ◌*◌, ◌/◌, ◌%◌, ◌^◌, ◌≤◌, ◌<◌, ◌≡◌, refl, ◌⊎◌, inl, inr, true, ◌&&◌, Option, none,
  some, List, [], ◌∷◌, arith, leb, ◌==◌, if◌then◌else◌, Bool-cases,
}
use okots_os.Firmware.{
  MyMemoryMapOwned, iter, BootServices, capacity_for, owned, exit_boot_services_with_talc,
  MemoryDescriptor, conventional,
}
use okots_os.Firmware.Entries.{collect, spaced, collect-iter}
use okots_os.Firmware.Attempts.{IsTried, exit_boot_services_with_talc-IsTried}
use okots_os.Start.Grow.{PageAllocator, Growing, free_memory, change_allocator}
use okots_os.Start.Grow.Ends.{IsFinite, IsGrown, IsExhausted, change_allocator-Ends}
use okots_os.Pci.{PciAddress, addr_of, Ports, read_pci_u8, write_pci_u8}
use okots_os.Pci.Address.{addr_of-fields}
use okots_os.Pci.Bytes.{IsConfigSpace, read_pci_u8-write_pci_u8}

abbrev short_map : MyMemoryMapOwned
short_map = record { ptr = 0x1000; layout = (480, 4096); total_size = 100; desc_size = 48 }

collect-iter_example :
    (n : ℕ) × (collect 101 (iter short_map) ≡ some (spaced 0x1000 48 n))
    × (100 ≤ n * 48)
    × (n * 48 < 100 + 48)
collect-iter_example = collect-iter short_map (omega arith)

-- a firmware that refuses the first exit; its state counts the calls
abbrev stubborn : BootServices
stubborn = record {
  State = ℕ;
  get_memory_map =
      λ capacity n. (record { status = 0; map_size = 96; map_key = n; desc_size = 48 }, n + 1);
  exit_boot_services = λ key n. (if leb key 1 then 1 else 0, n + 1);
}

exit_boot_services_with_talc-IsTried_example :
    (let first = (stubborn.get_memory_map 0 0).0 in
      (r : Option ℕ × ℕ) × IsTried stubborn (capacity_for first) 3 1 r
      × (exit_boot_services_with_talc stubborn (λ n. 0x1000) 0
          ≡ owned stubborn 0x1000 (capacity_for first) 48 r))
exit_boot_services_with_talc-IsTried_example =
    exit_boot_services_with_talc-IsTried stubborn (λ n. 0x1000) 0
      (λ e. absurd (omega arith), omega arith, λ e. absurd (omega arith))

-- a firmware whose state is the number of pages that it has left
abbrev granted : ℕ → ℕ → Option ℕ × ℕ
granted n left = if leb n left && leb n (2 ^ 40) then (some 0x100000, left - n) else (none, left)

abbrev counting_pages : PageAllocator
counting_pages = record { State = ℕ; allocate_pages = granted }

granted-cases :
    (n s : ℕ)
    → ((granted n s ≡ (some 0x100000, s - n)) × (n ≤ s) × (n ≤ 2 ^ 40)) ⊎ (granted n s ≡ (none, s))
granted-cases n s = elim (Bool-cases (leb n s && leb n (2 ^ 40))) [
  | inl e ↦ inl (rw e refl, ground arith, ground arith)
  | inr e ↦ inr (rw e refl)
]

counting_finite : IsFinite counting_pages
counting_finite = record {
  left = λ s. s;
  granted = λ n s ptr s' e. ground (arith, granted-cases n s);
  refused = λ n s s' e. ground (arith, granted-cases n s);
}

abbrev entries : List MemoryDescriptor
entries = record { ty = conventional; phys_start = 0x100000; page_count = 4 } ∷ []

sixteen : free_memory entries 0 ≡ 16384
unfolding free_memory
sixteen = refl

change_allocator-Ends_example :
    (g : Growing ℕ) × (change_allocator counting_pages 20000 entries 4 ≡ some g)
    × (g.use_os_alloc ≡ true)
    × IsGrown counting_pages counting_finite 4 g
    × IsExhausted counting_pages counting_finite g
unfolding counting_finite
change_allocator-Ends_example =
    change_allocator-Ends counting_pages counting_finite 20000 entries 4 (omega (arith, sixteen))
      (omega (arith, sixteen))

abbrev disk : PciAddress
disk = record { bus = 1; device = 31; function = 2 }

addr_of-fields_example :
    addr_of disk 0x3d ≡ 2 ^ 31 + 1 * 2 ^ 16 + 31 * 2 ^ 11 + 2 * 2 ^ 8 + 0x3d % 256 / 4 * 4
addr_of-fields_example = addr_of-fields disk 0x3d (omega arith) (omega arith) (omega arith)

-- ports before memory: the number that was selected, and the double words
abbrev written : ℕ → ℕ → ℕ × (ℕ → ℕ) → ℕ × (ℕ → ℕ)
written port v (n, cell) =
    if port == 0xCF8 then (v, cell) else (n, λ k. if k == n then v else cell k)

abbrev memory_ports : Ports
memory_ports = record {
  State = ℕ × (ℕ → ℕ);
  write = written;
  read = λ port s. (s.1 s.0 % 2 ^ 32, s);
}

memory_ports-IsConfigSpace : IsConfigSpace memory_ports
memory_ports-IsConfigSpace = record {
  cell = λ s n. s.1 n % 2 ^ 32;
  small = λ s n. omega arith;
  read = λ s n. refl;
  read_kept = λ s n k. refl;
  written = λ s n v k h. ground arith;
}

read_pci_u8-write_pci_u8_example :
    (let s : ℕ × (ℕ → ℕ) = (0, λ n. 0xaabbccdd) in
      (read_pci_u8 memory_ports disk 0x3d (write_pci_u8 memory_ports disk 0x3d 7 s)).0 ≡ (
        if (addr_of disk 0x3d == addr_of disk 0x3d) && (0x3d % 4 == 0x3d % 4)
        then 7
        else (read_pci_u8 memory_ports disk 0x3d s).0))
read_pci_u8-write_pci_u8_example =
    read_pci_u8-write_pci_u8 memory_ports memory_ports-IsConfigSpace disk disk 0x3d 0x3d 7
      (0, λ n. 0xaabbccdd) (omega arith)
