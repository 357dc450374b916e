-- ===== src/Pci.antt =====
-- src/acpi/handler.rs: the configuration space of PCI devices, through the ports 0xCF8 and 0xCFC.
-- The ports are a parameter.
pub mod Address
pub mod Bytes
use okots_os.Base.{ℕ, ◌+◌, ◌-◌, ◌*◌, ◌/◌, ◌%◌, ◌^◌, bit_and, bit_or}

pub record PciAddress : Type 0 where
  pub bus : ℕ
  pub device : ℕ
  pub function : ℕ

-- what is written to the port 0xCF8
unfoldable pub addr_of : PciAddress → ℕ → ℕ
addr_of address offset =
    bit_or
      (bit_or
        (bit_or (bit_or 0x80000000 (address.bus * 2 ^ 16 % 2 ^ 32))
          (address.device * 2 ^ 11 % 2 ^ 32))
        (address.function * 2 ^ 8 % 2 ^ 32))
      (bit_and offset 0xfc)

-- A port is written with a double word, or read.
pub record Ports : Type 1 where
  pub State : Type 0
  pub write : ℕ → ℕ → State → State
  pub read : ℕ → State → ℕ × State

-- `(offset & 0x3) * 8` and `(offset & 0x2) * 8`
abbrev pub shift_u8 : ℕ → ℕ
shift_u8 offset = bit_and offset 0x3 * 8

abbrev pub shift_u16 : ℕ → ℕ
shift_u16 offset = bit_and offset 0x2 * 8

-- `(old_val & !(mask << shift)) | ((value as u32) << shift)`
abbrev pub merged : ℕ → ℕ → ℕ → ℕ → ℕ
merged mask shift old_val value =
    bit_or (bit_and old_val (2 ^ 32 - 1 - mask * 2 ^ shift % 2 ^ 32)) (value * 2 ^ shift % 2 ^ 32)

module _ (ports : Ports) where
  unfoldable pub read_pci_u32 : PciAddress → ℕ → ports.State → ℕ × ports.State
  read_pci_u32 address offset s = ports.read 0xCFC (ports.write 0xCF8 (addr_of address offset) s)

  unfoldable pub read_pci_u8 : PciAddress → ℕ → ports.State → ℕ × ports.State
  read_pci_u8 address offset s =
      let (val, s') = ports.read 0xCFC (ports.write 0xCF8 (addr_of address offset) s) in
      (val / 2 ^ shift_u8 offset % 2 ^ 8, s')

  unfoldable pub read_pci_u16 : PciAddress → ℕ → ports.State → ℕ × ports.State
  read_pci_u16 address offset s =
      let (val, s') = ports.read 0xCFC (ports.write 0xCF8 (addr_of address offset) s) in
      (val / 2 ^ shift_u16 offset % 2 ^ 16, s')

  unfoldable pub write_pci_u32 : PciAddress → ℕ → ℕ → ports.State → ports.State
  write_pci_u32 address offset value s =
      ports.write 0xCFC value (ports.write 0xCF8 (addr_of address offset) s)

  unfoldable pub write_pci_u8 : PciAddress → ℕ → ℕ → ports.State → ports.State
  unfolding read_pci_u32 write_pci_u32
  write_pci_u8 address offset value s =
      let (old_val, s') = read_pci_u32 address offset s in
      write_pci_u32 address offset (merged 0xff (shift_u8 offset) old_val value) s'

  unfoldable pub write_pci_u16 : PciAddress → ℕ → ℕ → ports.State → ports.State
  unfolding read_pci_u32 write_pci_u32
  write_pci_u16 address offset value s =
      let (old_val, s') = read_pci_u32 address offset s in
      write_pci_u32 address offset (merged 0xffff (shift_u16 offset) old_val value) s'
