-- ===== src/Pci/Address.antt =====
-- src/acpi/handler.rs: the number of a double word of the configuration space.
use okots_os.Base.{
  ℕ, ◌+◌, ◌*◌, ◌/◌, ◌%◌, ◌^◌, ◌<◌, ◌≡◌, refl, ap, ap₂, ◌∙◌, true, bit_and, bit_or, arith, ◌==◌,
  ==_iff, checked, checked_all, Splits, Splits-8_bits, bit_and-Splits, bit_or-Splits, bit_and-zero,
  bit_or-zero, zero-bit_or,
}
use okots_os.Pci.{PciAddress, addr_of}

-- four bytes, the highest first
abbrev pub word4 : ℕ → ℕ → ℕ → ℕ → ℕ
word4 b3 b2 b1 b0 = ((b3 * 256 + b2) * 256 + b1) * 256 + b0

-- An operation on digits works on the four bytes.
pub word4_bytes :
    (op : ℕ → ℕ → ℕ)
    → Splits op 2
    → (a3 a2 a1 a0 b3 b2 b1 b0 : ℕ) → a2 < 256
    → a1 < 256
    → a0 < 256
    → b2 < 256
    → b1 < 256
    → b0 < 256
    → op (word4 a3 a2 a1 a0) (word4 b3 b2 b1 b0) ≡ word4 (op a3 b3) (op a2 b2) (op a1 b1) (op a0 b0)
word4_bytes op h a3 a2 a1 a0 b3 b2 b1 b0 p2 p1 p0 q2 q1 q0 =
    let s = Splits-8_bits op h in
    s ((a3 * 256 + a2) * 256 + a1) a0 ((b3 * 256 + b2) * 256 + b1) b0 p0 q0
    ∙ rw (s (a3 * 256 + a2) a1 (b3 * 256 + b2) b1 p1 q1, s a3 a2 b3 b2 p2 q2) refl

-- the device and the function in one byte
functions_check : checked (λ n. bit_or (n / 8 * 8) (n % 8) == n) 256 ≡ true
unfolding checked
functions_check = refl

offsets_check : checked (λ n. bit_and n 252 == n / 4 * 4) 256 ≡ true
unfolding checked
offsets_check = refl

offset_bits : (offset : ℕ) → bit_and offset 252 ≡ offset % 256 / 4 * 4
offset_bits offset =
    let low = (==_iff _ _).0 (checked_all _ 256 (offset % 256) (omega arith) offsets_check) in
    let s =
      Splits-8_bits bit_and bit_and-Splits (offset / 256) (offset % 256) 0 252 (omega arith)
        (omega arith) in
    let whole : bit_and offset 252 ≡ bit_and (offset / 256 * 256 + offset % 256) (0 * 256 + 252) =
      ap (λ n. bit_and n 252) (omega arith) in
    whole ∙ s ∙ rw (low, bit_and-zero (offset / 256)) (omega arith)

-- For a bus, a device and a function within PCI's bounds: the number has the enable bit, the bus,
-- the device, the function and the double word of the offset each in its own bits. So two places
-- have the same number only if they are the same double word of the same function; the offset
-- counts modulo 256.
pub addr_of-fields :
    (address : PciAddress) (offset : ℕ)
    → address.bus < 256
    → address.device < 32
    → address.function < 8
    → addr_of address offset
      ≡ 2 ^ 31
        + address.bus * 2 ^ 16
        + address.device * 2 ^ 11
        + address.function * 2 ^ 8
        + offset % 256 / 4 * 4
unfolding addr_of
addr_of-fields address offset b d f =
    let or = word4_bytes bit_or bit_or-Splits in
    let bus : bit_or 0x80000000 (address.bus * 2 ^ 16 % 2 ^ 32) ≡ word4 128 address.bus 0 0 =
      ap₂ bit_or (omega arith) (omega arith)
      ∙ or 128 0 0 0 0 address.bus 0 0 (omega arith) (omega arith) (omega arith) b (omega arith)
          (omega arith)
      ∙ rw (zero-bit_or address.bus) refl in
    let device : bit_or (word4 128 address.bus 0 0) (address.device * 2 ^ 11 % 2 ^ 32)
        ≡ word4 128 address.bus (address.device * 8) 0 =
      ap (bit_or (word4 128 address.bus 0 0)) (omega arith)
      ∙ or 128 address.bus 0 0 0 0 (address.device * 8) 0 b (omega arith) (omega arith)
          (omega arith) (omega arith) (omega arith)
      ∙ rw (zero-bit_or (address.device * 8), bit_or-zero address.bus) refl in
    let function : bit_or (word4 128 address.bus (address.device * 8) 0)
          (address.function * 2 ^ 8 % 2 ^ 32)
        ≡ word4 128 address.bus (address.device * 8 + address.function) 0 =
      ap (bit_or (word4 128 address.bus (address.device * 8) 0)) (omega arith)
      ∙ or 128 address.bus (address.device * 8) 0 0 0 address.function 0 b (omega arith)
          (omega arith) (omega arith) (omega arith) (omega arith)
      ∙ rw (bit_or-zero address.bus, with_function) refl in
    let offset_part : bit_or (word4 128 address.bus (address.device * 8 + address.function) 0)
          (offset % 256 / 4 * 4)
        ≡ word4 128 address.bus (address.device * 8 + address.function) (offset % 256 / 4 * 4) =
      ap (bit_or (word4 128 address.bus (address.device * 8 + address.function) 0)) (omega arith)
      ∙ or 128 address.bus (address.device * 8 + address.function) 0 0 0 0 (offset % 256 / 4 * 4) b
          (omega arith) (omega arith) (omega arith) (omega arith) (omega arith)
      ∙ rw
          (
            bit_or-zero address.bus,
            bit_or-zero (address.device * 8 + address.function),
            zero-bit_or (offset % 256 / 4 * 4),
          )
          refl in
    rw (bus, device, function, offset_bits offset, offset_part) (omega arith)
  where
    with_function :
        bit_or (address.device * 8) address.function ≡ address.device * 8 + address.function
    with_function =
        ap₂ bit_or (omega arith) (omega arith)
        ∙ (==_iff _ _).0 (
            checked_all (λ n. bit_or (n / 8 * 8) (n % 8) == n) 256
              (address.device * 8 + address.function) (omega arith) functions_check)
