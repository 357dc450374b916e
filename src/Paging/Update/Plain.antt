-- ===== src/Paging/Update/Plain.antt =====
-- src/memory/paging.rs: the tests on words read an entry by the bits that the crate reads.
use okots_os.Base.{
  ℕ, ◌*◌, ◌/◌, ◌%◌, ◌^◌, ◌<◌, ◌≡◌, refl, ap₂, ◌∙◌, true, arith, ◌==◌, bit_and, checked,
  bit_and-zero, bit_and-byte, bit_and-Splits, Splits-8_bits, Splits-16_bits, Splits-32_bits,
  masked_halves, by_table,
}
use okots_os.Paging.Hardware.{plain}
use okots_os.Paging.Update.{addr_mask}
use okots_os.Paging.Update.Owned.{IsRaw}

-- A mask of one byte.
low_mask :
    (m : ℕ) (g : ℕ → ℕ)
    → m < 256
    → checked (λ b. bit_and b m == g b) 256 ≡ true
    → (e : ℕ) → bit_and e m ≡ g (e % 256)
low_mask m g p table e =
    ap₂ bit_and (omega arith) (omega arith)
    ∙ masked_halves 256 (Splits-8_bits bit_and bit_and-Splits) 0 m (e / 256) (e % 256) 0
        (g (e % 256)) (omega arith) p (bit_and-zero (e / 256))
        (by_table 256 (λ b. bit_and b m) g table (e % 256) (omega arith))
    ∙ omega arith

bit_and_1 : (e : ℕ) → bit_and e 1 ≡ e % 256 % 2
unfolding checked
bit_and_1 e = low_mask 1 (λ b. b % 2) (omega arith) refl e

bit_and_128 : (e : ℕ) → bit_and e 128 ≡ e % 256 / 128 * 128
unfolding checked
bit_and_128 e = low_mask 128 (λ b. b / 128 * 128) (omega arith) refl e

bit_and_15 : (e : ℕ) → bit_and e 15 ≡ e % 256 % 16
unfolding checked
bit_and_15 e = low_mask 15 (λ b. b % 16) (omega arith) refl e

bit_and_240 : (e : ℕ) → bit_and e 240 ≡ e % 256 / 16 * 16
unfolding checked
bit_and_240 e = low_mask 240 (λ b. b / 16 * 16) (omega arith) refl e

-- two bytes
bit_and_ffff : (e : ℕ) → e < 65536 → bit_and e 0xffff ≡ e
bit_and_ffff e p =
    ap₂ bit_and (omega arith) (omega arith)
    ∙ masked_halves 256 (Splits-8_bits bit_and bit_and-Splits) 255 255 (e / 256) (e % 256) (e / 256)
        (e % 256) (omega arith) (omega arith) (bit_and-byte (e / 256) ∙ omega arith)
        (bit_and-byte (e % 256) ∙ omega arith)
    ∙ omega arith

bit_and_f000 : (e : ℕ) → e < 65536 → bit_and e 0xf000 ≡ e / 4096 * 4096
bit_and_f000 e p =
    ap₂ bit_and (omega arith) (omega arith)
    ∙ masked_halves 256 (Splits-8_bits bit_and bit_and-Splits) 240 0 (e / 256) (e % 256)
        (e / 256 / 16 * 16) 0 (omega arith) (omega arith) (bit_and_240 (e / 256) ∙ omega arith)
        (bit_and-zero (e % 256))
    ∙ omega arith

-- the halves of a word
low_half : (e : ℕ) → e < 2 ^ 32 → bit_and e 0xfffff000 ≡ e / 4096 * 4096
low_half e p =
    ap₂ bit_and (omega arith) (omega arith)
    ∙ masked_halves 65536 (Splits-16_bits bit_and bit_and-Splits) 0xffff 0xf000 (e / 65536)
        (e % 65536) (e / 65536) (e % 65536 / 4096 * 4096) (omega arith) (omega arith)
        (bit_and_ffff (e / 65536) (omega arith)) (bit_and_f000 (e % 65536) (omega arith))
    ∙ omega arith

high_half : (e : ℕ) → bit_and e 0x000fffff ≡ e % 2 ^ 20
high_half e =
    ap₂ bit_and (omega arith) (omega arith)
    ∙ masked_halves 65536 (Splits-16_bits bit_and bit_and-Splits) 15 0xffff (e / 65536) (e % 65536)
        (e / 65536 % 16) (e % 65536) (omega arith) (omega arith)
        (bit_and_15 (e / 65536) ∙ omega arith) (bit_and_ffff (e % 65536) (omega arith))
    ∙ omega arith

addr_bits : (e : ℕ) → bit_and e addr_mask ≡ e / 4096 % 2 ^ 40 * 4096
addr_bits e =
    ap₂ bit_and (omega arith) (omega arith)
    ∙ masked_halves (2 ^ 32) (Splits-32_bits bit_and bit_and-Splits) 0x000fffff 0xfffff000
        (e / 2 ^ 32) (e % 2 ^ 32) (e / 2 ^ 32 % 2 ^ 20) (e % 2 ^ 32 / 4096 * 4096) (omega arith)
        (omega arith) (high_half (e / 2 ^ 32)) (low_half (e % 2 ^ 32) (omega arith))
    ∙ omega arith

pub plain-IsRaw : IsRaw plain
plain-IsRaw = record {
  present = λ e. ground (arith, bit_and_1 e);
  huge = λ e. ground (arith, bit_and_128 e);
  addr = addr_bits;
}
