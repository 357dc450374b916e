-- ===== src/Paging/Hardware.antt =====
-- What src/memory/paging.rs takes from the crates `x86` (the flag and entry types of each level)
-- and `x86_64` (the reading of an entry), with the documented layout of an entry.
use okots_os.Base.{
  ℕ, ◌+◌, ◌/◌, ◌%◌, ◌*◌, ◌^◌, ◌<◌, ◌≡◌, refl, Bool, true, false, arith, ◌==◌, bit_and,
}
use okots_os.Paging.Level.{PageLevel, pt, pd, pdpt, pml4, pml5}

pub record Hardware : Type 0 where
  -- `from_bits_truncate` of the level's flag type, on bits
  pub truncate : PageLevel → ℕ → ℕ
  -- the bits of the constants `P`, `PS`, `PAT`, `D` and `G` of the level's flag type
  pub bit_p : PageLevel → ℕ
  pub bit_ps : PageLevel → ℕ
  pub bit_pat : PageLevel → ℕ
  pub bit_d : PageLevel → ℕ
  pub bit_g : PageLevel → ℕ
  -- `PTEntry::new(address, flags).0` and so on
  pub entry : PageLevel → ℕ → ℕ → ℕ
  -- `flags().contains(PRESENT)`, `flags().contains(HUGE_PAGE)` and `addr()` of an entry that is read
  pub is_present : ℕ → Bool
  pub is_huge : ℕ → Bool
  pub addr : ℕ → ℕ

-- the bits that a level's flag type has a constant for
abbrev pub known : PageLevel → ℕ
known pt = 2 ^ 63 + 0x17f
known pd = 2 ^ 63 + 0x11ff
known pdpt = 2 ^ 63 + 0x11ff
known pml4 = 2 ^ 63 + 0x3f
known pml5 = 2 ^ 63 + 0x3f

-- An address that an entry can hold.
pub record IsPage (a : ℕ) : Type 0 where
  pub aligned : a % 4096 ≡ 0
  pub physical : a < 2 ^ 52

-- The layout of an entry: present is bit 0, huge is bit 7, the address is in bits 12 to 51.
pub record IsX86 (hw : Hardware) : Type 0 where
  pub p_bit : (l : PageLevel) → hw.bit_p l ≡ 1
  pub ps_bit : (l : PageLevel) → hw.bit_ps l ≡ 2 ^ 7
  pub pat_bit : (l : PageLevel) → hw.bit_pat l ≡ 2 ^ 12
  pub d_bit : (l : PageLevel) → hw.bit_d l ≡ 2 ^ 6
  pub g_bit : (l : PageLevel) → hw.bit_g l ≡ 2 ^ 8
  pub truncate_known : (l : PageLevel) (f : ℕ) → bit_and f (known l) ≡ f → hw.truncate l f ≡ f
  pub zero_absent : hw.is_present 0 ≡ false
  pub entry_present :
      (l : PageLevel) (a f : ℕ) → IsPage a → f % 2 ≡ 1 → hw.is_present (hw.entry l a f) ≡ true
  pub entry_huge :
      (l : PageLevel) (a f : ℕ) → IsPage a → f / 128 % 2 ≡ 1 → hw.is_huge (hw.entry l a f) ≡ true
  pub entry_small :
      (l : PageLevel) (a f : ℕ) → IsPage a → f / 128 % 2 ≡ 0 → hw.is_huge (hw.entry l a f) ≡ false
  pub entry_addr :
      (l : PageLevel) (a f : ℕ) → IsPage a → f / 4096 % 2 ^ 40 ≡ 0 → hw.addr (hw.entry l a f) ≡ a

-- An entry as the sum of its address and its flags.
abbrev pub plain : Hardware
plain = record {
  truncate = λ l f. bit_and f (known l);
  bit_p = λ l. 1;
  bit_ps = λ l. 2 ^ 7;
  bit_pat = λ l. 2 ^ 12;
  bit_d = λ l. 2 ^ 6;
  bit_g = λ l. 2 ^ 8;
  entry = λ l a f. a + f;
  is_present = λ e. (e % 2) == 1;
  is_huge = λ e. (e / 128 % 2) == 1;
  addr = λ e. e / 4096 % 2 ^ 40 * 4096;
}

pub plain-IsX86 : IsX86 plain
plain-IsX86 = record {
  p_bit = λ l. refl;
  ps_bit = λ l. refl;
  pat_bit = λ l. refl;
  d_bit = λ l. refl;
  g_bit = λ l. refl;
  truncate_known = λ l f h. h;
  zero_absent = refl;
  entry_present = λ l a f v h. ground arith;
  entry_huge = λ l a f v h. ground arith;
  entry_small = λ l a f v h. ground arith;
  entry_addr = λ l a f v h. omega arith;
}
