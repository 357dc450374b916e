-- ===== src/Pci/Bytes.antt =====
-- src/acpi/handler.rs: writes of a byte or a word to the configuration space, which are made with
-- reads and writes of double words.
use okots_os.Base.{
  ℕ, ◌-◌, ◌*◌, ◌/◌, ◌%◌, ◌^◌, ◌<◌, ◌≡◌, refl, ap, ap₂, sym, ◌∙◌, inl, inr, Bool, Bool-cases, true,
  false, not, zero, suc, ◌&&◌, if◌then◌else◌, bit_and, bit_or, arith, ◌==◌, ==_iff, bit_and-Splits,
  bit_or-Splits, bit_and-zero, bit_or-zero, zero-bit_or, bit_and-byte, bit_and_3,
}
use okots_os.Pci.{
  PciAddress, addr_of, Ports, merged, read_pci_u32, read_pci_u8, write_pci_u32, write_pci_u8,
}
use okots_os.Pci.Address.{word4, word4_bytes}

-- How the ports behave: 0xCF8 selects a double word, which 0xCFC reads and writes. `cell` is the
-- configuration space, here of registers that keep what is written.
pub record IsConfigSpace (ports : Ports) : Type 0 where
  pub cell : ports.State → ℕ → ℕ
  pub small : (s : ports.State) (n : ℕ) → cell s n < 2 ^ 32
  pub read : (s : ports.State) (n : ℕ) → (ports.read 0xCFC (ports.write 0xCF8 n s)).0 ≡ cell s n
  pub read_kept :
      (s : ports.State) (n k : ℕ) → cell (ports.read 0xCFC (ports.write 0xCF8 n s)).1 k ≡ cell s k
  pub written :
      (s : ports.State) (n v k : ℕ)
      → v < 2 ^ 32
      → cell (ports.write 0xCFC v (ports.write 0xCF8 n s)) k ≡ (if k == n then v else cell s k)

-- byte `k` of a double word, of four
abbrev pub byte : ℕ → ℕ → ℕ
byte k n = n / 2 ^ (k * 8) % 2 ^ 8

-- A mask byte keeps its byte or clears it; where it keeps, nothing is put in.
abbrev mask : Bool → ℕ
mask keep = if keep then 255 else 0

abbrev put : Bool → ℕ → ℕ
put keep v = if keep then 0 else v

abbrev pick : Bool → ℕ → ℕ → ℕ
pick keep a v = if keep then a else v

mask_byte :
    (keep : Bool) (a v : ℕ)
    → a < 256
    → v < 256
    → (bit_and a (mask keep) < 256)
      × (mask keep < 256)
      × (put keep v < 256)
      × (bit_or (bit_and a (mask keep)) (put keep v) ≡ pick keep a v)
mask_byte true a v p q =
    let e : bit_and a 255 ≡ a = bit_and-byte a ∙ omega arith in
    (omega (arith, e), omega arith, omega arith, bit_or-zero (bit_and a 255) ∙ e)
mask_byte false a v p q = (
  omega (arith, bit_and-zero a),
  omega arith,
  q,
  ap (λ n. bit_or n v) (bit_and-zero a) ∙ zero-bit_or v,
)

-- Some bytes of four are replaced.
masked_word :
    (k3 k2 k1 k0 : Bool) (a3 a2 a1 a0 v3 v2 v1 v0 : ℕ)
    → a3 < 256
    → a2 < 256
    → a1 < 256
    → a0 < 256
    → v3 < 256
    → v2 < 256
    → v1 < 256
    → v0 < 256
    → bit_or
        (bit_and (word4 a3 a2 a1 a0) (word4 (mask k3) (mask k2) (mask k1) (mask k0)))
        (word4 (put k3 v3) (put k2 v2) (put k1 v1) (put k0 v0))
      ≡ word4 (pick k3 a3 v3) (pick k2 a2 v2) (pick k1 a1 v1) (pick k0 a0 v0)
masked_word k3 k2 k1 k0 a3 a2 a1 a0 v3 v2 v1 v0 p3 p2 p1 p0 q3 q2 q1 q0 =
    let (b3, m3, u3, e3) = mask_byte k3 a3 v3 p3 q3 in
    let (b2, m2, u2, e2) = mask_byte k2 a2 v2 p2 q2 in
    let (b1, m1, u1, e1) = mask_byte k1 a1 v1 p1 q1 in
    let (b0, m0, u0, e0) = mask_byte k0 a0 v0 p0 q0 in
    ap (λ n. bit_or n (word4 (put k3 v3) (put k2 v2) (put k1 v1) (put k0 v0)))
      (word4_bytes bit_and bit_and-Splits a3 a2 a1 a0 (mask k3) (mask k2) (mask k1) (mask k0) p2 p1
        p0 m2 m1 m0)
    ∙ word4_bytes bit_or bit_or-Splits _ _ _ _ (put k3 v3) (put k2 v2) (put k1 v1) (put k0 v0) b2 b1
        b0 u2 u1 u0
    ∙ rw (e3, e2, e1, e0) refl

-- the bytes that a write of byte `k` keeps
abbrev keep : ℕ → ℕ → Bool
keep k j = not (j == k)

mask_word :
    (k : ℕ)
    → k < 4
    → 2 ^ 32 - 1 - 0xff * 2 ^ (k * 8) % 2 ^ 32
      ≡ word4 (mask (keep k 3)) (mask (keep k 2)) (mask (keep k 1)) (mask (keep k 0))
mask_word zero p = refl
mask_word (suc zero) p = refl
mask_word (suc (suc zero)) p = refl
mask_word (suc (suc (suc zero))) p = refl
mask_word (suc (suc (suc (suc k)))) p = absurd (omega arith)

put_word :
    (k v : ℕ)
    → k < 4
    → v < 256
    → v * 2 ^ (k * 8) % 2 ^ 32
      ≡ word4 (put (keep k 3) v) (put (keep k 2) v) (put (keep k 1) v) (put (keep k 0) v)
put_word zero v p q = omega arith
put_word (suc zero) v p q = omega arith
put_word (suc (suc zero)) v p q = omega arith
put_word (suc (suc (suc zero))) v p q = omega arith
put_word (suc (suc (suc (suc k)))) v p q = absurd (omega arith)

byte-word4 :
    (j a3 a2 a1 a0 : ℕ) (f : ℕ → ℕ)
    → a3 < 256
    → a2 < 256
    → a1 < 256
    → a0 < 256
    → f 3 ≡ a3
    → f 2 ≡ a2
    → f 1 ≡ a1
    → f 0 ≡ a0
    → j < 4
    → byte j (word4 a3 a2 a1 a0) ≡ f j
byte-word4 zero a3 a2 a1 a0 f p3 p2 p1 p0 e3 e2 e1 e0 q = omega arith
byte-word4 (suc zero) a3 a2 a1 a0 f p3 p2 p1 p0 e3 e2 e1 e0 q = omega arith
byte-word4 (suc (suc zero)) a3 a2 a1 a0 f p3 p2 p1 p0 e3 e2 e1 e0 q = omega arith
byte-word4 (suc (suc (suc zero))) a3 a2 a1 a0 f p3 p2 p1 p0 e3 e2 e1 e0 q = omega arith
byte-word4 (suc (suc (suc (suc j)))) a3 a2 a1 a0 f p3 p2 p1 p0 e3 e2 e1 e0 q = absurd (omega arith)

low_byte : (n : ℕ) → n % 256 < 256
low_byte n = omega arith

pick_small : (k : Bool) (a v : ℕ) → a < 256 → v < 256 → pick k a v < 256
pick_small true a v p q = p
pick_small false a v p q = q

pick-not : (b : Bool) (a v : ℕ) → pick (not b) a v ≡ (if b then v else a)
pick-not true a v = refl
pick-not false a v = refl

-- A write of byte `k` puts the value there, and leaves the other three bytes.
merged-byte :
    (n v k j : ℕ)
    → n < 2 ^ 32
    → v < 256
    → k < 4
    → j < 4
    → (merged 0xff (k * 8) n v < 2 ^ 32)
      × (byte j (merged 0xff (k * 8) n v) ≡ pick (keep k j) (byte j n) v)
merged-byte n v k j p q r s =
    let bytes : n ≡ word4 (byte 3 n) (byte 2 n) (byte 1 n) (byte 0 n) = omega arith in
    let merged_bytes =
      ap₂ bit_or (ap₂ bit_and bytes (mask_word k r)) (put_word k v r q)
      ∙ masked_word (keep k 3) (keep k 2) (keep k 1) (keep k 0) (byte 3 n) (byte 2 n) (byte 1 n)
          (byte 0 n) v v v v (omega arith) (omega arith) (omega arith) (omega arith) q q q q in
    let small : (i : ℕ) → pick (keep k i) (byte i n) v < 256 =
      λ i. pick_small (keep k i) (byte i n) v (low_byte (n / 2 ^ (i * 8))) q in
    rw merged_bytes (
      omega (arith, small 3, small 2, small 1, small 0),
      byte-word4 j _ _ _ _ (λ i. pick (keep k i) (byte i n) v) (small 3) (small 2) (small 1)
          (small 0) refl refl refl refl s,
    )

-- For ports that behave as a configuration space of registers: what `read_pci_u8` reads anywhere
-- after `write_pci_u8` is the value that was written, if it reads the same byte of the same double
-- word, and else what it would have read before. So the write leaves the three bytes beside its
-- own, and every other double word.
pub read_pci_u8-write_pci_u8 :
    (ports : Ports)
    → IsConfigSpace ports
    → (address address' : PciAddress) (offset offset' value : ℕ) (s : ports.State) → value < 256
    → (read_pci_u8 ports address' offset' (write_pci_u8 ports address offset value s)).0 ≡ (
        if (addr_of address' offset' == addr_of address offset) && (offset' % 4 == offset % 4)
        then value
        else (read_pci_u8 ports address' offset' s).0)
unfolding read_pci_u8 write_pci_u8 read_pci_u32 write_pci_u32
read_pci_u8-write_pci_u8 ports c address address' offset offset' value s q =
    let n : ℕ = addr_of address offset in
    let k : ℕ = addr_of address' offset' in
    let old : ℕ = c.cell s n in
    let new : ℕ = merged 0xff (offset % 4 * 8) old value in
    let s' = (ports.read 0xCFC (ports.write 0xCF8 n s)).1 in
    let (fits, bytes) =
      merged-byte old value (offset % 4) (offset' % 4) (c.small s n) q (omega arith)
        (omega arith) in
    rw
      (
        bit_and_3 offset,
        bit_and_3 offset',
        c.read s n,
        c.read s k,
        c.read (ports.write 0xCFC new (ports.write 0xCF8 n s')) k,
        c.written s' n new k fits,
        c.read_kept s n k,
      )
      (elim (Bool-cases (k == n)) [
        | inl e ↦
            let same : k ≡ n = (==_iff k n).0 e in
            rw e (
              bytes
              ∙ pick-not (offset' % 4 == offset % 4) (byte (offset' % 4) old) value
              ∙ ap
                  (λ w.
                    if offset' % 4 == offset % 4 then value else byte (offset' % 4) (c.cell s w))
                  (sym same))
        | inr e ↦ rw e refl
      ])
