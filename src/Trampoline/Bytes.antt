-- ===== src/Trampoline/Bytes.antt =====
-- Numbers in memory, their lowest byte first.
use okots_os.Base.{
  ℕ, zero, suc, ◌+◌, ◌*◌, ◌/◌, ◌%◌, ◌^◌, ◌≤◌, ◌<◌, ◌≡◌, refl, sym, ap, ap₂, ◌∙◌, ◌⊎◌, inl, inr,
  List, [], ◌∷◌, ◌++◌, length, if◌then◌else◌, ◌==◌, arith, true, false, Bool-cases,
}
use native.Mathlib.Nat.{pow-suc}
use okots_os.Trampoline.{Ram, read_le, write_le, copied}

-- `b` is not one of the `n` bytes from `a` on.
abbrev pub Outside : ℕ → ℕ → ℕ → Type 0
Outside n a b = (b < a) ⊎ (a + n ≤ b)

pub write_le-Outside : (n v a b : ℕ) (ram : Ram) → Outside n a b → write_le n v a ram b ≡ ram b
write_le-Outside zero v a b ram o = refl
write_le-Outside (suc n) v a b ram o =
    let rest : Outside n (a + 1) b = ground (arith, o) in
    let other : (b == a) ≡ false = ground (arith, o) in
    write_le-Outside n (v / 256) (a + 1) b (λ k. if k == a then v % 256 else ram k) rest
    ∙ rw other refl

pub read_le-congr :
    (n a : ℕ) (f g : Ram)
    → ((b : ℕ) → a ≤ b → b < a + n → f b ≡ g b)
    → read_le n a f ≡ read_le n a g
read_le-congr zero a f g h = refl
read_le-congr (suc n) a f g h =
    ap₂ (λ x y. x + 256 * y) (h a (omega arith) (omega arith))
      (read_le-congr n (a + 1) f g (λ b p q. h b (omega arith) (omega arith)))

pub read_le-write_le : (n v a : ℕ) (ram : Ram) → v < 256 ^ n → read_le n a (write_le n v a ram) ≡ v
read_le-write_le zero v a ram p = omega arith
read_le-write_le (suc n) v a ram p =
    let next : Ram = λ k. if k == a then v % 256 else ram k in
    let self : (a == a) ≡ true = ground arith in
    let first : write_le n (v / 256) (a + 1) next a ≡ v % 256 =
      write_le-Outside n (v / 256) (a + 1) a next (inl (omega arith)) ∙ rw self refl in
    let rest = read_le-write_le n (v / 256) (a + 1) next (omega (arith, pow-suc 256 n)) in
    ap₂ (λ x y. x + 256 * y) first rest ∙ omega arith

-- Two numbers at different places.
pub read_le-apart :
    (n a k v c : ℕ) (ram : Ram)
    → (a + n ≤ c) ⊎ (c + k ≤ a)
    → read_le n a (write_le k v c ram) ≡ read_le n a ram
read_le-apart n a k v c ram o =
    read_le-congr n a (write_le k v c ram) ram
      (λ b p q. write_le-Outside k v c b ram (ground (arith, o)))

pub copied-Outside :
    (bytes : List ℕ) (a : ℕ) (f : Ram) (b : ℕ)
    → Outside (length bytes) a b
    → copied bytes a f b ≡ f b
copied-Outside [] a f b o = refl
copied-Outside (x ∷ bytes) a f b o =
    let rest : Outside (length bytes) (a + 1) b = ground (arith, o) in
    let other : (b == a) ≡ false = ground (arith, o) in
    copied-Outside bytes (a + 1) (λ k. if k == a then x else f k) b rest ∙ rw other refl

-- What a copy has within does not depend on what was there before.
pub copied-within :
    (bytes : List ℕ) (a : ℕ) (f g : Ram) (b : ℕ)
    → a ≤ b
    → b < a + length bytes
    → copied bytes a f b ≡ copied bytes a g b
copied-within [] a f g b p q = absurd (omega arith)
copied-within (x ∷ bytes) a f g b p q =
    let put : Ram → Ram = λ ram k. if k == a then x else ram k in
    elim (Bool-cases (b == a)) [
      | inl e ↦
          let here : (ram : Ram) → copied bytes (a + 1) (put ram) b ≡ x =
            λ ram. copied-Outside bytes (a + 1) (put ram) b (inl (ground (arith, e))) ∙ rw e refl in
          here f ∙ sym (here g)
      | inr e ↦ copied-within bytes (a + 1) (put f) (put g) b (ground (arith, e)) (omega arith)
    ]

pub copied-append :
    (xs ys : List ℕ) (a : ℕ) (f : Ram)
    → copied (xs ++ ys) a f ≡ copied ys (a + length xs) (copied xs a f)
copied-append [] ys a f = ap (λ k. copied ys k f) (omega arith)
copied-append (x ∷ xs) ys a f =
    let put : Ram = λ k. if k == a then x else f k in
    copied-append xs ys (a + 1) put ∙ ap (λ k. copied ys k (copied xs (a + 1) put)) (omega arith)
