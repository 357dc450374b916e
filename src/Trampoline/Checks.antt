-- ===== src/Trampoline/Checks.antt =====
-- src/multi_core/init/raw.rs: what the checks let through.
use okots_os.Base.{
  ℕ, ◌+◌, ◌-◌, ◌%◌, ◌≤◌, ◌<◌, ◌≡◌, refl, true, false, ◌&&◌, List, [], ◌∷◌, ◌++◌, All, length, ◌==◌,
  arith,
}
use okots_os.Firmware.{MemoryDescriptor}
use okots_os.Trampoline.{
  Ram, tramp_target, read_le, copied, stacks_valid, last_is_one, is_in_the_way, any_in_the_way,
  is_untouched, is_safe, tmp_table_at, stack_at, target_at, frarg_at, flags_at, safety_at,
}
use okots_os.Trampoline.Bytes.{read_le-congr, copied-within}

-- the stack of a processor
abbrev pub IsStack : ℕ → Type 0
IsStack st = (0 < st) × (st % 16 ≡ 0)

-- the stacks, and the mark of their end
abbrev pub marked : List ℕ → List ℕ
marked stacks = stacks ++ 1 ∷ []

stacks_valid-from :
    (stacks : List ℕ) (len l : ℕ)
    → All IsStack stacks
    → l + length stacks + 1 ≡ len
    → stacks_valid len l (marked stacks) ≡ true
stacks_valid-from [] len l h e = let last : (l == len - 1) ≡ true = ground arith in rw last refl
stacks_valid-from (st ∷ stacks) len l ((pos, aligned), h) e =
    let null : (st == 0) ≡ false = ground arith in
    let fits : (st % 16 == 0) ≡ true = ground arith in
    rw (null, fits, stacks_valid-from stacks len (l + 1) h (omega arith)) refl

pub last_is_one-marked : (stacks : List ℕ) → last_is_one (marked stacks) ≡ true
last_is_one-marked [] = refl
last_is_one-marked (st ∷ []) = refl
last_is_one-marked (st ∷ st' ∷ stacks) = last_is_one-marked (st' ∷ stacks)

length-marked : (stacks : List ℕ) → length (marked stacks) ≡ length stacks + 1
length-marked [] = omega arith
length-marked (st ∷ stacks) = omega (arith, length-marked stacks)

pub stacks_valid-marked :
    (stacks : List ℕ)
    → All IsStack stacks
    → stacks_valid (length (marked stacks)) 0 (marked stacks) ≡ true
stacks_valid-marked stacks h =
    stacks_valid-from stacks (length (marked stacks)) 0 h (omega (arith, length-marked stacks))

pub none_in_the_way :
    (len : ℕ) (map : List MemoryDescriptor)
    → All (λ i. is_in_the_way len i ≡ false) map
    → any_in_the_way len map ≡ false
none_in_the_way len [] h = refl
none_in_the_way len (i ∷ map) h = rw (h.0, none_in_the_way len map h.1) refl

-- Whether the fields hold what the program comes with depends on the first bytes only.
pub untouched-congr :
    (f g : Ram)
    → ((b : ℕ) → tramp_target ≤ b → b < tramp_target + 49 → f b ≡ g b)
    → (is_untouched f && is_safe f) ≡ (is_untouched g && is_safe g)
untouched-congr f g h =
    let field : (a : ℕ) → tramp_target ≤ a → a ≤ tramp_target + 41 → read_le 8 a f ≡ read_le 8 a g =
      λ a p q. read_le-congr 8 a f g (λ b r s. h b (omega arith) (omega arith)) in
    rw
      (
        field tmp_table_at (omega arith) (omega arith),
        field stack_at (omega arith) (omega arith),
        field target_at (omega arith) (omega arith),
        field frarg_at (omega arith) (omega arith),
        field safety_at (omega arith) (omega arith),
        h flags_at (omega arith) (omega arith),
      )
      refl

pub untouched-copied :
    (program : List ℕ) (f g : Ram)
    → 49 ≤ length program
    → (is_untouched (copied program tramp_target f) && is_safe (copied program tramp_target f))
      ≡ (is_untouched (copied program tramp_target g) && is_safe (copied program tramp_target g))
untouched-copied program f g long =
    untouched-congr (copied program tramp_target f) (copied program tramp_target g)
      (λ b p q. copied-within program tramp_target f g b p (omega arith))
