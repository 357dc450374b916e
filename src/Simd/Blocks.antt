-- ===== src/Simd/Blocks.antt =====
-- src/simd/mod.rs: the loop by blocks does what the loop one by one does.
use okots_os.Base.{
  ℕ, zero, suc, ◌+◌, ◌-◌, ◌≤◌, ◌<◌, ◌≡◌, refl, sym, ap, ◌∙◌, min, List, [], ◌∷◌, length, ltb, drop,
  arith, Bool-cases, inl, inr,
}
use okots_os.Simd.{block, at, blocks, scalars}

pub suc-add : (i n : ℕ) → suc i + n ≡ suc (i + n)
suc-add i n = omega arith

drop-nil : (n : ℕ) → drop {A = ℕ} n [] ≡ []
drop-nil zero = refl
drop-nil (suc n) = refl

pub drop-drop : (i n : ℕ) (xs : List ℕ) → drop (i + n) xs ≡ drop n (drop i xs)
drop-drop zero n xs = ap (λ k. drop k xs) (omega arith)
drop-drop (suc i) n [] = drop-nil (suc i + n) ∙ sym (drop-nil n)
drop-drop (suc i) n (x ∷ xs) = ap (λ k. drop k (x ∷ xs)) (suc-add i n) ∙ drop-drop i n xs

pub length-drop : (n : ℕ) (xs : List ℕ) → length (drop n xs) ≡ length xs - n
length-drop zero xs = omega arith
length-drop (suc n) [] = omega arith
length-drop (suc n) (x ∷ xs) = omega (arith, length-drop n xs)

at-congr :
    (i : ℕ) (f g : List ℕ → List ℕ) (a : List ℕ) → f (drop i a) ≡ g (drop i a) → at i f a ≡ at i g a
unfolding at
at-congr zero f g a h = h
at-congr (suc i) f g [] h = h
at-congr (suc i) f g (x ∷ a) h = ap (◌∷◌ x) (at-congr i f g a h)

at-nil : (i : ℕ) (f : List ℕ → List ℕ) → at i f [] ≡ f []
unfolding at
at-nil zero f = refl
at-nil (suc i) f = refl

-- on the empty slice both functions have nothing to change
at-at :
    (i n : ℕ) (f g : List ℕ → List ℕ) (a : List ℕ)
    → g [] ≡ []
    → at (i + n) f (at i g a) ≡ at i (λ s. at n f (g s)) a
unfolding at
at-at zero n f g a h = ap (λ k. at k f (g a)) (omega arith)
at-at (suc i) n f g [] h = rw (h, at-nil (suc i + n) f, at-nil n f) refl
at-at (suc i) n f g (x ∷ a) h =
    ap (λ k. at k f (x ∷ at i g a)) (suc-add i n) ∙ ap (◌∷◌ x) (at-at i n f g a h)

at-id : (i : ℕ) (a : List ℕ) → at i (λ s. s) a ≡ a
unfolding at
at-id zero a = refl
at-id (suc i) [] = refl
at-id (suc i) (x ∷ a) = ap (◌∷◌ x) (at-id i a)

length-at :
    (i : ℕ) (f : List ℕ → List ℕ) (a : List ℕ)
    → ((s : List ℕ) → length (f s) ≡ length s)
    → length (at i f a) ≡ length a
unfolding at
length-at zero f a h = h a
length-at (suc i) f [] h = h []
length-at (suc i) f (x ∷ a) h = ap suc (length-at i f a h)

module _ (op : ℕ → ℕ → ℕ) where
  length-block :
      (lanes remain lane k : ℕ) (b a : List ℕ)
      → length (block op lanes remain lane k a b) ≡ length a
  unfolding block
  length-block lanes remain lane zero b a = refl
  length-block lanes remain lane (suc k) b [] = refl
  length-block lanes remain lane (suc k) [] (x ∷ a) = refl
  length-block lanes remain lane (suc k) (y ∷ b) (x ∷ a) =
      ap suc (length-block lanes remain (lane + 1) k b a)

  scalars-end : (a b : List ℕ) → min (length a) (length b) ≡ 0 → scalars op a b ≡ a
  unfolding scalars
  scalars-end [] b h = refl
  scalars-end (x ∷ a) [] h = refl
  scalars-end (x ∷ a) (y ∷ b) h = absurd (omega arith)

  scalars-nil : (a : List ℕ) → scalars op a [] ≡ a
  unfolding scalars
  scalars-nil [] = refl
  scalars-nil (x ∷ a) = refl

  block-scalars :
      (lanes remain lane k : ℕ) (s t : List ℕ)
      → lane + min (length s) (length t) ≤ remain
      → at k (λ r. scalars op r (drop k t)) (block op lanes remain lane k s t) ≡ scalars op s t
  unfolding block at scalars
  block-scalars lanes remain lane zero s t h = refl
  block-scalars lanes remain lane (suc k) [] t h = refl
  block-scalars lanes remain lane (suc k) (x ∷ s) [] h =
      ap (◌∷◌ x) (at-congr k (λ r. scalars op r []) (λ r. r) s (scalars-nil (drop k s)) ∙ at-id k s)
  block-scalars lanes remain lane (suc k) (x ∷ s) (y ∷ t) h =
      ground (arith, block-scalars lanes remain (lane + 1) k s t (omega arith))

  block-nil : (lanes remain k : ℕ) (b : List ℕ) → block op lanes remain 0 k [] b ≡ []
  unfolding block
  block-nil lanes remain zero b = refl
  block-nil lanes remain (suc k) b = refl

  finished :
      (len i : ℕ) (a b : List ℕ)
      → min (length a) (length b) ≤ len
      → len ≤ i
      → at i (λ s. scalars op s (drop i b)) a ≡ a
  finished len i a b whole done =
      at-congr i (λ s. scalars op s (drop i b)) (λ s. s) a
        (scalars-end (drop i a) (drop i b) (omega (arith, length-drop i a, length-drop i b)))
      ∙ at-id i a

  pub blocks-scalars :
      (lanes len fuel i : ℕ) (a b : List ℕ)
      → 0 < lanes
      → min (length a) (length b) ≤ len
      → len ≤ i + fuel
      → blocks op lanes len fuel i a b ≡ at i (λ s. scalars op s (drop i b)) a
  unfolding blocks
  blocks-scalars lanes len zero i a b pos whole enough =
      sym (finished len i a b whole (omega arith))
  blocks-scalars lanes len (suc fuel) i a b pos whole enough = elim (Bool-cases (ltb i len)) [
    | inl e ↦ rw e (
        let f : List ℕ → List ℕ = λ s. block op lanes (len - i) 0 lanes s (drop i b) in
        let same = length-at i f a (length-block lanes (len - i) 0 lanes (drop i b)) in
        blocks-scalars lanes len fuel (i + lanes) (at i f a) b pos (rw same whole) (omega arith)
        ∙ at-at i lanes (λ s. scalars op s (drop (i + lanes) b)) f a
            (block-nil lanes (len - i) lanes (drop i b))
        ∙ at-congr i (λ s. at lanes (λ r. scalars op r (drop (i + lanes) b)) (f s))
            (λ s. scalars op s (drop i b)) a
            (rw (drop-drop i lanes b) (
              block-scalars lanes (len - i) 0 lanes (drop i a) (drop i b)
                (ground (arith, length-drop i a, length-drop i b)))))
    | inr e ↦ rw e (sym (finished len i a b whole (ground arith)))
  ]
