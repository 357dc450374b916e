-- ===== src/Paging/Normalize/Order.antt =====
-- src/memory/paging.rs, `normalize_map_list`: the ranges of its result are in order, do not overlap,
-- and cannot be joined any further.
use okots_os.Base.{
  ℕ, ◌≤◌, ◌≡◌, refl, inl, inr, List, [], ◌∷◌, ◌++◌, All, All-append, Bool-cases, ap, ◌∙◌, arith,
  leb,
}
use okots_os.Range.{MemRangeData, end_of}
use okots_os.Range.Bounds.{Fits}
use okots_os.Paging.Normalize.{Entry, cut, carve, insert_all, insert_sorted, sort, normalize}
use okots_os.Paging.Normalize.Lookup.{
  AllFit, Apart, AllApart, flags_at, flags_at-insert_sorted, insert_all-AllFit, carve-AllFit,
  or_else, or_else-none, here, flags_at-merge, flags_at-insert_all,
}

-- The pieces of a range lie inside it.
cut_inside :
    (r : MemRangeData) (e y : Entry) → Fits r → Fits e.0 → Apart y e → All (Apart y) (cut r e)
unfolding cut
cut_inside r (o, f) y hr he h = ground arith

cut_clear :
    (r : MemRangeData) (f : ℕ) (e : Entry) → Fits r → Fits e.0 → All (Apart (r, f)) (cut r e)
unfolding cut
cut_clear r g (o, f) hr he = ground arith

cut-AllApart : (r : MemRangeData) (e : Entry) → Fits r → Fits e.0 → AllApart (cut r e)
unfolding cut
cut-AllApart r (o, f) hr he = ground arith

carve_inside :
    (r : MemRangeData) (es : List Entry) (y : Entry)
    → Fits r
    → AllFit es
    → All (Apart y) es
    → All (Apart y) (carve r es)
unfolding carve
carve_inside r [] y hr hs h = tt
carve_inside r (e ∷ es) y hr hs h =
    All-append (Apart y) (cut r e) (carve r es) (cut_inside r e y hr hs.0 h.0)
      (carve_inside r es y hr hs.1 h.1)

carve_clear :
    (r : MemRangeData) (f : ℕ) (es : List Entry)
    → Fits r
    → AllFit es
    → All (Apart (r, f)) (carve r es)
unfolding carve
carve_clear r f [] hr hs = tt
carve_clear r f (e ∷ es) hr hs =
    All-append (Apart (r, f)) (cut r e) (carve r es) (cut_clear r f e hr hs.0)
      (carve_clear r f es hr hs.1)

Apart-symm : (x y : Entry) → Apart x y → Apart y x
Apart-symm x y (inl h) = inr h
Apart-symm x y (inr h) = inl h

All-Apart_symm : (y : Entry) (es : List Entry) → All (Apart y) es → All (λ x. Apart x y) es
All-Apart_symm y [] h = tt
All-Apart_symm y (e ∷ es) h = (Apart-symm y e h.0, All-Apart_symm y es h.1)

AllApart-append :
    (xs ys : List Entry)
    → AllApart xs
    → AllApart ys
    → All (λ x. All (Apart x) ys) xs
    → AllApart (xs ++ ys)
AllApart-append [] ys hx hy h = hy
AllApart-append (x ∷ xs) ys hx hy h =
    (All-append (Apart x) xs ys hx.0 h.0, AllApart-append xs ys hx.1 hy h.1)

abbrev Inside : Entry → Entry → Type 0
Inside e p = (e.0.start ≤ p.0.start) × (end_of p.0 ≤ end_of e.0)

cut-Inside : (r : MemRangeData) (e : Entry) → Fits r → Fits e.0 → All (Inside e) (cut r e)
unfolding cut
cut-Inside r (o, f) hr he = ground arith

Inside-Apart : (e p : Entry) (es : List Entry) → Inside e p → All (Apart e) es → All (Apart p) es
Inside-Apart e p [] i h = tt
Inside-Apart e p (x ∷ xs) i h = (omega arith, Inside-Apart e p xs i h.1)

-- The pieces of `e` are apart from the pieces of what is apart from `e`.
pieces-Apart :
    (r : MemRangeData) (e : Entry) (es ps : List Entry)
    → Fits r
    → AllFit es
    → All (Apart e) es
    → All (Inside e) ps
    → All (λ p. All (Apart p) (carve r es)) ps
pieces-Apart r e es [] hr hs h i = tt
pieces-Apart r e es (p ∷ ps) hr hs h i =
    (carve_inside r es p hr hs (Inside-Apart e p es i.0 h), pieces-Apart r e es ps hr hs h i.1)

carve-AllApart :
    (r : MemRangeData) (es : List Entry) → Fits r → AllFit es → AllApart es → AllApart (carve r es)
unfolding carve
carve-AllApart r [] hr hs h = tt
carve-AllApart r (e ∷ es) hr hs h =
    AllApart-append (cut r e) (carve r es) (cut-AllApart r e hr hs.0)
      (carve-AllApart r es hr hs.1 h.1)
      (pieces-Apart r e es (cut r e) hr hs.1 h.0 (cut-Inside r e hr hs.0))

-- one round of the `for` loop
push-AllApart :
    (r : MemRangeData) (f : ℕ) (es : List Entry)
    → Fits r
    → AllFit es
    → AllApart es
    → AllApart (carve r es ++ (r, f) ∷ [])
push-AllApart r f es hr hs h =
    AllApart-append (carve r es) ((r, f) ∷ []) (carve-AllApart r es hr hs h) (tt, tt)
      (last (carve r es) (carve_clear r f es hr hs))
  where
    last : (xs : List Entry) → All (Apart (r, f)) xs → All (λ x. All (Apart x) ((r, f) ∷ [])) xs
    last [] k = tt
    last (x ∷ xs) k = ((Apart-symm (r, f) x k.0, tt), last xs k.1)

pub insert_all-AllApart :
    (acc es : List Entry) → AllFit acc → AllFit es → AllApart acc → AllApart (insert_all acc es)
unfolding insert_all
insert_all-AllApart acc [] ha hs h = h
insert_all-AllApart acc ((r, f) ∷ es) ha hs h =
    insert_all-AllApart (carve r acc ++ (r, f) ∷ []) es
      (All-append (λ e. Fits e.0) (carve r acc) ((r, f) ∷ []) (carve-AllFit r acc hs.0 ha)
        (hs.0, tt))
      hs.1 (push-AllApart r f acc hs.0 ha h)

-- Sorting keeps what holds of every entry, and of every two.
pub All-insert_sorted :
    (P : Entry → Type 0) (e : Entry) (es : List Entry) → P e → All P es → All P (insert_sorted e es)
unfolding insert_sorted
All-insert_sorted P e [] he hs = (he, tt)
All-insert_sorted P e (x ∷ xs) he hs = elim (Bool-cases (leb e.0.start x.0.start)) [
  | inl h ↦ rw h (he, hs)
  | inr h ↦ rw h (hs.0, All-insert_sorted P e xs he hs.1)
]

pub All-sort : (P : Entry → Type 0) (es : List Entry) → All P es → All P (sort es)
unfolding sort
All-sort P [] h = tt
All-sort P (e ∷ es) h = All-insert_sorted P e (sort es) h.0 (All-sort P es h.1)

insert_sorted-AllApart :
    (e : Entry) (es : List Entry) → All (Apart e) es → AllApart es → AllApart (insert_sorted e es)
unfolding insert_sorted
insert_sorted-AllApart e [] h k = (tt, tt)
insert_sorted-AllApart e (x ∷ xs) h k = elim (Bool-cases (leb e.0.start x.0.start)) [
  | inl t ↦ rw t (h, k)
  | inr t ↦ rw t (
    All-insert_sorted (Apart x) e xs (Apart-symm e x h.0) k.0,
    insert_sorted-AllApart e xs h.1 k.1,
  )
]

pub sort-AllApart : (es : List Entry) → AllApart es → AllApart (sort es)
unfolding sort
sort-AllApart [] h = tt
sort-AllApart (e ∷ es) h =
    insert_sorted-AllApart e (sort es) (All-sort (Apart e) es h.0) (sort-AllApart es h.1)

-- Sorting ranges that are apart changes the flags of no address.
flags_at-sort : (es : List Entry) (a : ℕ) → AllApart es → flags_at (sort es) a ≡ flags_at es a
unfolding flags_at sort
flags_at-sort [] a h = refl
flags_at-sort (e ∷ es) a h =
    flags_at-insert_sorted e (sort es) a (All-sort (Apart e) es h.0)
    ∙ ap (λ o. or_else o (here e a)) (flags_at-sort es a h.1)

-- For ranges that fit, the normalised list gives every address the flags that the last range of the
-- original list that holds it gives, and none to an address that no range holds.
pub flags_at-normalize :
    (es : List Entry) (a : ℕ) → AllFit es → flags_at (normalize es) a ≡ flags_at es a
unfolding normalize flags_at
flags_at-normalize es a h =
    flags_at-merge (sort (insert_all [] es)) a (All-sort _ _ fit)
    ∙ flags_at-sort (insert_all [] es) a (insert_all-AllApart [] es tt h tt)
    ∙ flags_at-insert_all [] es a tt h
    ∙ or_else-none (flags_at es a)
  where
    fit : AllFit (insert_all [] es)
    fit = insert_all-AllFit [] es tt h
