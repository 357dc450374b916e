-- ===== src/Paging/Normalize/Lookup.antt =====
-- What a map list means: the flags of an address, the last range that holds it deciding.
-- `normalize_map_list` of src/memory/paging.rs keeps this meaning.
use okots_os.Base.{
  ℕ, ◌≤◌, ◌≡◌, refl, ◌∙◌, ◌⊎◌, true, Option, none, some, List, [], ◌∷◌, ◌++◌, All, All-append,
  Bool-cases, ◌&&◌, inl, inr, sym, arith, add_word, ◌==◌, if◌then◌else◌, ap,
}
use okots_os.Range.{MemRangeData, end_of, contains, set_len}
use okots_os.Range.Bounds.{Fits}
use okots_os.Paging.Normalize.{Entry, cut, carve, insert_all, insert_sorted, merge_from, merge}

abbrev pub or_else : Option ℕ → Option ℕ → Option ℕ
or_else none o = o
or_else (some f) o = some f

-- the flags of one entry, at an address that it holds
abbrev pub here : Entry → ℕ → Option ℕ
here e a = if contains e.0 a then some e.1 else none

unfoldable pub flags_at : List Entry → ℕ → Option ℕ
flags_at [] a = none
flags_at (e ∷ es) a = or_else (flags_at es a) (here e a)

abbrev pub AllFit : List Entry → Type 0
AllFit = All (λ e. Fits e.0)

pub or_else-none : (o : Option ℕ) → or_else o none ≡ o
or_else-none none = refl
or_else-none (some f) = refl

or_else_assoc : (a b c : Option ℕ) → or_else (or_else a b) c ≡ or_else a (or_else b c)
or_else_assoc none b c = refl
or_else_assoc (some f) b c = refl

flags_at-append :
    (xs ys : List Entry) (a : ℕ) → flags_at (xs ++ ys) a ≡ or_else (flags_at ys a) (flags_at xs a)
unfolding flags_at
flags_at-append [] ys a = ground arith
flags_at-append (x ∷ xs) ys a = ground (arith, flags_at-append xs ys a)

-- Cutting takes the addresses of the new range away, and no other.
flags_at-cut :
    (r : MemRangeData) (e : Entry) (a : ℕ)
    → Fits r
    → Fits e.0
    → flags_at (cut r e) a ≡ (if contains r a then none else here e a)
unfolding flags_at cut
flags_at-cut r (o, f) a hr he = ground arith

flags_at-carve :
    (r : MemRangeData) (es : List Entry) (a : ℕ)
    → Fits r
    → AllFit es
    → flags_at (carve r es) a ≡ (if contains r a then none else flags_at es a)
unfolding flags_at carve
flags_at-carve r [] a hr hs = ground arith
flags_at-carve r (e ∷ es) a hr hs = ground (
  arith,
  flags_at-append (cut r e) (carve r es) a,
  flags_at-cut r e a hr,
  flags_at-carve r es a hr hs.1,
)

-- Every range stays in the words.
cut-AllFit : (r : MemRangeData) (e : Entry) → Fits r → Fits e.0 → AllFit (cut r e)
unfolding cut
cut-AllFit r (o, f) hr he = ground arith

pub carve-AllFit : (r : MemRangeData) (es : List Entry) → Fits r → AllFit es → AllFit (carve r es)
unfolding carve
carve-AllFit r [] hr hs = tt
carve-AllFit r (e ∷ es) hr hs =
    All-append (λ e. Fits e.0) (cut r e) (carve r es) (cut-AllFit r e hr hs.0)
      (carve-AllFit r es hr hs.1)

pub insert_all-AllFit : (acc es : List Entry) → AllFit acc → AllFit es → AllFit (insert_all acc es)
unfolding insert_all
insert_all-AllFit acc [] ha hs = ha
insert_all-AllFit acc ((r, f) ∷ es) ha hs =
    insert_all-AllFit (carve r acc ++ (r, f) ∷ []) es
      (All-append (λ e. Fits e.0) (carve r acc) ((r, f) ∷ []) (carve-AllFit r acc hs.0 ha)
        (hs.0, tt))
      hs.1

pub flags_at-insert_all :
    (acc es : List Entry) (a : ℕ)
    → AllFit acc
    → AllFit es
    → flags_at (insert_all acc es) a ≡ or_else (flags_at es a) (flags_at acc a)
unfolding flags_at insert_all
flags_at-insert_all acc [] a ha hs = refl
flags_at-insert_all acc ((r, f) ∷ es) a ha hs = ground (
  arith,
  flags_at-insert_all (carve r acc ++ (r, f) ∷ []) es a
      (All-append (λ e. Fits e.0) (carve r acc) ((r, f) ∷ []) (carve-AllFit r acc hs.0 ha)
        (hs.0, tt))
      hs.1,
  flags_at-append (carve r acc) ((r, f) ∷ []) a,
  flags_at-carve r acc a hs.0 ha,
)

-- No address lies in both of two ranges.
abbrev pub Apart : Entry → Entry → Type 0
Apart x y = (end_of x.0 ≤ y.0.start) ⊎ (end_of y.0 ≤ x.0.start)

abbrev pub AllApart : List Entry → Type 0
AllApart [] = Unit
AllApart (e ∷ es) = All (Apart e) es × AllApart es

-- What is apart from a range that holds `a` does not hold it.
flags_at-Apart :
    (e : Entry) (es : List Entry) (a : ℕ)
    → All (Apart e) es
    → contains e.0 a ≡ true
    → flags_at es a ≡ none
unfolding flags_at
flags_at-Apart e [] a h c = refl
flags_at-Apart e (x ∷ xs) a h c = ground (arith, flags_at-Apart e xs a h.1 c)

pub flags_at-insert_sorted :
    (e : Entry) (es : List Entry) (a : ℕ)
    → All (Apart e) es
    → flags_at (insert_sorted e es) a ≡ flags_at (e ∷ es) a
unfolding flags_at insert_sorted
flags_at-insert_sorted e [] a h = refl
flags_at-insert_sorted e (x ∷ xs) a h =
    ground (arith, flags_at-insert_sorted e xs a h.1, flags_at-Apart e xs a h.1)

-- Two neighbours with the same flags hold what their union holds.
here_join :
    (c n : MemRangeData) (f a : ℕ)
    → Fits c
    → Fits n
    → end_of c ≡ n.start
    → or_else (here (n, f) a) (here (c, f) a) ≡ here (set_len c (add_word n.len c.len), f) a
here_join c n f a hc hn e = ground arith

pub join-Fits :
    (c n : MemRangeData)
    → Fits c
    → Fits n
    → end_of c ≡ n.start
    → Fits (set_len c (add_word n.len c.len))
join-Fits c n hc hn e = omega arith

pub joined :
    (c n : MemRangeData) (cf nf : ℕ)
    → ((end_of c == n.start) && (cf == nf)) ≡ true
    → (end_of c ≡ n.start) × (cf ≡ nf)
joined c n cf nf h = ground arith

flags_at-merge_from :
    (e : Entry) (es : List Entry) (a : ℕ)
    → Fits e.0
    → AllFit es
    → flags_at (merge_from e es) a ≡ flags_at (e ∷ es) a
unfolding flags_at merge_from
flags_at-merge_from e [] a he hs = refl
flags_at-merge_from (c, cf) ((n, nf) ∷ es) a he hs =
    elim (Bool-cases ((end_of c == n.start) && (cf == nf))) [
      | inl h ↦
          let (touch, same) = joined c n cf nf h in
          rw h (
            flags_at-merge_from (set_len c (add_word n.len c.len), cf) es a
              (join-Fits c n he hs.0 touch) hs.1
            ∙ rw (← here_join c n cf a he hs.0 touch, ← same)
                (sym (or_else_assoc (flags_at es a) (here (n, cf) a) (here (c, cf) a))))
      | inr h ↦
          rw h (ap (λ o. or_else o (here (c, cf) a)) (flags_at-merge_from (n, nf) es a hs.0 hs.1))
    ]

pub flags_at-merge : (es : List Entry) (a : ℕ) → AllFit es → flags_at (merge es) a ≡ flags_at es a
unfolding merge
flags_at-merge [] a hs = refl
flags_at-merge (e ∷ es) a hs = flags_at-merge_from e es a hs.0 hs.1
