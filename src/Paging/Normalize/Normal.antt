-- ===== src/Paging/Normalize/Normal.antt =====
-- src/memory/paging.rs, `normalize_map_list`: the shape of its result, and that it changes nothing
-- of a list of that shape.
use okots_os.Base.{
  ℕ, ◌%◌, ◌≤◌, ◌<◌, ◌≡◌, ◌≢◌, refl, ◌∙◌, ap, inl, inr, Bool-cases, ◌&&◌, List, [], ◌∷◌, ◌++◌, All,
  All-append, append-nil, append_assoc, arith, add_word, leb, ◌==◌,
}
use okots_os.Range.{MemRangeData, end_of, set_len}
use okots_os.Range.Bounds.{Fits}
use okots_os.Paging.Normalize.{
  Entry, cut, carve, insert_all, insert_sorted, sort, merge_from, merge, normalize,
}
use okots_os.Paging.Normalize.Lookup.{AllFit, Apart, AllApart, joined}
use okots_os.Paging.Normalize.Each.{Closed, All-insert_all, All-merge_from}
use okots_os.Paging.Normalize.Order.{All-insert_sorted, All-sort, insert_all-AllApart}

-- A range that is not empty, in the words, on page bounds.
pub record IsPaged (e : Entry) : Type 0 where
  pub positive : 0 < e.0.len
  pub fits : Fits e.0
  pub start_aligned : e.0.start % 4096 ≡ 0
  pub len_aligned : e.0.len % 4096 ≡ 0

-- Every range ends before the later ones begin.
abbrev pub IsOrdered : List Entry → Type 0
IsOrdered [] = Unit
IsOrdered (e ∷ es) = All (λ x. end_of e.0 ≤ x.0.start) es × IsOrdered es

-- The next range, if there is one, begins behind this one, and does not continue it with the same
-- flags.
abbrev pub Next : Entry → List Entry → Type 0
Next e [] = Unit
Next e (x ∷ xs) = (end_of e.0 ≤ x.0.start) × (end_of e.0 ≡ x.0.start → e.1 ≢ x.1)

abbrev pub IsNormal : List Entry → Type 0
IsNormal [] = Unit
IsNormal (e ∷ es) = Next e es × IsNormal es

cut-IsPaged : (r e : Entry) → IsPaged r → IsPaged e → All IsPaged (cut r.0 e)
unfolding cut
cut-IsPaged (r, g) (o, f) hr he = ground arith

join-IsPaged :
    (c n : MemRangeData) (cf nf : ℕ)
    → IsPaged (c, cf)
    → IsPaged (n, nf)
    → end_of c ≡ n.start
    → IsPaged (set_len c (add_word n.len c.len), cf)
join-IsPaged c n cf nf hc hn e = ground arith

paged : Closed IsPaged
paged = record { cut = cut-IsPaged; join = λ c n cf nf hc hn e. join-IsPaged c n cf nf hc hn e }

-- What is in order behind `x` is in order behind what comes before `x`.
behind :
    (e x : Entry) (es : List Entry)
    → end_of e.0 ≤ x.0.start
    → IsPaged x
    → All (λ y. end_of x.0 ≤ y.0.start) es
    → All (λ y. end_of e.0 ≤ y.0.start) es
behind e x [] h p k = tt
behind e x (y ∷ ys) h p k = (ground arith, behind e x ys h p k.1)

insert_sorted-IsOrdered :
    (e : Entry) (es : List Entry)
    → IsPaged e
    → All IsPaged es
    → All (Apart e) es
    → IsOrdered es
    → IsOrdered (insert_sorted e es)
unfolding insert_sorted
insert_sorted-IsOrdered e [] he hs h k = (tt, tt)
insert_sorted-IsOrdered e (x ∷ xs) he hs h k = elim (Bool-cases (leb e.0.start x.0.start)) [
  | inl t ↦
      let first : end_of e.0 ≤ x.0.start = ground arith in
      rw t ((first, behind e x xs first hs.0 k.0), k)
  | inr t ↦ rw t (
    All-insert_sorted (λ y. end_of x.0 ≤ y.0.start) e xs (ground arith) k.0,
    insert_sorted-IsOrdered e xs he hs.1 h.1 k.1,
  )
]

sort-IsOrdered : (es : List Entry) → All IsPaged es → AllApart es → IsOrdered (sort es)
unfolding sort
sort-IsOrdered [] hs h = tt
sort-IsOrdered (e ∷ es) hs h =
    insert_sorted-IsOrdered e (sort es) hs.0 (All-sort IsPaged es hs.1) (All-sort (Apart e) es h.0)
      (sort-IsOrdered es hs.1 h.1)

-- The first range of the result begins where `e` does, with its flags.
Next-merge_from : (p e : Entry) (es : List Entry) → Next p (e ∷ []) → Next p (merge_from e es)
unfolding merge_from
Next-merge_from p e [] h = h
Next-merge_from p (c, cf) ((n, nf) ∷ es) h =
    elim (Bool-cases ((end_of c == n.start) && (cf == nf))) [
      | inl t ↦ rw t (Next-merge_from p (set_len c (add_word n.len c.len), cf) es h)
      | inr t ↦ rw t h
    ]

ends_before :
    (e x : Entry) (es : List Entry)
    → end_of e.0 ≤ end_of x.0
    → All (λ y. end_of x.0 ≤ y.0.start) es
    → All (λ y. end_of e.0 ≤ y.0.start) es
ends_before e x [] h k = tt
ends_before e x (y ∷ ys) h k = (omega arith, ends_before e x ys h k.1)

join_end :
    (c n : MemRangeData)
    → Fits c
    → Fits n
    → end_of c ≡ n.start
    → end_of (set_len c (add_word n.len c.len)) ≤ end_of n
join_end c n hc hn e = omega arith

merge_from-IsNormal :
    (e : Entry) (es : List Entry)
    → IsPaged e
    → All IsPaged es
    → IsOrdered (e ∷ es)
    → IsNormal (merge_from e es)
unfolding merge_from
merge_from-IsNormal e [] he hs h = (tt, tt)
merge_from-IsNormal (c, cf) ((n, nf) ∷ es) he hs h =
    elim (Bool-cases ((end_of c == n.start) && (cf == nf))) [
      | inl t ↦
          let touch = (joined c n cf nf t).0 in
          let sum : Entry = (set_len c (add_word n.len c.len), cf) in
          rw t (
            merge_from-IsNormal sum es (join-IsPaged c n cf nf he hs.0 touch) hs.1
              (ends_before sum (n, nf) es (join_end c n he.fits hs.0.fits touch) h.1.0, h.1.1))
      | inr t ↦ rw t (
        Next-merge_from (c, cf) (n, nf) es (h.0.0, λ e g. ground arith),
        merge_from-IsNormal (n, nf) es hs.0 hs.1 h.1,
      )
    ]

merge-IsNormal :
    (es : List Entry) → All IsPaged es → IsOrdered es → IsNormal (merge es) × All IsPaged (merge es)
unfolding merge
merge-IsNormal [] hs h = (tt, tt)
merge-IsNormal (e ∷ es) hs h =
    (merge_from-IsNormal e es hs.0 hs.1 h, All-merge_from IsPaged paged e es hs.0 hs.1)

All-Fits : (es : List Entry) → All IsPaged es → AllFit es
All-Fits [] h = tt
All-Fits (e ∷ es) h = (h.0.fits, All-Fits es h.1)

-- For ranges that are not empty, fit and lie on page bounds, so do the ranges of the normalised
-- list; each begins at or behind the end of the one before it, and no two that touch have the same
-- flags.
pub normalize-IsNormal :
    (es : List Entry) → All IsPaged es → IsNormal (normalize es) × All IsPaged (normalize es)
unfolding normalize
normalize-IsNormal es h =
    let fine = All-insert_all IsPaged paged [] es tt h in
    let apart = insert_all-AllApart [] es tt (All-Fits es h) tt in
    merge-IsNormal (sort (insert_all [] es)) (All-sort IsPaged _ fine)
      (sort-IsOrdered (insert_all [] es) fine apart)

IsOrdered-Next :
    (e : Entry) (es : List Entry)
    → All IsPaged es
    → Next e es
    → IsOrdered es
    → All (λ x. end_of e.0 ≤ x.0.start) es
IsOrdered-Next e [] hs n h = tt
IsOrdered-Next e (x ∷ xs) hs n h = (n.0, behind e x xs n.0 hs.0 h.0)

IsNormal-IsOrdered : (es : List Entry) → All IsPaged es → IsNormal es → IsOrdered es
IsNormal-IsOrdered [] hs h = tt
IsNormal-IsOrdered (e ∷ es) hs h =
    let rest = IsNormal-IsOrdered es hs.1 h.1 in (IsOrdered-Next e es hs.1 h.0 rest, rest)

-- what ends before a range begins is not cut by it
carve-eq_self :
    (r : Entry) (es : List Entry) → All (λ x. end_of x.0 ≤ r.0.start) es → carve r.0 es ≡ es
unfolding carve cut
carve-eq_self r [] h = refl
carve-eq_self r (e ∷ es) h = ground (arith, carve-eq_self r es h.1)

-- every range of `acc` ends before every range of `es` begins
abbrev Precedes : List Entry → List Entry → Type 0
Precedes acc es = All (λ e. All (λ x. end_of x.0 ≤ e.0.start) acc) es

Precedes-push :
    (acc es : List Entry) (r : Entry)
    → Precedes acc es
    → All (λ x. end_of r.0 ≤ x.0.start) es
    → Precedes (acc ++ r ∷ []) es
Precedes-push acc [] r h k = tt
Precedes-push acc (e ∷ es) r h k = (
  All-append (λ x. end_of x.0 ≤ e.0.start) acc (r ∷ []) h.0 (k.0, tt),
  Precedes-push acc es r h.1 k.1,
)

insert_all-append :
    (acc es : List Entry) → Precedes acc es → IsOrdered es → insert_all acc es ≡ acc ++ es
unfolding insert_all
insert_all-append acc [] h k = rw append-nil
insert_all-append acc ((r, f) ∷ es) h k = rw (carve-eq_self (r, f) acc h.0) (
    insert_all-append (acc ++ (r, f) ∷ []) es (Precedes-push acc es (r, f) h.1 k.0) k.1
    ∙ append_assoc acc ((r, f) ∷ []) es)

insert_sorted-cons :
    (e : Entry) (es : List Entry)
    → IsPaged e
    → All (λ x. end_of e.0 ≤ x.0.start) es
    → insert_sorted e es ≡ e ∷ es
unfolding insert_sorted
insert_sorted-cons e [] he h = refl
insert_sorted-cons e (x ∷ xs) he h = ground arith

sort-eq_self : (es : List Entry) → All IsPaged es → IsOrdered es → sort es ≡ es
unfolding sort
sort-eq_self [] hs h = refl
sort-eq_self (e ∷ es) hs h = rw (sort-eq_self es hs.1 h.1) (insert_sorted-cons e es hs.0 h.0)

merge_from-eq_self : (e : Entry) (es : List Entry) → IsNormal (e ∷ es) → merge_from e es ≡ e ∷ es
unfolding merge_from
merge_from-eq_self e [] h = refl
merge_from-eq_self (c, cf) ((n, nf) ∷ es) h =
    elim (Bool-cases ((end_of c == n.start) && (cf == nf))) [
      | inl t ↦ let (touch, same) = joined c n cf nf t in absurd (h.0.1 touch same)
      | inr t ↦ rw t (ap (◌∷◌ (c, cf)) (merge_from-eq_self (n, nf) es h.1))
    ]

merge-eq_self : (es : List Entry) → IsNormal es → merge es ≡ es
unfolding merge
merge-eq_self [] h = refl
merge-eq_self (e ∷ es) h = merge_from-eq_self e es h

nothing-Precedes : (es : List Entry) → Precedes [] es
nothing-Precedes [] = tt
nothing-Precedes (e ∷ es) = (tt, nothing-Precedes es)

normalize-eq_self : (es : List Entry) → All IsPaged es → IsNormal es → normalize es ≡ es
unfolding normalize
normalize-eq_self es hs h =
    let order = IsNormal-IsOrdered es hs h in
    rw (insert_all-append [] es (nothing-Precedes es) order, sort-eq_self es hs order)
      (merge-eq_self es h)

-- Normalising page ranges a second time changes nothing.
pub normalize_idem : (es : List Entry) → All IsPaged es → normalize (normalize es) ≡ normalize es
normalize_idem es h =
    let (normal, paged) = normalize-IsNormal es h in normalize-eq_self (normalize es) paged normal
