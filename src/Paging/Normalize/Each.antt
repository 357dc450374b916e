-- ===== src/Paging/Normalize/Each.antt =====
-- src/memory/paging.rs, `normalize_map_list`: what holds of every range of its result.
use okots_os.Base.{
  ℕ, ◌≡◌, inl, inr, Bool-cases, ◌&&◌, List, [], ◌∷◌, ◌++◌, All, All-append, add_word, ◌==◌,
}
use okots_os.Range.{MemRangeData, end_of, set_len}
use okots_os.Paging.Normalize.{Entry, cut, carve, insert_all, sort, merge_from, merge, normalize}
use okots_os.Paging.Normalize.Lookup.{joined}
use okots_os.Paging.Normalize.Order.{All-sort}

-- A property that the pieces of a cut range have, and the join of two neighbours.
pub record Closed (P : Entry → Type 0) : Type 0 where
  pub cut : (r e : Entry) → P r → P e → All P (cut r.0 e)
  pub join :
      (c n : MemRangeData) (cf nf : ℕ)
      → P (c, cf)
      → P (n, nf)
      → end_of c ≡ n.start
      → P (set_len c (add_word n.len c.len), cf)

module _ (P : Entry → Type 0) (closed : Closed P) where
  All-carve : (r : Entry) (es : List Entry) → P r → All P es → All P (carve r.0 es)
  unfolding carve
  All-carve r [] hr hs = tt
  All-carve r (e ∷ es) hr hs =
      All-append P (okots_os.Paging.Normalize.cut r.0 e) (carve r.0 es) (closed.cut r e hr hs.0)
        (All-carve r es hr hs.1)

  pub All-insert_all : (acc es : List Entry) → All P acc → All P es → All P (insert_all acc es)
  unfolding insert_all
  All-insert_all acc [] ha hs = ha
  All-insert_all acc ((r, f) ∷ es) ha hs =
      All-insert_all (carve r acc ++ (r, f) ∷ []) es
        (All-append P (carve r acc) ((r, f) ∷ []) (All-carve (r, f) acc hs.0 ha) (hs.0, tt)) hs.1

  pub All-merge_from : (e : Entry) (es : List Entry) → P e → All P es → All P (merge_from e es)
  unfolding merge_from
  All-merge_from e [] he hs = (he, tt)
  All-merge_from (c, cf) ((n, nf) ∷ es) he hs =
      elim (Bool-cases ((end_of c == n.start) && (cf == nf))) [
        | inl h ↦ rw h (
            All-merge_from (set_len c (add_word n.len c.len), cf) es
              (closed.join c n cf nf he hs.0 (joined c n cf nf h).0) hs.1)
        | inr h ↦ rw h (he, All-merge_from (n, nf) es hs.0 hs.1)
      ]

  All-merge : (es : List Entry) → All P es → All P (merge es)
  unfolding merge
  All-merge [] hs = tt
  All-merge (e ∷ es) hs = All-merge_from e es hs.0 hs.1

  pub All-normalize : (es : List Entry) → All P es → All P (normalize es)
  unfolding normalize
  All-normalize es h =
      All-merge (sort (insert_all [] es)) (All-sort P _ (All-insert_all [] es tt h))
