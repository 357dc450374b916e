-- ===== src/Log/Window.antt =====
-- src/logger/core.rs, src/logger/types.rs: which records can still be read, and under which ids.
use okots_os.Base.{
  ◌⊎◌, ◌≢◌, ℕ, zero, suc, ◌+◌, ◌-◌, ◌^◌, ◌≤◌, ◌<◌, ◌≡◌, refl, sym, ap, subst, ◌∙◌, none, List, [],
  ◌∷◌, ◌++◌, append-nil, append_assoc, length, length-append, get_elem?, drop, ltb, leb, ◌==◌,
  if◌then◌else◌, add_word, arith, Bool-cases, inl, inr,
}
use okots_os.Log.{OsLog, Logger, add_log, read_log, pop_front}

-- `add_log` of each record in turn
unfoldable pub add_all : List OsLog → Logger → Logger
unfolding add_log
add_all [] s = s
add_all (log ∷ logs) s = add_all logs (add_log log s)

-- no record yet, as at the start
abbrev pub empty : ℕ → Logger
empty capacity = record { buf = []; head_id = 0; capacity = capacity }

suc-add : (n i : ℕ) → suc (n + i) ≡ suc n + i
suc-add n i = omega arith

module _ {A : Type 0} where
  get_elem?-drop : (n i : ℕ) (xs : List A) → get_elem? (drop n xs) i ≡ get_elem? xs (n + i)
  get_elem?-drop zero i xs = ap (get_elem? xs) (omega arith)
  get_elem?-drop (suc n) i [] = refl
  get_elem?-drop (suc n) i (x ∷ xs) = get_elem?-drop n i xs ∙ ap (get_elem? (x ∷ xs)) (suc-add n i)

  pub get_elem?-beyond : (i : ℕ) (xs : List A) → length xs ≤ i → get_elem? xs i ≡ none
  get_elem?-beyond i [] h = refl
  get_elem?-beyond zero (x ∷ xs) h = absurd (omega arith)
  get_elem?-beyond (suc i) (x ∷ xs) h = get_elem?-beyond i xs (omega arith)

  drop-append : (n : ℕ) (xs ys : List A) → n ≤ length xs → drop n (xs ++ ys) ≡ drop n xs ++ ys
  drop-append zero xs ys h = refl
  drop-append (suc n) [] ys h = absurd (omega arith)
  drop-append (suc n) (x ∷ xs) ys h = drop-append n xs ys (omega arith)

  length-drop : (n : ℕ) (xs : List A) → length (drop n xs) ≡ length xs - n
  length-drop zero xs = omega arith
  length-drop (suc n) [] = omega arith
  length-drop (suc n) (x ∷ xs) = omega (arith, length-drop n xs)

pop_front-drop : (n : ℕ) (xs : List OsLog) → pop_front (drop n xs) ≡ drop (suc n) xs
pop_front-drop zero [] = refl
pop_front-drop zero (x ∷ xs) = refl
pop_front-drop (suc n) [] = refl
pop_front-drop (suc n) (x ∷ xs) = pop_front-drop n xs

-- The buffer is the history without its first `head_id` records, and no longer than the capacity;
-- nothing is dropped before it is full.
record IsWindow (capacity : ℕ) (history : List OsLog) (s : Logger) : Type 0 where
  kept : s.capacity ≡ capacity
  buf : s.buf ≡ drop s.head_id history
  head : s.head_id ≤ length history
  size : length history - s.head_id ≤ capacity
  full : (s.head_id ≡ 0) ⊎ (length history - s.head_id ≡ capacity)

module _ (capacity : ℕ) (history : List OsLog) (log : OsLog) (s : Logger)
    (w : IsWindow capacity history s) (positive : 0 < capacity)
    (small : length history < 2 ^ 64 - 1) where
  buffered : length s.buf ≡ length history - s.head_id
  buffered = rw w.buf (length-drop s.head_id history)

  full-IsWindow :
      length s.buf ≡ capacity
      → IsWindow capacity
          (history ++ log ∷ [])
          (record s { buf = pop_front s.buf ++ log ∷ []; head_id = add_word s.head_id 1 })
  full-IsWindow e = record {
    kept = w.kept;
    buf =
        rw (w.buf, pop_front-drop s.head_id history, one_more)
          (sym (drop-append (suc s.head_id) history (log ∷ []) (omega (arith, buffered))));
    head = omega (arith, one_more, buffered, longer);
    size = omega (arith, one_more, buffered, longer);
    full = inr (omega (arith, one_more, buffered, longer));
  }
    where
      one_more : add_word s.head_id 1 ≡ suc s.head_id
      one_more = omega (arith, w.head)

      longer : length (history ++ log ∷ []) ≡ length history + 1
      longer = length-append history (log ∷ [])

  free-IsWindow :
      length s.buf ≢ capacity
      → IsWindow capacity (history ++ log ∷ []) (record s { buf = s.buf ++ log ∷ [] })
  free-IsWindow e = record {
    kept = w.kept;
    buf = rw w.buf (sym (drop-append s.head_id history (log ∷ []) w.head));
    head = omega (arith, w.head, longer);
    size = ground (arith, w.size, buffered, longer);
    full = ground (arith, w.full, w.size, buffered, longer);
  }
    where
      longer : length (history ++ log ∷ []) ≡ length history + 1
      longer = length-append history (log ∷ [])

  add_log-IsWindow : IsWindow capacity (history ++ log ∷ []) (add_log log s)
  unfolding add_log
  add_log-IsWindow = elim (Bool-cases (length s.buf == s.capacity)) [
    | inl e ↦
        subst (IsWindow capacity (history ++ log ∷ [])) (ground arith)
          (full-IsWindow (ground (arith, w.kept)))
    | inr e ↦
        subst (IsWindow capacity (history ++ log ∷ [])) (ground arith)
          (free-IsWindow (ground (arith, w.kept)))
  ]

add_all-IsWindow :
    (capacity : ℕ) (history logs : List OsLog) (s : Logger)
    → IsWindow capacity history s
    → 0 < capacity
    → length history + length logs < 2 ^ 64
    → IsWindow capacity (history ++ logs) (add_all logs s)
unfolding add_all
add_all-IsWindow c h [] s w pos small = subst (λ l. IsWindow c l s) (sym (append-nil h)) w
add_all-IsWindow c h (log ∷ logs) s w pos small =
    subst (λ l. IsWindow c l (add_all logs (add_log log s))) (append_assoc h (log ∷ []) logs)
      (add_all-IsWindow c (h ++ log ∷ []) logs (add_log log s)
        (add_log-IsWindow c h log s w pos (omega arith)) pos
        (omega (arith, length-append h (log ∷ []))))

empty-IsWindow : (capacity : ℕ) → IsWindow capacity [] (empty capacity)
empty-IsWindow c = record {
  kept = refl;
  buf = refl;
  head = omega arith;
  size = omega arith;
  full = inl refl;
}

-- A window reads as the last `capacity` records of the history.
IsWindow-read_log :
    (capacity : ℕ) (history : List OsLog) (s : Logger) (i : ℕ)
    → IsWindow capacity history s
    → length history < 2 ^ 64
    → read_log i s ≡ (if leb (length history) (i + capacity) then get_elem? history i else none)
unfolding read_log
IsWindow-read_log c h s i w small = elim (Bool-cases (ltb i s.head_id)) [
  | inl e ↦ ground (arith, w.head, w.size, w.full)
  | inr e ↦ ground (
    arith,
    w.head,
    w.size,
    w.full,
    length-drop s.head_id h,
    get_elem?-drop s.head_id (i - s.head_id) h,
    get_elem?-beyond i h,
    ap length w.buf,
    ap (λ l. get_elem? l (i - s.head_id)) w.buf,
  )
]

add_all-off : (logs : List OsLog) → add_all logs (empty 0) ≡ empty 0
unfolding add_all add_log
add_all-off [] = refl
add_all-off (log ∷ logs) = add_all-off logs

read_log-off : (i : ℕ) → read_log i (empty 0) ≡ none
unfolding read_log
read_log-off i = ground arith

-- For fewer than 2 ^ 64 records added to an empty buffer of any capacity: the id of a record is its
-- position among all the records added, the last `capacity` of them can be read under their ids, and
-- no other id gives a record.
pub read_log-add_all :
    (capacity : ℕ) (logs : List OsLog) (i : ℕ)
    → length logs < 2 ^ 64
    → read_log i (add_all logs (empty capacity))
      ≡ (if leb (length logs) (i + capacity) then get_elem? logs i else none)
read_log-add_all zero logs i small =
    rw (add_all-off logs, read_log-off i) ground (arith, get_elem?-beyond i logs)
read_log-add_all (suc c) logs i small =
    IsWindow-read_log (suc c) logs (add_all logs (empty (suc c))) i
      (add_all-IsWindow (suc c) [] logs (empty (suc c)) (empty-IsWindow (suc c)) (omega arith)
        (omega (arith, small)))
      small
