-- ===== src/Log/Iterate.antt =====
-- src/logger/types.rs, `LogIterator`: which record `next` gives.
use okots_os.Base.{
  ℕ, zero, suc, ◌+◌, ◌-◌, ◌^◌, ◌≤◌, ◌<◌, ◌≡◌, refl, ap, Bool, Option, none, some, List, [], ◌∷◌,
  length, get_elem?, drop, ltb, if◌then◌else◌, add_word, arith, Bool-cases, inl, inr,
}
use okots_os.Log.Window.{get_elem?-beyond}
use okots_os.Log.{OsLog, Logger, read_log, LogIterator, same, is_system, next}

module _ {A : Type 0} where
  get_elem?-split :
      (i : ℕ) (xs : List A) (x : A) → get_elem? xs i ≡ some x → drop i xs ≡ x ∷ drop (suc i) xs
  get_elem?-split i [] x e = absurd (ground arith)
  get_elem?-split zero (y ∷ ys) x e = ground arith
  get_elem?-split (suc i) (y ∷ ys) x e = get_elem?-split i ys x e

  get_elem?-end : (i : ℕ) (xs : List A) → length xs ≤ i → drop i xs ≡ []
  get_elem?-end zero [] h = refl
  get_elem?-end (suc i) [] h = refl
  get_elem?-end zero (x ∷ xs) h = absurd (omega arith)
  get_elem?-end (suc i) (x ∷ xs) h = get_elem?-end i xs (omega arith)

  get_elem?-within : (i : ℕ) (xs : List A) → i < length xs → (x : A) × (get_elem? xs i ≡ some x)
  get_elem?-within i [] h = absurd (omega arith)
  get_elem?-within zero (x ∷ xs) h = (x, refl)
  get_elem?-within (suc i) (x ∷ xs) h = get_elem?-within i xs (omega arith)

ahead : (i h : ℕ) → h ≤ i → i + 1 - h ≡ suc (i - h)
ahead i h from = omega arith

read_log-ahead :
    (i : ℕ) (s : Logger)
    → s.head_id ≤ i
    → s.head_id + length s.buf < 2 ^ 64
    → read_log i s ≡ get_elem? s.buf (i - s.head_id)
unfolding read_log
read_log-ahead i s from small = ground (arith, get_elem?-beyond (i - s.head_id) s.buf)

-- The first record of the list that the test picks, and how many records were read for it.
abbrev pub first_of : (OsLog → Bool) → List OsLog → Option OsLog × ℕ
first_of picks [] = (none, 0)
first_of picks (log ∷ logs) =
    let rest = first_of picks logs in if picks log then (some log, 1) else (rest.0, suc rest.1)

abbrev pub picked : Bool → OsLog → Bool
picked include_system log = same include_system (is_system log.level)

abbrev pub unread : LogIterator → Logger → List OsLog
unread it s = drop (it.next_id - s.head_id) s.buf

-- For an iterator that is not behind the oldest record, and ids below 2 ^ 64: `next` ends after at
-- most one round more than there are records, gives the first unread record that is a system
-- record or not as the iterator asks, or `None` if there is none, and goes past what it has read.
pub next-first_of :
    (fuel : ℕ) (it : LogIterator) (s : Logger)
    → s.head_id ≤ it.next_id
    → s.head_id + length s.buf < 2 ^ 64
    → s.head_id + length s.buf - it.next_id < fuel
    → next fuel it s ≡ (
        let found = first_of (picked it.include_system) (unread it s) in
        (some found.0, record it { next_id = it.next_id + found.1 }))
unfolding next
next-first_of zero it s from small enough = absurd (omega arith)
next-first_of (suc fuel) it s from small enough =
    elim (Bool-cases (ltb it.next_id (s.head_id + length s.buf))) [
      | inl e ↦
          (let i = it.next_id - s.head_id in
            let (log, here) = get_elem?-within i s.buf (ground arith) in
            let after : LogIterator = record it { next_id = add_word it.next_id 1 } in
            let step : add_word it.next_id 1 ≡ it.next_id + 1 = ground arith in
            let rest = next-first_of fuel after s (ground arith) small (ground arith) in
            ground (
              arith,
              read_log-ahead it.next_id s from small,
              get_elem?-split i s.buf log here,
              ap (λ k. drop k s.buf) (ahead it.next_id s.head_id from),
            ))
      | inr e ↦ ground (
        arith,
        read_log-ahead it.next_id s from small,
        get_elem?-beyond (it.next_id - s.head_id) s.buf (ground arith),
        get_elem?-end (it.next_id - s.head_id) s.buf (ground arith),
      )
    ]
