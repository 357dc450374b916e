-- ===== src/Range/Bounds.antt =====
-- src/util_types.rs, `MemRangeData`: what the constructors and setters make of the two bounds.
use okots_os.Base.{
  ◌⊎◌, inl, inr, Bool-cases, ltb, ltb→lt, ℕ, ◌+◌, ◌^◌, ◌≤◌, ◌<◌, ◌≡◌, true, false, none, some,
  arith, sub_word,
}
use okots_os.Range.{MemRangeData, new, new_start_end, end_of, set_end}

-- The end of the range is a word.
abbrev pub Fits : MemRangeData → Type 0
Fits r = r.start + r.len < 2 ^ 64

-- For two words, `new_start_end` gives nothing if the end is below the start, and otherwise a range
-- with exactly these bounds, whose end does not wrap.
pub new_start_end-bounds :
    (start end : ℕ)
    → start < 2 ^ 64
    → end < 2 ^ 64
    → ((end < start) × (new_start_end start end ≡ none))
      ⊎ ((start ≤ end)
          × ((r : MemRangeData) × (new_start_end start end ≡ some r)
              × (r.start ≡ start)
              × (end_of r ≡ end)
              × Fits r))
unfolding new_start_end
new_start_end-bounds start end hs he = elim (Bool-cases (ltb end start)) [
  | inl e ↦ inl (ltb→lt end start e, ground arith)
  | inr e ↦ inr (
    ground arith,
    (new start (sub_word end start), ground arith, ground arith, ground arith, ground arith),
  )
]

-- `set_end` moves the end of a range that fits if the new end is not below the start, keeping the
-- start, and leaves the range alone and returns false if it is.
pub set_end-bounds :
    (r : MemRangeData) (end : ℕ)
    → Fits r
    → end < 2 ^ 64
    → ((end < r.start) × (set_end r end ≡ (r, false)))
      ⊎ ((r.start ≤ end)
          × ((set_end r end).1 ≡ true)
          × ((set_end r end).0.start ≡ r.start)
          × (end_of (set_end r end).0 ≡ end)
          × Fits (set_end r end).0)
unfolding set_end
set_end-bounds r end h he = elim (Bool-cases (ltb end r.start)) [
  | inl e ↦ inl (ground arith)
  | inr e ↦ inr (ground arith)
]
