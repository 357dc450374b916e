-- ===== src/Log.antt =====
-- src/logger/core.rs and src/logger/types.rs: the buffer of the last records, whose ids go on
-- counting when old records are dropped. What is printed to the serial port is not modelled.
pub mod Window
pub mod Iterate
use Prim.Native.String.{String}
use text.Mathlib.Text.{◌==◌ as str_eq}
use okots_os.Base.{
  ℕ, zero, suc, ◌+◌, ◌-◌, Bool, true, false, not, ◌&&◌, ◌||◌, Option, none, some, List, [], ◌∷◌,
  ◌++◌, length, get_elem?, ltb, leb, ◌==◌, if◌then◌else◌, add_word,
}

-- `text` is the field `data`.
pub record OsLog : Type 0 where
  pub level : String
  pub by : String
  pub tag : String
  pub text : String
  pub file : String
  pub time : ℕ
  pub line : ℕ
  pub column : ℕ
  pub cpu_acpi_id : ℕ

-- `LOG_BUF`, `LOG_HEAD_ID` and `LOG_CAPACITY`
pub record Logger : Type 0 where
  pub buf : List OsLog
  pub head_id : ℕ
  pub capacity : ℕ

-- `VecDeque::pop_front`, for its effect
abbrev pub pop_front : List OsLog → List OsLog
pop_front [] = []
pop_front (log ∷ logs) = logs

unfoldable pub add_log : OsLog → Logger → Logger
add_log log s =
    if s.capacity == 0
    then s
    else if length s.buf == s.capacity
    then record s { buf = pop_front s.buf ++ log ∷ []; head_id = add_word s.head_id 1 }
    else record s { buf = s.buf ++ log ∷ [] }

unfoldable pub read_log : ℕ → Logger → Option OsLog
read_log target_id s =
    if ltb target_id s.head_id
    then none
    else if leb (add_word s.head_id (length s.buf)) target_id
    then none
    else get_elem? s.buf (target_id - s.head_id)

abbrev pub get_log_min_id : Logger → ℕ
get_log_min_id s = s.head_id

pub record LogIterator : Type 0 where
  pub next_id : ℕ
  pub include_system : Bool

abbrev pub new : ℕ → Bool → LogIterator
new start_id include_system = record { next_id = start_id; include_system = include_system }

-- equality of two truth values
abbrev pub same : Bool → Bool → Bool
same true b = b
same false b = not b

-- `log.level == "s"`
abbrev pub is_system : String → Bool
is_system level = str_eq level "s"

-- `next`, with at most `fuel` rounds of its loop; without fuel it is still running.
unfoldable pub next : ℕ → LogIterator → Logger → Option (Option OsLog) × LogIterator
unfolding read_log
next zero it s = (none, it)
next (suc fuel) it s = elim (read_log it.next_id s) [
  | none ↦ (some none, it)
  | some log ↦
      (let after : LogIterator = record it { next_id = add_word it.next_id 1 } in
        let rest = next fuel after s in
        if same it.include_system (is_system log.level) then (some (some log), after) else rest)
]
