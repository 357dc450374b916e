-- ===== src/Tsc.antt =====
-- src/timer/tsc.rs: time from the time stamp counter. A counter value is read by the caller, a
-- `Duration` is a number of nanoseconds, and an `i64` is kept as the word of its bits.
pub mod Clock
use okots_os.Base.{
  ℕ, ◌+◌, ◌*◌, ◌-◌, ◌/◌, ◌%◌, ◌^◌, Bool, true, false, not, ◌||◌, Option, none, some, ltb, ◌==◌,
  if◌then◌else◌, add_word, sub_word,
}

-- `tsc_init` and `TscGsData` of a processor
pub record Gs : Type 0 where
  pub tsc_init : Bool
  pub par_100ns : ℕ
  pub adjust : ℕ

-- `timer(wait)` runs between the two readings `start` and `end`.
unfoldable pub init_for_ap : ℕ → ℕ → ℕ → Gs → Gs
init_for_ap start end wait gs =
    if gs.tsc_init
    then gs
    else if units == 0
    then gs
    else record gs { tsc_init = true; par_100ns = sub_word end start / units }
  where
    units : ℕ
    units = wait / 100 % 2 ^ 64

-- `Tsc::get() as i64 + adjust`, with what is negative made 0
unfoldable pub common : ℕ → Gs → ℕ
common counter gs = let sum = add_word counter gs.adjust in if ltb sum (2 ^ 63) then sum else 0

unfoldable pub get_time : ℕ → Gs → ℕ
unfolding common
get_time counter gs =
    if not gs.tsc_init || (gs.par_100ns == 0)
    then 0
    else common counter gs * 100 / gs.par_100ns % 2 ^ 64

-- The condition of the loop of `spin`: the counter has not reached its target.
unfoldable pub is_spinning : ℕ → ℕ → ℕ → Gs → Bool
is_spinning start_tsc counter wait gs =
    if gs.par_100ns == 0 then false else ltb counter (start_tsc + wait * gs.par_100ns / 100)

-- `Duration` has no negative values: its subtraction panics.
unfoldable pub option_init_time_stamp : ℕ → ℕ → Gs → Option ℕ
unfolding get_time
option_init_time_stamp utc counter gs =
    if ltb utc (get_time counter gs) then none else some (utc - get_time counter gs)

unfoldable pub get_world_time_utc : ℕ → ℕ → Gs → Option ℕ
unfolding get_time
get_world_time_utc utc_offset counter gs =
    if utc_offset == 0 then none else some (utc_offset + get_time counter gs)
