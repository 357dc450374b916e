-- ===== src/Rtc.antt =====
-- src/timer/rtc.rs: the CMOS clock, read and set through the ports 0x70 and 0x71. The chip is a
-- parameter; `none` stands for a call that panics or that still waits for an update to end.
pub mod Calendar
pub mod Codes
pub mod RoundTrip
use okots_os.Base.{
  ℕ, zero, suc, ◌+◌, ◌*◌, ◌-◌, ◌/◌, ◌%◌, ◌^◌, Bool, true, false, not, ◌&&◌, ◌||◌, Option, none,
  some, List, [], ◌∷◌, get_elem?, ltb, ◌==◌, if◌then◌else◌, bit_and, bit_or, add_word, sub_word,
  mul_word,
}

-- A write to port 0x70 selects a register, which port 0x71 writes and reads.
pub record Chip : Type 1 where
  pub State : Type 0
  pub select : ℕ → State → State
  pub put : ℕ → State → State
  pub get : State → ℕ × State

unfoldable pub is_leap_year : ℕ → Bool
is_leap_year year = (year % 4 == 0) && not (year % 100 == 0) || (year % 400 == 0)

-- bytes
unfoldable pub bcd_to_bin : ℕ → ℕ
bcd_to_bin bcd = (bit_and bcd 0x0F + bcd / 16 * 10) % 256

unfoldable pub bin_to_bcd : ℕ → ℕ
bin_to_bcd bin = bit_or (bin / 10 * 16 % 256) (bin % 10)

abbrev pub month_days : List ℕ
month_days = 0 ∷ 31 ∷ 28 ∷ 31 ∷ 30 ∷ 31 ∷ 30 ∷ 31 ∷ 31 ∷ 30 ∷ 31 ∷ 30 ∷ 31 ∷ []

-- `for i in 1..month`, from `i` on with `n` rounds left; an index past the table panics.
unfoldable pub add_months : ℕ → ℕ → ℕ → Option ℕ
add_months i zero total_days = some total_days
add_months i (suc n) total_days = elim (get_elem? month_days i) [
  | none ↦ none
  | some days ↦ add_months (i + 1) n (add_word total_days days)
]

unfoldable pub days_to_year : ℕ → ℕ
days_to_year year =
    add_word
      (sub_word (add_word (mul_word (sub_word year 1970) 365) (sub_word year 1969 / 4))
        (sub_word year 1901 / 100))
      (sub_word year 1601 / 400)

-- the days since 1970 of a date; `day - 1` is a byte
unfoldable pub total_days : ℕ → ℕ → ℕ → Option ℕ
unfolding is_leap_year add_months days_to_year
total_days year month day = elim (add_months 1 (month - 1) (days_to_year year)) [
  | none ↦ none
  | some days ↦
      (let days' = if ltb 2 month && is_leap_year year then add_word days 1 else days in
        some (add_word days' ((day + 255) % 256)))
]

-- the hour of the register, with its flag for the afternoon
unfoldable pub decode_hour : ℕ → ℕ
unfolding bcd_to_bin
decode_hour hour =
    if bit_and hour 0x80 == 0
    then bcd_to_bin (bit_and hour 0x7F)
    else (bcd_to_bin (bit_and hour 0x7F) + 12) % 256

unfoldable pub total_secs : ℕ → ℕ → ℕ → ℕ → ℕ
total_secs days hour min sec =
    add_word (add_word (add_word (mul_word days 86400) (mul_word hour 3600)) (mul_word min 60)) sec

abbrev pub at_clock : Option ℕ → ℕ → ℕ → ℕ → Option ℕ
at_clock none hour min sec = none
at_clock (some days) hour min sec = some (total_secs days hour min sec)

-- the seconds of the codes of century, year, month, day, hour, minute and second
unfoldable pub coded_secs : ℕ → ℕ → ℕ → ℕ → ℕ → ℕ → ℕ → Option ℕ
coded_secs century year_short month day hour min sec =
    let year = add_word (mul_word (bcd_to_bin century) 100) (bcd_to_bin year_short) in
    at_clock (total_days year (bcd_to_bin month) (bcd_to_bin day)) (decode_hour hour)
      (bcd_to_bin min) (bcd_to_bin sec)

abbrev pub with_state : {S : Type 0} → Option ℕ × S → Option (ℕ × S)
with_state (none, s) = none
with_state (some secs, s) = some (secs, s)

abbrev pub after_wait : {S : Type 0} → Option S → (S → Option ℕ × S) → Option (ℕ × S)
after_wait none read = none
after_wait (some s) read = with_state (read s)

module _ (chip : Chip) where
  unfoldable pub read_rtc_reg : ℕ → chip.State → ℕ × chip.State
  read_rtc_reg reg s = chip.get (chip.select (bit_or reg 0x80) s)

  unfoldable pub write_rtc_reg : ℕ → ℕ → chip.State → chip.State
  write_rtc_reg reg value s = chip.put value (chip.select (bit_or reg 0x80) s)

  unfoldable pub is_updating : chip.State → Bool × chip.State
  unfolding read_rtc_reg
  is_updating s = let (a, s') = read_rtc_reg 0x0A s in (not (bit_and a 0x80 == 0), s')

  -- `while is_updating() {}`, at most `fuel` tests
  unfoldable pub wait : ℕ → chip.State → Option chip.State
  unfolding is_updating
  wait zero s = none
  wait (suc fuel) s =
      let (busy, s') = is_updating s in let rest = wait fuel s' in if busy then rest else some s'

  unfoldable pub set_time : ℕ → ℕ → ℕ → ℕ → ℕ → ℕ → chip.State → chip.State
  unfolding read_rtc_reg write_rtc_reg bin_to_bcd
  set_time year month day hour min sec s0 =
      let (status_b, s1) = read_rtc_reg 0x0B s0 in
      let s2 = write_rtc_reg 0x0B (bit_or status_b 0x80) s1 in
      let s3 = write_rtc_reg 0x00 (bin_to_bcd sec) s2 in
      let s4 = write_rtc_reg 0x02 (bin_to_bcd min) s3 in
      let s5 = write_rtc_reg 0x04 (bin_to_bcd hour) s4 in
      let s6 = write_rtc_reg 0x07 (bin_to_bcd day) s5 in
      let s7 = write_rtc_reg 0x08 (bin_to_bcd month) s6 in
      let s8 = write_rtc_reg 0x09 (bin_to_bcd (year % 100)) s7 in
      let s9 = write_rtc_reg 0x32 (bin_to_bcd (year / 100 % 256)) s8 in
      let s10 = write_rtc_reg 0x0B (bit_and status_b 0x7F) s9 in chip.select 0x00 s10

  -- what the registers say, once no update is under way
  unfoldable pub read_time : chip.State → Option ℕ × chip.State
  unfolding read_rtc_reg coded_secs
  read_time s0 =
      let (sec, s1) = read_rtc_reg 0x00 s0 in
      let (min, s2) = read_rtc_reg 0x02 s1 in
      let (day, s3) = read_rtc_reg 0x07 s2 in
      let (month, s4) = read_rtc_reg 0x08 s3 in
      let (hour, s5) = read_rtc_reg 0x04 s4 in
      let (century, s6) = read_rtc_reg 0x32 s5 in
      let (year_short, s7) = read_rtc_reg 0x09 s6 in
      (coded_secs century year_short month day hour min sec, chip.select 0x00 s7)

  unfoldable pub get_time : ℕ → chip.State → Option (ℕ × chip.State)
  unfolding wait read_time
  get_time fuel s = after_wait (wait fuel s) read_time
