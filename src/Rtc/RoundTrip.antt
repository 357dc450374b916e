-- ===== src/Rtc/RoundTrip.antt =====
-- src/timer/rtc.rs: a time that is set is read back.
use okots_os.Base.{
  ℕ, suc, ◌+◌, ◌*◌, ◌/◌, ◌%◌, ◌^◌, ◌≤◌, ◌<◌, ◌≡◌, refl, ap, fun_ext, ◌∙◌, Option, none, some, ◌==◌,
  if◌then◌else◌, bit_and, bit_or, add_word, mul_word, arith,
}
use okots_os.Rtc.{
  Chip, coded_secs, with_state, after_wait, read_rtc_reg, write_rtc_reg, is_updating, wait,
  set_time, get_time, read_time, total_secs, bcd_to_bin, bin_to_bcd, decode_hour, total_days,
}
use okots_os.Rtc.Calendar.{days_since, total_days-days_since, days_since-bound}
use okots_os.Rtc.Codes.{bcd_to_bin-bin_to_bcd, decode_hour-bin_to_bcd}

-- What the kernel relies on the chip for: `cell s r` is register `r`; the top bit of the selector is
-- the switch for the NMI. Between an update and the next the registers keep what they hold.
pub record IsChip (chip : Chip) (cell : chip.State → ℕ → ℕ) : Type 0 where
  pub select_cell : (v : ℕ) (s : chip.State) (r : ℕ) → cell (chip.select v s) r ≡ cell s r
  pub get_value : (v : ℕ) (s : chip.State) → (chip.get (chip.select v s)).0 ≡ cell s (v % 128)
  pub get_cell : (s : chip.State) (r : ℕ) → cell (chip.get s).1 r ≡ cell s r
  pub put_cell :
      (v w : ℕ) (s : chip.State) (r : ℕ)
      → cell (chip.put w (chip.select v s)) r ≡ (if r == v % 128 then w else cell s r)

-- the time that the registers say
abbrev cells_time : (ℕ → ℕ) → Option ℕ
cells_time c = coded_secs (c 0x32) (c 0x09) (c 0x08) (c 0x07) (c 0x04) (c 0x02) (c 0x00)

-- the seconds that a call gives
abbrev pub secs_of : {S : Type 0} → Option (ℕ × S) → Option ℕ
secs_of none = none
secs_of (some (secs, s)) = some secs

module _ (chip : Chip) (cell : chip.State → ℕ → ℕ) (laws : IsChip chip cell) where
  read-cell : (reg : ℕ) (s : chip.State) (r : ℕ) → cell (read_rtc_reg chip reg s).1 r ≡ cell s r
  unfolding read_rtc_reg
  read-cell reg s r =
      laws.get_cell (chip.select (bit_or reg 0x80) s) r ∙ laws.select_cell (bit_or reg 0x80) s r

  read-value :
      (reg : ℕ) (s : chip.State) → (read_rtc_reg chip reg s).0 ≡ cell s (bit_or reg 0x80 % 128)
  unfolding read_rtc_reg
  read-value reg s = laws.get_value (bit_or reg 0x80) s

  write-cell :
      (reg w : ℕ) (s : chip.State) (r : ℕ)
      → cell (write_rtc_reg chip reg w s) r ≡ (if r == bit_or reg 0x80 % 128 then w else cell s r)
  unfolding write_rtc_reg
  write-cell reg w s r = laws.put_cell (bit_or reg 0x80) w s r

  -- the registers after `set_time`
  abbrev after_set : ℕ → ℕ → ℕ → ℕ → ℕ → ℕ → (ℕ → ℕ) → ℕ → ℕ
  after_set year month day hour min sec c r =
      if r == 0x0B
      then bit_and (c 0x0B) 0x7F
      else if r == 0x32
      then bin_to_bcd (year / 100 % 256)
      else if r == 0x09
      then bin_to_bcd (year % 100)
      else if r == 0x08
      then bin_to_bcd month
      else if r == 0x07
      then bin_to_bcd day
      else if r == 0x04
      then bin_to_bcd hour
      else if r == 0x02
      then bin_to_bcd min
      else if r == 0x00
      then bin_to_bcd sec
      else if r == 0x0B
      then bit_or (c 0x0B) 0x80
      else c r

  set_time-cell :
      (year month day hour min sec : ℕ) (s : chip.State) (r : ℕ)
      → cell (set_time chip year month day hour min sec s) r
        ≡ after_set year month day hour min sec (cell s) r
  unfolding set_time
  set_time-cell year month day hour min sec s r =
      simp (write-cell, read-cell, read-value, laws.select_cell) refl

  -- with no update under way, `get_time` reads the registers as they are
  wait-idle :
      (fuel : ℕ) (s : chip.State)
      → bit_and (cell s 0x0A) 0x80 ≡ 0
      → wait chip (suc fuel) s ≡ some (read_rtc_reg chip 0x0A s).1
  unfolding wait is_updating
  wait-idle fuel s idle = rw (read-value 0x0A s, idle) refl

  read_time-cells : (s : chip.State) → (read_time chip s).0 ≡ cells_time (cell s)
  unfolding read_time
  read_time-cells s = simp (read-value, read-cell) refl

  secs_of-with_state : {S : Type 0} (r : Option ℕ × S) → secs_of (with_state r) ≡ r.0
  secs_of-with_state (none, s) = refl
  secs_of-with_state (some secs, s) = refl

  get_time-cells :
      (fuel : ℕ) (s : chip.State)
      → bit_and (cell s 0x0A) 0x80 ≡ 0
      → secs_of (get_time chip (suc fuel) s) ≡ cells_time (cell s)
  unfolding get_time
  get_time-cells fuel s idle =
      let s' = (read_rtc_reg chip 0x0A s).1 in
      ap (λ w. secs_of (after_wait w (read_time chip))) (wait-idle fuel s idle)
      ∙ secs_of-with_state (read_time chip s')
      ∙ read_time-cells s'
      ∙ ap cells_time (fun_ext (read-cell 0x0A s))

-- a time of day and a date that the clock can hold
pub record IsTime (year month day hour min sec : ℕ) : Type 0 where
  pub year_from : 1970 ≤ year
  pub year_to : year < 10000
  pub month_from : 1 ≤ month
  pub month_to : month ≤ 12
  pub day_from : 1 ≤ day
  pub day_to : day ≤ 31
  pub hours : hour < 24
  pub mins : min < 60
  pub secs : sec < 60

coded_secs-decoded :
    (century' year' month' day' hour' min' sec' year month day hour min sec days : ℕ)
    → add_word (mul_word (bcd_to_bin century') 100) (bcd_to_bin year') ≡ year
    → bcd_to_bin month' ≡ month
    → bcd_to_bin day' ≡ day
    → decode_hour hour' ≡ hour
    → bcd_to_bin min' ≡ min
    → bcd_to_bin sec' ≡ sec
    → total_days year month day ≡ some days
    → coded_secs century' year' month' day' hour' min' sec' ≡ some (total_secs days hour min sec)
unfolding coded_secs
coded_secs-decoded c' y' m' d' h' i' s' y m d h i s days ey em ed eh ei es e =
    rw (coded_secs, ey, em, ed, eh, ei, es, e) refl

total_secs-exact :
    (year month day hour min sec : ℕ)
    → IsTime year month day hour min sec
    → total_secs (days_since year month day) hour min sec
      ≡ days_since year month day * 86400 + hour * 3600 + min * 60 + sec
unfolding total_secs
total_secs-exact year month day hour min sec v =
    small (days_since year month day)
      (days_since-bound year month day (omega (arith, v.year_to)) v.month_to v.day_to)
  where
    small :
        (days : ℕ)
        → days < 2 ^ 32
        → add_word
            (add_word (add_word (mul_word days 86400) (mul_word hour 3600)) (mul_word min 60))
            sec
          ≡ days * 86400 + hour * 3600 + min * 60 + sec
    small days h = omega (arith, h, v.hours, v.mins, v.secs)

coded_secs-codes :
    (year month day hour min sec : ℕ)
    → IsTime year month day hour min sec
    → coded_secs
        (bin_to_bcd (year / 100 % 256))
        (bin_to_bcd (year % 100))
        (bin_to_bcd month)
        (bin_to_bcd day)
        (bin_to_bcd hour)
        (bin_to_bcd min)
        (bin_to_bcd sec)
      ≡ some (days_since year month day * 86400 + hour * 3600 + min * 60 + sec)
coded_secs-codes year month day hour min sec v =
    coded_secs-decoded (bin_to_bcd (year / 100 % 256)) (bin_to_bcd (year % 100)) (bin_to_bcd month)
      (bin_to_bcd day) (bin_to_bcd hour) (bin_to_bcd min) (bin_to_bcd sec) year month day hour min
      sec (days_since year month day)
      (rw
        (
          bcd_to_bin-bin_to_bcd (year / 100 % 256) (omega (arith, v.year_to)),
          bcd_to_bin-bin_to_bcd (year % 100) (omega arith),
        )
        whole)
      (bcd_to_bin-bin_to_bcd month (omega (arith, v.month_to)))
      (bcd_to_bin-bin_to_bcd day (omega (arith, v.day_to))) (decode_hour-bin_to_bcd hour v.hours)
      (bcd_to_bin-bin_to_bcd min (omega (arith, v.mins)))
      (bcd_to_bin-bin_to_bcd sec (omega (arith, v.secs)))
      (total_days-days_since year month day v.year_from (omega (arith, v.year_to)) v.month_from
        v.month_to v.day_from v.day_to)
    ∙ ap some (total_secs-exact year month day hour min sec v)
  where
    whole : add_word (mul_word (year / 100 % 256) 100) (year % 100) ≡ year
    whole = omega (arith, v.year_to)

-- For a chip that keeps its registers between updates and has none under way, and every date from
-- 1970 to 9999 with a time of day: after `set_time`, `get_time` ends at its first test and gives the
-- seconds since 1970, counted by the calendar.
pub get_time-set_time :
    (chip : Chip) (cell : chip.State → ℕ → ℕ)
    → IsChip chip cell
    → (year month day hour min sec fuel : ℕ) (s : chip.State) → IsTime year month day hour min sec
    → bit_and (cell s 0x0A) 0x80 ≡ 0
    → secs_of (get_time chip (suc fuel) (set_time chip year month day hour min sec s))
      ≡ some (days_since year month day * 86400 + hour * 3600 + min * 60 + sec)
get_time-set_time chip cell laws year month day hour min sec fuel s v idle =
    let set = set_time-cell chip cell laws year month day hour min sec s in
    get_time-cells chip cell laws fuel (set_time chip year month day hour min sec s)
      (rw (set 0x0A) idle)
    ∙ ap cells_time (fun_ext set)
    ∙ coded_secs-codes year month day hour min sec v
