-- ===== src/Rtc/Calendar.antt =====
-- src/timer/rtc.rs, `get_time`: its formula for the days since 1970 against counting them.
use okots_os.Base.{
  ℕ, zero, suc, ◌+◌, ◌*◌, ◌-◌, ◌/◌, ◌%◌, ◌^◌, ◌≤◌, ◌<◌, ◌≡◌, refl, sym, subst, Bool, true, false,
  not, ◌&&◌, ◌||◌, Option, none, some, get_elem?, ltb, ◌==◌, if◌then◌else◌, add_word, arith,
  Option-cases, inl, inr, ◌∙◌, ap, checked, checked_all,
}
use okots_os.Rtc.{is_leap_year, days_to_year, total_days, add_months, month_days}

abbrev pub year_length : ℕ → ℕ
year_length year =
    if (year % 4 == 0) && not (year % 100 == 0) || (year % 400 == 0) then 366 else 365

-- the days of `n` years from 1970 on
abbrev pub years : ℕ → ℕ
years zero = 0
years (suc n) = years n + year_length (1970 + n)

-- the length of a month, February with the length that the year gives it
abbrev pub month_length : ℕ → ℕ → ℕ
month_length year month =
    if month == 2
    then year_length year - 337
    else if (month == 4) || (month == 6) || (month == 9) || (month == 11)
    then 30
    else 31

-- the days of `n` months from month `i` on
abbrev pub months : ℕ → ℕ → ℕ → ℕ
months year i zero = 0
months year i (suc n) = month_length year i + months year (i + 1) n

-- the days from the 1st of January 1970 to a date
abbrev pub days_since : ℕ → ℕ → ℕ → ℕ
days_since year month day = years (year - 1970) + months year 1 (month - 1) + (day - 1)

formula : ℕ → ℕ
formula n = n * 365 + (n + 1) / 4 - (n + 69) / 100 + (n + 369) / 400

formula-years : (n : ℕ) → formula n ≡ years n
unfolding formula
formula-years zero = refl
formula-years (suc n) = ground (arith, formula-years n)

days_to_year-formula : (n : ℕ) → n < 65536 → days_to_year (1970 + n) ≡ formula n
unfolding days_to_year formula
days_to_year-formula n h = omega arith

days_to_year-years :
    (year : ℕ) → 1970 ≤ year → year < 65536 → days_to_year year ≡ years (year - 1970)
days_to_year-years y from to = rw (back y from) (
    days_to_year-formula (y - 1970) (omega arith)
    ∙ formula-years (y - 1970)
    ∙ ap years (forth (y - 1970)))
  where
    back : (y : ℕ) → 1970 ≤ y → y ≡ 1970 + (y - 1970)
    back y h = omega arith

    forth : (n : ℕ) → n ≡ 1970 + n - 1970
    forth n = omega arith

years-bound : (n : ℕ) → years n ≤ n * 366
years-bound zero = omega arith
years-bound (suc n) = ground (arith, years-bound n)

in_table : ℕ → Bool
in_table i = elim (get_elem? month_days i) [
  | none ↦ false
  | some days ↦ (i == 0) || (days == month_length 1970 i)
]

month_days-table : checked in_table 13 ≡ true
unfolding in_table checked
month_days-table = refl

month_days-month_length :
    (i : ℕ) → 1 ≤ i → i < 13 → get_elem? month_days i ≡ some (month_length 1970 i)
unfolding in_table
month_days-month_length i from to = elim (Option-cases (get_elem? month_days i)) [
  | inl e ↦ absurd (ground (arith, checked_all in_table 13 i to month_days-table))
  | inr (days, e) ↦ ground (arith, checked_all in_table 13 i to month_days-table)
]

month_length-bound : (i : ℕ) → month_length 1970 i ≤ 31
month_length-bound i = ground arith

-- a round of the loop
add_months-step :
    (i n days : ℕ) (length : ℕ) (o : Option ℕ)
    → get_elem? month_days i ≡ some length
    → add_months (i + 1) n (add_word days length) ≡ o
    → add_months i (suc n) days ≡ o
unfolding add_months
add_months-step i n days length o e rest =
    subst
      (λ found.
        (elim found as (λ x. Option ℕ) [
          | none ↦ none
          | some d ↦ add_months (i + 1) n (add_word days d)
        ])
        ≡ o)
      (sym e) rest

add_months-months :
    (i n days : ℕ)
    → 1 ≤ i
    → i + n ≤ 13
    → days < 2 ^ 32 + i * 31
    → add_months i n days ≡ some (days + months 1970 i n)
unfolding add_months
add_months-months i zero days from to small = ap some (omega arith)
add_months-months i (suc n) days from to small =
    add_months-step i n days (month_length 1970 i) _ (month_days-month_length i from (omega arith))
      (rw exact (
        add_months-months (i + 1) n (days + month_length 1970 i) (omega arith) (omega arith)
          (omega (arith, bound))
        ∙ ap some (omega arith)))
  where
    bound : month_length 1970 i ≤ 31
    bound = month_length-bound i

    exact : add_word days (month_length 1970 i) ≡ days + month_length 1970 i
    exact = omega (arith, bound)

months-common :
    (year i n : ℕ)
    → months year i n
      ≡ months 1970 i n + (if ltb i 3 && ltb 2 (i + n) then year_length year - 365 else 0)
months-common year i zero = ground arith
months-common year i (suc n) = ground (arith, months-common year (i + 1) n)

months-bound : (i n : ℕ) → months 1970 i n ≤ n * 31
months-bound i zero = omega arith
months-bound i (suc n) = omega (arith, month_length-bound i, months-bound (i + 1) n)

-- For every date from 1970 on, in a year below 65536: the formula of `get_time` and its table of
-- months give the number of days from the 1st of January 1970, counted year by year and month by
-- month with the leap years of the calendar.
pub total_days-days_since :
    (year month day : ℕ)
    → 1970 ≤ year
    → year < 65536
    → 1 ≤ month
    → month ≤ 12
    → 1 ≤ day
    → day ≤ 31
    → total_days year month day ≡ some (days_since year month day)
unfolding total_days is_leap_year
total_days-days_since year month day y y' m m' d d' = ground (
  arith,
  add_months-months 1 (month - 1) (days_to_year year) (omega arith) (omega arith)
      (omega (arith, span, days_to_year-years year y y')),
  days_to_year-years year y y',
  span,
  months-common year 1 (month - 1),
  months-bound 1 (month - 1),
)
  where
    span : years (year - 1970) ≤ (year - 1970) * 366
    span = years-bound (year - 1970)

pub days_since-bound :
    (year month day : ℕ) → year < 65536 → month ≤ 12 → day ≤ 31 → days_since year month day < 2 ^ 32
days_since-bound year month day y m d =
    ground (
      arith,
      years-bound (year - 1970),
      months-common year 1 (month - 1),
      months-bound 1 (month - 1),
    )
