-- ===== src/Tsc/Clock.antt =====
-- src/timer/tsc.rs: the rate that is measured and the time that is read with it.
use okots_os.Base.{
  ℕ, ◌+◌, ◌*◌, ◌-◌, ◌/◌, ◌%◌, ◌^◌, ◌<◌, ◌≤◌, ◌≡◌, refl, true, false, Option, none, some, ◌==◌,
  add_word, sub_word, arith,
}
use native.Mathlib.Nat.{div-lt_iff_lt-mul, lt-mul-div-succ, mul-div_cancel}
use okots_os.Tsc.{Gs, init_for_ap, common, get_time, option_init_time_stamp, get_world_time_utc}

abbrev pub uncalibrated : Gs
uncalibrated = record { tsc_init = false; par_100ns = 0; adjust = 0 }

whole : (units : ℕ) → units < 2 ^ 64 → units * 100 / 100 % 2 ^ 64 ≡ units
whole units h = omega arith

nonzero : (units : ℕ) → 0 < units → (units == 0) ≡ false
nonzero units h = ground arith

advanced : (start k : ℕ) → start < 2 ^ 64 → k < 2 ^ 64 → sub_word (add_word start k) start ≡ k
advanced start k s h = omega arith

-- The rate of a counter that advances by `rate` in 100 nanoseconds, over `units` of them, is found
-- exactly, also where the counter wraps around in between.
pub init_for_ap-rate :
    (start rate units : ℕ)
    → start < 2 ^ 64
    → 0 < units
    → units < 2 ^ 64
    → rate * units < 2 ^ 64
    → init_for_ap start (add_word start (rate * units)) (units * 100) uncalibrated
      ≡ record { tsc_init = true; par_100ns = rate; adjust = 0 }
unfolding init_for_ap
init_for_ap-rate start rate units s p u r =
    rw (whole units u, nonzero units p, advanced start (rate * units) s r, mul-div_cancel rate p)
      refl

below : (a b : ℕ) → 0 < b → a < (a / b + 1) * b
below a b p = omega (arith, lt-mul-div-succ a p)

get_time-exact :
    (counter : ℕ) (gs : Gs)
    → gs.tsc_init ≡ true
    → 0 < gs.par_100ns
    → add_word counter gs.adjust < 2 ^ 63
    → add_word counter gs.adjust * 100 < 2 ^ 64 * gs.par_100ns
    → get_time counter gs ≡ add_word counter gs.adjust * 100 / gs.par_100ns
unfolding get_time common
get_time-exact counter gs i p pos small = ground (arith, short)
  where
    short : add_word counter gs.adjust * 100 / gs.par_100ns < 2 ^ 64
    short = (div-lt_iff_lt-mul p).1 small

-- Once the world time is set to `utc`, where that is after the processor's own time, a later reading
-- gives `utc` and the time that has passed since.
pub get_world_time_utc-passed :
    (utc counter later : ℕ) (gs : Gs)
    → get_time counter gs < utc
    → get_time counter gs ≤ get_time later gs
    → elim (option_init_time_stamp utc counter gs) as (λ x. Option ℕ) [
      | none ↦ none
      | some offset ↦ get_world_time_utc offset later gs
    ]
      ≡ some (utc + (get_time later gs - get_time counter gs))
unfolding option_init_time_stamp get_world_time_utc
get_world_time_utc-passed utc counter later gs h k = ground arith
