-- ===== src/Tests/Services.antt =====
-- Concrete records, slices, times and batches.
use Prim.Native.String.{String}
use okots_os.Base.{
  inl, ◌&&◌, ◌<◌, ◌≤◌, ℕ, ◌+◌, ◌*◌, ◌%◌, ◌≡◌, refl, true, none, some, List, [], ◌∷◌, length, leb,
  ◌==◌, get_elem?, if◌then◌else◌, arith,
}
use okots_os.Tsc
use okots_os.Tsc.{Gs, init_for_ap, option_init_time_stamp, get_world_time_utc}
use okots_os.Log.{OsLog, Logger, LogIterator, read_log, next}
use okots_os.Log.Window.{add_all, empty, read_log-add_all}
use okots_os.Log.Iterate.{first_of, picked, unread, next-first_of}
use okots_os.SendAndGet.{Vec, new_owned}
use okots_os.SendAndGet.Once.{slice, take, IsOnce, life, life-IsOnce}
use okots_os.Rtc.{Chip, get_time, set_time, total_days}
use okots_os.Rtc.Calendar.{days_since, total_days-days_since}
use okots_os.Rtc.RoundTrip.{IsChip, IsTime, secs_of, get_time-set_time}
use okots_os.Simd.{add, avx2, sse4, batch, lanes_of}
use okots_os.Simd.Division.{div, div_batch}
use okots_os.Simd.Panics.{nonzero, div_batch-IsChecked}
use okots_os.Simd.Shifts.{rotr, unary_batch}
use okots_os.Simd.Rotations.{unary_batch-none}
use okots_os.Simd as Simd
use okots_os.Simd.Levels.{batch-none}

abbrev record_of : String → OsLog
record_of level = record {
  level = level;
  by = "kernel";
  tag = "boot";
  text = "up";
  file = "src/main.rs";
  time = 0;
  line = 1;
  column = 1;
  cpu_acpi_id = 0;
}

abbrev records : List OsLog
records = record_of "s" ∷ record_of "i" ∷ record_of "s" ∷ []

read_log-add_all_example :
    read_log 1 (add_all records (empty 2))
    ≡ (if leb (length records) (1 + 2) then get_elem? records 1 else none)
read_log-add_all_example = read_log-add_all 2 records 1 (omega arith)

abbrev iterator : LogIterator
iterator = record { next_id = 6; include_system = true }

abbrev logger : Logger
logger = record { buf = records; head_id = 5; capacity = 3 }

next-first_of_example : next 4 iterator logger ≡ (
    let found = first_of (picked true) (unread iterator logger) in
    (some found.0, record iterator { next_id = 6 + found.1 }))
next-first_of_example = next-first_of 4 iterator logger (omega arith) (omega arith) (omega arith)

abbrev vector : Vec
vector = record { ptr = 0x1000; len = 3; cap = 4 }

life-IsOnce_example :
    IsOnce (new_owned vector) (life 8 (take ∷ slice ∷ take ∷ []) (new_owned vector))
life-IsOnce_example =
    life-IsOnce 8 (take ∷ slice ∷ take ∷ []) (new_owned vector) (λ e. absurd (omega arith))

total_days-days_since_example : total_days 2024 2 29 ≡ some (days_since 2024 2 29)
total_days-days_since_example =
    total_days-days_since 2024 2 29 (omega arith) (omega arith) (omega arith) (omega arith)
      (omega arith) (omega arith)

-- the selected register and the registers
abbrev cmos : Chip
cmos = record {
  State = ℕ × (ℕ → ℕ);
  select = λ v s. (v % 128, s.1);
  put = λ w s. (s.0, λ r. if r == s.0 then w else s.1 r);
  get = λ s. (s.1 s.0, s);
}

cmos-IsChip : IsChip cmos (λ s. s.1)
cmos-IsChip = record {
  select_cell = λ v s r. refl;
  get_value = λ v s. refl;
  get_cell = λ s r. refl;
  put_cell = λ v w s r. refl;
}

abbrev still : ℕ × (ℕ → ℕ)
still = (0, λ r. 0)

noon : IsTime 2024 2 29 12 30 15
noon = record {
  year_from = omega arith;
  year_to = omega arith;
  month_from = omega arith;
  month_to = omega arith;
  day_from = omega arith;
  day_to = omega arith;
  hours = omega arith;
  mins = omega arith;
  secs = omega arith;
}

get_time-set_time_example :
    secs_of (get_time cmos 1 (set_time cmos 2024 2 29 12 30 15 still))
    ≡ some (days_since 2024 2 29 * 86400 + 12 * 3600 + 30 * 60 + 15)
get_time-set_time_example =
    get_time-set_time cmos (λ s. s.1) cmos-IsChip 2024 2 29 12 30 15 0 still noon refl

batch-none_example :
    batch add 1 (200 ∷ 7 ∷ 9 ∷ []) (100 ∷ 1 ∷ []) avx2
    ≡ batch add 1 (200 ∷ 7 ∷ 9 ∷ []) (100 ∷ 1 ∷ []) Simd.none
batch-none_example =
    batch-none add 1 (200 ∷ 7 ∷ 9 ∷ []) (100 ∷ 1 ∷ []) avx2 (omega arith) (omega arith)

abbrev calibrated : Gs
calibrated = record { tsc_init = true; par_100ns = 25; adjust = 0 }

early : Tsc.get_time 1000 calibrated < 5000
unfolding Tsc.get_time
early = omega arith

in_order : Tsc.get_time 1000 calibrated ≤ Tsc.get_time 2000 calibrated
unfolding Tsc.get_time
in_order = omega arith

unary_batch-none_example :
    unary_batch rotr 1 (0x96 ∷ 7 ∷ 9 ∷ []) 11 avx2
    ≡ unary_batch rotr 1 (0x96 ∷ 7 ∷ 9 ∷ []) 11 Simd.none
unary_batch-none_example =
    unary_batch-none rotr 1 11 (0x96 ∷ 7 ∷ 9 ∷ []) avx2 (inl refl)
      (omega arith, (omega arith, (omega arith, tt)))

-- two of sixteen lanes are left empty
abbrev fourteen : List ℕ
fourteen = 1 ∷ 2 ∷ 3 ∷ 4 ∷ 5 ∷ 6 ∷ 7 ∷ 8 ∷ 9 ∷ 10 ∷ 11 ∷ 12 ∷ 13 ∷ 14 ∷ []

div_batch-IsChecked_example : div_batch div 1 fourteen fourteen sse4 ≡ (
    if (14 % lanes_of 128 1 == 0) && nonzero fourteen
    then div_batch div 1 fourteen fourteen Simd.none
    else none)
div_batch-IsChecked_example =
    div_batch-IsChecked div 1 fourteen fourteen sse4 128 refl (omega arith) (omega arith)
