-- ===== src/AmlMutex.antt =====
-- src/acpi/handler.rs: the mutexes of the ACPI interpreter. A call holds the lock of the whole list
-- from its beginning to its end, so no other call changes a mutex while it waits.
pub mod Guarded
pub mod Reentrant
use okots_os.Base.{
  ℕ, zero, suc, ◌+◌, ◌-◌, ◌%◌, ◌^◌, Bool, true, false, not, ◌&&◌, ◌||◌, Option, none, some, List,
  [], ◌∷◌, ◌++◌, length, get_elem?, set, ltb, leb, ◌==◌, if◌then◌else◌,
}

-- `lock` is whether the inner lock is held.
pub record AmlMutexInner : Type 0 where
  pub lock : Bool
  pub owner : Option ℕ
  pub count : ℕ

pub data Outcome : Type 0 where
  acquired prt_invalid_address mutex_acquire_timeout : Outcome
  -- an index out of bounds, and a loop that has not ended within its rounds
  panics waits : Outcome

unfoldable pub create_mutex : List AmlMutexInner → ℕ × List AmlMutexInner
create_mutex mutexes =
    (length mutexes, mutexes ++ record { lock = false; owner = none; count = 0 } ∷ [])

abbrev pub is_owner : Option ℕ → ℕ → Bool
is_owner none my_id = false
is_owner (some id) my_id = id == my_id

-- The loop, at most `fuel` rounds; `elapsed` and `timeout` are of 16 bits. `m` is in the list
-- whose lock the caller has, and `release` takes that lock too: nothing changes it between two rounds.
unfoldable pub try_locks : ℕ → ℕ → ℕ → ℕ → AmlMutexInner → Outcome × AmlMutexInner
try_locks zero my_id timeout elapsed m = (waits, m)
try_locks (suc fuel) my_id timeout elapsed m =
    let rest = try_locks fuel my_id timeout ((elapsed + 1) % 2 ^ 16) m in
    if not m.lock
    then (acquired, record { lock = true; owner = some my_id; count = 1 })
    else if not (timeout == 0xFFFF) && leb timeout elapsed
    then (mutex_acquire_timeout, m)
    else rest

-- one mutex; `who` is `who_am_i`
unfoldable pub acquire_inner : ℕ → Option ℕ → ℕ → AmlMutexInner → Outcome × AmlMutexInner
unfolding try_locks
acquire_inner fuel none timeout m = (prt_invalid_address, m)
acquire_inner fuel (some my_id) timeout m =
    if is_owner m.owner my_id
    then (acquired, record m { count = (m.count + 1) % 2 ^ 32 })
    else try_locks fuel my_id timeout 0 m

unfoldable pub release_inner : AmlMutexInner → AmlMutexInner
release_inner m =
    if ltb 0 m.count
    then (if m.count - 1 == 0
        then record { lock = false; owner = none; count = 0 }
        else record m { count = m.count - 1 })
    else m

unfoldable pub acquire : ℕ → Option ℕ → ℕ → ℕ → List AmlMutexInner → Outcome × List AmlMutexInner
unfolding acquire_inner
acquire fuel who handle timeout mutexes = elim (get_elem? mutexes handle) [
  | none ↦ (panics, mutexes)
  | some m ↦
      (let (outcome, m') = acquire_inner fuel who timeout m in (outcome, set mutexes handle m'))
]

-- `none` is a panic.
unfoldable pub release : ℕ → List AmlMutexInner → Option (List AmlMutexInner)
unfolding release_inner
release handle mutexes = elim (get_elem? mutexes handle) [
  | none ↦ none
  | some m ↦ some (set mutexes handle (release_inner m))
]
