-- ===== src/AmlMutex/Reentrant.antt =====
-- src/acpi/handler.rs: a mutex of the interpreter as a reentrant lock.
use okots_os.Base.{
  ℕ, zero, suc, ◌+◌, ◌-◌, ◌^◌, ◌≤◌, ◌<◌, ◌≡◌, inl, inr, refl, true, false, Option, none, some, leb,
  ◌==◌, if◌then◌else◌, arith, Bool-cases,
}
use okots_os.AmlMutex.{
  AmlMutexInner, Outcome, acquired, mutex_acquire_timeout, try_locks, acquire_inner, release_inner,
}

-- A free lock, or its owner and how often it holds the lock more than once.
abbrev pub Lock : Type 0
Lock = Option (ℕ × ℕ)

abbrev pub concrete : Lock → AmlMutexInner
concrete none = record { lock = false; owner = none; count = 0 }
concrete (some (id, again)) = record { lock = true; owner = some id; count = suc again }

-- what a processor gets, and the lock after
abbrev pub take_lock : ℕ → Lock → Option Lock
take_lock id none = some (some (id, 0))
take_lock id (some (owner, again)) = if owner == id then some (some (owner, suc again)) else none

abbrev pub give_back : Lock → Lock
give_back none = none
give_back (some (owner, zero)) = none
give_back (some (owner, suc again)) = some (owner, again)

abbrev pub depth : Lock → ℕ
depth none = 0
depth (some (id, again)) = suc again

-- The call ends and leaves what the reentrant lock says.
abbrev pub IsTaken : Option Lock → Lock → Outcome × AmlMutexInner → Type 0
IsTaken none before r = r ≡ (mutex_acquire_timeout, concrete before)
IsTaken (some after) before r = r ≡ (acquired, concrete after)

locked-waits :
    (fuel id timeout elapsed owner again : ℕ)
    → timeout < 0xFFFF
    → elapsed ≤ timeout
    → timeout < elapsed + fuel
    → try_locks fuel id timeout elapsed (concrete (some (owner, again)))
      ≡ (mutex_acquire_timeout, concrete (some (owner, again)))
unfolding try_locks
locked-waits zero id timeout elapsed owner again h k l = absurd (omega arith)
locked-waits (suc fuel) id timeout elapsed owner again h k l =
    elim (Bool-cases (leb timeout elapsed)) [
      | inl e ↦ ground arith
      | inr e ↦ ground (
        arith,
        locked-waits fuel id timeout (elapsed + 1) owner again h (ground arith) (omega arith),
      )
    ]

-- For a timeout other than 0xFFFF and a depth below 2 ^ 32 - 1: a mutex is a reentrant lock. An
-- `acquire` by a processor that knows its id ends within one round more than the timeout. It takes
-- a free mutex, counts one more for the owner, and times out and changes nothing for any other.
pub acquire_inner-IsTaken :
    (lock : Lock) (id timeout fuel : ℕ)
    → timeout < 0xFFFF
    → timeout < fuel
    → depth lock < 2 ^ 32 - 1
    → IsTaken (take_lock id lock) lock (acquire_inner fuel (some id) timeout (concrete lock))
unfolding acquire_inner try_locks
acquire_inner-IsTaken none id timeout zero h k d = absurd (omega arith)
acquire_inner-IsTaken none id timeout (suc fuel) h k d = refl
acquire_inner-IsTaken (some (owner, again)) id timeout fuel h k d =
    elim (Bool-cases (owner == id)) [
      | inl e ↦ ground arith
      | inr e ↦
          ground (arith, locked-waits fuel id timeout 0 owner again h (omega arith) (omega arith))
    ]

-- `release` gives back one of the owner's holds, whichever processor calls it, and the last of them
-- frees the mutex; on a free mutex it does nothing.
pub release_inner-give_back :
    (lock : Lock) → release_inner (concrete lock) ≡ concrete (give_back lock)
unfolding release_inner
release_inner-give_back none = refl
release_inner-give_back (some (owner, zero)) = refl
release_inner-give_back (some (owner, suc again)) = ground arith
