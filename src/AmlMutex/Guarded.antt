-- ===== src/AmlMutex/Guarded.antt =====
-- src/acpi/handler.rs: `acquire` and `release` of any processors, on one mutex behind the lock of
-- `AML_MUTEXES`, as steps. `acquire` keeps that lock from its first line until it returns, and
-- `release` takes it too.
use okots_os.Base.{
  subst, ℕ, ◌+◌, ◌%◌, ◌^◌, ◌≡◌, ◌≢◌, refl, sym, ap, ap₂, ◌∙◌, true, false, not, ◌&&◌, Option, none,
  some, leb, ◌==◌, if◌then◌else◌, arith,
}
use okots_os.AmlMutex.{AmlMutexInner, is_owner, release_inner, waits}
use okots_os.AmlMutex.Reentrant.{concrete}

-- the call of `acquire` that has the lock of the list and is in its loop
pub record Waiting : Type 0 where
  pub my_id : ℕ
  pub timeout : ℕ
  pub elapsed : ℕ

pub record Guarded : Type 0 where
  pub guard : Option Waiting
  pub mutex : AmlMutexInner

-- up to the loop
unfoldable pub enter : ℕ → ℕ → AmlMutexInner → Guarded
enter my_id timeout m =
    if is_owner m.owner my_id
    then record { guard = none; mutex = record m { count = (m.count + 1) % 2 ^ 32 } }
    else record {
      guard = some (record { my_id = my_id; timeout = timeout; elapsed = 0 });
      mutex = m;
    }

-- one round of the loop
unfoldable pub try_lock : Waiting → AmlMutexInner → Guarded
try_lock w m =
    if not m.lock
    then record { guard = none; mutex = record { lock = true; owner = some w.my_id; count = 1 } }
    else if not (w.timeout == 0xFFFF) && leb w.timeout w.elapsed
    then record { guard = none; mutex = m }
    else record { guard = some (record w { elapsed = (w.elapsed + 1) % 2 ^ 16 }); mutex = m }

pub data GuardedStep : Guarded → Guarded → Type 0 where
  enters :
      (s : Guarded) (my_id timeout : ℕ)
      → s.guard ≡ none
      → GuardedStep s (enter my_id timeout s.mutex)
  tries : (s : Guarded) (w : Waiting) → s.guard ≡ some w → GuardedStep s (try_lock w s.mutex)
  releases :
      (s : Guarded) → s.guard ≡ none → GuardedStep s (record s { mutex = release_inner s.mutex })

pub data GuardedSteps (s : Guarded) : Guarded → Type 0 where
  stay : GuardedSteps s s
  more : (t u : Guarded) → GuardedSteps s t → GuardedStep t u → GuardedSteps s u

-- a call with the timeout 0xFFFF that is in its loop, on a mutex that is held
abbrev pub stuck : ℕ → ℕ → ℕ → ℕ → Guarded
stuck id owner again elapsed = record {
  guard = some (record { my_id = id; timeout = 0xFFFF; elapsed = elapsed });
  mutex = concrete (some (owner, again));
}

abbrev pub IsStuck : ℕ → ℕ → ℕ → Guarded → Type 0
IsStuck id owner again s = (elapsed : ℕ) × (s ≡ stuck id owner again elapsed)

from_stuck :
    (id owner again elapsed : ℕ) (s t : Guarded)
    → GuardedStep s t
    → s ≡ stuck id owner again elapsed
    → IsStuck id owner again t
unfolding try_lock
from_stuck id owner again elapsed _ _ (enters s i t free) e =
    absurd (ground (arith, free, ap (λ x. x.guard) e))
from_stuck id owner again elapsed _ _ (tries s w busy) e =
    let same : w ≡ record { my_id = id; timeout = 0xFFFF; elapsed = elapsed } =
      ap (λ g. elim g as (λ x. Waiting) [ none ↦ w | some v ↦ v ])
        (sym busy ∙ ap (λ x. x.guard) e) in
    ((elapsed + 1) % 2 ^ 16, ap₂ try_lock same (ap (λ x. x.mutex) e))
from_stuck id owner again elapsed _ _ (releases s free) e =
    absurd (ground (arith, free, ap (λ x. x.guard) e))

stuck-Steps :
    (id owner again elapsed : ℕ) (t : Guarded)
    → GuardedSteps (stuck id owner again elapsed) t
    → IsStuck id owner again t
stuck-Steps id owner again elapsed _ stay = (elapsed, refl)
stuck-Steps id owner again elapsed _ (more t u r st) =
    let (e, q) = stuck-Steps id owner again elapsed t r in from_stuck id owner again e t u st q

-- When a processor asks for a mutex that another one holds, with the timeout 0xFFFF, then whatever
-- calls any processors make, it waits for ever: after any steps it still has the lock of the list and
-- is in its loop, and the owner still holds the mutex, since its `release` is no step.
pub enter-IsStuck :
    (id owner again : ℕ) (t : Guarded)
    → owner ≢ id
    → GuardedSteps (enter id 0xFFFF (concrete (some (owner, again)))) t
    → IsStuck id owner again t
unfolding enter
enter-IsStuck id owner again t other r =
    let waits : (owner == id) ≡ false = ground (arith, other) in
    let begins : enter id 0xFFFF (concrete (some (owner, again))) ≡ stuck id owner again 0 =
      rw waits refl in
    stuck-Steps id owner again 0 t (subst (λ s. GuardedSteps s t) begins r)

abbrev in_loop : ℕ → ℕ → ℕ → AmlMutexInner → Guarded
in_loop my_id timeout elapsed m = record {
  guard = some (record { my_id = my_id; timeout = timeout; elapsed = elapsed });
  mutex = m;
}
