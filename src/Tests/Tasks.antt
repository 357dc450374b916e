-- ===== src/Tests/Tasks.antt =====
-- Concrete locks, hashes, executors and timers.
use okots_os.Base.{◌||◌, ◌<◌, ◌≡◌, ◌⊎◌, refl, true, false, some, none, List, [], ◌∷◌, arith}
use okots_os.AmlMutex.{acquire_inner, release_inner}
use okots_os.AmlMutex.Reentrant.{
  Lock, concrete, take_lock, give_back, IsTaken, acquire_inner-IsTaken, release_inner-give_back,
}
use okots_os.AmlMutex.Guarded.{
  Waiting, enter, try_lock, tries, GuardedSteps, stay, more, IsStuck, enter-IsStuck,
}
use okots_os.Executor.{
  Core, start, halted, runs, spawns, no_task, look, swap_noise, go_offline, push, Reachable, begin,
  next,
}
use okots_os.Executor.WakeUp.{Reachable-wakes}
use okots_os.Executor.Join.{
  Join, ready, poll, set_result, take_waker, polled, wake, ended, spawned, polls, stores, wakes,
  Joins, fresh, then,
}
use okots_os.Executor.Join.Delivery.{Joins-delivered}
use okots_os.Tickets.{Timers}
use okots_os.Tickets.Due.{
  Event, polls as polls_timer, checks, has, due, is_due, waiting, run_timers, run_timers-unchecked,
}

-- processor 1 holds the lock twice
abbrev held : Lock
held = some (1, 1)

acquire_inner-IsTaken_example :
    IsTaken (take_lock 2 held) held (acquire_inner 6 (some 2) 5 (concrete held))
acquire_inner-IsTaken_example =
    acquire_inner-IsTaken held 2 5 6 (omega arith) (omega arith) (omega arith)

release_inner-give_back_example : release_inner (concrete held) ≡ concrete (give_back held)
release_inner-give_back_example = release_inner-give_back held

-- processor 2 asks for it, and tries once
abbrev asked : Waiting
asked = record { my_id = 2; timeout = 0xFFFF; elapsed = 0 }

one_round : GuardedSteps (enter 2 0xFFFF (concrete held)) (try_lock asked (concrete held))
unfolding enter
one_round =
    more (enter 2 0xFFFF (concrete held)) _ stay (tries (enter 2 0xFFFF (concrete held)) asked refl)

enter-IsStuck_example : IsStuck 2 1 1 (try_lock asked (concrete held))
enter-IsStuck_example =
    enter-IsStuck 2 1 1 (try_lock asked (concrete held)) (λ e. absurd (omega arith)) one_round

-- an executor that has gone to sleep, and a task that comes after
abbrev asleep : Core
asleep = record start { online = false; phase = halted }

abbrev woken : Core
woken = record asleep { queued = 1; pushed = 1 }

asleep_Reachable : Reachable asleep
asleep_Reachable =
    next _ _
      (next _ _
        (next _ _ (next _ _ begin (runs _ _ (no_task start refl refl))) (runs _ _ (look _ refl)))
        (runs _ _ (swap_noise _ refl)))
      (runs _ _ (go_offline _ refl))

Reachable-wakes_example :
    (woken.queued ≡ 0) ⊎ (woken.ipi ≡ true) ⊎ (0 < woken.pushed) ⊎ (0 < woken.sending)
Reachable-wakes_example =
    Reachable-wakes woken (next _ _ asleep_Reachable (spawns _ _ (push asleep refl))) refl

abbrev fresh_timers : Timers
fresh_timers = record { gs_tickets = []; inner_tickets = []; task_queue = 5 ∷ [] }

-- The timer of the waker 1 is told to wait until 30; that of 2 has passed.
abbrev events : List Event
events = polls_timer 20 30 1 ∷ checks 25 ∷ polls_timer 20 10 2 ∷ checks 40 ∷ []

run_timers-unchecked_example :
    ((run_timers events fresh_timers).inner_tickets ≡ [])
    × ((run_timers events fresh_timers).task_queue ≡ 5 ∷ [])
    × (has 1 (due 40 (run_timers events fresh_timers).gs_tickets)
        ≡ (is_due 40 1 (waiting events) || has 1 (due 40 [])))
run_timers-unchecked_example = run_timers-unchecked events fresh_timers 40 1 refl

-- The owner waits with waker 7, then the task ends with 42.
abbrev finished : Join
finished = record spawned {
  inner = record { result = some 42; waker = none };
  progress = ended;
  last = some 7;
  woken = some 7;
}

finished_Joins : Joins 42 finished
unfolding poll polled set_result take_waker wake
finished_Joins =
    then _ _ (then _ _ (then _ _ fresh (polls spawned 7 refl)) (stores _ refl)) (wakes _ refl)

Joins-delivered_example :
    (finished.got ≡ some 42)
    ⊎ ((finished.woken ≡ finished.last) × ((poll 8 finished.inner).0 ≡ ready 42))
Joins-delivered_example = Joins-delivered 42 8 finished finished_Joins refl
