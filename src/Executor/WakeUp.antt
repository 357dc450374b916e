-- ===== src/Executor/WakeUp.antt =====
-- src/asy_nc/mod.rs: a processor that has a task does not sleep through it.
use okots_os.Base.{
  ◌+◌, ◌<◌, ◌≡◌, ◌⊎◌, inl, inr, refl, Bool, true, false, ◌&&◌, ◌==◌, if◌then◌else◌, arith, subst,
}
use okots_os.Executor.{
  Run, Spawn, runs, spawns, Phase, polling, popped, idle, seen_empty, quiet, halted, Core,
  interruptible, resumed, Step, take_task, no_task, clear_noise, poll_task, fire_timers, look,
  swap_noise, go_offline, go_online, interrupt, push, raise_noise, find_noise, load_online, send,
  Reachable, begin, next,
}

-- A task that `run` has not seen is announced by `noise`, or its processor is about to set it.
abbrev pub IsAnnounced : Core → Type 0
IsAnnounced s = (s.queued ≡ 0) ⊎ (0 < s.pushed) ⊎ (s.noise ≡ true)

-- `noise` that `run` has not seen comes with the interrupt.
abbrev pub IsSignalled : Core → Type 0
IsSignalled s = (s.noise ≡ false) ⊎ (0 < s.sending) ⊎ (s.ipi ≡ true)

abbrev pub IsAwake : Phase → Core → Type 0
IsAwake polling s = Unit
IsAwake popped s = Unit
IsAwake idle s = Unit
IsAwake seen_empty s = IsAnnounced s
IsAwake quiet s = IsAnnounced s × IsSignalled s
IsAwake halted s = IsAnnounced s × IsSignalled s

-- a step of another processor
elsewhere-IsAwake :
    (p : Phase) (s t : Core)
    → (IsAnnounced s → IsAnnounced t)
    → (IsSignalled s → IsSignalled t)
    → IsAwake p s
    → IsAwake p t
elsewhere-IsAwake polling s t f g h = tt
elsewhere-IsAwake popped s t f g h = tt
elsewhere-IsAwake idle s t f g h = tt
elsewhere-IsAwake seen_empty s t f g h = f h
elsewhere-IsAwake quiet s t f g h = (f h.0, g h.1)
elsewhere-IsAwake halted s t f g h = (f h.0, g h.1)

resumed-IsAwake : (p : Phase) (s : Core) → interruptible p ≡ true → IsAwake (resumed p) s
resumed-IsAwake polling s i = tt
resumed-IsAwake popped s i = tt
resumed-IsAwake halted s i = tt
resumed-IsAwake idle s i = absurd (ground arith)
resumed-IsAwake seen_empty s i = absurd (ground arith)
resumed-IsAwake quiet s i = absurd (ground arith)

looked :
    (b : Bool) (s : Core)
    → (b ≡ true → s.queued ≡ 0)
    → IsAwake
        (if b then seen_empty else polling)
        (record s { phase = if b then seen_empty else polling })
looked true s f = inl (f refl)
looked false s f = tt

swapped :
    (b : Bool) (s : Core)
    → s.noise ≡ b
    → IsAnnounced s
    → IsAwake
        (if b then polling else quiet)
        (record s { noise = false; phase = if b then polling else quiet })
swapped true s e h = tt
swapped false s e h = (ground arith, inl refl)

Run-IsAwake : (s t : Core) → Run s t → IsAwake s.phase s → IsAwake t.phase t
Run-IsAwake _ _ (take_task s n p q) h = tt
Run-IsAwake _ _ (no_task s p q) h = tt
Run-IsAwake _ _ (clear_noise s p) h = rw p tt
Run-IsAwake _ _ (poll_task s p) h = tt
Run-IsAwake _ _ (fire_timers s woken e p) h = rw p tt
Run-IsAwake _ _ (look s p) h = looked ((s.queued == 0) && s.tickets_empty) s (λ e. ground arith)
Run-IsAwake _ _ (swap_noise s p) h = swapped s.noise s refl (subst (λ q. IsAwake q s) p h)
Run-IsAwake _ _ (go_offline s p) h = subst (λ q. IsAwake q s) p h
Run-IsAwake _ _ (go_online s p) h = rw p tt
Run-IsAwake _ _ (interrupt s i p) h =
    resumed-IsAwake s.phase (record s { ipi = false; phase = resumed s.phase }) p

Spawn-IsAwake : (s t : Core) → Spawn s t → IsAwake s.phase s → IsAwake t.phase t
Spawn-IsAwake _ _ (push s free) h =
    elsewhere-IsAwake s.phase s (record s { queued = s.queued + 1; pushed = s.pushed + 1 })
      (λ f. inr (inl (omega arith))) (λ g. g) h
Spawn-IsAwake _ _ (raise_noise s n p q) h =
    elsewhere-IsAwake s.phase s (record s { pushed = n; noise = true; sending = s.sending + 1 })
      (λ f. inr (inr refl)) (λ g. inr (inl (omega arith))) h
Spawn-IsAwake _ _ (find_noise s n p q) h =
    elsewhere-IsAwake s.phase s (record s { pushed = n; noticed = s.noticed + 1 })
      (λ f. inr (inr q)) (λ g. g) h
Spawn-IsAwake _ _ (load_online s n p) h =
    elsewhere-IsAwake s.phase s
      (record s { noticed = n; sending = if s.online then s.sending else s.sending + 1 }) (λ f. f)
      (λ g. ground arith) h
Spawn-IsAwake _ _ (send s n p) h =
    elsewhere-IsAwake s.phase s (record s { sending = n; ipi = true }) (λ f. f)
      (λ g. inr (inr refl)) h

Step-IsAwake : (s t : Core) → Step s t → IsAwake s.phase s → IsAwake t.phase t
Step-IsAwake _ _ (runs s t r) h = Run-IsAwake s t r h
Step-IsAwake _ _ (spawns s t r) h = Spawn-IsAwake s t r h

Reachable-IsAwake : (s : Core) → Reachable s → IsAwake s.phase s
Reachable-IsAwake _ begin = tt
Reachable-IsAwake _ (next s t r st) = Step-IsAwake s t st (Reachable-IsAwake s r)

-- After any steps of the executor, of its tasks and of any number of processors that spawn onto it,
-- in any order: if the executor has halted while its queue is not empty, then an
-- interrupt is waiting to be taken, or a spawning processor has not finished and has still to set
-- `noise` or to send the interrupt.
pub Reachable-wakes :
    (s : Core)
    → Reachable s
    → s.phase ≡ halted
    → (s.queued ≡ 0) ⊎ (s.ipi ≡ true) ⊎ (0 < s.pushed) ⊎ (0 < s.sending)
Reachable-wakes s r p = ground (arith, subst (λ q. IsAwake q s) p (Reachable-IsAwake s r))
