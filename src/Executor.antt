-- ===== src/Executor.antt =====
-- src/asy_nc/mod.rs: the executor of one processor, and the processors that give it tasks, as steps
-- between atomic accesses. `run` works with interrupts on but for the idle part, which has them off
-- until `enable_and_hlt` turns them on and halts in one instruction.
pub mod WakeUp
pub mod Join
use okots_os.Base.{
  ◌≡◌, ℕ, zero, suc, ◌+◌, ◌-◌, Bool, true, false, not, ◌&&◌, ◌||◌, ltb, ◌==◌, if◌then◌else◌,
}

-- Where `run` stands: before it takes a task; after it has taken one, with the queue locked; in the idle part, before the
-- queue is looked at, after it was empty, and after `noise` was off; halted.
pub data Phase : Type 0 where
  polling popped idle seen_empty quiet halted : Phase

-- `queued` is the length of the task queue. `pushed`, `noticed` and `sending` count the spawning
-- processors that have put their task in the queue, that have found `noise` set, and that are about
-- to send the interrupt; `ipi` is an interrupt that has not been taken yet.
pub record Core : Type 0 where
  pub queued : ℕ
  pub tickets_empty : Bool
  pub noise : Bool
  pub online : Bool
  pub phase : Phase
  pub pushed : ℕ
  pub noticed : ℕ
  pub sending : ℕ
  pub ipi : Bool

-- an executor that begins to run
abbrev pub start : Core
start = record {
  queued = 0;
  tickets_empty = true;
  noise = false;
  online = true;
  phase = polling;
  pushed = 0;
  noticed = 0;
  sending = 0;
  ipi = false;
}

abbrev pub interruptible : Phase → Bool
interruptible polling = true
interruptible popped = true
interruptible halted = true
interruptible p = false

abbrev pub queue_locked : Phase → Bool
queue_locked popped = true
queue_locked p = false

-- the phase after an interrupt
abbrev pub resumed : Phase → Phase
resumed halted = polling
resumed p = p

-- One atomic access of `run`, or an interrupt that its processor takes. The guard of
-- `task_queue` in the condition of `if let` lives to the end of the body, so the queue is locked
-- while the task is polled.
pub data Run : Core → Core → Type 0 where
  -- `run`: `pop_front`, with a task and without
  take_task :
      (s : Core) (n : ℕ)
      → s.phase ≡ polling
      → s.queued ≡ suc n
      → Run s (record s { queued = n; phase = popped })
  no_task : (s : Core) → s.phase ≡ polling → s.queued ≡ 0 → Run s (record s { phase = idle })
  -- `noise.store(false)`, and the poll of the task, during which the queue is locked
  clear_noise : (s : Core) → s.phase ≡ popped → Run s (record s { noise = false })
  poll_task : (s : Core) → s.phase ≡ popped → Run s (record s { phase = polling })
  -- `check_timers`
  fire_timers :
      (s : Core) (woken : ℕ) (tickets_empty : Bool)
      → s.phase ≡ polling
      → Run s (record s { queued = s.queued + woken; tickets_empty = tickets_empty })
  -- the idle part
  look :
      (s : Core)
      → s.phase ≡ idle
      → Run s
          (record s { phase = if (s.queued == 0) && s.tickets_empty then seen_empty else polling })
  swap_noise :
      (s : Core)
      → s.phase ≡ seen_empty
      → Run s (record s { noise = false; phase = if s.noise then polling else quiet })
  go_offline : (s : Core) → s.phase ≡ quiet → Run s (record s { online = false; phase = halted })
  go_online : (s : Core) → s.phase ≡ polling → Run s (record s { online = true })
  -- the interrupt is taken
  interrupt :
      (s : Core)
      → s.ipi ≡ true
      → interruptible s.phase ≡ true
      → Run s (record s { ipi = false; phase = resumed s.phase })

-- One atomic access of a processor that spawns, in any of the three ways: `spawn`,
-- `noise.swap(true)`, `online.load()` and
-- `send_fixed_ipi`.
pub data Spawn : Core → Core → Type 0 where
  push :
      (s : Core)
      → queue_locked s.phase ≡ false
      → Spawn s (record s { queued = s.queued + 1; pushed = s.pushed + 1 })
  raise_noise :
      (s : Core) (n : ℕ)
      → s.pushed ≡ suc n
      → s.noise ≡ false
      → Spawn s (record s { pushed = n; noise = true; sending = s.sending + 1 })
  find_noise :
      (s : Core) (n : ℕ)
      → s.pushed ≡ suc n
      → s.noise ≡ true
      → Spawn s (record s { pushed = n; noticed = s.noticed + 1 })
  load_online :
      (s : Core) (n : ℕ)
      → s.noticed ≡ suc n
      → Spawn s (record s { noticed = n; sending = if s.online then s.sending else s.sending + 1 })
  send : (s : Core) (n : ℕ) → s.sending ≡ suc n → Spawn s (record s { sending = n; ipi = true })

pub data Step : Core → Core → Type 0 where
  runs : (s t : Core) → Run s t → Step s t
  spawns : (s t : Core) → Spawn s t → Step s t

-- any number of steps from the start
pub data Reachable : Core → Type 0 where
  begin : Reachable start
  next : (s t : Core) → Reachable s → Step s t → Reachable t
