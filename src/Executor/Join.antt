-- ===== src/Executor/Join.antt =====
-- src/asy_nc/mod.rs: `JoinHandle` and the end of the future that `spawn` wraps, on any processors.
-- The lock of `data` is held over a whole `poll`; the end of the task is two steps, one for each
-- lock. A waker is a number.
pub mod Delivery
use okots_os.Base.{ℕ, ◌≡◌, Option, none, some}

-- `result` is the field `data` of the source.
pub record JoinInner : Type 0 where
  pub result : Option ℕ
  pub waker : Option ℕ

pub data Poll : Type 0 where
  ready : ℕ → Poll
  pending : Poll

-- `JoinHandle::poll`, with the waker of its context
unfoldable pub poll : ℕ → JoinInner → Poll × JoinInner
poll w i = elim i.result as (λ r. Poll × JoinInner) [
  | some res ↦ (ready res, record i { result = none })
  | none ↦ (pending, record i { waker = some w })
]

-- `*inner_clone.data.lock() = Some(res)`
unfoldable pub set_result : ℕ → JoinInner → JoinInner
set_result res i = record i { result = some res }

-- `inner_clone.waker.lock().take()`
unfoldable pub take_waker : JoinInner → Option ℕ × JoinInner
take_waker i = (i.waker, record i { waker = none })

-- where the wrapped future stands: it awaits the task; the result is stored; it has ended
pub data Progress : Type 0 where
  running stored ended : Progress

-- `last` is the waker of the last poll that was told to wait, `woken` the waker that the end of the
-- task has woken, and `got` what the handle has returned.
pub record Join : Type 0 where
  pub inner : JoinInner
  pub progress : Progress
  pub last : Option ℕ
  pub woken : Option ℕ
  pub got : Option ℕ

-- `spawn`: the two fresh locks
abbrev pub spawned : Join
spawned = record {
  inner = record { result = none; waker = none };
  progress = running;
  last = none;
  woken = none;
  got = none;
}

-- what the owner of the handle has after a poll
unfoldable pub polled : ℕ → Join → Poll × JoinInner → Join
polled w s (ready res, i) = record s { inner = i; got = some res }
polled w s (pending, i) = record s { inner = i; last = some w }

unfoldable pub wake : Join → Option ℕ × JoinInner → Join
wake s (w, i) = record s { inner = i; woken = w; progress = ended }

-- The owner polls until it has the result; the task ends with `res`.
pub data JoinStep (res : ℕ) : Join → Join → Type 0 where
  polls : (s : Join) (w : ℕ) → s.got ≡ none → JoinStep res s (polled w s (poll w s.inner))
  stores :
      (s : Join)
      → s.progress ≡ running
      → JoinStep res s (record s { inner = set_result res s.inner; progress = stored })
  wakes : (s : Join) → s.progress ≡ stored → JoinStep res s (wake s (take_waker s.inner))

pub data Joins (res : ℕ) : Join → Type 0 where
  fresh : Joins res spawned
  then : (s t : Join) → Joins res s → JoinStep res s t → Joins res t
