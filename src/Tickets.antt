-- ===== src/Tickets.antt =====
-- src/asy_nc/mod.rs: the timers of a processor. A waker is known by its task, and a map from
-- deadlines to wakers is the list of its entries in order.
pub mod Due
use okots_os.Base.{ℕ, ◌+◌, Bool, true, false, List, [], ◌∷◌, ◌++◌, ltb, leb, ◌==◌, if◌then◌else◌}

abbrev pub Tickets : Type 0
Tickets = List (ℕ × List ℕ)

-- `entry(deadline).or_insert_with(Vec::new).push(waker)`
unfoldable pub push_waker : ℕ → ℕ → Tickets → Tickets
push_waker deadline waker [] = (deadline, waker ∷ []) ∷ []
push_waker deadline waker ((key, wakers) ∷ more) =
    if deadline == key
    then (key, wakers ++ waker ∷ []) ∷ more
    else if ltb deadline key
    then (deadline, waker ∷ []) ∷ (key, wakers) ∷ more
    else (key, wakers) ∷ push_waker deadline waker more

-- What timers touch on a processor: the timers of `read_gs().executor`, which is made by `default`,
-- and the queue and the timers of `inner` of the `Executor` that runs, which `Executor::new` makes.
pub record Timers : Type 0 where
  pub gs_tickets : Tickets
  pub inner_tickets : Tickets
  pub task_queue : List ℕ

-- `TimerFuture::poll`; true is `Ready`
unfoldable pub poll_timer : ℕ → ℕ → ℕ → Timers → Bool × Timers
unfolding push_waker
poll_timer now deadline waker s =
    if leb deadline now
    then (true, s)
    else (false, record s { gs_tickets = push_waker deadline waker s.gs_tickets })

-- the loop of `check_timers`: the queue and the timers that are left
unfoldable pub wake_due : ℕ → List ℕ → Tickets → List ℕ × Tickets
wake_due now queue [] = (queue, [])
wake_due now queue ((key, wakers) ∷ more) =
    let rest = wake_due now (queue ++ wakers) more in
    if leb key now then rest else (queue, (key, wakers) ∷ more)

unfoldable pub check_timers : ℕ → Timers → Timers
unfolding wake_due
check_timers now s =
    let (queue, tickets) = wake_due now s.task_queue s.inner_tickets in
    record s { inner_tickets = tickets; task_queue = queue }
