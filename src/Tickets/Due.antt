-- ===== src/Tickets/Due.antt =====
-- src/asy_nc/mod.rs: which timers `check_timers` finds, and where `TimerFuture` puts them.
use okots_os.Base.{
  subst, ℕ, ◌<◌, ◌≡◌, refl, sym, ap, ◌∙◌, Bool, false, ◌&&◌, ◌||◌, List, [], ◌∷◌, ◌++◌, All,
  append-nil, append_assoc, ltb, leb, ◌==◌, if◌then◌else◌, arith, ltb→lt, Bool-cases, inl, inr,
}
use okots_os.Tickets.{Tickets, push_waker, Timers, poll_timer, wake_due, check_timers}

-- The wakers of all entries that are due, and the other entries, without the use of the order.
abbrev pub due : ℕ → Tickets → List ℕ
due now [] = []
due now ((key, wakers) ∷ more) = if leb key now then wakers ++ due now more else due now more

abbrev pub later : ℕ → Tickets → Tickets
later now [] = []
later now ((key, wakers) ∷ more) =
    if leb key now then later now more else (key, wakers) ∷ later now more

abbrev IsBefore : ℕ → ℕ × List ℕ → Type 0
IsBefore key entry = key < entry.0

abbrev pub IsOrdered : Tickets → Type 0
IsOrdered [] = Unit
IsOrdered ((key, wakers) ∷ more) = All (IsBefore key) more × IsOrdered more

All-push_waker :
    (key deadline waker : ℕ) (t : Tickets)
    → key < deadline
    → All (IsBefore key) t
    → All (IsBefore key) (push_waker deadline waker t)
unfolding push_waker
All-push_waker key d w [] h a = (h, tt)
All-push_waker key d w ((k, ws) ∷ more) h a = ground (arith, All-push_waker key d w more h a.1)

All-sooner :
    (key sooner : ℕ) (t : Tickets) → sooner < key → All (IsBefore key) t → All (IsBefore sooner) t
All-sooner key d [] h a = tt
All-sooner key d (e ∷ more) h a = (omega (arith, a.0), All-sooner key d more h a.1)

push_waker-IsOrdered : (d w : ℕ) (t : Tickets) → IsOrdered t → IsOrdered (push_waker d w t)
unfolding push_waker
push_waker-IsOrdered d w [] o = (tt, tt)
push_waker-IsOrdered d w ((k, ws) ∷ more) o = elim (Bool-cases (d == k)) [
  | inl e ↦ rw e o
  | inr e ↦ elim (Bool-cases (ltb d k)) [
    | inl l ↦ rw (e, l) ((ltb→lt d k l, All-sooner k d more (ltb→lt d k l) o.0), o)
    | inr l ↦
        rw (e, l) (All-push_waker k d w more (ground arith) o.0, push_waker-IsOrdered d w more o.1)
  ]
]

none_due :
    (now key : ℕ) (t : Tickets)
    → now < key
    → All (IsBefore key) t
    → (due now t ≡ []) × (later now t ≡ t)
none_due now key [] h a = (refl, refl)
none_due now key ((k, ws) ∷ more) h a = ground (arith, none_due now key more h a.1)

wake_due-due :
    (now : ℕ) (queue : List ℕ) (t : Tickets)
    → IsOrdered t
    → wake_due now queue t ≡ (queue ++ due now t, later now t)
unfolding wake_due
wake_due-due now queue [] o = ap (λ q. (q, [])) (sym (append-nil queue))
wake_due-due now queue ((k, ws) ∷ more) o = elim (Bool-cases (leb k now)) [
  | inl e ↦ rw e (
      wake_due-due now (queue ++ ws) more o.1
      ∙ ap (λ q. (q, later now more)) (append_assoc queue ws (due now more)))
  | inr e ↦ ground (arith, none_due now k more (ground arith) o.0, append-nil queue)
]

abbrev pub has : ℕ → List ℕ → Bool
has w [] = false
has w (v ∷ vs) = (w == v) || has w vs

-- some timer of the waker is due
abbrev pub is_due : ℕ → ℕ → List (ℕ × ℕ) → Bool
is_due now w [] = false
is_due now w ((deadline, waker) ∷ more) = leb deadline now && (w == waker) || is_due now w more

has-append : (w : ℕ) (xs ys : List ℕ) → has w (xs ++ ys) ≡ has w xs || has w ys
has-append w [] ys = refl
has-append w (x ∷ xs) ys = ground (arith, has-append w xs ys)

has-due :
    (now w d v : ℕ) (t : Tickets)
    → has w (due now (push_waker d v t)) ≡ leb d now && (w == v) || has w (due now t)
unfolding push_waker
has-due now w d v [] = ground arith
has-due now w d v ((k, ws) ∷ more) = ground (
  arith,
  has-append w ws (due now more),
  has-append w (ws ++ v ∷ []) (due now more),
  has-append w ws (v ∷ []),
  has-append w ws (due now (push_waker d v more)),
  has-due now w d v more,
)

-- What happens to the timers of a processor: a timer is polled at some time, with its deadline and
-- its waker, or `run` checks them.
pub data Event : Type 0 where
  polls : ℕ → ℕ → ℕ → Event
  checks : ℕ → Event

abbrev pub run_timers : List Event → Timers → Timers
run_timers [] s = s
run_timers (polls now deadline waker ∷ es) s = run_timers es (poll_timer now deadline waker s).1
run_timers (checks now ∷ es) s = run_timers es (check_timers now s)

-- the timers that were told to wait
abbrev pub waiting : List Event → List (ℕ × ℕ)
waiting [] = []
waiting (polls now deadline waker ∷ es) =
    if leb deadline now then waiting es else (deadline, waker) ∷ waiting es
waiting (checks now ∷ es) = waiting es

poll_timer-cases :
    (now deadline waker : ℕ) (s : Timers)
    → (poll_timer now deadline waker s).1 ≡ (
        if leb deadline now
        then s
        else record s { gs_tickets = push_waker deadline waker s.gs_tickets })
unfolding poll_timer
poll_timer-cases now deadline waker s = elim (Bool-cases (leb deadline now)) [
  | inl e ↦ rw e refl
  | inr e ↦ rw e refl
]

abbrev IsLeft : ℕ → ℕ → List ℕ → Bool → Timers → Type 0
IsLeft at w queue found s =
    (s.inner_tickets ≡ []) × (s.task_queue ≡ queue) × (has w (due at s.gs_tickets) ≡ found)

abbrev found_in : ℕ → ℕ → List Event → Tickets → Bool
found_in at w es t = is_due at w (waiting es) || has w (due at t)

check_timers-idle : (now : ℕ) (s : Timers) → s.inner_tickets ≡ [] → check_timers now s ≡ s
unfolding check_timers wake_due
check_timers-idle now s e =
    ap
      (λ t.
        let (queue, tickets) = wake_due now s.task_queue t in
        record s { inner_tickets = tickets; task_queue = queue })
      e
    ∙ ap (λ t. record s { inner_tickets = t }) (sym e)

-- On an executor whose own timers are empty, as `new` makes them, and for any polls of timers and
-- checks in any order: its timers stay empty and its queue gets no waker. Every timer that was told
-- to wait is among the timers of `read_gs()` and stays there: at any time, a waker is due there
-- exactly when it was before or one of its timers is due.
pub run_timers-unchecked :
    (es : List Event) (s : Timers) (at w : ℕ)
    → s.inner_tickets ≡ []
    → ((run_timers es s).inner_tickets ≡ [])
      × ((run_timers es s).task_queue ≡ s.task_queue)
      × (has w (due at (run_timers es s).gs_tickets)
          ≡ (is_due at w (waiting es) || has w (due at s.gs_tickets)))
run_timers-unchecked [] s at w e = (e, refl, refl)
run_timers-unchecked (polls now d v ∷ es) s at w e = elim (Bool-cases (leb d now)) [
  | inl late ↦
      let step : (poll_timer now d v s).1 ≡ s = poll_timer-cases now d v s ∙ rw late refl in
      rw late (
        subst (λ x. IsLeft at w s.task_queue (found_in at w es s.gs_tickets) (run_timers es x))
          (sym step) (run_timers-unchecked es s at w e))
  | inr early ↦
      let s' : Timers = record s { gs_tickets = push_waker d v s.gs_tickets } in
      let step : (poll_timer now d v s).1 ≡ s' = poll_timer-cases now d v s ∙ rw early refl in
      let (q, same, r) = run_timers-unchecked es s' at w e in
      rw early (
        subst
          (λ x.
            IsLeft at w s.task_queue
              (leb d at && (w == v) || is_due at w (waiting es) || has w (due at s.gs_tickets))
              (run_timers es x))
          (sym step) (q, same, r ∙ ground (arith, has-due at w d v s.gs_tickets)))
]
run_timers-unchecked (checks now ∷ es) s at w e =
    subst (λ x. IsLeft at w s.task_queue (found_in at w es s.gs_tickets) (run_timers es x))
      (sym (check_timers-idle now s e)) (run_timers-unchecked es s at w e)
