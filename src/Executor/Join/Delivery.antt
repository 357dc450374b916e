-- ===== src/Executor/Join/Delivery.antt =====
-- src/asy_nc/mod.rs: the owner of a join handle gets the result, and does not wait for ever.
use okots_os.Base.{ℕ, ◌≡◌, ◌⊎◌, inl, inr, refl, sym, none, some, subst, arith}
use okots_os.Executor.Join.{
  JoinInner, Poll, ready, pending, poll, set_result, take_waker, Progress, running, stored, ended,
  Join, polled, wake, JoinStep, polls, stores, wakes, Joins, fresh, then,
}

-- The result has been returned, or it is there.
abbrev pub IsReady : ℕ → Join → Type 0
IsReady res s =
    ((s.got ≡ some res) × (s.inner.result ≡ none)) ⊎ ((s.got ≡ none) × (s.inner.result ≡ some res))

-- where the last waker is, and the result
abbrev IsSound : Progress → ℕ → Join → Type 0
IsSound running res s = (s.got ≡ none) × (s.inner.result ≡ none) × (s.inner.waker ≡ s.last)
IsSound stored res s = IsReady res s × (s.inner.waker ≡ s.last)
IsSound ended res s = IsReady res s × (s.woken ≡ s.last)

poll-some :
    (w res : ℕ) (i : JoinInner)
    → i.result ≡ some res
    → poll w i ≡ (ready res, record i { result = none })
unfolding poll
poll-some w res i r = rw r refl

poll-none :
    (w : ℕ) (i : JoinInner) → i.result ≡ none → poll w i ≡ (pending, record i { waker = some w })
unfolding poll
poll-none w i r = rw r refl

polls-IsSound :
    (p : Progress) (res w : ℕ) (s : Join)
    → s.got ≡ none
    → IsSound p res s
    → IsSound p res (polled w s (poll w s.inner))
unfolding polled
polls-IsSound running res w s g (h, r, l) = rw (poll-none w s.inner r) (g, r, refl)
polls-IsSound stored res w s g (inl (h, r), l) = absurd (ground arith)
polls-IsSound stored res w s g (inr (h, r), l) =
    rw (poll-some w res s.inner r) (inl (refl, refl), l)
polls-IsSound ended res w s g (inl (h, r), l) = absurd (ground arith)
polls-IsSound ended res w s g (inr (h, r), l) = rw (poll-some w res s.inner r) (inl (refl, refl), l)

polled-progress : (w : ℕ) (s : Join) (q : Poll × JoinInner) → (polled w s q).progress ≡ s.progress
unfolding polled
polled-progress w s (ready res, i) = refl
polled-progress w s (pending, i) = refl

JoinStep-IsSound :
    (res : ℕ) (s t : Join) → JoinStep res s t → IsSound s.progress res s → IsSound t.progress res t
unfolding set_result take_waker wake
JoinStep-IsSound res _ _ (polls s w g) h =
    subst (λ q. IsSound q res (polled w s (poll w s.inner)))
      (sym (polled-progress w s (poll w s.inner))) (polls-IsSound s.progress res w s g h)
JoinStep-IsSound res _ _ (stores s p) h =
    let (g, _, l) = subst (λ q. IsSound q res s) p h in (inr (g, refl), l)
JoinStep-IsSound res _ _ (wakes s p) h = subst (λ q. IsSound q res s) p h

Joins-IsSound : (res : ℕ) (s : Join) → Joins res s → IsSound s.progress res s
Joins-IsSound res _ fresh = (refl, refl, refl)
Joins-IsSound res _ (then s t r st) = JoinStep-IsSound res s t st (Joins-IsSound res s r)

-- After any polls of a join handle, by any wakers, before, between and after the steps that end its
-- task, in any order: once the task has ended, the handle has returned the result, or the next poll
-- returns it and the waker of the last poll that had to wait has been woken.
pub Joins-delivered :
    (res w : ℕ) (s : Join)
    → Joins res s
    → s.progress ≡ ended
    → (s.got ≡ some res) ⊎ ((s.woken ≡ s.last) × ((poll w s.inner).0 ≡ ready res))
unfolding poll
Joins-delivered res w s r p =
    let (h, l) = subst (λ q. IsSound q res s) p (Joins-IsSound res s r) in
    elim h as (λ _. (s.got ≡ some res) ⊎ ((s.woken ≡ s.last) × ((poll w s.inner).0 ≡ ready res))) [
      | inl k ↦ inl k.0
      | inr k ↦ inr (l, rw k.1 refl)
    ]
