-- ===== src/Scheduler/Drain.antt =====
-- Draining, releasing and the answers of an arrival (engine/inference/scheduler.py).
use inference_engine.Prelude.{
  ℕ, ◌+◌, ◌≤◌, ◌<◌, ◌≡◌, Bool, true, false, none, some, List, [], ◌∷◌, arith, count, Option-cases,
  inl, inr, ◌⊎◌,
}
use inference_engine.Scheduler.Queue.{LeftBehind, leave-LeftBehind}
use inference_engine.Scheduler.Invariant.{IsValid}
use inference_engine.Scheduler.{
  timeout, disconnect, Future, pending, granted, cancelled, interrupted, Waiter, is_pending,
  is_holding, Outcome, saturated, draining, queue_full, queue_timeout, abandoned, leased, suspended,
  Lease, Scheduler, grant_lease, reject_full, arrive, leave_empty, resume_waiter, resume, cancel,
  release_slot, mark_released, leave, release, begin_drain, note_slow_consumer, Event, handle,
}

mark_released_twice :
    (i : ℕ) (ls ls' : List Lease) → mark_released i ls ≡ some ls' → mark_released i ls' ≡ none
unfolding mark_released
mark_released_twice i [] ls' e = cc
mark_released_twice i (l ∷ ls) ls' e = elim (Option-cases (mark_released i ls)) [
  | inl none_left ↦ ground arith
  | inr (rest, found) ↦ ground (arith, mark_released_twice i ls rest found)
]

-- Releasing a lease again changes nothing, whatever the second call says of cancellation.
pub release-release :
    (i : ℕ) (a b : Bool) (s : Scheduler) → release i b (release i a s) ≡ release i a s
unfolding release release_slot
release-release i a b s = elim (Option-cases (mark_released i s.leases)) [
  | inl e ↦ ground arith
  | inr (ls, e) ↦ ground (arith, mark_released_twice i s.leases ls e)
]

resume_waiter_load :
    (ticks now : ℕ) (w : Waiter) (q : List Waiter) (f : Future) (s : Scheduler)
    (r : Scheduler × Outcome)
    → 0 < s.waiters
    → resume_waiter ticks now w q f s ≡ some r
    → (r.0.is_draining ≡ s.is_draining) × (r.0.in_use + r.0.waiters ≤ s.in_use + s.waiters)
unfolding resume_waiter grant_lease leave_empty
resume_waiter_load ticks now w q pending s r h e = cc
resume_waiter_load ticks now w q granted s r h e = ground arith
resume_waiter_load ticks now w q (cancelled c) s r h e = ground arith
resume_waiter_load ticks now w q (interrupted c) s r h e = ground arith

resume_load :
    (ticks t now : ℕ) (s : Scheduler) (r : Scheduler × Outcome)
    → IsValid s
    → resume ticks t now s ≡ some r
    → (r.0.is_draining ≡ s.is_draining) × (r.0.in_use + r.0.waiters ≤ s.in_use + s.waiters)
unfolding resume
resume_load ticks t now s r h e = elim (Option-cases (leave t s.sem.queue)) [
  | inl gone ↦ ground arith
  | inr (x, found) ↦
      let l : LeftBehind s.sem.queue (some x) = rw found at (leave-LeftBehind t s.sem.queue) in
      resume_waiter_load ticks now x.0 x.1 x.0.future s r (omega (arith, h.waiting, l.2))
        (ground arith)
]

-- Once a drain has begun no event adds work: what runs and what waits can only become less, and
-- the drain is never taken back.
pub handle_drains :
    (ticks : ℕ) (e : Event) (s : Scheduler)
    → IsValid s
    → s.is_draining ≡ true
    → ((handle ticks e s).is_draining ≡ true)
      × ((handle ticks e s).in_use + (handle ticks e s).waiters ≤ s.in_use + s.waiters)
unfolding handle arrive reject_full cancel release release_slot begin_drain note_slow_consumer
handle_drains ticks (Event.arrives t now) s h d = ground arith
handle_drains ticks (Event.resumes t now) s h d = elim (Option-cases (resume ticks t now s)) [
  | inl e ↦ ground arith
  | inr (r, e) ↦ ground (arith, resume_load ticks t now s r h e)
]
handle_drains ticks (Event.cancels t timeout) s h d = ground arith
handle_drains ticks (Event.cancels t disconnect) s h d = ground arith
handle_drains ticks (Event.releases i b) s h d = ground arith
handle_drains ticks Event.drains s h d = ground arith
handle_drains ticks (Event.notes n) s h d = ground arith

-- No permit is free, or a request is in the queue that still waits or has been woken and not run.
abbrev pub IsAhead : Scheduler → Type 0
IsAhead s = (s.sem.value ≡ 0) ⊎ (0 < count is_pending s.sem.queue + count is_holding s.sem.queue)

-- What an outcome of `arrive` tells of the scheduler before (`s`) and after (`s'`).
abbrev pub Answers : Scheduler → Scheduler → Outcome → Type 0
Answers s s' (saturated draining hint) =
    (s.is_draining ≡ true) × (s'.in_use ≡ s.in_use) × (s'.waiters ≡ s.waiters)
Answers s s' (saturated queue_full hint) =
    (s.is_draining ≡ false)
    × (s.max_queue_depth ≡ s.waiters)
    × IsAhead s
    × (s'.in_use ≡ s.in_use)
    × (s'.waiters ≡ s.waiters)
Answers s s' (saturated queue_timeout hint) = ⊥
Answers s s' (leased l) =
    (s.is_draining ≡ false)
    × (count is_pending s.sem.queue ≡ 0)
    × (count is_holding s.sem.queue ≡ 0)
    × (s'.in_use ≡ s.in_use + 1)
    × (s'.in_use ≤ s.max_concurrency)
    × (l.waited ≡ 0)
Answers s s' suspended =
    (s.is_draining ≡ false)
    × (s.waiters < s.max_queue_depth)
    × IsAhead s
    × (s'.in_use ≡ s.in_use)
    × (s'.waiters ≡ s.waiters + 1)
Answers s s' abandoned = ⊥

abbrev Told : Scheduler → Scheduler × Outcome → Type 0
Told s r = Answers s r.0 r.1
