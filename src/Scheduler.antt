-- ===== src/Scheduler.antt =====
-- engine/inference/scheduler.py: admission control.  `admit` suspends at one place, the
-- semaphore, so it is two steps: `arrive` up to the `await`, and `resume` from it.
-- Clock readings are natural numbers of ticks, `ticks` to the second.
mod Permits
mod Queue
pub mod Invariant
pub mod Drain
pub mod Hint
mod Tests
pub use Permits.{
  Cause, timeout, disconnect, Future, pending, granted, cancelled, interrupted, Waiter, Semaphore,
  is_pending, is_holding, is_counted,
}
unfoldable pub use Permits.{
  locked, wake_up_next, wake_all, release_permit, join, cancel_waiter, leave,
}
use inference_engine.Prelude.{
  ℕ, ◌+◌, ◌-◌, ◌*◌, ◌/◌, max, Bool, true, false, ◌&&◌, Option, none, some, List, [], ◌∷◌, ◌++◌,
  ◌==◌, ltb, leb, if◌then◌else◌,
}

-- `SchedulerLease`: `ident` stands for the object's identity.
pub record Lease : Type 0 where
  pub ident : ℕ
  pub waited : ℕ
  pub released : Bool

-- The `reason` of `SchedulerSaturated`.
pub data Reason : Type 0 where
  draining queue_full queue_timeout : Reason

-- How a step of `admit` ends: it raises with a retry hint, returns a lease, waits for the
-- semaphore, or is cancelled with its task.
pub data Outcome : Type 0 where
  saturated : Reason → ℕ → Outcome
  leased : Lease → Outcome
  suspended : Outcome
  abandoned : Outcome

pub record Scheduler : Type 0 where
  pub max_concurrency : ℕ
  pub max_queue_depth : ℕ
  pub queue_timeout_ticks : ℕ
  pub sem : Semaphore
  pub is_draining : Bool
  pub idle : Bool
  pub in_use : ℕ
  pub waiters : ℕ
  pub admitted : ℕ
  pub rejected_queue_full : ℕ
  pub rejected_timeout : ℕ
  pub cancelled_total : ℕ
  pub slow_consumer : ℕ
  pub peak_in_use : ℕ
  pub peak_waiters : ℕ
  pub wait_total : ℕ
  pub wait_count : ℕ
  pub wait_max : ℕ
  pub wait_last : ℕ
  -- the lease objects handed out, in order
  pub leases : List Lease

-- `__init__`; `none` is the ValueError (the other two tests are on numbers below zero).
unfoldable pub create : ℕ → ℕ → ℕ → Option Scheduler
create max_concurrency max_queue_depth timeout_ticks =
    if ltb max_concurrency 1
    then none
    else some (record {
      max_concurrency = max_concurrency;
      max_queue_depth = max_queue_depth;
      queue_timeout_ticks = timeout_ticks;
      sem = record { value = max_concurrency; queue = [] };
      is_draining = false;
      idle = true;
      in_use = 0;
      waiters = 0;
      admitted = 0;
      rejected_queue_full = 0;
      rejected_timeout = 0;
      cancelled_total = 0;
      slow_consumer = 0;
      peak_in_use = 0;
      peak_waiters = 0;
      wait_total = 0;
      wait_count = 0;
      wait_max = 0;
      wait_last = 0;
      leases = [];
    })

-- `math.ceil(a / b)`
abbrev pub ceil_div : ℕ → ℕ → ℕ
ceil_div a b = (a + b - 1) / b

-- `_retry_after_hint`, in seconds
unfoldable pub retry_after_hint : ℕ → Scheduler → ℕ
retry_after_hint ticks s =
    if ltb 0 s.wait_count then max 1 (ceil_div s.wait_total (s.wait_count * ticks)) else 1

-- The rest of `admit` once the permit is held.
unfoldable pub grant_lease : ℕ → Scheduler → Scheduler × Outcome
grant_lease waited s =
    let lease : Lease = record { ident = s.admitted; waited = waited; released = false } in
    (
      record s {
        in_use = s.in_use + 1;
        idle = false;
        peak_in_use = max s.peak_in_use (s.in_use + 1);
        admitted = s.admitted + 1;
        wait_total = s.wait_total + waited;
        wait_count = s.wait_count + 1;
        wait_max = max s.wait_max waited;
        wait_last = waited;
        leases = s.leases ++ lease ∷ [];
      },
      leased lease,
    )

unfoldable pub reject_full : ℕ → Reason → Scheduler → Scheduler × Outcome
reject_full ticks reason s = (
  record s { rejected_queue_full = s.rejected_queue_full + 1 },
  saturated reason (retry_after_hint ticks s),
)

-- `admit` up to the semaphore: a refusal, a lease with no wait, or a place in the queue.
unfoldable pub arrive : ℕ → ℕ → ℕ → Scheduler → Scheduler × Outcome
unfolding grant_lease reject_full
arrive ticks ticket now s =
    if s.is_draining
    then reject_full ticks draining s
    else if locked s.sem && leb s.max_queue_depth s.waiters
    then reject_full ticks queue_full s
    else if locked s.sem
    then (
      record s {
        sem = join ticket now s.sem;
        waiters = s.waiters + 1;
        peak_waiters = max s.peak_waiters (s.waiters + 1);
      },
      suspended,
    )
    else grant_lease 0 (record s { sem = record s.sem { value = s.sem.value - 1 } })

-- The exception that reaches `admit` from the semaphore.
unfoldable pub leave_empty : ℕ → Cause → Scheduler → Scheduler × Outcome
leave_empty ticks timeout s = (
  record s { rejected_timeout = s.rejected_timeout + 1 },
  saturated queue_timeout (retry_after_hint ticks s),
)
leave_empty ticks disconnect s = (s, abandoned)

-- The waiter's coroutine runs again, with its future done.
unfoldable pub resume_waiter :
    ℕ → ℕ → Waiter → List Waiter → Future → Scheduler → Option (Scheduler × Outcome)
unfolding grant_lease leave_empty
resume_waiter ticks now w q pending s = none
resume_waiter ticks now w q granted s = some (
    grant_lease (now - w.started)
      (record s { sem = wake_all s.sem.value q; waiters = s.waiters - 1 }))
resume_waiter ticks now w q (cancelled c) s =
    some (leave_empty ticks c (record s { sem = wake_all s.sem.value q; waiters = s.waiters - 1 }))
resume_waiter ticks now w q (interrupted c) s =
    some (
      leave_empty ticks c
        (record s { sem = wake_all (s.sem.value + 1) q; waiters = s.waiters - 1 }))

-- `admit` from the semaphore on; `none` if nobody waits under the ticket or its future is not done.
unfoldable pub resume : ℕ → ℕ → ℕ → Scheduler → Option (Scheduler × Outcome)
unfolding resume_waiter
resume ticks ticket now s = elim (leave ticket s.sem.queue) [
  | none ↦ none
  | some (w, q) ↦ resume_waiter ticks now w q w.future s
]

-- The waiting task is cancelled; a timer runs only where the operator set a timeout.
unfoldable pub cancel : ℕ → Cause → Scheduler → Scheduler
cancel ticket timeout s =
    if ltb 0 s.queue_timeout_ticks
    then record s { sem = record s.sem { queue = cancel_waiter ticket timeout s.sem.queue } }
    else s
cancel ticket disconnect s = record s {
  sem = record s.sem { queue = cancel_waiter ticket disconnect s.sem.queue };
}

-- `Scheduler._release`
unfoldable pub release_slot : Bool → Scheduler → Scheduler
release_slot was_cancelled s =
    let left = if ltb 0 s.in_use then s.in_use - 1 else s.in_use in
    record s {
      in_use = left;
      cancelled_total = if was_cancelled then s.cancelled_total + 1 else s.cancelled_total;
      idle = if left == 0 then true else s.idle;
      sem = release_permit s.sem;
    }

-- Sets `_released` on the lease object; `none` if it was set already.
unfoldable pub mark_released : ℕ → List Lease → Option (List Lease)
mark_released i [] = none
mark_released i (l ∷ ls) =
    let rest = mark_released i ls in
    if l.ident == i
    then if l.released then none else some (record l { released = true } ∷ ls)
    else elim rest [ none ↦ none | some ls' ↦ some (l ∷ ls') ]

-- `SchedulerLease.release`
unfoldable pub release : ℕ → Bool → Scheduler → Scheduler
unfolding release_slot
release lease was_cancelled s = elim (mark_released lease s.leases) [
  | none ↦ s
  | some ls ↦ release_slot was_cancelled (record s { leases = ls })
]

unfoldable pub begin_drain : Scheduler → Scheduler
begin_drain s = record s { is_draining = true }

-- `wait_drained` returns at once on the first test, and otherwise waits for the `idle` event.
unfoldable pub is_drained : Scheduler → Bool
is_drained s = if s.in_use == 0 then true else s.idle

unfoldable pub note_slow_consumer : ℕ → Scheduler → Scheduler
note_slow_consumer waits s =
    if ltb 0 waits then record s { slow_consumer = s.slow_consumer + 1 } else s

-- What can happen to a scheduler between two suspensions of the event loop.
pub data Event : Type 0 where
  arrives resumes : ℕ → ℕ → Event
  cancels : ℕ → Cause → Event
  releases : ℕ → Bool → Event
  drains : Event
  notes : ℕ → Event

unfoldable pub handle : ℕ → Event → Scheduler → Scheduler
handle ticks (arrives t now) s = (arrive ticks t now s).0
handle ticks (resumes t now) s = elim (resume ticks t now s) [ none ↦ s | some r ↦ r.0 ]
handle ticks (cancels t c) s = cancel t c s
handle ticks (releases i b) s = release i b s
handle ticks drains s = begin_drain s
handle ticks (notes n) s = note_slow_consumer n s

unfoldable pub run : ℕ → List Event → Scheduler → Scheduler
run ticks [] s = s
run ticks (e ∷ es) s = run ticks es (handle ticks e s)
