-- ===== src/Scheduler/Permits.antt =====
-- `asyncio.Semaphore`, as engine/inference/scheduler.py uses it (CPython 3.12's fair semaphore):
-- a number of free permits and a FIFO of futures, one for each coroutine inside `acquire`.
-- A future is pending, granted (it has a result), or its task was cancelled before or after that.
use inference_engine.Prelude.{
  ℕ, zero, suc, ◌+◌, Bool, true, false, ◌||◌, Option, none, some, List, [], ◌∷◌, ◌++◌, any, ◌==◌,
  if◌then◌else◌,
}

-- Why a waiting task is cancelled: `asyncio.wait_for` ran out, or the client went away.
pub data Cause : Type 0 where
  timeout disconnect : Cause

pub data Future : Type 0 where
  pending : Future
  granted : Future
  cancelled : Cause → Future
  interrupted : Cause → Future

-- `ticket` names the waiting coroutine, `started` is its `wait_start`.
pub record Waiter : Type 0 where
  pub ticket : ℕ
  pub started : ℕ
  pub future : Future

pub record Semaphore : Type 0 where
  pub value : ℕ
  pub queue : List Waiter

abbrev pub is_pending : Waiter → Bool
is_pending w = elim w.future [
  | pending ↦ true
  | granted ↦ false
  | cancelled _ ↦ false
  | interrupted _ ↦ false
]

-- The future holds a permit that its task has not yet taken over or given back.
abbrev pub is_holding : Waiter → Bool
is_holding w = elim w.future [
  | pending ↦ false
  | granted ↦ true
  | cancelled _ ↦ false
  | interrupted _ ↦ true
]

-- `not w.cancelled()`
abbrev pub is_counted : Waiter → Bool
is_counted w = elim w.future [
  | pending ↦ true
  | granted ↦ true
  | cancelled _ ↦ false
  | interrupted _ ↦ true
]

-- `Semaphore.locked`
unfoldable pub locked : Semaphore → Bool
locked s = s.value == 0 || any is_counted s.queue

-- `_wake_up_next`: the first future that is not done gets a result; `none` if there is none.
unfoldable pub wake_up_next : List Waiter → Option (List Waiter)
wake_up_next [] = none
wake_up_next (w ∷ q) =
    let rest = wake_up_next q in
    if is_pending w
    then some (record w { future = granted } ∷ q)
    else elim rest [ none ↦ none | some q' ↦ some (w ∷ q') ]

-- `while self._value > 0: if not self._wake_up_next(): break`
unfoldable pub wake_all : ℕ → List Waiter → Semaphore
wake_all zero q = record { value = 0; queue = q }
wake_all (suc v) q = elim (wake_up_next q) [
  | none ↦ record { value = suc v; queue = q }
  | some q' ↦ wake_all v q'
]

-- `Semaphore.release`
unfoldable pub release_permit : Semaphore → Semaphore
release_permit s = elim (wake_up_next s.queue) [
  | none ↦ record s { value = s.value + 1 }
  | some q' ↦ record s { queue = q' }
]

-- The first half of `acquire` for a coroutine that has to wait: its future joins the queue.
unfoldable pub join : ℕ → ℕ → Semaphore → Semaphore
join ticket now s = record s {
  queue = s.queue ++ record { ticket = ticket; started = now; future = pending } ∷ [];
}

abbrev pub interrupt : Cause → Future → Future
interrupt c pending = cancelled c
interrupt c granted = interrupted c
interrupt c (cancelled d) = cancelled d
interrupt c (interrupted d) = interrupted d

-- `task.cancel()` on the coroutine that waits under the ticket.
unfoldable pub cancel_waiter : ℕ → Cause → List Waiter → List Waiter
cancel_waiter t c [] = []
cancel_waiter t c (w ∷ q) =
    if w.ticket == t
    then record w { future = interrupt c w.future } ∷ q
    else w ∷ cancel_waiter t c q

-- `self._waiters.remove(fut)`: the waiter under the ticket, and the queue without it.
unfoldable pub leave : ℕ → List Waiter → Option (Waiter × List Waiter)
leave t [] = none
leave t (w ∷ q) =
    let rest = leave t q in
    if w.ticket == t
    then some (w, q)
    else elim rest [ none ↦ none | some (x, q') ↦ some (x, w ∷ q') ]
