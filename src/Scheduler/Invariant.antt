-- ===== src/Scheduler/Invariant.antt =====
-- The invariant of the scheduler, kept by every event in every order.
use inference_engine.Prelude.{
  ℕ, suc, ◌+◌, ◌*◌, ◌≤◌, ◌<◌, ◌≡◌, refl, Bool, false, not, Option, none, some, List, [], ◌∷◌, arith,
  length, count, count-append, length-append, Option-cases, inl, inr, ◌==◌, if-rule, some_inj, leb,
  ◌&&◌, ◌-◌, subst,
}
use inference_engine.Scheduler.Queue.{
  IsFifo, wake_all_counts, release_permit_counts, join_counts, cancel_waiter_counts, LeftBehind,
  leave-LeftBehind, not-locked, locked-none_waiting, locked-woken,
}
use inference_engine.Scheduler.{
  Cause, timeout, disconnect, Future, pending, granted, cancelled, interrupted, Waiter, is_pending,
  is_holding, Outcome, locked, Lease, Scheduler, create, grant_lease, reject_full, arrive,
  leave_empty, resume_waiter, resume, cancel, release_slot, mark_released, release, begin_drain,
  note_slow_consumer, Event, handle, run, wake_all, leave,
}

-- A lease that its caller has not released.
abbrev pub is_live : Lease → Bool
is_live l = not l.released

-- What holds while `spare` permits are in the hands of the step that runs.
pub record Balances (spare : ℕ) (s : Scheduler) : Type 0 where
  -- every permit is free, on its way to a woken waiter, or in use
  pub permits : s.sem.value + count is_holding s.sem.queue + s.in_use + spare ≡ s.max_concurrency
  -- a free permit that somebody waits for is on its way: a waiter that was woken before has yet
  -- to run, and will pass it on
  pub busy : 0 < s.sem.value → 0 < count is_pending s.sem.queue → 0 < count is_holding s.sem.queue
  pub fifo : IsFifo s.sem.queue
  pub waiting : s.waiters ≡ length s.sem.queue
  pub live : s.in_use ≡ count is_live s.leases
  pub idle : s.idle ≡ (s.in_use == 0)
  pub depth : s.peak_waiters ≤ s.max_queue_depth
  pub waiters_peak : s.waiters ≤ s.peak_waiters
  pub peak : s.peak_in_use ≤ s.max_concurrency
  pub in_use_peak : s.in_use ≤ s.peak_in_use
  pub handed_out : s.admitted ≡ length s.leases
  pub samples : s.wait_count ≡ s.admitted
  pub longest : s.wait_total ≤ s.wait_count * s.wait_max

-- What holds between any two events.
abbrev pub IsValid : Scheduler → Type 0
IsValid s = Balances 0 s

pub create-IsValid : (m d t : ℕ) (s : Scheduler) → create m d t ≡ some s → IsValid s
unfolding create
create-IsValid m d t s h = ground arith

pub grant_lease-IsValid :
    (waited : ℕ) (s : Scheduler) → Balances 1 s → IsValid (grant_lease waited s).0
unfolding grant_lease
grant_lease-IsValid waited s h =
    let lease : Lease = record { ident = s.admitted; waited = waited; released = false } in
    record {
      permits = omega (arith, h.permits);
      busy = h.busy;
      fifo = h.fifo;
      waiting = h.waiting;
      live = omega (arith, h.live, count-append is_live s.leases (lease ∷ []));
      idle = ground arith;
      depth = h.depth;
      waiters_peak = h.waiters_peak;
      peak = omega (arith, h.permits, h.peak);
      in_use_peak = omega arith;
      handed_out = omega (arith, h.handed_out, length-append s.leases (lease ∷ []));
      samples = omega (arith, h.samples);
      longest = grind (arith, h.longest);
    }

-- A step of `admit` leaves a valid scheduler, whatever its outcome.
abbrev Ends : Scheduler × Outcome → Type 0
Ends r = IsValid r.0

pub arrive-IsValid :
    (ticks t now : ℕ) (s : Scheduler) → IsValid s → IsValid (arrive ticks t now s).0
unfolding arrive reject_full
arrive-IsValid ticks t now s h =
    if-rule Ends s.is_draining (λ _. ground arith)
      λ _.
        if-rule Ends (locked s.sem && leb s.max_queue_depth s.waiters) (λ _. ground arith)
          λ room.
            if-rule Ends (locked s.sem)
              (λ wait. ground (arith, join_counts t now s.sem, locked-woken s.sem))
              λ free.
                grant_lease-IsValid 0 (record s { sem = record s.sem { value = s.sem.value - 1 } })
                  (ground (arith, not-locked s.sem, locked-none_waiting s.sem))

leave_empty-IsValid :
    (ticks : ℕ) (c : Cause) (s : Scheduler) → IsValid s → IsValid (leave_empty ticks c s).0
unfolding leave_empty
leave_empty-IsValid ticks timeout s h = ground arith
leave_empty-IsValid ticks disconnect s h = h

-- What a waiter leaves behind, with its own permit (if it held one) in the hands of its task.
left_behind :
    (v spare : ℕ) (w : Waiter) (q : List Waiter) (s : Scheduler)
    → IsValid s
    → LeftBehind s.sem.queue (some (w, q))
    → v + spare + count is_holding q ≡ s.sem.value + count is_holding s.sem.queue
    → Balances spare (record s { sem = wake_all v q; waiters = s.waiters - 1 })
left_behind v spare w q s h l e = ground (arith, wake_all_counts v q)

resume_waiter-IsValid :
    (ticks now : ℕ) (w : Waiter) (q : List Waiter) (f : Future) (s : Scheduler)
    → IsValid s
    → w.future ≡ f
    → LeftBehind s.sem.queue (some (w, q))
    → (r : Scheduler × Outcome) → resume_waiter ticks now w q f s ≡ some r
    → Ends r
unfolding resume_waiter
resume_waiter-IsValid ticks now w q pending s h wf l r e = cc
resume_waiter-IsValid ticks now w q granted s h wf l r e = subst Ends (some_inj _ _ e) (
    grant_lease-IsValid (now - w.started) _
      (left_behind s.sem.value 1 w q s h l (ground (arith, wf))))
resume_waiter-IsValid ticks now w q (cancelled c) s h wf l r e =
    subst Ends (some_inj _ _ e)
      (leave_empty-IsValid ticks c _ (left_behind s.sem.value 0 w q s h l (ground (arith, wf))))
resume_waiter-IsValid ticks now w q (interrupted c) s h wf l r e =
    subst Ends (some_inj _ _ e) (
      leave_empty-IsValid ticks c _
        (left_behind (s.sem.value + 1) 0 w q s h l (ground (arith, wf))))

pub resume-IsValid :
    (ticks t now : ℕ) (s : Scheduler) (r : Scheduler × Outcome)
    → IsValid s
    → resume ticks t now s ≡ some r
    → Ends r
unfolding resume
resume-IsValid ticks t now s r h e = elim (Option-cases (leave t s.sem.queue)) [
  | inl gone ↦ ground arith
  | inr (x, found) ↦
      resume_waiter-IsValid ticks now x.0 x.1 x.0.future s h refl
        (rw found at (leave-LeftBehind t s.sem.queue)) r (ground arith)
]

pub cancel-IsValid : (t : ℕ) (c : Cause) (s : Scheduler) → IsValid s → IsValid (cancel t c s)
unfolding cancel
cancel-IsValid t timeout s h = ground (arith, cancel_waiter_counts t timeout s.sem.queue)
cancel-IsValid t disconnect s h = ground (arith, cancel_waiter_counts t disconnect s.sem.queue)

abbrev Marked : List Lease → Option (List Lease) → Type 0
Marked ls none = Unit
Marked ls (some ls') = (count is_live ls ≡ suc (count is_live ls')) × (length ls' ≡ length ls)

mark_released-Marked : (i : ℕ) (ls : List Lease) → Marked ls (mark_released i ls)
unfolding mark_released
mark_released-Marked i [] = tt
mark_released-Marked i (l ∷ ls) = ground (arith, mark_released-Marked i ls)

release_slot-IsValid :
    (b : Bool) (s : Scheduler) (ls : List Lease)
    → IsValid s
    → Marked s.leases (some ls)
    → IsValid (release_slot b (record s { leases = ls }))
unfolding release_slot
release_slot-IsValid b s ls h m = ground (arith, release_permit_counts s.sem)

pub release-IsValid : (i : ℕ) (b : Bool) (s : Scheduler) → IsValid s → IsValid (release i b s)
unfolding release
release-IsValid i b s h = elim (Option-cases (mark_released i s.leases)) [
  | inl e ↦ rw (e, release) h
  | inr (ls, e) ↦
      rw (e, release) (release_slot-IsValid b s ls h (rw e at (mark_released-Marked i s.leases)))
]

pub handle-IsValid :
    (ticks : ℕ) (e : Event) (s : Scheduler) → IsValid s → IsValid (handle ticks e s)
unfolding handle begin_drain note_slow_consumer
handle-IsValid ticks (Event.arrives t now) s h = arrive-IsValid ticks t now s h
handle-IsValid ticks (Event.resumes t now) s h = elim (Option-cases (resume ticks t now s)) [
  | inl e ↦ rw (e, handle) h
  | inr (r, e) ↦ rw (e, handle) (resume-IsValid ticks t now s r h e)
]
handle-IsValid ticks (Event.cancels t c) s h = cancel-IsValid t c s h
handle-IsValid ticks (Event.releases i b) s h = release-IsValid i b s h
handle-IsValid ticks Event.drains s h = ground arith
handle-IsValid ticks (Event.notes n) s h = ground arith

-- Whatever happens to a valid scheduler, and in whatever order, it stays valid.
pub run-IsValid :
    (ticks : ℕ) (es : List Event) (s : Scheduler) → IsValid s → IsValid (run ticks es s)
unfolding run
run-IsValid ticks [] s h = h
run-IsValid ticks (e ∷ es) s h =
    run-IsValid ticks es (handle ticks e s) (handle-IsValid ticks e s h)

-- The limits that the operator set do not change.
abbrev Config : Scheduler → Scheduler → Type 0
Config s s' = (s'.max_concurrency ≡ s.max_concurrency) × (s'.max_queue_depth ≡ s.max_queue_depth)

resume_waiter-Config :
    (ticks now : ℕ) (w : Waiter) (q : List Waiter) (f : Future) (s : Scheduler)
    (r : Scheduler × Outcome)
    → resume_waiter ticks now w q f s ≡ some r
    → Config s r.0
unfolding resume_waiter grant_lease leave_empty
resume_waiter-Config ticks now w q pending s r e = cc
resume_waiter-Config ticks now w q granted s r e = ground arith
resume_waiter-Config ticks now w q (cancelled timeout) s r e = ground arith
resume_waiter-Config ticks now w q (cancelled disconnect) s r e = ground arith
resume_waiter-Config ticks now w q (interrupted timeout) s r e = ground arith
resume_waiter-Config ticks now w q (interrupted disconnect) s r e = ground arith

resume-Config :
    (ticks t now : ℕ) (s : Scheduler) (r : Scheduler × Outcome)
    → resume ticks t now s ≡ some r
    → Config s r.0
unfolding resume
resume-Config ticks t now s r e = elim (Option-cases (leave t s.sem.queue)) [
  | inl gone ↦ ground arith
  | inr (x, found) ↦ resume_waiter-Config ticks now x.0 x.1 x.0.future s r (ground arith)
]

handle-Config : (ticks : ℕ) (e : Event) (s : Scheduler) → Config s (handle ticks e s)
unfolding handle arrive grant_lease reject_full cancel release release_slot begin_drain
    note_slow_consumer
handle-Config ticks (Event.arrives t now) s = ground arith
handle-Config ticks (Event.resumes t now) s = elim (Option-cases (resume ticks t now s)) [
  | inl e ↦ ground arith
  | inr (r, e) ↦ ground (arith, resume-Config ticks t now s r e)
]
handle-Config ticks (Event.cancels t timeout) s = ground arith
handle-Config ticks (Event.cancels t disconnect) s = ground arith
handle-Config ticks (Event.releases i b) s = ground arith
handle-Config ticks Event.drains s = ground arith
handle-Config ticks (Event.notes n) s = ground arith

run-Config : (ticks : ℕ) (es : List Event) (s : Scheduler) → Config s (run ticks es s)
unfolding run
run-Config ticks [] s = (refl, refl)
run-Config ticks (e ∷ es) s =
    ground (arith, run-Config ticks es (handle ticks e s), handle-Config ticks e s)

create-Config :
    (m d t : ℕ) (s : Scheduler)
    → create m d t ≡ some s
    → (s.max_concurrency ≡ m) × (s.max_queue_depth ≡ d)
unfolding create
create-Config m d t s h = ground arith

-- Whatever happens to a scheduler from its construction on, and in whatever order: at most
-- `max_concurrency` slots are in use and at most `max_queue_depth` requests wait, now and at every
-- peak; each lease that is out holds exactly one slot; every permit is free, on its way to a woken
-- waiter or in use; permits go out in the order of arrival; and a free permit that somebody waits
-- for is about to be passed on.
pub run_limits :
    (ticks m d t : ℕ) (es : List Event) (s : Scheduler)
    → create m d t ≡ some s
    → let s' = run ticks es s in
      IsValid s' × (s'.in_use ≤ m) × (s'.peak_in_use ≤ m) × (s'.waiters ≤ d) × (s'.peak_waiters ≤ d)
run_limits ticks m d t es s h =
    let v = run-IsValid ticks es s (create-IsValid m d t s h) in
    let c = run-Config ticks es s in
    let k = create-Config m d t s h in
    (
      v,
      omega (arith, v.in_use_peak, v.peak, c.0, k.0),
      omega (arith, v.peak, c.0, k.0),
      omega (arith, v.waiters_peak, v.depth, c.1, k.1),
      omega (arith, v.depth, c.1, k.1),
    )
