-- ===== src/Scheduler/Tests.antt =====
-- The scheduler on a short day: one permit, a queue of one.
use inference_engine.Prelude.{◌+◌, ◌*◌, ◌≤◌, ◌≡◌, refl, true, false, some, List, [], ◌∷◌, arith}
use inference_engine.Scheduler.{
  Scheduler, create, arrive, resume, release, begin_drain, Event, handle, run, retry_after_hint,
  locked, release_permit, wake_all, saturated, queue_full, join, wake_up_next, leave, mark_released,
  grant_lease,
}
use inference_engine.Scheduler.Invariant.{IsValid, run_limits, create-IsValid}
use inference_engine.Scheduler.Hint.{retry_after_hint_bounds}
use inference_engine.Scheduler.Drain.{handle_drains}

abbrev fresh : Scheduler
fresh = record {
  max_concurrency = 1;
  max_queue_depth = 1;
  queue_timeout_ticks = 30;
  sem = record { value = 1; queue = [] };
  is_draining = false;
  idle = true;
  in_use = 0;
  waiters = 0;
  admitted = 0;
  rejected_queue_full = 0;
  rejected_timeout = 0;
  cancelled_total = 0;
  slow_consumer = 0;
  peak_in_use = 0;
  peak_waiters = 0;
  wait_total = 0;
  wait_count = 0;
  wait_max = 0;
  wait_last = 0;
  leases = [];
}

fresh_created : create 1 1 30 ≡ some fresh
unfolding create
fresh_created = refl

fresh-IsValid : IsValid fresh
fresh-IsValid = create-IsValid 1 1 30 fresh fresh_created

-- One request runs, one waits, one is turned away; then the waiting one runs, after 7 ticks.
abbrev morning : List Event
morning =
    Event.arrives 0 0
    ∷ Event.arrives 1 3
    ∷ Event.arrives 2 5
    ∷ Event.releases 0 false
    ∷ Event.resumes 1 10
    ∷ []

morning_counts :
    let s = run 10 morning fresh in
    (s.admitted ≡ 2)
    × (s.rejected_queue_full ≡ 1)
    × (s.in_use ≡ 1)
    × (s.waiters ≡ 0)
    × (s.wait_last ≡ 7)
unfolding run handle arrive release resume locked release_permit wake_all wake_up_next join leave
    mark_released grant_lease retry_after_hint
morning_counts = (refl, refl, refl, refl, refl)

run_limits_example :
    let s = run 10 morning fresh in
    IsValid s × (s.in_use ≤ 1) × (s.peak_in_use ≤ 1) × (s.waiters ≤ 1) × (s.peak_waiters ≤ 1)
run_limits_example = run_limits 10 1 1 30 morning fresh fresh_created

abbrev waiting : Scheduler
waiting = run 10 (Event.arrives 0 0 ∷ Event.arrives 1 3 ∷ []) fresh

third_is_turned_away : (arrive 10 2 5 waiting).1 ≡ saturated queue_full 1
unfolding run handle arrive locked join grant_lease retry_after_hint
third_is_turned_away = refl

abbrev closing : Scheduler
closing = run 10 (Event.arrives 0 0 ∷ Event.arrives 1 3 ∷ Event.drains ∷ []) fresh

closing-IsValid : IsValid closing
closing-IsValid =
    (run_limits 10 1 1 30 (Event.arrives 0 0 ∷ Event.arrives 1 3 ∷ Event.drains ∷ []) fresh
      fresh_created).0

closing_drains : closing.is_draining ≡ true
unfolding run handle arrive begin_drain locked join grant_lease
closing_drains = refl

handle_drains_example :
    ((handle 10 (Event.releases 0 false) closing).is_draining ≡ true)
    × ((handle 10 (Event.releases 0 false) closing).in_use
          + (handle 10 (Event.releases 0 false) closing).waiters
        ≤ closing.in_use + closing.waiters)
handle_drains_example =
    handle_drains 10 (Event.releases 0 false) closing closing-IsValid closing_drains

retry_after_hint_bounds_example :
    let s = run 10 morning fresh in
    (1 ≤ retry_after_hint 10 s)
    × (s.wait_total ≤ retry_after_hint 10 s * (s.wait_count * 10))
    × (retry_after_hint 10 s * 10 ≤ s.wait_max + 10)
retry_after_hint_bounds_example =
    retry_after_hint_bounds 10 (run 10 morning fresh) run_limits_example.0 (omega arith)
