-- ===== src/Scheduler/Queue.antt =====
-- The semaphore's queue under each of its operations: what is counted in it, and its order.
use inference_engine.Prelude.{
  ℕ, zero, suc, ◌+◌, ◌≤◌, ◌<◌, ◌≡◌, refl, true, Option, none, some, List, [], ◌∷◌, ◌++◌, arith,
  length, count, any, false, count-append, length-append, Option-cases, inl, inr,
}
use inference_engine.Scheduler.Permits.{
  Cause, Waiter, Semaphore, pending, is_pending, is_holding, is_counted, locked, wake_up_next,
  wake_all, release_permit, join, cancel_waiter, leave,
}

-- Permits are handed out in the order of arrival: nobody behind a pending future holds one.
abbrev pub IsFifo : List Waiter → Type 0
IsFifo [] = Unit
IsFifo (w ∷ q) = (is_pending w ≡ true → count is_holding q ≡ 0) × IsFifo q

abbrev pub Woken : List Waiter → Option (List Waiter) → Type 0
Woken q none = count is_pending q ≡ 0
Woken q (some q') =
    (count is_pending q ≡ suc (count is_pending q'))
    × (count is_holding q' ≡ suc (count is_holding q))
    × (length q' ≡ length q)
    × (IsFifo q → IsFifo q')

pub wake_up_next-Woken : (q : List Waiter) → Woken q (wake_up_next q)
unfolding wake_up_next
wake_up_next-Woken [] = refl
wake_up_next-Woken (w ∷ q) = ground (arith, wake_up_next-Woken q)

-- What `wake_all` leaves: no permit is lost, and none is free while a future is pending.
pub wake_all_counts :
    (v : ℕ) (q : List Waiter)
    → let s = wake_all v q in
      (s.value + count is_holding s.queue ≡ v + count is_holding q)
      × (0 < s.value → count is_pending s.queue ≡ 0)
      × (length s.queue ≡ length q)
      × (IsFifo q → IsFifo s.queue)
unfolding wake_all
wake_all_counts zero q = (refl, λ h. absurd (omega arith), refl, λ h. h)
wake_all_counts (suc v) q = elim (Option-cases (wake_up_next q)) [
  | inl e ↦ ground (arith, wake_up_next-Woken q)
  | inr (q', e) ↦ ground (arith, wake_up_next-Woken q, wake_all_counts v q')
]

-- `release` gives the permit to the first pending future, or frees it where there is none.
pub release_permit_counts :
    (s : Semaphore)
    → let s' = release_permit s in
      (s'.value + count is_holding s'.queue ≡ suc (s.value + count is_holding s.queue))
      × (0 < count is_pending s'.queue → 0 < count is_holding s'.queue)
      × (length s'.queue ≡ length s.queue)
      × (IsFifo s.queue → IsFifo s'.queue)
unfolding release_permit
release_permit_counts s = ground (arith, wake_up_next-Woken s.queue)

IsFifo-snoc :
    (q : List Waiter) (w : Waiter) → is_holding w ≡ false → IsFifo q → IsFifo (q ++ w ∷ [])
IsFifo-snoc [] w h f = (λ _. refl, tt)
IsFifo-snoc (x ∷ q) w h f =
    (λ p. rw (count-append is_holding q (w ∷ [])) (ground (arith, f.0 p)), IsFifo-snoc q w h f.1)

pub join_counts :
    (ticket now : ℕ) (s : Semaphore)
    → let s' = join ticket now s in
      (s'.value ≡ s.value)
      × (count is_holding s'.queue ≡ count is_holding s.queue)
      × (count is_pending s'.queue ≡ suc (count is_pending s.queue))
      × (length s'.queue ≡ suc (length s.queue))
      × (IsFifo s.queue → IsFifo s'.queue)
unfolding join
join_counts ticket now s =
    let w : Waiter = record { ticket = ticket; started = now; future = pending } in
    (
      refl,
      omega (arith, count-append is_holding s.queue (w ∷ [])),
      omega (arith, count-append is_pending s.queue (w ∷ [])),
      omega (arith, length-append s.queue (w ∷ [])),
      IsFifo-snoc s.queue w refl,
    )

pub cancel_waiter_counts :
    (t : ℕ) (c : Cause) (q : List Waiter)
    → let q' = cancel_waiter t c q in
      (count is_holding q' ≡ count is_holding q)
      × (count is_pending q' ≤ count is_pending q)
      × (length q' ≡ length q)
      × (IsFifo q → IsFifo q')
unfolding cancel_waiter
cancel_waiter_counts t c [] = ground arith
cancel_waiter_counts t c (w ∷ q) = ground (arith, cancel_waiter_counts t c q)

abbrev pub LeftBehind : List Waiter → Option (Waiter × List Waiter) → Type 0
LeftBehind q none = Unit
LeftBehind q (some (w, q')) =
    (count is_holding q ≡ count is_holding (w ∷ q'))
    × (count is_pending q ≡ count is_pending (w ∷ q'))
    × (length q ≡ suc (length q'))
    × (IsFifo q → IsFifo q')

pub leave-LeftBehind : (t : ℕ) (q : List Waiter) → LeftBehind q (leave t q)
unfolding leave
leave-LeftBehind t [] = tt
leave-LeftBehind t (w ∷ q) = ground (arith, leave-LeftBehind t q)

-- No coroutine is told to go ahead while a permit is held back from a pending one.
pub not-locked : (s : Semaphore) → locked s ≡ false → 0 < s.value
unfolding locked
not-locked s h = ground arith

any-counted : (q : List Waiter) → any is_counted q ≡ false → count is_pending q ≡ 0
any-counted [] h = refl
any-counted (w ∷ q) h = ground (arith, any-counted q)

any-held : (q : List Waiter) → any is_counted q ≡ false → count is_holding q ≡ 0
any-held [] h = refl
any-held (w ∷ q) h = ground (arith, any-held q)

-- Where a newcomer need not queue nobody else is waiting for a permit.
pub locked-none_waiting :
    (s : Semaphore)
    → locked s ≡ false
    → (count is_pending s.queue ≡ 0) × (count is_holding s.queue ≡ 0)
unfolding locked
locked-none_waiting s h = ground (arith, any-counted s.queue, any-held s.queue)

any-woken :
    (q : List Waiter) → any is_counted q ≡ true → 0 < count is_pending q + count is_holding q
any-woken [] h = cc
any-woken (w ∷ q) h = ground (arith, any-woken q)

-- Where a newcomer has to queue although a permit is free, others are in the queue already.
pub locked-woken :
    (s : Semaphore)
    → locked s ≡ true
    → 0 < s.value
    → 0 < count is_pending s.queue + count is_holding s.queue
unfolding locked
locked-woken s h v = ground (arith, any-woken s.queue)

pub count_kinds : (q : List Waiter) → count is_pending q + count is_holding q ≤ length q
count_kinds [] = omega arith
count_kinds (w ∷ q) = ground (arith, count_kinds q)
