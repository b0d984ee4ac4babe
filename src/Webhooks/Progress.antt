-- ===== src/Webhooks/Progress.antt =====
-- What a batch of the delivery worker achieves (`DeliveryWorker.run_once` of
-- engine/billing/webhooks/delivery.py).
use inference_engine.Prelude.{
  ℕ, zero, suc, ◌+◌, ◌-◌, ◌<◌, ◌≡◌, refl, ◌∙◌, ap, subst, inl, inr, true, false, not, min, Option,
  none, some, List, [], ◌∷◌, map, length, All, String, str_eq, set_if, arith, Bool-cases,
  Option-cases, codes, Text, if-rule,
}
use inference_engine.Webhooks.{get_endpoint, active_secrets, claim_due, update, is_due}
use inference_engine.Webhooks.Types.{Delivery, Status, Store}
use inference_engine.Webhooks.Signing.{signature_header}
use inference_engine.Webhooks.Worker.{
  Config, World, Answer, unreachable, crashed, next_delay, delay_at, settle, is_success, attempt,
  attempt_all, run_once,
}
use inference_engine.Webhooks.Attempts.{Attempted, attempt-Attempted, is_over}

-- Every delay of the schedule is positive.
abbrev pub IsPatient : Config → Type 0
IsPatient c = (0 < c.first_delay) × All (λ d. 0 < d) c.later_delays

delay_at-pos : (d : ℕ) (ds : List ℕ) (i : ℕ) → 0 < d → All (λ x. 0 < x) ds → 0 < delay_at d ds i
delay_at-pos d ds zero h k = h
delay_at-pos d [] (suc i) h k = h
delay_at-pos d (e ∷ ds) (suc i) h k = delay_at-pos e ds i k.0 k.1

next_delay-pos : (c : Config) (n : ℕ) → IsPatient c → 0 < next_delay c n
unfolding next_delay
next_delay-pos c n p =
    delay_at-pos c.first_delay c.later_delays (min (n - 1) (length c.later_delays)) p.0 p.1

-- No row of the delivery is due.
abbrev pub IsSettled : ℕ → List Delivery → Delivery → Type 0
IsSettled now rows d = All (λ x. str_eq x.id d.id ≡ true → is_due now x ≡ false) rows

module _ (now : ℕ) (id : String) (f : Delivery → Delivery) (kept : (x : Delivery) → (f x).id ≡ x.id)
    (quiet : (x : Delivery) → is_due now (f x) ≡ false) where
  quiet-settles :
      (rows : List Delivery)
      → All
          (λ x. str_eq x.id id ≡ true → is_due now x ≡ false)
          (map (set_if (λ x. str_eq x.id id) f) rows)
  quiet-settles [] = tt
  quiet-settles (x ∷ xs) = (
    elim (Bool-cases (str_eq x.id id)) [
      | inl e ↦ rw e (λ same. quiet x)
      | inr e ↦ rw e (λ same. cc)
    ],
    quiet-settles xs,
  )

  quiet-keeps :
      (rows : List Delivery) (d : Delivery)
      → IsSettled now rows d
      → IsSettled now (map (set_if (λ x. str_eq x.id id) f) rows) d
  quiet-keeps [] d h = tt
  quiet-keeps (x ∷ xs) d h = (
    elim (Bool-cases (str_eq x.id id)) [ inl e ↦ rw e (λ same. quiet x) | inr e ↦ rw e h.0 ],
    quiet-keeps xs d h.1,
  )

over-quiet : (now : ℕ) (d : Delivery) → is_over d.status ≡ true → is_due now d ≡ false
over-quiet now d h = go d.status h
  where
    go : (s : Status) → is_over s ≡ true → is_due now (record d { status = s }) ≡ false
    go Status.pending h = cc
    go Status.succeeded h = refl
    go Status.failed h = refl
    go Status.dead h = refl

-- After its attempt a delivery is not due at that moment, and no other becomes so.
Attempted-settles :
    (c : Config) (d : Delivery) (now : ℕ) (s s' : Store)
    → IsPatient c
    → Attempted c d now s s'
    → IsSettled now s'.deliveries d
      × ((e : Delivery) → IsSettled now s.deliveries e → IsSettled now s'.deliveries e)
unfolding update
Attempted-settles c d now s s' p (Attempted.ends status code error over) =
    let f : Delivery → Delivery = λ x. record x {
      status = status;
      attempts = x.attempts + 1;
      last_status_code = code;
      last_error = error;
      updated_at = now;
    } in
    let quiet = λ (x : Delivery). over-quiet now (f x) over in
    (
      quiet-settles now d.id f (λ x. refl) quiet s.deliveries,
      λ e. quiet-keeps now d.id f (λ x. refl) quiet s.deliveries e,
    )
Attempted-settles c d now s s' p (Attempted.retries code error more) =
    let f : Delivery → Delivery = λ x. record x {
      status = Status.pending;
      attempts = x.attempts + 1;
      last_status_code = code;
      last_error = some error;
      next_attempt_at = now + next_delay c (d.attempts + 1);
      updated_at = now;
    } in
    let later = next_delay-pos c (d.attempts + 1) p in
    let quiet : (x : Delivery) → is_due now (f x) ≡ false = λ x. ground (arith, later) in
    (
      quiet-settles now d.id f (λ x. refl) quiet s.deliveries,
      λ e. quiet-keeps now d.id f (λ x. refl) quiet s.deliveries e,
    )

-- The transport raises nothing but a TransportError.
abbrev pub IsCaught : World → Type 0
IsCaught w =
    (i : ℕ) (url : String) (body : String) (header : Text) → ¬ (w.post i url body header ≡ crashed)

settle-returns :
    (c : Config) (w : World) (d : Delivery) (now : ℕ) (a : Answer) (s : Store)
    → ¬ (a ≡ crashed)
    → ¬ (settle c w d now a s ≡ none)
unfolding settle
settle-returns c w d now (Answer.status code) s caught h =
    if-rule (λ o. ¬ (o ≡ none)) (is_success code) (λ k e. cc) (λ k e. cc) h
settle-returns c w d now (unreachable text) s caught h = cc
settle-returns c w d now crashed s caught h = caught refl

attempt-returns :
    (c : Config) (w : World) (i : ℕ) (d : Delivery) (now : ℕ) (s : Store)
    → IsCaught w
    → ¬ (attempt c w i d now s ≡ none)
unfolding attempt
attempt-returns c w i d now s caught h = elim (Option-cases (get_endpoint d.endpoint_id s)) [
  | inl gone ↦ let g : some _ ≡ none = rw (attempt, gone) at h in cc
  | inr (e, found) ↦
      if-rule (λ o. ¬ (o ≡ none)) e.disabled (λ k g. cc)
        (λ k.
          if-rule (λ o. ¬ (o ≡ none)) (not (w.host_is_ascii e.url)) (λ k g. cc)
            (λ k.
              let header =
                signature_header w.crypto (map codes (active_secrets e.id now s)) (codes d.id) now
                  (codes d.payload) in
              settle-returns c w d now (w.post i e.url d.payload header) s
                (caught i e.url d.payload header)))
        (rw (attempt, found) at h)
]

attempt_all-next :
    (c : Config) (w : World) (i : ℕ) (d : Delivery) (ds : List Delivery) (now : ℕ) (s t : Store)
    → attempt c w i d now s ≡ some t
    → attempt_all c w (λ j. false) (suc i) ds now t ≡ attempt_all c w (λ j. false) i (d ∷ ds) now s
unfolding attempt_all
attempt_all-next c w i d ds now s t e = rw (attempt_all, e) refl

-- What the attempts of these deliveries, from the `i`-th of the batch on, come to.
IsDone : ℕ → ℕ → List Delivery → Store → Store × Option ℕ → Type 0
IsDone i now ds s r =
    (r.1 ≡ some (i + length ds))
    × All (IsSettled now r.0.deliveries) ds
    × ((e : Delivery) → IsSettled now s.deliveries e → IsSettled now r.0.deliveries e)

attempt_all-IsDone :
    (c : Config) (w : World) (i : ℕ) (ds : List Delivery) (now : ℕ) (s : Store)
    → IsPatient c
    → IsCaught w
    → IsDone i now ds s (attempt_all c w (λ j. false) i ds now s)
unfolding attempt_all IsDone
attempt_all-IsDone c w i [] now s p caught = (ap some (omega arith), tt, λ e k. k)
attempt_all-IsDone c w i (d ∷ ds) now s p caught = elim (Option-cases (attempt c w i d now s)) [
  | inl e ↦ absurd (attempt-returns c w i d now s caught e)
  | inr (t, e) ↦
      let step = Attempted-settles c d now s t p (attempt-Attempted c w i d now s t e) in
      let rest = attempt_all-IsDone c w (suc i) ds now t p caught in
      subst (IsDone i now (d ∷ ds) s) (attempt_all-next c w i d ds now s t e)
        (rest.0 ∙ ap some (omega arith), (rest.2 d step.0, rest.1), λ x k. rest.2 x (step.1 x k))
]

-- Where every delay is positive, the worker is not stopped and the transport raises nothing but
-- TransportErrors, `run_once` returns the number of deliveries that it claimed, and afterwards no
-- row of a claimed delivery is due at that moment.
pub run_once_settles :
    (c : Config) (w : World) (now : ℕ) (s : Store)
    → IsPatient c
    → IsCaught w
    → let batch = claim_due now c.batch_limit s in
      let r = run_once c w (λ j. false) now s in
      (r.1 ≡ some (length batch)) × All (IsSettled now r.0.deliveries) batch
unfolding run_once IsDone
run_once_settles c w now s p caught =
    let all = attempt_all-IsDone c w 0 (claim_due now c.batch_limit s) now s p caught in
    (all.0 ∙ ap some (omega arith), all.1)
