-- ===== src/Webhooks/Attempts.antt =====
-- What one attempt of the delivery worker writes (engine/billing/webhooks/delivery.py).
use inference_engine.Prelude.{
  ℕ, ◌+◌, ◌<◌, ◌≡◌, refl, subst, inl, inr, Bool, true, false, not, Option, none, some, String,
  arith, leb, Option-cases, some_inj, if-rule, map, codes,
}
use inference_engine.Webhooks.{get_endpoint, active_secrets, update}
use inference_engine.Webhooks.Types.{Delivery, Status, Store}
use inference_engine.Webhooks.Signing.{signature_header}
use inference_engine.Webhooks.Worker.{
  Config, World, Answer, unreachable, crashed, next_delay, on_failure, is_success, settle, attempt,
  non_ascii_host_error,
}

-- Nothing more is due to a delivery with this status.
abbrev pub is_over : Status → Bool
is_over Status.pending = false
is_over Status.succeeded = true
is_over Status.failed = true
is_over Status.dead = true

-- The store after an attempt: the claimed delivery's row is over, or it waits for another attempt,
-- which the limit allows, by the schedule.  No other row changes.
pub data Attempted (c : Config) (d : Delivery) (now : ℕ) (s : Store) : Store → Type 0 where
  ends :
      (status : Status) (code : Option ℕ) (error : Option String)
      → is_over status ≡ true
      → Attempted c d now s (update d.id status code error none now s)
  retries :
      (code : Option ℕ) (error : String)
      → d.attempts + 1 < c.max_attempts
      → Attempted c d now s (
          update d.id Status.pending code
            (some error)
            (some (now + next_delay c (d.attempts + 1)))
            now
            s)

on_failure-Attempted :
    (c : Config) (d : Delivery) (code : Option ℕ) (error : String) (now : ℕ) (s : Store)
    → Attempted c d now s (on_failure c d (d.attempts + 1) code error now s)
unfolding on_failure
on_failure-Attempted c d code error now s =
    if-rule (Attempted c d now s) (leb c.max_attempts (d.attempts + 1))
      (λ over. Attempted.ends Status.dead code (some error) refl)
      (λ more. Attempted.retries code error (ground arith))

settle-Attempted :
    (c : Config) (w : World) (d : Delivery) (now : ℕ) (a : Answer) (s s' : Store)
    → settle c w d now a s ≡ some s'
    → Attempted c d now s s'
unfolding settle
settle-Attempted c w d now (Answer.status code) s s' h =
    if-rule (λ o. o ≡ some s' → Attempted c d now s s') (is_success code)
      (λ k e.
        subst (Attempted c d now s) (some_inj _ s' e)
          (Attempted.ends Status.succeeded (some code) none refl))
      (λ k e.
        subst (Attempted c d now s) (some_inj _ s' e)
          (on_failure-Attempted c d (some code) _ now s))
      h
settle-Attempted c w d now (unreachable text) s s' h =
    subst (Attempted c d now s) (some_inj _ s' h) (on_failure-Attempted c d none text now s)
settle-Attempted c w d now crashed s s' h = cc

pub attempt-Attempted :
    (c : Config) (w : World) (i : ℕ) (d : Delivery) (now : ℕ) (s s' : Store)
    → attempt c w i d now s ≡ some s'
    → Attempted c d now s s'
unfolding attempt
attempt-Attempted c w i d now s s' h = elim (Option-cases (get_endpoint d.endpoint_id s)) [
  | inl gone ↦
      subst (Attempted c d now s) (some_inj _ s' (rw (attempt, gone) at h))
        (Attempted.ends Status.dead none (some "endpoint missing or disabled") refl)
  | inr (e, found) ↦
      if-rule (λ o. o ≡ some s' → Attempted c d now s s') e.disabled
        (λ k g.
          subst (Attempted c d now s) (some_inj _ s' g)
            (Attempted.ends Status.dead none (some "endpoint missing or disabled") refl))
        (λ k.
          if-rule (λ o. o ≡ some s' → Attempted c d now s s') (not (w.host_is_ascii e.url))
            (λ k g.
              subst (Attempted c d now s) (some_inj _ s' g)
                (Attempted.ends Status.dead none (some non_ascii_host_error) refl))
            (λ k g.
              let header =
                signature_header w.crypto (map codes (active_secrets e.id now s)) (codes d.id) now
                  (codes d.payload) in
              settle-Attempted c w d now (w.post i e.url d.payload header) s s' g))
        (rw (attempt, found) at h)
]
