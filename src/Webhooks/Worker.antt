-- ===== src/Webhooks/Worker.antt =====
-- engine/billing/webhooks/delivery.py: one attempt of a delivery, and a batch of them.
use inference_engine.Prelude.{
  ℕ, zero, suc, ◌+◌, ◌-◌, min, max, Bool, ◌&&◌, not, Option, none, some, List, [], ◌∷◌, String,
  str_append, ltb, leb, if◌then◌else◌, map, length, Text, codes,
}
use inference_engine.Webhooks.{
  get_endpoint, active_secrets, claim_due, mark_succeeded, mark_retry, mark_dead,
}
use inference_engine.Webhooks.Types.{Delivery, Store}
use inference_engine.Webhooks.Signing.{Crypto, signature_header}

-- How a POST ends: with a status, with a TransportError, or with another exception.
pub data Answer : Type 0 where
  status : ℕ → Answer
  unreachable : String → Answer
  crashed : Answer

-- How `opener.open` of urllib ends: with a response or an HTTPError (both have a status), with a
-- URLError, TimeoutError or OSError, or with another exception, such as an HTTPException of
-- http.client on a malformed status line.
pub data Opened : Type 0 where
  responded : ℕ → Opened
  os_error : String → Opened
  other_error : Opened

-- `NON_ASCII_HOST_ERROR`
abbrev pub non_ascii_host_error : String
non_ascii_host_error = "endpoint host is not ASCII; re-register it in the xn-- (punycode) form"

-- What the worker calls and does not define: `host_is_ascii`, which parses the URL by urllib, the
-- transport's POST, of the place in the batch, the URL, the body and the signature header, the
-- functions of the signatures, and the decimal digits of a status.
pub record World : Type 0 where
  pub crypto : Crypto
  pub host_is_ascii : String → Bool
  pub post : ℕ → String → String → Text → Answer
  pub digits : ℕ → String

-- `UrllibTransport.post` over `opener.open`
unfoldable pub urllib_post :
    (String → Bool) → (String → String → Text → Opened) → String → String → Text → Answer
urllib_post host_is_ascii open_url url body header =
    if host_is_ascii url
    then elim (open_url url body header) [
      | responded code ↦ Answer.status code
      | os_error text ↦ unreachable text
      | other_error ↦ crashed
    ]
    else unreachable non_ascii_host_error

-- The worker's configuration; the schedule is its first delay and the others.
pub record Config : Type 0 where
  pub max_attempts : ℕ
  pub first_delay : ℕ
  pub later_delays : List ℕ
  pub batch_limit : ℕ

-- `__init__`: `max(1, max_attempts)` and `backoff_schedule_s or DEFAULT_BACKOFF_SCHEDULE_S`
unfoldable pub configure : (max_attempts : ℕ) (schedule : List ℕ) (batch_limit : ℕ) → Config
configure max_attempts [] batch_limit = record {
  max_attempts = max 1 max_attempts;
  first_delay = 30;
  later_delays = 120 ∷ 600 ∷ 1800 ∷ [];
  batch_limit = batch_limit;
}
configure max_attempts (d ∷ ds) batch_limit = record {
  max_attempts = max 1 max_attempts;
  first_delay = d;
  later_delays = ds;
  batch_limit = batch_limit;
}

-- `schedule[i]`, where `i` is no place past the last
abbrev pub delay_at : ℕ → List ℕ → ℕ → ℕ
delay_at d ds zero = d
delay_at d [] (suc i) = d
delay_at d (e ∷ ds) (suc i) = delay_at e ds i

-- `_next_delay`
unfoldable pub next_delay : Config → ℕ → ℕ
next_delay c attempts_after =
    delay_at c.first_delay c.later_delays (min (attempts_after - 1) (length c.later_delays))

-- `_on_failure`
unfoldable pub on_failure :
    Config → Delivery → (attempts_after : ℕ) → Option ℕ → String → (now : ℕ) → Store → Store
unfolding mark_dead mark_retry next_delay
on_failure c d attempts_after status_code error now s =
    if leb c.max_attempts attempts_after
    then mark_dead d.id status_code (some error) now s
    else mark_retry d.id (now + next_delay c attempts_after) status_code (some error) now s

-- `200 <= status_code < 300`
abbrev pub is_success : ℕ → Bool
is_success code = leb 200 code && ltb code 300

-- The end of `_attempt`, after the POST; `none` is the exception that it passes on.
unfoldable pub settle : Config → World → Delivery → (now : ℕ) → Answer → Store → Option Store
unfolding on_failure mark_succeeded
settle c w d now (Answer.status code) s =
    if is_success code
    then some (mark_succeeded d.id code now s)
    else some
        (on_failure c d (d.attempts + 1) (some code) (str_append "HTTP " (w.digits code)) now s)
settle c w d now (unreachable text) s = some (on_failure c d (d.attempts + 1) none text now s)
settle c w d now crashed s = none

-- `_attempt` of the delivery as it was claimed, the `i`-th of its batch
unfoldable pub attempt : Config → World → ℕ → Delivery → (now : ℕ) → Store → Option Store
unfolding get_endpoint active_secrets signature_header mark_dead settle
attempt c w i d now s = elim (get_endpoint d.endpoint_id s) [
  | none ↦ some (mark_dead d.id none (some "endpoint missing or disabled") now s)
  | some e ↦
      if e.disabled
      then some (mark_dead d.id none (some "endpoint missing or disabled") now s)
      else if not (w.host_is_ascii e.url)
      then some (mark_dead d.id none (some non_ascii_host_error) now s)
      else let header =
          signature_header w.crypto (map codes (active_secrets e.id now s)) (codes d.id) now
            (codes d.payload) in
        settle c w d now (w.post i e.url d.payload header) s
]

-- The loop of `run_once`: `stopped i` is what the stop flag is before the `i`-th delivery.  The
-- number attempted is returned, and `none` where an exception is passed on.
unfoldable pub attempt_all :
    Config → World → (ℕ → Bool) → ℕ → List Delivery → (now : ℕ) → Store → Store × Option ℕ
unfolding attempt
attempt_all c w stopped i [] now s = (s, some i)
attempt_all c w stopped i (d ∷ ds) now s =
    let rest = λ (s' : Store). attempt_all c w stopped (suc i) ds now s' in
    if stopped i
    then (s, some i)
    else elim (attempt c w i d now s) [ none ↦ (s, none) | some s' ↦ rest s' ]

-- `run_once`
unfoldable pub run_once : Config → World → (ℕ → Bool) → (now : ℕ) → Store → Store × Option ℕ
unfolding claim_due attempt_all
run_once c w stopped now s = attempt_all c w stopped 0 (claim_due now c.batch_limit s) now s
