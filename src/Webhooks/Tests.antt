-- ===== src/Webhooks/Tests.antt =====
-- An endpoint with a secret and two deliveries, and events about them.
use inference_engine.Prelude.{
  ℕ, zero, suc, ◌+◌, ◌≡◌, refl, inl, true, false, none, some, List, [], ◌∷◌, ◌++◌, map, String,
  str_eq_iff, arith, codes, Text,
}
use inference_engine.Webhooks.{get_endpoint, rotate_secret, enqueue_event, claim_due}
use inference_engine.Accounts.Types.{Db, ClientStatus}
use inference_engine.Webhooks.Types.{Endpoint, SecretRow, Delivery, Status, Store}
use inference_engine.Webhooks.Signing.{Crypto, IsBase64}
use inference_engine.Webhooks.Rotation.{accepts, rotation_accepts}
use inference_engine.Webhooks.Worker.{
  Answer, other_error, World, Config, configure, run_once, urllib_post, attempt_all, attempt,
  settle,
}
use inference_engine.Webhooks.FanOut.{AreFresh, enqueue_event-enqueue_event}
use inference_engine.Webhooks.Progress.{IsCaught, run_once_settles}
use inference_engine.Webhooks.Service.{Event, steps}
use inference_engine.Webhooks.Queue.{IsQueue}
use inference_engine.Webhooks.Bounds.{idle, steps_bounded}

-- Functions in place of those of hashlib and base64, with letters for the encoding.
abbrev toy : Crypto
toy = record {
  hmac = λ key text. key ++ text;
  b64encode = map (λ n. n + 65);
  b64decode = λ t. some t;
  decimal = λ n. n ∷ [];
}

toy-IsBase64 : IsBase64 toy
toy-IsBase64 [] = refl
toy-IsBase64 (n ∷ t) = ground (arith, toy-IsBase64 t)

abbrev hook : Endpoint
hook = record {
  id = "e1";
  client_id = "c1";
  url = "https://example.com/hook";
  description = none;
  disabled = false;
  event_types = none;
}

abbrev old_secret : SecretRow
old_secret = record {
  id = "k1";
  endpoint_id = "e1";
  secret = "whsec_old";
  created_at = 1;
  expires_at = none;
}

abbrev row_of : String → ℕ → Delivery
row_of id due = record {
  id = id;
  endpoint_id = "e1";
  event_id = id;
  event_type = "quota.exceeded";
  payload = "{}";
  status = Status.pending;
  attempts = 0;
  next_attempt_at = due;
  last_status_code = none;
  last_error = none;
  created_at = due;
  updated_at = due;
}

abbrev two_due : Store
two_due = record {
  endpoints = hook ∷ [];
  secrets = old_secret ∷ [];
  deliveries = row_of "d2" 7 ∷ row_of "d1" 5 ∷ [];
}

abbrev quiet_store : Store
quiet_store = record two_due { deliveries = [] }

abbrev world_of : (ℕ → String → String → Text → Answer) → World
world_of post = record {
  crypto = toy;
  host_is_ascii = λ url. true;
  post = post;
  digits = λ n. "503";
}

-- An endpoint that answers 503 to the first delivery and 200 to the next.
abbrev flaky : World
flaky =
    world_of (λ i url body header. elim i [ zero ↦ Answer.status 503 | suc j ↦ Answer.status 200 ])

abbrev malformed : World
malformed = world_of (λ i. urllib_post (λ url. true) (λ url body header. other_error))

abbrev patient : Config
patient = record { max_attempts = 3; first_delay = 30; later_delays = 120 ∷ []; batch_limit = 10 }

abbrev after_rotation : Store
after_rotation = record two_due {
  secrets =
      record old_secret { expires_at = some 110 }
      ∷ record {
        id = "k2";
        endpoint_id = "e1";
        secret = "whsec_new";
        created_at = 11;
        expires_at = none;
      }
      ∷ [];
}

rotates : rotate_secret "k2" "whsec_new" "e1" 100 10 11 two_due ≡ some after_rotation
unfolding rotate_secret
rotates = refl

rotation_accepts_example :
    accepts toy "whsec_old" "e1" (codes "m") (codes "{}") 50 after_rotation ≡ true
rotation_accepts_example =
    (rotation_accepts toy "k2" "whsec_new" "e1" 100 10 11 two_due after_rotation toy-IsBase64
        rotates (codes "m") (codes "{}") 50).1
      old_secret (inl refl) refl refl (omega arith)

any_ids-AreFresh : AreFresh (λ e. e) "ev1" []
any_ids-AreFresh = record { distinct = λ a b e. (str_eq_iff a b).0 e; own = λ e x m. elim m [ ] }

enqueue_event_example :
    enqueue_event
      (λ e. e)
      "c1"
      "ev1"
      "quota.exceeded"
      "{}"
      9
      (enqueue_event (λ e. e) "c1" "ev1" "quota.exceeded" "{}" 8 quiet_store).0
    ≡ ((enqueue_event (λ e. e) "c1" "ev1" "quota.exceeded" "{}" 8 quiet_store).0, 0)
enqueue_event_example =
    (enqueue_event-enqueue_event (λ e. e) (λ e. e) "c1" "ev1" "quota.exceeded" "{}" "{}" 8 9
      quiet_store any_ids-AreFresh).1

flaky-IsCaught : IsCaught flaky
flaky-IsCaught zero url body header h = cc
flaky-IsCaught (suc i) url body header h = cc

run_once_settles_example : (run_once patient flaky (λ j. false) 9 two_due).1 ≡ some 2
unfolding claim_due
run_once_settles_example =
    (run_once_settles patient flaky 9 two_due (omega arith, (omega arith, tt)) flaky-IsCaught).0

-- An exception of urllib that is no OSError ends the batch with nothing attempted.
malformed_blocks : run_once patient malformed (λ j. false) 9 two_due ≡ (two_due, none)
unfolding run_once attempt_all attempt settle claim_due get_endpoint urllib_post
malformed_blocks = refl

abbrev clients : Db
clients = record {
  keys = [];
  clients =
      record {
        id = "c1";
        external_ref = none;
        email = none;
        status = ClientStatus.active;
        created_at = 1;
      }
      ∷ [];
  plans = [];
  subscriptions = [];
  events = [];
}

abbrev busy : List Event
busy =
    Event.creates "e1" "k1" "whsec_old" "c1" "https://example.com/hook" none none 1 clients
    ∷ Event.enqueues (λ e. e) "c1" "ev1" "quota.exceeded" "{}" 8
    ∷ Event.claims 9
    ∷ Event.attempts
    ∷ Event.replays "e1" 10
    ∷ []

steps_bounded_example : IsQueue 2 (steps (configure 2 [] 10) flaky busy idle).store.deliveries
steps_bounded_example = steps_bounded 2 [] 10 flaky busy
