-- ===== src/Gateway/Tests.antt =====
-- A gateway with one key, at work.
use inference_engine.Prelude.{
  ◌≤◌, ◌<◌, ◌≡◌, ◌↔◌, ◌⊎◌, min, refl, true, Option, none, some, List, [], ◌∷◌, String, str_append,
  count, All, arith, ℕ, length,
}
use inference_engine.Accounts.Types.{KeyRow, KeyStatus}
use inference_engine.Gateway.{authorize_token, abort, finalize, operator_access}
use inference_engine.Gateway.Limiting.{inflight_of, check_rate}
use inference_engine.Gateway.Quota.{week_start, week_reset}
use inference_engine.Gateway.Types.{Gateway, Request, OperatorAccess}
use inference_engine.Gateway.Settling.{holds}
use inference_engine.Gateway.Serving.{Event, serve_all, serve_all_slots, opened, IsFinalized}
use inference_engine.Gateway.Rates.{Call, allowed_in, allowed_in_rate, is_asking}
use inference_engine.Gateway.Answers.{Answers}
use inference_engine.Gateway.Operators.{MayPass, operator_access_exact}

abbrev mark : String → String
mark s = str_append "h:" s

abbrev laptop : KeyRow
laptop = record {
  id = "k1";
  key_hash = "h:secret";
  prefix = "secret";
  label = none;
  created_at = 1;
  last_used_at = none;
  revoked_at = none;
  client_id = none;
  status = KeyStatus.active;
}

abbrev gateway : Gateway
gateway = record {
  settings = record {
    require_auth = true;
    quota_5h_cu = 100;
    quota_weekly_cu = 1000;
    has_billing = true;
    default_plan = none;
  };
  compute = record { prompt_weight = 1; completion_weight = 2 };
  limiter = record { rate = 3; max_concurrent = 1; windows = []; inflight = [] };
  db = record { keys = laptop ∷ []; clients = []; plans = []; subscriptions = []; events = [] };
  usage = [];
}

-- 10 characters of prompt are 3 tokens; with `max_tokens` answer tokens.
abbrev ask : ℕ → Request
ask max_tokens = record {
  token = some "secret";
  prompt_len = 10;
  max_tokens = max_tokens;
  endpoint = "chat";
  model = some "m";
}

-- The second request is one too many, the third comes after the first has ended and asks for more
-- than the 5-hour quota, and its slot is free again.
abbrev busy : List Event
busy =
    Event.authorizes (ask 20) 1000000
    ∷ Event.authorizes (ask 20) 1000001
    ∷ Event.finalizes 0 "r1" none 3 20 200 1000002 true
    ∷ Event.aborts 0
    ∷ Event.authorizes (ask 40) 1000003
    ∷ []

busy_ends :
    let s = serve_all mark busy (opened gateway) in
    (length s.accesses ≡ 1)
    × (inflight_of "k1" s.gateway.limiter ≡ 0)
    × (length s.gateway.usage ≡ 1)
unfolding authorize_token abort finalize
busy_ends = (refl, refl, refl)

serve_all_slots_example :
    let s = serve_all mark busy (opened gateway) in
    (inflight_of "k1" s.gateway.limiter ≡ count (holds "k1") s.accesses)
    × ((gateway.limiter.max_concurrent ≡ 0)
        ⊎ (inflight_of "k1" s.gateway.limiter ≤ gateway.limiter.max_concurrent))
    × (All IsFinalized s.accesses → inflight_of "k1" s.gateway.limiter ≡ 0)
serve_all_slots_example = serve_all_slots mark busy gateway refl "k1"

abbrev calls : List Call
calls =
    record { key = "a"; now = 10 }
    ∷ record { key = "b"; now = 20 }
    ∷ record { key = "a"; now = 30 }
    ∷ record { key = "a"; now = 59 }
    ∷ record { key = "a"; now = 61 }
    ∷ []

abbrev two_a_minute : String → Option ℕ
two_a_minute key = some 2

allowed_in_rate_example :
    allowed_in two_a_minute "a" 0 calls gateway.limiter ≡ min (count (is_asking "a" 0) calls) 2
allowed_in_rate_example =
    allowed_in_rate two_a_minute "a" 0 1 calls gateway.limiter (omega arith) refl refl

two_of_three : allowed_in two_a_minute "a" 0 calls gateway.limiter ≡ 2
unfolding allowed_in check_rate
two_of_three = refl

-- 1000000 is in the week from 950400 to 1555200.
in_week : (week_start 1000000 ≤ 1500000) × (1500000 < week_reset 1000000)
unfolding week_reset week_start
in_week = omega arith

operator_access_exact_example :
    ((operator_access mark (some "::1") (some "secret") 7 gateway).1.access
      ≡ OperatorAccess.allowed)
    ↔ MayPass mark (some "::1") (some "secret") 7 gateway
operator_access_exact_example = operator_access_exact mark (some "::1") (some "secret") 7 gateway
