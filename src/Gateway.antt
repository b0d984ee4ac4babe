-- ===== src/Gateway.antt =====
-- engine/gateway.py: authentication, limits, quota and attribution of requests, and the operator
-- gate.
pub mod Types
pub mod Quota
pub mod Limiting
mod Slots
mod Settling
mod Granting
mod Serving
mod Rates
mod Weeks
mod Admission
mod Answers
mod Operators
mod Tests
use mathlib.Core.Option
use Types.{
  UsageRow, WindowUsage, Settings, Gateway, ApiAccess, Denied, Outcome, Limits, Request,
  OperatorAccess, OperatorDecision,
}
use Quota.{
  actual, estimate, estimate_prompt_tokens, remaining, would_exceed, usage_5h, usage_weekly,
}
use Limiting.{check_rate, acquire, release}
use inference_engine.Prelude.{
  ℕ, ◌+◌, ◌-◌, Bool, true, false, ◌&&◌, ◌||◌, not, Option, none, some, List, [], ◌∷◌, ◌++◌, String,
  str_eq, any, ltb, if◌then◌else◌, truthy, is_null,
}
use inference_engine.Accounts.{verify, key_access}
use inference_engine.Accounts.Types.{KeyRow, Entitlement, Access, Db}

-- `LOCAL_KEY_ID`
abbrev pub local_key_id : String
local_key_id = "local"

-- `is_loopback_client`
unfoldable pub is_loopback_client : Option String → Bool
is_loopback_client none = false
is_loopback_client (some host) =
    str_eq host "127.0.0.1" || (str_eq host "::1" || str_eq host "localhost")

-- `ApiAccess.abort`
unfoldable pub abort : ApiAccess → Gateway → ApiAccess × Gateway
unfolding release
abort a g = if a.finalized then (a, g) else (
  record a { finalized = true; slot_held = false },
  if a.slot_held then record g { limiter = release a.key_id g.limiter } else g,
)

-- `ApiAccess.finalize`; the slot is freed whether the usage row was `written` or its insertion
-- raised.
unfoldable pub finalize :
    String → Option String → ℕ → ℕ → ℕ → ℕ → Bool → ApiAccess → Gateway → ApiAccess × Gateway
unfolding release actual
finalize request_id model prompt_tokens completion_tokens status now written a g =
    if a.finalized
    then (a, g)
    else let row : UsageRow = record {
      ts = now;
      key_id = a.key_id;
      request_id = request_id;
      endpoint = a.endpoint;
      model = model;
      prompt_tokens = prompt_tokens;
      completion_tokens = completion_tokens;
      cu = actual g.compute prompt_tokens completion_tokens 1;
      status = status;
    } in
      let noted : Gateway = if written then record g { usage = g.usage ++ row ∷ [] } else g in
      (
        record a { finalized = true; slot_held = false },
        if a.slot_held then record noted { limiter = release a.key_id noted.limiter } else noted,
      )

module _ (hash : String → String) where
  -- `_authenticate_token`
  unfoldable pub authenticate_token : Option String → ℕ → Gateway → Gateway × Outcome String
  unfolding verify
  authenticate_token token now g = elim (truthy token) [
    | none ↦ (
      g,
      if g.settings.require_auth
          then Outcome.raised Denied.missing_api_key
          else Outcome.returned local_key_id,
    )
    | some t ↦
        let seen = verify hash t now g.db in
        (
          record g { db = seen.0 },
          elim seen.1 [
            | some row ↦ Outcome.returned row.id
            | none ↦
                if g.settings.require_auth
                then Outcome.raised Denied.invalid_api_key
                else Outcome.returned local_key_id
          ],
        )
  ]

  -- `operator_access`
  unfoldable pub operator_access :
      Option String → Option String → ℕ → Gateway → Gateway × OperatorDecision
  unfolding verify is_loopback_client
  operator_access client_host token now g = elim (truthy token) [
    | some t ↦
        let seen = verify hash t now g.db in
        (
          record g { db = seen.0 },
          elim seen.1 [
            | none ↦ record { access = OperatorAccess.unauthenticated; key = none }
            | some row ↦
                if is_null row.client_id
                then record { access = OperatorAccess.allowed; key = some row }
                else record { access = OperatorAccess.forbidden_role; key = some row }
          ],
        )
    | none ↦ (
      g,
      record {
        access =
            if not g.settings.require_auth && is_loopback_client client_host
            then OperatorAccess.allowed
            else OperatorAccess.unauthenticated;
        key = none;
      },
    )
  ]

-- The limits of a window, its remaining units and its reset, in whole numbers.
abbrev window_headers : String → String → String → WindowUsage → List (String × ℕ)
window_headers limit left reset w = elim (remaining w) [
  | none ↦ []
  | some n ↦ (limit, w.limit) ∷ (left, n) ∷ (reset, w.reset_at) ∷ []
]

-- `_quota_headers`, with the numbers that it prints
unfoldable pub quota_headers : WindowUsage → WindowUsage → List (String × ℕ)
unfolding remaining
quota_headers u5h uweek =
    window_headers "x-ratelimit-limit-cu-5h" "x-ratelimit-remaining-cu-5h" "x-ratelimit-reset-cu-5h"
      u5h
    ++ window_headers "x-ratelimit-limit-cu-week" "x-ratelimit-remaining-cu-week"
        "x-ratelimit-reset-cu-week" uweek

abbrev pub model_entitled : Option (List String) → Option String → Bool
model_entitled none model = true
model_entitled (some allowed) none = true
model_entitled (some allowed) (some m) = any (λ a. str_eq a m) allowed

-- The limits of the settings, for a key without an entitlement
abbrev pub engine_wide : Gateway → Limits
engine_wide g = record {
  quota_5h_cu = g.settings.quota_5h_cu;
  quota_weekly_cu = g.settings.quota_weekly_cu;
  rate_override = none;
}

abbrev pub plan_limits : Entitlement → Limits
plan_limits e = record {
  quota_5h_cu = e.quota_5h_cu;
  quota_weekly_cu = e.quota_weekly_cu;
  rate_override = e.rate_limit_per_min;
}

-- What `authorize_token` makes of the key's `access_state`.
unfoldable pub limits_of : Access → Option Entitlement → Option String → Gateway → Outcome Limits
limits_of Access.revoked e model g = Outcome.raised Denied.key_revoked
limits_of Access.suspended e model g = Outcome.raised Denied.key_suspended
limits_of Access.active none model g = Outcome.returned (engine_wide g)
limits_of Access.active (some e) model g =
    if model_entitled e.allowed_models model
    then Outcome.returned (plan_limits e)
    else Outcome.raised Denied.model_not_entitled

-- The billing part of `authorize_token`: what limits apply to the key.
unfoldable pub resolve_limits : String → Option String → Gateway → Outcome Limits
unfolding key_access limits_of
resolve_limits key_id model g =
    let state = key_access g.settings.default_plan key_id g.db in
    if g.settings.has_billing
    then limits_of state.status state.entitlement model g
    else Outcome.returned (engine_wide g)

-- The end of `authorize_token`, where the key holds a slot.
unfoldable pub check_quota :
    Request → ℕ → Limits → ApiAccess → Gateway → Gateway × Outcome ApiAccess
unfolding abort quota_headers would_exceed usage_5h usage_weekly estimate estimate_prompt_tokens
check_quota r now lim a g =
    let needed : ℕ = estimate g.compute (estimate_prompt_tokens r.prompt_len) r.max_tokens 1 in
    let u5h : WindowUsage = usage_5h a.key_id lim.quota_5h_cu now g.usage in
    let uweek : WindowUsage = usage_weekly a.key_id lim.quota_weekly_cu now g.usage in
    let headers : List (String × ℕ) = quota_headers u5h uweek in
    if would_exceed uweek needed
    then (
      (abort a g).1,
      Outcome.raised (Denied.weekly_quota_exceeded headers (uweek.reset_at - now)),
    )
    else if would_exceed u5h needed
    then ((abort a g).1, Outcome.raised (Denied.quota_5h_exceeded headers))
    else (g, Outcome.returned (record a { headers = headers }))

-- The rate and the concurrency limit, and then the quota.
unfoldable pub admit : Request → ℕ → Limits → ApiAccess → Gateway → Gateway × Outcome ApiAccess
unfolding check_rate acquire check_quota
admit r now lim a g =
    let rated = check_rate a.key_id now lim.rate_override g.limiter in
    let taken = acquire a.key_id rated.0 in
    if not rated.1
    then (record g { limiter = rated.0 }, Outcome.raised Denied.rate_limit_exceeded)
    else if not taken.1
    then (record g { limiter = taken.0 }, Outcome.raised Denied.concurrency_limit_exceeded)
    else check_quota r now lim (record a { slot_held = true }) (record g { limiter = taken.0 })

-- `ApiAccess(gateway=self, key_id=key_id, endpoint=endpoint)`
abbrev pub new_access : String → String → ApiAccess
new_access key_id endpoint = record {
  key_id = key_id;
  endpoint = endpoint;
  headers = [];
  slot_held = false;
  finalized = false;
}

-- `authorize_token`
unfoldable pub authorize_token :
    (String → String) → Request → ℕ → Gateway → Gateway × Outcome ApiAccess
unfolding authenticate_token resolve_limits admit
authorize_token hash r now g =
    let seen = authenticate_token hash r.token now g in
    elim seen.1 [
      | Outcome.raised d ↦ (seen.0, Outcome.raised d)
      | Outcome.returned key_id ↦
          let access : ApiAccess = new_access key_id r.endpoint in
          if str_eq key_id local_key_id
          then (seen.0, Outcome.returned access)
          else elim (resolve_limits key_id r.model seen.0) [
            | Outcome.raised d ↦ (seen.0, Outcome.raised d)
            | Outcome.returned lim ↦ admit r now lim access seen.0
          ]
    ]
