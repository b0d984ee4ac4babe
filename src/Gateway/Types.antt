-- ===== src/Gateway/Types.antt =====
-- The state of the gateway (engine/gateway.py) and of the usage store (engine/quota/store.py).
use inference_engine.Prelude.{ℕ, Bool, Option, List, String}
use inference_engine.Accounts.Types.{KeyRow, Db}

-- `Limiter`: key to (minute bucket, count), and key to requests in flight.  A limit of 0 is no
-- limit.
pub record Limiter : Type 0 where
  pub rate : ℕ
  pub max_concurrent : ℕ
  pub windows : List (String × (ℕ × ℕ))
  pub inflight : List (String × ℕ)

-- A row of `usage_events`.
pub record UsageRow : Type 0 where
  pub ts : ℕ
  pub key_id : String
  pub request_id : String
  pub endpoint : String
  pub model : Option String
  pub prompt_tokens : ℕ
  pub completion_tokens : ℕ
  pub cu : ℕ
  pub status : ℕ

pub record WindowUsage : Type 0 where
  pub used : ℕ
  pub limit : ℕ
  pub reset_at : ℕ

pub record ComputeModel : Type 0 where
  pub prompt_weight : ℕ
  pub completion_weight : ℕ

-- The settings that the gateway reads.
pub record Settings : Type 0 where
  pub require_auth : Bool
  pub quota_5h_cu : ℕ
  pub quota_weekly_cu : ℕ
  pub has_billing : Bool
  pub default_plan : Option String

pub record Gateway : Type 0 where
  pub settings : Settings
  pub compute : ComputeModel
  pub limiter : Limiter
  pub db : Db
  pub usage : List UsageRow

-- `ApiAccess`
pub record ApiAccess : Type 0 where
  pub key_id : String
  pub endpoint : String
  pub headers : List (String × ℕ)
  pub slot_held : Bool
  pub finalized : Bool

-- The errors that `authorize_token` raises, by their codes; the two windows of `quota_exceeded`
-- are told apart by their messages.
pub data Denied : Type 0 where
  missing_api_key invalid_api_key key_revoked key_suspended model_not_entitled : Denied
  rate_limit_exceeded concurrency_limit_exceeded : Denied
  weekly_quota_exceeded : List (String × ℕ) → ℕ → Denied
  quota_5h_exceeded : List (String × ℕ) → Denied

-- How a step that may raise ends.
pub data Outcome {ℓ} (A : Type ℓ) : Type ℓ where
  raised : Denied → Outcome A
  returned : A → Outcome A

pub record Limits : Type 0 where
  pub quota_5h_cu : ℕ
  pub quota_weekly_cu : ℕ
  pub rate_override : Option ℕ

pub record Request : Type 0 where
  pub token : Option String
  pub prompt_len : ℕ
  pub max_tokens : ℕ
  pub endpoint : String
  pub model : Option String

pub data OperatorAccess : Type 0 where
  allowed unauthenticated forbidden_role : OperatorAccess

pub record OperatorDecision : Type 0 where
  pub access : OperatorAccess
  pub key : Option KeyRow
