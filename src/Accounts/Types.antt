-- ===== src/Accounts/Types.antt =====
-- The rows of the account tables, and what the billing store derives from them.
use inference_engine.Prelude.{ℕ, Option, List, String}

pub data KeyStatus : Type 0 where
  active suspended revoked : KeyStatus

pub data ClientStatus : Type 0 where
  active suspended canceled : ClientStatus

-- A row of `api_keys`.
pub record KeyRow : Type 0 where
  pub id : String
  pub key_hash : String
  pub prefix : String
  pub label : Option String
  pub created_at : ℕ
  pub last_used_at : Option ℕ
  pub revoked_at : Option ℕ
  pub client_id : Option String
  pub status : KeyStatus

pub record Client : Type 0 where
  pub id : String
  pub external_ref : Option String
  pub email : Option String
  pub status : ClientStatus
  pub created_at : ℕ

-- Compute units are natural numbers of a fixed unit; a quota of 0 is no quota.
pub record Plan : Type 0 where
  pub id : String
  pub name : String
  pub quota_5h_cu : ℕ
  pub quota_weekly_cu : ℕ
  pub rate_limit_per_min : Option ℕ
  pub allowed_models : Option (List String)

pub record Subscription : Type 0 where
  pub id : String
  pub client_id : String
  pub plan_id : Option String
  pub provider : String
  pub provider_sub_id : String
  pub status : String
  pub current_period_end : Option String
  pub updated_at : ℕ

-- A row of `webhook_events`.
pub record InboundEvent : Type 0 where
  pub provider : String
  pub event_id : String
  pub event_type : Option String
  pub received_at : ℕ
  pub processed_at : Option ℕ
  pub result : Option String

pub record Db : Type 0 where
  pub keys : List KeyRow
  pub clients : List Client
  pub plans : List Plan
  pub subscriptions : List Subscription
  pub events : List InboundEvent

pub record Entitlement : Type 0 where
  pub plan_id : String
  pub quota_5h_cu : ℕ
  pub quota_weekly_cu : ℕ
  pub rate_limit_per_min : Option ℕ
  pub allowed_models : Option (List String)

-- The effective status of a key.
pub data Access : Type 0 where
  active suspended revoked : Access

pub record KeyAccess : Type 0 where
  pub status : Access
  pub entitlement : Option Entitlement
