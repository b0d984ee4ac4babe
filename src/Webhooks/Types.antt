-- ===== src/Webhooks/Types.antt =====
-- The rows of the outbound webhook tables (engine/store/migrations 0007), and what the store and
-- the delivery worker keep of them.
use inference_engine.Prelude.{ℕ, Bool, Option, List, String}

-- No list of event types is all of them.
pub record Endpoint : Type 0 where
  pub id : String
  pub client_id : String
  pub url : String
  pub description : Option String
  pub disabled : Bool
  pub event_types : Option (List String)

-- A row of `webhook_secrets`.
pub record SecretRow : Type 0 where
  pub id : String
  pub endpoint_id : String
  pub secret : String
  pub created_at : ℕ
  pub expires_at : Option ℕ

pub data Status : Type 0 where
  pending succeeded failed dead : Status

pub record Delivery : Type 0 where
  pub id : String
  pub endpoint_id : String
  pub event_id : String
  pub event_type : String
  pub payload : String
  pub status : Status
  pub attempts : ℕ
  pub next_attempt_at : ℕ
  pub last_status_code : Option ℕ
  pub last_error : Option String
  pub created_at : ℕ
  pub updated_at : ℕ

pub record Store : Type 0 where
  pub endpoints : List Endpoint
  pub secrets : List SecretRow
  pub deliveries : List Delivery
