-- ===== src/Stripe/Types.antt =====
-- The fields of a Stripe event that engine/billing/stripe.py reads, and what a delivery answers.
use inference_engine.Prelude.{Option, String}

-- An absent field is `none`; a field that is present is taken to be a text.
pub record Event : Type 0 where
  pub event_id : Option String
  pub event_type : Option String
  pub customer : Option String
  pub object_id : Option String
  pub email : Option String
  pub status : Option String
  pub metadata_plan : Option String
  pub current_period_end : Option String

pub data Action : Type 0 where
  activated plan_changed suspended canceled ignored : Action

pub record LifecycleResult : Type 0 where
  pub action : Action
  pub client_id : Option String

-- The answers of `stripe_webhook` to a verified body.
pub data Reply : Type 0 where
  invalid_payload : Reply
  duplicate : String → Reply
  processing_failed : Reply
  processed : LifecycleResult → Reply
