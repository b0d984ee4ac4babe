-- ===== src/Stripe.antt =====
-- engine/billing/stripe.py: what a verified Stripe event does to the account tables, and the part
-- of engine/api/billing_router.py that handles each event id once.
pub mod Types
mod Keys
mod Lockout
mod Webhook
mod Entitlement
pub mod Signature
mod Verified
mod SignatureTests
mod Tests
use Types.{Event, Action, LifecycleResult, Reply}
use inference_engine.Prelude.{
  ℕ, Bool, true, false, ◌||◌, Option, none, some, List, String, str_eq, if◌then◌else◌, truthy,
  is_null,
}
use inference_engine.Accounts.{
  create_client, get_plan, get_client_by_external_ref, set_client_status, revoke_client_keys,
  upsert_subscription, get_subscription_by_provider, record_event_once, mark_event_processed,
  forget_event,
}
use inference_engine.Accounts.Types.{ClientStatus, Client, Plan, Subscription, Db}

-- `PROVIDER`
abbrev pub provider_name : String
provider_name = "stripe"

-- `sub_status in _ACTIVE_SUB_STATES`
abbrev pub is_active_state : String → Bool
is_active_state s = str_eq s "active" || str_eq s "trialing"

-- `_ensure_client`; `fresh` is the id drawn for a new client, and `none` the IntegrityError that
-- an id already in use would raise.
unfoldable pub ensure_client : String → String → Option String → ℕ → Db → Option (Db × String)
unfolding get_client_by_external_ref create_client
ensure_client fresh ref email now db = elim (get_client_by_external_ref ref db) [
  | some c ↦ some (db, c.id)
  | none ↦ elim (create_client fresh (some ref) email now db) [
    | none ↦ none
    | some db' ↦ some (db', fresh)
  ]
]

-- `_resolve_plan_id`
unfoldable pub resolve_plan_id : Event → Db → Option String
unfolding get_plan
resolve_plan_id ev db = elim (truthy ev.metadata_plan) [
  | none ↦ none
  | some p ↦ if is_null (get_plan p db) then none else some p
]

-- `event.get("type", "")`
abbrev pub type_of : Event → String
type_of ev = elim ev.event_type [ none ↦ "" | some t ↦ t ]

-- `obj.get("status", "")`
abbrev pub status_of : Event → String
status_of ev = elim ev.status [ none ↦ "" | some s ↦ s ]

abbrev pub ignored : LifecycleResult
ignored = record { action = Action.ignored; client_id = none }

abbrev pub result_of : Action → String → LifecycleResult
result_of a client_id = record { action = a; client_id = some client_id }

-- The row that `handle_event` upserts.
abbrev pub subscription_row : String → String → Option String → String → Event → ℕ → Subscription
subscription_row sub_id client_id plan_id status ev now = record {
  id = sub_id;
  client_id = client_id;
  plan_id = plan_id;
  provider = provider_name;
  provider_sub_id = sub_id;
  status = status;
  current_period_end = ev.current_period_end;
  updated_at = now;
}

-- The branch of `customer.subscription.created` and `customer.subscription.updated`
unfoldable pub handle_subscription : String → ℕ → Event → Db → Option (Db × LifecycleResult)
unfolding ensure_client resolve_plan_id upsert_subscription set_client_status
handle_subscription fresh now ev db = elim (truthy ev.customer) [
  | none ↦ some (db, ignored)
  | some ref ↦ elim (truthy ev.object_id) [
    | none ↦ some (db, ignored)
    | some sub_id ↦ elim (ensure_client fresh ref ev.email now db) [
      | none ↦ none
      | some (db₁, client_id) ↦
          let s : String = status_of ev in
          let recorded : String = if is_active_state s then "active" else s in
          let row : Subscription =
            subscription_row sub_id client_id (resolve_plan_id ev db₁) recorded ev now in
          let db₂ : Db = upsert_subscription row db₁ in
          if is_active_state s
          then some (
            set_client_status client_id ClientStatus.active db₂,
            result_of Action.activated client_id,
          )
          else some (db₂, result_of Action.plan_changed client_id)
    ]
  ]
]

-- The branch of `invoice.payment_failed`
unfoldable pub handle_payment_failed : Event → Db → Db × LifecycleResult
unfolding get_client_by_external_ref set_client_status
handle_payment_failed ev db = elim (truthy ev.customer) [
  | none ↦ (db, ignored)
  | some ref ↦ elim (get_client_by_external_ref ref db) [
    | none ↦ (db, ignored)
    | some c ↦ (set_client_status c.id ClientStatus.suspended db, result_of Action.suspended c.id)
  ]
]

-- The upsert of the branch of `customer.subscription.deleted`
unfoldable pub cancel_subscription : String → ℕ → Event → Db → Db
unfolding upsert_subscription get_subscription_by_provider
cancel_subscription client_id now ev db = elim (truthy ev.object_id) [
  | none ↦ db
  | some sub_id ↦
      let plan_id : Option String = elim (get_subscription_by_provider provider_name sub_id db) [
        | none ↦ none
        | some s ↦ s.plan_id
      ] in
      upsert_subscription (subscription_row sub_id client_id plan_id "canceled" ev now) db
]

unfoldable pub handle_deleted : ℕ → Event → Db → Db × LifecycleResult
unfolding get_client_by_external_ref cancel_subscription set_client_status revoke_client_keys
handle_deleted now ev db = elim (truthy ev.customer) [
  | none ↦ (db, ignored)
  | some ref ↦ elim (get_client_by_external_ref ref db) [
    | none ↦ (db, ignored)
    | some c ↦
        let db₁ : Db = cancel_subscription c.id now ev db in
        let db₂ : Db = set_client_status c.id ClientStatus.canceled db₁ in
        ((revoke_client_keys c.id now db₂).0, result_of Action.canceled c.id)
  ]
]

-- `handle_event`; `none` is the exception that it raises, before its first write.
unfoldable pub handle_event : String → ℕ → Event → Db → Option (Db × LifecycleResult)
unfolding handle_subscription handle_payment_failed handle_deleted
handle_event fresh now ev db =
    if str_eq (type_of ev) "customer.subscription.created"
      || str_eq (type_of ev) "customer.subscription.updated"
    then handle_subscription fresh now ev db
    else if str_eq (type_of ev) "invoice.payment_failed"
    then some (handle_payment_failed ev db)
    else if str_eq (type_of ev) "customer.subscription.deleted"
    then some (handle_deleted now ev db)
    else some (db, ignored)

-- The texts that `LifecycleResult.action` holds
abbrev pub action_text : Action → String
action_text Action.activated = "activated"
action_text Action.plan_changed = "plan_changed"
action_text Action.suspended = "suspended"
action_text Action.canceled = "canceled"
action_text Action.ignored = "ignored"

-- `stripe_webhook` once the signature is verified and the body parsed, without the notification
-- that it emits.
unfoldable pub stripe_webhook : String → ℕ → Event → Db → Db × Reply
unfolding record_event_once handle_event mark_event_processed forget_event
stripe_webhook fresh now ev db = elim (truthy ev.event_id) [
  | none ↦ (db, Reply.invalid_payload)
  | some event_id ↦
      let recorded = record_event_once provider_name event_id ev.event_type now db in
      if recorded.1
      then elim (handle_event fresh now ev recorded.0) [
        | none ↦ (forget_event provider_name event_id recorded.0, Reply.processing_failed)
        | some (db', result) ↦ (
          mark_event_processed provider_name event_id (action_text result.action) now db',
          Reply.processed result,
        )
      ]
      else (db, Reply.duplicate event_id)
]
