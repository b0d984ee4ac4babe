-- ===== src/Stripe/Tests.antt =====
-- A client with a key, a plan and Stripe events about them.
use inference_engine.Prelude.{
  ℕ, ◌≡◌, ◌↔◌, refl, false, Option, none, some, [], ◌∷◌, String, str_append,
}
use inference_engine.Accounts.{
  key_access, verify, get_client_by_external_ref, owned_by, entitlement_of,
}
use inference_engine.Accounts.Types.{KeyRow, KeyStatus, Client, ClientStatus, Plan, Db}
use inference_engine.Stripe.{handle_event, stripe_webhook, result_of}
use inference_engine.Stripe.Types.{Event, Action, LifecycleResult, Reply}
use inference_engine.Stripe.Lockout.{handle_event_revives_none, deleted_locks_out}
use inference_engine.Stripe.Webhook.{deliver_all, processed_once, is_processed}
use inference_engine.Stripe.Entitlement.{IsEntitled, delivered_entitlement}

abbrev mark : String → String
mark s = str_append "h:" s

abbrev alice : Client
alice = record {
  id = "c1";
  external_ref = some "cus_1";
  email = none;
  status = ClientStatus.active;
  created_at = 1;
}

abbrev key_of : String → Option String → KeyRow
key_of name owner = record {
  id = name;
  key_hash = str_append "h:" name;
  prefix = name;
  label = none;
  created_at = 1;
  last_used_at = none;
  revoked_at = none;
  client_id = owner;
  status = KeyStatus.active;
}

abbrev pro : Plan
pro = record {
  id = "pro";
  name = "Pro";
  quota_5h_cu = 100;
  quota_weekly_cu = 1000;
  rate_limit_per_min = some 60;
  allowed_models = none;
}

abbrev shop : Db
shop = record {
  keys = key_of "a" (some "c1") ∷ key_of "b" none ∷ [];
  clients = alice ∷ [];
  plans = pro ∷ [];
  subscriptions = [];
  events = [];
}

abbrev event_of : String → String → Event
event_of id type = record {
  event_id = some id;
  event_type = some type;
  customer = some "cus_1";
  object_id = some "sub_1";
  email = none;
  status = some "trialing";
  metadata_plan = some "pro";
  current_period_end = none;
}

abbrev subscribe : Event
subscribe = event_of "e1" "customer.subscription.created"

abbrev delete : Event
delete = event_of "e2" "customer.subscription.deleted"

abbrev outcome : Option (Db × LifecycleResult) → Db × LifecycleResult
outcome none = (shop, record { action = Action.ignored; client_id = none })
outcome (some out) = out

abbrev after_delete : Db × LifecycleResult
after_delete = outcome (handle_event "u" 20 delete shop)

delete_handled : handle_event "u" 20 delete shop ≡ some after_delete
unfolding handle_event
delete_handled = refl

alice_refused : (verify mark "a" 30 after_delete.0).1 ≡ none
unfolding verify handle_event
alice_refused = refl

other_accepted : (verify mark "b" 30 after_delete.0).1 ≡ some (key_of "b" none)
unfolding verify handle_event
other_accepted = refl

subscribed :
    (stripe_webhook "u" 10 subscribe shop).1 ≡ Reply.processed (result_of Action.activated "c1")
unfolding stripe_webhook
subscribed = refl

entitled :
    (key_access none "a" (deliver_all (("u", (10, subscribe)) ∷ []) shop)).entitlement
    ≡ some (entitlement_of pro)
unfolding key_access stripe_webhook
entitled = refl

-- An id that is in use makes the processing raise: the new customer's client cannot be created.
abbrev clash : Event
clash = record subscribe { customer = some "cus_2" }

clash_fails : (stripe_webhook "c1" 10 clash shop).1 ≡ Reply.processing_failed
unfolding stripe_webhook
clash_fails = refl

clash_unprocessed : is_processed (stripe_webhook "c1" 10 clash shop).1 ≡ false
unfolding stripe_webhook
clash_unprocessed = refl

alice_found : get_client_by_external_ref "cus_1" shop ≡ some alice
unfolding get_client_by_external_ref
alice_found = refl

handle_event_revives_none_example : (verify mark "b" 40 shop).1 ≡ some (key_of "b" none)
handle_event_revives_none_example =
    handle_event_revives_none mark "b" "u" 20 30 40 delete shop after_delete (key_of "b" none)
      delete_handled other_accepted

deleted_locks_out_example :
    (after_delete.1 ≡ result_of Action.canceled alice.id)
    × ((token : String) (n m : ℕ) (row : KeyRow)
        → ((verify mark token n after_delete.0).1 ≡ some row)
          ↔ (((verify mark token m shop).1 ≡ some row) × (owned_by alice.id row ≡ false)))
deleted_locks_out_example =
    deleted_locks_out mark "u" 20 delete shop after_delete "cus_1" alice refl refl alice_found
      delete_handled

processed_once_example :
    stripe_webhook "v" 50 subscribe
      (deliver_all (("w", (20, delete)) ∷ []) (stripe_webhook "u" 10 subscribe shop).0)
    ≡ (
      deliver_all (("w", (20, delete)) ∷ []) (stripe_webhook "u" 10 subscribe shop).0,
      Reply.duplicate "e1",
    )
processed_once_example =
    processed_once "u" "v" 10 50 subscribe subscribe shop (("w", (20, delete)) ∷ []) "e1"
      (result_of Action.activated "c1") refl refl subscribed

delivered_entitlement_example :
    IsEntitled shop.plans none "a"
      (deliver_all (("u", (10, subscribe)) ∷ []) shop)
      (entitlement_of pro)
delivered_entitlement_example =
    delivered_entitlement (("u", (10, subscribe)) ∷ []) none "a" shop (entitlement_of pro) entitled
