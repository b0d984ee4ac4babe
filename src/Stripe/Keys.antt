-- ===== src/Stripe/Keys.antt =====
-- What a Stripe event leaves of the keys and the plans.

use inference_engine.Prelude.{
  ℕ, ◌≡◌, refl, ap, ◌⊎◌, inl, inr, ◌&&◌, Option, some, List, String, update_where, is_null, truthy,
  str_eq, if-rule, ◌||◌, arith, Bool-cases, Option-cases, some_inj,
}
use inference_engine.Accounts.{
  create_client, get_client_by_external_ref, revoke_client_keys, set_client_status,
  upsert_subscription, owned_by,
}
use inference_engine.Accounts.Types.{KeyRow, KeyStatus, Db}
use inference_engine.Stripe.{
  ensure_client, handle_subscription, handle_payment_failed, handle_deleted, handle_event,
  cancel_subscription, ignored, is_active_state, status_of, type_of,
}
use inference_engine.Stripe.Types.{Event, LifecycleResult}

-- The store differs in neither keys nor plans.
pub record IsSame (db db' : Db) : Type 0 where
  pub same_keys : db'.keys ≡ db.keys
  pub same_plans : db'.plans ≡ db.plans
  pub same_events : db'.events ≡ db.events

pub ensure_client-IsSame :
    (fresh ref : String) (email : Option String) (now : ℕ) (db : Db) (out : Db × String)
    → ensure_client fresh ref email now db ≡ some out
    → IsSame db out.0
unfolding ensure_client create_client get_client_by_external_ref
ensure_client-IsSame fresh ref email now db out h = record {
  same_keys = ground arith;
  same_plans = ground arith;
  same_events = ground arith;
}

pub handle_subscription-IsSame :
    (fresh : String) (now : ℕ) (ev : Event) (db : Db) (out : Db × LifecycleResult)
    → handle_subscription fresh now ev db ≡ some out
    → IsSame db out.0
unfolding handle_subscription upsert_subscription set_client_status
handle_subscription-IsSame fresh now ev db out h = elim (Option-cases (truthy ev.customer)) [
  | inl a ↦
      let e = some_inj _ out (rw (handle_subscription, a) at h) in
      rw (← e) (record { same_keys = refl; same_plans = refl; same_events = refl })
  | inr (ref, a) ↦ elim (Option-cases (truthy ev.object_id)) [
    | inl b ↦
        let e = some_inj _ out (rw (handle_subscription, a, b) at h) in
        rw (← e) (record { same_keys = refl; same_plans = refl; same_events = refl })
    | inr (sub_id, b) ↦ elim (Option-cases (ensure_client fresh ref ev.email now db)) [
      | inl c ↦ let e = rw (handle_subscription, a, b, c) at h in cc
      | inr (made, c) ↦
          let l = ensure_client-IsSame fresh ref ev.email now db made c in
          elim (Bool-cases (is_active_state (status_of ev))) [
            | inl k ↦
                let e = some_inj _ out (rw (handle_subscription, a, b, c, k) at h) in
                rw (← e) (record {
                  same_keys = l.same_keys;
                  same_plans = l.same_plans;
                  same_events = l.same_events;
                })
            | inr k ↦
                let e = some_inj _ out (rw (handle_subscription, a, b, c, k) at h) in
                rw (← e) (record {
                  same_keys = l.same_keys;
                  same_plans = l.same_plans;
                  same_events = l.same_events;
                })
          ]
    ]
  ]
]

pub handle_payment_failed-IsSame :
    (ev : Event) (db : Db) → IsSame db (handle_payment_failed ev db).0
unfolding handle_payment_failed set_client_status get_client_by_external_ref
handle_payment_failed-IsSame ev db = record {
  same_keys = ground arith;
  same_plans = ground arith;
  same_events = ground arith;
}

-- A client's keys, each revoked where it was not.
abbrev pub revoke_owned : String → ℕ → List KeyRow → List KeyRow
revoke_owned client_id now =
    update_where (λ k. owned_by client_id k && is_null k.revoked_at)
      (λ k. record k { status = KeyStatus.revoked; revoked_at = some now })

pub cancel_subscription-IsSame :
    (client_id : String) (now : ℕ) (ev : Event) (db : Db)
    → IsSame db (cancel_subscription client_id now ev db)
unfolding cancel_subscription upsert_subscription
cancel_subscription-IsSame client_id now ev db = record {
  same_keys = ground arith;
  same_plans = ground arith;
  same_events = ground arith;
}

-- The keys after an event: as they were, or with one client's revoked.
abbrev pub KeysAfter : ℕ → List KeyRow → List KeyRow → Type 0
KeysAfter now before after =
    (after ≡ before) ⊎ ((client_id : String) × (after ≡ revoke_owned client_id now before))

pub handle_deleted-keys :
    (now : ℕ) (ev : Event) (db : Db) → KeysAfter now db.keys (handle_deleted now ev db).0.keys
unfolding handle_deleted set_client_status revoke_client_keys
handle_deleted-keys now ev db = elim (Option-cases (truthy ev.customer)) [
  | inl a ↦ rw (handle_deleted, a) (inl refl)
  | inr (ref, a) ↦ elim (Option-cases (get_client_by_external_ref ref db)) [
    | inl b ↦ rw (handle_deleted, a, b) (inl refl)
    | inr (c, b) ↦
        rw (handle_deleted, a, b)
          (inr (
            c.id,
            ap (revoke_owned c.id now) (cancel_subscription-IsSame c.id now ev db).same_keys,
          ))
  ]
]

pub handle_deleted-plans :
    (now : ℕ) (ev : Event) (db : Db)
    → ((handle_deleted now ev db).0.plans ≡ db.plans)
      × ((handle_deleted now ev db).0.events ≡ db.events)
unfolding handle_deleted set_client_status revoke_client_keys
handle_deleted-plans now ev db = elim (Option-cases (truthy ev.customer)) [
  | inl a ↦ rw (handle_deleted, a) (refl, refl)
  | inr (ref, a) ↦ elim (Option-cases (get_client_by_external_ref ref db)) [
    | inl b ↦ rw (handle_deleted, a, b) (refl, refl)
    | inr (c, b) ↦
        let l = cancel_subscription-IsSame c.id now ev db in
        rw (handle_deleted, a, b) (l.same_plans, l.same_events)
  ]
]

pub record Leaves (now : ℕ) (before after : Db) : Type 0 where
  pub keys_after : KeysAfter now before.keys after.keys
  pub same_plans : after.plans ≡ before.plans
  pub same_events : after.events ≡ before.events

pub handle_event-Leaves :
    (fresh : String) (now : ℕ) (ev : Event) (db : Db) (out : Db × LifecycleResult)
    → handle_event fresh now ev db ≡ some out
    → Leaves now db out.0
unfolding handle_event
handle_event-Leaves fresh now ev db out h =
    if-rule (λ r. r ≡ some out → Leaves now db out.0)
      (str_eq (type_of ev) "customer.subscription.created"
        || str_eq (type_of ev) "customer.subscription.updated")
      (λ k g.
        let l = handle_subscription-IsSame fresh now ev db out g in
        record {
          keys_after = inl l.same_keys;
          same_plans = l.same_plans;
          same_events = l.same_events;
        })
      (λ k.
        if-rule (λ r. r ≡ some out → Leaves now db out.0)
          (str_eq (type_of ev) "invoice.payment_failed")
          (λ k₁ g.
            let l = handle_payment_failed-IsSame ev db in
            let e : handle_payment_failed ev db ≡ out = some_inj _ out g in
            rw (← e) record {
              keys_after = inl l.same_keys;
              same_plans = l.same_plans;
              same_events = l.same_events;
            })
          (λ k₁.
            if-rule (λ r. r ≡ some out → Leaves now db out.0)
              (str_eq (type_of ev) "customer.subscription.deleted")
              (λ k₂ g.
                let e : handle_deleted now ev db ≡ out = some_inj _ out g in
                rw (← e) record {
                  keys_after = handle_deleted-keys now ev db;
                  same_plans = (handle_deleted-plans now ev db).0;
                  same_events = (handle_deleted-plans now ev db).1;
                })
              (λ k₂ g.
                let e : (db, ignored) ≡ out = some_inj _ out g in
                rw (← e) record { keys_after = inl refl; same_plans = refl; same_events = refl })))
      h
