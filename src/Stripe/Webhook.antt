-- ===== src/Stripe/Webhook.antt =====
-- Each event id is handled once, a failed delivery leaves no trace, and no sequence of deliveries
-- makes an entitlement (engine/api/billing_router.py with engine/billing/stripe.py).

use inference_engine.Prelude.{
  ℕ, ◌≡◌, refl, sym, ap, subst, ◌∙◌, inl, inr, Bool, true, false, ◌&&◌, none, some, List, [], ◌∷◌,
  ◌++◌, String, map, set_if, any, update_where, delete_where, truthy, str_eq, arith, Bool-cases,
  Option-cases, some_inj,
}
use inference_engine.Accounts.{record_event_once, mark_event_processed, forget_event}
use inference_engine.Accounts.Types.{InboundEvent, Db}
use inference_engine.Prelude.{str_eq_self}
use inference_engine.Stripe.{handle_event, stripe_webhook, provider_name, action_text}
use inference_engine.Stripe.Keys.{handle_event-Leaves}
use inference_engine.Stripe.Types.{Event, LifecycleResult, Reply}

-- The row of an event id.
abbrev pub same_event : String → InboundEvent → Bool
same_event id e = str_eq e.provider provider_name && str_eq e.event_id id

abbrev pub seen : String → Db → Bool
seen id db = any (same_event id) db.events

delete_where-append :
    {A : Type 0} (q : A → Bool) (xs : List A) (y : A)
    → any q xs ≡ false
    → q y ≡ true
    → delete_where q (xs ++ y ∷ []) ≡ xs
delete_where-append q [] y h k = rw k refl
delete_where-append q (x ∷ xs) y h k = ground (arith, delete_where-append q xs y)

any-append :
    {A : Type 0} (p : A → Bool) (xs ys : List A) → any p xs ≡ true → any p (xs ++ ys) ≡ true
any-append p [] ys h = cc
any-append p (x ∷ xs) ys h = ground (arith, any-append p xs ys)

any-last :
    {A : Type 0} (p : A → Bool) (xs : List A) (y : A) → p y ≡ true → any p (xs ++ y ∷ []) ≡ true
any-last p [] y h = rw h refl
any-last p (x ∷ xs) y h = ground (arith, any-last p xs y h)

any-map :
    {A : Type 0} (p : A → Bool) (g : A → A) (xs : List A)
    → ((x : A) → p (g x) ≡ p x)
    → any p (map g xs) ≡ any p xs
any-map p g [] h = refl
any-map p g (x ∷ xs) h = ground (arith, h x, any-map p g xs h)

abbrev new_row : Event → String → ℕ → InboundEvent
new_row ev id now = record {
  provider = provider_name;
  event_id = id;
  event_type = ev.event_type;
  received_at = now;
  processed_at = none;
  result = none;
}

abbrev recorded_db : Event → String → ℕ → Db → Db
recorded_db ev id now db = record db { events = db.events ++ new_row ev id now ∷ [] }

abbrev marked_db : String → LifecycleResult → ℕ → Db → Db
marked_db id result now db = record db {
  events =
      update_where (same_event id)
        (λ e. record e { processed_at = some now; result = some (action_text result.action) })
        db.events;
}

-- Forgetting an event id that was just recorded undoes it.
forget_event-record_event_once :
    (ev : Event) (id : String) (now : ℕ) (db : Db)
    → seen id db ≡ false
    → forget_event provider_name id (record_event_once provider_name id ev.event_type now db).0 ≡ db
unfolding record_event_once forget_event
forget_event-record_event_once ev id now db h = rw h (
    ap (λ es. record db { events = es })
      (delete_where-append (same_event id) db.events (new_row ev id now) h
        (rw (str_eq_self id) refl)))

-- The ways a delivery can go.
pub data Went (fresh : String) (now : ℕ) (ev : Event) (db : Db) : Db × Reply → Type 0 where
  no_id : truthy ev.event_id ≡ none → Went fresh now ev db (db, Reply.invalid_payload)
  again :
      (id : String)
      → truthy ev.event_id ≡ some id
      → seen id db ≡ true
      → Went fresh now ev db (db, Reply.duplicate id)
  failed :
      (id : String)
      → truthy ev.event_id ≡ some id
      → seen id db ≡ false
      → Went fresh now ev db (db, Reply.processing_failed)
  done :
      (id : String) (out : Db × LifecycleResult)
      → truthy ev.event_id ≡ some id
      → seen id db ≡ false
      → handle_event fresh now ev (recorded_db ev id now db) ≡ some out
      → Went fresh now ev db (marked_db id out.1 now out.0, Reply.processed out.1)

pub stripe_webhook-Went :
    (fresh : String) (now : ℕ) (ev : Event) (db : Db)
    → Went fresh now ev db (stripe_webhook fresh now ev db)
unfolding stripe_webhook record_event_once mark_event_processed forget_event
stripe_webhook-Went fresh now ev db = elim (Option-cases (truthy ev.event_id)) [
  | inl a ↦ rw (stripe_webhook, a) (Went.no_id a)
  | inr (id, a) ↦ elim (Bool-cases (seen id db)) [
    | inl b ↦ rw (stripe_webhook, a, b) (Went.again id a b)
    | inr b ↦ elim (Option-cases (handle_event fresh now ev (recorded_db ev id now db))) [
      | inl c ↦
          rw (stripe_webhook, a, b, c)
            (subst (λ d. Went fresh now ev db (d, Reply.processing_failed))
              (sym (forget_event-record_event_once ev id now db b)) (Went.failed id a b))
      | inr (out, c) ↦ rw (stripe_webhook, a, b, c) (Went.done id out a b c)
    ]
  ]
]

-- The store after a sequence of deliveries, each with its drawn id and its moment.
abbrev pub deliver_all : List (String × (ℕ × Event)) → Db → Db
deliver_all [] db = db
deliver_all ((fresh, (now, ev)) ∷ ds) db = deliver_all ds (stripe_webhook fresh now ev db).0

seen-recorded :
    (ev : Event) (id other : String) (now : ℕ) (db : Db)
    → seen other db ≡ true
    → seen other (recorded_db ev id now db) ≡ true
seen-recorded ev id other now db h =
    any-append (same_event other) db.events (new_row ev id now ∷ []) h

seen-marked :
    (id other : String) (result : LifecycleResult) (now : ℕ) (db : Db)
    → seen other db ≡ true
    → seen other (marked_db id result now db) ≡ true
seen-marked id other result now db h =
    any-map (same_event other)
      (set_if (same_event id)
        (λ e. record e { processed_at = some now; result = some (action_text result.action) }))
      db.events (λ e. elim (Bool-cases (same_event id e)) [ inl a ↦ rw a refl | inr a ↦ rw a refl ])
    ∙ h

seen-delivered :
    (fresh : String) (now : ℕ) (ev : Event) (db : Db) (other : String)
    → seen other db ≡ true
    → seen other (stripe_webhook fresh now ev db).0 ≡ true
seen-delivered fresh now ev db other h = go (stripe_webhook-Went fresh now ev db)
  where
    go : {r : Db × Reply} → Went fresh now ev db r → seen other r.0 ≡ true
    go (Went.no_id a) = h
    go (Went.again id a b) = h
    go (Went.failed id a b) = h
    go (Went.done id out a b c) =
        let l = handle_event-Leaves fresh now ev (recorded_db ev id now db) out c in
        seen-marked id other out.1 now out.0
          (ap (any (same_event other)) l.same_events ∙ seen-recorded ev id other now db h)

pub seen-deliver_all :
    (ds : List (String × (ℕ × Event))) (db : Db) (other : String)
    → seen other db ≡ true
    → seen other (deliver_all ds db) ≡ true
seen-deliver_all [] db other h = h
seen-deliver_all ((fresh, (now, ev)) ∷ ds) db other h =
    seen-deliver_all ds (stripe_webhook fresh now ev db).0 other
      (seen-delivered fresh now ev db other h)

processed-seen :
    (fresh : String) (now : ℕ) (ev : Event) (db : Db) (id : String) (result : LifecycleResult)
    → truthy ev.event_id ≡ some id
    → (stripe_webhook fresh now ev db).1 ≡ Reply.processed result
    → seen id (stripe_webhook fresh now ev db).0 ≡ true
processed-seen fresh now ev db id result e h = go (stripe_webhook-Went fresh now ev db) h
  where
    go :
        {r : Db × Reply}
        → Went fresh now ev db r
        → r.1 ≡ Reply.processed result
        → seen id r.0 ≡ true
    go (Went.no_id a) k = cc
    go (Went.again other a b) k = cc
    go (Went.failed other a b) k = cc
    go (Went.done other out a b c) k =
        let l = handle_event-Leaves fresh now ev (recorded_db ev other now db) out c in
        let i : other ≡ id = some_inj other id (sym a ∙ e) in
        seen-marked other id out.1 now out.0 (
          ap (any (same_event id)) l.same_events
          ∙ any-last (same_event id) db.events (new_row ev other now)
              (rw i (rw (str_eq_self id) refl)))

seen-duplicate :
    (fresh : String) (now : ℕ) (ev : Event) (db : Db) (id : String)
    → truthy ev.event_id ≡ some id
    → seen id db ≡ true
    → stripe_webhook fresh now ev db ≡ (db, Reply.duplicate id)
unfolding stripe_webhook record_event_once
seen-duplicate fresh now ev db id a b = rw (stripe_webhook, a, b) refl

-- An event id takes effect at most once: after a delivery of it was processed, and after any
-- sequence of further deliveries, a delivery with the same id answers that it is a duplicate and
-- leaves the store as it was.
pub processed_once :
    (fresh fresh' : String) (now now' : ℕ) (ev ev' : Event) (db : Db)
    (ds : List (String × (ℕ × Event))) (id : String) (result : LifecycleResult)
    → truthy ev.event_id ≡ some id
    → truthy ev'.event_id ≡ some id
    → (stripe_webhook fresh now ev db).1 ≡ Reply.processed result
    → stripe_webhook fresh' now' ev' (deliver_all ds (stripe_webhook fresh now ev db).0)
      ≡ (deliver_all ds (stripe_webhook fresh now ev db).0, Reply.duplicate id)
processed_once fresh fresh' now now' ev ev' db ds id result a a' h =
    seen-duplicate fresh' now' ev' (deliver_all ds (stripe_webhook fresh now ev db).0) id a' (
      seen-deliver_all ds (stripe_webhook fresh now ev db).0 id
        (processed-seen fresh now ev db id result a h))

abbrev pub is_processed : Reply → Bool
is_processed Reply.invalid_payload = false
is_processed (Reply.duplicate id) = false
is_processed Reply.processing_failed = false
is_processed (Reply.processed result) = true

-- A delivery that is not answered as processed leaves the store as it was: also one whose
-- processing raised, whose event id is free again.
pub unprocessed_unchanged :
    (fresh : String) (now : ℕ) (ev : Event) (db : Db)
    → is_processed (stripe_webhook fresh now ev db).1 ≡ false
    → (stripe_webhook fresh now ev db).0 ≡ db
unprocessed_unchanged fresh now ev db h = go (stripe_webhook-Went fresh now ev db) h
  where
    go : {r : Db × Reply} → Went fresh now ev db r → is_processed r.1 ≡ false → r.0 ≡ db
    go (Went.no_id a) k = refl
    go (Went.again id a b) k = refl
    go (Went.failed id a b) k = refl
    go (Went.done id out a b c) k = cc
