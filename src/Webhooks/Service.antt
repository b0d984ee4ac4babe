-- ===== src/Webhooks/Service.antt =====
-- The webhook store in use: callers enqueue, replay and manage endpoints while the delivery worker
-- makes the attempts of the batch that it claimed (engine/billing/webhooks), in any order.
use inference_engine.Prelude.{
  ℕ, ◌+◌, ◌≤◌, ◌<◌, ◌≡◌, refl, inl, inr, Bool, true, false, not, Option, none, some, List, [], ◌∷◌,
  map, any, filter, All, All-append, String, str_eq, set_if, delete_where, arith, Bool-cases,
}
use inference_engine.Accounts.Types.{Db}
use inference_engine.Webhooks.{
  create_endpoint, set_disabled, delete_endpoint, rotate_secret, enqueue_event, replay, claim_due,
  conflicts, insert_or_ignore, new_delivery, fan_out, is_target,
}
use inference_engine.Webhooks.Types.{Endpoint, Delivery, Status, Store}
use inference_engine.Webhooks.Worker.{Config, World, attempt}
use inference_engine.Webhooks.Queue.{
  IsQueue, fan_out-IsQueue, delete_where-IsQueue, update_where-IsQueue, All-filter,
}

-- The store, and what is left of the batch that the worker claimed at the moment `claimed_at`.
pub record Service : Type 0 where
  pub store : Store
  pub batch : List Delivery
  pub claimed_at : ℕ
  pub place : ℕ

pub data Event : Type 0 where
  creates :
      (endpoint_id secret_id secret client_id url : String)
      → Option String
      → Option (List String)
      → ℕ
      → Db
      → Event
  disables : String → Bool → Event
  deletes : String → Event
  rotates : (secret_id secret endpoint_id : String) → (grace now created_at : ℕ) → Event
  enqueues : (String → String) → (client_id event_id event_type payload : String) → ℕ → Event
  replays : String → ℕ → Event
  claims : ℕ → Event
  attempts : Event
  stops : Event

-- An operation that may fail leaves the store as it was where it does.
abbrev pub or_same : Store → Option Store → Store
or_same s none = s
or_same s (some s') = s'

abbrev pub first : {A : Type 0} → Option (Store × A) → Option Store
first none = none
first (some p) = some p.0

abbrev pub with_store : Service → Store → Service
with_store v s = record v { store = s }

-- The worker's next attempt: an exception gives up the batch.
abbrev pub next_attempt : Config → World → List Delivery → Service → Service
next_attempt c w [] v = v
next_attempt c w (d ∷ ds) v = elim (attempt c w v.place d v.claimed_at v.store) [
  | none ↦ record v { batch = [] }
  | some s ↦ record v { store = s; batch = ds; place = v.place + 1 }
]

abbrev pub step : Config → World → Event → Service → Service
step c w (Event.creates e k secret client url description types now db) v = with_store v (
    or_same v.store
      (first (create_endpoint e k secret client url description types now db v.store)))
step c w (Event.disables e b) v = with_store v (set_disabled e b v.store).0
step c w (Event.deletes e) v = with_store v (delete_endpoint e v.store).0
step c w (Event.rotates k secret e grace now created) v =
    with_store v (or_same v.store (rotate_secret k secret e grace now created v.store))
step c w (Event.enqueues draw client event type payload now) v =
    with_store v (enqueue_event draw client event type payload now v.store).0
step c w (Event.replays d now) v = with_store v (replay d now v.store).0
step c w (Event.claims now) v = record {
  store = v.store;
  batch = claim_due now c.batch_limit v.store;
  claimed_at = now;
  place = 0;
}
step c w Event.attempts v = next_attempt c w v.batch v
step c w Event.stops v = record v { batch = [] }

abbrev pub steps : Config → World → List Event → Service → Service
steps c w [] v = v
steps c w (e ∷ es) v = steps c w es (step c w e v)

-- The rows with the id of `d` have no more attempts than it.
abbrev pub Low : Delivery → List Delivery → Type 0
Low d rows = All (λ x. str_eq x.id d.id ≡ true → x.attempts ≤ d.attempts) rows

-- An attempt of the claimed delivery will count on such rows, and is allowed.
abbrev pub Covers : ℕ → List Delivery → Delivery → Type 0
Covers m rows d = (d.attempts < m) × Low d rows

-- No two deliveries of a batch have one id.
abbrev pub Apart : List Delivery → Type 0
Apart [] = Unit
Apart (d ∷ ds) = All (λ x. str_eq x.id d.id ≡ false) ds × Apart ds

pub record IsServing (m : ℕ) (v : Service) : Type 0 where
  pub queue : IsQueue m v.store.deliveries
  pub covered : All (Covers m v.store.deliveries) v.batch
  pub apart : Apart v.batch

-- What the callers' operations do to the rows: they stay a queue, and no row gains attempts.
pub record Changes (m : ℕ) (rows rows' : List Delivery) : Type 0 where
  pub keeps : IsQueue m rows → IsQueue m rows'
  pub lowers : (d : Delivery) → Low d rows → Low d rows'

pub Changes-refl : (m : ℕ) (rows : List Delivery) → Changes m rows rows
Changes-refl m rows = record { keeps = λ q. q; lowers = λ d h. h }

pub Changes-delete_where :
    (m : ℕ) (p : Delivery → Bool) (rows : List Delivery) → Changes m rows (delete_where p rows)
Changes-delete_where m p rows = record {
  keeps = delete_where-IsQueue m p rows;
  lowers = λ d h. All-filter _ (λ x. not (p x)) rows h;
}

map-Low :
    (g : Delivery → Delivery) (d : Delivery) (rows : List Delivery)
    → ((x : Delivery) → ((g x).id ≡ x.id) × ((g x).attempts ≤ x.attempts))
    → Low d rows
    → Low d (map g rows)
map-Low g d [] k h = tt
map-Low g d (x ∷ xs) k h =
    let a = k x in (λ e. let le = h.0 (rw a.0 at e) in omega (arith, le, a.1), map-Low g d xs k h.1)

pub Changes-replay :
    (m : ℕ) (delivery_id : String) (now : ℕ) (s : Store)
    → 0 < m
    → Changes m s.deliveries (replay delivery_id now s).0.deliveries
unfolding replay
Changes-replay m delivery_id now s pos =
    let p : Delivery → Bool = λ d. str_eq d.id delivery_id in
    let f : Delivery → Delivery = λ d. record d {
      status = Status.pending;
      attempts = 0;
      next_attempt_at = now;
      last_error = none;
      updated_at = now;
    } in
    record {
      keeps =
          update_where-IsQueue m p f s.deliveries (λ d. (refl, refl, refl))
            (λ d e b. (omega arith, λ k. omega arith));
      lowers = λ d h.
          map-Low (set_if p f) d s.deliveries
            (λ x. elim (Bool-cases (p x)) [
              | inl e ↦ rw e (refl, omega arith)
              | inr e ↦ rw e (refl, omega arith)
            ])
            h;
    }

insert_or_ignore-Low :
    (n d : Delivery) (rows : List Delivery)
    → n.attempts ≡ 0
    → Low d rows
    → Low d (insert_or_ignore n rows)
insert_or_ignore-Low n d rows z h = elim (Bool-cases (any (conflicts n) rows)) [
  | inl k ↦ rw k h
  | inr k ↦ rw k (All-append _ rows (n ∷ []) h (λ e. rw z (omega arith), tt))
]

fan_out-Low :
    (row : Endpoint → Delivery) (d : Delivery) (es : List Endpoint) (rows : List Delivery)
    → ((e : Endpoint) → (row e).attempts ≡ 0)
    → Low d rows
    → Low d (fan_out row es rows).0
unfolding fan_out
fan_out-Low row d [] rows z h = h
fan_out-Low row d (e ∷ es) rows z h =
    fan_out-Low row d es (insert_or_ignore (row e) rows) z
      (insert_or_ignore-Low (row e) d rows (z e) h)

pub Changes-enqueue_event :
    (m : ℕ) (draw : String → String) (client event type payload : String) (now : ℕ) (s : Store)
    → 0 < m
    → Changes m s.deliveries (enqueue_event draw client event type payload now s).0.deliveries
unfolding enqueue_event
Changes-enqueue_event m draw client event type payload now s pos =
    let row = new_delivery draw event type payload now in
    let targets = filter (is_target client type) s.endpoints in
    record {
      keeps = fan_out-IsQueue m row targets s.deliveries (λ e. (omega arith, λ k. omega arith));
      lowers = λ d. fan_out-Low row d targets s.deliveries (λ e. refl);
    }

Covers-Changes :
    (m : ℕ) (rows rows' batch : List Delivery)
    → Changes m rows rows'
    → All (Covers m rows) batch
    → All (Covers m rows') batch
Covers-Changes m rows rows' [] c h = tt
Covers-Changes m rows rows' (d ∷ ds) c h =
    ((h.0.0, c.lowers d h.0.1), Covers-Changes m rows rows' ds c h.1)

pub with_store-IsServing :
    (m : ℕ) (v : Service) (s : Store)
    → Changes m v.store.deliveries s.deliveries
    → IsServing m v
    → IsServing m (with_store v s)
with_store-IsServing m v s c i = record {
  queue = c.keeps i.queue;
  covered = Covers-Changes m v.store.deliveries s.deliveries v.batch c i.covered;
  apart = i.apart;
}
