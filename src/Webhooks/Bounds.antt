-- ===== src/Webhooks/Bounds.antt =====
-- The attempts of the delivery worker stay within the limit, whatever the callers of the store do
-- meanwhile (engine/billing/webhooks).
use inference_engine.Prelude.{
  ℕ, ◌+◌, ◌<◌, ◌≡◌, refl, sym, ◌∙◌, subst, ◌⊎◌, inl, inr, Bool, true, false, Option, none, some,
  List, [], ◌∷◌, map, All, String, str_eq, str_eq_iff, set_if, arith, Bool-cases, Option-cases, max,
}
use inference_engine.Accounts.Types.{Db}
use inference_engine.Webhooks.{
  create_endpoint, set_disabled, delete_endpoint, rotate_secret, update, coalesce, is_pending,
}
use inference_engine.Webhooks.Types.{Delivery, Status, Store}
use inference_engine.Webhooks.Worker.{Config, World, attempt, configure}
use inference_engine.Webhooks.Queue.{IsBounded, IsUnique, IsQueue, map-IsUnique, set_if-KeepsIds}
use inference_engine.Webhooks.Attempts.{Attempted, attempt-Attempted, is_over}
use inference_engine.Webhooks.Claims.{claim_due-Apart, claim_due-Covers}
use inference_engine.Webhooks.Service.{
  Service, Event, step, steps, next_attempt, or_same, first, with_store, Low, Covers, Apart,
  IsServing, Changes, Changes-refl, Changes-delete_where, Changes-replay, Changes-enqueue_event,
  with_store-IsServing,
}

-- What an attempt of `d` does to the rows.
module _ (m : ℕ) (d : Delivery) (status : Status) (code : Option ℕ) (error : Option String)
    (next : Option ℕ) (now : ℕ) where
  abbrev count_up : Delivery → Delivery
  count_up x = record x {
    status = status;
    attempts = x.attempts + 1;
    last_status_code = code;
    last_error = error;
    next_attempt_at = coalesce next x.next_attempt_at;
    updated_at = now;
  }

  abbrev settled : List Delivery → List Delivery
  settled = map (set_if (λ x. str_eq x.id d.id) count_up)

  settled-IsBounded :
      (rows : List Delivery)
      → d.attempts < m
      → (is_over status ≡ true) ⊎ (d.attempts + 1 < m)
      → Low d rows
      → All (IsBounded m) rows
      → All (IsBounded m) (settled rows)
  settled-IsBounded [] lt o l b = tt
  settled-IsBounded (x ∷ xs) lt o l b = (
    elim (Bool-cases (str_eq x.id d.id)) [
      | inr e ↦ rw e b.0
      | inl e ↦
          let le = l.0 e in
          rw e (
            omega arith,
            λ p. elim o [
              | inl over ↦ absurd (over_or_pending status over p)
              | inr more ↦ omega arith
            ],
          )
    ],
    settled-IsBounded xs lt o l.1 b.1,
  )
    where
      over_or_pending :
          (s : Status) → is_over s ≡ true → is_pending (record d { status = s }) ≡ true → ⊥
      over_or_pending Status.pending a b = cc
      over_or_pending Status.succeeded a b = cc
      over_or_pending Status.failed a b = cc
      over_or_pending Status.dead a b = cc

  settled-IsUnique : (rows : List Delivery) → IsUnique rows → IsUnique (settled rows)
  settled-IsUnique rows u =
      map-IsUnique _ rows
        (set_if-KeepsIds (λ x. str_eq x.id d.id) count_up (λ x. (refl, refl, refl))) u

  -- The other deliveries of the batch do not notice.
  settled-Low :
      (e : Delivery) (rows : List Delivery)
      → str_eq e.id d.id ≡ false
      → Low e rows
      → Low e (settled rows)
  settled-Low e [] apart l = tt
  settled-Low e (x ∷ xs) apart l = (
    elim (Bool-cases (str_eq x.id d.id)) [
      | inr k ↦ rw k l.0
      | inl k ↦ rw k (λ same. cc (str_eq-swap x.id d.id e.id k same, apart))
    ],
    settled-Low e xs apart l.1,
  )
    where
      str_eq-swap : (a b c : String) → str_eq a b ≡ true → str_eq a c ≡ true → str_eq c b ≡ true
      str_eq-swap a b c p q = (str_eq_iff c b).1 (sym ((str_eq_iff a c).0 q) ∙ (str_eq_iff a b).0 p)

  settled-Covers :
      (ds rows : List Delivery)
      → All (λ x. str_eq x.id d.id ≡ false) ds
      → All (Covers m rows) ds
      → All (Covers m (settled rows)) ds
  settled-Covers [] rows a h = tt
  settled-Covers (e ∷ es) rows a h =
      ((h.0.0, settled-Low e rows a.0 h.0.1), settled-Covers es rows a.1 h.1)

update-IsServing :
    (m : ℕ) (v : Service) (d : Delivery) (ds : List Delivery) (status : Status) (code : Option ℕ)
    (error : Option String) (next : Option ℕ) (now place : ℕ)
    → (is_over status ≡ true) ⊎ (d.attempts + 1 < m)
    → v.batch ≡ d ∷ ds
    → IsServing m v
    → IsServing m (record v {
      store = update d.id status code error next now v.store;
      batch = ds;
      place = place;
    })
unfolding update
update-IsServing m v d ds status code error next now place o b i =
    let rows = v.store.deliveries in
    let c = subst (All (Covers m rows)) b i.covered in
    let a = subst Apart b i.apart in
    record {
      queue = record {
        bounded =
            settled-IsBounded m d status code error next now rows c.0.0 o c.0.1 i.queue.bounded;
        unique = settled-IsUnique m d status code error next now rows i.queue.unique;
      };
      covered = settled-Covers m d status code error next now ds rows a.0 c.1;
      apart = a.1;
    }

attempts-IsServing :
    (c : Config) (w : World) (v : Service) (ds : List Delivery)
    → v.batch ≡ ds
    → IsServing c.max_attempts v
    → IsServing c.max_attempts (next_attempt c w ds v)
attempts-IsServing c w v [] b i = i
attempts-IsServing c w v (d ∷ ds) b i =
    elim (Option-cases (attempt c w v.place d v.claimed_at v.store)) [
      | inl e ↦ rw (e, next_attempt) (record { queue = i.queue; covered = tt; apart = tt })
      | inr (s, e) ↦
          rw (e, next_attempt) (go (attempt-Attempted c w v.place d v.claimed_at v.store s e))
    ]
  where
    go :
        {s : Store}
        → Attempted c d v.claimed_at v.store s
        → IsServing c.max_attempts (record v { store = s; batch = ds; place = v.place + 1 })
    go (Attempted.ends status code error over) =
        update-IsServing c.max_attempts v d ds status code error none v.claimed_at (v.place + 1)
          (inl over) b i
    go (Attempted.retries code error more) =
        update-IsServing c.max_attempts v d ds Status.pending code (some error) _ v.claimed_at
          (v.place + 1) (inr more) b i

creates-rows :
    (e k secret client url : String) (description : Option String) (types : Option (List String))
    (now : ℕ) (db : Db) (s : Store)
    → (or_same s
        (first (create_endpoint e k secret client url description types now db s))).deliveries
      ≡ s.deliveries
unfolding create_endpoint
creates-rows e k secret client url description types now db s = ground arith

rotates-rows :
    (k secret e : String) (grace now created : ℕ) (s : Store)
    → (or_same s (rotate_secret k secret e grace now created s)).deliveries ≡ s.deliveries
unfolding rotate_secret
rotates-rows k secret e grace now created s = ground arith

disables-rows :
    (e : String) (b : Bool) (s : Store) → (set_disabled e b s).0.deliveries ≡ s.deliveries
unfolding set_disabled
disables-rows e b s = refl

Changes-delete_endpoint :
    (m : ℕ) (e : String) (s : Store) → Changes m s.deliveries (delete_endpoint e s).0.deliveries
unfolding delete_endpoint
Changes-delete_endpoint m e s = Changes-delete_where m (λ d. str_eq d.endpoint_id e) s.deliveries

-- A step that leaves the rows alone.
same_rows-IsServing :
    (m : ℕ) (v : Service) (s : Store)
    → s.deliveries ≡ v.store.deliveries
    → IsServing m v
    → IsServing m (with_store v s)
same_rows-IsServing m v s e i =
    with_store-IsServing m v s
      (subst (Changes m v.store.deliveries) (sym e) (Changes-refl m v.store.deliveries)) i

step-IsServing :
    (c : Config) (w : World) (e : Event) (v : Service)
    → 0 < c.max_attempts
    → IsServing c.max_attempts v
    → IsServing c.max_attempts (step c w e v)
step-IsServing c w (Event.creates e k secret client url description types now db) v pos i =
    same_rows-IsServing c.max_attempts v _
      (creates-rows e k secret client url description types now db v.store) i
step-IsServing c w (Event.disables e b) v pos i =
    same_rows-IsServing c.max_attempts v _ (disables-rows e b v.store) i
step-IsServing c w (Event.deletes e) v pos i =
    with_store-IsServing c.max_attempts v _ (Changes-delete_endpoint c.max_attempts e v.store) i
step-IsServing c w (Event.rotates k secret e grace now created) v pos i =
    same_rows-IsServing c.max_attempts v _ (rotates-rows k secret e grace now created v.store) i
step-IsServing c w (Event.enqueues draw client event type payload now) v pos i =
    with_store-IsServing c.max_attempts v _
      (Changes-enqueue_event c.max_attempts draw client event type payload now v.store pos) i
step-IsServing c w (Event.replays d now) v pos i =
    with_store-IsServing c.max_attempts v _ (Changes-replay c.max_attempts d now v.store pos) i
step-IsServing c w (Event.claims now) v pos i = record {
  queue = i.queue;
  covered = claim_due-Covers c.max_attempts now c.batch_limit v.store i.queue;
  apart = claim_due-Apart now c.batch_limit v.store i.queue.unique;
}
step-IsServing c w Event.attempts v pos i = attempts-IsServing c w v v.batch refl i
step-IsServing c w Event.stops v pos i = record { queue = i.queue; covered = tt; apart = tt }

steps-IsServing :
    (c : Config) (w : World) (es : List Event) (v : Service)
    → 0 < c.max_attempts
    → IsServing c.max_attempts v
    → IsServing c.max_attempts (steps c w es v)
steps-IsServing c w [] v pos i = i
steps-IsServing c w (e ∷ es) v pos i =
    steps-IsServing c w es (step c w e v) pos (step-IsServing c w e v pos i)

abbrev pub idle : Service
idle = record {
  store = record { endpoints = []; secrets = []; deliveries = [] };
  batch = [];
  claimed_at = 0;
  place = 0;
}

-- Whatever the callers of the store and one worker do, in any order, from an empty store: no
-- delivery has more attempts since its creation or last replay than `max_attempts` (at least one),
-- a pending one has an attempt left, and no two rows have one id, or one endpoint and event.
pub steps_bounded :
    (max_attempts : ℕ) (schedule : List ℕ) (batch_limit : ℕ) (w : World) (es : List Event)
    → let c = configure max_attempts schedule batch_limit in
      IsQueue (max 1 max_attempts) (steps c w es idle).store.deliveries
unfolding configure
steps_bounded max_attempts [] batch_limit w es =
    (steps-IsServing (configure max_attempts [] batch_limit) w es idle (omega arith)
      (record { queue = record { bounded = tt; unique = tt }; covered = tt; apart = tt })).queue
steps_bounded max_attempts (d ∷ ds) batch_limit w es =
    (steps-IsServing (configure max_attempts (d ∷ ds) batch_limit) w es idle (omega arith)
      (record { queue = record { bounded = tt; unique = tt }; covered = tt; apart = tt })).queue
