-- ===== src/Webhooks/FanOut.antt =====
-- `enqueue_event` of engine/billing/webhooks/store.py: every endpoint that takes the event gets one
-- delivery of it, however often the event is emitted.
use inference_engine.Prelude.{
  ℕ, suc, ◌≡◌, ◌⊎◌, ◌∙◌, refl, sym, ap, subst, inl, inr, Bool, true, false, not, ◌&&◌, &&-true,
  none, some, Option-cases, filter-In, In-filter, append-nil, append_assoc, str_eq_iff, List, [],
  ◌∷◌, ◌++◌, any, filter, length, All, In, append-In, String, str_eq, str_eq_self, arith,
  Bool-cases,
}
use inference_engine.Webhooks.{
  enqueue_event, fan_out, insert_or_ignore, conflicts, same_delivery, new_delivery, is_target,
  subscribes,
}
use inference_engine.Webhooks.Types.{Endpoint, Delivery, Status, Store}

-- The event has its row for the endpoint.
abbrev pub HasRow : String → List Delivery → Endpoint → Type 0
HasRow event_id ds e = any (same_delivery e.id event_id) ds ≡ true

-- The ids that are drawn are new: one per endpoint, and a row that has one already is that
-- endpoint's row of the event.
pub record AreFresh (draw : String → String) (event_id : String) (ds : List Delivery) : Type 0 where
  pub distinct : (a b : String) → str_eq (draw a) (draw b) ≡ true → a ≡ b
  pub own :
      (e : String) (x : Delivery)
      → In x ds
      → str_eq x.id (draw e) ≡ true
      → same_delivery e event_id x ≡ true

any-left : (p : Delivery → Bool) (xs ys : List Delivery) → any p xs ≡ true → any p (xs ++ ys) ≡ true
any-left p [] ys h = cc
any-left p (x ∷ xs) ys h = ground (arith, any-left p xs ys)

any-last :
    (p : Delivery → Bool) (xs : List Delivery) (y : Delivery)
    → p y ≡ true
    → any p (xs ++ y ∷ []) ≡ true
any-last p [] y h = rw h refl
any-last p (x ∷ xs) y h = ground (arith, any-last p xs y h)

HasRow-insert_or_ignore :
    (event_id : String) (n : Delivery) (ds : List Delivery) (e : Endpoint)
    → HasRow event_id ds e
    → HasRow event_id (insert_or_ignore n ds) e
HasRow-insert_or_ignore event_id n ds e h = elim (Bool-cases (any (conflicts n) ds)) [
  | inl k ↦ rw k h
  | inr k ↦ rw k (any-left _ ds (n ∷ []) h)
]

fan_out-keeps :
    (event_id : String) (row : Endpoint → Delivery) (es : List Endpoint) (ds : List Delivery)
    (e : Endpoint)
    → HasRow event_id ds e
    → HasRow event_id (fan_out row es ds).0 e
unfolding fan_out
fan_out-keeps event_id row [] ds e h = h
fan_out-keeps event_id row (x ∷ xs) ds e h =
    fan_out-keeps event_id row xs (insert_or_ignore (row x) ds) e
      (HasRow-insert_or_ignore event_id (row x) ds e h)

module _ (draw : String → String) (event_id event_type payload : String) (now : ℕ) where
  abbrev row : Endpoint → Delivery
  row = new_delivery draw event_id event_type payload now

  conflict_own :
      (e : Endpoint) (ds : List Delivery)
      → ((x : Delivery)
          → In x ds
          → str_eq x.id (draw e.id) ≡ true
          → same_delivery e.id event_id x ≡ true)
      → any (conflicts (row e)) ds ≡ true
      → HasRow event_id ds e
  conflict_own e [] own h = cc
  conflict_own e (x ∷ xs) own h = elim (Bool-cases (same_delivery e.id event_id x)) [
    | inl k ↦ rw k refl
    | inr k ↦ elim (Bool-cases (str_eq x.id (draw e.id))) [
      | inl i ↦ cc (own x (inl refl) i, k)
      | inr i ↦
          ground (arith, k, conflict_own e xs (λ y m. own y (inr m)) (ground (arith, h, k, i)))
    ]
  ]

  insert-HasRow :
      (e : Endpoint) (ds : List Delivery)
      → AreFresh draw event_id ds
      → HasRow event_id (insert_or_ignore (row e) ds) e
  insert-HasRow e ds f = elim (Bool-cases (any (conflicts (row e)) ds)) [
    | inl k ↦ rw k (conflict_own e ds (f.own e.id) k)
    | inr k ↦ rw k (any-last _ ds (row e) (rw (str_eq_self e.id, str_eq_self event_id) refl))
  ]

  insert-AreFresh :
      (e : Endpoint) (ds : List Delivery)
      → AreFresh draw event_id ds
      → AreFresh draw event_id (insert_or_ignore (row e) ds)
  insert-AreFresh e ds f = elim (Bool-cases (any (conflicts (row e)) ds)) [
    | inl k ↦ rw k f
    | inr k ↦ rw k (record {
      distinct = f.distinct;
      own = λ a x m h. elim (append-In x ds (row e ∷ []) m) [
        | inl l ↦ f.own a x l h
        | inr l ↦ elim l [
          | inl i ↦
              let d = f.distinct e.id a (subst (λ y. str_eq y.id (draw a) ≡ true) i h) in
              subst (λ y. same_delivery a event_id y ≡ true) (sym i)
                (rw (← d, str_eq_self e.id, str_eq_self event_id) refl)
          | inr n ↦ elim n [ ]
        ]
      ];
    })
  ]

  fan_out-HasRow :
      (es : List Endpoint) (ds : List Delivery)
      → AreFresh draw event_id ds
      → All (HasRow event_id (fan_out row es ds).0) es
  unfolding fan_out
  fan_out-HasRow [] ds f = tt
  fan_out-HasRow (e ∷ es) ds f = (
    fan_out-keeps event_id row es (insert_or_ignore (row e) ds) e (insert-HasRow e ds f),
    fan_out-HasRow es (insert_or_ignore (row e) ds) (insert-AreFresh e ds f),
  )

  HasRow-conflicts :
      (e : Endpoint) (ds : List Delivery) → HasRow event_id ds e → any (conflicts (row e)) ds ≡ true
  HasRow-conflicts e [] h = cc
  HasRow-conflicts e (x ∷ xs) h = ground (arith, h, HasRow-conflicts e xs)

  -- Where every endpoint has its row, nothing is enqueued.
  fan_out-nothing :
      (es : List Endpoint) (ds : List Delivery)
      → All (HasRow event_id ds) es
      → fan_out row es ds ≡ (ds, 0)
  unfolding fan_out
  fan_out-nothing [] ds h = refl
  fan_out-nothing (e ∷ es) ds h =
      let k = HasRow-conflicts e ds h.0 in rw (k, fan_out-nothing es ds h.1) refl

-- The endpoint takes events of this type of this client.
abbrev pub Takes : String → String → Endpoint → Type 0
Takes client_id event_type e =
    (e.client_id ≡ client_id)
    × (e.disabled ≡ false)
    × ((e.event_types ≡ none)
        ⊎ ((types : List String) × (e.event_types ≡ some types) × In event_type types))

-- A delivery of the event to the endpoint that is yet to be attempted, at once
pub record IsDelivery (draw : String → String) (event_id event_type payload : String) (now : ℕ)
    (e : Endpoint) (d : Delivery) : Type 0 where
  pub drawn : d.id ≡ draw e.id
  pub to_endpoint : d.endpoint_id ≡ e.id
  pub of_event : d.event_id ≡ event_id
  pub of_type : d.event_type ≡ event_type
  pub body : d.payload ≡ payload
  pub is_pending : d.status ≡ Status.pending
  pub unattempted : d.attempts ≡ 0
  pub at_once : d.next_attempt_at ≡ now

any-equal : (t : String) (ts : List String) → any (λ x. str_eq x t) ts ≡ true → In t ts
any-equal t [] h = cc
any-equal t (x ∷ ts) h = elim (Bool-cases (str_eq x t)) [
  | inl e ↦ inl (sym ((str_eq_iff x t).0 e))
  | inr e ↦ inr (any-equal t ts (ground (arith, h, e)))
]

equal-any : (t : String) (ts : List String) → In t ts → any (λ x. str_eq x t) ts ≡ true
equal-any t [] m = elim m [ ]
equal-any t (x ∷ ts) (inl e) =
    let same : str_eq x t ≡ true = (str_eq_iff x t).1 (sym e) in rw same refl
equal-any t (x ∷ ts) (inr m) = let rest = equal-any t ts m in ground (arith, rest)

is_target-Takes :
    (client_id event_type : String) (e : Endpoint)
    → is_target client_id event_type e ≡ true
    → Takes client_id event_type e
is_target-Takes client_id event_type e h =
    let outer =
      &&-true (str_eq e.client_id client_id) (not e.disabled && subscribes event_type e) h in
    let inner = &&-true (not e.disabled) (subscribes event_type e) outer.1 in
    let enabled : e.disabled ≡ false = ground (arith, inner.0) in
    (
      (str_eq_iff e.client_id client_id).0 outer.0,
      enabled,
      elim (Option-cases e.event_types) [
        | inl k ↦ inl k
        | inr (types, k) ↦
            inr (types, k, any-equal event_type types (rw (subscribes, k) at inner.1))
      ],
    )

Takes-is_target :
    (client_id event_type : String) (e : Endpoint)
    → Takes client_id event_type e
    → is_target client_id event_type e ≡ true
Takes-is_target client_id event_type e (client, enabled, types) =
    let mine : str_eq e.client_id client_id ≡ true = (str_eq_iff e.client_id client_id).1 client in
    let wants : subscribes event_type e ≡ true = elim types [
      | inl k ↦ rw (subscribes, k) refl
      | inr (ts, k, m) ↦ rw (subscribes, k) (equal-any event_type ts m)
    ] in
    ground (arith, mine, enabled, wants)

-- The rows that are new, each one of an endpoint
fan_out-new :
    (row : Endpoint → Delivery) (es : List Endpoint) (ds : List Delivery)
    → (new : List Delivery) × ((fan_out row es ds).0 ≡ ds ++ new)
      × (length new ≡ (fan_out row es ds).1)
      × ((d : Delivery) → In d new → (e : Endpoint) × In e es × (d ≡ row e))
unfolding fan_out
fan_out-new row [] ds = ([], sym (append-nil ds), refl, λ d m. elim m [ ])
fan_out-new row (e ∷ es) ds = elim (Bool-cases (any (conflicts (row e)) ds)) [
  | inl k ↦
      let r = fan_out-new row es ds in
      rw k (r.0, r.1, r.2, λ d m. let b = r.3 d m in (b.0, inr b.1, b.2))
  | inr k ↦
      let r = fan_out-new row es (ds ++ row e ∷ []) in
      rw k (
        row e ∷ r.0,
        r.1 ∙ append_assoc ds (row e ∷ []) r.0,
        ap suc r.2,
        λ d m. elim m [ inl i ↦ (e, inl refl, i) | inr n ↦ let b = r.3 d n in (b.0, inr b.1, b.2) ],
      )
]

HasRow-In :
    (event_id : String) (ds : List Delivery) (e : Endpoint)
    → HasRow event_id ds e
    → (d : Delivery) × In d ds × (d.endpoint_id ≡ e.id) × (d.event_id ≡ event_id)
HasRow-In event_id [] e h = absurd cc
HasRow-In event_id (x ∷ ds) e h = elim (Bool-cases (same_delivery e.id event_id x)) [
  | inl k ↦
      let b = &&-true (str_eq x.endpoint_id e.id) (str_eq x.event_id event_id) k in
      (x, inl refl, (str_eq_iff x.endpoint_id e.id).0 b.0, (str_eq_iff x.event_id event_id).0 b.1)
  | inr k ↦ let r = HasRow-In event_id ds e (ground (arith, h, k)) in (r.0, inr r.1, r.2, r.3)
]

All-In : (P : Endpoint → Type 0) (es : List Endpoint) (e : Endpoint) → All P es → In e es → P e
All-In P [] e h m = elim m [ ]
All-In P (x ∷ es) e h (inl k) = subst P (sym k) h.0
All-In P (x ∷ es) e h (inr m) = All-In P es e h.1 m

-- What emitting an event makes of the deliveries: the old ones stay, in front of the new ones, which
-- are as many as are counted; each new one is a delivery of the event to an endpoint that takes it;
-- and every endpoint that takes it has one.
pub record Emits (draw : String → String) (client_id event_id event_type payload : String) (now : ℕ)
    (s : Store) (out : Store × ℕ) : Type 0 where
  pub new : List Delivery
  pub appended : out.0 ≡ record s { deliveries = s.deliveries ++ new }
  pub counted : length new ≡ out.1
  pub sound :
      (d : Delivery)
      → In d new
      → (e : Endpoint) × In e s.endpoints
        × Takes client_id event_type e
        × IsDelivery draw event_id event_type payload now e d
  pub complete :
      (e : Endpoint)
      → In e s.endpoints
      → Takes client_id event_type e
      → (d : Delivery) × In d out.0.deliveries × (d.endpoint_id ≡ e.id) × (d.event_id ≡ event_id)

-- Emitting an event with fresh ids keeps the deliveries there are and adds new ones, which it counts:
-- each is a pending delivery, with the type and the body of the event, due at once, to an enabled
-- endpoint of the client that subscribes to the type; and every such endpoint then has a delivery of
-- the event.  Emitting it again, with whatever ids, body and moment, changes nothing and returns 0.
pub enqueue_event-enqueue_event :
    (draw draw' : String → String) (client_id event_id event_type payload payload' : String)
    (now now' : ℕ) (s : Store)
    → AreFresh draw event_id s.deliveries
    → let out = enqueue_event draw client_id event_id event_type payload now s in
      Emits draw client_id event_id event_type payload now s out
      × (enqueue_event draw' client_id event_id event_type payload' now' out.0 ≡ (out.0, 0))
unfolding enqueue_event
enqueue_event-enqueue_event draw draw' client_id event_id event_type payload payload' now now' s f =
    let target = is_target client_id event_type in
    let targets = filter target s.endpoints in
    let has = fan_out-HasRow draw event_id event_type payload now targets s.deliveries f in
    let out = fan_out (new_delivery draw event_id event_type payload now) targets s.deliveries in
    let n = fan_out-new (new_delivery draw event_id event_type payload now) targets s.deliveries in
    (
      record {
        new = n.0;
        appended = ap (λ ds. record s { deliveries = ds }) n.1;
        counted = n.2;
        sound = λ d m.
            let b = n.3 d m in
            let t = filter-In target b.0 s.endpoints b.1 in
            (
              b.0,
              t.0,
              is_target-Takes client_id event_type b.0 t.1,
              subst (IsDelivery draw event_id event_type payload now b.0) (sym b.2) (record {
                drawn = refl;
                to_endpoint = refl;
                of_event = refl;
                of_type = refl;
                body = refl;
                is_pending = refl;
                unattempted = refl;
                at_once = refl;
              }),
            );
        complete = λ e m t. HasRow-In event_id out.0 e (
            All-In (HasRow event_id out.0) targets e has
              (In-filter target e s.endpoints m (Takes-is_target client_id event_type e t)));
      },
      ap (λ r. (record s { deliveries = r.0 }, r.1))
          (fan_out-nothing draw' event_id event_type payload' now' targets out.0 has),
    )
