-- ===== src/Stripe/Entitlement.antt =====
-- Webhooks select a plan but never define its limits (engine/api/billing_router.py and
-- engine/billing/store.py).
use mathlib.Core.Option
use inference_engine.Prelude.{
  ℕ, ◌≤◌, ◌≡◌, refl, sym, subst, ◌∙◌, ◌&&◌, &&-true, Bool, true, false, arith, inl, inr, filter,
  filter-In, In-filter, latest, latest_from, ltb, str_eq_iff, if-rule, Option, none, some, List, [],
  ◌∷◌, String, In, str_eq, Bool-cases, Option-cases, some_inj,
}
use inference_engine.Accounts.{
  key_access, row_access, entitlement_of, entitlement_for_client, get_plan, get_key, get_client,
  blocked, is_revoked, is_suspended,
}
use inference_engine.Accounts.Types.{Plan, Subscription, Entitlement, KeyRow, Db}
use inference_engine.Accounts.Keys.{find-In}
use inference_engine.Stripe.{stripe_webhook}
use inference_engine.Stripe.Keys.{handle_event-Leaves}
use inference_engine.Stripe.Webhook.{Went, stripe_webhook-Went, deliver_all}
use inference_engine.Stripe.Types.{Event, Reply}

-- The newest active subscription of a client
pub record IsNewest (client_id : String) (db : Db) (s : Subscription) : Type 0 where
  pub stored : In s db.subscriptions
  pub of_client : s.client_id ≡ client_id
  pub is_active : s.status ≡ "active"
  pub newest :
      (t : Subscription)
      → In t db.subscriptions
      → t.client_id ≡ client_id
      → t.status ≡ "active"
      → t.updated_at ≤ s.updated_at

-- The plan that a client has: that of the newest active subscription, or the default where that
-- names no plan or there is none.
pub data HasPlan (default_plan : Option String) (client_id : String) (db : Db) (plan_id : String)
    : Type 0 where
  subscribed :
      (s : Subscription)
      → IsNewest client_id db s
      → s.plan_id ≡ some plan_id
      → HasPlan default_plan client_id db plan_id
  unplanned :
      (s : Subscription)
      → IsNewest client_id db s
      → s.plan_id ≡ none
      → default_plan ≡ some plan_id
      → HasPlan default_plan client_id db plan_id
  unsubscribed :
      ((s : Subscription)
        → In s db.subscriptions
        → s.client_id ≡ client_id
        → ¬ (s.status ≡ "active"))
      → default_plan ≡ some plan_id
      → HasPlan default_plan client_id db plan_id

-- The limits are those of the plan, field by field.
pub record IsLimitsOf (p : Plan) (e : Entitlement) : Type 0 where
  pub same_plan : e.plan_id ≡ p.id
  pub same_5h : e.quota_5h_cu ≡ p.quota_5h_cu
  pub same_weekly : e.quota_weekly_cu ≡ p.quota_weekly_cu
  pub same_rate : e.rate_limit_per_min ≡ p.rate_limit_per_min
  pub same_models : e.allowed_models ≡ p.allowed_models

-- A plan among these, which the client has in the store, with these limits
abbrev pub FromPlan : List Plan → Option String → String → Db → Entitlement → Type 0
FromPlan plans default_plan client_id db e =
    (p : Plan) × In p plans × HasPlan default_plan client_id db p.id × IsLimitsOf p e

-- The key is active, of a client that is not blocked, and has the limits of the client's plan.
pub record IsEntitled (plans : List Plan) (default_plan : Option String) (key_id : String) (db : Db)
    (e : Entitlement) : Type 0 where
  pub key : KeyRow
  pub stored : In key db.keys
  pub of_id : key.id ≡ key_id
  pub in_force : (is_revoked key.status ≡ false) × (is_suspended key.status ≡ false)
  pub client_id : String
  pub owned : key.client_id ≡ some client_id
  pub admitted : blocked (get_client client_id db) ≡ false
  pub from_plan : FromPlan plans default_plan client_id db e

module _ {A : Type 0} (key : A → ℕ) where
  latest_from-greatest :
      (m : A) (xs : List A)
      → In (latest_from key m xs) (m ∷ xs)
        × ((t : A) → In t (m ∷ xs) → key t ≤ key (latest_from key m xs))
  latest_from-greatest m [] =
      (inl refl, λ t i. elim i [ inl e ↦ rw e (omega arith) | inr n ↦ absurd n ])
  latest_from-greatest m (x ∷ xs) =
      if-rule
        (λ z.
          In (latest_from key z xs) (m ∷ x ∷ xs)
          × ((t : A) → In t (m ∷ x ∷ xs) → key t ≤ key (latest_from key z xs)))
        (ltb (key m) (key x))
        (λ h.
          let r = latest_from-greatest x xs in
          let up : key x ≤ key (latest_from key x xs) = r.1 x (inl refl) in
          (inr r.0, λ t i. elim i [ inl e ↦ rw e (ground (arith, h, up)) | inr n ↦ r.1 t n ]))
        (λ h.
          let r = latest_from-greatest m xs in
          let up : key m ≤ key (latest_from key m xs) = r.1 m (inl refl) in
          (
            elim r.0 [ inl e ↦ inl e | inr n ↦ inr (inr n) ],
            λ t i. elim i [
              | inl e ↦ rw e up
              | inr n ↦ elim n [ inl e ↦ rw e (ground (arith, h, up)) | inr n' ↦ r.1 t (inr n') ]
            ],
          ))

  latest-greatest :
      (xs : List A) (s : A) → latest key xs ≡ some s → In s xs × ((t : A) → In t xs → key t ≤ key s)
  latest-greatest [] s h = absurd cc
  latest-greatest (x ∷ xs) s h =
      subst (λ s. In s (x ∷ xs) × ((t : A) → In t (x ∷ xs) → key t ≤ key s))
        (some_inj (latest_from key x xs) s h) (latest_from-greatest x xs)

  latest-empty : (xs : List A) → latest key xs ≡ none → xs ≡ []
  latest-empty [] h = refl
  latest-empty (x ∷ xs) h = absurd cc

-- The active subscriptions of a client
abbrev is_current : String → Subscription → Bool
is_current client_id s = str_eq s.client_id client_id && str_eq s.status "active"

current :
    (client_id : String) (s : Subscription)
    → s.client_id ≡ client_id
    → s.status ≡ "active"
    → is_current client_id s ≡ true
current client_id s a b =
    rw ((str_eq_iff s.client_id client_id).1 a, (str_eq_iff s.status "active").1 b) refl

latest-IsNewest :
    (client_id : String) (db : Db) (s : Subscription)
    → latest (λ s. s.updated_at) (filter (is_current client_id) db.subscriptions) ≡ some s
    → IsNewest client_id db s
latest-IsNewest client_id db s h =
    let l =
      latest-greatest (λ s. s.updated_at) (filter (is_current client_id) db.subscriptions) s h in
    let m = filter-In (is_current client_id) s db.subscriptions l.0 in
    let both = &&-true (str_eq s.client_id client_id) (str_eq s.status "active") m.1 in
    record {
      stored = m.0;
      of_client = (str_eq_iff s.client_id client_id).0 both.0;
      is_active = (str_eq_iff s.status "active").0 both.1;
      newest = λ t i c a.
          l.1 t (In-filter (is_current client_id) t db.subscriptions i (current client_id t c a));
    }

plan-FromPlan :
    (default_plan : Option String) (client_id : String) (db : Db) (e : Entitlement) (p : String)
    → HasPlan default_plan client_id db p
    → Option.map entitlement_of (get_plan p db) ≡ some e
    → FromPlan db.plans default_plan client_id db e
unfolding get_plan entitlement_of
plan-FromPlan default_plan client_id db e p has h = elim (Option-cases (get_plan p db)) [
  | inl a ↦ let g = rw a at h in cc
  | inr (q, a) ↦
      let found = find-In (λ x. str_eq x.id p) db.plans q a in
      let same = some_inj (entitlement_of q) e (rw a at h) in
      (
        q,
        found.0,
        subst (HasPlan default_plan client_id db) (sym ((str_eq_iff q.id p).0 found.1)) has,
        subst (IsLimitsOf q) same (record {
          same_plan = refl;
          same_5h = refl;
          same_weekly = refl;
          same_rate = refl;
          same_models = refl;
        }),
      )
]

entitlement_for_client-FromPlan :
    (default_plan : Option String) (client_id : String) (db : Db) (e : Entitlement)
    → entitlement_for_client default_plan client_id db ≡ some e
    → FromPlan db.plans default_plan client_id db e
unfolding entitlement_for_client
entitlement_for_client-FromPlan default_plan client_id db e h =
    elim (Option-cases
      (latest (λ s. s.updated_at) (filter (is_current client_id) db.subscriptions))) [
        | inl a ↦ elim (Option-cases default_plan) [
          | inl b ↦ let g = rw (entitlement_for_client, a, b) at h in absurd cc
          | inr (p, b) ↦
              let empty =
                latest-empty (λ s. s.updated_at) (filter (is_current client_id) db.subscriptions)
                  a in
              let nobody : (s : Subscription)
                  → In s db.subscriptions
                  → s.client_id ≡ client_id
                  → ¬ (s.status ≡ "active") =
                λ s i c k. subst (In s) empty (
                  In-filter (is_current client_id) s db.subscriptions i
                    (current client_id s c k)) in
              plan-FromPlan default_plan client_id db e p (HasPlan.unsubscribed nobody b)
                (rw (entitlement_for_client, a, b) at h)
        ]
        | inr (s, a) ↦
            let newest = latest-IsNewest client_id db s a in
            elim (Option-cases s.plan_id) [
              | inr (p, c) ↦
                  plan-FromPlan default_plan client_id db e p (HasPlan.subscribed s newest c)
                    (rw (entitlement_for_client, a, c) at h)
              | inl c ↦ elim (Option-cases default_plan) [
                | inl b ↦ let g = rw (entitlement_for_client, a, c, b) at h in absurd cc
                | inr (p, b) ↦
                    plan-FromPlan default_plan client_id db e p (HasPlan.unplanned s newest c b)
                      (rw (entitlement_for_client, a, c, b) at h)
              ]
            ]
      ]

row_access-IsEntitled :
    (default_plan : Option String) (key_id : String) (k : KeyRow) (db : Db) (e : Entitlement)
    → In k db.keys
    → k.id ≡ key_id
    → (row_access default_plan k db).entitlement ≡ some e
    → IsEntitled db.plans default_plan key_id db e
unfolding row_access
row_access-IsEntitled default_plan key_id k db e i n h = elim (Bool-cases (is_revoked k.status)) [
  | inl a ↦ let g = rw (row_access, a) at h in cc
  | inr a ↦ elim (Option-cases k.client_id) [
    | inl b ↦ let g = rw (row_access, a, b) at h in cc
    | inr (c, b) ↦ elim (Bool-cases (blocked (get_client c db))) [
      | inl d ↦ let g = rw (row_access, a, b, d) at h in cc
      | inr d ↦ elim (Bool-cases (is_suspended k.status)) [
        | inl j ↦ let g = rw (row_access, a, b, d, j) at h in cc
        | inr j ↦ record {
          key = k;
          stored = i;
          of_id = n;
          in_force = (a, j);
          client_id = c;
          owned = b;
          admitted = d;
          from_plan =
              entitlement_for_client-FromPlan default_plan c db e
                (rw (row_access, a, b, d, j) at h);
        }
      ]
    ]
  ]
]

-- An entitlement that `key_access` grants is that of the key's plan.
pub key_access-IsEntitled :
    (default_plan : Option String) (key_id : String) (db : Db) (e : Entitlement)
    → (key_access default_plan key_id db).entitlement ≡ some e
    → IsEntitled db.plans default_plan key_id db e
unfolding key_access get_key
key_access-IsEntitled default_plan key_id db e h = elim (Option-cases (get_key key_id db)) [
  | inl a ↦ let g = rw (key_access, a) at h in cc
  | inr (k, a) ↦
      let found = find-In (λ x. str_eq x.id key_id) db.keys k a in
      row_access-IsEntitled default_plan key_id k db e found.0 ((str_eq_iff k.id key_id).0 found.1)
        (rw (key_access, a) at h)
]

stripe_webhook-plans :
    (fresh : String) (now : ℕ) (ev : Event) (db : Db)
    → (stripe_webhook fresh now ev db).0.plans ≡ db.plans
stripe_webhook-plans fresh now ev db = go (stripe_webhook-Went fresh now ev db)
  where
    go : {r : Db × Reply} → Went fresh now ev db r → r.0.plans ≡ db.plans
    go (Went.no_id a) = refl
    go (Went.again id a b) = refl
    go (Went.failed id a b) = refl
    go (Went.done id out a b c) = (handle_event-Leaves fresh now ev _ out c).same_plans

pub deliver_all-plans :
    (ds : List (String × (ℕ × Event))) (db : Db) → (deliver_all ds db).plans ≡ db.plans
deliver_all-plans [] db = refl
deliver_all-plans ((fresh, (now, ev)) ∷ ds) db =
    deliver_all-plans ds (stripe_webhook fresh now ev db).0 ∙ stripe_webhook-plans fresh now ev db

-- Whatever deliveries arrive, an entitlement that `key_access` then grants to a key is, field by
-- field, the limits of a plan that the store held before them; and the plan is the one of the key's
-- client: that of its newest active subscription, or the default where that names none or there is
-- none.  The key is neither revoked nor suspended, and the client is not blocked.
pub delivered_entitlement :
    (ds : List (String × (ℕ × Event))) (default_plan : Option String) (key_id : String) (db : Db)
    (e : Entitlement)
    → (key_access default_plan key_id (deliver_all ds db)).entitlement ≡ some e
    → IsEntitled db.plans default_plan key_id (deliver_all ds db) e
delivered_entitlement ds default_plan key_id db e h =
    subst (λ ps. IsEntitled ps default_plan key_id (deliver_all ds db) e) (deliver_all-plans ds db)
      (key_access-IsEntitled default_plan key_id (deliver_all ds db) e h)
