-- ===== src/Webhooks/Queue.antt =====
-- The delivery table as a queue (engine/billing/webhooks): what holds of its rows whatever the
-- store's callers and the delivery worker do, in any order.
use inference_engine.Prelude.{
  ℕ, ◌≤◌, ◌<◌, ◌≡◌, refl, sym, ◌∙◌, ap, inl, inr, Bool, true, false, ◌||◌, not, List, [], ◌∷◌, ◌++◌,
  map, any, filter, All, All-append, String, str_eq, str_eq_iff, set_if, update_where, delete_where,
  arith, Bool-cases, if-rule,
}
use inference_engine.Webhooks.{is_pending, conflicts, insert_or_ignore, fan_out}
use inference_engine.Webhooks.Types.{Endpoint, Delivery}

-- An attempt is left for a pending delivery, and no delivery has more attempts than the limit.
abbrev pub IsBounded : ℕ → Delivery → Type 0
IsBounded m d = (d.attempts ≤ m) × (is_pending d ≡ true → d.attempts < m)

-- The unique columns: no two rows have one id, or one endpoint and event.
abbrev pub IsUnique : List Delivery → Type 0
IsUnique [] = Unit
IsUnique (d ∷ ds) = (any (conflicts d) ds ≡ false) × IsUnique ds

pub conflicts_comm : (d e : Delivery) → conflicts d e ≡ conflicts e d
conflicts_comm d e = ground (
  arith,
  str_eq_comm d.id e.id,
  str_eq_comm d.endpoint_id e.endpoint_id,
  str_eq_comm d.event_id e.event_id,
)
  where
    str_eq_comm : (s t : String) → str_eq s t ≡ str_eq t s
    str_eq_comm s t = elim (Bool-cases (str_eq s t)) [
      | inl e ↦ let k = (str_eq_iff s t).0 e in rw (e, (str_eq_iff t s).1 (sym k)) refl
      | inr e ↦ elim (Bool-cases (str_eq t s)) [
        | inl f ↦ let k = (str_eq_iff s t).1 (sym ((str_eq_iff t s).0 f)) in cc
        | inr f ↦ rw (e, f) refl
      ]
    ]

-- A change that keeps the ids keeps the rows unique.
abbrev pub KeepsIds : (Delivery → Delivery) → Type 0
KeepsIds f =
    (d : Delivery)
    → ((f d).id ≡ d.id) × ((f d).endpoint_id ≡ d.endpoint_id) × ((f d).event_id ≡ d.event_id)

any-map-conflicts :
    (f : Delivery → Delivery) (d : Delivery) (ds : List Delivery)
    → KeepsIds f
    → any (conflicts (f d)) (map f ds) ≡ any (conflicts d) ds
any-map-conflicts f d [] k = refl
any-map-conflicts f d (e ∷ es) k =
    let a = k d in
    let b = k e in
    rw (a.0, a.1, a.2, b.0, b.1, b.2) (ap (λ r. conflicts d e || r) (any-map-conflicts f d es k))

pub map-IsUnique :
    (f : Delivery → Delivery) (ds : List Delivery) → KeepsIds f → IsUnique ds → IsUnique (map f ds)
map-IsUnique f [] k u = tt
map-IsUnique f (d ∷ ds) k u = (any-map-conflicts f d ds k ∙ u.0, map-IsUnique f ds k u.1)

any-filter :
    (q p : Delivery → Bool) (ds : List Delivery) → any q ds ≡ false → any q (filter p ds) ≡ false
any-filter q p [] h = refl
any-filter q p (d ∷ ds) h = ground (arith, any-filter q p ds)

pub filter-IsUnique :
    (p : Delivery → Bool) (ds : List Delivery) → IsUnique ds → IsUnique (filter p ds)
filter-IsUnique p [] u = tt
filter-IsUnique p (d ∷ ds) u = elim (Bool-cases (p d)) [
  | inl k ↦ rw k (any-filter (conflicts d) p ds u.0, filter-IsUnique p ds u.1)
  | inr k ↦ rw k (filter-IsUnique p ds u.1)
]

append-IsUnique :
    (d : Delivery) (ds : List Delivery)
    → any (conflicts d) ds ≡ false
    → IsUnique ds
    → IsUnique (ds ++ d ∷ [])
append-IsUnique d [] h u = (refl, tt)
append-IsUnique d (x ∷ ds) h u = (
  last x ds (ground (arith, conflicts_comm d x)) u.0,
  append-IsUnique d ds (ground (arith, h)) u.1,
)
  where
    last :
        (x : Delivery) (ds : List Delivery)
        → conflicts x d ≡ false
        → any (conflicts x) ds ≡ false
        → any (conflicts x) (ds ++ d ∷ []) ≡ false
    last x [] e h = rw e refl
    last x (y ∷ ys) e h = ground (arith, last x ys e)

insert_or_ignore-IsUnique :
    (d : Delivery) (ds : List Delivery) → IsUnique ds → IsUnique (insert_or_ignore d ds)
insert_or_ignore-IsUnique d ds u = elim (Bool-cases (any (conflicts d) ds)) [
  | inl k ↦ rw k u
  | inr k ↦ rw k (append-IsUnique d ds k u)
]

insert_or_ignore-IsBounded :
    (m : ℕ) (d : Delivery) (ds : List Delivery)
    → IsBounded m d
    → All (IsBounded m) ds
    → All (IsBounded m) (insert_or_ignore d ds)
insert_or_ignore-IsBounded m d ds b h = elim (Bool-cases (any (conflicts d) ds)) [
  | inl k ↦ rw k h
  | inr k ↦ rw k (All-append (IsBounded m) ds (d ∷ []) h (b, tt))
]

-- What the store's table is.
pub record IsQueue (m : ℕ) (ds : List Delivery) : Type 0 where
  pub bounded : All (IsBounded m) ds
  pub unique : IsUnique ds

pub fan_out-IsQueue :
    (m : ℕ) (row : Endpoint → Delivery) (es : List Endpoint) (ds : List Delivery)
    → ((e : Endpoint) → IsBounded m (row e))
    → IsQueue m ds
    → IsQueue m (fan_out row es ds).0
unfolding fan_out
fan_out-IsQueue m row [] ds b q = q
fan_out-IsQueue m row (e ∷ es) ds b q =
    fan_out-IsQueue m row es (insert_or_ignore (row e) ds) b (record {
      bounded = insert_or_ignore-IsBounded m (row e) ds (b e) q.bounded;
      unique = insert_or_ignore-IsUnique (row e) ds q.unique;
    })

pub All-filter :
    (P : Delivery → Type 0) (p : Delivery → Bool) (ds : List Delivery)
    → All P ds
    → All P (filter p ds)
All-filter P p [] h = tt
All-filter P p (d ∷ ds) h = elim (Bool-cases (p d)) [
  | inl k ↦ rw k (h.0, All-filter P p ds h.1)
  | inr k ↦ rw k (All-filter P p ds h.1)
]

pub delete_where-IsQueue :
    (m : ℕ) (p : Delivery → Bool) (ds : List Delivery)
    → IsQueue m ds
    → IsQueue m (delete_where p ds)
delete_where-IsQueue m p ds q = record {
  bounded = All-filter (IsBounded m) (λ d. not (p d)) ds q.bounded;
  unique = filter-IsUnique (λ d. not (p d)) ds q.unique;
}

map-IsBounded :
    (m : ℕ) (f : Delivery → Delivery) (ds : List Delivery)
    → ((d : Delivery) → IsBounded m d → IsBounded m (f d))
    → All (IsBounded m) ds
    → All (IsBounded m) (map f ds)
map-IsBounded m f [] k h = tt
map-IsBounded m f (d ∷ ds) k h = (k d h.0, map-IsBounded m f ds k h.1)

pub set_if-KeepsIds :
    (p : Delivery → Bool) (f : Delivery → Delivery) → KeepsIds f → KeepsIds (set_if p f)
set_if-KeepsIds p f k d = elim (Bool-cases (p d)) [
  | inl e ↦ rw e (k d)
  | inr e ↦ rw e (refl, refl, refl)
]

-- An UPDATE that keeps the ids and the bound keeps the queue.
pub update_where-IsQueue :
    (m : ℕ) (p : Delivery → Bool) (f : Delivery → Delivery) (ds : List Delivery)
    → KeepsIds f
    → ((d : Delivery) → p d ≡ true → IsBounded m d → IsBounded m (f d))
    → IsQueue m ds
    → IsQueue m (update_where p f ds)
update_where-IsQueue m p f ds k b q = record {
  bounded =
      map-IsBounded m (set_if p f) ds (λ d h. if-rule (IsBounded m) (p d) (λ e. b d e h) (λ e. h))
        q.bounded;
  unique = map-IsUnique (set_if p f) ds (set_if-KeepsIds p f k) q.unique;
}
