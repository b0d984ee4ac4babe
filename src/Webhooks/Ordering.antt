-- ===== src/Webhooks/Ordering.antt =====
-- `ORDER BY` keeps the rows (engine/billing/webhooks/store.py).
use inference_engine.Prelude.{
  ◌≡◌, refl, ap, ◌⊎◌, inl, inr, Bool, List, [], ◌∷◌, map, In, Bool-cases,
}
use inference_engine.Webhooks.{insert_ordered, order_by}

module _ {A : Type 0} (precedes : A → A → Bool) where
  In-insert_ordered :
      (a x : A) (ys : List A) → (a ≡ x) ⊎ In a ys → In a (insert_ordered precedes x ys)
  unfolding insert_ordered
  In-insert_ordered a x [] h = h
  In-insert_ordered a x (y ∷ ys) h = elim (Bool-cases (precedes y x)) [
    | inl p ↦ rw p (elim h [
      | inl e ↦ inr (In-insert_ordered a x ys (inl e))
      | inr m ↦ elim m [ inl e ↦ inl e | inr r ↦ inr (In-insert_ordered a x ys (inr r)) ]
    ])
    | inr p ↦ rw p h
  ]

  insert_ordered-In :
      (a x : A) (ys : List A) → In a (insert_ordered precedes x ys) → (a ≡ x) ⊎ In a ys
  unfolding insert_ordered
  insert_ordered-In a x [] h = h
  insert_ordered-In a x (y ∷ ys) h = elim (Bool-cases (precedes y x)) [
    | inl p ↦ elim (rw p at h) [
      | inl e ↦ inr (inl e)
      | inr m ↦ elim (insert_ordered-In a x ys m) [ inl e ↦ inl e | inr r ↦ inr (inr r) ]
    ]
    | inr p ↦ rw p at h
  ]

  pub In-order_by : (a : A) (xs : List A) → In a xs → In a (order_by precedes xs)
  unfolding order_by
  In-order_by a [] m = m
  In-order_by a (x ∷ xs) (inl e) = In-insert_ordered a x (order_by precedes xs) (inl e)
  In-order_by a (x ∷ xs) (inr m) =
      In-insert_ordered a x (order_by precedes xs) (inr (In-order_by a xs m))

  pub order_by-In : (a : A) (xs : List A) → In a (order_by precedes xs) → In a xs
  unfolding order_by
  order_by-In a [] m = m
  order_by-In a (x ∷ xs) m = elim (insert_ordered-In a x (order_by precedes xs) m) [
    | inl e ↦ inl e
    | inr r ↦ inr (order_by-In a xs r)
  ]

pub In-map : {A B : Type 0} (f : A → B) (a : A) (xs : List A) → In a xs → In (f a) (map f xs)
In-map f a [] m = elim m [ ]
In-map f a (x ∷ xs) (inl e) = inl (ap f e)
In-map f a (x ∷ xs) (inr m) = inr (In-map f a xs m)

pub map-In :
    {A B : Type 0} (f : A → B) (b : B) (xs : List A)
    → In b (map f xs)
    → (a : A) × In a xs × (b ≡ f a)
map-In f b [] m = elim m [ ]
map-In f b (x ∷ xs) (inl e) = (x, inl refl, e)
map-In f b (x ∷ xs) (inr m) = let r = map-In f b xs m in (r.0, inr r.1, r.2)
