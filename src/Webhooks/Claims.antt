-- ===== src/Webhooks/Claims.antt =====
-- What `claim_due` hands to the delivery worker (engine/billing/webhooks/store.py): rows that are
-- due, each once.
use inference_engine.Prelude.{
  ℕ, zero, suc, ◌≡◌, refl, sym, ◌∙◌, ap, subst, inl, inr, Bool, true, false, List, [], ◌∷◌, any,
  filter, take, All, In, filter-In, str_eq, arith, Bool-cases,
}
use inference_engine.Webhooks.{claim_due, is_due, is_sooner, conflicts, insert_ordered, order_by}
use inference_engine.Webhooks.Types.{Delivery, Store}
use inference_engine.Webhooks.Queue.{IsBounded, IsUnique, IsQueue, filter-IsUnique, conflicts_comm}
use inference_engine.Webhooks.Ordering.{order_by-In}
use inference_engine.Webhooks.Service.{Covers, Apart}

All-of_In :
    (P : Delivery → Type 0) (xs : List Delivery) → ((a : Delivery) → In a xs → P a) → All P xs
All-of_In P [] h = tt
All-of_In P (x ∷ xs) h = (h x (inl refl), All-of_In P xs (λ a m. h a (inr m)))

pub In-All : (P : Delivery → Type 0) (a : Delivery) (xs : List Delivery) → In a xs → All P xs → P a
In-All P a [] m h = elim m [ ]
In-All P a (x ∷ xs) (inl e) h = subst P (sym e) h.0
In-All P a (x ∷ xs) (inr m) h = In-All P a xs m h.1

take-In : (n : ℕ) (a : Delivery) (xs : List Delivery) → In a (take n xs) → In a xs
take-In zero a xs m = elim m [ ]
take-In (suc n) a [] m = elim m [ ]
take-In (suc n) a (x ∷ xs) (inl e) = inl e
take-In (suc n) a (x ∷ xs) (inr m) = inr (take-In n a xs m)

any-In :
    (p : Delivery → Bool) (a : Delivery) (xs : List Delivery)
    → In a xs
    → any p xs ≡ false
    → p a ≡ false
any-In p a [] m h = elim m [ ]
any-In p a (x ∷ xs) (inl e) h = subst (λ y. p y ≡ false) (sym e) (ground (arith, h))
any-In p a (x ∷ xs) (inr m) h = any-In p a xs m (ground (arith, h))

-- Two rows of the table with one id are one row.
unique_row :
    (rows : List Delivery) (a b : Delivery)
    → IsUnique rows
    → In a rows
    → In b rows
    → str_eq a.id b.id ≡ true
    → a ≡ b
unique_row [] a b u m n e = elim m [ ]
unique_row (x ∷ xs) a b u (inl p) (inl q) e = p ∙ sym q
unique_row (x ∷ xs) a b u (inl p) (inr n) e =
    let k = any-In (conflicts x) b xs n u.0 in
    let h : conflicts b x ≡ false = conflicts_comm b x ∙ k in
    let g : str_eq x.id b.id ≡ true = subst (λ y. str_eq y.id b.id ≡ true) p e in
    absurd (ground (arith, h, g))
unique_row (x ∷ xs) a b u (inr n) (inl q) e =
    let k = any-In (conflicts x) a xs n u.0 in
    let g : str_eq a.id x.id ≡ true = subst (λ y. str_eq a.id y.id ≡ true) q e in
    absurd (ground (arith, k, g))
unique_row (x ∷ xs) a b u (inr m) (inr n) e = unique_row xs a b u.1 m n e

module _ (precedes : Delivery → Delivery → Bool) where
  any-insert_ordered :
      (p : Delivery → Bool) (x : Delivery) (ys : List Delivery)
      → p x ≡ false
      → any p ys ≡ false
      → any p (insert_ordered precedes x ys) ≡ false
  unfolding insert_ordered
  any-insert_ordered p x [] h k = ground (arith, h)
  any-insert_ordered p x (y ∷ ys) h k = ground (arith, h, k, any-insert_ordered p x ys)

  insert_ordered-IsUnique :
      (x : Delivery) (ys : List Delivery)
      → any (conflicts x) ys ≡ false
      → IsUnique ys
      → IsUnique (insert_ordered precedes x ys)
  unfolding insert_ordered
  insert_ordered-IsUnique x [] h u = (refl, tt)
  insert_ordered-IsUnique x (y ∷ ys) h u = elim (Bool-cases (precedes y x)) [
    | inl p ↦ rw p (
      any-insert_ordered (conflicts y) x ys (ground (arith, h, conflicts_comm y x)) u.0,
      insert_ordered-IsUnique x ys (ground (arith, h)) u.1,
    )
    | inr p ↦ rw p (h, u)
  ]

  any-order_by :
      (p : Delivery → Bool) (xs : List Delivery)
      → any p xs ≡ false
      → any p (order_by precedes xs) ≡ false
  unfolding order_by
  any-order_by p [] h = refl
  any-order_by p (x ∷ xs) h =
      any-insert_ordered p x (order_by precedes xs) (ground (arith, h))
        (any-order_by p xs (ground (arith, h)))

  order_by-IsUnique : (xs : List Delivery) → IsUnique xs → IsUnique (order_by precedes xs)
  unfolding order_by
  order_by-IsUnique [] u = tt
  order_by-IsUnique (x ∷ xs) u =
      insert_ordered-IsUnique x (order_by precedes xs) (any-order_by (conflicts x) xs u.0)
        (order_by-IsUnique xs u.1)

any-take :
    (p : Delivery → Bool) (n : ℕ) (xs : List Delivery)
    → any p xs ≡ false
    → any p (take n xs) ≡ false
any-take p zero xs h = refl
any-take p (suc n) [] h = refl
any-take p (suc n) (x ∷ xs) h = ground (arith, h, any-take p n xs)

take-IsUnique : (n : ℕ) (xs : List Delivery) → IsUnique xs → IsUnique (take n xs)
take-IsUnique zero xs u = tt
take-IsUnique (suc n) [] u = tt
take-IsUnique (suc n) (x ∷ xs) u = (any-take (conflicts x) n xs u.0, take-IsUnique n xs u.1)

IsUnique-Apart : (xs : List Delivery) → IsUnique xs → Apart xs
IsUnique-Apart [] u = tt
IsUnique-Apart (x ∷ xs) u = (differ xs u.0, IsUnique-Apart xs u.1)
  where
    differ :
        (ys : List Delivery) → any (conflicts x) ys ≡ false → All (λ y. str_eq y.id x.id ≡ false) ys
    differ [] h = tt
    differ (y ∷ ys) h = (ground (arith, h), differ ys (ground (arith, h)))

-- A claimed delivery is a row that is due.
pub claim_due-In :
    (now limit : ℕ) (s : Store) (d : Delivery)
    → In d (claim_due now limit s)
    → In d s.deliveries × (is_due now d ≡ true)
unfolding claim_due
claim_due-In now limit s d m =
    filter-In (is_due now) d s.deliveries
      (order_by-In is_sooner d (filter (is_due now) s.deliveries) (take-In limit d _ m))

pub claim_due-Apart :
    (now limit : ℕ) (s : Store) → IsUnique s.deliveries → Apart (claim_due now limit s)
unfolding claim_due
claim_due-Apart now limit s u = IsUnique-Apart _ (
    take-IsUnique limit _ (
      order_by-IsUnique is_sooner (filter (is_due now) s.deliveries)
        (filter-IsUnique (is_due now) s.deliveries u)))

pub claim_due-Covers :
    (m now limit : ℕ) (s : Store)
    → IsQueue m s.deliveries
    → All (Covers m s.deliveries) (claim_due now limit s)
claim_due-Covers m now limit s q =
    All-of_In (Covers m s.deliveries) (claim_due now limit s) λ d claimed.
      let r = claim_due-In now limit s d claimed in
      (
        (In-All (IsBounded m) d s.deliveries r.0 q.bounded).1 (ground (arith, r.1)),
        All-of_In _ s.deliveries λ x m e.
            let same = unique_row s.deliveries x d q.unique m r.0 e in
            omega (arith, ap (λ y. y.attempts) same),
      )
