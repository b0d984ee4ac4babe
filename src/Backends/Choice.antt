-- ===== src/Backends/Choice.antt =====
-- What `_pick` returns: always a ready backend with room, the least busy one where no prefix is
-- given, and one whenever there is any.
use inference_engine.Prelude.{
  truthy, ℕ, zero, suc, ◌≡◌, refl, sym, true, false, ◌&&◌, Option, none, some, List, [], ◌∷◌, arith,
  filter, In, filter-In, All, subst, ltb, Option-cases, Bool-cases, inl, inr, get_elem?, if-rule,
  some_inj, length, String, ◌%◌,
}
use inference_engine.Backends.Types.{Entry, SelectReason, least_busy, affinity_fallback}
use inference_engine.Backends.{
  is_ready, has_capacity, is_candidate, is_busier, min_from, insert_by_order, sort_by_order,
  pick_least_busy, affinity_target, pick,
}

min_from-In : (m : Entry) (es : List Entry) → In (min_from m es) (m ∷ es)
unfolding min_from
min_from-In m [] = inl refl
min_from-In m (e ∷ es) =
    if-rule (λ n. In (min_from n es) (m ∷ e ∷ es)) (is_busier m e) (λ _. inr (min_from-In e es))
      λ _. elim (min_from-In m es) [ inl p ↦ inl p | inr q ↦ inr (inr q) ]

-- `a` does not stand behind `b` in the order by load and place.
abbrev pub NotBusier : Entry → Entry → Type 0
NotBusier a b = is_busier a b ≡ false

NotBusier-trans : (a b c : Entry) → NotBusier a b → NotBusier b c → NotBusier a c
NotBusier-trans a b c p q = ground arith

-- The minimum is not busier than any of them.
pub min_from-least : (m : Entry) (es : List Entry) → All (NotBusier (min_from m es)) (m ∷ es)
unfolding min_from
min_from-least m [] = ground arith
min_from-least m (e ∷ es) =
    if-rule (λ n. All (NotBusier (min_from n es)) (m ∷ e ∷ es)) (is_busier m e)
      (λ b.
        let ih = min_from-least e es in
        (NotBusier-trans (min_from e es) e m ih.0 (ground arith), ih))
      λ b.
        let ih = min_from-least m es in (ih.0, (NotBusier-trans (min_from m es) m e ih.0 b, ih.1))

insert_by_order-In : (a e : Entry) (xs : List Entry) → In a (insert_by_order e xs) → In a (e ∷ xs)
unfolding insert_by_order
insert_by_order-In a e [] m = m
insert_by_order-In a e (x ∷ xs) m = elim (Bool-cases (ltb x.order e.order)) [
  | inl b ↦ elim (rw b at m) [
    | inl p ↦ inr (inl p)
    | inr q ↦ elim (insert_by_order-In a e xs q) [ inl p ↦ inl p | inr r ↦ inr (inr r) ]
  ]
  | inr b ↦ rw b at m
]

sort_by_order-In : (a : Entry) (xs : List Entry) → In a (sort_by_order xs) → In a xs
unfolding sort_by_order
sort_by_order-In a [] m = m
sort_by_order-In a (x ∷ xs) m = elim (insert_by_order-In a x (sort_by_order xs) m) [
  | inl p ↦ inl p
  | inr q ↦ inr (sort_by_order-In a xs q)
]

get_elem?-In : {A : Type 0} (xs : List A) (i : ℕ) (a : A) → get_elem? xs i ≡ some a → In a xs
get_elem?-In [] i a h = cc
get_elem?-In (x ∷ xs) zero a h = inl (some_inj a x (sym h))
get_elem?-In (x ∷ xs) (suc i) a h = inr (get_elem?-In xs i a h)

-- The choice `(e, why)` among the candidates of the pool.
abbrev pub Picks : List Entry → Option (Entry × SelectReason) → Type 0
Picks pool none = filter is_candidate pool ≡ []
Picks pool (some (e, why)) = In e pool × (is_candidate e ≡ true)

pick_least_busy-Picks :
    (why : SelectReason) (pool cs : List Entry)
    → cs ≡ filter is_candidate pool
    → Picks pool (pick_least_busy why cs)
unfolding pick_least_busy
pick_least_busy-Picks why pool [] e = sym e
pick_least_busy-Picks why pool (c ∷ cs) e =
    filter-In is_candidate (min_from c cs) pool (subst (In (min_from c cs)) e (min_from-In c cs))

pub is_candidate_parts :
    (x : Entry) → is_candidate x ≡ true → (is_ready x ≡ true) × (has_capacity x ≡ true)
unfolding is_candidate
is_candidate_parts x c = ground arith

pub is_candidate-true :
    (x : Entry) → is_ready x ≡ true → has_capacity x ≡ true → is_candidate x ≡ true
unfolding is_candidate
is_candidate-true x r c = ground arith

module _ (digest : String → ℕ) where
  affinity_target-fits :
      (k : String) (pool : List Entry) (target : Entry)
      → affinity_target digest k pool ≡ some target
      → has_capacity target ≡ true
      → In target pool × (is_candidate target ≡ true)
  unfolding affinity_target is_candidate
  affinity_target-fits k pool target t room =
      let capable = sort_by_order (filter (λ e. is_ready e && e.prefix_cache) pool) in
      let found =
        filter-In (λ e. is_ready e && e.prefix_cache) target pool
          (sort_by_order-In target _ (get_elem?-In capable (digest k % length capable) target t)) in
      (found.0, ground (arith, found.1))

  -- A pick is a ready backend of the pool with room for one more, and there is a pick unless the
  -- pool has no such backend: affinity never overloads, and never turns work away.
  pub pick-Picks : (pool : List Entry) (key : Option String) → Picks pool (pick digest pool key)
  unfolding pick
  pick-Picks pool key = elim (Option-cases (truthy key)) [
    | inl e ↦ rw (e, pick) (pick_least_busy-Picks least_busy pool _ refl)
    | inr (k, e) ↦ elim (Option-cases (affinity_target digest k pool)) [
      | inl t ↦ rw (e, t, pick) (pick_least_busy-Picks least_busy pool _ refl)
      | inr (target, t) ↦
          rw (e, t, pick)
            (if-rule (Picks pool) (has_capacity target)
              (λ room. affinity_target-fits k pool target t room)
              λ full. pick_least_busy-Picks affinity_fallback pool _ refl)
    ]
  ]
