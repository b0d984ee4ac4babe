-- ===== src/Backends/LeastBusy.antt =====
-- Which of the candidates is chosen: the least busy one without a prefix, and the backend that
-- the prefix's digest names, whatever the load, with one.
use mathlib.Core.Option
use inference_engine.Prelude.{
  truthy, ℕ, zero, suc, ◌%◌, ◌≡◌, refl, sym, ◌∙◌, Bool, true, ◌&&◌, Option, none, some, List, [],
  ◌∷◌, arith, filter, In, All, Option-cases, inl, inr, some_inj, String, subst, map, ap, get_elem?,
  length,
}
use inference_engine.Backends.Types.{
  Entry, SelectReason, Tier, least_busy, prefix_affinity, affinity_fallback, Feature,
}
use inference_engine.Backends.Choice.{NotBusier, min_from-least, Picks, pick-Picks}
use inference_engine.Backends.Placement.{CanServe, tier_member, tier_sound, pool_of}
use inference_engine.Backends.{
  is_ready, is_candidate, pick, pick_least_busy, select_detailed, is_primary, is_spill,
  affinity_target, sort_by_order, insert_by_order,
}

All-In : {A : Type 0} (P : A → Type 0) (x : A) (xs : List A) → In x xs → All P xs → P x
All-In P x [] m h = elim m [ ]
All-In P x (y ∷ xs) (inl p) h = subst P (sym p) h.0
All-In P x (y ∷ xs) (inr m) h = All-In P x xs m h.1

pick_least_busy-least :
    (why : SelectReason) (cs : List Entry) (r : Entry × SelectReason)
    → pick_least_busy why cs ≡ some r
    → All (NotBusier r.0) cs
unfolding pick_least_busy
pick_least_busy-least why [] r h = cc
pick_least_busy-least why (c ∷ cs) r h =
    subst (λ (q : Entry × SelectReason). All (NotBusier q.0) (c ∷ cs)) (some_inj _ _ h)
      (min_from-least c cs)

module _ (digest : String → ℕ) (key : Option String) (no_key : truthy key ≡ none) where
  pick-least :
      (pool : List Entry) (r : Entry × SelectReason)
      → pick digest pool key ≡ some r
      → All (NotBusier r.0) (filter is_candidate pool)
  unfolding pick
  pick-least pool r h =
      pick_least_busy-least least_busy (filter is_candidate pool) r (rw (no_key, pick) at h)

  -- In one tier: the pick is not busier than anybody of the tier who can serve.
  tier-least :
      (p : Entry → Bool) (allowed : Option (List String)) (model : Option String)
      (features : List Feature) (es : List Entry) (q : Entry × SelectReason) (x : Entry)
      → pick digest (filter p (pool_of allowed model features es)) key ≡ some q
      → In x es
      → CanServe allowed model features x
      → (p q.0 ≡ true → p x ≡ true)
      → NotBusier q.0 x
  tier-least p allowed model features es q x e m c like =
      let pool = filter p (pool_of allowed model features es) in
      let f : Picks pool (some q) = rw e at (pick-Picks digest pool key) in
      let t = tier_sound allowed model features p q.0 es f.0 f.1 in
      All-In (NotBusier q.0) x _ (tier_member allowed model features p x es m (like t.2) c)
        (pick-least pool q e)

  -- Without a prefix key the chosen backend is one with the fewest requests in flight among those
  -- of its tier that can serve, the first of them in the pool's order.
  pub select_detailed-least :
      (allowed : Option (List String)) (model : Option String) (features : List Feature)
      (es : List Entry) (r : Entry × SelectReason × Tier × ℕ) (x : Entry)
      → select_detailed digest key allowed model features es ≡ some r
      → In x es
      → CanServe allowed model features x
      → x.spillover ≡ r.0.spillover
      → NotBusier r.0 x
  unfolding select_detailed
  select_detailed-least allowed model features es r x h m c t =
      let pool = pool_of allowed model features es in
      elim (Option-cases (pick digest (filter is_primary pool) key)) [
        | inr (q, e) ↦
            let same : q.0 ≡ r.0 = ground arith in
            subst (λ (a : Entry). NotBusier a x) same
              (tier-least is_primary allowed model features es q x e m c
                (λ p. ground (arith, ap (λ (a : Entry). a.spillover) same)))
        | inl e ↦ elim (Option-cases (pick digest (filter is_spill pool) key)) [
          | inr (q, e') ↦
              let same : q.0 ≡ r.0 = ground arith in
              subst (λ (a : Entry). NotBusier a x) same
                (tier-least is_spill allowed model features es q x e' m c
                  (λ p. ground (arith, ap (λ (a : Entry). a.spillover) same)))
          | inl e' ↦ ground arith
        ]
      ]

-- An entry with its load left out.
abbrev pub idle : Entry → Entry
idle e = record e { in_flight = 0 }

insert_by_order-idle :
    (e : Entry) (xs : List Entry)
    → map idle (insert_by_order e xs) ≡ insert_by_order (idle e) (map idle xs)
unfolding insert_by_order
insert_by_order-idle e [] = refl
insert_by_order-idle e (x ∷ xs) = ground (arith, insert_by_order-idle e xs)

sort_by_order-idle : (xs : List Entry) → map idle (sort_by_order xs) ≡ sort_by_order (map idle xs)
unfolding sort_by_order
sort_by_order-idle [] = refl
sort_by_order-idle (x ∷ xs) =
    insert_by_order-idle x (sort_by_order xs)
    ∙ ap (insert_by_order (idle x)) (sort_by_order-idle xs)

abbrev keeps_prefixes : Entry → Bool
keeps_prefixes e = is_ready e && e.prefix_cache

capable-idle :
    (xs : List Entry) → map idle (filter keeps_prefixes xs) ≡ filter keeps_prefixes (map idle xs)
unfolding is_ready
capable-idle [] = refl
capable-idle (x ∷ xs) = ground (arith, capable-idle xs)

length-map_idle : (xs : List Entry) → length (map idle xs) ≡ length xs
length-map_idle [] = refl
length-map_idle (x ∷ xs) = ap suc (length-map_idle xs)

get_elem?-map_idle :
    (xs : List Entry) (i : ℕ) → get_elem? (map idle xs) i ≡ Option.map idle (get_elem? xs i)
get_elem?-map_idle [] i = refl
get_elem?-map_idle (x ∷ xs) zero = refl
get_elem?-map_idle (x ∷ xs) (suc i) = get_elem?-map_idle xs i

pick_least_busy-reason :
    (why : SelectReason) (cs : List Entry) (r : Entry × SelectReason)
    → pick_least_busy why cs ≡ some r
    → r.1 ≡ why
unfolding pick_least_busy
pick_least_busy-reason why [] r h = cc
pick_least_busy-reason why (c ∷ cs) r h = ground arith

module _ (digest : String → ℕ) where
  affinity_target-idle :
      (k : String) (pool : List Entry)
      → affinity_target digest k (map idle pool) ≡ Option.map idle (affinity_target digest k pool)
  unfolding affinity_target
  affinity_target-idle k pool =
      let capable = sort_by_order (filter keeps_prefixes pool) in
      let same : sort_by_order (filter keeps_prefixes (map idle pool)) ≡ map idle capable =
        ap sort_by_order (sym (capable-idle pool))
        ∙ sym (sort_by_order-idle (filter keeps_prefixes pool)) in
      ap (λ (c : List Entry). get_elem? c (digest k % length c)) same
      ∙ (rw length-map_idle (get_elem?-map_idle capable (digest k % length capable)))

  by_affinity :
      (pool : List Entry) (key : Option String) (t : Entry)
      → pick digest pool key ≡ some (t, prefix_affinity)
      → (k : String) × (truthy key ≡ some k) × (affinity_target digest k pool ≡ some t)
  unfolding pick
  by_affinity pool key t h = elim (Option-cases (truthy key)) [
    | inl e ↦ absurd (
        ground (
          arith,
          pick_least_busy-reason least_busy (filter is_candidate pool) (t, prefix_affinity),
        ))
    | inr (k, e) ↦ elim (Option-cases (affinity_target digest k pool)) [
      | inl a ↦ absurd (
          ground (
            arith,
            pick_least_busy-reason least_busy (filter is_candidate pool) (t, prefix_affinity),
          ))
      | inr (target, a) ↦ (
        k,
        e,
        ground (
          arith,
          pick_least_busy-reason affinity_fallback (filter is_candidate pool) (t, prefix_affinity),
        ),
      )
    ]
  ]

  -- Affinity does not follow the load: in two pools that differ only in the requests in flight, a
  -- pick by affinity for the same key is the same backend.
  pub affinity_stable :
      (pool pool' : List Entry) (key : Option String) (t t' : Entry)
      → map idle pool ≡ map idle pool'
      → pick digest pool key ≡ some (t, prefix_affinity)
      → pick digest pool' key ≡ some (t', prefix_affinity)
      → idle t ≡ idle t'
  affinity_stable pool pool' key t t' same h h' =
      let a = by_affinity pool key t h in
      let a' = by_affinity pool' key t' h' in
      ground (
        arith,
        affinity_target-idle a.0 pool,
        affinity_target-idle a'.0 pool',
        a.1,
        a.2,
        a'.1,
        a'.2,
      )
