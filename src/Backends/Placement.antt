-- ===== src/Backends/Placement.antt =====
-- `_select_detailed` and `acquire` against a description of which backends can serve a request.
use inference_engine.Prelude.{
  ℕ, ◌≡◌, refl, sym, Bool, true, false, ◌&&◌, not, Option, none, some, List, [], ◌∷◌, arith, filter,
  In, In-filter, filter-In, Option-cases, Bool-cases, inl, inr, String, is_empty, subst, ap,
  if◌then◌else◌, &&-true,
}
use inference_engine.Backends.Types.{
  Entry, SelectReason, Tier, primary, spill, Feature, Refusal, busy, unsupported, Acquired, leased,
  refused, backend_of,
}
use inference_engine.Backends.Choice.{Picks, pick-Picks, is_candidate-true}
use inference_engine.Backends.{
  is_ready, has_capacity, is_candidate, is_primary, is_spill, in_scope, eligible, model_eligible,
  pick, select_detailed, refusal, acquire, take_slot,
}

module _ (allowed : Option (List String)) (model : Option String) (features : List Feature) where
  -- In the scope of the request, with the live model and the features that it asks for.
  abbrev pub Suits : Entry → Type 0
  Suits e = (in_scope allowed e ≡ true) × (eligible e model features ≡ true)

  -- It suits the request, is ready, and has a slot left.
  abbrev pub CanServe : Entry → Type 0
  CanServe e = Suits e × (is_candidate e ≡ true)

  abbrev pub pool_of : List Entry → List Entry
  pool_of es = filter (λ e. in_scope allowed e && eligible e model features) es

  -- Somebody who can serve is in the pool of its tier.
  pub tier_member :
      (p : Entry → Bool) (x : Entry) (es : List Entry)
      → In x es
      → p x ≡ true
      → CanServe x
      → In x (filter is_candidate (filter p (pool_of es)))
  tier_member p x es m t c =
      In-filter is_candidate x _
        (In-filter p x _ (In-filter _ x es m (ground (arith, c.0.0, c.0.1))) t) c.1

  pub tier_sound :
      (p : Entry → Bool) (x : Entry) (es : List Entry)
      → In x (filter p (pool_of es))
      → is_candidate x ≡ true
      → In x es × CanServe x × (p x ≡ true)
  tier_sound p x es m c =
      let inner = filter-In p x (pool_of es) m in
      let outer = filter-In (λ e. in_scope allowed e && eligible e model features) x es inner.0 in
      let both = &&-true (in_scope allowed x) (eligible x model features) outer.1 in
      (outer.0, (both, c), inner.1)

abbrev pub Chooses :
    Option (List String)
    → Option String
    → List Feature
    → List Entry
    → Option (Entry × SelectReason × Tier × ℕ)
    → Type 0
Chooses a m f es none = (x : Entry) → In x es → ¬ CanServe a m f x
Chooses a m f es (some (e, why, primary, n)) = In e es × CanServe a m f e × (e.spillover ≡ false)
Chooses a m f es (some (e, why, spill, n)) =
    In e es
    × CanServe a m f e
    × (e.spillover ≡ true)
    × ((x : Entry) → In x es → x.spillover ≡ false → ¬ CanServe a m f x)

module _ (digest : String → ℕ) (key : Option String) (allowed : Option (List String))
    (model : Option String) (features : List Feature) where
  nobody_left :
      (p : Entry → Bool) (x : Entry) (es : List Entry)
      → filter is_candidate (filter p (pool_of allowed model features es)) ≡ []
      → In x es
      → p x ≡ true
      → ¬ CanServe allowed model features x
  nobody_left p x es e m t c = subst (In x) e (tier_member allowed model features p x es m t c)

  -- A selected backend suits the request, is ready and has room; a spillover backend only where no
  -- other can serve; and nothing is selected only where no backend of the pool can serve.
  pub select_detailed-Chooses :
      (es : List Entry)
      → Chooses allowed model features es (select_detailed digest key allowed model features es)
  unfolding select_detailed
  select_detailed-Chooses es =
      let pool = pool_of allowed model features es in
      let first = pick-Picks digest (filter is_primary pool) key in
      let second = pick-Picks digest (filter is_spill pool) key in
      elim (Option-cases (pick digest (filter is_primary pool) key)) [
        | inr (r, e) ↦
            let f : Picks (filter is_primary pool) (some r) = rw e at first in
            let t = tier_sound allowed model features is_primary r.0 es f.0 f.1 in
            rw (e, select_detailed) (t.0, t.1, ground (arith, t.2))
        | inl e ↦
            let empty : filter is_candidate (filter is_primary pool) ≡ [] = rw e at first in
            elim (Option-cases (pick digest (filter is_spill pool) key)) [
              | inr (r, e') ↦
                  let f : Picks (filter is_spill pool) (some r) = rw e' at second in
                  let t = tier_sound allowed model features is_spill r.0 es f.0 f.1 in
                  rw (e, e', select_detailed)
                    (t.0, t.1, t.2, λ x m p. nobody_left is_primary x es empty m (ap not p))
              | inl e' ↦
                  let none_left : filter is_candidate (filter is_spill pool) ≡ [] =
                    rw e' at second in
                  rw (e, e', select_detailed)
                    λ x m c. elim (Bool-cases x.spillover) [
                      | inl s ↦ nobody_left is_spill x es none_left m s c
                      | inr p ↦ nobody_left is_primary x es empty m (ap not p) c
                    ]
            ]
      ]

-- Ready, in scope and serving the model, whatever the features.
abbrev pub ServesModel : Option (List String) → Option String → Entry → Type 0
ServesModel a m e = (in_scope a e ≡ true) × (is_ready e ≡ true) × (model_eligible e m ≡ true)

-- What `acquire` answers, told by the backends of the pool.
abbrev pub Explains :
    Option (List String) → Option String → List Feature → List Entry → Acquired → Type 0
Explains a m f es (leased l es') =
    (e : Entry) × In e es
    × CanServe a m f e
    × (l.entry ≡ e.order)
    × (l.released ≡ false)
    × (es' ≡ take_slot e.order es)
    × (backend_of l ≡ some e.name)
Explains a m f es (refused Refusal.unloaded) = (x : Entry) → In x es → ¬ ServesModel a m x
Explains a m f es (refused (unsupported g)) =
    (g ≡ f)
    × ((x : Entry) × In x es × ServesModel a m x)
    × ((x : Entry) → In x es → ServesModel a m x → ¬ (eligible x m f ≡ true))
Explains a m f es (refused busy) =
    ((x : Entry) × In x es × Suits a m f x × (is_ready x ≡ true))
    × ((x : Entry) → In x es → Suits a m f x → is_ready x ≡ true → has_capacity x ≡ false)

module _ (allowed : Option (List String)) (model : Option String) (features : List Feature)
    (es : List Entry) where
  model_ready : List Entry
  model_ready = filter (λ e. in_scope allowed e && (is_ready e && model_eligible e model)) es

  model_ready_member : (x : Entry) → In x es → ServesModel allowed model x → In x model_ready
  unfolding model_ready
  model_ready_member x m s = In-filter _ x es m (ground (arith, s.0, s.1, s.2))

  model_ready_sound : (x : Entry) → In x model_ready → In x es × ServesModel allowed model x
  unfolding model_ready
  model_ready_sound x m =
      let f =
        filter-In (λ e. in_scope allowed e && (is_ready e && model_eligible e model)) x es m in
      let a = &&-true (in_scope allowed x) (is_ready x && model_eligible x model) f.1 in
      let b = &&-true (is_ready x) (model_eligible x model) a.1 in (f.0, (a.0, b.0, b.1))

  -- The reason that is given, where nobody can serve.
  refusal-Explains :
      ((x : Entry) → In x es → ¬ CanServe allowed model features x)
      → Explains allowed model features es (refused (refusal allowed model features es))
  unfolding refusal model_ready
  refusal-Explains nobody =
      explain model_ready (filter (λ e. eligible e model features) model_ready) refl refl
    where
      explain :
          (ms fs : List Entry)
          → ms ≡ model_ready
          → fs ≡ filter (λ e. eligible e model features) model_ready
          → Explains allowed model features es (
              refused (
                if is_empty ms
                then Refusal.unloaded
                else if is_empty fs
                then unsupported features
                else busy))
      explain [] fs p q = λ x m s. subst (In x) (sym p) (model_ready_member x m s)
      explain (y ∷ ms) [] p q =
          let mine = model_ready_sound y (subst (In y) p (inl refl)) in
          (
            refl,
            (y, mine.0, mine.1),
            λ x m s e.
                subst (In x) (sym q) (In-filter _ x model_ready (model_ready_member x m s) e),
          )
      explain (y ∷ ms) (z ∷ fs) p q =
          let f =
            filter-In (λ e. eligible e model features) z model_ready (subst (In z) q (inl refl)) in
          let mine = model_ready_sound z f.0 in
          (
            (z, mine.0, (mine.1.0, f.1), mine.1.1),
            λ x m s r. elim (Bool-cases (has_capacity x)) [
              | inl room ↦ absurd (nobody x m (s, is_candidate-true x r room))
              | inr full ↦ full
            ],
          )

-- `acquire` is exact: a lease holds a slot of a backend that can serve, in a pool where only that
-- slot is taken; and each refusal says why nobody could serve.
pub acquire-Explains :
    (digest : String → ℕ) (key : Option String) (allowed : Option (List String))
    (model : Option String) (features : List Feature) (es : List Entry)
    → Explains allowed model features es (acquire digest key allowed model features es)
unfolding acquire
acquire-Explains digest key allowed model features es =
    let chosen = select_detailed-Chooses digest key allowed model features es in
    elim (Option-cases (select_detailed digest key allowed model features es)) [
      | inl e ↦ rw (e, acquire) (refusal-Explains allowed model features es (rw e at chosen))
      | inr (r, e) ↦ leases r e (rw e at chosen)
    ]
  where
    leases :
        (r : Entry × SelectReason × Tier × ℕ)
        → select_detailed digest key allowed model features es ≡ some r
        → Chooses allowed model features es (some r)
        → Explains allowed model features es (acquire digest key allowed model features es)
    leases (e, why, primary, n) q c = rw (q, acquire) (e, c.0, c.1, refl, refl, refl, refl)
    leases (e, why, spill, n) q c = rw (q, acquire) (e, c.0, c.1, refl, refl, refl, refl)
