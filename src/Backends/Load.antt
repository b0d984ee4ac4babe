-- ===== src/Backends/Load.antt =====
-- The slots: who has how many, under `acquire` and `release`, and the least busy choice.
use inference_engine.Prelude.{
  ℕ, ◌+◌, ◌≤◌, ◌<◌, ◌≡◌, ◌≢◌, refl, sym, true, Option, List, [], ◌∷◌, arith, In, All, inl, inr,
  String, subst,
}
use inference_engine.Backends.Types.{Entry, Feature, Lease, leased}
use inference_engine.Backends.Placement.{Explains, acquire-Explains}
use inference_engine.Backends.{
  has_capacity, is_candidate, acquire, take_slot, free_slot, release, create, number_from,
}

-- Every entry has an identity of its own.
abbrev pub Fresh : ℕ → List Entry → Type 0
Fresh o es = All (λ e. e.order ≢ o) es

abbrev pub IsNumbered : List Entry → Type 0
IsNumbered [] = Unit
IsNumbered (e ∷ es) = Fresh e.order es × IsNumbered es

-- No backend holds more requests than it may.
abbrev pub WithinLimits : List Entry → Type 0
WithinLimits = All (λ e. e.in_flight ≤ e.max_in_flight)

number_from-above : (i : ℕ) (es : List Entry) → All (λ e. i ≤ e.order) (number_from i es)
unfolding number_from
number_from-above i [] = tt
number_from-above i (e ∷ es) =
    (omega arith, weaken (number_from (i + 1) es) (number_from-above (i + 1) es))
  where
    weaken : (xs : List Entry) → All (λ e. i + 1 ≤ e.order) xs → All (λ e. i ≤ e.order) xs
    weaken [] h = tt
    weaken (x ∷ xs) h = (omega arith, weaken xs h.1)

Fresh-above : (i : ℕ) (xs : List Entry) → All (λ e. i + 1 ≤ e.order) xs → Fresh i xs
Fresh-above i [] h = tt
Fresh-above i (x ∷ xs) h = (omega arith, Fresh-above i xs h.1)

number_from-IsNumbered : (i : ℕ) (es : List Entry) → IsNumbered (number_from i es)
unfolding number_from
number_from-IsNumbered i [] = tt
number_from-IsNumbered i (e ∷ es) =
    (Fresh-above i _ (number_from-above (i + 1) es), number_from-IsNumbered (i + 1) es)

-- The constructor numbers its entries apart.
pub create-IsNumbered : (es : List Entry) → IsNumbered (create es)
unfolding create
create-IsNumbered es = number_from-IsNumbered 0 es

Fresh-take : (o p : ℕ) (es : List Entry) → Fresh o es → Fresh o (take_slot p es)
unfolding take_slot
Fresh-take o p [] h = tt
Fresh-take o p (e ∷ es) h = ground (arith, Fresh-take o p es h.1)

Fresh-free : (o p : ℕ) (es : List Entry) → Fresh o es → Fresh o (free_slot p es)
unfolding free_slot
Fresh-free o p [] h = tt
Fresh-free o p (e ∷ es) h = ground (arith, Fresh-free o p es h.1)

pub take_slot-Fresh : (o : ℕ) (es : List Entry) → Fresh o es → take_slot o es ≡ es
unfolding take_slot
take_slot-Fresh o [] h = refl
take_slot-Fresh o (e ∷ es) h = ground (arith, take_slot-Fresh o es h.1)

free_slot-Fresh : (o : ℕ) (es : List Entry) → Fresh o es → free_slot o es ≡ es
unfolding free_slot
free_slot-Fresh o [] h = refl
free_slot-Fresh o (e ∷ es) h = ground (arith, free_slot-Fresh o es h.1)

pub apart : (a e : Entry) (es : List Entry) → In a es → Fresh e.order es → e.order ≢ a.order
apart a e [] m f = elim m [ ]
apart a e (x ∷ es) (inl p) f = λ q. f.0 (sym (rw p at q))
apart a e (x ∷ es) (inr m) f = apart a e es m f.1

-- The entry of this identity has room for one more.
abbrev HasRoom : ℕ → List Entry → Type 0
HasRoom o = All (λ e. e.order ≡ o → e.in_flight < e.max_in_flight)

HasRoom-Fresh : (o : ℕ) (es : List Entry) → Fresh o es → HasRoom o es
HasRoom-Fresh o [] f = tt
HasRoom-Fresh o (e ∷ es) f = (λ q. absurd (f.0 q), HasRoom-Fresh o es f.1)

HasRoom-of :
    (a : Entry) (es : List Entry)
    → IsNumbered es
    → In a es
    → a.in_flight < a.max_in_flight
    → HasRoom a.order es
HasRoom-of a [] n m h = elim m [ ]
HasRoom-of a (e ∷ es) n (inl p) h = (
  λ _. subst (λ (x : Entry). x.in_flight < x.max_in_flight) p h,
  HasRoom-Fresh a.order es (subst (λ (x : Entry). Fresh x.order es) (sym p) n.0),
)
HasRoom-of a (e ∷ es) n (inr m) h = (λ q. absurd (apart a e es m n.0 q), HasRoom-of a es n.1 m h)

take_slot-WithinLimits :
    (o : ℕ) (es : List Entry) → WithinLimits es → HasRoom o es → WithinLimits (take_slot o es)
unfolding take_slot
take_slot-WithinLimits o [] w r = tt
take_slot-WithinLimits o (e ∷ es) w r = ground (arith, take_slot-WithinLimits o es w.1 r.1, r.0)

free_slot-WithinLimits : (o : ℕ) (es : List Entry) → WithinLimits es → WithinLimits (free_slot o es)
unfolding free_slot
free_slot-WithinLimits o [] w = tt
free_slot-WithinLimits o (e ∷ es) w = ground (arith, free_slot-WithinLimits o es w.1)

take_slot-IsNumbered : (o : ℕ) (es : List Entry) → IsNumbered es → IsNumbered (take_slot o es)
unfolding take_slot
take_slot-IsNumbered o [] n = tt
take_slot-IsNumbered o (e ∷ es) n =
    ground (arith, take_slot-IsNumbered o es n.1, Fresh-take e.order o es n.0)

free_slot-IsNumbered : (o : ℕ) (es : List Entry) → IsNumbered es → IsNumbered (free_slot o es)
unfolding free_slot
free_slot-IsNumbered o [] n = tt
free_slot-IsNumbered o (e ∷ es) n =
    ground (arith, free_slot-IsNumbered o es n.1, Fresh-free e.order o es n.0)

free_slot-take_slot : (o : ℕ) (es : List Entry) → free_slot o (take_slot o es) ≡ es
unfolding free_slot take_slot
free_slot-take_slot o [] = refl
free_slot-take_slot o (e ∷ es) = ground (arith, free_slot-take_slot o es)

-- A pool whose entries are told apart, none of them over its limit.
abbrev pub IsSound : List Entry → Type 0
IsSound es = IsNumbered es × WithinLimits es

candidate_room : (e : Entry) → is_candidate e ≡ true → e.in_flight < e.max_in_flight
unfolding is_candidate has_capacity
candidate_room e c = ground arith

module _ (digest : String → ℕ) (key : Option String) (allowed : Option (List String))
    (model : Option String) (features : List Feature) (es : List Entry) where
  -- Acquiring takes no backend over its limit.
  pub acquire-IsSound :
      (l : Lease) (es' : List Entry)
      → IsSound es
      → acquire digest key allowed model features es ≡ leased l es'
      → IsSound es'
  acquire-IsSound l es' s h =
      let x : Explains allowed model features es (leased l es') =
        subst (Explains allowed model features es) h
          (acquire-Explains digest key allowed model features es) in
      rw x.5 (
        take_slot-IsNumbered x.0.order es s.0,
        take_slot-WithinLimits x.0.order es s.1
            (HasRoom-of x.0 es s.0 x.1 (candidate_room x.0 x.2.1)),
      )

  -- Releasing a lease gives back exactly what acquiring it took, and releasing it again nothing.
  pub release-acquire :
      (l : Lease) (es' : List Entry)
      → acquire digest key allowed model features es ≡ leased l es'
      → ((release l es').1 ≡ es) × (release (release l es').0 es ≡ ((release l es').0, es))
  unfolding release
  release-acquire l es' h =
      let x : Explains allowed model features es (leased l es') =
        subst (Explains allowed model features es) h
          (acquire-Explains digest key allowed model features es) in
      ground (arith, x.3, x.4, x.5, free_slot-take_slot x.0.order es)

-- Releasing keeps every backend within its limit.
pub release-IsSound : (l : Lease) (es : List Entry) → IsSound es → IsSound (release l es).1
unfolding release
release-IsSound l es s =
    ground (arith, free_slot-IsNumbered l.entry es s.0, free_slot-WithinLimits l.entry es s.1)
