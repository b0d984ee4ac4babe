-- ===== src/Backends/Exact.antt =====
-- `acquire` of engine/inference/registry.py takes one slot of one backend and changes nothing else.
use inference_engine.Prelude.{
  ℕ, ◌+◌, ◌≡◌, refl, sym, ap, ◌∙◌, subst, Option, List, [], ◌∷◌, ◌++◌, In, inl, inr, String, arith,
  true, false, some, ◌==◌,
}
use inference_engine.Backends.Types.{Entry, Feature, Acquired, leased, refused, backend_of}
use inference_engine.Backends.Placement.{CanServe, Explains, acquire-Explains}
use inference_engine.Backends.Load.{IsNumbered, Fresh, apart, take_slot-Fresh}
use inference_engine.Backends.{acquire, take_slot}

-- In the second pool this entry has one request more in flight, and every other is as it was.
abbrev pub TakesOne : Entry → List Entry → List Entry → Type 0
TakesOne e es es' =
    (xs : List Entry) × (ys : List Entry) × (es ≡ xs ++ e ∷ ys)
    × (es' ≡ xs ++ record e { in_flight = e.in_flight + 1 } ∷ ys)

-- What `acquire` answers, told by the backends of the pool; a refusal as `Explains` says it.
abbrev pub Exact :
    Option (List String) → Option String → List Feature → List Entry → Acquired → Type 0
Exact a m f es (leased l es') =
    (e : Entry) × CanServe a m f e
    × (l.entry ≡ e.order)
    × (l.released ≡ false)
    × (backend_of l ≡ some e.name)
    × TakesOne e es es'
Exact a m f es (refused r) = Explains a m f es (refused r)

take_slot-head :
    (x : Entry) (es : List Entry)
    → Fresh x.order es
    → take_slot x.order (x ∷ es) ≡ record x { in_flight = x.in_flight + 1 } ∷ es
unfolding take_slot
take_slot-head x es f =
    let same : (x.order == x.order) ≡ true = ground arith in
    rw (take_slot-Fresh x.order es f, same) refl

take_slot-tail :
    (o : ℕ) (x : Entry) (es : List Entry)
    → (x.order == o) ≡ false
    → take_slot o (x ∷ es) ≡ x ∷ take_slot o es
unfolding take_slot
take_slot-tail o x es h = rw h refl

take_slot-TakesOne :
    (e : Entry) (es : List Entry) → IsNumbered es → In e es → TakesOne e es (take_slot e.order es)
take_slot-TakesOne e [] n m = elim m [ ]
take_slot-TakesOne e (x ∷ es) n (inl p) =
    subst (λ (y : Entry). TakesOne y (x ∷ es) (take_slot y.order (x ∷ es))) (sym p)
      ([], es, refl, take_slot-head x es n.0)
take_slot-TakesOne e (x ∷ es) n (inr m) =
    let r = take_slot-TakesOne e es n.1 m in
    let other = apart e x es m n.0 in
    let h : (x.order == e.order) ≡ false = ground (arith, other) in
    (x ∷ r.0, r.1, ap (λ t. x ∷ t) r.2, take_slot-tail e.order x es h ∙ ap (λ t. x ∷ t) r.3)

-- `acquire` is exact, in a pool whose entries are numbered apart, as the constructor numbers them: a
-- lease holds a slot of a backend that can serve, in a pool where this backend has one request more
-- in flight and nothing else is changed; and each refusal says why nobody could serve.
pub acquire-Exact :
    (digest : String → ℕ) (key : Option String) (allowed : Option (List String))
    (model : Option String) (features : List Feature) (es : List Entry)
    → IsNumbered es
    → Exact allowed model features es (acquire digest key allowed model features es)
acquire-Exact digest key allowed model features es n =
    go (acquire digest key allowed model features es)
      (acquire-Explains digest key allowed model features es)
  where
    go : (a : Acquired) → Explains allowed model features es a → Exact allowed model features es a
    go (leased l es') (e, m, c, o, r, t, b) =
        (e, c, o, r, b, subst (TakesOne e es) (sym t) (take_slot-TakesOne e es n m))
    go (refused r) h = h
