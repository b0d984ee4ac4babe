-- ===== src/Gateway/Serving.antt =====
-- Requests from their authorization to their `finalize` or `abort` (engine/gateway.py), in any
-- order: the limiter counts exactly the accesses that hold a slot.
use inference_engine.Prelude.{
  ℕ, zero, suc, ◌+◌, ◌≤◌, ◌≡◌, refl, ◌∙◌, ◌⊎◌, inl, inr, Bool, true, false, Option, none, some,
  List, [], ◌∷◌, ◌++◌, String, All, All-append, count, count-append, get_elem?, arith, Option-cases,
  some_inj,
}
use inference_engine.Gateway.{abort, finalize, authorize_token}
use inference_engine.Gateway.Limiting.{inflight_of}
use inference_engine.Gateway.Types.{Gateway, ApiAccess, Outcome, Request}
use inference_engine.Gateway.Settling.{
  holds, one_if, IsCoherent, Settles, abort-Settles, finalize-Settles,
}
use inference_engine.Gateway.Granting.{granted, Within, IsOpen, authorize_token-Grants}

-- A gateway with the accesses that it has handed out, by their place the objects.
pub record Service : Type 0 where
  pub gateway : Gateway
  pub accesses : List ApiAccess

-- What a client of the gateway does.
pub data Event : Type 0 where
  authorizes : Request → ℕ → Event
  finalizes : ℕ → String → Option String → ℕ → ℕ → ℕ → ℕ → Bool → Event
  aborts : ℕ → Event

abbrev pub set : List ApiAccess → ℕ → ApiAccess → List ApiAccess
set [] i a = []
set (x ∷ xs) zero a = a ∷ xs
set (x ∷ xs) (suc i) a = x ∷ set xs i a

abbrev settle : (ApiAccess → Gateway → ApiAccess × Gateway) → ℕ → Service → Service
settle f i s = elim (get_elem? s.accesses i) [
  | none ↦ s
  | some a ↦
      let out = f a s.gateway in record { gateway = out.1; accesses = set s.accesses i out.0 }
]

abbrev hand_out : List ApiAccess → Outcome ApiAccess → List ApiAccess
hand_out held (Outcome.raised d) = held
hand_out held (Outcome.returned a) = held ++ a ∷ []

abbrev pub serve : (String → String) → Event → Service → Service
serve hash (Event.authorizes r now) s =
    let out = authorize_token hash r now s.gateway in
    record { gateway = out.0; accesses = hand_out s.accesses out.1 }
serve hash (Event.finalizes i request_id model prompt completion status now written) s =
    settle (finalize request_id model prompt completion status now written) i s
serve hash (Event.aborts i) s = settle abort i s

abbrev pub serve_all : (String → String) → List Event → Service → Service
serve_all hash [] s = s
serve_all hash (e ∷ es) s = serve_all hash es (serve hash e s)

-- The limiter counts the accesses that hold a slot, within the limit of each key.
pub record IsBalanced (cap_per_key : ℕ) (s : Service) : Type 0 where
  pub counts : (key : String) → inflight_of key s.gateway.limiter ≡ count (holds key) s.accesses
  pub within : (key : String) → Within key s.gateway.limiter
  pub coherent : All IsCoherent s.accesses
  pub has_cap : s.gateway.limiter.max_concurrent ≡ cap_per_key

count-set :
    (p : ApiAccess → Bool) (xs : List ApiAccess) (i : ℕ) (x y : ApiAccess)
    → get_elem? xs i ≡ some x
    → count p (set xs i y) + one_if (p x) ≡ count p xs + one_if (p y)
count-set p [] i x y h = cc
count-set p (z ∷ xs) zero x y h = let e = some_inj z x h in rw e (ground arith)
count-set p (z ∷ xs) (suc i) x y h = ground (arith, count-set p xs i x y h)

All-set :
    (xs : List ApiAccess) (i : ℕ) (y : ApiAccess)
    → All IsCoherent xs
    → IsCoherent y
    → All IsCoherent (set xs i y)
All-set [] i y h c = tt
All-set (x ∷ xs) zero y h c = (c, h.1)
All-set (x ∷ xs) (suc i) y h c = (h.0, All-set xs i y h.1 c)

get_elem?-IsCoherent :
    (xs : List ApiAccess) (i : ℕ) (x : ApiAccess)
    → All IsCoherent xs
    → get_elem? xs i ≡ some x
    → IsCoherent x
get_elem?-IsCoherent [] i x h e = cc
get_elem?-IsCoherent (z ∷ xs) zero x h e = rw (← some_inj z x e) h.0
get_elem?-IsCoherent (z ∷ xs) (suc i) x h e = get_elem?-IsCoherent xs i x h.1 e

settle-IsBalanced :
    (m : ℕ) (f : ApiAccess → Gateway → ApiAccess × Gateway) (i : ℕ) (s : Service)
    → ((a : ApiAccess) → IsCoherent a → Settles a s.gateway (f a s.gateway))
    → IsBalanced m s
    → IsBalanced m (settle f i s)
settle-IsBalanced m f i s settles b = elim (Option-cases (get_elem? s.accesses i)) [
  | inl e ↦ rw (settle, e) b
  | inr (a, e) ↦
      let out = f a s.gateway in
      let t = settles a (get_elem?-IsCoherent s.accesses i a b.coherent e) in
      let released = λ (key : String).
        let h : holds key out.0 ≡ false = rw t.has_none refl in
        let k = rw h at (count-set (holds key) s.accesses i a out.0 e) in
        let l : inflight_of key out.1.limiter ≡ count (holds key) (set s.accesses i out.0) =
          omega (arith, k, t.frees key, b.counts key) in
        l in
      rw (settle, e)
        (record {
          counts = released;
          within = λ key. ground (arith, b.within key, t.frees key, t.same_cap);
          coherent = All-set s.accesses i out.0 b.coherent (rw t.has_none (ground arith));
          has_cap = t.same_cap ∙ b.has_cap;
        })
]

hand_out-count :
    (key : String) (held : List ApiAccess) (o : Outcome ApiAccess)
    → count (holds key) (hand_out held o) ≡ count (holds key) held + granted key o
hand_out-count key held (Outcome.raised d) = omega arith
hand_out-count key held (Outcome.returned a) = count-append (holds key) held (a ∷ []) ∙ ground arith

hand_out-IsCoherent :
    (held : List ApiAccess) (o : Outcome ApiAccess)
    → All IsCoherent held
    → IsOpen o
    → All IsCoherent (hand_out held o)
hand_out-IsCoherent held (Outcome.raised d) h o = h
hand_out-IsCoherent held (Outcome.returned a) h o =
    All-append IsCoherent held (a ∷ []) h (rw o refl, tt)

serve-IsBalanced :
    (m : ℕ) (hash : String → String) (e : Event) (s : Service)
    → IsBalanced m s
    → IsBalanced m (serve hash e s)
serve-IsBalanced m hash (Event.authorizes r now) s b =
    let o = authorize_token-Grants hash r now s.gateway in
    let out = authorize_token hash r now s.gateway in
    record {
      counts =
          λ key. omega (arith, o.counts key, b.counts key, hand_out-count key s.accesses out.1);
      within = λ key. o.within key (b.within key);
      coherent = hand_out-IsCoherent s.accesses out.1 b.coherent o.is_open;
      has_cap = o.same_cap ∙ b.has_cap;
    }
serve-IsBalanced m hash (Event.finalizes i request_id model prompt completion status now written) s
      b =
    settle-IsBalanced m (finalize request_id model prompt completion status now written) i s
      (λ a c. finalize-Settles request_id model prompt completion status now written a s.gateway c)
      b
serve-IsBalanced m hash (Event.aborts i) s b =
    settle-IsBalanced m abort i s (λ a c. abort-Settles a s.gateway c) b

serve_all-IsBalanced :
    (m : ℕ) (hash : String → String) (es : List Event) (s : Service)
    → IsBalanced m s
    → IsBalanced m (serve_all hash es s)
serve_all-IsBalanced m hash [] s b = b
serve_all-IsBalanced m hash (e ∷ es) s b =
    serve_all-IsBalanced m hash es (serve hash e s) (serve-IsBalanced m hash e s b)

abbrev pub opened : Gateway → Service
opened g = record { gateway = g; accesses = [] }

opened-IsBalanced :
    (g : Gateway) → g.limiter.inflight ≡ [] → IsBalanced g.limiter.max_concurrent (opened g)
opened-IsBalanced g e = record {
  counts = λ key. rw e refl;
  within = λ key. inr (rw e (omega arith));
  coherent = tt;
  has_cap = refl;
}

abbrev pub IsFinalized : ApiAccess → Type 0
IsFinalized a = a.finalized ≡ true

none_held :
    (key : String) (xs : List ApiAccess)
    → All IsCoherent xs
    → All IsFinalized xs
    → count (holds key) xs ≡ 0
none_held key [] c f = refl
none_held key (x ∷ xs) c f =
    let h : x.slot_held ≡ false = rw f.0 at c.0 in rw h (none_held key xs c.1 f.1)

-- Whatever is authorized, finalized and aborted, in whatever order and as often, from a gateway
-- with nothing in flight: the limiter's count for a key is the number of accesses that hold a slot
-- of the key; with a limit it is never above the limit; and once every access handed out is
-- finalized, no slot of any key is taken.
pub serve_all_slots :
    (hash : String → String) (es : List Event) (g : Gateway)
    → g.limiter.inflight ≡ []
    → let s = serve_all hash es (opened g) in
      (key : String)
      → (inflight_of key s.gateway.limiter ≡ count (holds key) s.accesses)
        × ((g.limiter.max_concurrent ≡ 0)
            ⊎ (inflight_of key s.gateway.limiter ≤ g.limiter.max_concurrent))
        × (All IsFinalized s.accesses → inflight_of key s.gateway.limiter ≡ 0)
serve_all_slots hash es g e key =
    let m = g.limiter.max_concurrent in
    let b = serve_all-IsBalanced m hash es (opened g) (opened-IsBalanced g e) in
    (b.counts key, rw b.has_cap at (b.within key), λ f. b.counts key ∙ none_held key _ b.coherent f)
