-- ===== src/Router/Placement.antt =====
-- Where a request for a name ends up: the registry's own promise for a physical model, and the
-- first step that can serve for a virtual one.
use inference_engine.Prelude.{
  ℕ, ◌+◌, ◌≡◌, refl, ◌∙◌, Bool, true, false, Option, none, some, List, [], ◌∷◌, arith, ltb, String,
  Option-cases, inl, inr, ◌⊎◌, In, find-some,
}
use inference_engine.Backends.Types.{
  Entry, Policy, base, Feature, Lease, Refusal, busy, unsupported, Acquired, leased, refused,
  step_of, backend_of,
}
use inference_engine.Backends
use inference_engine.Backends.Placement.{Explains, CanServe, acquire-Explains}
use inference_engine.Backends.Choice.{is_candidate_parts}
use inference_engine.Router.Types.{VirtualModel, WorkloadRule, Router}
use inference_engine.Router.{
  virtual_model, is_virtual, matching_workload_rule, with_policy, with_workload_rule, cascade,
  acquire_baseline, acquire, on_lease,
}

-- Changes to the decision of a lease leave its slot alone.
with_policy-slot :
    (p : Policy) (n : Option ℕ) (b : Bool) (l : Lease)
    → ((with_policy p n b l).entry ≡ l.entry)
      × ((with_policy p n b l).released ≡ l.released)
      × (backend_of (with_policy p n b l) ≡ backend_of l)
unfolding with_policy
with_policy-slot p n b l = ground arith

with_workload_rule-slot :
    (s : String) (l : Lease)
    → ((with_workload_rule s l).entry ≡ l.entry)
      × ((with_workload_rule s l).released ≡ l.released)
      × (backend_of (with_workload_rule s l) ≡ backend_of l)
unfolding with_workload_rule
with_workload_rule-slot s l = ground arith

Explains-slot :
    (a : Option (List String)) (m : Option String) (f : List Feature) (es : List Entry)
    (l l' : Lease) (es' : List Entry)
    → (l'.entry ≡ l.entry) × (l'.released ≡ l.released) × (backend_of l' ≡ backend_of l)
    → Explains a m f es (leased l es')
    → Explains a m f es (leased l' es')
Explains-slot a m f es l l' es' (p, q, z) (e, i, c, o, r, t, w) = (e, i, c, p ∙ o, q ∙ r, t, z ∙ w)

-- A lease that has a decision takes the step that it is given.
with_policy-step :
    (p : Policy) (i : ℕ) (b : Bool) (l : Lease) (n : String)
    → backend_of l ≡ some n
    → step_of (with_policy p (some i) b l) ≡ some i
unfolding with_policy
with_policy-step p i b l n h = ground arith

-- A scope narrows the pool: who can serve in it can serve in the whole.
Explains-widen :
    (a : List String) (m : Option String) (f : List Feature) (es : List Entry) (l : Lease)
    (es' : List Entry)
    → Explains (some a) m f es (leased l es')
    → Explains none m f es (leased l es')
Explains-widen a m f es l es' (e, i, c, o, r, t, w) = (e, i, ((refl, c.0.1), c.1), o, r, t, w)

module _ (digest : String → ℕ) (key : Option String) (features : List Feature)
    (es : List Entry) where
  baseline-physical :
      (r : Router) (name : String)
      → virtual_model r name ≡ none
      → Explains none (some name) features es (acquire_baseline digest r name key features es)
  unfolding acquire_baseline
  baseline-physical r name v =
      rw (v, acquire_baseline)
        (kept (Backends.acquire digest key none (some name) features es)
          (acquire-Explains digest key none (some name) features es))
    where
      kept :
          (a : Acquired)
          → Explains none (some name) features es a
          → Explains none (some name) features es (on_lease (with_policy base none false) a)
      kept (leased l es') h =
          Explains-slot none (some name) features es l (with_policy base none false l) es'
            (with_policy-slot base none false l) h
      kept (refused Refusal.unloaded) h = h
      kept (refused busy) h = h
      kept (refused (unsupported g)) h = h

  -- For a physical model the router keeps the promise of the registry over the whole pool: a
  -- matching preference changes which backend serves, and never whether the request is served.
  pub acquire-physical :
      (r : Router) (name : String)
      → virtual_model r name ≡ none
      → Explains none (some name) features es (acquire digest r name key features es)
  unfolding acquire
  acquire-physical r name v = elim (Option-cases (matching_workload_rule r name features)) [
    | inl m ↦ rw (m, acquire) (baseline-physical r name v)
    | inr (rule, m) ↦
        rw (m, acquire)
          (preferred rule
            (Backends.acquire digest key (some rule.preferred_backends) (some name) features es)
            (acquire-Explains digest key (some rule.preferred_backends) (some name) features es))
  ]
    where
      preferred :
          (rule : WorkloadRule) (a : Acquired)
          → Explains (some rule.preferred_backends) (some name) features es a
          → Explains none (some name) features es (elim a [
            | leased l es' ↦
                leased (with_workload_rule rule.name (with_policy base none false l)) es'
            | refused _ ↦ acquire_baseline digest r name key features es
          ])
      preferred rule (leased l es') h =
          let l' = with_policy base none false l in
          Explains-slot none (some name) features es l' (with_workload_rule rule.name l') es'
            (with_workload_rule-slot rule.name l')
            (Explains-slot none (some name) features es l l' es'
              (with_policy-slot base none false l)
              (Explains-widen rule.preferred_backends (some name) features es l es' h))
      preferred rule (refused why) h = baseline-physical r name v

  -- No backend of this step can serve the request.
  abbrev pub Idle : List String → Type 0
  Idle scope = (x : Entry) → In x es → ¬ CanServe (some scope) none features x

  -- The steps from `i` on, told by an answer: the first step that can serve has served, under its
  -- own number, or none could.
  abbrev pub Cascades : ℕ → List (List String) → Acquired → Type 0
  Cascades i [] (leased l es') = ⊥
  Cascades i [] (refused why) = Unit
  Cascades i (s ∷ ss) (leased l es') =
      (Explains (some s) none features es (leased l es') × (step_of l ≡ some i))
      ⊎ (Idle s × Cascades (i + 1) ss (leased l es'))
  Cascades i (s ∷ ss) (refused why) = Idle s × Cascades (i + 1) ss (refused why)

  refused-Idle :
      (s : List String) (why : Refusal) → Explains (some s) none features es (refused why) → Idle s
  refused-Idle s Refusal.unloaded h x m c = h x m (c.0.0, (is_candidate_parts x c.1).0, refl)
  refused-Idle s (unsupported g) h x m c = h.2 x m (c.0.0, (is_candidate_parts x c.1).0, refl) c.0.1
  refused-Idle s busy h x m c = let k = is_candidate_parts x c.1 in let full = h.1 x m c.0 k.0 in cc

  cascade-Cascades :
      (policy : Policy) (i : ℕ) (saw_busy saw_feature : Bool) (scopes : List (List String))
      → Cascades i scopes (cascade digest policy key features es i saw_busy saw_feature scopes)
  unfolding cascade
  cascade-Cascades policy i saw_busy saw_feature [] = tt
  cascade-Cascades policy i saw_busy saw_feature (s ∷ ss) =
      step (Backends.acquire digest key (some s) none features es)
        (acquire-Explains digest key (some s) none features es) refl
        (λ b f. cascade-Cascades policy (i + 1) b f ss)
    where
      carry : (a : Acquired) → Idle s → Cascades (i + 1) ss a → Cascades i (s ∷ ss) a
      carry (leased l es') idle c = inr (idle, c)
      carry (refused why) idle c = (idle, c)

      step :
          (a : Acquired)
          → Explains (some s) none features es a
          → Backends.acquire digest key (some s) none features es ≡ a
          → ((b f : Bool)
              → Cascades (i + 1) ss (cascade digest policy key features es (i + 1) b f ss))
          → Cascades i
              (s ∷ ss)
              (cascade digest policy key features es i saw_busy saw_feature (s ∷ ss))
      step (refused Refusal.unloaded) h q ih =
          rw (q, cascade) (carry _ (refused-Idle s Refusal.unloaded h) (ih saw_busy saw_feature))
      step (refused busy) h q ih =
          rw (q, cascade) (carry _ (refused-Idle s busy h) (ih true saw_feature))
      step (refused (unsupported g)) h q ih =
          rw (q, cascade) (carry _ (refused-Idle s (unsupported g) h) (ih saw_busy true))
      step (leased l es') h q ih =
          rw (q, cascade)
            (inl (
              Explains-slot (some s) none features es l (with_policy policy (some i) (ltb 0 i) l)
                  es' (with_policy-slot policy (some i) (ltb 0 i) l) h,
              with_policy-step policy i (ltb 0 i) l h.0.name h.6,
            ))

  no_rule :
      (r : Router) (name : String) (vm : VirtualModel)
      → virtual_model r name ≡ some vm
      → matching_workload_rule r name features ≡ none
  unfolding matching_workload_rule is_virtual
  no_rule r name vm v = ground (arith, find-some _ r.vmodels vm v)

  -- For a virtual model the steps are tried in order: the lease is from the first step that can
  -- serve, its decision names that step, and a refusal means that no step could.
  pub acquire-virtual :
      (r : Router) (name : String) (vm : VirtualModel)
      → virtual_model r name ≡ some vm
      → Cascades 0 vm.steps (acquire digest r name key features es)
  unfolding acquire acquire_baseline
  acquire-virtual r name vm v =
      let m : matching_workload_rule r name features ≡ none = no_rule r name vm v in
      rw (m, v, acquire, acquire_baseline) (cascade-Cascades vm.policy 0 false false vm.steps)
