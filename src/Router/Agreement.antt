-- ===== src/Router/Agreement.antt =====
-- The dry run: `plan` names the backend that `acquire` would lease, step by step.
use mathlib.Core.Option
use inference_engine.Prelude.{
  ℕ, ◌+◌, ◌≡◌, refl, ◌∙◌, Bool, true, false, Option, none, some, List, [], ◌∷◌, arith, String, map,
  Option-cases, inl, inr, ap, sym, find-none,
}
use inference_engine.Backends.Types.{
  Entry, Policy, base, Feature, RouteDecision, Refusal, busy, unsupported, Acquired, leased,
  refused, backend_of, step_of,
}
use inference_engine.Backends
use inference_engine.Router.Types.{WorkloadRule, Router}
use inference_engine.Router.{
  virtual_model, matching_workload_rule, with_policy, with_workload_rule, cascade, acquire_baseline,
  acquire, plan_steps, plan_scopes, plan, on_lease, is_virtual,
}

abbrev pub placed_on : Acquired → Option String
placed_on (leased l es) = backend_of l
placed_on (refused why) = none

abbrev pub placed_step : Acquired → Option ℕ
placed_step (leased l es) = step_of l
placed_step (refused why) = none

-- The registry's answer and its selection name the same backend.
abbrev Same : Option Entry → Acquired → Type 0
Same none (refused why) = Unit
Same (some e) (leased l es) = (d : RouteDecision) × (l.decision ≡ some d) × (d.backend ≡ e.name)
Same none (leased l es) = ⊥
Same (some e) (refused why) = ⊥

module _ (digest : String → ℕ) where
  acquire-Same :
      (key : Option String) (allowed : Option (List String)) (model : Option String)
      (features : List Feature) (es : List Entry)
      → Same
          (Backends.select digest key allowed model features es)
          (Backends.acquire digest key allowed model features es)
  unfolding Backends.select Backends.acquire
  acquire-Same key allowed model features es =
      elim (Option-cases (Backends.select_detailed digest key allowed model features es)) [
        | inl e ↦ rw (e, Backends.select, Backends.acquire) tt
        | inr (r, e) ↦ rw (e, Backends.select, Backends.acquire) (_, refl, refl)
      ]

  -- Once a step is chosen the rest of the walk keeps it.
  plan_steps-chosen :
      (key model : Option String) (features : List Feature) (es : List Entry) (i : ℕ)
      (c : Entry × ℕ) (scopes : List (Option (List String)))
      → (plan_steps digest key model features es i (some c) scopes).0 ≡ some c
  unfolding plan_steps
  plan_steps-chosen key model features es i c [] = refl
  plan_steps-chosen key model features es i c (s ∷ ss) =
      plan_steps-chosen key model features es (i + 1) c ss

  -- What a walk of `plan` and an answer of `acquire` have in common.
  abbrev pub Agree : Option (Entry × ℕ) → Acquired → Type 0
  Agree chosen a =
      (placed_on a ≡ Option.map (λ (c : Entry × ℕ). c.0.name) chosen)
      × (placed_step a ≡ Option.map (λ (c : Entry × ℕ). c.1) chosen)

  cascade-Agree :
      (policy : Policy) (key : Option String) (features : List Feature) (es : List Entry) (i : ℕ)
      (saw_busy saw_feature : Bool) (scopes : List (List String))
      → Agree
          (plan_steps digest key none features es i none (map some scopes)).0
          (cascade digest policy key features es i saw_busy saw_feature scopes)
  unfolding plan_steps cascade
  cascade-Agree policy key features es i saw_busy saw_feature [] = (refl, refl)
  cascade-Agree policy key features es i saw_busy saw_feature (scope ∷ scopes) =
      step (Backends.select digest key (some scope) none features es)
        (Backends.acquire digest key (some scope) none features es)
        (acquire-Same key (some scope) none features es) refl refl
        (λ b f. cascade-Agree policy key features es (i + 1) b f scopes)
    where
      step :
          (o : Option Entry) (a : Acquired)
          → Same o a
          → Backends.select digest key (some scope) none features es ≡ o
          → Backends.acquire digest key (some scope) none features es ≡ a
          → ((b f : Bool)
              → Agree
                  (plan_steps digest key none features es (i + 1) none (map some scopes)).0
                  (cascade digest policy key features es (i + 1) b f scopes))
          → Agree
              (plan_steps digest key none features es i none (map some (scope ∷ scopes))).0
              (cascade digest policy key features es i saw_busy saw_feature (scope ∷ scopes))
      step none (refused Refusal.unloaded) s p q ih =
          rw (p, q, plan_steps, cascade) (ih saw_busy saw_feature)
      step none (refused busy) s p q ih = rw (p, q, plan_steps, cascade) (ih true saw_feature)
      step none (refused (unsupported g)) s p q ih =
          rw (p, q, plan_steps, cascade) (ih saw_busy true)
      step (some e) (leased l es') (d, dl, db) p q ih =
          rw (p, q, plan_steps, cascade)
            (ground (
              arith,
              dl,
              db,
              plan_steps-chosen key none features es (i + 1) (e, i) (map some scopes),
            ))
      step none (leased l es') s p q ih = absurd s
      step (some e) (refused why) s p q ih = absurd s

  plan_steps_lem :
      (key model : Option String) (features : List Feature) (es : List Entry) (i : ℕ)
      (scope : Option (List String)) (scopes : List (Option (List String)))
      → (plan_steps digest key model features es i none (scope ∷ scopes)).0
        ≡ (plan_steps digest key model features es
            (i + 1)
            (Option.map
              (λ (e : Entry). (e, i))
              (Backends.select digest key scope model features es))
            scopes).0
  unfolding plan_steps
  plan_steps_lem key model features es i scope scopes = refl

  -- A scope in which nothing is selected is passed over.
  plan_steps-skip :
      (key model : Option String) (features : List Feature) (es : List Entry) (i : ℕ)
      (scope : Option (List String)) (scopes : List (Option (List String)))
      → Backends.select digest key scope model features es ≡ none
      → (plan_steps digest key model features es i none (scope ∷ scopes)).0
        ≡ (plan_steps digest key model features es (i + 1) none scopes).0
  plan_steps-skip key model features es i scope scopes p =
      plan_steps_lem key model features es i scope scopes
      ∙ ap
          (λ (o : Option Entry).
            (plan_steps digest key model features es (i + 1) (Option.map (λ e. (e, i)) o) scopes).0)
          p

  -- One scope of a physical model, as `plan` walks it and `acquire` tries it.
  one_scope :
      (key : Option String) (name : String) (features : List Feature) (es : List Entry) (i : ℕ)
      → Option.map
          (λ (c : Entry × ℕ). c.0.name)
          (plan_steps digest key (some name) features es i none (none ∷ [])).0
        ≡ placed_on (
            on_lease
              (with_policy base none false)
              (Backends.acquire digest key none (some name) features es))
  unfolding plan_steps with_policy
  one_scope key name features es i =
      step (Backends.select digest key none (some name) features es)
        (Backends.acquire digest key none (some name) features es)
        (acquire-Same key none (some name) features es) refl refl
    where
      step :
          (o : Option Entry) (a : Acquired)
          → Same o a
          → Backends.select digest key none (some name) features es ≡ o
          → Backends.acquire digest key none (some name) features es ≡ a
          → Option.map
              (λ (c : Entry × ℕ). c.0.name)
              (plan_steps digest key (some name) features es i none (none ∷ [])).0
            ≡ placed_on (
                on_lease
                  (with_policy base none false)
                  (Backends.acquire digest key none (some name) features es))
      step none (refused why) s p q = rw (p, q, plan_steps)
      step (some e) (leased l es') (d, dl, db) p q = rw (p, q, plan_steps) (ground (arith, dl, db))
      step none (leased l es') s p q = absurd s
      step (some e) (refused why) s p q = absurd s

  -- With a preference in front of the whole pool.
  two_scopes :
      (key : Option String) (name : String) (features : List Feature) (es : List Entry)
      (preferred : List String) (rule : String) (later : Acquired)
      → later
        ≡ on_lease
            (with_policy base none false)
            (Backends.acquire digest key none (some name) features es)
      → Option.map
          (λ (c : Entry × ℕ). c.0.name)
          (plan_steps digest key (some name) features es 0 none (some preferred ∷ none ∷ [])).0
        ≡ placed_on (elim (Backends.acquire digest key (some preferred) (some name) features es) [
          | leased l es' ↦ leased (with_workload_rule rule (with_policy base none false l)) es'
          | refused _ ↦ later
        ])
  unfolding plan_steps with_policy with_workload_rule
  two_scopes key name features es preferred rule later same =
      step (Backends.select digest key (some preferred) (some name) features es)
        (Backends.acquire digest key (some preferred) (some name) features es)
        (acquire-Same key (some preferred) (some name) features es) refl refl
    where
      step :
          (o : Option Entry) (a : Acquired)
          → Same o a
          → Backends.select digest key (some preferred) (some name) features es ≡ o
          → Backends.acquire digest key (some preferred) (some name) features es ≡ a
          → Option.map
              (λ (c : Entry × ℕ). c.0.name)
              (plan_steps digest key (some name) features es 0 none (some preferred ∷ none ∷ [])).0
            ≡ placed_on
                (elim (Backends.acquire digest key (some preferred) (some name) features es) [
                  | leased l es' ↦
                      leased (with_workload_rule rule (with_policy base none false l)) es'
                  | refused _ ↦ later
                ])
      step none (refused why) s p q = rw q (
          ap (Option.map (λ (c : Entry × ℕ). c.0.name))
            (plan_steps-skip key (some name) features es 0 (some preferred) (none ∷ []) p)
          ∙ one_scope key name features es 1
          ∙ ap placed_on (sym same))
      step (some e) (leased l es') (d, dl, db) p q = rw (p, q, plan_steps) (ground (arith, dl, db))
      step none (leased l es') s p q = absurd s
      step (some e) (refused why) s p q = absurd s

  not_virtual :
      (r : Router) (name : String) (features : List Feature) (rule : WorkloadRule)
      → matching_workload_rule r name features ≡ some rule
      → virtual_model r name ≡ none
  unfolding matching_workload_rule is_virtual
  not_virtual r name features rule h = find-none _ r.vmodels (ground arith)

  -- `plan` names the backend on which `acquire` would place the request at this moment, and names
  -- none where `acquire` would refuse it: through preferences, routes and cascades alike.
  pub plan-acquire :
      (r : Router) (name : String) (key : Option String) (features : List Feature) (es : List Entry)
      → (plan digest r name key features es).chosen
        ≡ placed_on (acquire digest r name key features es)
  unfolding plan acquire plan_scopes acquire_baseline
  plan-acquire r name key features es =
      elim (Option-cases (matching_workload_rule r name features)) [
        | inr (rule, m) ↦
            let v = not_virtual r name features rule m in
            rw (m, plan, acquire, plan_scopes)
              (two_scopes key name features es rule.preferred_backends rule.name _
                (rw (v, acquire_baseline)))
        | inl m ↦ elim (Option-cases (virtual_model r name)) [
          | inl v ↦
              rw (m, v, plan, acquire, plan_scopes, acquire_baseline)
                (one_scope key name features es 0)
          | inr (vm, v) ↦
              rw (m, v, plan, acquire, plan_scopes, acquire_baseline)
                (sym (cascade-Agree vm.policy key features es 0 false false vm.steps).0)
        ]
      ]
