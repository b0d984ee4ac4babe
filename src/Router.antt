-- ===== src/Router.antt =====
-- engine/inference/router.py: client-facing model names resolved to placement in the pool.  The
-- registry is the list of its entries; `acquire` threads it, `plan` only reads it.
pub mod Types
pub mod Agreement
pub mod Placement
mod Tests
use Types.{VirtualModel, WorkloadRule, Router, CandidateRow, PlanStep, Plan}
use mathlib.Core.Option
use inference_engine.Prelude.{
  ℕ, ◌+◌, Bool, true, false, ◌&&◌, ◌||◌, not, Option, none, some, List, [], ◌∷◌, ltb, if◌then◌else◌,
  String, str_eq, filter, any, find, map,
}
use inference_engine.Backends.Types.{
  BackendState, Entry, Policy, base, Feature, structured_output, RouteDecision, Fallback,
  cascade_escalation, Lease, Refusal, busy, unsupported, Acquired, leased, refused,
}
use inference_engine.Backends

-- `{vm.name: vm for vm in virtual_models}`
unfoldable pub put_model : VirtualModel → List VirtualModel → List VirtualModel
put_model vm [] = vm ∷ []
put_model vm (x ∷ xs) = if str_eq x.name vm.name then vm ∷ xs else x ∷ put_model vm xs

unfoldable pub put_models : List VirtualModel → List VirtualModel → List VirtualModel
unfolding put_model
put_models [] d = d
put_models (vm ∷ vms) d = put_models vms (put_model vm d)

-- `__init__`
unfoldable pub create : List VirtualModel → List WorkloadRule → Bool → Router
unfolding put_models
create vms rules enabled = record {
  vmodels = put_models vms [];
  workload_rules = rules;
  workload_routing_enabled = enabled;
}

abbrev pub virtual_model : Router → String → Option VirtualModel
virtual_model r name = find (λ vm. str_eq vm.name name) r.vmodels

unfoldable pub is_virtual : Router → String → Bool
is_virtual r name = any (λ vm. str_eq vm.name name) r.vmodels

unfoldable pub known_model : Router → List Entry → String → Bool
unfolding is_virtual
known_model r es name = is_virtual r name || any (λ m. str_eq m name) (Backends.known_models es)

abbrev is_structured : Feature → Bool
is_structured structured_output = true

abbrev pub rule_matches : String → List Feature → WorkloadRule → Bool
rule_matches name features rule =
    rule.enabled
    && (str_eq rule.kind "structured_output_preference"
        && (str_eq rule.model name && any is_structured features))

unfoldable pub matching_workload_rule : Router → String → List Feature → Option WorkloadRule
unfolding is_virtual
matching_workload_rule r name features =
    if not r.workload_routing_enabled || is_virtual r name
    then none
    else find (rule_matches name features) r.workload_rules

-- `_with_policy`
unfoldable pub with_policy : Policy → Option ℕ → Bool → Lease → Lease
with_policy policy step escalated lease = elim lease.decision [
  | none ↦ lease
  | some d ↦ record lease {
    decision = some (record d {
      policy = policy;
      step = step;
      fallbacks = if escalated then cascade_escalation ∷ d.fallbacks else d.fallbacks;
    });
  }
]

-- `_with_workload_rule`
unfoldable pub with_workload_rule : String → Lease → Lease
with_workload_rule name lease = elim lease.decision [
  | none ↦ lease
  | some d ↦ record lease { decision = some (record d { workload_rule = some name }) }
]

abbrev pub on_lease : (Lease → Lease) → Acquired → Acquired
on_lease f (leased l es) = leased (f l) es
on_lease f (refused why) = refused why

-- What the steps that refused have been seen to refuse for.
abbrev pub verdict : Bool → Bool → List Feature → Refusal
verdict saw_busy saw_feature features =
    if saw_busy then busy else if saw_feature then unsupported features else Refusal.unloaded

-- The placement scopes that `plan` walks, with the model that restricts them.
unfoldable pub plan_scopes :
    Router → String → List Feature → Option String × List (Option (List String))
unfolding matching_workload_rule
plan_scopes r name features = elim (matching_workload_rule r name features) [
  | some rule ↦ (some name, some rule.preferred_backends ∷ none ∷ [])
  | none ↦ elim (virtual_model r name) [
    | some vm ↦ (none, map some vm.steps)
    | none ↦ (some name, none ∷ [])
  ]
]

module _ (digest : String → ℕ) where
  -- The loop over the steps of a virtual model, from step `i` on.
  unfoldable pub cascade :
      Policy
      → Option String
      → List Feature
      → List Entry
      → ℕ
      → Bool
      → Bool
      → List (List String)
      → Acquired
  unfolding with_policy
  cascade policy key features es i saw_busy saw_feature [] =
      refused (verdict saw_busy saw_feature features)
  cascade policy key features es i saw_busy saw_feature (scope ∷ scopes) =
      elim (Backends.acquire digest key (some scope) none features es) [
        | leased l es' ↦ leased (with_policy policy (some i) (ltb 0 i) l) es'
        | refused why ↦ elim why [
          | Refusal.unloaded ↦ cascade policy key features es (i + 1) saw_busy saw_feature scopes
          | busy ↦ cascade policy key features es (i + 1) true saw_feature scopes
          | unsupported _ ↦ cascade policy key features es (i + 1) saw_busy true scopes
        ]
      ]

  -- The deterministic baseline: the physical model, or the steps of the virtual one.
  unfoldable pub acquire_baseline :
      Router → String → Option String → List Feature → List Entry → Acquired
  unfolding cascade with_policy
  acquire_baseline r name key features es = elim (virtual_model r name) [
    | none ↦
        on_lease (with_policy base none false)
          (Backends.acquire digest key none (some name) features es)
    | some vm ↦ cascade vm.policy key features es 0 false false vm.steps
  ]

  -- `acquire`
  unfoldable pub acquire : Router → String → Option String → List Feature → List Entry → Acquired
  unfolding acquire_baseline matching_workload_rule with_workload_rule with_policy
  acquire r name key features es = elim (matching_workload_rule r name features) [
    | none ↦ acquire_baseline r name key features es
    | some rule ↦
        elim (Backends.acquire digest key (some rule.preferred_backends) (some name) features es) [
          | leased l es' ↦ leased (with_workload_rule rule.name (with_policy base none false l)) es'
          | refused _ ↦ acquire_baseline r name key features es
        ]
  ]

  -- `_candidate_row`
  unfoldable pub candidate_row : Entry → CandidateRow
  candidate_row e = record {
    name = e.name;
    state = elim e.provider [ none ↦ BackendState.unloaded | some b ↦ b.state ];
    available = Backends.is_ready e;
    in_flight = e.in_flight;
    has_capacity = Backends.has_capacity e;
  }

  -- The loop of `plan`, from scope `i` on, with what was chosen so far.
  unfoldable pub plan_steps :
      Option String
      → Option String
      → List Feature
      → List Entry
      → ℕ
      → Option (Entry × ℕ)
      → List (Option (List String))
      → Option (Entry × ℕ) × List PlanStep
  unfolding candidate_row
  plan_steps key model features es i chosen [] = (chosen, [])
  plan_steps key model features es i chosen (scope ∷ scopes) =
      let entry : Option Entry = elim chosen [
        | none ↦ Backends.select digest key scope model features es
        | some _ ↦ none
      ] in
      let now : Option (Entry × ℕ) = elim chosen [
        | none ↦ Option.map (λ e. (e, i)) entry
        | some c ↦ some c
      ] in
      let row : PlanStep = record {
        targets = scope;
        chosen = Option.map (λ (e : Entry). e.name) entry;
        candidates =
            map candidate_row
              (filter (λ e. Backends.in_scope scope e && Backends.eligible e model features) es);
      } in
      let (last, rows) = plan_steps key model features es (i + 1) now scopes in (last, row ∷ rows)

  -- `plan`
  unfoldable pub plan : Router → String → Option String → List Feature → List Entry → Plan
  unfolding plan_steps plan_scopes matching_workload_rule
  plan r name key features es =
      let (model, scopes) = plan_scopes r name features in
      let (chosen, rows) = plan_steps key model features es 0 none scopes in
      record {
        model = name;
        policy = elim (virtual_model r name) [ none ↦ base | some vm ↦ vm.policy ];
        known = known_model r es name;
        chosen = Option.map (λ (c : Entry × ℕ). c.0.name) chosen;
        chosen_step = Option.map (λ (c : Entry × ℕ). c.1) chosen;
        steps = rows;
        workload_rule =
            Option.map (λ (w : WorkloadRule). w.name) (matching_workload_rule r name features);
        preferred_targets =
            Option.map (λ (w : WorkloadRule). w.preferred_backends)
              (matching_workload_rule r name features);
      }
