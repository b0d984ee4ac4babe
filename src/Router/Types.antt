-- ===== src/Router/Types.antt =====
-- The data of engine/inference/router.py.
use inference_engine.Prelude.{ℕ, Bool, Option, List, String}
use inference_engine.Backends.Types.{BackendState, Policy}

-- `policy` is route or cascade.
pub record VirtualModel : Type 0 where
  pub name : String
  pub policy : Policy
  pub steps : List (List String)

pub record WorkloadRule : Type 0 where
  pub name : String
  pub kind : String
  pub model : String
  pub preferred_backends : List String
  pub enabled : Bool

pub record Router : Type 0 where
  pub vmodels : List VirtualModel
  pub workload_rules : List WorkloadRule
  pub workload_routing_enabled : Bool

pub record CandidateRow : Type 0 where
  pub name : String
  pub state : BackendState
  pub available : Bool
  pub in_flight : ℕ
  pub has_capacity : Bool

-- `targets` is the scope itself (`none` for the whole pool), not its sorted names.
pub record PlanStep : Type 0 where
  pub targets : Option (List String)
  pub chosen : Option String
  pub candidates : List CandidateRow

pub record Plan : Type 0 where
  pub model : String
  pub policy : Policy
  pub known : Bool
  pub chosen : Option String
  pub chosen_step : Option ℕ
  pub steps : List PlanStep
  pub workload_rule : Option String
  pub preferred_targets : Option (List String)
