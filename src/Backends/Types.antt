-- ===== src/Backends/Types.antt =====
-- The data of engine/inference/registry.py and of the backends that it places work on.
use inference_engine.Prelude.{ℕ, Bool, Option, none, some, List, String}

pub data BackendState : Type 0 where
  unloaded loading ready generating failed : BackendState

pub record Capabilities : Type 0 where
  pub model_id : String
  pub context_length : ℕ
  pub supports_structured_output : Bool
  pub supports_prefix_cache : Bool
  pub supports_kv_cache_metrics : Bool

abbrev pub CacheStats : Type 0
CacheStats = List (String × ℕ)

-- `health` is what `check_health` returns (false where it raises) and `cache_stats` what the method
-- of that name does (`none` inside where it raises), each if the backend has the method.
pub record Backend : Type 0 where
  pub state : BackendState
  pub capabilities : Capabilities
  pub health : Option Bool
  pub cache_stats : Option (Option CacheStats)

-- `BackendEntry`; the costs are in a fixed unit.
pub record Entry : Type 0 where
  pub name : String
  pub kind : String
  pub is_local : Bool
  pub provider : Option Backend
  pub max_in_flight : ℕ
  pub prefix_cache : Bool
  pub order : ℕ
  pub in_flight : ℕ
  pub available : Bool
  pub cache : Option CacheStats
  pub cost_per_1k_input : ℕ
  pub cost_per_1k_output : ℕ
  pub spillover : Bool
  pub external : Bool
  pub served_model : Option String

pub data Tier : Type 0 where
  primary spill : Tier

pub data SelectReason : Type 0 where
  model_map least_busy prefix_affinity affinity_fallback : SelectReason

pub data Fallback : Type 0 where
  cascade_escalation spillover : Fallback

pub data Policy : Type 0 where
  base route cascade : Policy

-- The request features that gate placement (`_FEATURE_ATTR`).
pub data Feature : Type 0 where
  structured_output : Feature

pub record RouteDecision : Type 0 where
  pub backend : String
  pub engine : String
  pub tier : Tier
  pub reason : SelectReason
  pub fallbacks : List Fallback
  pub policy : Policy
  pub step : Option ℕ
  pub workload_rule : Option String

-- `RegistryLease`; `entry` is the order of the entry that it holds a slot of.
pub record Lease : Type 0 where
  pub entry : ℕ
  pub released : Bool
  pub decision : Option RouteDecision

-- The backend that a lease is attributed to, and the step that took it.
abbrev pub backend_of : Lease → Option String
backend_of l = elim l.decision [ none ↦ none | some d ↦ some d.backend ]

abbrev pub step_of : Lease → Option ℕ
step_of l = elim l.decision [ none ↦ none | some d ↦ d.step ]

-- What `acquire` raises: `NoBackendAvailable` for two reasons, or `FeatureUnsupportedError`.
pub data Refusal : Type 0 where
  unloaded busy : Refusal
  unsupported : List Feature → Refusal

pub data Acquired : Type 0 where
  leased : Lease → List Entry → Acquired
  refused : Refusal → Acquired
