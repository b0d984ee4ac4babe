-- ===== src/Router/Tests.antt =====
-- A virtual model over the pool of the registry's tests, and a preference for a physical one.
use inference_engine.Prelude.{ℕ, ◌≡◌, refl, true, false, none, some, List, [], ◌∷◌, String}
use inference_engine.Backends.Types.{BackendState, Entry, cascade}
use inference_engine.Router.Types.{Router, VirtualModel}
use inference_engine.Router.{acquire, plan}
use inference_engine.Router.Agreement.{placed_on, plan-acquire}
use inference_engine.Router.Placement.{Cascades, acquire-virtual}

abbrev digest : String → ℕ
digest k = 0

abbrev worker : String → ℕ → BackendState → Entry
worker name order state = record {
  name = name;
  kind = "remote_sglang";
  is_local = false;
  provider = some (record {
    state = state;
    capabilities = record {
      model_id = "qwen";
      context_length = 8192;
      supports_structured_output = true;
      supports_prefix_cache = true;
      supports_kv_cache_metrics = true;
    };
    health = none;
    cache_stats = none;
  });
  max_in_flight = 1;
  prefix_cache = false;
  order = order;
  in_flight = 0;
  available = true;
  cache = none;
  cost_per_1k_input = 0;
  cost_per_1k_output = 0;
  spillover = false;
  external = false;
  served_model = none;
}

-- The first worker is down.
abbrev pool : List Entry
pool = worker "a" 0 BackendState.failed ∷ worker "b" 1 BackendState.ready ∷ []

abbrev auto_model : VirtualModel
auto_model = record { name = "auto"; policy = cascade; steps = ("a" ∷ []) ∷ ("b" ∷ []) ∷ [] }

abbrev router : Router
router = record {
  vmodels = auto_model ∷ [];
  workload_rules =
      record {
        name = "json";
        kind = "structured_output_preference";
        model = "qwen";
        preferred_backends = "b" ∷ [];
        enabled = true;
      }
      ∷ [];
  workload_routing_enabled = true;
}

plan-acquire_example :
    (plan digest router "auto" none [] pool).chosen
    ≡ placed_on (acquire digest router "auto" none [] pool)
plan-acquire_example = plan-acquire digest router "auto" none [] pool

acquire-virtual_example :
    Cascades digest none [] pool 0 auto_model.steps (acquire digest router "auto" none [] pool)
acquire-virtual_example = acquire-virtual digest none [] pool router "auto" auto_model refl
