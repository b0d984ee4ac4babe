-- ===== src/Backends/Tests.antt =====
-- A pool of a local backend, a remote one with a prefix cache, and an external provider.
use inference_engine.Prelude.{
  ℕ, ◌≡◌, refl, true, false, Bool, none, some, List, [], ◌∷◌, arith, String, inl,
}
use inference_engine.Backends.Types.{
  ready, Backend, Entry, least_busy, prefix_affinity, primary, base, structured_output, Lease,
  leased,
}
use inference_engine.Backends.{
  acquire, select_detailed, pick, release, eligible, is_candidate, is_ready, has_capacity,
  take_slot, live_model,
}
use inference_engine.Backends.Exact.{Exact, acquire-Exact}
use inference_engine.Backends.Placement.{Chooses, select_detailed-Chooses, CanServe}
use inference_engine.Backends.Load.{IsSound, acquire-IsSound, release-acquire}
use inference_engine.Backends.LeastBusy.{select_detailed-least}
use inference_engine.Backends.Choice.{NotBusier}

abbrev digest : String → ℕ
digest k = 0

abbrev loaded : Bool → Backend
loaded structured = record {
  state = ready;
  capabilities = record {
    model_id = "llama";
    context_length = 4096;
    supports_structured_output = structured;
    supports_prefix_cache = true;
    supports_kv_cache_metrics = false;
  };
  health = none;
  cache_stats = none;
}

abbrev entry : String → ℕ → Bool → ℕ → Entry
entry name order spillover in_flight = record {
  name = name;
  kind = "remote_vllm";
  is_local = false;
  provider = some (loaded spillover);
  max_in_flight = 2;
  prefix_cache = true;
  order = order;
  in_flight = in_flight;
  available = true;
  cache = none;
  cost_per_1k_input = 0;
  cost_per_1k_output = 0;
  spillover = spillover;
  external = spillover;
  served_model = some "llama";
}

abbrev first : Entry
first = entry "first" 0 false 1

abbrev second : Entry
second = entry "second" 1 false 0

abbrev third : Entry
third = entry "third" 2 true 0

abbrev pool : List Entry
pool = first ∷ second ∷ third ∷ []

select_detailed-Chooses_example :
    Chooses none (some "llama") [] pool (select_detailed digest none none (some "llama") [] pool)
select_detailed-Chooses_example = select_detailed-Chooses digest none none (some "llama") [] pool

acquire-Exact_example :
    Exact none
      (some "llama")
      (structured_output ∷ [])
      pool
      (acquire digest none none (some "llama") (structured_output ∷ []) pool)
acquire-Exact_example =
    acquire-Exact digest none none (some "llama") (structured_output ∷ []) pool (omega arith)

pool-IsSound : IsSound pool
pool-IsSound = omega arith

-- The second backend is idle, so it is the one.
abbrev lease : Lease
lease = record {
  entry = 1;
  released = false;
  decision = some (record {
    backend = "second";
    engine = "remote_vllm";
    tier = primary;
    reason = least_busy;
    fallbacks = [];
    policy = base;
    step = none;
    workload_rule = none;
  });
}

second_taken : acquire digest none none (some "llama") [] pool ≡ leased lease (take_slot 1 pool)
unfolding acquire eligible live_model is_candidate is_ready has_capacity take_slot
second_taken = refl

acquire-IsSound_example : IsSound (take_slot 1 pool)
acquire-IsSound_example =
    acquire-IsSound digest none none (some "llama") [] pool lease (take_slot 1 pool) pool-IsSound
      second_taken

release-acquire_example :
    ((release lease (take_slot 1 pool)).1 ≡ pool)
    × (release (release lease (take_slot 1 pool)).0 pool
        ≡ ((release lease (take_slot 1 pool)).0, pool))
release-acquire_example =
    release-acquire digest none none (some "llama") [] pool lease (take_slot 1 pool) second_taken

second_selected :
    select_detailed digest none none (some "llama") [] pool ≡ some (second, least_busy, primary, 2)
unfolding select_detailed eligible live_model is_candidate is_ready has_capacity
second_selected = refl

first-CanServe : CanServe none (some "llama") [] first
unfolding eligible live_model is_candidate is_ready has_capacity
first-CanServe = ((refl, refl), refl)

select_detailed-least_example : NotBusier second first
select_detailed-least_example =
    select_detailed-least digest none refl none (some "llama") [] pool
      (second, least_busy, primary, 2) first second_selected (inl refl) first-CanServe refl

abbrev busy_pool : List Entry
busy_pool = entry "first" 0 false 0 ∷ entry "second" 1 false 2 ∷ entry "third" 2 true 1 ∷ []

first_by_affinity : pick digest pool (some "p") ≡ some (first, prefix_affinity)
unfolding pick is_candidate is_ready has_capacity
first_by_affinity = refl

first_by_affinity_again :
    pick digest busy_pool (some "p") ≡ some (entry "first" 0 false 0, prefix_affinity)
unfolding pick is_candidate is_ready has_capacity
first_by_affinity_again = refl
