-- ===== src/Backends.antt =====
-- engine/inference/registry.py: the pool of backends and the choice of one for each request.
-- A backend object is what its provider returns at the moment: its state and, when it is loaded,
-- its capabilities.  An entry's `order` is its place in the pool, and stands for its identity.
pub mod Types
pub mod Choice
pub mod Placement
pub mod Load
mod Exact
pub mod LeastBusy
mod Tests
use Types.{
  BackendState, ready, generating, Capabilities, Backend, Entry, Tier, primary, spill, SelectReason,
  model_map, least_busy, prefix_affinity, affinity_fallback, Feature, structured_output,
  RouteDecision, Fallback, spillover, base, Lease, Refusal, unloaded, busy, unsupported, Acquired,
  leased, refused,
}
use mathlib.Core.Option
use inference_engine.Prelude.{
  truthy, ℕ, zero, suc, ◌+◌, ◌-◌, ◌%◌, Bool, true, false, ◌&&◌, ◌||◌, not, Option, none, some, List,
  [], ◌∷◌, ◌==◌, ltb, if◌then◌else◌, String, str_eq, filter, any, all, count, length, get_elem?,
  is_empty, map,
}

-- `state in _READYISH`
abbrev pub is_readyish : BackendState → Bool
is_readyish ready = true
is_readyish generating = true
is_readyish _ = false

unfoldable pub is_loaded : Entry → Bool
is_loaded e = elim e.provider [ none ↦ false | some b ↦ is_readyish b.state ]

unfoldable pub is_ready : Entry → Bool
unfolding is_loaded
is_ready e = e.available && is_loaded e

unfoldable pub has_capacity : Entry → Bool
has_capacity e = ltb e.in_flight e.max_in_flight

unfoldable pub live_model : Entry → Option String
unfolding is_ready
live_model e =
    if is_ready e
    then elim e.provider [ none ↦ none | some b ↦ some b.capabilities.model_id ]
    else none

unfoldable pub current_model : Entry → Option String
unfolding live_model
current_model e = elim (live_model e) [ none ↦ e.served_model | some m ↦ some m ]

-- `live != model` between an optional text and a text
abbrev pub serves : Option String → String → Bool
serves none m = false
serves (some n) m = str_eq n m

-- `getattr(caps, _FEATURE_ATTR[f], False)`
abbrev pub supports : Capabilities → Feature → Bool
supports c structured_output = c.supports_structured_output

abbrev model_eligible : Entry → Option String → Bool
model_eligible e none = true
model_eligible e (some m) = serves (live_model e) m

abbrev features_eligible : Entry → List Feature → Bool
features_eligible e [] = true
features_eligible e (f ∷ fs) =
    if is_ready e
    then elim e.provider [ none ↦ false | some b ↦ all (supports b.capabilities) (f ∷ fs) ]
    else false

unfoldable pub eligible : Entry → Option String → List Feature → Bool
eligible e model features = model_eligible e model && features_eligible e features

-- `allowed is None or e.name in allowed`
abbrev pub in_scope : Option (List String) → Entry → Bool
in_scope none e = true
in_scope (some names) e = any (str_eq e.name) names

-- `e.is_ready() and e.has_capacity()`
unfoldable pub is_candidate : Entry → Bool
is_candidate e = is_ready e && has_capacity e

-- `(e.in_flight, e.order)`, compared as Python compares tuples
abbrev pub is_busier : Entry → Entry → Bool
is_busier a b = ltb b.in_flight a.in_flight || (a.in_flight == b.in_flight && ltb b.order a.order)

-- `min(candidates, key=lambda e: (e.in_flight, e.order))` from a first candidate on
unfoldable pub min_from : Entry → List Entry → Entry
min_from m [] = m
min_from m (e ∷ es) = min_from (if is_busier m e then e else m) es

-- `sorted(..., key=lambda e: e.order)`
unfoldable pub insert_by_order : Entry → List Entry → List Entry
insert_by_order e [] = e ∷ []
insert_by_order e (x ∷ xs) = if ltb x.order e.order then x ∷ insert_by_order e xs else e ∷ x ∷ xs

unfoldable pub sort_by_order : List Entry → List Entry
unfolding insert_by_order
sort_by_order [] = []
sort_by_order (e ∷ es) = insert_by_order e (sort_by_order es)

-- The pool's choice, as `min` makes it.
unfoldable pub pick_least_busy : SelectReason → List Entry → Option (Entry × SelectReason)
unfolding min_from
pick_least_busy why [] = none
pick_least_busy why (e ∷ es) = some (min_from e es, why)

-- A physical model with one free candidate is named for what it is.
abbrev pub named : Option String → SelectReason → List Entry → SelectReason
named (some m) least_busy tier_pool =
    if count is_candidate tier_pool == 1 then model_map else least_busy
named _ why tier_pool = why

-- Why `acquire` raises, where nothing was selected.
unfoldable pub refusal : Option (List String) → Option String → List Feature → List Entry → Refusal
refusal allowed model features entries =
    let model_ready =
      filter (λ e. in_scope allowed e && (is_ready e && model_eligible e model)) entries in
    let feature_ready = filter (λ e. eligible e model features) model_ready in
    if is_empty model_ready
    then Refusal.unloaded
    else if is_empty feature_ready
    then unsupported features
    else busy

-- `entry.in_flight += 1`, on the entry of this identity
unfoldable pub take_slot : ℕ → List Entry → List Entry
take_slot o [] = []
take_slot o (e ∷ es) =
    (if e.order == o then record e { in_flight = e.in_flight + 1 } else e) ∷ take_slot o es

abbrev pub is_primary : Entry → Bool
is_primary e = not e.spillover

abbrev pub is_spill : Entry → Bool
is_spill e = e.spillover

-- `digest` is `int(hashlib.sha256(key).hexdigest(), 16)`.
module _ (digest : String → ℕ) where
  -- `capable[digest % len(capable)]`
  unfoldable pub affinity_target : String → List Entry → Option Entry
  unfolding sort_by_order
  affinity_target key pool =
      let capable = sort_by_order (filter (λ e. is_ready e && e.prefix_cache) pool) in
      get_elem? capable (digest key % length capable)

  -- `_pick`
  unfoldable pub pick : List Entry → Option String → Option (Entry × SelectReason)
  unfolding affinity_target pick_least_busy
  pick pool key =
      let candidates = filter is_candidate pool in
      elim (truthy key) [
        | none ↦ pick_least_busy least_busy candidates
        | some k ↦ elim (affinity_target k pool) [
          | none ↦ pick_least_busy least_busy candidates
          | some target ↦
              if has_capacity target
              then some (target, prefix_affinity)
              else pick_least_busy affinity_fallback candidates
        ]
      ]

  -- `_select_detailed`: the entry, the reason, the tier and the candidates in that tier.
  unfoldable pub select_detailed :
      Option String
      → Option (List String)
      → Option String
      → List Feature
      → List Entry
      → Option (Entry × SelectReason × Tier × ℕ)
  unfolding pick
  select_detailed key allowed model features entries =
      let pool = filter (λ e. in_scope allowed e && eligible e model features) entries in
      let local = filter is_primary pool in
      let spills = filter is_spill pool in
      elim (pick local key) [
        | some (e, why) ↦ some (e, named model why local, primary, count is_candidate local)
        | none ↦ elim (pick spills key) [
          | some (e, why) ↦ some (e, named model why spills, spill, count is_candidate spills)
          | none ↦ none
        ]
      ]

  unfoldable pub select :
      Option String
      → Option (List String)
      → Option String
      → List Feature
      → List Entry
      → Option Entry
  unfolding select_detailed
  select key allowed model features entries =
      Option.map (λ (r : Entry × SelectReason × Tier × ℕ). r.0)
        (select_detailed key allowed model features entries)

  -- `acquire`
  unfoldable pub acquire :
      Option String → Option (List String) → Option String → List Feature → List Entry → Acquired
  unfolding select_detailed refusal take_slot
  acquire key allowed model features entries =
      elim (select_detailed key allowed model features entries) [
        | none ↦ refused (refusal allowed model features entries)
        | some (e, why, tier, _) ↦
            leased
              (record {
                entry = e.order;
                released = false;
                decision = some (record {
                  backend = e.name;
                  engine = e.kind;
                  tier = tier;
                  reason = why;
                  fallbacks = elim tier [ primary ↦ [] | spill ↦ spillover ∷ [] ];
                  policy = base;
                  step = none;
                  workload_rule = none;
                });
              })
              (take_slot e.order entries)
      ]

-- `_release`, on the entry of this identity
unfoldable pub free_slot : ℕ → List Entry → List Entry
free_slot o [] = []
free_slot o (e ∷ es) =
    (if e.order == o
      then (if ltb 0 e.in_flight then record e { in_flight = e.in_flight - 1 } else e)
      else e)
    ∷ free_slot o es

-- `RegistryLease.release`: the lease object and the pool afterwards
unfoldable pub release : Lease → List Entry → Lease × List Entry
unfolding free_slot
release l es = if l.released then (l, es) else (record l { released = true }, free_slot l.entry es)

-- `__init__`: `order` is the place in the list.
unfoldable pub number_from : ℕ → List Entry → List Entry
number_from i [] = []
number_from i (e ∷ es) = record e { order = i } ∷ number_from (i + 1) es

unfoldable pub create : List Entry → List Entry
unfolding number_from
create es = number_from 0 es

abbrev readyish_now : Backend → Bool
readyish_now b = is_readyish b.state

-- `refresh_health` on one entry
unfoldable pub refresh_entry : Entry → Entry
refresh_entry e = elim e.provider [
  | none ↦ record e { available = false }
  | some b ↦ if e.is_local then record e { available = readyish_now b } else elim b.health [
    | none ↦ record e { available = readyish_now b }
    | some passed ↦
        if passed
        then record e {
          available = true;
          cache = elim b.cache_stats [ none ↦ e.cache | some stats ↦ stats ];
        }
        else record e { available = false }
  ]
]

unfoldable pub refresh_health : List Entry → List Entry
unfolding refresh_entry
refresh_health = map refresh_entry

unfoldable pub any_ready : List Entry → Bool
any_ready = any is_ready

unfoldable pub known_models : List Entry → List String
known_models [] = []
known_models (e ∷ es) = elim (current_model e) [
  | none ↦ known_models es
  | some m ↦ m ∷ known_models es
]
