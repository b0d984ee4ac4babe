-- ===== src/Webhooks.antt =====
-- engine/billing/webhooks/store.py: endpoints, their rotatable secrets and the table that is both
-- the delivery log and the work queue.  Moments are natural numbers.
pub mod Types
pub mod Signing
mod Ordering
mod Rotation
pub mod Worker
mod FanOut
mod Progress
mod Queue
mod Attempts
mod Service
mod Claims
mod Bounds
mod Tests
use Types.{Endpoint, SecretRow, Delivery, Status, Store}
use inference_engine.Prelude.{
  ℕ, zero, suc, ◌+◌, Bool, true, false, ◌&&◌, ◌||◌, not, Option, none, some, List, [], ◌∷◌, ◌++◌,
  String, str_eq, ltb, leb, filter, find, any, count, take, map, if◌then◌else◌, update_where,
  delete_where, is_null,
}
use inference_engine.Accounts.{get_client}
use inference_engine.Accounts.Types.{Db}

-- `create_endpoint` for the ids and the secret that it drew, with the secret that it shows once.
-- `none` is the IntegrityError: an id that is taken, or a client that is not there.
unfoldable pub create_endpoint :
    (endpoint_id secret_id secret client_id url : String) (description : Option String)
    (event_types : Option (List String)) (now : ℕ)
    → Db
    → Store
    → Option (Store × (Endpoint × String))
unfolding get_client
create_endpoint endpoint_id secret_id secret client_id url description event_types now db s =
    let endpoint : Endpoint = record {
      id = endpoint_id;
      client_id = client_id;
      url = url;
      description = description;
      disabled = false;
      event_types = event_types;
    } in
    let row : SecretRow = record {
      id = secret_id;
      endpoint_id = endpoint_id;
      secret = secret;
      created_at = now;
      expires_at = none;
    } in
    if is_null (get_client client_id db)
      || (any (λ e. str_eq e.id endpoint_id) s.endpoints
          || any (λ k. str_eq k.id secret_id) s.secrets)
    then none
    else some (
      record s { endpoints = s.endpoints ++ endpoint ∷ []; secrets = s.secrets ++ row ∷ [] },
      (endpoint, secret),
    )

-- `get_endpoint`
unfoldable pub get_endpoint : String → Store → Option Endpoint
get_endpoint endpoint_id s = find (λ e. str_eq e.id endpoint_id) s.endpoints

-- `set_disabled`
unfoldable pub set_disabled : String → Bool → Store → Store × Bool
set_disabled endpoint_id disabled s = (
  record s {
    endpoints =
        update_where (λ e. str_eq e.id endpoint_id) (λ e. record e { disabled = disabled })
          s.endpoints;
  },
  any (λ e. str_eq e.id endpoint_id) s.endpoints,
)

-- `delete_endpoint`: its secrets and deliveries go with it (ON DELETE CASCADE).
unfoldable pub delete_endpoint : String → Store → Store × Bool
delete_endpoint endpoint_id s = (
  record {
    endpoints = delete_where (λ e. str_eq e.id endpoint_id) s.endpoints;
    secrets = delete_where (λ k. str_eq k.endpoint_id endpoint_id) s.secrets;
    deliveries = delete_where (λ d. str_eq d.endpoint_id endpoint_id) s.deliveries;
  },
  any (λ e. str_eq e.id endpoint_id) s.endpoints,
)

-- `ORDER BY key`, by insertion: rows of one key keep their order.
module _ {A : Type 0} (precedes : A → A → Bool) where
  pub insert_ordered : A → List A → List A
  insert_ordered x [] = x ∷ []
  insert_ordered x (y ∷ ys) = if precedes y x then y ∷ insert_ordered x ys else x ∷ y ∷ ys

  unfoldable pub order_by : List A → List A
  unfolding insert_ordered
  order_by [] = []
  order_by (x ∷ xs) = insert_ordered x (order_by xs)

-- `expires_at IS NULL OR expires_at > now`
abbrev pub is_unexpired : ℕ → SecretRow → Bool
is_unexpired now k = elim k.expires_at [ none ↦ true | some t ↦ ltb now t ]

abbrev is_newer : SecretRow → SecretRow → Bool
is_newer j k = ltb k.created_at j.created_at

-- `active_secrets`, newest first
unfoldable pub active_secrets : String → ℕ → Store → List String
unfolding order_by
active_secrets endpoint_id now s =
    map (λ k. k.secret)
      (order_by is_newer
        (filter (λ k. str_eq k.endpoint_id endpoint_id && is_unexpired now k) s.secrets))

-- `rotate_secret` for the id and the secret that it drew; `none` where the endpoint does not exist
-- or the id is taken.
unfoldable pub rotate_secret :
    (secret_id secret endpoint_id : String) (grace now created_at : ℕ) → Store → Option Store
unfolding get_endpoint
rotate_secret secret_id secret endpoint_id grace now created_at s =
    let row : SecretRow = record {
      id = secret_id;
      endpoint_id = endpoint_id;
      secret = secret;
      created_at = created_at;
      expires_at = none;
    } in
    if is_null (get_endpoint endpoint_id s) || any (λ k. str_eq k.id secret_id) s.secrets
    then none
    else some record s {
      secrets =
          update_where (λ k. str_eq k.endpoint_id endpoint_id && is_null k.expires_at)
            (λ k. record k { expires_at = some (now + grace) }) s.secrets
          ++ row ∷ [];
    }

-- The endpoint takes events of the type.
abbrev pub subscribes : String → Endpoint → Bool
subscribes event_type e = elim e.event_types [
  | none ↦ true
  | some types ↦ any (λ t. str_eq t event_type) types
]

-- The endpoints that an event of a client goes to.
abbrev pub is_target : String → String → Endpoint → Bool
is_target client_id event_type e =
    str_eq e.client_id client_id && (not e.disabled && subscribes event_type e)

-- `INSERT OR IGNORE` under `UNIQUE (endpoint_id, event_id)` and the primary key
abbrev pub same_delivery : String → String → Delivery → Bool
same_delivery endpoint_id event_id d =
    str_eq d.endpoint_id endpoint_id && str_eq d.event_id event_id

abbrev pub conflicts : Delivery → Delivery → Bool
conflicts new d = str_eq d.id new.id || same_delivery new.endpoint_id new.event_id d

abbrev pub insert_or_ignore : Delivery → List Delivery → List Delivery
insert_or_ignore new ds = if any (conflicts new) ds then ds else ds ++ new ∷ []

-- The row of a new delivery; `draw` is the id that was drawn for the endpoint.
abbrev pub new_delivery :
    (draw : String → String) (event_id event_type payload : String) (now : ℕ) → Endpoint → Delivery
new_delivery draw event_id event_type payload now e = record {
  id = draw e.id;
  endpoint_id = e.id;
  event_id = event_id;
  event_type = event_type;
  payload = payload;
  status = Status.pending;
  attempts = 0;
  next_attempt_at = now;
  last_status_code = none;
  last_error = none;
  created_at = now;
  updated_at = now;
}

-- The loop of `enqueue_event` over the endpoints that it selected, with the number of rows created
unfoldable pub fan_out : (Endpoint → Delivery) → List Endpoint → List Delivery → List Delivery × ℕ
fan_out row [] ds = (ds, 0)
fan_out row (e ∷ es) ds =
    let rest = fan_out row es (insert_or_ignore (row e) ds) in
    (rest.0, if any (conflicts (row e)) ds then rest.1 else suc rest.1)

-- `enqueue_event`
unfoldable pub enqueue_event :
    (draw : String → String) (client_id event_id event_type payload : String) (now : ℕ)
    → Store
    → Store × ℕ
unfolding fan_out
enqueue_event draw client_id event_id event_type payload now s =
    let out =
      fan_out (new_delivery draw event_id event_type payload now)
        (filter (is_target client_id event_type) s.endpoints) s.deliveries in
    (record s { deliveries = out.0 }, out.1)

abbrev pub is_pending : Delivery → Bool
is_pending d = elim d.status [ Status.pending ↦ true | _ ↦ false ]

abbrev pub is_due : ℕ → Delivery → Bool
is_due now d = is_pending d && leb d.next_attempt_at now

abbrev pub is_sooner : Delivery → Delivery → Bool
is_sooner d e = ltb d.next_attempt_at e.next_attempt_at

-- `claim_due`
unfoldable pub claim_due : (now limit : ℕ) → Store → List Delivery
unfolding order_by
claim_due now limit s = take limit (order_by is_sooner (filter (is_due now) s.deliveries))

-- `COALESCE(?, column)`
abbrev pub coalesce : Option ℕ → ℕ → ℕ
coalesce none n = n
coalesce (some m) n = m

-- `_update`, with the attempt counted
unfoldable pub update :
    (delivery_id : String) (status : Status) (status_code : Option ℕ) (error : Option String)
    (next_attempt_at : Option ℕ) (now : ℕ)
    → Store
    → Store
update delivery_id status status_code error next_attempt_at now s = record s {
  deliveries =
      update_where (λ d. str_eq d.id delivery_id)
        (λ d. record d {
          status = status;
          attempts = d.attempts + 1;
          last_status_code = status_code;
          last_error = error;
          next_attempt_at = coalesce next_attempt_at d.next_attempt_at;
          updated_at = now;
        })
        s.deliveries;
}

unfoldable pub mark_succeeded : (delivery_id : String) (status_code now : ℕ) → Store → Store
unfolding update
mark_succeeded delivery_id status_code now =
    update delivery_id Status.succeeded (some status_code) none none now

unfoldable pub mark_retry :
    (delivery_id : String) (next_attempt_at : ℕ) (status_code : Option ℕ) (error : Option String)
    (now : ℕ)
    → Store
    → Store
unfolding update
mark_retry delivery_id next_attempt_at status_code error now =
    update delivery_id Status.pending status_code error (some next_attempt_at) now

unfoldable pub mark_dead :
    (delivery_id : String) (status_code : Option ℕ) (error : Option String) (now : ℕ)
    → Store
    → Store
unfolding update
mark_dead delivery_id status_code error now =
    update delivery_id Status.dead status_code error none now

-- `replay`
unfoldable pub replay : String → ℕ → Store → Store × Bool
replay delivery_id now s = (
  record s {
    deliveries =
        update_where (λ d. str_eq d.id delivery_id)
          (λ d. record d {
            status = Status.pending;
            attempts = 0;
            next_attempt_at = now;
            last_error = none;
            updated_at = now;
          })
          s.deliveries;
  },
  any (λ d. str_eq d.id delivery_id) s.deliveries,
)
