-- ===== src/Accounts.antt =====
-- The account tables of the engine's database (engine/store/migrations 0002 and 0006) and the two
-- stores over them: engine/auth/keys.py and engine/billing/store.py.  Moments are natural numbers;
-- the stores keep them as ISO-8601 texts in UTC, which sort the same way.
pub mod Types
pub mod Keys
mod Tests
use Types.{
  KeyStatus, ClientStatus, KeyRow, Client, Plan, Subscription, InboundEvent, Db, Entitlement,
  Access, KeyAccess,
}
use mathlib.Core.Option
use inference_engine.Prelude.{
  ℕ, ◌+◌, Bool, true, false, ◌&&◌, ◌||◌, not, Option, none, some, List, [], ◌∷◌, ◌++◌, String,
  str_eq, filter, find, any, count, ltb, if◌then◌else◌, get?, str_append, update_where,
  delete_where, latest, eq_text, is_null, map, ◌==◌,
}

-- `KEY_PREFIX`
abbrev pub key_prefix : String
key_prefix = "sk-ie-"

-- `token[:_PREFIX_DISPLAY_LEN]`; a token is ASCII, so its bytes are its characters.
abbrev display_prefix : String → String
display_prefix token = elim (get? token 0 12) [ none ↦ token | some p ↦ p ]

-- The tables' unique columns make an insertion fail; `none` is the IntegrityError.
-- `hash` is `hash_token`, the hex SHA-256 of the token.
module _ (hash : String → String) where
  -- `KeyStore.create`, for the random text and id that it drew, with the token that it shows once
  unfoldable pub create_key :
      String → String → Option String → ℕ → Db → Option (Db × (KeyRow × String))
  create_key secret id label now db =
      let token : String = str_append key_prefix secret in
      let row : KeyRow = record {
        id = id;
        key_hash = hash token;
        prefix = display_prefix token;
        label = label;
        created_at = now;
        last_used_at = none;
        revoked_at = none;
        client_id = none;
        status = KeyStatus.active;
      } in
      if any (λ k. str_eq k.id id || str_eq k.key_hash (hash token)) db.keys
      then none
      else some (record db { keys = db.keys ++ row ∷ [] }, (row, token))

  -- `KeyStore.verify`: the record as it was read, and the store with the use noted.
  unfoldable pub verify : String → ℕ → Db → Db × Option KeyRow
  verify token now db =
      if str_eq token ""
      then (db, none)
      else elim (find (λ k. str_eq k.key_hash (hash token)) db.keys) [
        | none ↦ (db, none)
        | some row ↦
            if is_null row.revoked_at
            then (
              record db {
                keys =
                    update_where (λ k. str_eq k.id row.id)
                      (λ k. record k { last_used_at = some now }) db.keys;
              },
              some row,
            )
            else (db, none)
      ]

-- `KeyStore.revoke`
unfoldable pub revoke : String → ℕ → Db → Db × Bool
revoke key_id now db =
    let hit : KeyRow → Bool = λ k. str_eq k.id key_id && is_null k.revoked_at in
    (
      record db { keys = update_where hit (λ k. record k { revoked_at = some now }) db.keys },
      any hit db.keys,
    )

-- `KeyStore.delete`
unfoldable pub delete_key : String → Db → Db × Bool
delete_key key_id db = (
  record db { keys = delete_where (λ k. str_eq k.id key_id) db.keys },
  any (λ k. str_eq k.id key_id) db.keys,
)

-- `KeyStore.get`
unfoldable pub get_key : String → Db → Option KeyRow
get_key key_id db = find (λ k. str_eq k.id key_id) db.keys

-- `BillingStore.get_plan`
unfoldable pub get_plan : String → Db → Option Plan
get_plan plan_id db = find (λ p. str_eq p.id plan_id) db.plans

unfoldable pub put_plan : Plan → List Plan → List Plan
put_plan p [] = p ∷ []
put_plan p (x ∷ xs) = if str_eq x.id p.id then p ∷ xs else x ∷ put_plan p xs

-- `BillingStore.upsert_plan`
unfoldable pub upsert_plan : Plan → Db → Db
unfolding put_plan
upsert_plan p db = record db { plans = put_plan p db.plans }

-- `BillingStore.create_client`
unfoldable pub create_client : String → Option String → Option String → ℕ → Db → Option Db
create_client id external_ref email now db =
    let row : Client = record {
      id = id;
      external_ref = external_ref;
      email = email;
      status = ClientStatus.active;
      created_at = now;
    } in
    let taken : Client → Bool = λ c.
      str_eq c.id id || elim external_ref [ none ↦ false | some r ↦ eq_text c.external_ref r ] in
    if any taken db.clients then none else some (record db { clients = db.clients ++ row ∷ [] })

-- `get_client`, `get_client_by_external_ref`
unfoldable pub get_client : String → Db → Option Client
get_client client_id db = find (λ c. str_eq c.id client_id) db.clients

unfoldable pub get_client_by_external_ref : String → Db → Option Client
get_client_by_external_ref ref db = find (λ c. eq_text c.external_ref ref) db.clients

unfoldable pub set_client_status : String → ClientStatus → Db → Db
set_client_status client_id status db = record db {
  clients =
      update_where (λ c. str_eq c.id client_id) (λ c. record c { status = status }) db.clients;
}

-- `attach_key`; `none` where the client does not exist (the foreign key) and the key does.
unfoldable pub attach_key : String → String → Db → Option (Db × Bool)
unfolding get_client
attach_key key_id client_id db =
    let hit : KeyRow → Bool = λ k. str_eq k.id key_id in
    if any hit db.keys && is_null (get_client client_id db)
    then none
    else some (
      record db { keys = update_where hit (λ k. record k { client_id = some client_id }) db.keys },
      any hit db.keys,
    )

abbrev pub owned_by : String → KeyRow → Bool
owned_by client_id k = eq_text k.client_id client_id

-- `revoke_client_keys`, with the number of keys that it revoked
unfoldable pub revoke_client_keys : String → ℕ → Db → Db × ℕ
revoke_client_keys client_id now db =
    let hit : KeyRow → Bool = λ k. owned_by client_id k && is_null k.revoked_at in
    (
      record db {
        keys =
            update_where hit (λ k. record k { status = KeyStatus.revoked; revoked_at = some now })
              db.keys;
      },
      count hit db.keys,
    )

abbrev same_sub : String → String → Subscription → Bool
same_sub provider sub_id s = str_eq s.provider provider && str_eq s.provider_sub_id sub_id

-- `ON CONFLICT(provider, provider_sub_id) DO UPDATE` leaves the owner of the row as it was.
unfoldable pub put_subscription : Subscription → List Subscription → List Subscription
put_subscription s [] = s ∷ []
put_subscription s (x ∷ xs) =
    if same_sub s.provider s.provider_sub_id x
    then record x {
      plan_id = s.plan_id;
      status = s.status;
      current_period_end = s.current_period_end;
      updated_at = s.updated_at;
    }
      ∷ xs
    else x ∷ put_subscription s xs

-- `upsert_subscription`
unfoldable pub upsert_subscription : Subscription → Db → Db
unfolding put_subscription
upsert_subscription s db = record db { subscriptions = put_subscription s db.subscriptions }

unfoldable pub get_subscription_by_provider : String → String → Db → Option Subscription
get_subscription_by_provider provider sub_id db = find (same_sub provider sub_id) db.subscriptions

-- `_entitlement_for_client`; `default_plan` is the store's `default_plan_id`.
unfoldable pub entitlement_of : Plan → Entitlement
entitlement_of p = record {
  plan_id = p.id;
  quota_5h_cu = p.quota_5h_cu;
  quota_weekly_cu = p.quota_weekly_cu;
  rate_limit_per_min = p.rate_limit_per_min;
  allowed_models = p.allowed_models;
}

abbrev pub or_else : Option String → Option String → Option String
or_else none d = d
or_else (some p) d = some p

unfoldable pub entitlement_for_client : Option String → String → Db → Option Entitlement
unfolding get_plan
entitlement_for_client default_plan client_id db =
    let active : List Subscription =
      filter (λ s. str_eq s.client_id client_id && str_eq s.status "active") db.subscriptions in
    let chosen : Option String = elim (latest (λ s. s.updated_at) active) [
      | none ↦ none
      | some s ↦ s.plan_id
    ] in
    elim (or_else chosen default_plan) [
      | none ↦ none
      | some p ↦ Option.map entitlement_of (get_plan p db)
    ]

abbrev pub blocked : Option Client → Bool
blocked none = false
blocked (some c) = elim c.status [
  | ClientStatus.active ↦ false
  | ClientStatus.suspended ↦ true
  | ClientStatus.canceled ↦ true
]

abbrev pub is_revoked : KeyStatus → Bool
is_revoked s = elim s [
  | KeyStatus.revoked ↦ true
  | KeyStatus.active ↦ false
  | KeyStatus.suspended ↦ false
]

abbrev pub is_suspended : KeyStatus → Bool
is_suspended s = elim s [
  | KeyStatus.suspended ↦ true
  | KeyStatus.active ↦ false
  | KeyStatus.revoked ↦ false
]

-- What `key_access` makes of a key's row.
unfoldable pub row_access : Option String → KeyRow → Db → KeyAccess
unfolding entitlement_for_client get_client
row_access default_plan k db =
    if is_revoked k.status
    then record { status = Access.revoked; entitlement = none }
    else elim k.client_id [
      | none ↦ record {
        status = if is_suspended k.status then Access.suspended else Access.active;
        entitlement = none;
      }
      | some c ↦
          if blocked (get_client c db)
          then record { status = Access.suspended; entitlement = none }
          else if is_suspended k.status
          then record { status = Access.suspended; entitlement = none }
          else record {
            status = Access.active;
            entitlement = entitlement_for_client default_plan c db;
          }
    ]

-- `key_access`
unfoldable pub key_access : Option String → String → Db → KeyAccess
unfolding row_access get_key
key_access default_plan key_id db = elim (get_key key_id db) [
  | none ↦ record { status = Access.active; entitlement = none }
  | some k ↦ row_access default_plan k db
]

-- `record_event_once`
unfoldable pub record_event_once : String → String → Option String → ℕ → Db → Db × Bool
record_event_once provider event_id event_type now db =
    let same : InboundEvent → Bool =
      λ e. str_eq e.provider provider && str_eq e.event_id event_id in
    if any same db.events then (db, false) else (
      record db {
        events =
            db.events
            ++ record {
              provider = provider;
              event_id = event_id;
              event_type = event_type;
              received_at = now;
              processed_at = none;
              result = none;
            }
              ∷ [];
      },
      true,
    )

unfoldable pub mark_event_processed : String → String → String → ℕ → Db → Db
mark_event_processed provider event_id result now db = record db {
  events =
      update_where (λ e. str_eq e.provider provider && str_eq e.event_id event_id)
        (λ e. record e { processed_at = some now; result = some result }) db.events;
}

unfoldable pub forget_event : String → String → Db → Db
forget_event provider event_id db = record db {
  events = delete_where (λ e. str_eq e.provider provider && str_eq e.event_id event_id) db.events;
}
