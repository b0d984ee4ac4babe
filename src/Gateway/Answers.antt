-- ===== src/Gateway/Answers.antt =====
-- Why `authorize_token` of engine/gateway.py answers what it answers.
use inference_engine.Prelude.{ℕ, ◌≡◌, ◌⊎◌, true, false, Option, none, some, String, truthy}
use inference_engine.Accounts.{verify, key_access}
use inference_engine.Accounts.Types.{KeyRow, Entitlement, Access, KeyAccess}
use inference_engine.Gateway.{
  authenticate_token, local_key_id, new_access, model_entitled, engine_wide, plan_limits,
}
use inference_engine.Gateway.Types.{Gateway, ApiAccess, Outcome, Limits, Request, Denied}
use inference_engine.Gateway.Admission.{Limited}

-- The gateway once the use of the presented key is noted.
abbrev pub noted : (String → String) → Request → ℕ → Gateway → Gateway
noted hash r now g = (authenticate_token hash r.token now g).0

-- The token is accepted, as the row's.
abbrev pub Accepts : (String → String) → Request → ℕ → Gateway → KeyRow → Type 0
Accepts hash r now g row =
    (token : String) × (truthy r.token ≡ some token) × ((verify hash token now g.db).1 ≡ some row)

-- No token, or one that is not accepted, where none is required.
abbrev pub IsAnonymous : (String → String) → Request → ℕ → Gateway → Type 0
IsAnonymous hash r now g =
    (g.settings.require_auth ≡ false)
    × ((truthy r.token ≡ none)
        ⊎ ((token : String) × (truthy r.token ≡ some token)
            × ((verify hash token now g.db).1 ≡ none)))

-- What the token authenticates as.
pub data Authenticates (hash : String → String) (r : Request) (now : ℕ) (g : Gateway)
    : Outcome String → Type 0 where
  missing :
      g.settings.require_auth ≡ true
      → truthy r.token ≡ none
      → Authenticates hash r now g (Outcome.raised Denied.missing_api_key)
  invalid :
      (token : String)
      → g.settings.require_auth ≡ true
      → truthy r.token ≡ some token
      → (verify hash token now g.db).1 ≡ none
      → Authenticates hash r now g (Outcome.raised Denied.invalid_api_key)
  anonymous : IsAnonymous hash r now g → Authenticates hash r now g (Outcome.returned local_key_id)
  known :
      (row : KeyRow)
      → Accepts hash r now g row
      → Authenticates hash r now g (Outcome.returned row.id)

-- What the billing store says of the key.
abbrev pub billed : String → Gateway → KeyAccess
billed key_id g = key_access g.settings.default_plan key_id g.db

-- Which limits apply to the key: the engine's without billing or an entitlement, else the plan's.
pub data Resolves (key_id : String) (model : Option String) (g : Gateway)
    : Outcome Limits → Type 0 where
  unbilled :
      g.settings.has_billing ≡ false → Resolves key_id model g (Outcome.returned (engine_wide g))
  unentitled :
      g.settings.has_billing ≡ true
      → billed key_id g ≡ record { status = Access.active; entitlement = none }
      → Resolves key_id model g (Outcome.returned (engine_wide g))
  entitled :
      (e : Entitlement)
      → g.settings.has_billing ≡ true
      → billed key_id g ≡ record { status = Access.active; entitlement = some e }
      → model_entitled e.allowed_models model ≡ true
      → Resolves key_id model g (Outcome.returned (plan_limits e))
  not_entitled :
      (e : Entitlement)
      → g.settings.has_billing ≡ true
      → billed key_id g ≡ record { status = Access.active; entitlement = some e }
      → model_entitled e.allowed_models model ≡ false
      → Resolves key_id model g (Outcome.raised Denied.model_not_entitled)
  revoked :
      g.settings.has_billing ≡ true
      → (billed key_id g).status ≡ Access.revoked
      → Resolves key_id model g (Outcome.raised Denied.key_revoked)
  suspended :
      g.settings.has_billing ≡ true
      → (billed key_id g).status ≡ Access.suspended
      → Resolves key_id model g (Outcome.raised Denied.key_suspended)

-- Why a request is answered as it is.
pub data Answers (hash : String → String) (r : Request) (now : ℕ) (g : Gateway)
    : Outcome ApiAccess → Type 0 where
  refused :
      (d : Denied)
      → Authenticates hash r now g (Outcome.raised d)
      → Answers hash r now g (Outcome.raised d)
  unlimited :
      Authenticates hash r now g (Outcome.returned local_key_id)
      → Answers hash r now g (Outcome.returned (new_access local_key_id r.endpoint))
  unbillable :
      (row : KeyRow) (d : Denied)
      → Accepts hash r now g row
      → Resolves row.id r.model (noted hash r now g) (Outcome.raised d)
      → Answers hash r now g (Outcome.raised d)
  limited :
      (row : KeyRow) (lim : Limits) {out : Outcome ApiAccess}
      → Accepts hash r now g row
      → Resolves row.id r.model (noted hash r now g) (Outcome.returned lim)
      → Limited r now (noted hash r now g) row.id lim out
      → Answers hash r now g out
