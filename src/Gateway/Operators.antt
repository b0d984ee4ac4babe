-- ===== src/Gateway/Operators.antt =====
-- The operator gate of engine/gateway.py: `Gateway.operator_access`.
use inference_engine.Prelude.{
  ℕ, ◌≡◌, ◌↔◌, ◌⊎◌, refl, inl, inr, true, false, Option, none, some, String, truthy, arith,
  Option-cases,
}
use inference_engine.Accounts.{verify}
use inference_engine.Accounts.Types.{KeyRow}
use inference_engine.Gateway.{operator_access, is_loopback_client}
use inference_engine.Gateway.Types.{Gateway, OperatorAccess}

-- Who may pass: the holder of an accepted key that no client owns; and, without a key, a loopback
-- client where no key is required.
abbrev pub MayPass : (String → String) → Option String → Option String → ℕ → Gateway → Type 0
MayPass hash client_host token now g =
    ((t : String) × (row : KeyRow) × (truthy token ≡ some t)
      × ((verify hash t now g.db).1 ≡ some row)
      × (row.client_id ≡ none))
    ⊎ (truthy token ≡ none)
      × (g.settings.require_auth ≡ false)
      × (is_loopback_client client_host ≡ true)

allowed-MayPass :
    (hash : String → String) (client_host token : Option String) (now : ℕ) (g : Gateway)
    → (operator_access hash client_host token now g).1.access ≡ OperatorAccess.allowed
    → MayPass hash client_host token now g
unfolding operator_access
allowed-MayPass hash client_host token now g h = elim (Option-cases (truthy token)) [
  | inl a ↦ let k = rw (operator_access, a) at h in inr (a, ground (arith, k), ground (arith, k))
  | inr (t, a) ↦ elim (Option-cases (verify hash t now g.db).1) [
    | inl v ↦ let k = rw (operator_access, a, v) at h in cc
    | inr (row, v) ↦ elim (Option-cases row.client_id) [
      | inl o ↦ inl (t, row, a, v, o)
      | inr (c, o) ↦ let k = rw (operator_access, a, v, o) at h in cc
    ]
  ]
]

MayPass-allowed :
    (hash : String → String) (client_host token : Option String) (now : ℕ) (g : Gateway)
    → MayPass hash client_host token now g
    → (operator_access hash client_host token now g).1.access ≡ OperatorAccess.allowed
unfolding operator_access
MayPass-allowed hash client_host token now g (inl (t, row, a, v, o)) =
    rw (operator_access, a, v, o) refl
MayPass-allowed hash client_host token now g (inr (a, q, k)) = rw (operator_access, a, q, k) refl

-- The gate is exact: it allows those who may pass and nobody else.  A key that is presented counts
-- before the loopback exception.
pub operator_access_exact :
    (hash : String → String) (client_host token : Option String) (now : ℕ) (g : Gateway)
    → ((operator_access hash client_host token now g).1.access ≡ OperatorAccess.allowed)
      ↔ MayPass hash client_host token now g
operator_access_exact hash client_host token now g =
    (allowed-MayPass hash client_host token now g, MayPass-allowed hash client_host token now g)
