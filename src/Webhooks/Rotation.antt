-- ===== src/Webhooks/Rotation.antt =====
-- Rotating a secret (engine/billing/webhooks/store.py with signing.py): who accepts the deliveries
-- that are signed after it.
use inference_engine.Prelude.{
  ℕ, ◌+◌, ◌≤◌, ◌<◌, ◌≡◌, refl, sym, ◌∙◌, ap, subst, inl, inr, Bool, true, false, ◌&&◌, none, some,
  List, [], ◌∷◌, ◌++◌, map, any, In, In-filter, filter-In, In-left, In-last, append-In, filter,
  String, str_eq, str_eq_self, arith, Bool-cases, Option-cases, is_null, set_if, Text, codes,
  text_eq, text_eq_iff,
}
use inference_engine.Webhooks.{order_by, is_unexpired, is_newer, active_secrets, rotate_secret}
use inference_engine.Webhooks.Ordering.{In-order_by, order_by-In, In-map, map-In}
use inference_engine.Webhooks.Types.{SecretRow, Store}
use inference_engine.Webhooks.Signing.{
  Crypto, IsBase64, sign, signature_header, verify, verify-signature_header,
}

-- A row of the endpoint holds the secret, and is not expired.
abbrev pub IsActive : String → String → ℕ → Store → Type 0
IsActive secret endpoint_id now s =
    (k : SecretRow) × In k s.secrets
    × (k.secret ≡ secret)
    × (str_eq k.endpoint_id endpoint_id ≡ true)
    × (is_unexpired now k ≡ true)

IsActive-active_secrets :
    (secret endpoint_id : String) (now : ℕ) (s : Store)
    → IsActive secret endpoint_id now s
    → In secret (active_secrets endpoint_id now s)
unfolding active_secrets
IsActive-active_secrets secret endpoint_id now s (k, m, e, o, u) =
    let p : SecretRow → Bool = λ x. str_eq x.endpoint_id endpoint_id && is_unexpired now x in
    subst (λ x. In x (map (λ k. k.secret) (order_by is_newer (filter p s.secrets)))) e
      (In-map (λ x. x.secret) k (order_by is_newer (filter p s.secrets))
        (In-order_by is_newer k (filter p s.secrets) (In-filter p k s.secrets m (rw o u))))

active_secrets-IsActive :
    (secret endpoint_id : String) (now : ℕ) (s : Store)
    → In secret (active_secrets endpoint_id now s)
    → IsActive secret endpoint_id now s
unfolding active_secrets
active_secrets-IsActive secret endpoint_id now s m =
    let p : SecretRow → Bool = λ x. str_eq x.endpoint_id endpoint_id && is_unexpired now x in
    let r = map-In (λ x. x.secret) secret (order_by is_newer (filter p s.secrets)) m in
    let f = filter-In p r.0 s.secrets (order_by-In is_newer r.0 (filter p s.secrets) r.1) in
    (r.0, f.0, sym r.2, ground (arith, f.1), ground (arith, f.1))

-- What a rotation does to a row, and to the rows.
abbrev retire : String → ℕ → SecretRow → SecretRow
retire endpoint_id expiry =
    set_if (λ k. str_eq k.endpoint_id endpoint_id && is_null k.expires_at)
      (λ k. record k { expires_at = some expiry })

abbrev rotated : String → ℕ → List SecretRow → List SecretRow
rotated endpoint_id expiry = map (retire endpoint_id expiry)

-- A row of the endpoint is expired where its old expiry, if it had one, and the new one are over.
retire-expired :
    (endpoint_id : String) (expiry t : ℕ) (j : SecretRow)
    → expiry ≤ t
    → str_eq (retire endpoint_id expiry j).endpoint_id endpoint_id ≡ true
    → ((e : ℕ) → str_eq j.endpoint_id endpoint_id ≡ true → j.expires_at ≡ some e → e ≤ t)
    → is_unexpired t (retire endpoint_id expiry j) ≡ false
retire-expired endpoint_id expiry t j over o old =
    elim (Bool-cases (str_eq j.endpoint_id endpoint_id)) [
      | inr a ↦ let g = rw (a, a) at o in cc
      | inl a ↦ elim (Option-cases j.expires_at) [
        | inl n ↦ rw (a, n) (ground arith)
        | inr (e, n) ↦ let le = old e a n in rw (a, n) (ground arith)
      ]
    ]

abbrev new_row : (secret_id secret endpoint_id : String) (created_at : ℕ) → SecretRow
new_row secret_id secret endpoint_id created_at = record {
  id = secret_id;
  endpoint_id = endpoint_id;
  secret = secret;
  created_at = created_at;
  expires_at = none;
}

module _ (secret_id secret endpoint_id : String) (grace now created_at : ℕ) (s s' : Store)
    (h : rotate_secret secret_id secret endpoint_id grace now created_at s ≡ some s') where
  rotate_secret-secrets :
      s'.secrets
      ≡ rotated endpoint_id (now + grace) s.secrets
        ++ new_row secret_id secret endpoint_id created_at ∷ []
  unfolding rotate_secret
  rotate_secret-secrets = ground (arith, h)

  -- The new secret is active from then on.
  new-IsActive : (t : ℕ) → IsActive secret endpoint_id t s'
  new-IsActive t = (
    new_row secret_id secret endpoint_id created_at,
    rw rotate_secret-secrets (In-last _ (rotated endpoint_id (now + grace) s.secrets)),
    refl,
    str_eq_self endpoint_id,
    refl,
  )

  -- A secret without expiry stays active until the grace period ends.
  old-IsActive :
      (k : SecretRow) (t : ℕ)
      → In k s.secrets
      → str_eq k.endpoint_id endpoint_id ≡ true
      → k.expires_at ≡ none
      → t < now + grace
      → IsActive k.secret endpoint_id t s'
  old-IsActive k t m o e lt = (
    record k { expires_at = some (now + grace) },
    rw rotate_secret-secrets (
        In-left _ (rotated endpoint_id (now + grace) s.secrets) _ (
          subst (λ x. In x (rotated endpoint_id (now + grace) s.secrets)) (rw (o, e) refl)
            (In-map _ k s.secrets m))),
    refl,
    o,
    ground arith,
  )

  -- Once the grace period and every earlier expiry are over, only the new secret is active.
  only_new :
      (x : String) (t : ℕ)
      → now + grace ≤ t
      → ((k : SecretRow) (e : ℕ)
          → In k s.secrets
          → str_eq k.endpoint_id endpoint_id ≡ true
          → k.expires_at ≡ some e
          → e ≤ t)
      → IsActive x endpoint_id t s'
      → x ≡ secret
  only_new x t over old (k, m, e, o, u) =
      elim (append-In k (rotated endpoint_id (now + grace) s.secrets) _
        (rw rotate_secret-secrets at m)) [
          | inr r ↦ elim r [ inl i ↦ sym e ∙ ap (λ k. k.secret) i | inr n ↦ elim n [ ] ]
          | inl l ↦
              let q = map-In _ k s.secrets l in
              let expired =
                retire-expired endpoint_id (now + grace) t q.0 over (rw q.2 at o)
                  (λ e. old q.0 e q.1) in
              cc (rw q.2 at u, expired)
        ]

-- What the endpoint's receiver makes of a delivery that is signed at the moment `t`.
abbrev pub accepts : Crypto → String → String → Text → Text → ℕ → Store → Bool
accepts c secret endpoint_id msg_id body t s =
    verify c (codes secret)
      (signature_header c (map codes (active_secrets endpoint_id t s)) msg_id t body) msg_id t body

any-same :
    (c : Text → Text) (x : String) (xs : List String)
    → In x xs
    → any (λ s. text_eq (c s) (c (codes x))) (map codes xs) ≡ true
any-same c x [] m = elim m [ ]
any-same c x (y ∷ ys) (inl e) = rw (← e, (text_eq_iff (c (codes x)) (c (codes x))).1 refl) refl
any-same c x (y ∷ ys) (inr m) = ground (arith, any-same c x ys m)

IsActive-accepts :
    (c : Crypto) (base64 : IsBase64 c) (secret endpoint_id : String) (msg_id body : Text) (t : ℕ)
    (s : Store)
    → IsActive secret endpoint_id t s
    → accepts c secret endpoint_id msg_id body t s ≡ true
IsActive-accepts c base64 secret endpoint_id msg_id body t s a =
    verify-signature_header c base64 msg_id t body (codes secret)
      (map codes (active_secrets endpoint_id t s))
    ∙ any-same (λ x. sign c x msg_id t body) secret (active_secrets endpoint_id t s)
        (IsActive-active_secrets secret endpoint_id t s a)

-- After a rotation at the moment `now`, as base64 writes no whitespace: a receiver with the new
-- secret accepts every delivery; one with a secret that had no expiry accepts those that are
-- signed before the grace period ends; and once it and every earlier expiry are over, deliveries
-- are signed with the new secret alone.
pub rotation_accepts :
    (c : Crypto) (secret_id secret endpoint_id : String) (grace now created_at : ℕ) (s s' : Store)
    → IsBase64 c
    → rotate_secret secret_id secret endpoint_id grace now created_at s ≡ some s'
    → (msg_id body : Text) (t : ℕ)
    → (accepts c secret endpoint_id msg_id body t s' ≡ true)
      × ((k : SecretRow)
          → In k s.secrets
          → str_eq k.endpoint_id endpoint_id ≡ true
          → k.expires_at ≡ none
          → t < now + grace
          → accepts c k.secret endpoint_id msg_id body t s' ≡ true)
      × (now + grace ≤ t
          → ((k : SecretRow) (e : ℕ)
              → In k s.secrets
              → str_eq k.endpoint_id endpoint_id ≡ true
              → k.expires_at ≡ some e
              → e ≤ t)
          → (x : String) → In x (active_secrets endpoint_id t s')
          → x ≡ secret)
rotation_accepts c secret_id secret endpoint_id grace now created_at s s' base64 h msg_id body t = (
  IsActive-accepts c base64 secret endpoint_id msg_id body t s'
      (new-IsActive secret_id secret endpoint_id grace now created_at s s' h t),
  λ k m o e lt.
      IsActive-accepts c base64 k.secret endpoint_id msg_id body t s'
        (old-IsActive secret_id secret endpoint_id grace now created_at s s' h k t m o e lt),
  λ over old x m.
      only_new secret_id secret endpoint_id grace now created_at s s' h x t over old
        (active_secrets-IsActive x endpoint_id t s' m),
)
