-- ===== src/Accounts/Keys.antt =====
-- What `KeyStore.verify` of engine/auth/keys.py accepts: created tokens, until they are revoked.
use mathlib.Core.Option
use inference_engine.Prelude.{
  ℕ, ◌≡◌, refl, sym, ap, inl, inr, Bool, true, false, ◌&&◌, ◌||◌, Option, none, some, List, [], ◌∷◌,
  ◌++◌, String, str_eq, str_append, find, any, In, map, set_if, is_null, find-map, arith,
  Bool-cases, Option-cases, some_inj, str_eq_self,
}
use inference_engine.Accounts.Types.{KeyRow, Db}
use inference_engine.Accounts.{create_key, verify, revoke, key_prefix}

pub find-In :
    {A : Type 0} (p : A → Bool) (xs : List A) (a : A) → find p xs ≡ some a → In a xs × (p a ≡ true)
find-In p [] a h = cc
find-In p (x ∷ xs) a h = elim (Bool-cases (p x)) [
  | inl k ↦ let e = some_inj x a (rw k at h) in (inl (sym e), rw (← e) k)
  | inr k ↦ let r = find-In p xs a (rw k at h) in (inr r.0, r.1)
]

-- The token's row stands in the table and is not revoked.
pub record IsLive (hash : String → String) (token : String) (keys : List KeyRow) (row : KeyRow)
    : Type 0 where
  pub is_given : str_eq token "" ≡ false
  pub is_found : find (λ k. str_eq k.key_hash (hash token)) keys ≡ some row
  pub is_unrevoked : is_null row.revoked_at ≡ true

pub verify-IsLive :
    (hash : String → String) (token : String) (now : ℕ) (db : Db) (row : KeyRow)
    → (verify hash token now db).1 ≡ some row
    → IsLive hash token db.keys row
unfolding verify
verify-IsLive hash token now db row h = elim (Bool-cases (str_eq token "")) [
  | inl a ↦ let g = rw a at h in cc
  | inr a ↦ elim (Option-cases (find (λ k. str_eq k.key_hash (hash token)) db.keys)) [
    | inl b ↦ let g = rw (a, b) at h in cc
    | inr (k, b) ↦ elim (Bool-cases (is_null k.revoked_at)) [
      | inl c ↦
          let e = some_inj k row (rw (a, b, c) at h) in
          record { is_given = a; is_found = rw b (ap some e); is_unrevoked = rw (← e) c }
      | inr c ↦ let g = rw (a, b, c) at h in cc
    ]
  ]
]

pub IsLive-verify :
    (hash : String → String) (token : String) (now : ℕ) (db : Db) (row : KeyRow)
    → IsLive hash token db.keys row
    → (verify hash token now db).1 ≡ some row
unfolding verify
IsLive-verify hash token now db row l = rw (l.is_given, l.is_found, l.is_unrevoked) refl

-- Revoking the key of a token that was accepted makes that token, and no store's other token with
-- the same hash, acceptable never again: `verify` after `revoke` returns no record.
pub revoke-verify :
    (hash : String → String) (token : String) (now at_time later : ℕ) (db : Db) (row : KeyRow)
    → (verify hash token now db).1 ≡ some row
    → (verify hash token later (revoke row.id at_time db).0).1 ≡ none
unfolding verify revoke
revoke-verify hash token now at_time later db row h =
    let l = verify-IsLive hash token now db row h in
    let p : KeyRow → Bool = λ k. str_eq k.key_hash (hash token) in
    let hit : KeyRow → Bool = λ k. str_eq k.id row.id && is_null k.revoked_at in
    let set : KeyRow → KeyRow = λ k. record k { revoked_at = some at_time } in
    let e : find p (map (set_if hit set) db.keys) ≡ Option.map (set_if hit set) (find p db.keys) =
      find-map p (set_if hit set) db.keys
        (λ k. elim (Bool-cases (hit k)) [ inl a ↦ rw a refl | inr a ↦ rw a refl ]) in
    let m : hit row ≡ true = rw (str_eq_self row.id, l.is_unrevoked) refl in
    rw (l.is_given, e, l.is_found, m) refl

pub find-append_none :
    {A : Type 0} (p : A → Bool) (xs ys : List A) → any p xs ≡ false → find p (xs ++ ys) ≡ find p ys
find-append_none p [] ys h = refl
find-append_none p (x ∷ xs) ys h = ground (arith, find-append_none p xs ys)

pub any-weaken :
    {A : Type 0} (p q : A → Bool) (xs : List A)
    → any (λ x. p x || q x) xs ≡ false
    → any q xs ≡ false
any-weaken p q [] h = refl
any-weaken p q (x ∷ xs) h = ground (arith, any-weaken p q xs)

-- A created key's token is accepted, with the row of that key: unowned, unrevoked and with the
-- label given.  The token returned is not empty and only its hash is kept in the row.
pub create-verify :
    (hash : String → String) (secret id : String) (label : Option String) (now later : ℕ)
    (db db' : Db) (row : KeyRow) (token : String)
    → create_key hash secret id label now db ≡ some (db', (row, token))
    → str_eq token "" ≡ false
    → ((verify hash token later db').1 ≡ some row) × ((row.client_id ≡ none) × (row.label ≡ label))
unfolding create_key verify
create-verify hash secret id label now later db db' row token h g =
    elim (Bool-cases (
      any (λ k. str_eq k.id id || str_eq k.key_hash (hash (str_append key_prefix secret)))
        db.keys)) [
          | inl a ↦ let c = rw a at h in cc
          | inr a ↦
              let e = some_inj _ (db', (row, token)) (rw a at h) in
              let eDb = ap (λ t. t.0) e in
              let eRow = ap (λ t. t.1.0) e in
              let eTok = ap (λ t. t.1.1) e in
              let f =
                any-weaken (λ k. str_eq k.id id)
                  (λ k. str_eq k.key_hash (hash (str_append key_prefix secret))) db.keys a in
              (
                IsLive-verify hash token later db' row record {
                  is_given = g;
                  is_found =
                      rw
                        (
                          ← eDb,
                          ← eRow,
                          ← eTok,
                          find-append_none
                              (λ k. str_eq k.key_hash (hash (str_append key_prefix secret))) db.keys
                              _ f,
                          str_eq_self (hash (str_append key_prefix secret)),
                        )
                        refl;
                  is_unrevoked = rw (← eRow) refl;
                },
                (rw (← eRow) refl, rw (← eRow) refl),
              )
        ]
