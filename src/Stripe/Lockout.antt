-- ===== src/Stripe/Lockout.antt =====
-- No Stripe event makes a refused token acceptable, and the end of a subscription locks the
-- client's keys out (engine/billing/stripe.py with engine/auth/keys.py).
use mathlib.Core.Option
use inference_engine.Prelude.{
  ℕ, ◌≡◌, refl, sym, ap, subst, ◌↔◌, ◌∙◌, inl, inr, true, false, ◌&&◌, none, some, List, String,
  set_if, find, is_null, truthy, str_eq, arith, Bool-cases, Option-cases, some_inj, find-map,
}
use inference_engine.Accounts.{
  verify, owned_by, set_client_status, revoke_client_keys, get_client_by_external_ref,
}
use inference_engine.Accounts.Types.{KeyRow, KeyStatus, Client, Db}
use inference_engine.Accounts.Keys.{IsLive, verify-IsLive, IsLive-verify}
use inference_engine.Stripe.{handle_deleted, handle_event, type_of, result_of}
use inference_engine.Stripe.Keys.{revoke_owned, handle_event-Leaves, cancel_subscription-IsSame}
use inference_engine.Stripe.Types.{Event, Action, LifecycleResult}

abbrev revoke_one : String → ℕ → KeyRow → KeyRow
revoke_one client_id now =
    set_if (λ k. owned_by client_id k && is_null k.revoked_at)
      (λ k. record k { status = KeyStatus.revoked; revoked_at = some now })

-- A row that is unrevoked after the client's keys are revoked is untouched, and not the client's.
revoke_one-live :
    (c : String) (now : ℕ) (k : KeyRow)
    → is_null (revoke_one c now k).revoked_at ≡ true
    → (revoke_one c now k ≡ k) × (owned_by c k ≡ false)
revoke_one-live c now k h = elim (Bool-cases (owned_by c k && is_null k.revoked_at)) [
  | inl a ↦ let g = rw a at h in cc
  | inr a ↦ let g = rw a at h in (rw a refl, ground arith)
]

find-revoke_owned :
    (c : String) (now : ℕ) (h : String) (keys : List KeyRow)
    → find (λ k. str_eq k.key_hash h) (revoke_owned c now keys)
      ≡ Option.map (revoke_one c now) (find (λ k. str_eq k.key_hash h) keys)
find-revoke_owned c now h keys =
    find-map (λ k. str_eq k.key_hash h) (revoke_one c now) keys
      (λ k. elim (Bool-cases (owned_by c k && is_null k.revoked_at)) [
        | inl a ↦ rw a refl
        | inr a ↦ rw a refl
      ])

revoke_owned-IsLive :
    (hash : String → String) (token c : String) (now : ℕ) (keys : List KeyRow) (row : KeyRow)
    → IsLive hash token (revoke_owned c now keys) row
    → IsLive hash token keys row × (owned_by c row ≡ false)
revoke_owned-IsLive hash token c now keys row l =
    elim (Option-cases (find (λ k. str_eq k.key_hash (hash token)) keys)) [
      | inl a ↦
          let g : none ≡ some row =
            ap (Option.map (revoke_one c now)) (sym a)
            ∙ (sym (find-revoke_owned c now (hash token) keys) ∙ l.is_found) in
          cc
      | inr (k, a) ↦
          let e = some_inj (revoke_one c now k) row (
            ap (Option.map (revoke_one c now)) (sym a)
            ∙ (sym (find-revoke_owned c now (hash token) keys) ∙ l.is_found)) in
          let u = revoke_one-live c now k (rw e (l.is_unrevoked)) in
          let i : k ≡ row = sym u.0 ∙ e in
          (
            record {
              is_given = l.is_given;
              is_found = a ∙ ap some i;
              is_unrevoked = l.is_unrevoked;
            },
            rw (← i) (u.1),
          )
    ]

-- Whether a token is accepted, and with which row, depends on the keys alone.
verify-keys :
    (hash : String → String) (token : String) (n m : ℕ) (db db' : Db) (row : KeyRow)
    → db'.keys ≡ db.keys
    → (verify hash token n db').1 ≡ some row
    → (verify hash token m db).1 ≡ some row
verify-keys hash token n m db db' row e h =
    IsLive-verify hash token m db row
      (subst (λ ks. IsLive hash token ks row) e (verify-IsLive hash token n db' row h))

-- No event revives a token: what `verify` accepts after an event, it accepted before it, with the
-- same row.
pub handle_event_revives_none :
    (hash : String → String) (token fresh : String) (now n m : ℕ) (ev : Event) (db : Db)
    (out : Db × LifecycleResult) (row : KeyRow)
    → handle_event fresh now ev db ≡ some out
    → (verify hash token n out.0).1 ≡ some row
    → (verify hash token m db).1 ≡ some row
handle_event_revives_none hash token fresh now n m ev db out row h v =
    elim (handle_event-Leaves fresh now ev db out h).keys_after [
      | inl e ↦ verify-keys hash token n m db out.0 row e v
      | inr (c, e) ↦
          IsLive-verify hash token m db row
            (revoke_owned-IsLive hash token c now db.keys row
              (subst (λ ks. IsLive hash token ks row) e (verify-IsLive hash token n out.0 row v))).0
    ]

IsLive-revoke_owned :
    (hash : String → String) (token c : String) (now : ℕ) (keys : List KeyRow) (row : KeyRow)
    → IsLive hash token keys row
    → owned_by c row ≡ false
    → IsLive hash token (revoke_owned c now keys) row
IsLive-revoke_owned hash token c now keys row l o =
    let same : revoke_one c now row ≡ row = rw o refl in
    record {
      is_given = l.is_given;
      is_found =
          find-revoke_owned c now (hash token) keys
          ∙ (ap (Option.map (revoke_one c now)) l.is_found ∙ ap some same);
      is_unrevoked = l.is_unrevoked;
    }

handle_deleted-canceled :
    (fresh : String) (now : ℕ) (ev : Event) (db : Db) (out : Db × LifecycleResult) (ref : String)
    (c : Client)
    → type_of ev ≡ "customer.subscription.deleted"
    → truthy ev.customer ≡ some ref
    → get_client_by_external_ref ref db ≡ some c
    → handle_event fresh now ev db ≡ some out
    → (out.0.keys ≡ revoke_owned c.id now db.keys) × (out.1 ≡ result_of Action.canceled c.id)
unfolding handle_event handle_deleted set_client_status revoke_client_keys
handle_deleted-canceled fresh now ev db out ref c t a b h =
    let e : handle_deleted now ev db ≡ out =
      some_inj (handle_deleted now ev db) out (rw (handle_event, t) at h) in
    (
      rw (← e, handle_deleted, a, b)
          (ap (revoke_owned c.id now) (cancel_subscription-IsSame c.id now ev db).same_keys),
      rw (← e, handle_deleted, a, b) refl,
    )

-- When a subscription of a known client is deleted, the event answers that the client is canceled,
-- and from then on a token is accepted exactly where it was accepted before and its key is not
-- that client's.
pub deleted_locks_out :
    (hash : String → String) (fresh : String) (now : ℕ) (ev : Event) (db : Db)
    (out : Db × LifecycleResult) (ref : String) (c : Client)
    → type_of ev ≡ "customer.subscription.deleted"
    → truthy ev.customer ≡ some ref
    → get_client_by_external_ref ref db ≡ some c
    → handle_event fresh now ev db ≡ some out
    → (out.1 ≡ result_of Action.canceled c.id)
      × ((token : String) (n m : ℕ) (row : KeyRow)
          → ((verify hash token n out.0).1 ≡ some row)
            ↔ (((verify hash token m db).1 ≡ some row) × (owned_by c.id row ≡ false)))
deleted_locks_out hash fresh now ev db out ref c t a b h =
    let k = handle_deleted-canceled fresh now ev db out ref c t a b h in
    (
      k.1,
      λ token n m row. (
        λ v.
            let l = revoke_owned-IsLive hash token c.id now db.keys row (
              subst (λ ks. IsLive hash token ks row) k.0
                (verify-IsLive hash token n out.0 row v)) in
            (IsLive-verify hash token m db row l.0, l.1),
        λ v. IsLive-verify hash token n out.0 row (
            subst (λ ks. IsLive hash token ks row) (sym k.0)
              (IsLive-revoke_owned hash token c.id now db.keys row
                (verify-IsLive hash token m db row v.0) v.1)),
      ),
    )
