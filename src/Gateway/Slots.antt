-- ===== src/Gateway/Slots.antt =====
-- The slots of the concurrency limiter: a request holds one exactly from its admission to its
-- finalize or abort (engine/gateway.py).

use inference_engine.Prelude.{
  ℕ, ◌+◌, ◌-◌, ◌≡◌, refl, ◌∙◌, inl, inr, true, String, leb, ◌==◌, str_eq, str_eq_iff, if◌then◌else◌,
  leb→le, dict_put, dict_pop, dict_get-put, dict_get-put_other, dict_get-pop, dict_get-pop_other,
  arith, Bool-cases,
}
use inference_engine.Gateway.Limiting.{inflight_of, acquire, release}
use inference_engine.Gateway.Types.{Limiter}

-- The requests in flight under `key` after one more of `owner`.
abbrev pub plus_one : String → String → ℕ → ℕ
plus_one owner key n = if str_eq owner key then n + 1 else n

inflight_of-put :
    (owner key : String) (n : ℕ) (l : Limiter)
    → inflight_of key (record l { inflight = dict_put owner n l.inflight })
      ≡ (if str_eq owner key then n else inflight_of key l)
inflight_of-put owner key n l = elim (Bool-cases (str_eq owner key)) [
  | inl e ↦ rw (e, ← (str_eq_iff owner key).0 e, dict_get-put owner n l.inflight) refl
  | inr e ↦ rw (e, dict_get-put_other owner key n l.inflight e) refl
]

inflight_of-pop :
    (owner key : String) (l : Limiter)
    → inflight_of key (record l { inflight = dict_pop owner l.inflight })
      ≡ (if str_eq owner key then 0 else inflight_of key l)
inflight_of-pop owner key l = elim (Bool-cases (str_eq owner key)) [
  | inl e ↦ rw (e, ← (str_eq_iff owner key).0 e, dict_get-pop owner l.inflight) refl
  | inr e ↦ rw (e, dict_get-pop_other owner key l.inflight e) refl
]

inflight_of-bump :
    (owner key : String) (l : Limiter)
    → inflight_of key (record l { inflight = dict_put owner (inflight_of owner l + 1) l.inflight })
      ≡ plus_one owner key (inflight_of key l)
inflight_of-bump owner key l = elim (Bool-cases (str_eq owner key)) [
  | inl e ↦
      inflight_of-put owner key (inflight_of owner l + 1) l
      ∙ rw (e, (str_eq_iff owner key).0 e) refl
  | inr e ↦ inflight_of-put owner key (inflight_of owner l + 1) l ∙ rw e refl
]

-- `acquire` counts one more for its key exactly where it succeeds.
pub inflight_of-acquire :
    (owner key : String) (l : Limiter)
    → inflight_of key (acquire owner l).0
      ≡ (if (acquire owner l).1 then plus_one owner key (inflight_of key l) else inflight_of key l)
unfolding acquire
inflight_of-acquire owner key l = elim (Bool-cases (l.max_concurrent == 0)) [
  | inl a ↦ rw (acquire, a) (inflight_of-bump owner key l)
  | inr a ↦ elim (Bool-cases (leb l.max_concurrent (inflight_of owner l))) [
    | inl b ↦ rw (acquire, a, b) refl
    | inr b ↦ rw (acquire, a, b) (inflight_of-bump owner key l)
  ]
]

less_of_few :
    (owner key : String) (l : Limiter)
    → leb (inflight_of owner l) 1 ≡ true
    → (if str_eq owner key then 0 else inflight_of key l)
      ≡ (if str_eq owner key then inflight_of key l - 1 else inflight_of key l)
less_of_few owner key l h = elim (Bool-cases (str_eq owner key)) [
  | inl e ↦
      let few = rw ((str_eq_iff owner key).0 e) at h in
      rw e (omega (arith, leb→le (inflight_of key l) 1 few))
  | inr e ↦ rw e refl
]

less_of_many :
    (owner key : String) (l : Limiter)
    → (if str_eq owner key then inflight_of owner l - 1 else inflight_of key l)
      ≡ (if str_eq owner key then inflight_of key l - 1 else inflight_of key l)
less_of_many owner key l = elim (Bool-cases (str_eq owner key)) [
  | inl e ↦ rw (e, (str_eq_iff owner key).0 e) refl
  | inr e ↦ rw e refl
]

-- `release` counts one less for its key, and not below 0.
pub inflight_of-release :
    (owner key : String) (l : Limiter)
    → inflight_of key (release owner l)
      ≡ (if str_eq owner key then inflight_of key l - 1 else inflight_of key l)
unfolding release
inflight_of-release owner key l = elim (Bool-cases (leb (inflight_of owner l) 1)) [
  | inl a ↦ rw (release, a) (inflight_of-pop owner key l ∙ less_of_few owner key l a)
  | inr a ↦
      rw (release, a)
        (inflight_of-put owner key (inflight_of owner l - 1) l ∙ less_of_many owner key l)
]
