-- ===== src/Gateway/Admission.antt =====
-- The limits of an authenticated key in `authorize_token` (engine/gateway.py): rate, requests in
-- flight and the quotas of both windows.
use inference_engine.Prelude.{
  ℕ, ◌+◌, ◌-◌, ◌≤◌, ◌<◌, ◌≡◌, ◌≢◌, refl, ◌⊎◌, inl, inr, true, false, Option, String, arith,
  Bool-cases,
}
use inference_engine.Gateway.{admit, check_quota, quota_headers}
use inference_engine.Gateway.Quota.{
  estimate, estimate_prompt_tokens, would_exceed, usage_5h, usage_weekly,
}
use inference_engine.Gateway.Limiting.{inflight_of, acquire, check_rate}
use inference_engine.Gateway.Types.{
  Limiter, Gateway, ApiAccess, Outcome, Limits, Request, Denied, WindowUsage,
}

-- The window has room for the units, or no limit.
abbrev pub Fits : WindowUsage → ℕ → Type 0
Fits w n = (w.limit ≡ 0) ⊎ (w.used + n ≤ w.limit)

-- It has a limit, and the units would go over it.
abbrev pub Exceeds : WindowUsage → ℕ → Type 0
Exceeds w n = (w.limit ≢ 0) × (w.limit < w.used + n)

would_exceed-Exceeds : (w : WindowUsage) (n : ℕ) → would_exceed w n ≡ true → Exceeds w n
unfolding would_exceed
would_exceed-Exceeds w n h = ground arith

would_exceed-Fits : (w : WindowUsage) (n : ℕ) → would_exceed w n ≡ false → Fits w n
unfolding would_exceed
would_exceed-Fits w n h = ground arith

-- The compute units that a request is estimated at.
abbrev pub needed : Request → Gateway → ℕ
needed r g = estimate g.compute (estimate_prompt_tokens r.prompt_len) r.max_tokens 1

abbrev pub weekly : String → ℕ → Limits → Gateway → WindowUsage
weekly key_id now lim g = usage_weekly key_id lim.quota_weekly_cu now g.usage

abbrev pub five_hours : String → ℕ → Limits → Gateway → WindowUsage
five_hours key_id now lim g = usage_5h key_id lim.quota_5h_cu now g.usage

-- The key is at its limit of requests in flight.
abbrev pub IsFull : String → Limiter → Type 0
IsFull key_id l = (l.max_concurrent ≢ 0) × (l.max_concurrent ≤ inflight_of key_id l)

-- Why a key under the limits `lim` is admitted or not.
pub data Limited (r : Request) (now : ℕ) (g : Gateway) (key_id : String) (lim : Limits)
    : Outcome ApiAccess → Type 0 where
  too_fast :
      (check_rate key_id now lim.rate_override g.limiter).1 ≡ false
      → Limited r now g key_id lim (Outcome.raised Denied.rate_limit_exceeded)
  too_many :
      (check_rate key_id now lim.rate_override g.limiter).1 ≡ true
      → IsFull key_id g.limiter
      → Limited r now g key_id lim (Outcome.raised Denied.concurrency_limit_exceeded)
  over_week :
      (check_rate key_id now lim.rate_override g.limiter).1 ≡ true
      → ¬ IsFull key_id g.limiter
      → Exceeds (weekly key_id now lim g) (needed r g)
      → Limited r now g key_id lim (
          Outcome.raised (
            Denied.weekly_quota_exceeded
              (quota_headers (five_hours key_id now lim g) (weekly key_id now lim g))
              ((weekly key_id now lim g).reset_at - now)))
  over_five_hours :
      (check_rate key_id now lim.rate_override g.limiter).1 ≡ true
      → ¬ IsFull key_id g.limiter
      → Fits (weekly key_id now lim g) (needed r g)
      → Exceeds (five_hours key_id now lim g) (needed r g)
      → Limited r now g key_id lim (
          Outcome.raised (
            Denied.quota_5h_exceeded
              (quota_headers (five_hours key_id now lim g) (weekly key_id now lim g))))
  admitted :
      (a : ApiAccess)
      → (check_rate key_id now lim.rate_override g.limiter).1 ≡ true
      → ¬ IsFull key_id g.limiter
      → Fits (weekly key_id now lim g) (needed r g)
      → Fits (five_hours key_id now lim g) (needed r g)
      → a.key_id ≡ key_id
      → a.slot_held ≡ true
      → Limited r now g key_id lim (Outcome.returned a)

check_quota-Limited :
    (r : Request) (now : ℕ) (lim : Limits) (a : ApiAccess) (g : Gateway) (l : Limiter)
    → (check_rate a.key_id now lim.rate_override g.limiter).1 ≡ true
    → ¬ IsFull a.key_id g.limiter
    → Limited r now g a.key_id lim
        (check_quota r now lim (record a { slot_held = true }) (record g { limiter = l })).1
unfolding check_quota
check_quota-Limited r now lim a g l rated room =
    let week = weekly a.key_id now lim g in
    let five = five_hours a.key_id now lim g in
    let n = needed r g in
    elim (Bool-cases (would_exceed week n)) [
      | inl w ↦ rw (check_quota, w) (Limited.over_week rated room (would_exceed-Exceeds week n w))
      | inr w ↦
          let fits = would_exceed-Fits week n w in
          elim (Bool-cases (would_exceed five n)) [
            | inl h ↦
                rw (check_quota, w, h)
                  (Limited.over_five_hours rated room fits (would_exceed-Exceeds five n h))
            | inr h ↦
                rw (check_quota, w, h)
                  (Limited.admitted _ rated room fits (would_exceed-Fits five n h) refl refl)
          ]
    ]

acquire-IsFull : (key : String) (l : Limiter) → (acquire key l).1 ≡ false → IsFull key l
unfolding acquire
acquire-IsFull key l h = ground arith

acquire-room : (key : String) (l : Limiter) → (acquire key l).1 ≡ true → ¬ IsFull key l
unfolding acquire
acquire-room key l h full = ground (arith, h, full.0, full.1)

slots-check_rate :
    (key now_key : String) (now : ℕ) (rate : Option ℕ) (l : Limiter)
    → IsFull key l
    → IsFull key (check_rate now_key now rate l).0
unfolding check_rate
slots-check_rate key now_key now rate l h = ground arith

check_rate-slots :
    (key now_key : String) (now : ℕ) (rate : Option ℕ) (l : Limiter)
    → IsFull key (check_rate now_key now rate l).0
    → IsFull key l
unfolding check_rate
check_rate-slots key now_key now rate l h = ground arith

pub admit-Limited :
    (r : Request) (now : ℕ) (lim : Limits) (a : ApiAccess) (g : Gateway)
    → Limited r now g a.key_id lim (admit r now lim a g).1
unfolding admit
admit-Limited r now lim a g =
    let rated = check_rate a.key_id now lim.rate_override g.limiter in
    let taken = acquire a.key_id rated.0 in
    elim (Bool-cases rated.1) [
      | inr slow ↦ rw (admit, slow) (Limited.too_fast slow)
      | inl fast ↦ elim (Bool-cases taken.1) [
        | inr full ↦
            rw (admit, fast, full)
              (Limited.too_many fast (
                check_rate-slots a.key_id a.key_id now lim.rate_override g.limiter
                  (acquire-IsFull a.key_id rated.0 full)))
        | inl free ↦
            rw (admit, fast, free)
              (check_quota-Limited r now lim a g taken.0 fast (λ full.
                acquire-room a.key_id rated.0 free
                  (slots-check_rate a.key_id a.key_id now lim.rate_override g.limiter full)))
      ]
    ]
