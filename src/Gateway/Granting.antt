-- ===== src/Gateway/Granting.antt =====
-- Authorizing a request (engine/gateway.py): the slots that `authorize_token` takes are the ones
-- that it hands out with the access.
use inference_engine.Prelude.{
  ℕ, ◌+◌, ◌≤◌, ◌≡◌, refl, ◌∙◌, ◌⊎◌, inl, inr, Bool, true, false, ◌&&◌, Option, List, String, ◌==◌,
  str_eq, arith, Bool-cases, ==_iff, str_eq_iff, Option-cases, truthy,
}
use inference_engine.Gateway.{
  abort, new_access, admit, check_quota, authenticate_token, authorize_token, resolve_limits,
  local_key_id,
}
use inference_engine.Gateway.Quota.{
  estimate, estimate_prompt_tokens, would_exceed, usage_5h, usage_weekly,
}
use inference_engine.Gateway.Limiting.{inflight_of, acquire, check_rate}
use inference_engine.Gateway.Slots.{inflight_of-acquire}
use inference_engine.Gateway.Types.{Limiter, Gateway, ApiAccess, Outcome, Limits, Request, Denied}
use inference_engine.Gateway.Settling.{holds, one_if, abort-Settles}

acquire_room :
    (owner : String) (l : Limiter)
    → (l.max_concurrent == 0) ≡ false
    → (acquire owner l).1 ≡ true
    → inflight_of owner l + 1 ≤ l.max_concurrent
unfolding acquire
acquire_room owner l e h = ground arith

-- After an acquisition a limited key is within the limit.
pub acquire-within :
    (owner key : String) (l : Limiter)
    → (l.max_concurrent ≡ 0) ⊎ (inflight_of key l ≤ l.max_concurrent)
    → (l.max_concurrent ≡ 0) ⊎ (inflight_of key (acquire owner l).0 ≤ l.max_concurrent)
acquire-within owner key l h = elim (Bool-cases (l.max_concurrent == 0)) [
  | inl e ↦ inl ((==_iff l.max_concurrent 0).0 e)
  | inr e ↦ elim h [
    | inl z ↦ inl z
    | inr le ↦ inr (elim (Bool-cases (acquire owner l).1) [
      | inr no_room ↦ rw (inflight_of-acquire owner key l, no_room) le
      | inl room ↦ elim (Bool-cases (str_eq owner key)) [
        | inl k ↦
            let r = rw ((str_eq_iff owner key).0 k) at (acquire_room owner l e room) in
            rw (inflight_of-acquire owner key l, room, k) r
        | inr k ↦ rw (inflight_of-acquire owner key l, room, k) le
      ]
    ])
  ]
]

acquire-cap : (owner : String) (l : Limiter) → (acquire owner l).0.max_concurrent ≡ l.max_concurrent
unfolding acquire
acquire-cap owner l = ground arith

-- The rate window is apart from the slots.
check_rate-slots :
    (key_id : String) (now : ℕ) (rate : Option ℕ) (l : Limiter)
    → ((check_rate key_id now rate l).0.inflight ≡ l.inflight)
      × ((check_rate key_id now rate l).0.max_concurrent ≡ l.max_concurrent)
unfolding check_rate
check_rate-slots key_id now rate l = ground arith

-- The slots of `key` that an answer hands out.
abbrev pub granted : String → Outcome ApiAccess → ℕ
granted key (Outcome.raised d) = 0
granted key (Outcome.returned a) = one_if (holds key a)

abbrev pub IsOpen : Outcome ApiAccess → Type 0
IsOpen (Outcome.raised d) = Unit
IsOpen (Outcome.returned a) = a.finalized ≡ false

abbrev pub Within : String → Limiter → Type 0
Within key l = (l.max_concurrent ≡ 0) ⊎ (inflight_of key l ≤ l.max_concurrent)

-- What an authorization does to the slots: it takes the ones that it hands out.
pub record Grants (g : Gateway) (out : Gateway × Outcome ApiAccess) : Type 0 where
  pub counts :
      (key : String) → inflight_of key out.0.limiter ≡ inflight_of key g.limiter + granted key out.1
  pub within : (key : String) → Within key g.limiter → Within key out.0.limiter
  pub is_open : IsOpen out.1
  pub same_cap : out.0.limiter.max_concurrent ≡ g.limiter.max_concurrent

-- The quota check refuses and gives the slot back, or hands the access out.
data Checked (a : ApiAccess) (g : Gateway) : Gateway × Outcome ApiAccess → Type 0 where
  refuses : (d : Denied) → Checked a g ((abort a g).1, Outcome.raised d)
  allows : (hs : List (String × ℕ)) → Checked a g (g, Outcome.returned (record a { headers = hs }))

check_quota-Checked :
    (r : Request) (now : ℕ) (lim : Limits) (a : ApiAccess) (g : Gateway)
    → Checked a g (check_quota r now lim a g)
unfolding check_quota
check_quota-Checked r now lim a g =
    let needed = estimate g.compute (estimate_prompt_tokens r.prompt_len) r.max_tokens 1 in
    let u5h = usage_5h a.key_id lim.quota_5h_cu now g.usage in
    let uweek = usage_weekly a.key_id lim.quota_weekly_cu now g.usage in
    elim (Bool-cases (would_exceed uweek needed)) [
      | inl w ↦ rw (check_quota, w) (Checked.refuses _)
      | inr w ↦ elim (Bool-cases (would_exceed u5h needed)) [
        | inl h ↦ rw (check_quota, w, h) (Checked.refuses _)
        | inr h ↦ rw (check_quota, w, h) (Checked.allows _)
      ]
    ]

module _ (r : Request) (now : ℕ) (lim : Limits) (a : ApiAccess) (g : Gateway) where
  abbrev rated : Limiter × Bool
  rated = check_rate a.key_id now lim.rate_override g.limiter

  abbrev taken : Limiter × Bool
  taken = acquire a.key_id rated.0

  rated_same : (key : String) → inflight_of key rated.0 ≡ inflight_of key g.limiter
  rated_same key =
      let e = (check_rate-slots a.key_id now lim.rate_override g.limiter).0 in rw e refl

  taken_counts :
      (key : String)
      → inflight_of key taken.0
        ≡ inflight_of key g.limiter + one_if (taken.1 && str_eq a.key_id key)
  taken_counts key = elim (Bool-cases taken.1) [
    | inl t ↦ elim (Bool-cases (str_eq a.key_id key)) [
      | inl e ↦ inflight_of-acquire a.key_id key rated.0 ∙ rw (t, e, rated_same key) refl
      | inr e ↦ inflight_of-acquire a.key_id key rated.0 ∙ rw (t, e, rated_same key) (omega arith)
    ]
    | inr t ↦ inflight_of-acquire a.key_id key rated.0 ∙ rw (t, rated_same key) (omega arith)
  ]

  taken_cap : taken.0.max_concurrent ≡ g.limiter.max_concurrent
  taken_cap =
      acquire-cap a.key_id rated.0 ∙ (check_rate-slots a.key_id now lim.rate_override g.limiter).1

  rated-Within : (key : String) → Within key g.limiter → Within key rated.0
  rated-Within key h =
      ground (arith, rated_same key, (check_rate-slots a.key_id now lim.rate_override g.limiter).1)

  taken-Within : (key : String) → Within key g.limiter → Within key taken.0
  taken-Within key h = ground (
    arith,
    acquire-within a.key_id key rated.0 (rated-Within key h),
    acquire-cap a.key_id rated.0,
  )

-- A refusal that leaves the limiter alone.
Grants-same :
    (g g' : Gateway) (d : Denied) → g'.limiter ≡ g.limiter → Grants g (g', Outcome.raised d)
Grants-same g g' d e = record {
  counts = λ key. rw e (omega arith);
  within = λ key h. rw e h;
  is_open = tt;
  same_cap = rw e refl;
}

-- From the slot that was taken: refused, it is given back; allowed, it goes with the access.
Checked-Grants :
    (a : ApiAccess) (g g' : Gateway)
    → a.finalized ≡ false
    → a.slot_held ≡ true
    → g'.limiter.max_concurrent ≡ g.limiter.max_concurrent
    → ((key : String)
        → inflight_of key g'.limiter ≡ inflight_of key g.limiter + one_if (str_eq a.key_id key))
    → ((key : String) → Within key g.limiter → Within key g'.limiter)
    → {out : Gateway × Outcome ApiAccess} → Checked a g' out
    → Grants g out
Checked-Grants a g g' o s same c w (Checked.refuses d) =
    let e = abort-Settles a g' (rw o refl) in
    let back = λ (key : String).
      let h : holds key a ≡ str_eq a.key_id key = rw s refl in
      let k : inflight_of key (abort a g').1.limiter ≡ inflight_of key g.limiter =
        omega (arith, c key, rw h at (e.frees key)) in
      k in
    record {
      counts = λ key. omega (arith, back key);
      within = λ key h. ground (arith, back key, e.same_cap, same);
      is_open = tt;
      same_cap = e.same_cap ∙ same;
    }
Checked-Grants a g g' o s same c w (Checked.allows hs) = record {
  counts = λ key. rw s (c key);
  within = w;
  is_open = o;
  same_cap = same;
}

admit-Grants :
    (r : Request) (now : ℕ) (lim : Limits) (a : ApiAccess) (g : Gateway)
    → a.finalized ≡ false
    → Grants g (admit r now lim a g)
unfolding admit
admit-Grants r now lim a g o =
    let rate = rated r now lim a g in
    let slot = taken r now lim a g in
    elim (Bool-cases rate.1) [
      | inr no_rate ↦
          rw (admit, no_rate)
            (record {
              counts = λ key. rw (rated_same r now lim a g key) (omega arith);
              within = rated-Within r now lim a g;
              is_open = tt;
              same_cap = (check_rate-slots a.key_id now lim.rate_override g.limiter).1;
            })
      | inl in_rate ↦ elim (Bool-cases slot.1) [
        | inr no_slot ↦
            rw (admit, in_rate, no_slot)
              (record {
                counts = λ key. taken_counts r now lim a g key ∙ rw no_slot refl;
                within = taken-Within r now lim a g;
                is_open = tt;
                same_cap = taken_cap r now lim a g;
              })
        | inl has_slot ↦
            rw (admit, in_rate, has_slot)
              (Checked-Grants (record a { slot_held = true }) g (record g { limiter = slot.0 }) o
                refl (taken_cap r now lim a g)
                (λ key. taken_counts r now lim a g key ∙ rw has_slot refl)
                (taken-Within r now lim a g)
                (check_quota-Checked r now lim (record a { slot_held = true })
                  (record g { limiter = slot.0 })))
      ]
    ]

authenticate_token-limiter :
    (hash : String → String) (token : Option String) (now : ℕ) (g : Gateway)
    → (authenticate_token hash token now g).0.limiter ≡ g.limiter
unfolding authenticate_token
authenticate_token-limiter hash token now g = elim (Option-cases (truthy token)) [
  | inl a ↦ rw (authenticate_token, a) refl
  | inr (t, a) ↦ rw (authenticate_token, a) refl
]

-- The gateway before and after a step that leaves the limiter alone count alike.
Grants-from :
    (g g' : Gateway) (out : Gateway × Outcome ApiAccess)
    → g'.limiter ≡ g.limiter
    → Grants g' out
    → Grants g out
Grants-from g g' out e o = record {
  counts = λ key. o.counts key ∙ rw e refl;
  within = λ key h. o.within key (rw e h);
  is_open = o.is_open;
  same_cap = o.same_cap ∙ rw e refl;
}

Outcome-cases {ℓ} :
    {A : Type ℓ} (o : Outcome A)
    → ((d : Denied) × (o ≡ Outcome.raised d)) ⊎ ((a : A) × (o ≡ Outcome.returned a))
Outcome-cases (Outcome.raised d) = inl (d, refl)
Outcome-cases (Outcome.returned a) = inr (a, refl)

-- An authorization takes exactly the slot that it hands out, keeps every key within the limit, and
-- leaves the limit as it was.
pub authorize_token-Grants :
    (hash : String → String) (r : Request) (now : ℕ) (g : Gateway)
    → Grants g (authorize_token hash r now g)
unfolding authorize_token
authorize_token-Grants hash r now g =
    let seen = authenticate_token hash r.token now g in
    let same = authenticate_token-limiter hash r.token now g in
    elim (Outcome-cases seen.1) [
      | inl (d, a) ↦ rw (authorize_token, a) (Grants-same g seen.0 d same)
      | inr (key_id, a) ↦ elim (Bool-cases (str_eq key_id local_key_id)) [
        | inl b ↦
            rw (authorize_token, a, b)
              (record {
                counts = λ key. rw same (omega arith);
                within = λ key h. rw same h;
                is_open = refl;
                same_cap = rw same refl;
              })
        | inr b ↦ elim (Outcome-cases (resolve_limits key_id r.model seen.0)) [
          | inl (d, c) ↦ rw (authorize_token, a, b, c) (Grants-same g seen.0 d same)
          | inr (lim, c) ↦
              rw (authorize_token, a, b, c)
                (Grants-from g seen.0 _ same
                  (admit-Grants r now lim (new_access key_id r.endpoint) seen.0 refl))
        ]
      ]
    ]
