-- ===== src/Gateway/Settling.antt =====
-- Ending a request: `ApiAccess.finalize` and `ApiAccess.abort` of engine/gateway.py give back the
-- slot that the access holds, and no other.
use inference_engine.Prelude.{
  ℕ, ◌-◌, ◌≡◌, refl, ◌∙◌, inl, inr, Bool, true, false, ◌&&◌, Option, String, str_eq, arith,
  Bool-cases,
}
use inference_engine.Gateway.{abort, finalize}
use inference_engine.Gateway.Limiting.{inflight_of, release}
use inference_engine.Gateway.Slots.{inflight_of-release}
use inference_engine.Gateway.Types.{Limiter, Gateway, ApiAccess}

-- The access holds a slot of the key.
abbrev pub holds : String → ApiAccess → Bool
holds key a = a.slot_held && str_eq a.key_id key

abbrev pub one_if : Bool → ℕ
one_if true = 1
one_if false = 0

-- A finalized access holds nothing.
abbrev pub IsCoherent : ApiAccess → Type 0
IsCoherent a = (a.finalized && a.slot_held) ≡ false

-- What ending an access does: its slot is free, and no other.
pub record Settles (a : ApiAccess) (g : Gateway) (out : ApiAccess × Gateway) : Type 0 where
  pub frees :
      (key : String)
      → inflight_of key out.1.limiter ≡ inflight_of key g.limiter - one_if (holds key a)
  pub has_none : out.0.slot_held ≡ false
  pub same_cap : out.1.limiter.max_concurrent ≡ g.limiter.max_concurrent

release-cap : (owner : String) (l : Limiter) → (release owner l).max_concurrent ≡ l.max_concurrent
unfolding release
release-cap owner l = ground arith

release-frees :
    (key owner : String) (l : Limiter)
    → inflight_of key (release owner l) ≡ inflight_of key l - one_if (str_eq owner key)
release-frees key owner l = elim (Bool-cases (str_eq owner key)) [
  | inl e ↦ inflight_of-release owner key l ∙ rw e refl
  | inr e ↦ inflight_of-release owner key l ∙ rw e (omega arith)
]

pub abort-Settles : (a : ApiAccess) (g : Gateway) → IsCoherent a → Settles a g (abort a g)
unfolding abort
abort-Settles a g c = elim (Bool-cases a.finalized) [
  | inl f ↦
      let s : a.slot_held ≡ false = rw f at c in
      rw (abort, f) (record { frees = λ key. rw s (omega arith); has_none = s; same_cap = refl })
  | inr f ↦ elim (Bool-cases a.slot_held) [
    | inl s ↦
        rw (abort, f, s)
          (record {
            frees = λ key. release-frees key a.key_id g.limiter;
            has_none = refl;
            same_cap = release-cap a.key_id g.limiter;
          })
    | inr s ↦
        rw (abort, f, s) (record { frees = λ key. omega arith; has_none = refl; same_cap = refl })
  ]
]

pub finalize-Settles :
    (request_id : String) (model : Option String) (prompt completion status now : ℕ)
    (written : Bool) (a : ApiAccess) (g : Gateway)
    → IsCoherent a
    → Settles a g (finalize request_id model prompt completion status now written a g)
unfolding finalize
finalize-Settles request_id model prompt completion status now written a g c =
    elim (Bool-cases a.finalized) [
      | inl f ↦
          let s : a.slot_held ≡ false = rw f at c in
          rw (finalize, f)
            (record { frees = λ key. rw s (omega arith); has_none = s; same_cap = refl })
      | inr f ↦ elim (Bool-cases a.slot_held) [
        | inl s ↦
            let freed = λ (key : String). release-frees key a.key_id g.limiter in
            let cap = release-cap a.key_id g.limiter in
            elim (Bool-cases written) [
              | inl w ↦
                  rw (finalize, f, s, w) (record { frees = freed; has_none = refl; same_cap = cap })
              | inr w ↦
                  rw (finalize, f, s, w) (record { frees = freed; has_none = refl; same_cap = cap })
            ]
        | inr s ↦ elim (Bool-cases written) [
          | inl w ↦
              rw (finalize, f, s, w)
                (record { frees = λ key. omega arith; has_none = refl; same_cap = refl })
          | inr w ↦
              rw (finalize, f, s, w)
                (record { frees = λ key. omega arith; has_none = refl; same_cap = refl })
        ]
      ]
    ]
