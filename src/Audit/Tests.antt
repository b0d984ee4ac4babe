-- ===== src/Audit/Tests.antt =====
-- Logs of one and two events, with functions in place of those of json and hashlib.
use inference_engine.Prelude.{
  ℕ, zero, suc, ◌+◌, ◌*◌, ◌≡◌, refl, ap, arith, Option, none, some, [], ◌∷◌, ◌++◌, length, Text,
  codes, ◌⊎◌,
}
use inference_engine.Audit.{Codec, Log, Entry, genesis_hash, insert_event, record_event, verify_log}
use inference_engine.Audit.Chain.{intact, broken_at, Reports, verify_log-Reports}
use inference_engine.Audit.Race.{record_all, verify_log-record_all, interleaved_records}
use inference_engine.Audit.Tamper.{append_inj, IsExact, SameRows, Collision, verify_log-SameRows}

abbrev weigh : ℕ → Text → ℕ
weigh n [] = n
weigh n (x ∷ xs) = weigh (n * 3 + x + 1) xs

abbrev digits_of : ℕ → ℕ → Text
digits_of zero n = []
digits_of (suc k) n = n ∷ digits_of k 0

-- A text after its length, and one that may be missing
abbrev sized : Text → Text
sized t = length t ∷ t

abbrev optional : Option Text → Text
optional none = 0 ∷ []
optional (some t) = 1 ∷ sized t

-- Details are texts here.
abbrev toy : Codec Text
toy = record {
  canonical = λ ts actor action target detail.
      sized ts ++ (sized actor ++ (sized action ++ (optional target ++ detail)));
  dumps = λ d. d;
  loads = λ t. some t;
  sha256 = λ t. digits_of 64 (weigh 0 t);
}

sized_inj : (s t u v : Text) → sized s ++ u ≡ sized t ++ v → (s ≡ t) × (u ≡ v)
sized_inj s t u v e =
    let heads : length s ≡ length t = cc in
    let tails : s ++ u ≡ t ++ v = cc in append_inj s t u v heads tails

optional_inj :
    (s t : Option Text) (u v : Text) → optional s ++ u ≡ optional t ++ v → (s ≡ t) × (u ≡ v)
optional_inj none none u v e = let tails : u ≡ v = cc in (refl, tails)
optional_inj none (some t) u v e = let heads : zero ≡ suc zero = cc in absurd (omega (arith, heads))
optional_inj (some s) none u v e = let heads : suc zero ≡ zero = cc in absurd (omega (arith, heads))
optional_inj (some s) (some t) u v e =
    let tails : sized s ++ u ≡ sized t ++ v = cc in
    let r = sized_inj s t u v tails in (ap some r.0, r.1)

toy-IsExact : IsExact toy
toy-IsExact x y e =
    let a =
      sized_inj x.ts y.ts (sized x.actor ++ (sized x.action ++ (optional x.target ++ x.detail)))
        (sized y.actor ++ (sized y.action ++ (optional y.target ++ y.detail))) e in
    let b =
      sized_inj x.actor y.actor (sized x.action ++ (optional x.target ++ x.detail))
        (sized y.action ++ (optional y.target ++ y.detail)) a.1 in
    let n =
      sized_inj x.action y.action (optional x.target ++ x.detail) (optional y.target ++ y.detail)
        b.1 in
    let o = optional_inj x.target y.target x.detail y.detail n.1 in (a.0, b.0, n.0, o.0, o.1)

abbrev entry : Text → Entry Text
entry action = record {
  ts = codes "1";
  actor = codes "cli";
  action = action;
  target = none;
  detail = codes "{}";
}

abbrev fresh : Log
fresh = record { rows = []; last_id = 0 }

fresh_verifies : verify_log toy fresh ≡ some (intact 0)
unfolding verify_log
fresh_verifies = refl

verify_log-record_all_example :
    verify_log toy (record_all toy (entry (codes "a") ∷ entry (codes "b") ∷ []) fresh)
    ≡ some (intact 2)
verify_log-record_all_example =
    verify_log-record_all toy (λ d. refl) (entry (codes "a") ∷ entry (codes "b") ∷ []) 0 fresh
      fresh_verifies

interleaved_records_example :
    verify_log toy (
      insert_event toy genesis_hash
        (entry (codes "b"))
        (insert_event toy genesis_hash (entry (codes "a")) fresh))
    ≡ some (broken_at 2 2)
interleaved_records_example =
    interleaved_records toy (λ d. refl) (entry (codes "a")) (entry (codes "b")) 0 fresh
      fresh_verifies (λ h. cc)

verify_log-Reports_example :
    Reports toy genesis_hash 0
      (record_event toy (entry (codes "a")) fresh).rows
      (verify_log toy (record_event toy (entry (codes "a")) fresh))
verify_log-Reports_example = verify_log-Reports toy (record_event toy (entry (codes "a")) fresh)

wide : (t : Text) → length (toy.sha256 t) ≡ 64
wide t = refl

abbrev one_event : Log
one_event = record_all toy (entry (codes "a") ∷ []) fresh

one_verifies : verify_log toy one_event ≡ some (intact 1)
one_verifies = verify_log-record_all toy (λ d. refl) (entry (codes "a") ∷ []) 0 fresh fresh_verifies

verify_log-SameRows_example :
    SameRows toy one_event.rows one_event.rows ⊎ Collision toy one_event.rows one_event.rows
verify_log-SameRows_example =
    verify_log-SameRows toy toy-IsExact wide 1 one_event one_event one_verifies one_verifies refl

-- Deleting the newest events leaves a log that verifies.
truncated_verifies : verify_log toy (record one_event { rows = [] }) ≡ some (intact 0)
unfolding verify_log
truncated_verifies = refl
