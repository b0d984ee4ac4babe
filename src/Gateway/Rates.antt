-- ===== src/Gateway/Rates.antt =====
-- The fixed-window rate limit of `Limiter.check_rate` (engine/gateway.py) over a run of calls.
use inference_engine.Prelude.{
  ℕ, suc, ◌+◌, ◌/◌, ◌≤◌, ◌<◌, ◌≡◌, ltb, min, count, refl, sym, ◌∙◌, ap, inl, inr, Bool, true, false,
  ◌&&◌, Option, none, some, List, [], ◌∷◌, String, leb, ◌==◌, ==_iff, str_eq, str_eq_iff,
  if◌then◌else◌, dict_get, dict_get-put, dict_get-put_other, arith, Bool-cases,
}
use inference_engine.Gateway.Limiting.{check_rate, current_count, or_default}
use inference_engine.Gateway.Types.{Limiter}

-- A call of `check_rate`: the key and the moment.
pub record Call : Type 0 where
  pub key : String
  pub now : ℕ

abbrev pub minute : Call → ℕ
minute c = c.now / 60

abbrev pub window : String → Limiter → Option (ℕ × ℕ)
window key l = dict_get key l.windows

-- How many of the calls for `key` in the minute `b` are allowed; `rates` is each key's override.
unfoldable pub allowed_in : (String → Option ℕ) → String → ℕ → List Call → Limiter → ℕ
allowed_in rates key b [] l = 0
allowed_in rates key b (c ∷ cs) l =
    let out = check_rate c.key c.now (rates c.key) l in
    let rest = allowed_in rates key b cs out.0 in
    if str_eq c.key key && (minute c == b) && out.1 then suc rest else rest

-- The calls are in the order of their minutes, none before the minute `m`.
abbrev pub InOrder : ℕ → List Call → Type 0
InOrder m [] = Unit
InOrder m (c ∷ cs) = (m ≤ minute c) × InOrder (minute c) cs

-- The window of `key` is of no later minute than `m`.
abbrev NoLater : ℕ → Option (ℕ × ℕ) → Type 0
NoLater m none = Unit
NoLater m (some (b, n)) = b ≤ m

abbrev pub one_if : Bool → ℕ
one_if true = 1
one_if false = 0

-- A call with a rate of `suc r` is allowed while the minute's count is below it, and then counts.
check_rate-window :
    (key : String) (now r : ℕ) (rate : Option ℕ) (l : Limiter)
    → or_default rate l.rate ≡ suc r
    → let out = check_rate key now rate l in
      let n = current_count (now / 60) (window key l) in
      (out.1 ≡ ltb n (suc r)) × (window key out.0 ≡ some (now / 60, n + one_if out.1))
unfolding check_rate
check_rate-window key now r rate l e =
    let n = current_count (now / 60) (window key l) in
    let z : (suc r == 0) ≡ false = ground arith in
    elim (Bool-cases (leb (suc r) n)) [
      | inl h ↦
          rw (check_rate, e, z, h)
            (ground arith, dict_get-put key (now / 60, n) l.windows ∙ ground arith)
      | inr h ↦
          rw (check_rate, e, z, h) (ground arith, dict_get-put key (now / 60, n + 1) l.windows)
    ]

check_rate-window_other :
    (owner key : String) (now : ℕ) (rate : Option ℕ) (l : Limiter)
    → str_eq owner key ≡ false
    → window key (check_rate owner now rate l).0 ≡ window key l
unfolding check_rate
check_rate-window_other owner key now rate l e =
    let n = current_count (now / 60) (window owner l) in
    elim (Bool-cases (or_default rate l.rate == 0)) [
      | inl z ↦ rw (check_rate, z) refl
      | inr z ↦ elim (Bool-cases (leb (or_default rate l.rate) n)) [
        | inl h ↦ rw (check_rate, z, h) (dict_get-put_other owner key (now / 60, n) l.windows e)
        | inr h ↦ rw (check_rate, z, h) (dict_get-put_other owner key (now / 60, n + 1) l.windows e)
      ]
    ]

check_rate-rate :
    (key : String) (now : ℕ) (rate : Option ℕ) (l : Limiter)
    → (check_rate key now rate l).0.rate ≡ l.rate
unfolding check_rate
check_rate-rate key now rate l = ground arith

-- The calls for `key` in the minute `b`.
abbrev pub is_asking : String → ℕ → Call → Bool
is_asking key b c = str_eq c.key key && (minute c == b)

-- Once its minute is over, nothing more is asked or allowed in it.
over :
    (rates : String → Option ℕ) (key : String) (b m : ℕ) (cs : List Call) (l : Limiter)
    → InOrder m cs
    → b < m
    → (allowed_in rates key b cs l ≡ 0) × (count (is_asking key b) cs ≡ 0)
unfolding allowed_in
over rates key b m [] l h lt = (refl, refl)
over rates key b m (c ∷ cs) l h lt =
    let ne : (minute c == b) ≡ false = ground (arith, h.0) in
    let ih =
      over rates key b (minute c) cs (check_rate c.key c.now (rates c.key) l).0 h.1 (omega arith) in
    ground (arith, ih, ne)

NoLater-mono : (m k : ℕ) (w : Option (ℕ × ℕ)) → m ≤ k → NoLater m w → NoLater k w
NoLater-mono m k none le h = tt
NoLater-mono m k (some (b, n)) le h = omega arith

-- The count that the window holds for the minute `b`.
abbrev counted : String → ℕ → Limiter → ℕ
counted key b l = current_count b (window key l)

-- A window of an earlier minute holds nothing for the minute `b`.
counted-later : (m b : ℕ) (w : Option (ℕ × ℕ)) → NoLater m w → m < b → current_count b w ≡ 0
counted-later m b none h lt = refl
counted-later m b (some (c, n)) h lt = ground arith

-- One call for the key itself, in the minute `q`, and what the later calls come to.
module _ (b m q r allowed asked : ℕ) (ok : Bool) (w w' : Option (ℕ × ℕ)) (order : m ≤ q)
    (old : NoLater m w) (le : current_count b w ≤ suc r)
    (decides : ok ≡ ltb (current_count q w) (suc r))
    (writes : w' ≡ some (q, current_count q w + one_if ok)) where
  own_call-le : current_count b w' ≤ suc r
  own_call-le = elim (Bool-cases (q == b)) [
    | inl e ↦ let k = (==_iff q b).0 e in rw writes (ground (arith, ap (λ x. current_count x w) k))
    | inr e ↦ rw writes (ground arith)
  ]

  own_call :
      allowed + current_count b w' ≡ min (current_count b w' + asked) (suc r)
      → (b < q → (allowed ≡ 0) × (asked ≡ 0))
      → (if (q == b) && ok then suc allowed else allowed) + current_count b w
        ≡ min (current_count b w + (if q == b then suc asked else asked)) (suc r)
  own_call ih past = elim (Bool-cases (q == b)) [
    | inl e ↦
        let k = (==_iff q b).0 e in
        let h = rw writes at ih in ground (arith, h, ap (λ x. current_count x w) k)
    | inr e ↦ elim (Bool-cases (ltb q b)) [
      | inl lt ↦
          let none_held = counted-later m b w old (ground arith) in
          let h = rw writes at ih in ground (arith, h, none_held)
      | inr ge ↦ let p = past (ground arith) in ground (arith, p)
    ]
  ]

-- From the minute `m` on: what the window holds already, and what is allowed from here, are
-- together all that is asked, up to the rate.
allowed_from :
    (rates : String → Option ℕ) (key : String) (b m r : ℕ) (cs : List Call) (l : Limiter)
    → InOrder m cs
    → NoLater m (window key l)
    → or_default (rates key) l.rate ≡ suc r
    → counted key b l ≤ suc r
    → allowed_in rates key b cs l + counted key b l
      ≡ min (counted key b l + count (is_asking key b) cs) (suc r)
unfolding allowed_in
allowed_from rates key b m r [] l o w e le = omega arith
allowed_from rates key b m r (c ∷ cs) l o w e le =
    let out = check_rate c.key c.now (rates c.key) l in
    let rate : out.0.rate ≡ l.rate = check_rate-rate c.key c.now (rates c.key) l in
    let e' : or_default (rates key) out.0.rate ≡ suc r = rw rate e in
    let ih = allowed_from rates key b (minute c) r cs out.0 o.1 in
    elim (Bool-cases (str_eq c.key key)) [
      | inr other ↦
          let same = check_rate-window_other c.key key c.now (rates c.key) l other in
          let k = ih (rw same (NoLater-mono m (minute c) (window key l) o.0 w)) e' (rw same le) in
          rw other (rw same at k)
      | inl own ↦
          let k = (str_eq_iff c.key key).0 own in
          let q = minute c in
          let h =
            check_rate-window c.key c.now r (rates c.key) l
              (ap (λ x. or_default (rates x) l.rate) k ∙ e) in
          let decides : out.1 ≡ ltb (counted key q l) (suc r) =
            h.0 ∙ ap (λ x. ltb (counted x q l) (suc r)) k in
          let writes : window key out.0 ≡ some (q, counted key q l + one_if out.1) =
            ap (λ x. window x out.0) (sym k)
            ∙ (h.1 ∙ ap (λ x. some (q, counted x q l + one_if out.1)) k) in
          let le' =
            own_call-le b m q r 0 0 out.1 (window key l) (window key out.0) o.0 w le decides
              writes in
          rw own (
            own_call b m q r (allowed_in rates key b cs out.0) (count (is_asking key b) cs) out.1
              (window key l) (window key out.0) o.0 w le decides writes
              (ih (rw writes (omega arith)) e' le') (λ lt. over rates key b q cs out.0 o.1 lt))
    ]

-- From a fresh limiter, with a rate `suc r` for the key and calls for any keys in the order of
-- their minutes: of the calls for the key in a minute, as many are allowed as were made, up to the
-- rate and no more.
pub allowed_in_rate :
    (rates : String → Option ℕ) (key : String) (b r : ℕ) (cs : List Call) (l : Limiter)
    → InOrder 0 cs
    → l.windows ≡ []
    → or_default (rates key) l.rate ≡ suc r
    → allowed_in rates key b cs l ≡ min (count (is_asking key b) cs) (suc r)
allowed_in_rate rates key b r cs l o fresh e =
    let w : window key l ≡ none = rw fresh refl in
    let h = allowed_from rates key b 0 r cs l o (rw w tt) e (rw w (omega arith)) in
    let z : counted key b l ≡ 0 = rw w refl in omega (arith, rw z at h)
