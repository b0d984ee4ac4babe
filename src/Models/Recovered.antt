-- ===== src/Models/Recovered.antt =====
-- `reconcile_interrupted` (engine/models/service.py) against what it is to do to each row.
use inference_engine.Prelude.{
  ℕ, ◌≡◌, refl, sym, ap, ◌∙◌, subst, Bool, true, false, ◌&&◌, ◌||◌, not, In, some, List, [], ◌∷◌,
  String, str_eq, str_eq_iff, str_eq_self, any, all, if◌then◌else◌, map, set_if, update_where,
  Bool-cases, inl, inr, arith,
}
use inference_engine.Models.Registry.{ModelRecord, error, has_id, is_running, mark_interrupted}
use inference_engine.Models.Tasks.{
  Service, changed, has_task, interrupted, reconcile_rows, reconcile_interrupted,
}

-- A row that another engine left running
abbrev pub is_abandoned : (String → Bool) → ModelRecord → Bool
is_abandoned owned r = is_running r.status && not (owned r.id)

abbrev pub abandon : ℕ → ModelRecord → ModelRecord
abandon now r = record r { status = error; error = some interrupted; updated_at = some now }

module _ (p : ModelRecord → Bool) (f : ModelRecord → ModelRecord) (q : ModelRecord) where
  pub set_if-true : p q ≡ true → set_if p f q ≡ f q
  set_if-true e = rw e refl

  pub set_if-false : p q ≡ false → set_if p f q ≡ q
  set_if-false e = rw e refl

map-map :
    (f g h : ModelRecord → ModelRecord) (rows : List ModelRecord)
    → ((r : ModelRecord) → f (g r) ≡ h r)
    → map f (map g rows) ≡ map h rows
map-map f g h [] e = refl
map-map f g h (r ∷ rows) e = rw (e r, map-map f g h rows e) refl

map_same :
    (f h : ModelRecord → ModelRecord) (rows : List ModelRecord)
    → ((r : ModelRecord) → f r ≡ h r)
    → map f rows ≡ map h rows
map_same f h [] e = refl
map_same f h (r ∷ rows) e = rw (e r, map_same f h rows e) refl

module _ (now : ℕ) (owned : String → Bool) where
  -- Whether a row of the list marks this row of the table
  abbrev marks : List ModelRecord → ModelRecord → Bool
  marks rs q = any (λ r. is_abandoned owned r && str_eq q.id r.id) rs && is_running q.status

  abbrev hit : ModelRecord → ModelRecord → Bool
  hit r q = has_id r.id q && is_running q.status

  marked_twice :
      (r : ModelRecord) (rs : List ModelRecord) (q : ModelRecord)
      → is_abandoned owned r ≡ true
      → set_if (marks rs) (abandon now) (set_if (hit r) (abandon now) q)
        ≡ set_if (marks (r ∷ rs)) (abandon now) q
  marked_twice r rs q h = elim (Bool-cases (hit r q)) [
    | inl e ↦
        let inner = ap (set_if (marks rs) (abandon now)) (set_if-true (hit r) (abandon now) q e) in
        let settled : marks rs (abandon now q) ≡ false = ground arith in
        let all_of : marks (r ∷ rs) q ≡ true = ground (arith, h, e) in
        inner
        ∙ set_if-false (marks rs) (abandon now) (abandon now q) settled
        ∙ sym (set_if-true (marks (r ∷ rs)) (abandon now) q all_of)
    | inr e ↦
        let inner = ap (set_if (marks rs) (abandon now)) (set_if-false (hit r) (abandon now) q e) in
        let same : marks rs q ≡ marks (r ∷ rs) q = ground (arith, h, e) in
        inner ∙ ap (λ b. if b then abandon now q else q) same
  ]

  unmarked :
      (r : ModelRecord) (rs : List ModelRecord) (q : ModelRecord)
      → is_abandoned owned r ≡ false
      → set_if (marks rs) (abandon now) q ≡ set_if (marks (r ∷ rs)) (abandon now) q
  unmarked r rs q h =
      ap (λ b. if (b && is_running q.status) then abandon now q else q) (ground (arith, h))

  skipped_iff :
      (r : ModelRecord) → (not (is_running r.status) || owned r.id) ≡ not (is_abandoned owned r)
  skipped_iff r = ground arith

  loop_lem :
      (rs table : List ModelRecord) (n : ℕ)
      → (reconcile_rows now owned rs table n).0 ≡ update_where (marks rs) (abandon now) table
  unfolding reconcile_rows
  loop_lem [] table n = sym (unchanged table)
    where
      unchanged : (rows : List ModelRecord) → update_where (marks []) (abandon now) rows ≡ rows
      unchanged [] = refl
      unchanged (q ∷ rows) = ap (λ rest. q ∷ rest) (unchanged rows)
  loop_lem (r ∷ rs) table n = elim (Bool-cases (is_abandoned owned r)) [
    | inl e ↦
        let k : (not (is_running r.status) || owned r.id) ≡ false = ground (arith, e) in
        rw (reconcile_rows, k)
          (loop_lem rs (mark_interrupted r.id now interrupted table).0 _
            ∙ map-map (set_if (marks rs) (abandon now)) (set_if (hit r) (abandon now))
                (set_if (marks (r ∷ rs)) (abandon now)) table (λ q. marked_twice r rs q e))
    | inr e ↦
        let k : (not (is_running r.status) || owned r.id) ≡ true = ground (arith, e) in
        rw (reconcile_rows, k)
          (loop_lem rs table n
            ∙ map_same (set_if (marks rs) (abandon now)) (set_if (marks (r ∷ rs)) (abandon now))
                table (λ q. unmarked r rs q e))
  ]

  any-In :
      (p : ModelRecord → Bool) (q : ModelRecord) (rows : List ModelRecord)
      → In q rows
      → p q ≡ true
      → any p rows ≡ true
  any-In p q [] m h = elim m [ ]
  any-In p q (r ∷ rows) (inl e) h = rw (← e, h) refl
  any-In p q (r ∷ rows) (inr m) h = ground (arith, any-In p q rows m h)

  owned_unmarked :
      (q : ModelRecord) (rows : List ModelRecord)
      → owned q.id ≡ true
      → any (λ r. is_abandoned owned r && str_eq q.id r.id) rows ≡ false
  owned_unmarked q [] h = refl
  owned_unmarked q (r ∷ rows) h = elim (Bool-cases (str_eq q.id r.id)) [
    | inl e ↦
        let k : owned r.id ≡ true = rw (← (str_eq_iff q.id r.id).0 e) h in
        ground (arith, k, owned_unmarked q rows h)
    | inr e ↦ ground (arith, e, owned_unmarked q rows h)
  ]

  marks-In :
      (q : ModelRecord) (rows : List ModelRecord) → In q rows → marks rows q ≡ is_abandoned owned q
  marks-In q rows m = elim (Bool-cases (is_abandoned owned q)) [
    | inl e ↦
        let p : any (λ r. is_abandoned owned r && str_eq q.id r.id) rows ≡ true =
          any-In (λ r. is_abandoned owned r && str_eq q.id r.id) q rows m
            (rw (e, str_eq_self q.id) refl) in
        ground (arith, e, p)
    | inr e ↦ elim (Bool-cases (owned q.id)) [
      | inl k ↦ ground (arith, e, owned_unmarked q rows k)
      | inr k ↦ ground (arith, e, k)
    ]
  ]

  all_marked :
      (all_rows rows : List ModelRecord)
      → ((q : ModelRecord) → In q rows → In q all_rows)
      → update_where (marks all_rows) (abandon now) rows
        ≡ update_where (is_abandoned owned) (abandon now) rows
  all_marked all_rows [] f = refl
  all_marked all_rows (q ∷ rows) f =
      ap2 (ap (λ b. if b then abandon now q else q) (marks-In q all_rows (f q (inl refl))))
        (all_marked all_rows rows (λ r m. f r (inr m)))
    where
      ap2 : {x y : ModelRecord} {xs ys : List ModelRecord} → x ≡ y → xs ≡ ys → x ∷ xs ≡ y ∷ ys
      ap2 e k = rw (e, k) refl

  settled_rows :
      (rows table : List ModelRecord) (n : ℕ)
      → all (λ r. not (is_abandoned owned r)) rows ≡ true
      → reconcile_rows now owned rows table n ≡ (table, n)
  unfolding reconcile_rows
  settled_rows [] table n h = refl
  settled_rows (r ∷ rows) table n h =
      let k : (not (is_running r.status) || owned r.id) ≡ true = ground (arith, h) in
      rw (reconcile_rows, k) (settled_rows rows table n (ground (arith, h)))

  none_left :
      (rows : List ModelRecord)
      → all (λ r. not (is_abandoned owned r)) (update_where (is_abandoned owned) (abandon now) rows)
        ≡ true
  none_left [] = refl
  none_left (r ∷ rows) = elim (Bool-cases (is_abandoned owned r)) [
    | inl e ↦ rw e (none_left rows)
    | inr e ↦ rw (e, e) (none_left rows)
  ]

-- A startup marks exactly the rows that are recorded as downloading or verifying and that no task of
-- this process has, each as an error with the fixed text, and leaves every other row as it is.
pub reconcile_interrupted_lem :
    (now : ℕ) (s : Service)
    → (reconcile_interrupted now s).0
      ≡ record s { registry = update_where (is_abandoned (has_task s)) (abandon now) s.registry }
unfolding reconcile_interrupted
reconcile_interrupted_lem now s =
    ap (λ rows. record s { registry = rows })
      (loop_lem now (has_task s) s.registry s.registry 0
        ∙ all_marked now (has_task s) s.registry s.registry (λ q m. m))

-- Reconciling again, at any later time, changes nothing and reports no row.
pub reconcile_interrupted_again :
    (now later : ℕ) (s : Service)
    → reconcile_interrupted later (reconcile_interrupted now s).0
      ≡ ((reconcile_interrupted now s).0, changed 0)
unfolding reconcile_interrupted
reconcile_interrupted_again now later s =
    let rows = update_where (is_abandoned (has_task s)) (abandon now) s.registry in
    let same =
      settled_rows later (has_task s) rows rows 0 (none_left now (has_task s) s.registry) in
    subst (λ z. reconcile_interrupted later z ≡ (z, changed 0))
      (sym (reconcile_interrupted_lem now s))
      (ap (λ (p : List ModelRecord × ℕ). (record s { registry = p.0 }, changed p.1)) same)
