-- ===== src/Models/Stopped.antt =====
-- A download whose cancel was accepted, under the steps of the tasks (engine/models/service.py).
use inference_engine.Prelude.{
  ◌≡◌, refl, ap, ◌∙◌, subst, Bool, true, false, ◌&&◌, not, Option, none, some, List, [], ◌∷◌,
  String, str_eq, str_eq_iff, all, if-rule, map, set_if, dict_get, dict_put, dict_pop, dict_get-put,
  dict_get-put_other, dict_get-pop, dict_get-pop_other, Bool-cases, inl, inr, arith,
}
use inference_engine.Models.Download.{CancelEvent, request}
use inference_engine.Models.Registry.{
  ModelStatus, downloading, verifying, ready, error, cancelled, ModelRecord, has_id,
}
use inference_engine.Models.Tasks.{Task, unstarted, fetching, finalizing, dropped, Service, release}

abbrev pub is_ready : ModelStatus → Bool
is_ready downloading = false
is_ready verifying = false
is_ready ready = true
is_ready error = false
is_ready cancelled = false

-- A row of this id is not ready.
abbrev pub is_quiet : String → ModelRecord → Bool
is_quiet i r = not (has_id i r && is_ready r.status)

abbrev pub flagged : Option CancelEvent → Bool
flagged none = true
flagged (some c) = c.is_set

-- Nothing runs, or what runs is cancelled before its file is promoted.
abbrev pub Halted : Option CancelEvent → Option Task → Type 0
Halted c none = Unit
Halted c (some unstarted) = flagged c ≡ true
Halted c (some (fetching seen)) = flagged c ≡ true
Halted c (some dropped) = flagged c ≡ true
Halted c (some (finalizing digest)) = ⊥

pub record IsStopped (i : String) (s : Service) : Type 0 where
  pub quiet : all (is_quiet i) s.registry ≡ true
  pub halted : Halted (dict_get i s.cancels) (dict_get i s.tasks)

module _ (i : String) where
  -- An update that makes no row of this id ready
  abbrev pub Tame : (ModelRecord → ModelRecord) → Type 0
  Tame g = (r : ModelRecord) → is_quiet i r ≡ true → is_quiet i (g r) ≡ true

  pub map-Tame :
      (g : ModelRecord → ModelRecord) (rows : List ModelRecord)
      → Tame g
      → all (is_quiet i) rows ≡ true
      → all (is_quiet i) (map g rows) ≡ true
  map-Tame g [] t h = refl
  map-Tame g (r ∷ rows) t h =
      let first = t r (ground (arith, h)) in
      let rest = map-Tame g rows t (ground (arith, h)) in rw (first, rest) refl

  pub set_if-Tame :
      (p : ModelRecord → Bool) (g : ModelRecord → ModelRecord) → Tame g → Tame (set_if p g)
  set_if-Tame p g t r h = if-rule (λ z. is_quiet i z ≡ true) (p r) (λ k. t r h) (λ k. h)

  -- An update of the rows of another id
  pub other-Tame :
      (j : String) (g : ModelRecord → ModelRecord)
      → str_eq j i ≡ false
      → ((r : ModelRecord) → (g r).id ≡ r.id)
      → Tame (set_if (has_id j) g)
  other-Tame j g apart same r h =
      if-rule (λ z. is_quiet i z ≡ true) (has_id j r)
        (λ k.
          let e : has_id i (g r) ≡ false =
            ap (λ x. str_eq x i) (same r ∙ (str_eq_iff r.id j).0 k) ∙ apart in
          ground (arith, e))
        (λ k. h)

  module _ (j : String) (s : Service) (h : IsStopped i s) where
    pub release-IsStopped : IsStopped i (release s j)
    release-IsStopped = record {
      quiet = h.quiet;
      halted = elim (Bool-cases (str_eq j i)) [
        | inl e ↦
            subst
              (λ x. Halted (dict_get x (dict_pop j s.cancels)) (dict_get x (dict_pop j s.tasks)))
              ((str_eq_iff j i).0 e) (rw (dict_get-pop j s.tasks) tt)
        | inr e ↦ rw (dict_get-pop_other j i s.cancels e, dict_get-pop_other j i s.tasks e) h.halted
      ];
    }

    pub retask-IsStopped :
        (t t' : Task)
        → dict_get j s.tasks ≡ some t
        → ((c : Option CancelEvent) → Halted c (some t) → Halted c (some t'))
        → IsStopped i (record s { tasks = dict_put j t' s.tasks })
    retask-IsStopped t t' e f = record {
      quiet = h.quiet;
      halted = elim (Bool-cases (str_eq j i)) [
        | inl k ↦
            let same : j ≡ i = (str_eq_iff j i).0 k in
            let now : dict_get i (dict_put j t' s.tasks) ≡ some t' =
              subst (λ x. dict_get x (dict_put j t' s.tasks) ≡ some t') same
                (dict_get-put j t' s.tasks) in
            let before : dict_get i s.tasks ≡ some t =
              subst (λ x. dict_get x s.tasks ≡ some t) same e in
            rw now (f (dict_get i s.cancels) (rw before at h.halted))
        | inr k ↦ rw (dict_get-put_other j i t' s.tasks k) h.halted
      ];
    }

    pub request-Halted :
        (c : CancelEvent) (t : Option Task) → Halted (some c) t → Halted (some (request c).0) t
    unfolding request
    request-Halted c none k = k
    request-Halted c (some unstarted) k =
        if-rule (λ (p : CancelEvent × Bool). p.0.is_set ≡ true) c.committed (λ e. k) (λ e. refl)
    request-Halted c (some (fetching seen)) k =
        if-rule (λ (p : CancelEvent × Bool). p.0.is_set ≡ true) c.committed (λ e. k) (λ e. refl)
    request-Halted c (some dropped) k =
        if-rule (λ (p : CancelEvent × Bool). p.0.is_set ≡ true) c.committed (λ e. k) (λ e. refl)
    request-Halted c (some (finalizing d)) k = k

    pub reflag-IsStopped :
        (c : CancelEvent)
        → dict_get j s.cancels ≡ some c
        → IsStopped i (record s { cancels = dict_put j (request c).0 s.cancels })
    reflag-IsStopped c e = record {
      quiet = h.quiet;
      halted = elim (Bool-cases (str_eq j i)) [
        | inl k ↦
            let same : j ≡ i = (str_eq_iff j i).0 k in
            let now : dict_get i (dict_put j (request c).0 s.cancels) ≡ some (request c).0 =
              subst (λ x. dict_get x (dict_put j (request c).0 s.cancels) ≡ some (request c).0) same
                (dict_get-put j (request c).0 s.cancels) in
            let before : dict_get i s.cancels ≡ some c =
              subst (λ x. dict_get x s.cancels ≡ some c) same e in
            rw now (request-Halted c (dict_get i s.tasks) (rw before at h.halted))
        | inr k ↦ rw (dict_get-put_other j i (request c).0 s.cancels k) h.halted
      ];
    }

    pub rows-IsStopped :
        (rows : List ModelRecord)
        → all (is_quiet i) rows ≡ true
        → IsStopped i (record s { registry = rows })
    rows-IsStopped rows q = record { quiet = q; halted = h.halted }
