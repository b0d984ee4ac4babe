-- ===== src/Models/Halting.antt =====
-- The steps of the tasks do not make a download ready whose cancel was accepted
-- (engine/models/service.py).

use inference_engine.Prelude.{
  ℕ, ◌≡◌, refl, sym, subst, Bool, true, false, ◌||◌, not, Option, none, some, String, str_eq,
  str_eq_iff, Text, if-rule, set_if, dict_get, dict_get-put_other, Bool-cases, Option-cases, inl,
  inr, arith, is_null,
}
use inference_engine.Models.Download.{commit}
use inference_engine.Models.Registry.{ModelRecord, has_id, update}
use inference_engine.Models.Tasks.{
  Task, unstarted, fetching, finalizing, dropped, Service, GgufInfo, Failure, signal, end_task,
  set_cancelled, set_failed, set_ready, cancel_flag, progress, record_total, promote_file,
}
use inference_engine.Models.Events.{
  Step, begins, is_cancelled, progresses, observes, promotes, finishes, fails, step,
}
use inference_engine.Models.Stopped.{
  Halted, IsStopped, Tame, map-Tame, set_if-Tame, other-Tame, release-IsStopped, retask-IsStopped,
  reflag-IsStopped, rows-IsStopped,
}

module _ (i : String) where
  -- An update of the rows of an id, other or not ready
  update-IsStopped :
      (j : String) (s : Service) (now : ℕ) (set : ModelRecord → ModelRecord)
      → IsStopped i s
      → Tame i set
      → IsStopped i (record s { registry = update j now set s.registry })
  update-IsStopped j s now set h t = rows-IsStopped i j s h (update j now set s.registry) (
      map-Tame i (set_if (has_id j) (λ r. record (set r) { updated_at = some now })) s.registry
        (set_if-Tame i (has_id j) (λ r. record (set r) { updated_at = some now }) t) h.quiet)

  end_task-IsStopped :
      (j : String) (stored : Bool) (now : ℕ) (set : ModelRecord → ModelRecord) (s : Service)
      → IsStopped i s
      → Tame i set
      → IsStopped i (end_task stored now set j s)
  end_task-IsStopped j true now set s h t =
      release-IsStopped i j (record s { registry = update j now set s.registry })
        (update-IsStopped j s now set h t)
  end_task-IsStopped j false now set s h t = release-IsStopped i j s h

  cancelled-Tame : Tame i set_cancelled
  cancelled-Tame r h = ground arith

  failed-Tame : (stage : String) (failure : Failure) → Tame i (set_failed stage failure)
  failed-Tame stage failure r h = ground arith

  signal-IsStopped : (j : String) (s : Service) → IsStopped i s → IsStopped i (signal s j)
  signal-IsStopped j s h = elim (Option-cases (dict_get j s.cancels)) [
    | inl e ↦ rw (signal, e) h
    | inr (c, e) ↦ rw (signal, e) (reflag-IsStopped i j s h c e)
  ]

  -- The task of the cancelled download is not past its promotion.
  running-Halted :
      (j : String) (s : Service) (t : Task)
      → IsStopped i s
      → dict_get j s.tasks ≡ some t
      → str_eq j i ≡ true
      → Halted (dict_get j s.cancels) (some t)
  running-Halted j s t h e k =
      let there =
        subst (λ x. Halted (dict_get x s.cancels) (dict_get x s.tasks)) (sym ((str_eq_iff j i).0 k))
          h.halted in
      rw e at there

  finished-IsStopped :
      (j : String) (s : Service) (info : GgufInfo) (size now : ℕ) (d : Text)
      → IsStopped i s
      → dict_get j s.tasks ≡ some (finalizing d)
      → IsStopped i (end_task true now (set_ready info size d) j s)
  finished-IsStopped j s info size now d h e = elim (Bool-cases (str_eq j i)) [
    | inl k ↦ absurd (running-Halted j s (finalizing d) h e k)
    | inr k ↦
        let g : ModelRecord → ModelRecord =
          λ r. record (set_ready info size d r) { updated_at = some now } in
        release-IsStopped i j
          (record s { registry = update j now (set_ready info size d) s.registry })
          (rows-IsStopped i j s h (update j now (set_ready info size d) s.registry)
            (map-Tame i (set_if (has_id j) g) s.registry (other-Tame i j g k (λ r. refl)) h.quiet))
  ]

  promoted-IsStopped :
      (j : String) (s : Service) (stored : Bool) (now : ℕ) (digest : Text) (t : Task)
      → IsStopped i s
      → dict_get j s.tasks ≡ some t
      → IsStopped i (promote_file stored now digest j s t)
  unfolding promote_file commit
  promoted-IsStopped j s stored now digest unstarted h e = h
  promoted-IsStopped j s stored now digest (finalizing d) h e = h
  promoted-IsStopped j s stored now digest dropped h e = h
  promoted-IsStopped j s stored now digest (fetching seen) h e =
      elim (Option-cases (dict_get j s.cancels)) [
        | inl f ↦ rw (promote_file, f) h
        | inr (c, f) ↦ elim (Bool-cases c.is_set) [
          | inl k ↦
              rw (promote_file, f, k)
                (end_task-IsStopped j stored now set_cancelled s h cancelled-Tame)
          | inr k ↦ elim (Bool-cases (str_eq j i)) [
            | inl same ↦
                let set : c.is_set ≡ true = rw f at (running-Halted j s (fetching seen) h e same) in
                absurd cc
            | inr other ↦
                rw (promote_file, f, k)
                  (record {
                    quiet = h.quiet;
                    halted =
                        rw
                          (
                            dict_get-put_other j i (record { is_set = false; committed = true })
                                s.cancels other,
                            dict_get-put_other j i (finalizing digest) s.tasks other,
                          )
                          h.halted;
                  })
          ]
        ]
      ]

  total-IsStopped :
      (j : String) (s : Service) (seen : Bool) (now : ℕ) (total : Option ℕ)
      → IsStopped i s
      → IsStopped i (record s { registry = record_total seen now j total s.registry })
  total-IsStopped j s seen now none h = h
  total-IsStopped j s true now (some n) h = h
  total-IsStopped j s false now (some n) h =
      update-IsStopped j s now (λ r. record r { size_bytes = some n }) h (λ r k. k)

  progress-IsStopped :
      (j : String) (s : Service) (done : ℕ) (total : Option ℕ) (due : Bool) (now : ℕ) (t : Task)
      → IsStopped i s
      → dict_get j s.tasks ≡ some t
      → IsStopped i (progress done total due now j s t)
  progress-IsStopped j s done total due now unstarted h e = h
  progress-IsStopped j s done total due now (finalizing d) h e = h
  progress-IsStopped j s done total due now dropped h e = h
  progress-IsStopped j s done total due now (fetching seen) h e =
      let sized = total-IsStopped j s seen now total h in
      if-rule (IsStopped i) (cancel_flag s j) (λ k. h)
        (λ k.
          retask-IsStopped i j _
            (if-rule (λ rows. IsStopped i (record s { registry = rows })) due
              (λ l.
                update-IsStopped j _ now (λ r. record r { downloaded_bytes = done }) sized
                  (λ r k. k))
              (λ l. sized))
            (fetching seen) (fetching (seen || not (is_null total))) e (λ c a. a))

  pub step-IsStopped :
      (j : String) (s : Service) (k : Step) (t : Task)
      → IsStopped i s
      → dict_get j s.tasks ≡ some t
      → IsStopped i (step k j s t)
  unfolding step
  step-IsStopped j s begins unstarted h e =
      retask-IsStopped i j s h unstarted (fetching false) e (λ c a. a)
  step-IsStopped j s begins (fetching seen) h e = h
  step-IsStopped j s begins (finalizing d) h e = h
  step-IsStopped j s begins dropped h e = h
  step-IsStopped j s is_cancelled unstarted h e =
      retask-IsStopped i j s h unstarted dropped e (λ c a. a)
  step-IsStopped j s is_cancelled (fetching seen) h e = signal-IsStopped j s h
  step-IsStopped j s is_cancelled (finalizing d) h e = signal-IsStopped j s h
  step-IsStopped j s is_cancelled dropped h e = h
  step-IsStopped j s (progresses done total due now) t h e =
      progress-IsStopped j s done total due now t h e
  step-IsStopped j s (observes stored now) unstarted h e = h
  step-IsStopped j s (observes stored now) (finalizing d) h e = h
  step-IsStopped j s (observes stored now) dropped h e = h
  step-IsStopped j s (observes stored now) (fetching seen) h e =
      if-rule (IsStopped i) (cancel_flag s j)
        (λ k. end_task-IsStopped j stored now set_cancelled s h cancelled-Tame) (λ k. h)
  step-IsStopped j s (promotes stored now digest) t h e =
      promoted-IsStopped j s stored now digest t h e
  step-IsStopped j s (finishes info size now) unstarted h e = h
  step-IsStopped j s (finishes info size now) (fetching seen) h e = h
  step-IsStopped j s (finishes info size now) dropped h e = h
  step-IsStopped j s (finishes info size now) (finalizing d) h e =
      finished-IsStopped j s info size now d h e
  step-IsStopped j s (fails stored now failure) unstarted h e = h
  step-IsStopped j s (fails stored now failure) dropped h e = h
  step-IsStopped j s (fails stored now failure) (fetching seen) h e =
      end_task-IsStopped j stored now (set_failed "download" failure) s h
        (failed-Tame "download" failure)
  step-IsStopped j s (fails stored now failure) (finalizing d) h e =
      end_task-IsStopped j stored now (set_failed "finalize" failure) s h
        (failed-Tame "finalize" failure)
