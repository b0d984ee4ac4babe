-- ===== src/Models/Steps.antt =====
-- The steps of the download tasks (engine/models/service.py) keep what the service owns.
use inference_engine.Prelude.{
  ℕ, ◌≡◌, refl, Bool, true, false, ◌||◌, not, Option, none, some, List, String, Text, if◌then◌else◌,
  dict_get, Bool-cases, Option-cases, inl, inr, is_null, if-rule, set_if,
}
use inference_engine.Models.Download.{commit}
use inference_engine.Models.Registry.{ModelRecord, has_id, update, add_progress}
use inference_engine.Models.Tasks.{
  Task, unstarted, fetching, finalizing, dropped, Service, signal, end_task, set_cancelled,
  set_failed, set_ready, cancel_flag, progress, record_total, promote_file,
}
use inference_engine.Models.Events.{
  Step, begins, is_cancelled, progresses, observes, promotes, finishes, fails, step,
}
use inference_engine.Models.Owned.{IsValid}
use inference_engine.Models.Held.{Keeps, set_if-Keeps}
use inference_engine.Models.Kept.{
  release-IsValid, retask-IsValid, reflag-IsValid, promote-IsValid, map-IsValid,
}

module _ (path_key : Text → Text) (i : String) where
  -- An update of rows that keeps their ids and paths
  update-IsValid :
      (s : Service) (now : ℕ) (set : ModelRecord → ModelRecord)
      → IsValid path_key s
      → Keeps set
      → IsValid path_key (record s { registry = update i now set s.registry })
  update-IsValid s now set v k =
      map-IsValid path_key s v (set_if (has_id i) (λ r. record (set r) { updated_at = some now }))
        (set_if-Keeps (has_id i) (λ r. record (set r) { updated_at = some now }) k)

  end_task-IsValid :
      (stored : Bool) (now : ℕ) (set : ModelRecord → ModelRecord) (s : Service)
      → IsValid path_key s
      → Keeps set
      → IsValid path_key (end_task stored now set i s)
  end_task-IsValid true now set s v k =
      release-IsValid path_key (record s { registry = update i now set s.registry })
        (update-IsValid s now set v k) i
  end_task-IsValid false now set s v k = release-IsValid path_key s v i

  signal-IsValid : (s : Service) → IsValid path_key s → IsValid path_key (signal s i)
  signal-IsValid s v = elim (Option-cases (dict_get i s.cancels)) [
    | inl e ↦ rw (signal, e) v
    | inr (c, e) ↦ rw (signal, e) (reflag-IsValid path_key s v i c e)
  ]

  module _ (s : Service) (v : IsValid path_key s) where
    total-IsValid :
        (seen : Bool) (now : ℕ) (total : Option ℕ)
        → IsValid path_key (record s { registry = record_total seen now i total s.registry })
    total-IsValid seen now none = v
    total-IsValid true now (some n) = v
    total-IsValid false now (some n) =
        update-IsValid s now (λ r. record r { size_bytes = some n }) v (λ r. (refl, refl))

    progress-IsValid :
        (done : ℕ) (total : Option ℕ) (due : Bool) (now : ℕ) (t : Task)
        → dict_get i s.tasks ≡ some t
        → IsValid path_key (progress done total due now i s t)
    progress-IsValid done total due now unstarted e = v
    progress-IsValid done total due now (finalizing digest) e = v
    progress-IsValid done total due now dropped e = v
    progress-IsValid done total due now (fetching seen) e =
        let rows : List ModelRecord = record_total seen now i total s.registry in
        let sized = total-IsValid seen now total in
        let added : IsValid path_key
            (record s { registry = if due then add_progress i now done rows else rows }) =
          if-rule (λ rows. IsValid path_key (record s { registry = rows })) due
            (λ k.
              update-IsValid (record s { registry = rows }) now
                (λ r. record r { downloaded_bytes = done }) sized (λ r. (refl, refl)))
            (λ k. sized) in
        if-rule (IsValid path_key) (cancel_flag s i) (λ k. v)
          (λ k.
            retask-IsValid path_key
              (record s { registry = if due then add_progress i now done rows else rows }) added i
              (fetching seen) (fetching (seen || not (is_null total))) e (λ c a. a))

    promote_file-IsValid :
        (stored : Bool) (now : ℕ) (digest : Text) (t : Task)
        → dict_get i s.tasks ≡ some t
        → IsValid path_key (promote_file stored now digest i s t)
    unfolding promote_file commit
    promote_file-IsValid stored now digest unstarted e = v
    promote_file-IsValid stored now digest (finalizing d) e = v
    promote_file-IsValid stored now digest dropped e = v
    promote_file-IsValid stored now digest (fetching seen) e =
        elim (Option-cases (dict_get i s.cancels)) [
          | inl none_left ↦ rw (promote_file, none_left) v
          | inr (c, f) ↦ elim (Bool-cases c.is_set) [
            | inl k ↦
                rw (promote_file, f, k)
                  (end_task-IsValid stored now set_cancelled s v (λ r. (refl, refl)))
            | inr k ↦
                rw (promote_file, f, k)
                  (promote-IsValid path_key s v i c (record { is_set = false; committed = true })
                    (fetching seen) (finalizing digest) f e (refl, refl))
          ]
        ]

    -- Each step of a task that the service has keeps the ownership.
    pub step-IsValid :
        (k : Step) (t : Task) → dict_get i s.tasks ≡ some t → IsValid path_key (step k i s t)
    unfolding step
    step-IsValid begins unstarted e =
        retask-IsValid path_key s v i unstarted (fetching false) e (λ c a. a)
    step-IsValid begins (fetching seen) e = v
    step-IsValid begins (finalizing d) e = v
    step-IsValid begins dropped e = v
    step-IsValid is_cancelled unstarted e =
        retask-IsValid path_key s v i unstarted dropped e (λ c a. a)
    step-IsValid is_cancelled (fetching seen) e = signal-IsValid s v
    step-IsValid is_cancelled (finalizing d) e = signal-IsValid s v
    step-IsValid is_cancelled dropped e = v
    step-IsValid (progresses done total due now) t e = progress-IsValid done total due now t e
    step-IsValid (observes stored now) unstarted e = v
    step-IsValid (observes stored now) (finalizing d) e = v
    step-IsValid (observes stored now) dropped e = v
    step-IsValid (observes stored now) (fetching seen) e =
        if-rule (IsValid path_key) (cancel_flag s i)
          (λ k. end_task-IsValid stored now set_cancelled s v (λ r. (refl, refl))) (λ k. v)
    step-IsValid (promotes stored now digest) t e = promote_file-IsValid stored now digest t e
    step-IsValid (finishes info size now) unstarted e = v
    step-IsValid (finishes info size now) (fetching seen) e = v
    step-IsValid (finishes info size now) dropped e = v
    step-IsValid (finishes info size now) (finalizing d) e =
        end_task-IsValid true now (set_ready info size d) s v (λ r. (refl, refl))
    step-IsValid (fails stored now failure) unstarted e = v
    step-IsValid (fails stored now failure) dropped e = v
    step-IsValid (fails stored now failure) (fetching seen) e =
        end_task-IsValid stored now (set_failed "download" failure) s v (λ r. (refl, refl))
    step-IsValid (fails stored now failure) (finalizing d) e =
        end_task-IsValid stored now (set_failed "finalize" failure) s v (λ r. (refl, refl))
