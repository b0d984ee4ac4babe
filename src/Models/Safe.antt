-- ===== src/Models/Safe.antt =====
-- The service of engine/models/service.py keeps what it owns, whatever is called and in any order.
use inference_engine.Prelude.{
  ℕ, ◌≡◌, refl, false, ◌&&◌, Option, none, some, List, [], ◌∷◌, String, Text, if-rule, set_if,
  dict_get, Option-cases, inl, inr, arith,
}
use inference_engine.Models.Names.{Requested, resolve_source}
use inference_engine.Models.Registry.{ModelRecord, get, find_by_path, clear_active}
use inference_engine.Models.Tasks.{Service, GgufInfo, Reply, has_task, cancel}
use inference_engine.Models.Service.{
  Settings, Drawn, download_model, start_download, import_model, is_busy, enter_operation,
  leave_operation, delete_model, register_configured,
}
use inference_engine.Models.Events.{
  Event, downloads, steps, cancels, reserves, imports, enters, leaves, activates, deactivates,
  deletes, reconciles, configures, signals, drops, with_row, handle, run, new_service,
}
use inference_engine.Models.Owned.{IsValid}
use inference_engine.Models.Held.{set_if-Keeps}
use inference_engine.Models.Kept.{map-IsValid, reflag-IsValid, delete-IsValid}
use inference_engine.Models.Launched.{signal_all-IsValid, release_dropped-IsValid}
use inference_engine.Models.Steps.{step-IsValid}
use inference_engine.Models.Calls.{
  start_checked-IsValid, reserve_import-IsValid, configured-IsValid, finish_import-IsValid,
  set_active-IsValid, reconcile_rows-IsValid,
}

-- The ids that are drawn are those of no row.
abbrev pub IsFresh : Service → Event → Type 0
IsFresh s (downloads d r name expected) = get d.model_id s.registry ≡ none
IsFresh s (imports path i now name read) = get i s.registry ≡ none
IsFresh s (configures path name info size i now) = get i s.registry ≡ none
IsFresh s (steps i k) = Unit
IsFresh s (cancels i) = Unit
IsFresh s (reserves path) = Unit
IsFresh s (enters i) = Unit
IsFresh s (leaves i) = Unit
IsFresh s (activates i now) = Unit
IsFresh s deactivates = Unit
IsFresh s (deletes i unlinked stored) = Unit
IsFresh s (reconciles now) = Unit
IsFresh s signals = Unit
IsFresh s drops = Unit

abbrev pub AreFresh : Settings → (Text → Text) → Service → List Event → Type 0
AreFresh settings path_key s [] = Unit
AreFresh settings path_key s (e ∷ es) =
    IsFresh s e × AreFresh settings path_key (handle settings path_key s e).0 es

module _ (settings : Settings) (path_key : Text → Text) where
  abbrev Good : Service × Reply → Type 0
  Good p = IsValid path_key p.0

  with_row-IsValid :
      (s : Service) (i : String) (f : ModelRecord → Service → Service × Reply)
      → IsValid path_key s
      → ((r : ModelRecord) → get i s.registry ≡ some r → Good (f r s))
      → Good (with_row s i f)
  with_row-IsValid s i f v h = elim (Option-cases (get i s.registry)) [
    | inl e ↦ rw (with_row, e) v
    | inr (r, e) ↦ rw (with_row, e) (h r e)
  ]

  module _ (s : Service) (v : IsValid path_key s) where
    configures-IsValid :
        (path name : Text) (info : GgufInfo) (size : ℕ) (i : String) (now : ℕ)
        → Good (register_configured path_key path name info size i now s)
    configures-IsValid path name info size i now =
        elim (Option-cases (find_by_path path s.registry)) [
          | inl e ↦
              rw (register_configured, e)
                (set_active-IsValid path_key _
                  (configured-IsValid path_key s v i now
                    (record (import_model path_key path none info none size) { name = name }) e)
                  i now)
          | inr (r, e) ↦ rw (register_configured, e) v
        ]

    cancel-IsValid : (i : String) → Good (cancel s i)
    unfolding cancel
    cancel-IsValid i = elim (Option-cases (dict_get i s.cancels)) [
      | inl e ↦ rw (cancel, e) v
      | inr (c, e) ↦ rw (cancel, e) (reflag-IsValid path_key s v i c e)
    ]

    start_download-IsValid :
        (d : Drawn) (r : Requested) (name expected : Option Text)
        → get d.model_id s.registry ≡ none
        → Good (start_download path_key settings d r name expected s)
    unfolding start_download
    start_download-IsValid d r name expected fresh =
        elim (Option-cases (resolve_source settings.hf_endpoint d.hex r)) [
          | inl e ↦ rw (start_download, e) v
          | inr (source, e) ↦
              rw (start_download, e)
                (start_checked-IsValid path_key s v d
                  (download_model path_key settings r name expected source) fresh)
        ]

    -- One event
    pub handle-IsValid : (e : Event) → IsFresh s e → Good (handle settings path_key s e)
    unfolding handle clear_active
    handle-IsValid (downloads d r name expected) fresh =
        start_download-IsValid d r name expected fresh
    handle-IsValid (steps i k) fresh = elim (Option-cases (dict_get i s.tasks)) [
      | inl e ↦ rw (handle, e) v
      | inr (t, e) ↦ rw (handle, e) (step-IsValid path_key i s v k t e)
    ]
    handle-IsValid (cancels i) fresh = cancel-IsValid i
    handle-IsValid (reserves path) fresh = reserve_import-IsValid path_key s v path
    handle-IsValid (imports path i now name read) fresh =
        finish_import-IsValid path_key s v path i now name read
    handle-IsValid (enters i) fresh =
        with_row-IsValid s i (enter_operation path_key) v
          (λ r e. if-rule Good (is_busy path_key s r) (λ k. v) (λ k. record { slot = v.slot }))
    handle-IsValid (leaves i) fresh =
        with_row-IsValid s i (leave_operation path_key) v (λ r e. record { slot = v.slot })
    handle-IsValid (activates i now) fresh = set_active-IsValid path_key s v i now
    handle-IsValid deactivates fresh =
        map-IsValid path_key s v (set_if (λ r. r.active) (λ r. record r { active = false }))
          (set_if-Keeps (λ r. r.active) (λ r. record r { active = false }) (λ r. (refl, refl)))
    handle-IsValid (deletes i unlinked stored) fresh =
        with_row-IsValid s i (delete_model path_key unlinked stored) v (λ r e.
          if-rule Good (is_busy path_key s r) (λ k. v)
            (λ k.
              if-rule Good (unlinked && stored)
                (λ l. delete-IsValid path_key s v r.id (ground (arith, k))) (λ l. v)))
    handle-IsValid (reconciles now) fresh =
        reconcile_rows-IsValid path_key now (has_task s) s.registry s.registry 0 s v
    handle-IsValid (configures path name info size i now) fresh =
        configures-IsValid path name info size i now
    handle-IsValid signals fresh = signal_all-IsValid path_key s v
    handle-IsValid drops fresh = release_dropped-IsValid path_key s.tasks s v

  -- From a valid state, whatever is called and however the tasks go on, with ids drawn that no row has:
  -- each id is in all three dictionaries or in none; the flag of an owned download is committed
  -- exactly from the promotion of its file on, and then not set; its row is there, no other row has its
  -- path, and no import its key.
  pub run-IsValid :
      (es : List Event) (s : Service)
      → IsValid path_key s
      → AreFresh settings path_key s es
      → IsValid path_key (run settings path_key s es)
  run-IsValid [] s v fresh = v
  run-IsValid (e ∷ es) s v fresh =
      run-IsValid es (handle settings path_key s e).0 (handle-IsValid s v e fresh.0) fresh.1

-- The service starts valid, whatever rows the registry holds.
pub new_service-IsValid :
    (path_key : Text → Text) (rows : List ModelRecord) → IsValid path_key (new_service rows)
new_service-IsValid path_key rows = record { slot = λ i. tt }
