-- ===== src/Models/Refused.antt =====
-- A download whose cancel was accepted never becomes ready (engine/models/service.py).

use inference_engine.Prelude.{
  ℕ, ◌≡◌, refl, true, false, ◌&&◌, ◌||◌, not, Option, none, some, List, [], ◌∷◌, String, str_eq,
  Text, text_eq, all, any, if-rule, set_if, dict_get, dict_put, dict_get-put, dict_get-put_other,
  All, Option-cases, inl, inr, is_null,
}
use inference_engine.Models.Names.{Requested, resolve_source}
use inference_engine.Models.Download.{CancelEvent, new_cancel, request}
use inference_engine.Models.Registry.{
  ModelRecord, NewModel, get, find_by_path, has_id, clear_active,
}
use inference_engine.Models.Tasks.{
  Task, unstarted, fetching, finalizing, dropped, Service, GgufInfo, Reply, answer, cancel,
  reconcile_rows, has_task,
}
use inference_engine.Models.Service.{
  Settings, Drawn, start_download, start_checked, download_model, finish_import, import_model,
  is_busy, enter_operation, leave_operation, delete_model, register_configured,
}
use inference_engine.Models.Events.{
  Event, downloads, steps, cancels, reserves, imports, enters, leaves, activates, deactivates,
  deletes, reconciles, configures, signals, drops, with_row, handle, run,
}
use inference_engine.Models.Stopped.{is_quiet, Halted, IsStopped, set_if-Tame, reflag-IsStopped}
use inference_engine.Models.Launched.{dict_get-map}
use inference_engine.Models.Owned.{IsValid, Slot}
use inference_engine.Models.Halting.{step-IsStopped}
use inference_engine.Models.Quiet.{
  all-filter, created, mapped, activated-IsStopped, reconciled, dropped-IsStopped, signal-Halted,
}

-- The event does not draw this id for a new row.
abbrev pub IsOther : String → Event → Type 0
IsOther i (downloads d r name expected) = str_eq d.model_id i ≡ false
IsOther i (imports path j now name read) = str_eq j i ≡ false
IsOther i (configures path name info size j now) = str_eq j i ≡ false
IsOther i (steps j k) = Unit
IsOther i (cancels j) = Unit
IsOther i (reserves path) = Unit
IsOther i (enters j) = Unit
IsOther i (leaves j) = Unit
IsOther i (activates j now) = Unit
IsOther i deactivates = Unit
IsOther i (deletes j unlinked stored) = Unit
IsOther i (reconciles now) = Unit
IsOther i signals = Unit
IsOther i drops = Unit

module _ (i : String) where
  abbrev Still : Service × Reply → Type 0
  Still p = IsStopped i p.0

  module _ (settings : Settings) (path_key : Text → Text) (s : Service) (h : IsStopped i s) where
    started :
        (d : Drawn) (m : NewModel)
        → str_eq d.model_id i ≡ false
        → Still (start_checked path_key d m s)
    started d m other =
        if-rule Still (any (text_eq (path_key m.path)) s.import_paths) (λ k. h)
          (λ k.
            if-rule Still (d.exists || not (is_null (find_by_path m.path s.registry))) (λ l. h)
              (λ l. record {
                quiet = (created i s d.model_id d.now m h other).quiet;
                halted =
                    rw
                      (
                        dict_get-put_other d.model_id i new_cancel s.cancels other,
                        dict_get-put_other d.model_id i unstarted s.tasks other,
                      )
                      h.halted;
              }))

    imported :
        (path : Text) (j : String) (now : ℕ) (name : Option Text)
        (read : Option (GgufInfo × Text × ℕ))
        → str_eq j i ≡ false
        → Still (finish_import path_key path j now name read s)
    imported path j now name none other =
        if-rule Still (any (text_eq (path_key path)) s.import_paths)
          (λ k. record { quiet = h.quiet; halted = h.halted }) (λ k. h)
    imported path j now name (some (info, digest, size)) other =
        if-rule Still (any (text_eq (path_key path)) s.import_paths)
          (λ k.
            if-rule Still info.valid
              (λ l.
                let c =
                  created i s j now (import_model path_key path name info (some digest) size) h
                    other in
                record { quiet = c.quiet; halted = c.halted })
              (λ l. record { quiet = h.quiet; halted = h.halted }))
          (λ k. h)

    configured :
        (path name : Text) (info : GgufInfo) (size : ℕ) (j : String) (now : ℕ)
        → str_eq j i ≡ false
        → Still (register_configured path_key path name info size j now s)
    configured path name info size j now other =
        elim (Option-cases (find_by_path path s.registry)) [
          | inl e ↦
              rw (register_configured, e)
                (activated-IsStopped i _ j now (
                  created i s j now
                    (record (import_model path_key path none info none size) { name = name }) h
                    other))
          | inr (r, e) ↦ rw (register_configured, e) h
        ]

    looked_up :
        (j : String) (f : ModelRecord → Service → Service × Reply)
        → ((r : ModelRecord) → Still (f r s))
        → Still (with_row s j f)
    looked_up j f k = elim (Option-cases (get j s.registry)) [
      | inl e ↦ rw (with_row, e) h
      | inr (r, e) ↦ rw (with_row, e) (k r)
    ]

    downloaded :
        (d : Drawn) (r : Requested) (name expected : Option Text)
        → str_eq d.model_id i ≡ false
        → Still (start_download path_key settings d r name expected s)
    unfolding start_download
    downloaded d r name expected other =
        elim (Option-cases (resolve_source settings.hf_endpoint d.hex r)) [
          | inl e ↦ rw (start_download, e) h
          | inr (source, e) ↦
              rw (start_download, e)
                (started d (download_model path_key settings r name expected source) other)
        ]

    cancel-IsStopped : (j : String) → Still (cancel s j)
    unfolding cancel
    cancel-IsStopped j = elim (Option-cases (dict_get j s.cancels)) [
      | inl e ↦ rw (cancel, e) h
      | inr (c, e) ↦ rw (cancel, e) (reflag-IsStopped i j s h c e)
    ]

    handle-IsStopped : (e : Event) → IsOther i e → Still (handle settings path_key s e)
    unfolding handle reconcile_rows clear_active
    handle-IsStopped (downloads d r name expected) other = downloaded d r name expected other
    handle-IsStopped (steps j k) other = elim (Option-cases (dict_get j s.tasks)) [
      | inl e ↦ rw (handle, e) h
      | inr (t, e) ↦ rw (handle, e) (step-IsStopped i j s k t h e)
    ]
    handle-IsStopped (cancels j) other = cancel-IsStopped j
    handle-IsStopped (reserves path) other =
        if-rule Still
          (any (text_eq (path_key path)) s.import_paths
            || any (λ e. text_eq e.1 (path_key path)) s.download_paths)
          (λ k. h) (λ k. record { quiet = h.quiet; halted = h.halted })
    handle-IsStopped (imports path j now name read) other = imported path j now name read other
    handle-IsStopped (enters j) other = looked_up j (enter_operation path_key) (λ r.
        if-rule Still (is_busy path_key s r) (λ k. h)
          (λ k. record { quiet = h.quiet; halted = h.halted }))
    handle-IsStopped (leaves j) other =
        looked_up j (leave_operation path_key) (λ r. record { quiet = h.quiet; halted = h.halted })
    handle-IsStopped (activates j now) other = activated-IsStopped i s j now h
    handle-IsStopped deactivates other =
        mapped i s (set_if (λ r. r.active) (λ r. record r { active = false })) h
          (set_if-Tame i (λ r. r.active) (λ r. record r { active = false }) (λ r k. k))
    handle-IsStopped (deletes j unlinked stored) other =
        looked_up j (delete_model path_key unlinked stored) (λ r.
          if-rule Still (is_busy path_key s r) (λ k. h)
            (λ k.
              if-rule Still (unlinked && stored)
                (λ l. record {
                  quiet = all-filter i (is_quiet i) (λ q. not (has_id r.id q)) s.registry h.quiet;
                  halted = h.halted;
                })
                (λ l. h)))
    handle-IsStopped (reconciles now) other = record {
      quiet = reconciled i now (has_task s) s.registry s.registry 0 h.quiet;
      halted = h.halted;
    }
    handle-IsStopped (configures path name info size j now) other =
        configured path name info size j now other
    handle-IsStopped signals other = record {
      quiet = h.quiet;
      halted =
          rw (dict_get-map (λ c. (request c).0) i s.cancels)
            (signal-Halted i s h (dict_get i s.cancels) (dict_get i s.tasks) h.halted);
    }
    handle-IsStopped drops other = dropped-IsStopped i s.tasks s h

  run-IsStopped :
      (settings : Settings) (path_key : Text → Text) (es : List Event) (s : Service)
      → IsStopped i s
      → All (IsOther i) es
      → IsStopped i (run settings path_key s es)
  run-IsStopped settings path_key [] s h other = h
  run-IsStopped settings path_key (e ∷ es) s h other =
      run-IsStopped settings path_key es (handle settings path_key s e).0
        (handle-IsStopped settings path_key s h e other.0) other.1

  -- The flag of a valid state, once a request was accepted
  accepted-Halted :
      (path_key : Text → Text) (rows : List ModelRecord) (imports' : List Text) (c : CancelEvent)
      (t : Option Task) (k : Option Text)
      → Slot path_key rows imports' i (some c) t k
      → (request c).1 ≡ true
      → Halted (some (request c).0) t
  unfolding request
  accepted-Halted path_key rows imports' c none k v a = tt
  accepted-Halted path_key rows imports' c (some t) none v a = absurd v
  accepted-Halted path_key rows imports' c (some unstarted) (some key) v a = rw v.0 refl
  accepted-Halted path_key rows imports' c (some (fetching seen)) (some key) v a = rw v.0 refl
  accepted-Halted path_key rows imports' c (some dropped) (some key) v a = rw v.0 refl
  accepted-Halted path_key rows imports' c (some (finalizing d)) (some key) v a =
      let b : false ≡ true = rw v.0.0 at a in absurd cc

  -- In a valid state, where no row of the download is ready: once a request to cancel it is accepted, no
  -- row of it is ready after any further events, unless one of them draws its id for another model.
  pub cancel-never_ready :
      (settings : Settings) (path_key : Text → Text) (s : Service) (es : List Event)
      → IsValid path_key s
      → all (is_quiet i) s.registry ≡ true
      → (cancel s i).1 ≡ answer true
      → All (IsOther i) es
      → all (is_quiet i) (run settings path_key (cancel s i).0 es).registry ≡ true
  unfolding cancel
  cancel-never_ready settings path_key s es v q a other =
      elim (Option-cases (dict_get i s.cancels)) [
        | inl e ↦ let b : answer false ≡ answer true = rw (cancel, e) at a in absurd cc
        | inr (c, e) ↦
            let b : answer (request c).1 ≡ answer true = rw (cancel, e) at a in
            let yes : (request c).1 ≡ true = cc in
            let z : Service = record s { cancels = dict_put i (request c).0 s.cancels } in
            let stopped : IsStopped i z = record {
              quiet = q;
              halted = rw (dict_get-put i (request c).0 s.cancels) (
                  accepted-Halted path_key s.registry s.import_paths c (dict_get i s.tasks)
                    (dict_get i s.download_paths) (rw e at (v.slot i)) yes);
            } in
            rw (cancel, e) (run-IsStopped settings path_key es z stopped other).quiet
      ]
