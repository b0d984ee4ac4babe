-- ===== src/Models/Tests.antt =====
-- The model store on concrete inputs (engine/models).
use inference_engine.Prelude.{
  ℕ, zero, suc, ◌≡◌, ◌≢◌, ◌⊎◌, refl, true, false, none, some, List, [], ◌∷◌, Text, text_eq,
  if◌then◌else◌, codes, all, update_where, map,
}
use inference_engine.Models.Names.{Requested, Source, resolve_source}
use inference_engine.Models.Inside.{IsStored, resolve_source-IsStored}
use inference_engine.Models.Download.{
  new_cancel, bytes, Opened, http_error, responded, Ended, finished, Files, Watch, Wanted, download,
}
use inference_engine.Models.Finished.{download-Returns}
use inference_engine.Models.Ends.{Ends}
use inference_engine.Models.Registry.{ModelRecord, error, ready, get}
use inference_engine.Models.Tasks.{
  changed, Service, GgufInfo, busy, nothing, cancel, has_task, reconcile_interrupted,
}
use inference_engine.Models.Service.{Settings, Drawn}
use inference_engine.Models.Events.{
  Event, downloads, steps, reserves, imports, enters, deletes, begins, promotes, finishes, handle,
  run, new_service,
}
use inference_engine.Models.Owned.{IsValid}
use inference_engine.Models.Safe.{AreFresh, run-IsValid, new_service-IsValid}
use inference_engine.Models.Deleted.{delete-has_task}
use inference_engine.Models.Recovered.{
  is_abandoned, abandon, reconcile_interrupted_lem, reconcile_interrupted_again,
}
use inference_engine.Models.Stopped.{is_quiet}
use inference_engine.Models.Refused.{cancel-never_ready}

abbrev from_url : Requested
from_url = record {
  source_type = "url";
  repo = none;
  filename = some (codes "tiny");
  revision = codes "main";
  url = some (codes "https://host/x?token=s");
}

abbrev stored : Source
stored = record {
  fetch_url = codes "https://host/x?token=s";
  source_ref = codes "address not stored";
  base = codes "tiny.gguf";
}

resolve_source-IsStored_example : IsStored from_url stored
unfolding resolve_source
resolve_source-IsStored_example =
    resolve_source-IsStored (codes "https://hub") (codes "0a1b") from_url stored refl refl

-- A `.part` file of two bytes: the first request is refused with 416, the second is answered.
abbrev stale : Files
stale = record { part = some (7 ∷ 8 ∷ []); dest = none }

abbrev wanted : Wanted
wanted = record { max_bytes = 4; expected_sha256 = [] }

abbrev server : ℕ → Opened
server zero = responded (record {
  status = 200;
  content_length = none;
  body = bytes (1 ∷ 2 ∷ []) ∷ bytes (3 ∷ []) ∷ [];
})
server (suc n) = http_error 416

abbrev undisturbed : ℕ → Watch
undisturbed i = record {
  before = false;
  opened = false;
  reading = λ k. false;
  read_all = false;
  hashing = false;
  committing = new_cancel;
}

abbrev digest : Text → Text
digest t = map (λ x. x) t

download_after_416 :
    download digest wanted undisturbed server 2 stale
    ≡ some (record { part = none; dest = some (1 ∷ 2 ∷ 3 ∷ []) }, finished (1 ∷ 2 ∷ 3 ∷ []))
unfolding download
download_after_416 = refl

download-Returns_example :
    (p : Files × Ended) × ((n : ℕ)
      → download digest wanted undisturbed server (suc (suc n)) stale ≡ some p)
    × Ends digest wanted undisturbed server stale p
download-Returns_example = download-Returns digest wanted server undisturbed stale

abbrev config : Settings
config = record { models_dir = codes "/m"; hf_endpoint = codes "https://hub" }

abbrev real : Text → Text
real path = path

abbrev drawn : Drawn
drawn = record { hex = codes "0a1b"; model_id = "a"; now = 1; exists = false }

abbrev began : List Event
began = downloads drawn from_url none none ∷ steps "a" begins ∷ []

abbrev outside : GgufInfo
outside = record { valid = true; name = none; quant = none; arch = none; context_length = none }

-- A download runs, and a file outside the model directory is imported.
abbrev both : List Event
both =
    downloads drawn from_url none none
    ∷ steps "a" begins
    ∷ reserves (codes "/y.gguf")
    ∷ imports (codes "/y.gguf") "b" 2 none (some (outside, [], 5))
    ∷ []

both-AreFresh : AreFresh config real (new_service []) both
unfolding handle
both-AreFresh = (refl, (tt, (tt, (refl, tt))))

run-IsValid_example : IsValid real (run config real (new_service []) both)
unfolding handle
run-IsValid_example =
    run-IsValid config real both (new_service []) (new_service-IsValid real []) both-AreFresh

abbrev busy_service : Service
busy_service = run config real (new_service []) both

abbrev imported_row : ModelRecord
imported_row = record {
  id = "b";
  name = codes "y";
  filename = codes "y.gguf";
  path = codes "/y.gguf";
  source_type = "import";
  source_ref = some (codes "/y.gguf");
  sha256 = some [];
  expected_sha256 = none;
  size_bytes = some 5;
  downloaded_bytes = 0;
  quant = none;
  arch = none;
  context_length = none;
  status = ready;
  error = none;
  active = false;
  added_at = 2;
  updated_at = some 2;
}

delete-has_task_example :
    let after = handle config real busy_service (deletes "b" true true) in
    (after ≡ (busy_service, busy))
    ⊎ ((q : ModelRecord) × (get "a" after.0.registry ≡ some q)
        × (real imported_row.path ≢ real q.path))
unfolding handle
delete-has_task_example =
    delete-has_task config real busy_service
      (run-IsValid config real both (new_service []) (new_service-IsValid real []) both-AreFresh)
      "b" "a" imported_row true true refl refl (λ q m e. e)

abbrev later : List Event
later = steps "a" (promotes true 3 []) ∷ steps "a" (finishes outside 5 4) ∷ []

cancel-never_ready_example :
    all (is_quiet "a") (run config real (cancel busy_service "a").0 later).registry ≡ true
unfolding handle cancel
cancel-never_ready_example =
    cancel-never_ready "a" config real busy_service later
      (run-IsValid config real both (new_service []) (new_service-IsValid real []) both-AreFresh)
      refl refl (tt, (tt, tt))

-- After a restart: the row of the download is there, and no task.
abbrev restarted : Service
restarted = new_service busy_service.registry

reconcile_interrupted_lem_example : (reconcile_interrupted 9 restarted).0 ≡ record restarted {
  registry = update_where (is_abandoned (has_task restarted)) (abandon 9) restarted.registry;
}
unfolding handle
reconcile_interrupted_lem_example = reconcile_interrupted_lem 9 restarted

reconcile_interrupted_again_example :
    reconcile_interrupted 12 (reconcile_interrupted 9 restarted).0
    ≡ ((reconcile_interrupted 9 restarted).0, changed 0)
reconcile_interrupted_again_example = reconcile_interrupted_again 9 12 restarted

restart_marks :
    map (λ r. r.status) (reconcile_interrupted 9 restarted).0.registry ≡ error ∷ ready ∷ []
unfolding handle reconcile_interrupted
restart_marks = refl

-- A second row for the file of a model that is being loaded can be deleted meanwhile.
abbrev loading : List Event
loading =
    reserves (codes "/y.gguf")
    ∷ imports (codes "/y.gguf") "b" 2 none (some (outside, [], 5))
    ∷ reserves (codes "/y.gguf")
    ∷ imports (codes "/y.gguf") "c" 3 none (some (outside, [], 5))
    ∷ enters "b"
    ∷ []

same_file_deleted :
    (handle config real (run config real (new_service []) loading) (deletes "c" true true)).1
    ≡ nothing
unfolding handle
same_file_deleted = refl

-- A downloaded file that is no GGUF file is recorded as ready.
abbrev no_gguf : List Event
no_gguf =
    downloads drawn from_url none none
    ∷ steps "a" begins
    ∷ steps "a" (promotes true 3 [])
    ∷ steps "a" (finishes (record outside { valid = false }) 5 4)
    ∷ []

no_gguf_ready : map (λ r. r.status) (run config real (new_service []) no_gguf).registry ≡ ready ∷ []
unfolding handle
no_gguf_ready = refl

-- A row that names the file of a download by another path, through a link, can be deleted while the
-- download runs, and its file with it.
abbrev resolved : Text → Text
resolved path = if text_eq path (codes "/m/link/tiny.gguf") then codes "/m/tiny.gguf" else path

abbrev aliased : List Event
aliased =
    reserves (codes "/m/link/tiny.gguf")
    ∷ imports (codes "/m/link/tiny.gguf") "b" 2 none (some (outside, [], 5))
    ∷ downloads drawn from_url none none
    ∷ steps "a" begins
    ∷ []

alias_deleted :
    let s = run config resolved (new_service []) aliased in
    (has_task s "a" ≡ true) × ((handle config resolved s (deletes "b" true true)).1 ≡ nothing)
unfolding handle
alias_deleted = (refl, refl)
