-- ===== src/Models/Tasks.antt =====
-- engine/models/service.py: the downloads that the service owns, as the three dictionaries of its state,
-- and the steps of their tasks.  What the workers, the disk and the database answer is an argument.
use inference_engine.Prelude.{
  ℕ, ◌+◌, Bool, true, false, ◌||◌, not, Option, none, some, List, [], ◌∷◌, String, str_append, Text,
  if◌then◌else◌, map, dict_get, dict_put, dict_pop, is_null,
}
use inference_engine.Models.Download.{CancelEvent, request, commit}
use inference_engine.Models.Registry.{
  ready, error, cancelled, ModelRecord, update, add_progress, is_running, mark_interrupted,
}

-- How far the task of `_run_download` is: it never ran; its worker downloads, with `seen_total`; the
-- file is promoted, with its digest, and is probed; it was cancelled before it ran.
pub data Task : Type 0 where
  unstarted : Task
  fetching : Bool → Task
  finalizing : Text → Task
  dropped : Task

pub record Service : Type 0 where
  pub registry : List ModelRecord
  pub cancels : List (String × CancelEvent)
  pub tasks : List (String × Task)
  pub download_paths : List (String × Text)
  pub operations : List String
  pub import_paths : List Text

-- What `gguf.probe` reads
pub record GgufInfo : Type 0 where
  pub valid : Bool
  pub name : Option Text
  pub quant : Option String
  pub arch : Option String
  pub context_length : Option ℕ

-- An answer, with ModelServiceError, ModelBusyError and ModelDeleteError
pub data Reply : Type 0 where
  refused : Reply
  busy : Reply
  delete_failed : Reply
  changed : ℕ → Reply
  answer : Bool → Reply
  model : ModelRecord → Reply
  nothing : Reply

-- `interrupted` and `withheld` are the texts of the source.
abbrev pub interrupted : String
interrupted =
    "download interrupted: the engine stopped before it finished. Delete this model (which removes any file it kept) and download it again."

abbrev pub withheld : String
withheld = "error details withheld (they could not be redacted safely)"

-- What a worker raised, besides DownloadCancelled: a DownloadError that is safe, with its text, where it
-- has one; or another exception, of this type.
pub data Failure : Type 0 where
  safe_error : Option String → Failure
  other_error : String → Failure

-- The text that `_record_failure` stores
abbrev pub failure_text : (stage : String) → Failure → String
failure_text stage (safe_error (some text)) = text
failure_text stage (safe_error none) = withheld
failure_text stage (other_error kind) =
    str_append "download failed during " (str_append stage (str_append " (" (str_append kind ")")))

abbrev pub has_task : Service → String → Bool
has_task s model_id = not (is_null (dict_get model_id s.tasks))

-- `_release`
abbrev pub release : Service → String → Service
release s model_id = record s {
  cancels = dict_pop model_id s.cancels;
  tasks = dict_pop model_id s.tasks;
  download_paths = dict_pop model_id s.download_paths;
}

-- `_persist_terminal` and the end of the task; the update happens if the database stores it.
abbrev pub end_task : (stored : Bool) → ℕ → (ModelRecord → ModelRecord) → String → Service → Service
end_task stored now set model_id s =
    release
      (record s { registry = if stored then update model_id now set s.registry else s.registry })
      model_id

-- What the end of a task sets in its row
abbrev pub set_cancelled : ModelRecord → ModelRecord
set_cancelled r = record r { status = cancelled }

abbrev pub set_failed : (stage : String) → Failure → ModelRecord → ModelRecord
set_failed stage failure r = record r { status = error; error = some (failure_text stage failure) }

abbrev pub set_ready : GgufInfo → (size : ℕ) → Text → ModelRecord → ModelRecord
set_ready info size digest r = record r {
  status = ready;
  sha256 = some digest;
  size_bytes = some size;
  downloaded_bytes = size;
  quant = info.quant;
  arch = info.arch;
  context_length = info.context_length;
  error = none;
}

-- `_record_cancelled`
abbrev pub record_cancelled : (stored : Bool) → ℕ → String → Service → Service
record_cancelled stored now = end_task stored now set_cancelled

-- `_record_failure`
abbrev pub record_failure :
    (stored : Bool) → ℕ → (stage : String) → Failure → String → Service → Service
record_failure stored now stage failure = end_task stored now (set_failed stage failure)

abbrev pub signal : Service → String → Service
signal s model_id = elim (dict_get model_id s.cancels) [
  | none ↦ s
  | some c ↦ record s { cancels = dict_put model_id (request c).0 s.cancels }
]

-- `cancel`
unfoldable pub cancel : Service → String → Service × Reply
unfolding request
cancel s model_id = elim (dict_get model_id s.cancels) [
  | none ↦ (s, answer false)
  | some c ↦
      (record s { cancels = dict_put model_id (request c).0 s.cancels }, answer (request c).1)
]

abbrev pub cancel_flag : Service → String → Bool
cancel_flag s model_id = elim (dict_get model_id s.cancels) [ none ↦ false | some c ↦ c.is_set ]

-- The task runs for the first time.
abbrev pub begin_task : String → Service → Task → Service
begin_task model_id s unstarted = record s { tasks = dict_put model_id (fetching false) s.tasks }
begin_task model_id s t = s

-- `Task.cancel`: before the task ran it ends it; after that `owned` sets the cancel flag and waits on.
abbrev pub cancel_task : String → Service → Task → Service
cancel_task model_id s unstarted = record s { tasks = dict_put model_id dropped s.tasks }
cancel_task model_id s (fetching seen) = signal s model_id
cancel_task model_id s (finalizing digest) = signal s model_id
cancel_task model_id s dropped = s

-- The first total that `progress` sees is recorded.
abbrev pub record_total :
    (seen : Bool) → ℕ → String → Option ℕ → List ModelRecord → List ModelRecord
record_total seen now model_id none rows = rows
record_total true now model_id (some n) rows = rows
record_total false now model_id (some n) rows =
    update model_id now (λ r. record r { size_bytes = some n }) rows

-- `progress(done, total)`; `due` is the test of the throttle.
abbrev pub progress : ℕ → Option ℕ → (due : Bool) → ℕ → String → Service → Task → Service
progress done total due now model_id s (fetching seen) =
    let sized : List ModelRecord = record_total seen now model_id total s.registry in
    let seen' : Bool = seen || not (is_null total) in
    if cancel_flag s model_id then s else record s {
      registry = if due then add_progress model_id now done sized else sized;
      tasks = dict_put model_id (fetching seen') s.tasks;
    }
progress done total due now model_id s unstarted = s
progress done total due now model_id s (finalizing digest) = s
progress done total due now model_id s dropped = s

-- A check of the worker sees the flag.
abbrev pub observe_cancel : (stored : Bool) → ℕ → String → Service → Task → Service
observe_cancel stored now model_id s (fetching seen) =
    if cancel_flag s model_id then record_cancelled stored now model_id s else s
observe_cancel stored now model_id s t = s

-- The worker is at `_promote` with this digest.
unfoldable pub promote_file : (stored : Bool) → ℕ → Text → String → Service → Task → Service
unfolding commit
promote_file stored now digest model_id s (fetching seen) = elim (dict_get model_id s.cancels) [
  | none ↦ s
  | some c ↦
      if (commit c).1
      then record s {
        cancels = dict_put model_id (commit c).0 s.cancels;
        tasks = dict_put model_id (finalizing digest) s.tasks;
      }
      else record_cancelled stored now model_id s
]
promote_file stored now digest model_id s t = s

-- The file has been probed and measured, and the row is updated.
abbrev pub finish_download : GgufInfo → (size : ℕ) → ℕ → String → Service → Task → Service
finish_download info size now model_id s (finalizing digest) =
    end_task true now (set_ready info size digest) model_id s
finish_download info size now model_id s t = s

-- The worker, the probe or the update raised something else than DownloadCancelled.
abbrev pub fail_download : (stored : Bool) → ℕ → Failure → String → Service → Task → Service
fail_download stored now failure model_id s (fetching seen) =
    record_failure stored now "download" failure model_id s
fail_download stored now failure model_id s (finalizing digest) =
    record_failure stored now "finalize" failure model_id s
fail_download stored now failure model_id s t = s

-- The loop of `reconcile_interrupted` over the rows that it listed, with the table and the number of
-- the rows it changed
unfoldable pub reconcile_rows :
    ℕ → (String → Bool) → List ModelRecord → List ModelRecord → ℕ → List ModelRecord × ℕ
reconcile_rows now owned [] table n = (table, n)
reconcile_rows now owned (r ∷ rs) table n =
    let skipped = not (is_running r.status) || owned r.id in
    let marked = if skipped then (table, false) else mark_interrupted r.id now interrupted table in
    reconcile_rows now owned rs marked.0 (if marked.1 then n + 1 else n)

-- `reconcile_interrupted`
unfoldable pub reconcile_interrupted : ℕ → Service → Service × Reply
unfolding reconcile_rows
reconcile_interrupted now s =
    let done = reconcile_rows now (has_task s) s.registry s.registry 0 in
    (record s { registry = done.0 }, changed done.1)

-- `shutdown`: every flag is set, and then every task that ended before it ran is released.
abbrev pub signal_all : Service → Service
signal_all s = record s { cancels = map (λ e. (e.0, (request e.1).0)) s.cancels }

abbrev pub release_dropped : List (String × Task) → Service → Service
release_dropped [] s = s
release_dropped ((model_id, unstarted) ∷ ts) s = release_dropped ts s
release_dropped ((model_id, fetching seen) ∷ ts) s = release_dropped ts s
release_dropped ((model_id, finalizing digest) ∷ ts) s = release_dropped ts s
release_dropped ((model_id, dropped) ∷ ts) s = release_dropped ts (release s model_id)
