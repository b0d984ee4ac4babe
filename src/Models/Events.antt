-- ===== src/Models/Events.antt =====
-- engine/models/service.py as a machine: the calls that api/models_router.py makes of the service, and
-- the steps of its tasks, one after the other as the event loop runs them.
use inference_engine.Prelude.{ℕ, Bool, Option, none, some, List, [], ◌∷◌, String, Text, dict_get}
use inference_engine.Models.Names.{Requested}
use inference_engine.Models.Registry.{ModelRecord, get, set_active, clear_active}
use inference_engine.Models.Tasks.{
  Task, Service, GgufInfo, Reply, refused, nothing, Failure, cancel, begin_task, cancel_task,
  progress, observe_cancel, promote_file, finish_download, fail_download, reconcile_interrupted,
  signal_all, release_dropped,
}
use inference_engine.Models.Service.{
  Settings, Drawn, start_download, reserve_import, finish_import, enter_operation, leave_operation,
  delete_model, register_configured,
}

pub data Step : Type 0 where
  begins : Step
  is_cancelled : Step
  progresses : ℕ → Option ℕ → (due : Bool) → ℕ → Step
  observes : (stored : Bool) → ℕ → Step
  promotes : (stored : Bool) → ℕ → Text → Step
  finishes : GgufInfo → (size : ℕ) → ℕ → Step
  fails : (stored : Bool) → ℕ → Failure → Step

unfoldable pub step : Step → String → Service → Task → Service
unfolding promote_file
step begins i s t = begin_task i s t
step is_cancelled i s t = cancel_task i s t
step (progresses done total due now) i s t = progress done total due now i s t
step (observes stored now) i s t = observe_cancel stored now i s t
step (promotes stored now digest) i s t = promote_file stored now digest i s t
step (finishes info size now) i s t = finish_download info size now i s t
step (fails stored now failure) i s t = fail_download stored now failure i s t

-- A row is looked up by its id before the service is called with it.
pub data Event : Type 0 where
  downloads : Drawn → Requested → (name expected_sha256 : Option Text) → Event
  steps : String → Step → Event
  cancels : String → Event
  reserves : Text → Event
  imports : Text → String → ℕ → (name : Option Text) → (read : Option (GgufInfo × Text × ℕ)) → Event
  enters : String → Event
  leaves : String → Event
  activates : String → ℕ → Event
  deactivates : Event
  deletes : String → (unlinked stored : Bool) → Event
  reconciles : ℕ → Event
  configures : Text → Text → GgufInfo → ℕ → String → ℕ → Event
  signals : Event
  drops : Event

abbrev pub with_row : Service → String → (ModelRecord → Service → Service × Reply) → Service × Reply
with_row s i f = elim (get i s.registry) [ none ↦ (s, refused) | some r ↦ f r s ]

module _ (settings : Settings) (path_key : Text → Text) where
  unfoldable pub handle : Service → Event → Service × Reply
  unfolding start_download step cancel reconcile_interrupted
  handle s (downloads d r name expected) = start_download path_key settings d r name expected s
  handle s (steps i k) = elim (dict_get i s.tasks) [
    | none ↦ (s, nothing)
    | some t ↦ (step k i s t, nothing)
  ]
  handle s (cancels i) = cancel s i
  handle s (reserves path) = reserve_import path_key path s
  handle s (imports path i now name read) = finish_import path_key path i now name read s
  handle s (enters i) = with_row s i (enter_operation path_key)
  handle s (leaves i) = with_row s i (leave_operation path_key)
  handle s (activates i now) = (record s { registry = set_active i now s.registry }, nothing)
  handle s deactivates = (record s { registry = clear_active s.registry }, nothing)
  handle s (deletes i unlinked stored) = with_row s i (delete_model path_key unlinked stored)
  handle s (reconciles now) = reconcile_interrupted now s
  handle s (configures path name info size i now) =
      register_configured path_key path name info size i now s
  handle s signals = (signal_all s, nothing)
  handle s drops = (release_dropped s.tasks s, nothing)

  -- The state after the events
  abbrev pub run : Service → List Event → Service
  run s [] = s
  run s (e ∷ es) = run (handle s e).0 es

abbrev pub new_service : List ModelRecord → Service
new_service rows = record {
  registry = rows;
  cancels = [];
  tasks = [];
  download_paths = [];
  operations = [];
  import_paths = [];
}
