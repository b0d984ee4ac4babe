-- ===== src/Models/Service.antt =====
-- engine/models/service.py: what the service starts, refuses and deletes.  Each function runs without an
-- await; what the disk and the database answer is an argument.  `path_key` is what `_path_key` makes
-- of a path.
use inference_engine.Prelude.{
  ℕ, Bool, ◌&&◌, ◌||◌, not, Option, none, some, List, [], ◌∷◌, ◌++◌, String, Text, codes, str_eq,
  text_eq, if◌then◌else◌, ◌==◌, any, filter, is_empty, dict_put, is_null,
}
use inference_engine.Models.Names.{given_text, Requested, Source, resolve_source}
use inference_engine.Models.Download.{new_cancel}
use inference_engine.Models.Registry.{
  downloading, ready, ModelRecord, NewModel, row_of, create, find_by_path, set_active, delete,
}
use inference_engine.Models.Names.{ends_with, path_name}
use inference_engine.Models.Tasks.{
  unstarted, Service, GgufInfo, Reply, refused, busy, delete_failed, model, nothing, has_task,
}

pub record Settings : Type 0 where
  pub models_dir : Text
  pub hf_endpoint : Text

-- What stands before the last dot of a name
abbrev before_dot : Text → Option Text
before_dot [] = none
before_dot (c ∷ cs) = elim (before_dot cs) [
  | none ↦ if c == b'.' then some [] else none
  | some t ↦ some (c ∷ t)
]

-- `Path(base).stem` of a file name
abbrev pub stem : Text → Text
stem base = elim (before_dot base) [
  | none ↦ base
  | some t ↦ if is_empty t || ends_with (codes ".") base then base else t
]

-- `delete_files`: what it unlinks; `within` is `_within_models_dir`.
abbrev pub deleted_files : (within : Bool) → ModelRecord → List Text
deleted_files within r =
    if not (str_eq r.source_type "import") || within
    then r.path ∷ (r.path ++ codes ".part") ∷ []
    else []

-- What `start_download` draws and looks up: the UUIDs, the time and `dest.exists()`
pub record Drawn : Type 0 where
  pub hex : Text
  pub model_id : String
  pub now : ℕ
  pub exists : Bool

module _ (path_key : Text → Text) where
  -- `is_busy`
  abbrev pub is_busy : Service → ModelRecord → Bool
  is_busy s r =
      has_task s r.id
      || (any (str_eq r.id) s.operations || any (text_eq (path_key r.path)) s.import_paths)

  -- `start_download` once nothing refuses it
  abbrev pub launch : String → ℕ → NewModel → Service → Service × Reply
  launch model_id now m s = (
    record s {
      registry = create model_id now m s.registry;
      cancels = dict_put model_id new_cancel s.cancels;
      tasks = dict_put model_id unstarted s.tasks;
      download_paths = dict_put model_id (path_key m.path) s.download_paths;
    },
    model (row_of model_id now m),
  )

  -- What `start_download` asks the registry to create
  abbrev pub download_model :
      Settings → Requested → (name expected_sha256 : Option Text) → Source → NewModel
  download_model settings r name expected_sha256 source = record {
    name = elim (given_text name) [ none ↦ stem source.base | some n ↦ n ];
    filename = source.base;
    path = settings.models_dir ++ b'/' ∷ source.base;
    source_type = r.source_type;
    source_ref = some source.source_ref;
    status = downloading;
    expected_sha256 = expected_sha256;
    sha256 = none;
    size_bytes = none;
    quant = none;
    arch = none;
    context_length = none;
  }

  -- `start_download` after its source is resolved
  abbrev pub start_checked : Drawn → NewModel → Service → Service × Reply
  start_checked d m s =
      if any (text_eq (path_key m.path)) s.import_paths
      then (s, busy)
      else if d.exists || not (is_null (find_by_path m.path s.registry))
      then (s, refused)
      else launch d.model_id d.now m s

  -- `start_download`
  unfoldable pub start_download :
      Settings
      → Drawn
      → Requested
      → (name expected_sha256 : Option Text) → Service
      → Service × Reply
  unfolding resolve_source
  start_download settings d r name expected_sha256 s =
      elim (resolve_source settings.hf_endpoint d.hex r) [
        | none ↦ (s, refused)
        | some source ↦ start_checked d (download_model settings r name expected_sha256 source) s
      ]

  -- `import_local` up to its first await
  abbrev pub reserve_import : Text → Service → Service × Reply
  reserve_import path s =
      if any (text_eq (path_key path)) s.import_paths
        || any (λ e. text_eq e.1 (path_key path)) s.download_paths
      then (s, busy)
      else (record s { import_paths = path_key path ∷ s.import_paths }, nothing)

  -- What `import_local` asks the registry to create
  abbrev pub import_model :
      Text → (name : Option Text) → GgufInfo → (sha256 : Option Text) → ℕ → NewModel
  import_model path name info sha256 size = record {
    name = elim (given_text name) [
      | none ↦ elim (given_text info.name) [ none ↦ stem (path_name path) | some n ↦ n ]
      | some n ↦ n
    ];
    filename = path_name path;
    path = path;
    source_type = "import";
    source_ref = some path;
    status = ready;
    expected_sha256 = none;
    sha256 = sha256;
    size_bytes = some size;
    quant = info.quant;
    arch = info.arch;
    context_length = info.context_length;
  }

  -- A row is created and returned.
  abbrev pub create_in : Service → String → ℕ → NewModel → Service × Reply
  create_in s model_id now m =
      (record s { registry = create model_id now m s.registry }, model (row_of model_id now m))

  -- The end of `import_local`: the row is created, unless the file is not there (`none`) or no
  -- GGUF file, and the path is free.
  -- Without the reservation there is no such import.
  abbrev pub finish_import :
      Text
      → String
      → ℕ
      → (name : Option Text) → (read : Option (GgufInfo × Text × ℕ)) → Service
      → Service × Reply
  finish_import path model_id now name read s =
      let free : Service = record s {
        import_paths = filter (λ k. not (text_eq (path_key path) k)) s.import_paths;
      } in
      if any (text_eq (path_key path)) s.import_paths
      then elim read [
        | none ↦ (free, refused)
        | some (info, digest, size) ↦
            if info.valid
            then create_in free model_id now (import_model path name info (some digest) size)
            else (free, refused)
      ]
      else (s, nothing)

  -- `operation`, entered and left
  abbrev pub enter_operation : ModelRecord → Service → Service × Reply
  enter_operation r s =
      if is_busy s r then (s, busy) else (record s { operations = r.id ∷ s.operations }, nothing)

  abbrev pub leave_operation : ModelRecord → Service → Service × Reply
  leave_operation r s =
      (record s { operations = filter (λ i. not (str_eq r.id i)) s.operations }, nothing)

  -- `delete_model`; `unlinked` and `stored` say that the files and the row could be removed.
  abbrev pub delete_model : (unlinked stored : Bool) → ModelRecord → Service → Service × Reply
  delete_model unlinked stored r s =
      if is_busy s r
      then (s, busy)
      else if unlinked && stored
      then (record s { registry = (delete r.id s.registry).0 }, nothing)
      else (s, delete_failed)

  -- `register_configured` of a file that exists
  abbrev pub register_configured :
      Text → Text → GgufInfo → ℕ → String → ℕ → Service → Service × Reply
  register_configured path name info size model_id now s =
      let m : NewModel = record (import_model path none info none size) { name = name } in
      elim (find_by_path path s.registry) [
        | some r ↦ (s, model r)
        | none ↦
            let created = create_in s model_id now m in
            (record s { registry = set_active model_id now created.0.registry }, created.1)
      ]
