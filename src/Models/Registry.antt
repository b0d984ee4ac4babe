-- ===== src/Models/Registry.antt =====
-- engine/models/registry.py: the table of the known models, in the order in which the rows were added.
-- A time is a number; a drawn id is an argument.
use inference_engine.Prelude.{
  ℕ, Bool, true, false, ◌&&◌, Option, none, some, List, [], ◌∷◌, ◌++◌, String, str_eq, Text,
  text_eq, update_where, delete_where, find, any,
}

pub data ModelStatus : Type 0 where
  downloading : ModelStatus
  verifying : ModelStatus
  ready : ModelStatus
  error : ModelStatus
  cancelled : ModelStatus

pub record ModelRecord : Type 0 where
  pub id : String
  pub name : Text
  pub filename : Text
  pub path : Text
  pub source_type : String
  pub source_ref : Option Text
  pub sha256 : Option Text
  pub expected_sha256 : Option Text
  pub size_bytes : Option ℕ
  pub downloaded_bytes : ℕ
  pub quant : Option String
  pub arch : Option String
  pub context_length : Option ℕ
  pub status : ModelStatus
  pub error : Option String
  pub active : Bool
  pub added_at : ℕ
  pub updated_at : Option ℕ

abbrev pub has_id : String → ModelRecord → Bool
has_id model_id r = str_eq r.id model_id

abbrev pub has_path : Text → ModelRecord → Bool
has_path path r = text_eq r.path path

-- The arguments of `create`
pub record NewModel : Type 0 where
  pub name : Text
  pub filename : Text
  pub path : Text
  pub source_type : String
  pub source_ref : Option Text
  pub status : ModelStatus
  pub expected_sha256 : Option Text
  pub sha256 : Option Text
  pub size_bytes : Option ℕ
  pub quant : Option String
  pub arch : Option String
  pub context_length : Option ℕ

abbrev pub row_of : String → ℕ → NewModel → ModelRecord
row_of model_id now m = record {
  id = model_id;
  name = m.name;
  filename = m.filename;
  path = m.path;
  source_type = m.source_type;
  source_ref = m.source_ref;
  sha256 = m.sha256;
  expected_sha256 = m.expected_sha256;
  size_bytes = m.size_bytes;
  downloaded_bytes = 0;
  quant = m.quant;
  arch = m.arch;
  context_length = m.context_length;
  status = m.status;
  error = none;
  active = false;
  added_at = now;
  updated_at = some now;
}

-- `create`
abbrev pub create : String → ℕ → NewModel → List ModelRecord → List ModelRecord
create model_id now m rows = rows ++ row_of model_id now m ∷ []

-- `update`, with the columns that it sets
abbrev pub update : String → ℕ → (ModelRecord → ModelRecord) → List ModelRecord → List ModelRecord
update model_id now set rows =
    update_where (has_id model_id) (λ r. record (set r) { updated_at = some now }) rows

-- `add_progress`
abbrev pub add_progress : String → ℕ → ℕ → List ModelRecord → List ModelRecord
add_progress model_id now done rows =
    update model_id now (λ r. record r { downloaded_bytes = done }) rows

-- `get`
abbrev pub get : String → List ModelRecord → Option ModelRecord
get model_id rows = find (has_id model_id) rows

-- `get_active`
abbrev pub get_active : List ModelRecord → Option ModelRecord
get_active rows = find (λ r. r.active) rows

-- `find_by_path`
abbrev pub find_by_path : Text → List ModelRecord → Option ModelRecord
find_by_path path rows = find (has_path path) rows

-- `clear_active`
unfoldable pub clear_active : List ModelRecord → List ModelRecord
clear_active rows = update_where (λ r. r.active) (λ r. record r { active = false }) rows

-- `set_active`
unfoldable pub set_active : String → ℕ → List ModelRecord → List ModelRecord
unfolding clear_active
set_active model_id now rows =
    update model_id now (λ r. record r { active = true }) (clear_active rows)

-- `delete`, with whether a row went
abbrev pub delete : String → List ModelRecord → List ModelRecord × Bool
delete model_id rows = (delete_where (has_id model_id) rows, any (has_id model_id) rows)

-- `status in (downloading, verifying)`
abbrev pub is_running : ModelStatus → Bool
is_running downloading = true
is_running verifying = true
is_running ready = false
is_running error = false
is_running cancelled = false

-- `mark_interrupted` from these two statuses, with whether a row changed
abbrev pub mark_interrupted : String → ℕ → String → List ModelRecord → List ModelRecord × Bool
mark_interrupted model_id now message rows =
    let hit : ModelRecord → Bool = λ r. has_id model_id r && is_running r.status in
    (
      update_where hit
          (λ r. record r { status = error; error = some message; updated_at = some now }) rows,
      any hit rows,
    )
