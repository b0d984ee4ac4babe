-- ===== src/Models/Names.antt =====
-- engine/models/service.py: the file that a download is stored in, and what is recorded of its
-- source.  Texts are lists of code points.
use inference_engine.Prelude.{
  ℕ, Bool, false, ◌&&◌, ◌||◌, not, Option, none, some, List, [], ◌∷◌, ◌++◌, String, str_eq, all,
  is_empty, leb, ◌==◌, if◌then◌else◌, Text, codes, text_eq, split_on, length, filter,
}

-- A falsy argument is one that is not given.
abbrev pub given_text : Option Text → Option Text
given_text none = none
given_text (some t) = if is_empty t then none else some t

-- The components of a POSIX path that `Path` keeps, apart from the root
abbrev pub is_part : Text → Bool
is_part t = not (is_empty t) && not (text_eq t (b'.' ∷ []))

abbrev pub last_text : Text → List Text → Text
last_text t [] = t
last_text t (u ∷ us) = last_text u us

-- `Path(name).name`
unfoldable pub path_name : Text → Text
path_name name = last_text [] (filter is_part (split_on b'/' name))

-- `_safe_filename`
unfoldable pub safe_filename : Text → Text
unfolding path_name
safe_filename name = let base = path_name name in if is_empty base then codes "model.gguf" else base

abbrev pub is_alnum : ℕ → Bool
is_alnum c = (leb 48 c && leb c 57) || ((leb 65 c && leb c 90) || (leb 97 c && leb c 122))

abbrev pub is_name_char : ℕ → Bool
is_name_char c = is_alnum c || ((c == b'.') || ((c == b'_') || (c == b'-')))

-- `_OPERATOR_FILENAME.fullmatch(filename)`
abbrev pub is_operator_filename : Text → Bool
is_operator_filename [] = false
is_operator_filename (c ∷ cs) = is_alnum c && (all is_name_char cs && leb (length cs) 127)

-- `_url_download_filename`, where `hex` is the first 12 digits of the drawn UUID; `none` is the
-- ModelServiceError.
unfoldable pub url_download_filename : Text → Option Text → Option Text
url_download_filename hex filename = elim (given_text filename) [
  | none ↦ some (codes "download-" ++ hex ++ codes ".gguf")
  | some name ↦ if is_operator_filename name then some name else none
]

-- `URL_SOURCE_DESCRIPTOR`
abbrev pub url_source_descriptor : Text
url_source_descriptor = codes "address not stored"

-- `text.endswith(suffix)`
abbrev pub ends_with : Text → Text → Bool
ends_with suffix [] = text_eq suffix []
ends_with suffix (c ∷ cs) = text_eq suffix (c ∷ cs) || ends_with suffix cs

-- `endpoint.rstrip("/")`
abbrev pub rstrip_slash : Text → Text
rstrip_slash [] = []
rstrip_slash (c ∷ cs) =
    let rest = rstrip_slash cs in if (c == b'/') && is_empty rest then [] else c ∷ rest

-- `hf_url` of engine/models/downloader.py
unfoldable pub hf_url : Text → Text → Text → Text → Text
hf_url endpoint repo filename revision =
    rstrip_slash endpoint ++ b'/' ∷ repo ++ codes "/resolve/" ++ revision ++ b'/' ∷ filename

-- What `start_download` makes of its arguments: where it fetches, what it records as the source, and
-- the name of the file.
pub record Source : Type 0 where
  pub fetch_url : Text
  pub source_ref : Text
  pub base : Text

-- The arguments of `start_download` that name the source
pub record Requested : Type 0 where
  pub source_type : String
  pub repo : Option Text
  pub filename : Option Text
  pub revision : Text
  pub url : Option Text

-- `if not base.endswith(".gguf"): base += ".gguf"`
abbrev pub with_suffix : Text → Text
with_suffix base = if ends_with (codes ".gguf") base then base else base ++ codes ".gguf"

-- The start of `start_download`; `none` is the ModelServiceError.
unfoldable pub resolve_source : (endpoint hex : Text) → Requested → Option Source
unfolding safe_filename url_download_filename hf_url
resolve_source endpoint hex r =
    if str_eq r.source_type "huggingface"
    then elim (given_text r.repo) [
      | none ↦ none
      | some repo ↦ elim (given_text r.filename) [
        | none ↦ none
        | some filename ↦ some (record {
          fetch_url = hf_url endpoint repo filename r.revision;
          source_ref = repo ++ b'/' ∷ filename ++ b'@' ∷ r.revision;
          base = with_suffix (safe_filename filename);
        })
      ]
    ]
    else if str_eq r.source_type "url"
    then elim (given_text r.url) [
      | none ↦ none
      | some url ↦ elim (url_download_filename hex r.filename) [
        | none ↦ none
        | some base ↦ some (record {
          fetch_url = url;
          source_ref = url_source_descriptor;
          base = with_suffix base;
        })
      ]
    ]
    else none
