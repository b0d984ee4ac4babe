-- ===== src/Models/Download.antt =====
-- engine/models/downloader.py: the cancel flag with its commit point, and one resumable download.
-- Files and bodies are lists of bytes.  Errors of the local disk, the progress callback and the
-- details in the messages of errors are left out.
use inference_engine.Prelude.{
  ℕ, zero, suc, ◌+◌, Bool, true, false, ◌&&◌, not, Option, none, some, List, [], ◌∷◌, ◌++◌, String,
  is_empty, ltb, leb, ◌==◌, if◌then◌else◌, length, Text, text_eq, map,
}

-- `CancelEvent`
pub record CancelEvent : Type 0 where
  pub is_set : Bool
  pub committed : Bool

abbrev pub new_cancel : CancelEvent
new_cancel = record { is_set = false; committed = false }

-- `CancelEvent.request`, which `set` calls too
unfoldable pub request : CancelEvent → CancelEvent × Bool
request c = if c.committed then (c, false) else (record c { is_set = true }, true)

-- `CancelEvent.commit`, with whether it ran `promote`
unfoldable pub commit : CancelEvent → CancelEvent × Bool
commit c = if c.is_set then (c, false) else (record c { committed = true }, true)

-- What a read of the response gives: bytes, or an OSError or HTTPException.  After these reads, the
-- end.
pub data Read : Type 0 where
  bytes : Text → Read
  broken : Read

-- `content_length` is the header, where it is a row of digits.
pub record Response : Type 0 where
  pub status : ℕ
  pub content_length : Option ℕ
  pub body : List Read

-- How `urlopen` ends
pub data Opened : Type 0 where
  invalid_url : Opened
  http_error : ℕ → Opened
  network_error : Opened
  responded : Response → Opened

-- How `download` ends: with the digest, or with DownloadCancelled, ChecksumMismatch or another
-- DownloadError.
pub data Ended : Type 0 where
  finished : Text → Ended
  cancelled : Ended
  mismatched : Ended
  failed : String → Ended

-- The `.part` file and the destination
pub record Files : Type 0 where
  pub part : Option Text
  pub dest : Option Text

-- What `_check` sees of the cancel flag: before the request; after the response; in the loop, at each
-- check; after the loop; while the file is hashed; and the flag itself at the commit point.
pub record Watch : Type 0 where
  pub before : Bool
  pub opened : Bool
  pub reading : ℕ → Bool
  pub read_all : Bool
  pub hashing : Bool
  pub committing : CancelEvent

-- The arguments of `download`; no limit is the limit 0, and no expected digest the empty one.
pub record Wanted : Type 0 where
  pub max_bytes : ℕ
  pub expected_sha256 : Text

abbrev lower_char : ℕ → ℕ
lower_char c = if leb 65 c && leb c 90 then c + 32 else c

-- `text.lower()` of an ASCII text
abbrev pub lower : Text → Text
lower = map lower_char

-- `max_bytes and n > max_bytes`
abbrev pub exceeds : ℕ → ℕ → Bool
exceeds max_bytes n = not (max_bytes == 0) && ltb max_bytes n

-- The loop that reads the response into the `.part` file, with the file's content so far, the number
-- of bytes and the next check; `none` is the end of the loop.
unfoldable pub read_loop : Wanted → (ℕ → Bool) → ℕ → List Read → Text → ℕ → Text × Option Ended
read_loop w stopped k [] content downloaded = (
  content,
  if stopped k then some cancelled else if stopped (k + 1) then some cancelled else none,
)
read_loop w stopped k (broken ∷ rs) content downloaded =
    (content, some (if stopped k then cancelled else failed "network error reading model"))
read_loop w stopped k (bytes chunk ∷ rs) content downloaded =
    let rest = read_loop w stopped (k + 3) rs (content ++ chunk) (downloaded + length chunk) in
    if stopped k
    then (content, some cancelled)
    else if stopped (k + 1)
    then (content, some cancelled)
    else if is_empty chunk
    then (content, none)
    else if exceeds w.max_bytes (downloaded + length chunk)
    then (content ++ chunk, some (failed "model exceeds max_model_bytes"))
    else if stopped (k + 2)
    then (content ++ chunk, some cancelled)
    else rest

-- The end of `download` after the loop: the digest is checked and the file promoted.
unfoldable pub promote : (Text → Text) → Wanted → Watch → Text → Option Text → Files × Ended
unfolding commit
promote sha256 w watch content dest =
    let kept : Files = record { part = some content; dest = dest } in
    if watch.read_all
    then (kept, cancelled)
    else if watch.hashing
    then (kept, cancelled)
    else if not (is_empty w.expected_sha256)
        && not (text_eq (lower (sha256 content)) (lower w.expected_sha256))
    then (kept, mismatched)
    else if (commit watch.committing).1
    then (record { part = none; dest = some content }, finished (sha256 content))
    else (kept, cancelled)

-- The number of bytes that the header announces, where it does
abbrev pub total_of : ℕ → Bool → Option ℕ → Option ℕ
total_of resume_from partial none = none
total_of resume_from partial (some n) = some (n + (if partial then resume_from else 0))

-- `max_bytes and total and total > max_bytes`
abbrev pub announces_too_much : ℕ → Option ℕ → Bool
announces_too_much max_bytes none = false
announces_too_much max_bytes (some n) = exceeds max_bytes n

abbrev pub after_loop :
    (Text → Text) → Wanted → Watch → Option Text → Text × Option Ended → Files × Ended
after_loop sha256 w watch dest (content, some e) = (record { part = some content; dest = dest }, e)
after_loop sha256 w watch dest (content, none) = promote sha256 w watch content dest

-- `download` from the response on; `old` is the `.part` file that it resumes, and empty without one.
unfoldable pub receive : (Text → Text) → Wanted → Watch → Response → Text → Files → Files × Ended
unfolding read_loop promote
receive sha256 w watch r old files =
    let partial = r.status == 206 in
    let resumed : Text = if partial then old else [] in
    let kept : Files =
      if is_empty old then files else if partial then files else record files { part = none } in
    if watch.opened
    then (files, cancelled)
    else if announces_too_much w.max_bytes (total_of (length resumed) partial r.content_length)
    then (kept, failed "model exceeds max_model_bytes")
    else after_loop sha256 w watch files.dest
        (read_loop w watch.reading 0 r.body resumed (length resumed))

-- What `part.stat().st_size if part.is_file() else 0` measures
abbrev pub part_of : Files → Text
part_of files = elim files.part [ none ↦ [] | some content ↦ content ]

-- What `download` makes of the server's answer; `again` is its call of itself, where the server refuses
-- the range.
abbrev pub answered :
    (Text → Text)
    → Wanted
    → Watch
    → Files
    → (again : Option (Files × Ended)) → Opened
    → Option (Files × Ended)
answered sha256 w watch files again invalid_url = some (files, failed "invalid model URL")
answered sha256 w watch files again network_error =
    some (files, failed "network error fetching model")
answered sha256 w watch files again (http_error code) =
    if not (is_empty (part_of files)) && (code == 416)
    then again
    else some (files, failed "HTTP error fetching model")
answered sha256 w watch files again (responded r) =
    some (receive sha256 w watch r (part_of files) files)

-- `download`; `none` is the end of the fuel.  `open_url` is what urllib answers to a request from this
-- offset, and `watch` what the checks of this call see, the first or the second.
unfoldable pub download :
    (Text → Text)
    → Wanted
    → (ℕ → Watch)
    → (ℕ → Opened)
    → (fuel : ℕ) → Files
    → Option (Files × Ended)
unfolding receive
download sha256 w watch open_url zero files = none
download sha256 w watch open_url (suc fuel) files =
    let again =
      download sha256 w (λ i. watch (i + 1)) open_url fuel (record files { part = none }) in
    if (watch 0).before
    then some (files, cancelled)
    else answered sha256 w (watch 0) files again (open_url (length (part_of files)))
