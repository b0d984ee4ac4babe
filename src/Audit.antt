-- ===== src/Audit.antt =====
-- engine/audit/log.py: the hash-chained audit log, as the rows of its table in the order of their
-- ids.  Texts are lists of code points.
mod Chain
mod Tamper
mod Race
mod Tests
use inference_engine.Prelude.{
  ℕ, zero, suc, ◌+◌, Bool, true, false, ◌&&◌, Option, none, some, List, [], ◌∷◌, ◌++◌, length,
  if◌then◌else◌, Text, text_eq,
}

-- A row of `audit_events`.
pub record Row : Type 0 where
  pub id : ℕ
  pub ts : Text
  pub actor : Text
  pub action : Text
  pub target : Option Text
  pub detail : Text
  pub prev_hash : Text
  pub hash : Text

-- The table, and the greatest id that AUTOINCREMENT has given.
pub record Log : Type 0 where
  pub rows : List Row
  pub last_id : ℕ

-- `VerifyResult`
pub record VerifyResult : Type 0 where
  pub ok : Bool
  pub count : ℕ
  pub first_bad_id : Option ℕ

-- What one event says: when, who, what and on what.
pub record Entry (D : Type 0) : Type 0 where
  pub ts : Text
  pub actor : Text
  pub action : Text
  pub target : Option Text
  pub detail : D

-- `GENESIS_HASH`
abbrev zeros : ℕ → Text
zeros zero = []
zeros (suc n) = b'0' ∷ zeros n

abbrev pub genesis_hash : Text
genesis_hash = zeros 64

-- The last row of a table, if it has one.
abbrev pub last_row : List Row → Option Row
last_row [] = none
last_row (r ∷ []) = some r
last_row (r ∷ s ∷ rs) = last_row (s ∷ rs)

-- `_last_hash`
abbrev pub last_hash : List Row → Text
last_hash rows = elim (last_row rows) [ none ↦ genesis_hash | some r ↦ r.hash ]

-- The functions of json and hashlib: `canonical` dumps the five values with sorted keys, `dumps` a
-- detail, `loads` reads one (`none` is a JSONDecodeError), and `sha256` is the digest of a text in
-- hexadecimal.
pub record Codec (D : Type 0) : Type 0 where
  pub canonical : Text → Text → Text → Option Text → D → Text
  pub dumps : D → Text
  pub loads : Text → Option D
  pub sha256 : Text → Text

module _ {D : Type 0} (c : Codec D) where
  -- `_row_hash`
  abbrev pub row_hash : Text → Text → Text
  row_hash prev_hash text = c.sha256 (prev_hash ++ text)

  -- The row that `record` inserts, after it has read the last hash as `prev_hash`.
  abbrev pub new_row : ℕ → Text → Entry D → Row
  new_row id prev_hash e = record {
    id = id;
    ts = e.ts;
    actor = e.actor;
    action = e.action;
    target = e.target;
    detail = c.dumps e.detail;
    prev_hash = prev_hash;
    hash = row_hash prev_hash (c.canonical e.ts e.actor e.action e.target e.detail);
  }

  -- The INSERT of `record`
  unfoldable pub insert_event : Text → Entry D → Log → Log
  insert_event prev_hash e log = record {
    rows = log.rows ++ new_row (log.last_id + 1) prev_hash e ∷ [];
    last_id = log.last_id + 1;
  }

  -- `record`, where no other writer comes between its SELECT and its INSERT
  unfoldable pub record_event : Entry D → Log → Log
  unfolding insert_event
  record_event e log = insert_event (last_hash log.rows) e log

  -- The canonical text of a row, as `verify` computes it
  abbrev pub canonical_of : Row → Option Text
  canonical_of r = elim (c.loads r.detail) [
    | none ↦ none
    | some d ↦ some (c.canonical r.ts r.actor r.action r.target d)
  ]

  -- `r["prev_hash"] != prev or r["hash"] != expected`, negated
  abbrev pub is_linked : Text → Text → Row → Bool
  is_linked prev text r = text_eq r.prev_hash prev && text_eq r.hash (row_hash prev text)

  -- The loop of `verify`; `none` is the JSONDecodeError, which it passes on.
  unfoldable pub verify_from : Text → ℕ → List Row → Option VerifyResult
  verify_from prev count [] = some (record { ok = true; count = count; first_bad_id = none })
  verify_from prev count (r ∷ rs) =
      let rest = verify_from r.hash (count + 1) rs in
      elim (canonical_of r) [
        | none ↦ none
        | some text ↦
            if is_linked prev text r
            then rest
            else some (record { ok = false; count = count + 1; first_bad_id = some r.id })
      ]

  -- `verify`
  unfoldable pub verify_log : Log → Option VerifyResult
  unfolding verify_from
  verify_log log = verify_from genesis_hash 0 log.rows
