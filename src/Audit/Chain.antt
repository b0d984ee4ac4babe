-- ===== src/Audit/Chain.antt =====
-- What `AuditLog.verify` reports of a table, and that `AuditLog.record` keeps it intact
-- (engine/audit/log.py).
use inference_engine.Prelude.{
  ℕ, ◌+◌, ◌≡◌, refl, ap, ◌∙◌, true, false, Option, none, some, List, [], ◌∷◌, ◌++◌, length, Text,
  text_eq_iff, arith, inl, inr, Bool-cases, Option-cases,
}
use inference_engine.Audit.{
  Codec, Row, Log, VerifyResult, genesis_hash, last_hash, row_hash, canonical_of, is_linked,
  verify_from, verify_log,
}

-- The hash that the row after these has to name.
abbrev pub head_of : Text → List Row → Text
head_of prev [] = prev
head_of prev (r ∷ rs) = head_of r.hash rs

abbrev pub intact : ℕ → VerifyResult
intact n = record { ok = true; count = n; first_bad_id = none }

abbrev pub broken_at : ℕ → ℕ → VerifyResult
broken_at n id = record { ok = false; count = n; first_bad_id = some id }

last_hash-head_of : (p : Text) (r : Row) (rs : List Row) → last_hash (r ∷ rs) ≡ head_of p (r ∷ rs)
last_hash-head_of p r [] = refl
last_hash-head_of p r (s ∷ rs) = last_hash-head_of r.hash s rs

pub last_hash-genesis : (rows : List Row) → last_hash rows ≡ head_of genesis_hash rows
last_hash-genesis [] = refl
last_hash-genesis (r ∷ rs) = last_hash-head_of genesis_hash r rs

module _ {D : Type 0} (c : Codec D) where
  -- The row names the hash before it, and its own is that of its content.
  abbrev pub IsLinked : Text → Row → Type 0
  IsLinked prev r =
      (text : Text) × (canonical_of c r ≡ some text)
      × (r.prev_hash ≡ prev)
      × (r.hash ≡ row_hash c prev text)

  abbrev pub IsChain : Text → List Row → Type 0
  IsChain prev [] = Unit
  IsChain prev (r ∷ rs) = IsLinked prev r × IsChain r.hash rs

  pub IsChain-append :
      (prev : Text) (xs ys : List Row)
      → IsChain prev xs
      → IsChain (head_of prev xs) ys
      → IsChain prev (xs ++ ys)
  IsChain-append prev [] ys h k = k
  IsChain-append prev (x ∷ xs) ys h k = (h.0, IsChain-append x.hash xs ys h.1 k)

  is_linked-IsLinked :
      (prev text : Text) (r : Row)
      → is_linked c prev text r ≡ true
      → (r.prev_hash ≡ prev) × (r.hash ≡ row_hash c prev text)
  is_linked-IsLinked prev text r h = (
    (text_eq_iff r.prev_hash prev).0 (ground (arith, h)),
    (text_eq_iff r.hash (row_hash c prev text)).0 (ground (arith, h)),
  )

  pub IsLinked-is_linked :
      (prev text : Text) (r : Row)
      → r.prev_hash ≡ prev
      → r.hash ≡ row_hash c prev text
      → is_linked c prev text r ≡ true
  IsLinked-is_linked prev text r p q =
      rw ((text_eq_iff r.prev_hash prev).1 p, (text_eq_iff r.hash (row_hash c prev text)).1 q) refl

  -- What `verify` may say of the rows that it has come to, after `n` others.
  pub data Reports (prev : Text) (n : ℕ) (rows : List Row) : Option VerifyResult → Type 0 where
    whole :
        (m : ℕ) → m ≡ n + length rows → IsChain prev rows → Reports prev n rows (some (intact m))
    broken :
        (m : ℕ) (before after : List Row) (r : Row) (text : Text)
        → m ≡ n + length before + 1
        → rows ≡ before ++ r ∷ after
        → IsChain prev before
        → canonical_of c r ≡ some text
        → is_linked c (head_of prev before) text r ≡ false
        → Reports prev n rows (some (broken_at m r.id))
    unreadable :
        (before after : List Row) (r : Row)
        → rows ≡ before ++ r ∷ after
        → IsChain prev before
        → canonical_of c r ≡ none
        → Reports prev n rows none

  Reports-next :
      (prev : Text) (n : ℕ) (r : Row) (rs : List Row) (o : Option VerifyResult)
      → IsLinked prev r
      → Reports r.hash (n + 1) rs o
      → Reports prev n (r ∷ rs) o
  Reports-next prev n r rs o l (whole m e k) = whole m (omega (arith, e)) (l, k)
  Reports-next prev n r rs o l (broken m before after x text e same k q u) =
      broken m (r ∷ before) after x text (omega (arith, e)) (ap (λ t. r ∷ t) same) (l, k) q u
  Reports-next prev n r rs o l (unreadable before after x same k q) =
      unreadable (r ∷ before) after x (ap (λ t. r ∷ t) same) (l, k) q

  verify_from-Reports :
      (prev : Text) (n : ℕ) (rows : List Row) → Reports prev n rows (verify_from c prev n rows)
  unfolding verify_from
  verify_from-Reports prev n [] = whole n (omega arith) tt
  verify_from-Reports prev n (r ∷ rs) = elim (Option-cases (canonical_of c r)) [
    | inl e ↦ rw (verify_from, e) (unreadable [] rs r refl tt e)
    | inr (text, e) ↦ elim (Bool-cases (is_linked c prev text r)) [
      | inl k ↦
          let l = is_linked-IsLinked prev text r k in
          rw (verify_from, e, k)
            (Reports-next prev n r rs (verify_from c r.hash (n + 1) rs) (text, e, l.0, l.1)
              (verify_from-Reports r.hash (n + 1) rs))
      | inr k ↦ rw (verify_from, e, k) (broken (n + 1) [] rs r text (omega arith) refl tt e k)
    ]
  ]

  -- `verify` is exact: it reports a table as intact only where each row is linked to the one before,
  -- with their number; else it stops at the first row that is not, and names its id and place, or
  -- passes on the JSONDecodeError of a detail that is no JSON.
  pub verify_log-Reports : (log : Log) → Reports genesis_hash 0 log.rows (verify_log c log)
  unfolding verify_log
  verify_log-Reports log = verify_from-Reports genesis_hash 0 log.rows

  pub IsChain-verify_from :
      (prev : Text) (n : ℕ) (rows : List Row)
      → IsChain prev rows
      → verify_from c prev n rows ≡ some (intact (n + length rows))
  unfolding verify_from
  IsChain-verify_from prev n [] h = ap (λ m. some (intact m)) (omega arith)
  IsChain-verify_from prev n (r ∷ rs) ((text, e, p, q), h) =
      rw (verify_from, e, IsLinked-is_linked prev text r p q)
        (IsChain-verify_from r.hash (n + 1) rs h ∙ ap (λ m. some (intact m)) (omega arith))
