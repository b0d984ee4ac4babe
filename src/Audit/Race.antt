-- ===== src/Audit/Race.antt =====
-- Writers of the audit log: one after the other, and two at once (`AuditLog.record` of
-- engine/audit/log.py, whose SELECT and INSERT are two statements).
use inference_engine.Prelude.{
  ℕ, ◌+◌, ◌≡◌, ◌≢◌, refl, sym, ap, ◌∙◌, subst, Option, some, List, [], ◌∷◌, ◌++◌, length,
  length-append, Text, text_eq, text_eq_iff, arith, inl, inr, Bool-cases, some_inj,
}
use inference_engine.Audit.{
  Codec, Row, Log, VerifyResult, Entry, genesis_hash, last_hash, row_hash, new_row, insert_event,
  record_event, canonical_of, verify_from, verify_log,
}
use inference_engine.Audit.Chain.{
  head_of, last_hash-genesis, intact, broken_at, IsLinked, IsChain, IsChain-append,
  IsLinked-is_linked, Reports, verify_log-Reports, IsChain-verify_from,
}

head_of-last : (p : Text) (rows : List Row) (r : Row) → head_of p (rows ++ r ∷ []) ≡ r.hash
head_of-last p [] r = refl
head_of-last p (x ∷ xs) r = head_of-last x.hash xs r

module _ {D : Type 0} (c : Codec D) where
  Reports-intact :
      (prev : Text) (n m : ℕ) (rows : List Row) (o : Option VerifyResult)
      → Reports c prev n rows o
      → o ≡ some (intact m)
      → IsChain c prev rows × (m ≡ n + length rows)
  Reports-intact prev n m rows o (Reports.whole k e h) same =
      (h, ap (λ v. v.count) (sym (some_inj (intact k) (intact m) same)) ∙ e)
  Reports-intact prev n m rows o (Reports.broken k before after r text e s h q u) same =
      let wrong = ap (λ v. v.ok) (some_inj (broken_at k r.id) (intact m) same) in absurd cc
  Reports-intact prev n m rows o (Reports.unreadable before after r s h q) same = absurd cc

  pub intact-IsChain :
      (m : ℕ) (log : Log)
      → verify_log c log ≡ some (intact m)
      → IsChain c genesis_hash log.rows × (m ≡ length log.rows)
  intact-IsChain m log h =
      let r =
        Reports-intact genesis_hash 0 m log.rows (verify_log c log) (verify_log-Reports c log) h in
      (r.0, omega (arith, r.1))

  pub IsChain-intact :
      (log : Log)
      → IsChain c genesis_hash log.rows
      → verify_log c log ≡ some (intact (length log.rows))
  unfolding verify_log
  IsChain-intact log h =
      IsChain-verify_from c genesis_hash 0 log.rows h ∙ ap (λ m. some (intact m)) (omega arith)

  -- The calls of `record`, one after the other
  abbrev pub record_all : List (Entry D) → Log → Log
  record_all [] log = log
  record_all (e ∷ es) log = record_all es (record_event c e log)

  module _ (readable : (d : D) → c.loads (c.dumps d) ≡ some d) where
    new_row-IsLinked : (id : ℕ) (prev : Text) (e : Entry D) → IsLinked c prev (new_row c id prev e)
    new_row-IsLinked id prev e = (
      c.canonical e.ts e.actor e.action e.target e.detail,
      rw (canonical_of, readable e.detail) refl,
      refl,
      refl,
    )

    insert_event-IsChain :
        (e : Entry D) (log : Log)
        → IsChain c genesis_hash log.rows
        → IsChain c genesis_hash (record_event c e log).rows
    unfolding record_event
    insert_event-IsChain e log h = IsChain-append c genesis_hash log.rows _ h (
      subst (λ p. IsLinked c p (new_row c (log.last_id + 1) (last_hash log.rows) e))
          (last_hash-genesis log.rows) (new_row-IsLinked (log.last_id + 1) (last_hash log.rows) e),
      tt,
    )

    length-record_event :
        (e : Entry D) (log : Log) → length (record_event c e log).rows ≡ length log.rows + 1
    unfolding record_event
    length-record_event e log =
        length-append log.rows (new_row c (log.last_id + 1) (last_hash log.rows) e ∷ [])

    record_all-IsChain :
        (es : List (Entry D)) (log : Log)
        → IsChain c genesis_hash log.rows
        → IsChain c genesis_hash (record_all es log).rows
          × (length (record_all es log).rows ≡ length log.rows + length es)
    record_all-IsChain [] log h = (h, omega arith)
    record_all-IsChain (e ∷ es) log h =
        let r = record_all-IsChain es (record_event c e log) (insert_event-IsChain e log h) in
        (r.0, omega (arith, r.1, length-record_event e log))

  -- A log that verifies does so after any further calls of `record`, one after the other, with their
  -- number added: `json` reads back what it dumps.
  pub verify_log-record_all :
      (readable : (d : D) → c.loads (c.dumps d) ≡ some d) (es : List (Entry D)) (n : ℕ) (log : Log)
      → verify_log c log ≡ some (intact n)
      → verify_log c (record_all es log) ≡ some (intact (n + length es))
  verify_log-record_all readable es n log h =
      let old = intact-IsChain n log h in
      let all = record_all-IsChain readable es log old.0 in
      IsChain-intact (record_all es log) all.0
      ∙ ap (λ m. some (intact m)) (omega (arith, all.1, old.1))

  verify_from-append :
      (prev : Text) (n : ℕ) (xs ys : List Row)
      → IsChain c prev xs
      → verify_from c prev n (xs ++ ys) ≡ verify_from c (head_of prev xs) (n + length xs) ys
  unfolding verify_from
  verify_from-append prev n [] ys h = ap (λ m. verify_from c prev m ys) (omega arith)
  verify_from-append prev n (x ∷ xs) ys ((text, e, p, q), h) =
      rw (verify_from, e, IsLinked-is_linked c prev text x p q)
        (verify_from-append x.hash (n + 1) xs ys h
          ∙ ap (λ m. verify_from c (head_of x.hash xs) m ys) (omega arith))

  -- The text that the row of an event commits to
  abbrev pub text_of : Entry D → Text
  text_of e = c.canonical e.ts e.actor e.action e.target e.detail

  stale_row :
      (e : Entry D) (id n : ℕ) (prev head : Text)
      → c.loads (c.dumps e.detail) ≡ some e.detail
      → head ≢ prev
      → verify_from c head n (new_row c id prev e ∷ []) ≡ some (broken_at (n + 1) id)
  unfolding verify_from
  stale_row e id n prev head readable apart = elim (Bool-cases (text_eq prev head)) [
    | inl k ↦ absurd (apart (sym ((text_eq_iff prev head).0 k)))
    | inr k ↦ rw (verify_from, canonical_of, readable, k) refl
  ]

  -- Two writers that both read the last hash before either of them inserts its row leave a log that
  -- no longer verifies, although nobody has tampered with it: `verify` reports the row of the second.
  pub interleaved_records :
      (readable : (d : D) → c.loads (c.dumps d) ≡ some d) (a b : Entry D) (n : ℕ) (log : Log)
      → verify_log c log ≡ some (intact n)
      → row_hash c (last_hash log.rows) (text_of a) ≢ last_hash log.rows
      → let prev = last_hash log.rows in
        verify_log c (insert_event c prev b (insert_event c prev a log))
        ≡ some (broken_at (n + 2) (log.last_id + 2))
  unfolding verify_log insert_event
  interleaved_records readable a b n log h apart =
      let old = intact-IsChain n log h in
      let prev = last_hash log.rows in
      let first = new_row c (log.last_id + 1) prev a in
      let second = new_row c (log.last_id + 1 + 1) prev b in
      let linked : IsLinked c (head_of genesis_hash log.rows) first =
        subst (λ p. IsLinked c p first) (last_hash-genesis log.rows)
          (new_row-IsLinked readable (log.last_id + 1) prev a) in
      let chain : IsChain c genesis_hash (log.rows ++ first ∷ []) =
        IsChain-append c genesis_hash log.rows (first ∷ []) old.0 (linked, tt) in
      verify_from-append genesis_hash 0 (log.rows ++ first ∷ []) (second ∷ []) chain
      ∙ ap (λ p. verify_from c p (0 + length (log.rows ++ first ∷ [])) (second ∷ []))
          (head_of-last genesis_hash log.rows first)
      ∙ stale_row b (log.last_id + 1 + 1) (0 + length (log.rows ++ first ∷ [])) prev first.hash
          (readable b.detail) apart
      ∙ ap {A = ℕ × ℕ} (λ m. some (broken_at m.0 m.1))
          (ground (arith, length-append log.rows (first ∷ []), old.1))
