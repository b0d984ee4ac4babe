-- ===== src/Models/Finished.antt =====
-- What `download` of engine/models/downloader.py leaves: a promoted file with its digest, or the
-- destination as it was and a `.part` file to resume.
use inference_engine.Prelude.{
  ℕ, suc, ◌+◌, ◌≡◌, refl, Bool, true, false, ◌&&◌, not, Option, none, some, is_empty, ◌==◌,
  if◌then◌else◌, length, Text, arith, Bool-cases, inl, inr,
}
use inference_engine.Models.Download.{
  Opened, invalid_url, http_error, network_error, responded, Ended, cancelled, Files, Watch, Wanted,
  part_of, answered, download,
}
use inference_engine.Models.Fetched.{is_finished}
use inference_engine.Models.Ends.{IsResumed, IsPartial, Ends, stays, receive-Ends}

module _ (sha256 : Text → Text) (w : Wanted) (open_url : ℕ → Opened) where
  IsResumed-again :
      (files : Files) (old : Text)
      → IsResumed (record files { part = none }) old
      → IsResumed files old
  IsResumed-again files old (inl h) = inr h
  IsResumed-again files old (inr h) = inr h

  IsPartial-again :
      (files : Files) (part : Option Text)
      → IsPartial open_url (record files { part = none }) part
      → IsPartial open_url files part
  IsPartial-again files part (inl h) = inr (inl h)
  IsPartial-again files part (inr (inl h)) = inr (inl h)
  IsPartial-again files part (inr (inr (content, same, h))) = inr (
      inr (
        content,
        same,
        record {
          old = h.old;
          response = h.response;
          resumed = IsResumed-again files h.old h.resumed;
          answer = h.answer;
          reads = h.reads;
        },
      ))

  Ends-again :
      (watch : ℕ → Watch) (files : Files) (p : Files × Ended)
      → Ends sha256 w (λ i. watch (i + 1)) open_url (record files { part = none }) p
      → Ends sha256 w watch open_url files p
  Ends-again watch files p h = record {
    promoted = λ digest same.
        let k = h.promoted digest same in
        record {
          old = k.old;
          response = k.response;
          resumed = IsResumed-again files k.old k.resumed;
          answer = k.answer;
          content = k.content;
          unbroken = k.unbroken;
          complete = k.complete;
          in_place = k.in_place;
          hashed = k.hashed;
          expected = k.expected;
          uncancelled = (k.uncancelled.0 + 1, k.uncancelled.1);
          bounded = λ b le. k.bounded b (omega arith);
        };
    kept = λ u. ((h.kept u).0, IsPartial-again files p.0.part (h.kept u).1);
  }

  -- The same result with every fuel, and how it ends
  abbrev pub Returns : (ℕ → Watch) → Files → (ℕ → Option (Files × Ended)) → Type 0
  Returns watch files f =
      (p : Files × Ended) × ((n : ℕ) → f n ≡ some p) × Ends sha256 w watch open_url files p

  untouched :
      (watch : ℕ → Watch) (files : Files) (e : Ended)
      → is_finished e ≡ false
      → Returns watch files (λ n. some (files, e))
  untouched watch files e h =
      ((files, e), (λ n. refl), stays sha256 w open_url watch files files e h refl (inl refl))

  answered-Returns :
      (watch : ℕ → Watch) (files : Files) (again : ℕ → Option (Files × Ended)) (o : Opened)
      → open_url (length (part_of files)) ≡ o
      → (is_empty (part_of files) ≡ false → Returns watch files again)
      → Returns watch files (λ n. answered sha256 w (watch 0) files (again n) o)
  answered-Returns watch files again invalid_url e h = untouched watch files _ refl
  answered-Returns watch files again network_error e h = untouched watch files _ refl
  answered-Returns watch files again (http_error code) e h =
      elim (Bool-cases (not (is_empty (part_of files)) && (code == 416))) [
        | inl k ↦ rw k (h (ground (arith, k)))
        | inr k ↦ rw k (untouched watch files _ refl)
      ]
  answered-Returns watch files again (responded r) e h =
      (_, (λ n. refl), receive-Ends sha256 w open_url watch files r e)

  cancelled_or :
      (watch : ℕ → Watch) (files : Files) (b : Bool) (f : ℕ → Option (Files × Ended))
      → Returns watch files f
      → Returns watch files (λ n. if b then some (files, cancelled) else f n)
  cancelled_or watch files true f h = untouched watch files cancelled refl
  cancelled_or watch files false f h = h

  attempt-Returns :
      (watch : ℕ → Watch) (files : Files) (again : ℕ → Option (Files × Ended))
      → (is_empty (part_of files) ≡ false → Returns watch files again)
      → Returns watch files (λ n.
        if (watch 0).before
        then some (files, cancelled)
        else answered sha256 w (watch 0) files (again n) (open_url (length (part_of files))))
  attempt-Returns watch files again h =
      cancelled_or watch files (watch 0).before
        (λ n. answered sha256 w (watch 0) files (again n) (open_url (length (part_of files))))
        (answered-Returns watch files again (open_url (length (part_of files))) refl h)

  -- Whatever the server answers to each request and whenever a check sees a cancel: `download`
  -- calls itself at most once, so it returns, and its result `p` is as `Ends` says.  A finished
  -- download has put the bytes it resumed and then all that the server sent, up to the end of the
  -- body and with no read that failed before it, at the destination; its digest is the one returned
  -- and, up to the case of letters, the one expected, if one was; it was not cancelled at the
  -- commit point; and with a limit the file is within it if the `.part` file was.  Any other
  -- download leaves the destination as it was, with the `.part` file unchanged, removed, or a
  -- prefix of what the server sends.
  pub download-Returns :
      (watch : ℕ → Watch) (files : Files)
      → (p : Files × Ended) × ((n : ℕ)
          → download sha256 w watch open_url (suc (suc n)) files ≡ some p)
        × Ends sha256 w watch open_url files p
  unfolding download
  download-Returns watch files =
      let first =
        attempt-Returns (λ i. watch (i + 1)) (record files { part = none })
          (λ n.
            download sha256 w (λ i. watch ((i + 1) + 1)) open_url n (record files { part = none }))
          (λ k. absurd cc) in
      attempt-Returns watch files
        (λ n.
          download sha256 w (λ i. watch (i + 1)) open_url (suc n) (record files { part = none }))
        (λ k. (first.0, first.1, Ends-again watch files first.0 first.2))
