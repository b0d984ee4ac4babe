-- ===== src/Models/Ends.antt =====
-- How `download` of engine/models/downloader.py ends once a response is there.
use inference_engine.Prelude.{
  ℕ, ◌≤◌, ◌<◌, ◌≡◌, refl, ap, ◌∙◌, true, false, ◌&&◌, not, Option, none, some, [], ◌++◌, is_empty,
  ◌==◌, if◌then◌else◌, length, length-append, Text, text_eq, text_eq_iff, arith, Bool-cases,
  if-rule, inl, inr, ◌⊎◌,
}
use inference_engine.Models.Download.{
  commit, Response, Opened, responded, Ended, finished, cancelled, mismatched, failed, Files, Watch,
  Wanted, lower, read_loop, promote, total_of, announces_too_much, after_loop, receive, part_of,
}
use inference_engine.Models.Fetched.{
  joined, is_unbroken, whole, is_finished, LoopEnds, read_loop-LoopEnds,
}

-- The `.part` file that a request resumes: the one at the start, or none after it was refused
abbrev pub IsResumed : Files → Text → Type 0
IsResumed files old = (old ≡ part_of files) ⊎ (old ≡ [])

-- What a response continues
abbrev pub base_of : Response → Text → Text
base_of r old = if r.status == 206 then old else []

-- A `.part` file that is a prefix of what the server sends
pub record IsPrefix (open_url : ℕ → Opened) (files : Files) (content : Text) : Type 0 where
  pub old : Text
  pub response : Response
  pub resumed : IsResumed files old
  pub answer : open_url (length old) ≡ responded response
  pub reads : (n : ℕ) × (content ≡ base_of response old ++ joined n response.body)

-- The `.part` file of a download that did not finish
abbrev pub IsPartial : (ℕ → Opened) → Files → Option Text → Type 0
IsPartial open_url files part =
    (part ≡ files.part)
    ⊎ (part ≡ none)
    ⊎ (content : Text) × (part ≡ some content) × IsPrefix open_url files content

-- A promoted file
pub record IsPromoted (sha256 : Text → Text) (w : Wanted) (watch : ℕ → Watch)
    (open_url : ℕ → Opened) (files : Files) (left : Files) (digest : Text) : Type 0 where
  pub old : Text
  pub response : Response
  pub resumed : IsResumed files old
  pub answer : open_url (length old) ≡ responded response
  pub content : Text
  pub unbroken : is_unbroken response.body ≡ true
  pub complete : content ≡ base_of response old ++ whole response.body
  pub in_place : left ≡ record { part = none; dest = some content }
  pub hashed : digest ≡ sha256 content
  pub expected : (is_empty w.expected_sha256 ≡ true) ⊎ (lower digest ≡ lower w.expected_sha256)
  pub uncancelled : (i : ℕ) × ((watch i).committing.is_set ≡ false)
  pub bounded :
      0 < w.max_bytes → length (part_of files) ≤ w.max_bytes → length content ≤ w.max_bytes

pub record Ends (sha256 : Text → Text) (w : Wanted) (watch : ℕ → Watch) (open_url : ℕ → Opened)
    (files : Files) (p : Files × Ended) : Type 0 where
  pub promoted :
      (digest : Text) → p.1 ≡ finished digest → IsPromoted sha256 w watch open_url files p.0 digest
  pub kept : is_finished p.1 ≡ false → (p.0.dest ≡ files.dest) × IsPartial open_url files p.0.part

module _ (sha256 : Text → Text) (w : Wanted) (open_url : ℕ → Opened) where
  pub stays :
      (watch : ℕ → Watch) (files left : Files) (e : Ended)
      → is_finished e ≡ false
      → left.dest ≡ files.dest
      → IsPartial open_url files left.part
      → Ends sha256 w watch open_url files (left, e)
  stays watch files left e h d k = record {
    promoted = λ digest same. absurd (ground (arith, h, ap is_finished same));
    kept = λ u. (d, k);
  }

  module _ (watch : ℕ → Watch) (files : Files) (r : Response)
      (answer : open_url (length (part_of files)) ≡ responded r) where
    prefix :
        (content : Text)
        → (n : ℕ) × (content ≡ base_of r (part_of files) ++ joined n r.body)
        → IsPartial open_url files (some content)
    prefix content reads = inr (
        inr (
          content,
          refl,
          record {
            old = part_of files;
            response = r;
            resumed = inl refl;
            answer = answer;
            reads = reads;
          },
        ))

    digest_matches :
        (content : Text)
        → (not (is_empty w.expected_sha256)
            && not (text_eq (lower (sha256 content)) (lower w.expected_sha256)))
          ≡ false
        → (is_empty w.expected_sha256 ≡ true) ⊎ (lower (sha256 content) ≡ lower w.expected_sha256)
    digest_matches content h = elim (Bool-cases (is_empty w.expected_sha256)) [
      | inl e ↦ inl e
      | inr e ↦
          let same : text_eq (lower (sha256 content)) (lower w.expected_sha256) ≡ true =
            ground (arith, h, e) in
          inr ((text_eq_iff (lower (sha256 content)) (lower w.expected_sha256)).0 same)
    ]

    promote-Ends :
        (content : Text)
        → (n : ℕ) × (content ≡ base_of r (part_of files) ++ joined n r.body)
        → is_unbroken r.body ≡ true
        → content ≡ base_of r (part_of files) ++ whole r.body
        → (0 < w.max_bytes → length (part_of files) ≤ w.max_bytes → length content ≤ w.max_bytes)
        → Ends sha256 w watch open_url files (promote sha256 w (watch 0) content files.dest)
    unfolding promote commit
    promote-Ends content reads unbroken complete bounded =
        let P : Files × Ended → Type 0 = Ends sha256 w watch open_url files in
        let left : Files = record { part = some content; dest = files.dest } in
        let keep : (e : Ended) → is_finished e ≡ false → P (left, e) =
          λ e h. stays watch files left e h refl (prefix content reads) in
        if-rule P (watch 0).read_all (λ a. keep cancelled refl)
          (λ a.
            if-rule P (watch 0).hashing (λ b. keep cancelled refl)
              (λ b.
                if-rule P
                  (not (is_empty w.expected_sha256)
                    && not (text_eq (lower (sha256 content)) (lower w.expected_sha256)))
                  (λ c. keep mismatched refl)
                  (λ c. elim (Bool-cases (watch 0).committing.is_set) [
                    | inl d ↦ rw d (keep cancelled refl)
                    | inr d ↦ rw d (record {
                      promoted = λ digest same. record {
                        old = part_of files;
                        response = r;
                        resumed = inl refl;
                        answer = answer;
                        content = content;
                        unbroken = unbroken;
                        complete = complete;
                        in_place = refl;
                        hashed = cc;
                        expected = elim (digest_matches content c) [
                          | inl h ↦ inl h
                          | inr h ↦ let e : digest ≡ sha256 content = cc in inr (ap lower e ∙ h)
                        ];
                        uncancelled = (0, d);
                        bounded = bounded;
                      };
                      kept = λ h. absurd cc;
                    })
                  ])))

    base_room :
        length (part_of files) ≤ w.max_bytes → length (base_of r (part_of files)) ≤ w.max_bytes
    base_room h =
        if-rule (λ t. length t ≤ w.max_bytes) (r.status == 206) (λ e. h) (λ e. omega arith)

    after_loop-Ends :
        (q : Text × Option Ended)
        → LoopEnds w.max_bytes r.body
            (base_of r (part_of files))
            (length (base_of r (part_of files)))
            q
        → Ends sha256 w watch open_url files (after_loop sha256 w (watch 0) files.dest q)
    after_loop-Ends (content, some e) h =
        stays watch files (record { part = some content; dest = files.dest }) e
          (h.unfinished e refl) refl (prefix content h.reads)
    after_loop-Ends (content, none) h =
        promote-Ends content h.reads (h.unbroken refl) (h.all_read refl) (λ b k.
          let room = h.bounded refl b (base_room k) in
          omega (
            arith,
            room,
            ap length (h.all_read refl),
            length-append (base_of r (part_of files)) (whole r.body),
          ))

    pub receive-Ends :
        Ends sha256 w watch open_url files (receive sha256 w (watch 0) r (part_of files) files)
    unfolding receive
    receive-Ends =
        let P : Files × Ended → Type 0 = Ends sha256 w watch open_url files in
        if-rule P (watch 0).opened (λ a. stays watch files files cancelled refl refl (inl refl))
          (λ a.
            if-rule P
              (announces_too_much w.max_bytes
                (total_of (length (base_of r (part_of files))) (r.status == 206) r.content_length))
              (λ b.
                if-rule (λ left. P (left, failed "model exceeds max_model_bytes"))
                  (is_empty (part_of files)) (λ c. stays watch files files _ refl refl (inl refl))
                  (λ c.
                    if-rule (λ left. P (left, failed "model exceeds max_model_bytes"))
                      (r.status == 206) (λ d. stays watch files files _ refl refl (inl refl))
                      (λ d.
                        stays watch files (record files { part = none }) _ refl refl
                          (inr (inl refl)))))
              (λ b.
                after_loop-Ends
                  (read_loop w (watch 0).reading 0 r.body (base_of r (part_of files))
                    (length (base_of r (part_of files))))
                  (read_loop-LoopEnds w (watch 0).reading 0 r.body (base_of r (part_of files))
                    (length (base_of r (part_of files))))))
