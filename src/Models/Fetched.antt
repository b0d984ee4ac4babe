-- ===== src/Models/Fetched.antt =====
-- How a download ends (`download` of engine/models/downloader.py): what is promoted, and what is kept
-- to be resumed.
use inference_engine.Prelude.{
  ℕ, zero, suc, ◌+◌, ◌≤◌, ◌<◌, ◌≡◌, refl, sym, ap, ◌∙◌, Bool, true, false, Option, none, some, List,
  [], ◌||◌, ◌∷◌, ◌++◌, is_empty, if◌then◌else◌, length, length-append, Text, arith, if-rule,
  append-nil, append_assoc,
}
use inference_engine.Models.Download.{
  Read, bytes, broken, Ended, finished, cancelled, mismatched, failed, Wanted, exceeds, read_loop,
}

-- The first reads of a body
abbrev pub joined : ℕ → List Read → Text
joined zero rs = []
joined (suc n) [] = []
joined (suc n) (bytes chunk ∷ rs) = chunk ++ joined n rs
joined (suc n) (broken ∷ rs) = []

-- Every read gives bytes, up to the empty one that is the end of the body.
abbrev pub is_unbroken : List Read → Bool
is_unbroken [] = true
is_unbroken (broken ∷ rs) = false
is_unbroken (bytes chunk ∷ rs) = is_empty chunk || is_unbroken rs

-- All the bytes of an unbroken body
abbrev pub whole : List Read → Text
whole [] = []
whole (broken ∷ rs) = []
whole (bytes chunk ∷ rs) = let rest = whole rs in if is_empty chunk then [] else chunk ++ rest

abbrev pub is_finished : Ended → Bool
is_finished (finished d) = true
is_finished cancelled = false
is_finished mismatched = false
is_finished (failed e) = false

pub record LoopEnds (max_bytes : ℕ) (rs : List Read) (content : Text) (downloaded : ℕ)
    (p : Text × Option Ended) : Type 0 where
  pub reads : (n : ℕ) × (p.0 ≡ content ++ joined n rs)
  pub all_read : p.1 ≡ none → p.0 ≡ content ++ whole rs
  pub unbroken : p.1 ≡ none → is_unbroken rs ≡ true
  pub bounded :
      p.1 ≡ none
      → 0 < max_bytes
      → downloaded ≤ max_bytes
      → downloaded + length (whole rs) ≤ max_bytes
  pub unfinished : (e : Ended) → p.1 ≡ some e → is_finished e ≡ false

stops_here :
    (m : ℕ) (rs : List Read) (content : Text) (d : ℕ) (e : Ended)
    → is_finished e ≡ false
    → LoopEnds m rs content d (content, some e)
stops_here m rs content d e h = record {
  reads = (0, sym (append-nil content));
  all_read = λ k. absurd cc;
  unbroken = λ k. absurd cc;
  bounded = λ k. absurd cc;
  unfinished = λ f k. ground (arith, h, k);
}

stops_after :
    (m : ℕ) (rs : List Read) (content chunk : Text) (d : ℕ) (e : Ended)
    → is_finished e ≡ false
    → LoopEnds m (bytes chunk ∷ rs) content d (content ++ chunk, some e)
stops_after m rs content chunk d e h = record {
  reads = (1, ap (λ t. content ++ t) (sym (append-nil chunk)));
  all_read = λ k. absurd cc;
  unbroken = λ k. absurd cc;
  bounded = λ k. absurd cc;
  unfinished = λ f k. ground (arith, h, k);
}

reaches_end :
    (m : ℕ) (rs : List Read) (content : Text) (d : ℕ)
    → whole rs ≡ []
    → is_unbroken rs ≡ true
    → LoopEnds m rs content d (content, none)
reaches_end m rs content d e u = record {
  reads = (0, sym (append-nil content));
  all_read = λ k. sym (append-nil content) ∙ ap (λ t. content ++ t) (sym e);
  unbroken = λ k. u;
  bounded = λ k b h. omega (arith, h, ap length e);
  unfinished = λ f k. absurd cc;
}

read_on :
    (m : ℕ) (rs : List Read) (content chunk : Text) (d : ℕ) (p : Text × Option Ended)
    → is_empty chunk ≡ false
    → exceeds m (d + length chunk) ≡ false
    → LoopEnds m rs (content ++ chunk) (d + length chunk) p
    → LoopEnds m (bytes chunk ∷ rs) content d p
read_on m rs content chunk d p some_bytes fits h = record {
  reads = (suc h.reads.0, h.reads.1 ∙ append_assoc content chunk (joined h.reads.0 rs));
  all_read = λ k.
      h.all_read k
      ∙ append_assoc content chunk (whole rs)
      ∙ ap (λ t. content ++ t)
          (let same : chunk ++ whole rs ≡ whole (bytes chunk ∷ rs) = rw some_bytes refl in same);
  unbroken = λ k. let rest = h.unbroken k in ground (arith, rest, some_bytes);
  bounded = λ k b le.
      let room : d + length chunk ≤ m = ground (arith, fits, b) in
      let rest = h.bounded k b room in
      let same : chunk ++ whole rs ≡ whole (bytes chunk ∷ rs) = rw some_bytes refl in
      omega (arith, rest, length-append chunk (whole rs), ap length same);
  unfinished = h.unfinished;
}

pub read_loop-LoopEnds :
    (w : Wanted) (stopped : ℕ → Bool) (k : ℕ) (rs : List Read) (content : Text) (d : ℕ)
    → LoopEnds w.max_bytes rs content d (read_loop w stopped k rs content d)
unfolding read_loop
read_loop-LoopEnds w stopped k [] content d =
    if-rule (λ o. LoopEnds w.max_bytes [] content d (content, o)) (stopped k)
      (λ e. stops_here w.max_bytes [] content d cancelled refl)
      (λ e.
        if-rule (λ o. LoopEnds w.max_bytes [] content d (content, o)) (stopped (k + 1))
          (λ f. stops_here w.max_bytes [] content d cancelled refl)
          (λ f. reaches_end w.max_bytes [] content d refl refl))
read_loop-LoopEnds w stopped k (broken ∷ rs) content d =
    if-rule (λ e. LoopEnds w.max_bytes (broken ∷ rs) content d (content, some e)) (stopped k)
      (λ e. stops_here w.max_bytes (broken ∷ rs) content d cancelled refl)
      (λ e.
        stops_here w.max_bytes (broken ∷ rs) content d (failed "network error reading model") refl)
read_loop-LoopEnds w stopped k (bytes chunk ∷ rs) content d =
    let P : Text × Option Ended → Type 0 = LoopEnds w.max_bytes (bytes chunk ∷ rs) content d in
    if-rule P (stopped k) (λ e. stops_here w.max_bytes (bytes chunk ∷ rs) content d cancelled refl)
      (λ e.
        if-rule P (stopped (k + 1))
          (λ f. stops_here w.max_bytes (bytes chunk ∷ rs) content d cancelled refl)
          (λ f.
            if-rule P (is_empty chunk)
              (λ g. reaches_end w.max_bytes (bytes chunk ∷ rs) content d (rw g refl) (rw g refl))
              (λ g.
                if-rule P (exceeds w.max_bytes (d + length chunk))
                  (λ h.
                    stops_after w.max_bytes rs content chunk d
                      (failed "model exceeds max_model_bytes") refl)
                  (λ h.
                    if-rule P (stopped (k + 2))
                      (λ i. stops_after w.max_bytes rs content chunk d cancelled refl)
                      (λ i. read_on w.max_bytes rs content chunk d _ g h (
                        read_loop-LoopEnds w stopped (k + 3) rs (content ++ chunk)
                          (d + length chunk)))))))
