-- ===== src/Models/Inside.antt =====
-- The file of a download lies in the model directory (engine/models/service.py).
use inference_engine.Prelude.{
  ℕ, ◌≡◌, refl, ◌∙◌, subst, Bool, true, false, ◌||◌, Option, none, some, List, [], ◌∷◌, ◌++◌,
  str_eq, any, all, is_empty, ◌==◌, Text, codes, text_eq_iff, split_on, push_code, arith, filter,
  All, Bool-cases, Option-cases, inl, inr, some_inj, if-rule, ◌⊎◌,
}
use inference_engine.Models.Names.{
  given_text, is_part, last_text, path_name, safe_filename, is_name_char, is_operator_filename,
  url_download_filename, url_source_descriptor, ends_with, with_suffix, Source, Requested,
  resolve_source,
}

-- One component of a path: `models_dir / base` is a file of the directory itself.
abbrev pub has_slash : Text → Bool
has_slash t = any (λ c. c == b'/') t

any-append {ℓ} :
    {A : Type ℓ} (p : A → Bool) (xs ys : List A) → any p (xs ++ ys) ≡ any p xs || any p ys
any-append p [] ys = refl
any-append p (x ∷ xs) ys = ground (arith, any-append p xs ys)

push_code-plain :
    (y : ℕ) (ws : List Text)
    → (y == b'/') ≡ false
    → All (λ p. has_slash p ≡ false) ws
    → All (λ p. has_slash p ≡ false) (push_code y ws)
push_code-plain y [] e h = (rw e refl, tt)
push_code-plain y (w ∷ ws) e h = (rw (e, h.0) refl, h.1)

plain_parts : (t : Text) → All (λ p. has_slash p ≡ false) (split_on b'/' t)
plain_parts [] = (refl, tt)
plain_parts (x ∷ t) = elim (Bool-cases (x == b'/')) [
  | inl e ↦ rw e (refl, plain_parts t)
  | inr e ↦ rw e (push_code-plain x (split_on b'/' t) e (plain_parts t))
]

All-filter : (P : Text → Type 0) (p : Text → Bool) (ts : List Text) → All P ts → All P (filter p ts)
All-filter P p [] h = tt
All-filter P p (t ∷ ts) h = elim (Bool-cases (p t)) [
  | inl e ↦ rw e (h.0, All-filter P p ts h.1)
  | inr e ↦ rw e (All-filter P p ts h.1)
]

last_text-plain :
    (t : Text) (ts : List Text)
    → has_slash t ≡ false
    → All (λ p. has_slash p ≡ false) ts
    → has_slash (last_text t ts) ≡ false
last_text-plain t [] h k = h
last_text-plain t (u ∷ us) h k = last_text-plain u us k.0 k.1

safe_filename-plain : (name : Text) → has_slash (safe_filename name) ≡ false
unfolding safe_filename
safe_filename-plain name =
    if-rule (λ t. has_slash t ≡ false) (is_empty (path_name name)) (λ k. refl)
      (λ k.
        last_text-plain [] (filter is_part (split_on b'/' name)) refl
          (All-filter (λ p. has_slash p ≡ false) is_part (split_on b'/' name) (plain_parts name)))

name_chars-plain : (t : Text) → all is_name_char t ≡ true → has_slash t ≡ false
name_chars-plain [] h = refl
name_chars-plain (c ∷ t) h =
    let rest : all is_name_char t ≡ true = ground (arith, h) in
    let first : (c == b'/') ≡ false = ground (arith, h) in rw (first, name_chars-plain t rest) refl

operator_filename-plain : (t : Text) → is_operator_filename t ≡ true → has_slash t ≡ false
operator_filename-plain [] h = refl
operator_filename-plain (c ∷ t) h =
    let rest : all is_name_char t ≡ true = ground (arith, h) in
    let first : (c == b'/') ≡ false = ground (arith, h) in rw (first, name_chars-plain t rest) refl

has_slash-append :
    (s t : Text) → has_slash s ≡ false → has_slash t ≡ false → has_slash (s ++ t) ≡ false
has_slash-append s t h k = any-append (λ c. c == b'/') s t ∙ ground (arith, h, k)

url_download_filename-plain :
    (hex : Text) (filename : Option Text) (base : Text)
    → has_slash hex ≡ false
    → url_download_filename hex filename ≡ some base
    → has_slash base ≡ false
unfolding url_download_filename
url_download_filename-plain hex filename base plain h = elim (Option-cases (given_text filename)) [
  | inl e ↦
      let same =
        some_inj (codes "download-" ++ hex ++ codes ".gguf") base
          (rw (url_download_filename, e) at h) in
      subst (λ t. has_slash t ≡ false) same
        (has_slash-append (codes "download-" ++ hex) (codes ".gguf")
          (has_slash-append (codes "download-") hex refl plain) refl)
  | inr (name, e) ↦ elim (Bool-cases (is_operator_filename name)) [
    | inl k ↦
        subst (λ t. has_slash t ≡ false)
          (some_inj name base (rw (url_download_filename, e, k) at h))
          (operator_filename-plain name k)
    | inr k ↦ let g : none ≡ some base = rw (url_download_filename, e, k) at h in absurd cc
  ]
]

ends_with-append : (s t : Text) → ends_with s (t ++ s) ≡ true
ends_with-append [] [] = refl
ends_with-append (c ∷ s) [] = rw (text_eq_iff (c ∷ s) (c ∷ s)).1 refl
ends_with-append s (x ∷ t) = ground (arith, ends_with-append s t)

with_suffix_lem :
    (base : Text)
    → has_slash base ≡ false
    → (has_slash (with_suffix base) ≡ false) × (ends_with (codes ".gguf") (with_suffix base) ≡ true)
with_suffix_lem base h =
    if-rule (λ t. (has_slash t ≡ false) × (ends_with (codes ".gguf") t ≡ true))
      (ends_with (codes ".gguf") base) (λ k. (h, k))
      (λ k. (has_slash-append base (codes ".gguf") h refl, ends_with-append (codes ".gguf") base))

abbrev pub IsStored : Requested → Source → Type 0
IsStored r s =
    (has_slash s.base ≡ false)
    × (ends_with (codes ".gguf") s.base ≡ true)
    × ((str_eq r.source_type "huggingface" ≡ true) ⊎ (s.source_ref ≡ url_source_descriptor))

-- Whatever the caller names: the file of a download is one component that ends in `.gguf`, so it
-- lies in the model directory itself, and the address of a URL download is not what is recorded as
-- its source.  `hex` are the digits that the code draws.
pub resolve_source-IsStored :
    (endpoint hex : Text) (r : Requested) (s : Source)
    → has_slash hex ≡ false
    → resolve_source endpoint hex r ≡ some s
    → IsStored r s
unfolding resolve_source
resolve_source-IsStored endpoint hex r s plain h =
    elim (Bool-cases (str_eq r.source_type "huggingface")) [
      | inl hub ↦ elim (Option-cases (given_text r.repo)) [
        | inl e ↦ let g : none ≡ some s = rw (resolve_source, hub, e) at h in absurd cc
        | inr (repo, e) ↦ elim (Option-cases (given_text r.filename)) [
          | inl f ↦ let g : none ≡ some s = rw (resolve_source, hub, e, f) at h in absurd cc
          | inr (name, f) ↦
              let l = with_suffix_lem (safe_filename name) (safe_filename-plain name) in
              subst (IsStored r) (some_inj _ s (rw (resolve_source, hub, e, f) at h))
                (l.0, l.1, inl hub)
        ]
      ]
      | inr other ↦ elim (Bool-cases (str_eq r.source_type "url")) [
        | inr k ↦ let g : none ≡ some s = rw (resolve_source, other, k) at h in absurd cc
        | inl k ↦ elim (Option-cases (given_text r.url)) [
          | inl e ↦ let g : none ≡ some s = rw (resolve_source, other, k, e) at h in absurd cc
          | inr (url, e) ↦ elim (Option-cases (url_download_filename hex r.filename)) [
            | inl f ↦ let g : none ≡ some s = rw (resolve_source, other, k, e, f) at h in absurd cc
            | inr (base, f) ↦
                let l =
                  with_suffix_lem base (url_download_filename-plain hex r.filename base plain f) in
                subst (IsStored r) (some_inj _ s (rw (resolve_source, other, k, e, f) at h))
                  (l.0, l.1, inr refl)
          ]
        ]
      ]
    ]
