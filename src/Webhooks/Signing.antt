-- ===== src/Webhooks/Signing.antt =====
-- engine/billing/webhooks/signing.py: the signatures of a delivery, one for each active secret, and
-- the receiver's check.  Texts are lists of code points.
use inference_engine.Prelude.{
  ℕ, ◌≡◌, refl, ◌∙◌, ap, Bool, false, ◌&&◌, Option, none, some, List, [], ◌∷◌, ◌++◌, map, any, All,
  if◌then◌else◌, arith, Text, codes, text_eq, is_space, IsWord, split, join_words, split-join_words,
  partition, starts_with, drop,
}

-- The functions of hashlib, base64 and `str` that the code calls: HMAC-SHA256 of a key and a text,
-- base64 encoding and decoding (`none` is a ValueError), and the decimal digits of a number.
pub record Crypto : Type 0 where
  pub hmac : Text → Text → Text
  pub b64encode : Text → Text
  pub b64decode : Text → Option Text
  pub decimal : ℕ → Text

-- What base64 promises of its output: the alphabet has no whitespace.
abbrev pub IsBase64 : Crypto → Type 0
IsBase64 c = (t : Text) → any is_space (c.b64encode t) ≡ false

-- `SECRET_PREFIX`
abbrev pub secret_prefix : Text
secret_prefix = codes "whsec_"

-- `_secret_bytes`
unfoldable pub secret_bytes : Crypto → Text → Text
secret_bytes c secret =
    let body : Text = if starts_with secret_prefix secret then drop 6 secret else secret in
    elim (c.b64decode body) [ some bytes ↦ bytes | none ↦ body ]

-- `sign`
unfoldable pub sign : Crypto → Text → Text → ℕ → Text → Text
unfolding secret_bytes
sign c secret msg_id timestamp body =
    c.b64encode
      (c.hmac (secret_bytes c secret) (msg_id ++ b'.' ∷ c.decimal timestamp ++ b'.' ∷ body))

-- `f"v1,{signature}"`
abbrev pub token_of : Text → Text
token_of signature = b'v' ∷ b'1' ∷ b',' ∷ signature

-- `signature_header`
unfoldable pub signature_header : Crypto → List Text → Text → ℕ → Text → Text
unfolding sign join_words
signature_header c secrets msg_id timestamp body =
    join_words (map (λ s. token_of (sign c s msg_id timestamp body)) secrets)

-- What the loop of `verify` tests of one token
abbrev pub is_match : Text → Text → Bool
is_match expected token =
    let parts = partition b',' token in text_eq parts.0 (codes "v1") && text_eq parts.1 expected

-- `verify`; the header is ASCII, as `compare_digest` wants it.
unfoldable pub verify : Crypto → Text → Text → Text → ℕ → Text → Bool
unfolding sign split
verify c secret header msg_id timestamp body =
    any (is_match (sign c secret msg_id timestamp body)) (split header)

module _ (c : Crypto) (base64 : IsBase64 c) (msg_id : Text) (timestamp : ℕ) (body : Text) where
  tokens-IsWord :
      (secrets : List Text)
      → All IsWord (map (λ s. token_of (sign c s msg_id timestamp body)) secrets)
  unfolding sign
  tokens-IsWord [] = tt
  tokens-IsWord (s ∷ ss) = ((refl, base64 _), tokens-IsWord ss)

  any-is_match :
      (expected : Text) (secrets : List Text)
      → any (is_match expected) (map (λ s. token_of (sign c s msg_id timestamp body)) secrets)
        ≡ any (λ s. text_eq (sign c s msg_id timestamp body) expected) secrets
  any-is_match expected [] = refl
  any-is_match expected (s ∷ ss) = ground (arith, any-is_match expected ss)

  -- As base64 writes no whitespace, a receiver with the secret `secret` accepts a delivery
  -- exactly where one of the secrets that it was signed with makes the same signature.
  pub verify-signature_header :
      (secret : Text) (secrets : List Text)
      → verify c secret (signature_header c secrets msg_id timestamp body) msg_id timestamp body
        ≡ any
            (λ s. text_eq (sign c s msg_id timestamp body) (sign c secret msg_id timestamp body))
            secrets
  unfolding verify signature_header
  verify-signature_header secret secrets =
      ap (any (is_match (sign c secret msg_id timestamp body)))
        (split-join_words _ (tokens-IsWord secrets))
      ∙ any-is_match (sign c secret msg_id timestamp body) secrets
