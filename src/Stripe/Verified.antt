-- ===== src/Stripe/Verified.antt =====
-- What the signature check of engine/billing/stripe.py lets pass, and that it lets pass what the
-- documented scheme sends.
use inference_engine.Prelude.{
  ℕ, ◌≤◌, ◌<◌, ◌≡◌, refl, ap, ◌∙◌, Bool, true, false, ◌&&◌, ◌||◌, Option, none, some, List, [], ◌∷◌,
  ◌++◌, any, all, is_empty, leb, ltb, ◌==◌, arith, Text, text_eq, text_eq_iff, In, split_on,
  split_on-plain, split_on-append,
}
use inference_engine.Stripe.Signature.{
  is_blank, rstrip, strip, int_of, note_parts, parse_sig_header, verified, is_ascii, distance,
  expected_signature, verify_signature, is_digit,
}

module _ (hmac_hex : Text → Text → Text) (decimal : ℕ → Text) where
  -- The header carries a timestamp within the tolerance, where there is one, and the signature of
  -- it and the payload.
  abbrev pub IsSigned : Text → Text → ℕ → ℕ → Option ℕ × List Text → Type 0
  IsSigned payload secret tolerance now parsed =
      (timestamp : ℕ) × (parsed.0 ≡ some timestamp)
      × (0 < tolerance → distance now timestamp ≤ tolerance)
      × In (expected_signature hmac_hex decimal secret timestamp payload) parsed.1

-- The characters of a hexadecimal text
abbrev pub is_hex : ℕ → Bool
is_hex x = is_digit x || (leb 97 x && leb x 102)

is_hex-is_blank : (x : ℕ) → is_hex x ≡ true → is_blank x ≡ false
is_hex-is_blank x h = ground (arith, h)

rstrip-hex : (t : Text) → all is_hex t ≡ true → rstrip t ≡ t
rstrip-hex [] h = refl
rstrip-hex (x ∷ t) h =
    let p : is_hex x ≡ true = ground (arith, h) in
    let q : all is_hex t ≡ true = ground (arith, h) in rw (is_hex-is_blank x p, rstrip-hex t q) refl

strip-hex : (t : Text) → all is_hex t ≡ true → strip t ≡ t
strip-hex [] h = refl
strip-hex (x ∷ t) h =
    let p : is_hex x ≡ true = ground (arith, h) in rw (is_hex-is_blank x p) (rstrip-hex (x ∷ t) h)

all-is_ascii : (t : Text) → all is_hex t ≡ true → is_ascii t ≡ true
all-is_ascii [] h = refl
all-is_ascii (x ∷ t) h =
    let p : is_hex x ≡ true = ground (arith, h) in
    let q : all is_hex t ≡ true = ground (arith, h) in
    let r : ltb x 128 ≡ true = ground (arith, p) in rw (r, all-is_ascii t q) refl

hex-plain :
    (c : ℕ) (t : Text) → is_hex c ≡ false → all is_hex t ≡ true → any (λ x. x == c) t ≡ false
hex-plain c [] n h = refl
hex-plain c (x ∷ t) n h =
    let p : is_hex x ≡ true = ground (arith, h) in
    let q : all is_hex t ≡ true = ground (arith, h) in
    let r : (x == c) ≡ false = ground (arith, p, n) in rw (r, hex-plain c t n q) refl

-- The header of the documented scheme: `t=<timestamp>,v1=<signature>`
abbrev pub header_of : Text → Text → Text
header_of digits signature = (b't' ∷ b'=' ∷ digits) ++ b',' ∷ b'v' ∷ b'1' ∷ b'=' ∷ signature

parse_sig_header-header_of :
    (timestamp : ℕ) (digits signature : Text)
    → all is_hex digits ≡ true
    → int_of digits ≡ some timestamp
    → all is_hex signature ≡ true
    → parse_sig_header (header_of digits signature) ≡ (some timestamp, signature ∷ [])
unfolding parse_sig_header
parse_sig_header-header_of timestamp digits signature d i s =
    let parts : split_on b',' (header_of digits signature)
        ≡ (b't' ∷ b'=' ∷ digits) ∷ (b'v' ∷ b'1' ∷ b'=' ∷ signature) ∷ [] =
      split_on-append b',' (b't' ∷ b'=' ∷ digits) (b'v' ∷ b'1' ∷ b'=' ∷ signature)
        (hex-plain b',' digits refl d)
      ∙ ap (λ l. (b't' ∷ b'=' ∷ digits) ∷ l)
          (split_on-plain b',' (b'v' ∷ b'1' ∷ b'=' ∷ signature)
            (hex-plain b',' signature refl s)) in
    ap (λ l. note_parts l (none, [])) parts
    ∙ ap (λ u. (int_of digits, u ∷ [])) (strip-hex signature s)
    ∙ ap (λ u. (u, signature ∷ [])) i

-- With a secret, a webhook that is sent with the header of the documented scheme passes the check
-- as long as the present is within the tolerance of its timestamp: `hmac_hex` writes hexadecimal
-- digits, and the digits of the timestamp read back as it.
pub verify_signature-header_of :
    (hmac_hex : Text → Text → Text) (decimal : ℕ → Text) (payload secret : Text)
    (timestamp tolerance now : ℕ)
    → ((key text : Text) → all is_hex (hmac_hex key text) ≡ true)
    → all is_hex (decimal timestamp) ≡ true
    → int_of (decimal timestamp) ≡ some timestamp
    → is_empty secret ≡ false
    → distance now timestamp ≤ tolerance
    → let signature = expected_signature hmac_hex decimal secret timestamp payload in
      verify_signature hmac_hex decimal payload
        (some (header_of (decimal timestamp) signature))
        secret
        tolerance
        now
      ≡ verified
unfolding verify_signature
verify_signature-header_of hmac_hex decimal payload secret timestamp tolerance now hex digits back
      given near =
    let signature = expected_signature hmac_hex decimal secret timestamp payload in
    let plain = hex secret (decimal timestamp ++ b'.' ∷ payload) in
    let parsed =
      parse_sig_header-header_of timestamp (decimal timestamp) signature digits back plain in
    let fresh : ltb tolerance (distance now timestamp) ≡ false = ground (arith, near) in
    let same : text_eq signature signature ≡ true = (text_eq_iff signature signature).1 refl in
    rw (given, parsed, fresh, all-is_ascii signature plain, same) (ground arith)
