-- ===== src/Stripe/Signature.antt =====
-- The signature check of engine/billing/stripe.py.  The header is decoded as Latin-1, and texts are
-- lists of code points; the secret and the payload are their bytes.
use inference_engine.Prelude.{
  ℕ, zero, ◌+◌, ◌-◌, ◌*◌, Bool, true, false, ◌&&◌, ◌||◌, not, Option, none, some, List, [], ◌∷◌,
  ◌++◌, String, any, all, count, is_empty, leb, ltb, ◌==◌, if◌then◌else◌, Text, codes, text_eq,
  is_space, partition, split_on,
}

-- The characters of Latin-1 that `str.strip()` removes
abbrev pub is_blank : ℕ → Bool
is_blank c = is_space c || ((c == 133) || (c == 160))

abbrev pub lstrip : Text → Text
lstrip [] = []
lstrip (x ∷ xs) = let rest = lstrip xs in if is_blank x then rest else x ∷ xs

abbrev pub rstrip : Text → Text
rstrip [] = []
rstrip (x ∷ xs) = let rest = rstrip xs in if is_blank x && is_empty rest then [] else x ∷ rest

-- `text.strip()`
abbrev pub strip : Text → Text
strip text = rstrip (lstrip text)

abbrev pub is_digit : ℕ → Bool
is_digit x = leb 48 x && leb x 57

-- Decimal digits with single underscores between them, from the value so far; `after` tells that
-- the last character was a digit.
abbrev scan : (after : Bool) → ℕ → Text → Option ℕ
scan after n [] = if after then some n else none
scan after n (x ∷ xs) =
    let digit = scan true (n * 10 + (x - 48)) xs in
    let underscore = scan false n xs in
    if is_digit x then digit else if (x == b'_') && after then underscore else none

-- `int` refuses more than 4300 digits.
abbrev number : Text → Option ℕ
number text = if leb (count is_digit text) 4300 then scan false 0 text else none

abbrev negated : Option ℕ → Option ℕ
negated (some zero) = some 0
negated _ = none

abbrev signed_number : Text → Option ℕ
signed_number [] = none
signed_number (x ∷ xs) =
    if x == b'+' then number xs else if x == b'-' then negated (number xs) else number (x ∷ xs)

-- `int(text)`, where `none` is a ValueError or a negative number: the code treats them alike.
unfoldable pub int_of : Text → Option ℕ
int_of text = signed_number (strip text)

-- What the loop of `_parse_sig_header` does with a part; `none` is a negative timestamp.
abbrev pub note_part : Text → Option ℕ × List Text → Option ℕ × List Text
note_part part found =
    let halves = partition b'=' part in
    if not (any (λ x. x == b'=') part)
    then found
    else if text_eq (strip halves.0) (codes "t")
    then (int_of halves.1, found.1)
    else if text_eq (strip halves.0) (codes "v1")
    then (found.0, found.1 ++ strip halves.1 ∷ [])
    else found

abbrev pub note_parts : List Text → Option ℕ × List Text → Option ℕ × List Text
note_parts [] found = found
note_parts (p ∷ ps) found = note_parts ps (note_part p found)

-- `_parse_sig_header`
unfoldable pub parse_sig_header : Text → Option ℕ × List Text
unfolding int_of
parse_sig_header header = note_parts (split_on b',' header) (none, [])

-- How `verify_signature` ends: it returns, raises a SignatureError, or passes on the TypeError of
-- `compare_digest`.
pub data Verdict : Type 0 where
  verified : Verdict
  signature_error : String → Verdict
  type_error : Verdict

abbrev pub is_ascii : Text → Bool
is_ascii text = all (λ x. ltb x 128) text

-- The comparisons with the candidates, in order; `compare_digest` takes ASCII texts only.
abbrev pub compare_all : Text → List Text → Verdict
compare_all expected [] = signature_error "signature mismatch"
compare_all expected (c ∷ cs) =
    let rest = compare_all expected cs in
    if not (is_ascii c) then type_error else if text_eq expected c then verified else rest

-- `abs(now - timestamp)`
abbrev pub distance : ℕ → ℕ → ℕ
distance now timestamp = (now - timestamp) + (timestamp - now)

-- `hmac_hex` is the hexadecimal HMAC-SHA256 of a key and a text, and `decimal` gives the digits of
-- a number.
module _ (hmac_hex : Text → Text → Text) (decimal : ℕ → Text) where
  abbrev pub expected_signature : Text → ℕ → Text → Text
  expected_signature secret timestamp payload =
      hmac_hex secret (decimal timestamp ++ b'.' ∷ payload)

  -- `verify_signature` after the header is parsed
  abbrev pub check_parsed :
      (payload secret : Text) (tolerance now : ℕ) → Option ℕ → List Text → Verdict
  check_parsed payload secret tolerance now none signatures =
      signature_error "malformed signature header"
  check_parsed payload secret tolerance now (some timestamp) signatures =
      if is_empty signatures
      then signature_error "malformed signature header"
      else if ltb 0 tolerance && ltb tolerance (distance now timestamp)
      then signature_error "timestamp outside tolerance"
      else compare_all (expected_signature secret timestamp payload) signatures

  -- `verify_signature`
  unfoldable pub verify_signature :
      (payload : Text) (header : Option Text) (secret : Text) (tolerance now : ℕ) → Verdict
  unfolding parse_sig_header
  verify_signature payload none secret tolerance now = signature_error "missing signature header"
  verify_signature payload (some header) secret tolerance now =
      let parsed = parse_sig_header header in
      if is_empty header
      then signature_error "missing signature header"
      else if is_empty secret
      then signature_error "no signing secret configured"
      else check_parsed payload secret tolerance now parsed.0 parsed.1
