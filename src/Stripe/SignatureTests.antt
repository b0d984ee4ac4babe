-- ===== src/Stripe/SignatureTests.antt =====
-- A signed webhook, with functions in place of those of hmac and `str`.
use inference_engine.Prelude.{
  ℕ, ◌+◌, ◌%◌, ◌≡◌, refl, true, some, [], ◌∷◌, ◌++◌, all, map, arith, Text, codes,
}
use inference_engine.Stripe.Signature.{
  int_of, verify_signature, verified, type_error, expected_signature, parse_sig_header,
}
use inference_engine.Stripe.Verified.{is_hex, header_of, verify_signature-header_of}

-- A digit for each character
abbrev toy_hex : Text → Text → Text
toy_hex key text = map (λ n. 48 + n % 10) (key ++ text)

digits-is_hex : (t : Text) → all is_hex (map (λ n. 48 + n % 10) t) ≡ true
digits-is_hex [] = refl
digits-is_hex (n ∷ t) = ground (arith, digits-is_hex t)

abbrev toy_decimal : ℕ → Text
toy_decimal n = (48 + n % 10) ∷ []

abbrev signed_header : Text
signed_header =
    header_of (toy_decimal 7) (expected_signature toy_hex toy_decimal (codes "s") 7 (codes "{}"))

reads_seven : int_of (toy_decimal 7) ≡ some 7
unfolding int_of
reads_seven = refl

-- A number may have a sign and underscores.
reads_number : int_of (codes " +1_0 ") ≡ some 10
unfolding int_of
reads_number = refl

-- A signature that is not ASCII ends in the TypeError of `compare_digest`.
non_ascii :
    verify_signature toy_hex toy_decimal
      (codes "{}")
      (some (codes "t=7,v1=" ++ 233 ∷ []))
      (codes "s")
      300
      9
    ≡ type_error
unfolding verify_signature parse_sig_header int_of
non_ascii = refl

verify_signature-header_of_example :
    verify_signature toy_hex toy_decimal (codes "{}") (some signed_header) (codes "s") 300 9
    ≡ verified
verify_signature-header_of_example =
    verify_signature-header_of toy_hex toy_decimal (codes "{}") (codes "s") 7 300 9
      (λ key text. digits-is_hex (key ++ text)) refl reads_seven refl (omega arith)
