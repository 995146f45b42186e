-- ===== src/Signature/Tests.antt =====
-- A host whose cryptography is a sum, and the theorems at it.
use self_consistency_answer.Common.{
  ℕ, zero, suc, ◌+◌, ◌≡◌, ◌↔◌, refl, true, false, Option, none, some, List, [], ◌∷◌,
}
use self_consistency_answer.Signature.{
  Text, Seconds, since, before, Host, verified, constant_time_equals, webhook_signature_headers,
  verify_webhook_signature,
}
use self_consistency_answer.Signature.Equality.{constant_time_equals_iff}
use self_consistency_answer.Signature.Verifying.{IsAuthentic, verified_iff}

abbrev sum : List ℕ → ℕ
sum [] = 0
sum (b ∷ bytes) = b + sum bytes

abbrev number : Seconds → Text
number (since n) = 0 ∷ n ∷ []
number (before n) = 1 ∷ n ∷ []

abbrev parse_int : Text → Option Seconds
parse_int (zero ∷ n ∷ []) = some (since n)
parse_int (suc k ∷ n ∷ []) = some (before n)
parse_int text = none

abbrev host : Host ℕ
host = record {
  base64_encode = λ bytes. (33 + sum bytes) ∷ [];
  base64_decode = λ text. text;
  encode = λ text. text;
  hmac = λ key content. (sum key + sum content) ∷ [];
  number = number;
  parse_int = parse_int;
  trim = λ text. text;
  parse_event = λ text. some (sum text);
}

abbrev letters : Text
letters = 65 ∷ 66 ∷ []

differs : constant_time_equals letters (65 ∷ []) ≡ false
unfolding constant_time_equals
differs = refl

constant_time_equals_iff_example :
    (constant_time_equals letters letters ≡ true) ↔ (letters ≡ letters)
constant_time_equals_iff_example = constant_time_equals_iff letters letters

verified_iff_example :
    (verify_webhook_signature host
        (7 ∷ [])
        (9 ∷ [])
        300
        1_100
        (webhook_signature_headers host (7 ∷ []) (3 ∷ []) (since 1_000) (9 ∷ []))
      ≡ verified 9)
    ↔ IsAuthentic host
        (7 ∷ [])
        (9 ∷ [])
        300
        1_100
        (webhook_signature_headers host (7 ∷ []) (3 ∷ []) (since 1_000) (9 ∷ []))
        9
verified_iff_example =
    verified_iff host (7 ∷ []) (9 ∷ []) 300 1_100
      (webhook_signature_headers host (7 ∷ []) (3 ∷ []) (since 1_000) (9 ∷ [])) 9
