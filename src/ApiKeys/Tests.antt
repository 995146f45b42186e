-- ===== src/ApiKeys/Tests.antt =====
-- A key whose secret has underscores.
use self_consistency_answer.Common.{refl, ◌∷◌, replicate}
use self_consistency_answer.Sse.{Text}
use self_consistency_answer.Auth.{text_eq}
use self_consistency_answer.ApiKeys.{Crypto}
use self_consistency_answer.ApiKeys.Tokens.{IsRandom}

abbrev public_id : Text
public_id = replicate 12 97

abbrev secret : Text
secret = replicate 43 95

abbrev crypto : Crypto
crypto = record {
  sha256_hex = λ text. 48 ∷ text;
  from_hex = λ text. replicate 32 0;
  timing_safe_equal = text_eq;
}

is_random : IsRandom public_id secret
is_random = record {
  id_length = refl;
  id_hex = refl;
  secret_length = refl;
  secret_base64url = refl;
}
