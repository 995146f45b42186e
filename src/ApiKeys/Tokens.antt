-- ===== src/ApiKeys/Tokens.antt =====
-- A key that is minted is one that the parser accepts.
use self_consistency_answer.Common.{
  ℕ, ◌+◌, ◌≡◌, refl, sym, ap, ◌∙◌, true, false, not, some, [], ◌∷◌, ◌++◌, append_assoc, arith, all,
  take, drop, length, ◌==◌, length-append, if◌then◌else◌, take-append, take_of_short, drop-append,
  drop-length,
}
use self_consistency_answer.Sse.{Text, is_white, trim_start, trim_end, trim}
use self_consistency_answer.Auth.{text_eq}
use self_consistency_answer.ApiKeys.{
  ApiKeyEnvironment, live, test, underscore, is_hex, is_base64url, after, token_tail, token_parts,
  prefix_of, parse_api_key, Crypto, mint_api_key, looks_like_api_key,
}

pub text_eq_refl : (text : Text) → text_eq text text ≡ true
text_eq_refl [] = refl
text_eq_refl (c ∷ text) = ground (arith, text_eq_refl text)

pub text_eq_same : (s t : Text) → text_eq s t ≡ true → s ≡ t
text_eq_same [] [] h = refl
text_eq_same [] (d ∷ t) h = absurd cc
text_eq_same (c ∷ s) [] h = absurd cc
text_eq_same (c ∷ s) (d ∷ t) h =
    let first : c ≡ d = ground (arith, h) in
    let rest = text_eq_same s t (ground (arith, h)) in rw (first, rest) refl

-- What `randomBytes(6).toString("hex")` and `randomBytes(32).toString("base64url")` give.
pub record IsRandom (public_id secret : Text) : Type 0 where
  pub id_length : length public_id ≡ 12
  pub id_hex : all is_hex public_id ≡ true
  pub secret_length : length secret ≡ 43
  pub secret_base64url : all is_base64url secret ≡ true

take_exact : (n : ℕ) (xs ys : Text) → length xs ≡ n → take n (xs ++ ys) ≡ xs
take_exact n xs ys h = take-append n xs ys (omega arith) ∙ take_of_short n xs (omega arith)

drop_exact : (n : ℕ) (xs ys : Text) → length xs ≡ n → drop n (xs ++ ys) ≡ ys
drop_exact n xs ys h =
    drop-append n xs ys (omega arith)
    ∙ ap (λ zs. zs ++ ys) (ap (λ m. drop m xs) (sym h) ∙ drop-length xs)

abbrev IsSolid : Text → Type 0
IsSolid text = all (λ c. not (is_white c)) text ≡ true

base64url_solid : (c : ℕ) → is_base64url c ≡ true → is_white c ≡ false
unfolding is_white
base64url_solid c h = ground (arith, h)

hex_base64url : (c : ℕ) → is_hex c ≡ true → is_base64url c ≡ true
hex_base64url c h = ground (arith, h)

all_hex : (text : Text) → all is_hex text ≡ true → all is_base64url text ≡ true
all_hex [] h = refl
all_hex (c ∷ text) h =
    ground (arith, hex_base64url c (ground (arith, h)), all_hex text (ground (arith, h)))

base64url-IsSolid : (text : Text) → all is_base64url text ≡ true → IsSolid text
base64url-IsSolid [] h = refl
base64url-IsSolid (c ∷ text) h =
    ground
      (arith, base64url_solid c (ground (arith, h)), base64url-IsSolid text (ground (arith, h)))

append-IsBase64url :
    (s t : Text)
    → all is_base64url s ≡ true
    → all is_base64url t ≡ true
    → all is_base64url (s ++ t) ≡ true
append-IsBase64url [] t h k = k
append-IsBase64url (c ∷ s) t h k = ground (arith, h, append-IsBase64url s t (ground (arith, h)) k)

keeps_first :
    (c : ℕ) (text left : Text)
    → is_white c ≡ false
    → left ≡ text
    → (elim left as (λ x. Text) [
      | [] ↦ if is_white c then [] else c ∷ []
      | d ∷ rest ↦ c ∷ d ∷ rest
    ])
      ≡ c ∷ text
keeps_first c text [] first same = rw (first, sym same) refl
keeps_first c text (d ∷ rest) first same = ap (λ xs. c ∷ xs) same

trim_end_solid : (text : Text) → IsSolid text → trim_end text ≡ text
unfolding trim_end
trim_end_solid [] h = refl
trim_end_solid (c ∷ text) h =
    let first : is_white c ≡ false = ground (arith, h) in
    let rest = trim_end_solid text (ground (arith, h)) in
    keeps_first c text (trim_end text) first rest

trim_solid : (text : Text) → IsSolid text → trim text ≡ text
unfolding trim trim_start
trim_solid [] h = refl
trim_solid (c ∷ text) h =
    let first : is_white c ≡ false = ground (arith, h) in
    rw (trim_start, first) (trim_end_solid (c ∷ text) h)

token_tail-some :
    (environment : ApiKeyEnvironment) (public_id secret : Text)
    → IsRandom public_id secret
    → token_tail environment (public_id ++ underscore ∷ secret)
      ≡ some (environment, public_id, secret)
unfolding token_tail
token_tail-some environment public_id secret h =
    let id : take 12 (public_id ++ underscore ∷ secret) ≡ public_id =
      take_exact 12 public_id (underscore ∷ secret) h.id_length in
    let mid : drop 12 (public_id ++ underscore ∷ secret) ≡ underscore ∷ secret =
      drop_exact 12 public_id (underscore ∷ secret) h.id_length in
    let end : drop 13 (public_id ++ underscore ∷ secret) ≡ secret =
      ap (drop 13) (sym (append_assoc public_id (underscore ∷ []) secret))
      ∙ drop_exact 13 (public_id ++ underscore ∷ []) secret
          (length-append public_id (underscore ∷ []) ∙ omega (arith, h.id_length)) in
    let long : (length public_id == 12) ≡ true = ground (arith, h.id_length) in
    let long_secret : (length secret == 43) ≡ true = ground (arith, h.secret_length) in
    rw (token_tail, id, mid, end, long, long_secret, h.id_hex, h.secret_base64url) refl

after-append : (prefix rest : Text) → after prefix (prefix ++ rest) ≡ some rest
unfolding after
after-append [] rest = refl
after-append (c ∷ prefix) rest = ground (arith, after-append prefix rest)

token_parts-some :
    (environment : ApiKeyEnvironment) (public_id secret : Text)
    → IsRandom public_id secret
    → token_parts (prefix_of environment public_id ++ underscore ∷ secret)
      ≡ some (environment, public_id, secret)
unfolding token_parts after
token_parts-some live public_id secret h = token_tail-some live public_id secret h
token_parts-some test public_id secret h = token_tail-some test public_id secret h

looks_minted :
    (environment : ApiKeyEnvironment) (public_id rest : Text)
    → looks_like_api_key (prefix_of environment public_id ++ rest) ≡ true
unfolding looks_like_api_key after
looks_minted live public_id rest = refl
looks_minted test public_id rest = refl

prefix_length :
    (environment : ApiKeyEnvironment) (public_id : Text)
    → length (prefix_of environment public_id) ≡ length public_id + 9
prefix_length live public_id = omega arith
prefix_length test public_id = omega arith

prefix_base64url :
    (environment : ApiKeyEnvironment) (public_id : Text)
    → all is_base64url public_id ≡ true
    → all is_base64url (prefix_of environment public_id) ≡ true
prefix_base64url live public_id h = h
prefix_base64url test public_id h = h

-- A token that is minted from random texts of the lengths and the alphabets of the source is
-- recognised as a key and parsed into its environment, the prefix that the row stores and the secret
-- that the row's hash is of, whatever characters the secret has (an underscore too).
pub parse-mint_api_key :
    (crypto : Crypto) (environment : ApiKeyEnvironment) (public_id secret : Text)
    → IsRandom public_id secret
    → let minted = mint_api_key crypto environment public_id secret in
      (parse_api_key minted.token
        ≡ some
            (record { environment = environment; prefix = minted.prefix; secret = minted.secret }))
      × (looks_like_api_key minted.token ≡ true)
      × (minted.hash ≡ crypto.sha256_hex minted.secret)
unfolding parse_api_key
parse-mint_api_key crypto environment public_id secret h =
    let token = prefix_of environment public_id ++ underscore ∷ secret in
    let base64url : all is_base64url token ≡ true =
      append-IsBase64url (prefix_of environment public_id) (underscore ∷ secret)
        (prefix_base64url environment public_id (all_hex public_id h.id_hex)) h.secret_base64url in
    let trimmed : trim token ≡ token = trim_solid token (base64url-IsSolid token base64url) in
    let long : length token ≡ 65 = omega (
      arith,
      length-append (prefix_of environment public_id) (underscore ∷ secret),
      prefix_length environment public_id,
      h.id_length,
      h.secret_length,
    ) in
    (
      rw (parse_api_key, trimmed, long, token_parts-some environment public_id secret h) refl,
      looks_minted environment public_id (underscore ∷ secret),
      refl,
    )
