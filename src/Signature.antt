-- ===== src/Signature.antt =====
-- packages/shared/src/webhook.ts: signing a delivery, and verifying one that arrives. Text is its
-- list of UTF-16 code units, bytes are numbers. The cryptography, the encodings and the parsers of
-- the host are parameters.
pub mod Bits
pub mod Equality
pub mod Verifying
mod Tests
use Prim.Native.Nat.{bit_or, bit_xor}
use self_consistency_answer.Common.{
  ℕ, zero, suc, ◌+◌, ◌-◌, ◌*◌, ◌%◌, max, Bool, true, false, not, ◌||◌, Option, none, some, List, [],
  ◌∷◌, ◌++◌, map, length, drop, ltb, leb, ◌==◌, if◌then◌else◌,
}

abbrev pub Text : Type 0
Text = List ℕ

-- A whole number of seconds: `before n` is -(n + 1).
pub data Seconds : Type 0 where
  since : ℕ → Seconds
  before : ℕ → Seconds

-- `base64Encode` and `base64Decode` over `btoa` and `atob`, `TextEncoder`, HMAC-SHA-256 of a key and
-- a content, `String` of a number, `Number.parseInt` (`none` is NaN), `trim`, and `webhookEventSchema`
-- on `JSON.parse`.
pub record Host (Event : Type 0) : Type 0 where
  pub base64_encode : List ℕ → Text
  pub base64_decode : Text → List ℕ
  pub encode : Text → List ℕ
  pub hmac : List ℕ → List ℕ → List ℕ
  pub number : Seconds → Text
  pub parse_int : Text → Option Seconds
  pub trim : Text → Text
  pub parse_event : Text → Option Event

pub data VerificationFailure : Type 0 where
  missing_headers malformed_timestamp stale_timestamp no_matching_signature malformed_payload :
      VerificationFailure

pub data Verification (Event : Type 0) : Type 0 where
  verified : Event → Verification Event
  rejected : VerificationFailure → Verification Event

pub record Headers : Type 0 where
  pub id : Option Text
  pub timestamp : Option Text
  pub signature : Option Text

abbrev pub webhook_tolerance_seconds : ℕ
webhook_tolerance_seconds = 5 * 60

-- The code units of "whsec_", "v1,", "." and " ".
abbrev pub secret_prefix : Text
secret_prefix = 119 ∷ 104 ∷ 115 ∷ 101 ∷ 99 ∷ 95 ∷ []

abbrev pub version : Text
version = 118 ∷ 49 ∷ 44 ∷ []

abbrev pub dot : ℕ
dot = 46

abbrev pub space : ℕ
space = 32

abbrev pub starts_with : Text → Text → Bool
starts_with [] text = true
starts_with (c ∷ prefix) [] = false
starts_with (c ∷ prefix) (d ∷ text) = if c == d then starts_with prefix text else false

unfoldable pub secret_body : Text → Text
secret_body secret =
    if starts_with secret_prefix secret then drop (length secret_prefix) secret else secret

-- `charCodeAt`, with 0 for the NaN past the end.
abbrev pub code_at : ℕ → Text → ℕ
code_at i [] = 0
code_at zero (c ∷ text) = c
code_at (suc i) (c ∷ text) = code_at i text

abbrev pub wrapped_code : Text → ℕ → ℕ
wrapped_code text index = code_at (index % max (length text) 1) text

-- The loop, with the turns that are left.
unfoldable pub scan : Text → Text → ℕ → ℕ → ℕ → ℕ
scan a b zero index difference = difference
scan a b (suc left) index difference =
    scan a b left (suc index)
      (bit_or difference (bit_xor (wrapped_code a index) (wrapped_code b index)))

unfoldable pub constant_time_equals : Text → Text → Bool
unfolding scan
constant_time_equals a b =
    let span = max (max (length a) (length b)) 1 in
    let difference = if length a == length b then 0 else 1 in scan a b span 0 difference == 0

-- `text.split(" ")`; the first piece, and the others.
abbrev pub split_from : Text → Text × List Text
split_from [] = ([], [])
split_from (c ∷ text) =
    let (first, rest) = split_from text in
    if c == space then ([], first ∷ rest) else (c ∷ first, rest)

unfoldable pub split : Text → List Text
split text = let (first, rest) = split_from text in first ∷ rest

-- `.reduce((seen, hit) => seen || hit, seen)`.
abbrev pub reduce_or : Bool → List Bool → Bool
reduce_or seen [] = seen
reduce_or seen (hit ∷ hits) = reduce_or (seen || hit) hits

-- `Math.abs(now - seconds)`.
unfoldable pub skew : ℕ → Seconds → ℕ
skew now (since seconds) = (now - seconds) + (seconds - now)
skew now (before seconds) = now + suc seconds

module _ {Event : Type 0} (host : Host Event) where
  unfoldable pub sign_webhook_payload : Text → Text → Seconds → Text → Text
  unfolding secret_body
  sign_webhook_payload secret id seconds payload =
      let key = host.base64_decode (secret_body secret) in
      let content = id ++ dot ∷ host.number seconds ++ dot ∷ payload in
      version ++ host.base64_encode (host.hmac key (host.encode content))

  unfoldable pub webhook_signature_headers : Text → Text → Seconds → Text → Headers
  unfolding sign_webhook_payload
  webhook_signature_headers secret id seconds payload = record {
    id = some id;
    timestamp = some (host.number seconds);
    signature = some (sign_webhook_payload secret id seconds payload);
  }

  unfoldable pub is_matched : Text → Text → Bool
  unfolding constant_time_equals split
  is_matched signature expected =
      reduce_or false
        (map (λ candidate. constant_time_equals (host.trim candidate) expected) (split signature))

  abbrev pub parse_verified : Text → Verification Event
  parse_verified payload = elim (host.parse_event payload) [
    | none ↦ rejected malformed_payload
    | some event ↦ verified event
  ]

  unfoldable pub verify_parts : Text → Text → ℕ → ℕ → Text → Text → Text → Verification Event
  unfolding skew sign_webhook_payload is_matched
  verify_parts secret payload tolerance now id timestamp signature =
      elim (host.parse_int timestamp) [
        | none ↦ rejected malformed_timestamp
        | some seconds ↦
            if ltb tolerance (skew now seconds)
            then rejected stale_timestamp
            else if not (is_matched signature (sign_webhook_payload secret id seconds payload))
            then rejected no_matching_signature
            else parse_verified payload
      ]

  -- `now` is in whole seconds.
  unfoldable pub verify_webhook_signature : Text → Text → ℕ → ℕ → Headers → Verification Event
  unfolding verify_parts
  verify_webhook_signature secret payload tolerance now headers = elim headers.id [
    | none ↦ rejected missing_headers
    | some id ↦ elim headers.timestamp [
      | none ↦ rejected missing_headers
      | some timestamp ↦ elim headers.signature [
        | none ↦ rejected missing_headers
        | some signature ↦ verify_parts secret payload tolerance now id timestamp signature
      ]
    ]
  ]
