-- ===== src/Signature/Verifying.antt =====
-- What is verified was signed, and what is signed is verified.
use self_consistency_answer.Common.{
  ℕ, ◌≤◌, ◌≡◌, ◌↔◌, inl, inr, refl, arith, Bool, true, false, some, List, [], ◌∷◌, ◌++◌, map, any,
  ltb, ◌==◌, Bool-cases, Option-cases,
}
use self_consistency_answer.Signature.{
  Text, Seconds, Host, verified, rejected, Headers, space, version, missing_headers,
  malformed_timestamp, stale_timestamp, no_matching_signature, malformed_payload,
  constant_time_equals, split, reduce_or, skew, sign_webhook_payload, is_matched, parse_verified,
  verify_parts, verify_webhook_signature,
}
use self_consistency_answer.Signature.Equality.{constant_time_equals_iff}

-- Where a list of texts has one.
pub data Mem (text : Text) : List Text → Type 0 where
  first : {texts : List Text} → Mem text (text ∷ texts)
  later : {other : Text} {texts : List Text} → Mem text texts → Mem text (other ∷ texts)

reduce_true : (hits : List Bool) → reduce_or true hits ≡ true
reduce_true [] = refl
reduce_true (hit ∷ hits) = reduce_true hits

module _ {Event : Type 0} (host : Host Event) where
  -- A candidate of a signature header that is the text expected.
  pub record Matches (expected : Text) (candidates : List Text) : Type 0 where
    pub candidate : Text
    pub listed : Mem candidate candidates
    pub same : host.trim candidate ≡ expected

  abbrev hits : Text → List Text → List Bool
  hits expected candidates =
      map (λ candidate. constant_time_equals (host.trim candidate) expected) candidates

  matches_of :
      (expected : Text) (candidates : List Text)
      → reduce_or false (hits expected candidates) ≡ true
      → Matches expected candidates
  matches_of expected [] h = cc
  matches_of expected (c ∷ candidates) h =
      elim (Bool-cases (constant_time_equals (host.trim c) expected)) [
        | inl hit ↦ record {
          candidate = c;
          listed = first;
          same = (constant_time_equals_iff (host.trim c) expected).0 hit;
        }
        | inr miss ↦
            let m = matches_of expected candidates (rw miss at h) in
            record { candidate = m.candidate; listed = later m.listed; same = m.same }
      ]

  of_listed :
      (expected : Text) (candidates : List Text) (candidate : Text)
      → Mem candidate candidates
      → host.trim candidate ≡ expected
      → reduce_or false (hits expected candidates) ≡ true
  of_listed expected [] candidate none_listed same = elim none_listed [ ]
  of_listed expected (c ∷ candidates) candidate first same =
      rw ((constant_time_equals_iff (host.trim c) expected).1 same)
        (reduce_true (hits expected candidates))
  of_listed expected (c ∷ candidates) candidate (later m) same =
      elim (Bool-cases (constant_time_equals (host.trim c) expected)) [
        | inl hit ↦ rw hit (reduce_true (hits expected candidates))
        | inr miss ↦ rw miss (of_listed expected candidates candidate m same)
      ]

  -- What makes a delivery authentic, and its event.
  pub record IsAuthentic (secret payload : Text) (tolerance now : ℕ) (headers : Headers)
      (event : Event) : Type 0 where
    pub id : Text
    pub timestamp : Text
    pub signature : Text
    pub seconds : Seconds
    pub has_id : headers.id ≡ some id
    pub has_timestamp : headers.timestamp ≡ some timestamp
    pub has_signature : headers.signature ≡ some signature
    pub parsed : host.parse_int timestamp ≡ some seconds
    pub fresh : skew now seconds ≤ tolerance
    pub signed : Matches (sign_webhook_payload host secret id seconds payload) (split signature)
    pub event_of : host.parse_event payload ≡ some event

  parts_sound :
      (secret payload : Text) (tolerance now : ℕ) (headers : Headers) (event : Event)
      (id timestamp signature : Text)
      → headers.id ≡ some id
      → headers.timestamp ≡ some timestamp
      → headers.signature ≡ some signature
      → verify_parts host secret payload tolerance now id timestamp signature ≡ verified event
      → IsAuthentic secret payload tolerance now headers event
  unfolding verify_parts is_matched
  parts_sound secret payload tolerance now headers event id timestamp signature a b c h =
      elim (Option-cases (host.parse_int timestamp)) [
        | inl nan ↦
            let e : rejected malformed_timestamp ≡ verified event = rw (verify_parts, nan) at h in
            cc
        | inr (seconds, parsed) ↦ elim (Bool-cases (ltb tolerance (skew now seconds))) [
          | inl stale ↦
              let e : rejected stale_timestamp ≡ verified event =
                rw (verify_parts, parsed, stale) at h in
              cc
          | inr fresh ↦
              elim (Bool-cases
                (is_matched host signature (sign_webhook_payload host secret id seconds payload))) [
                  | inr unsigned ↦
                      let e : rejected no_matching_signature ≡ verified event =
                        rw (verify_parts, parsed, fresh, unsigned) at h in
                      cc
                  | inl signed ↦ elim (Option-cases (host.parse_event payload)) [
                    | inl malformed ↦
                        let e : rejected malformed_payload ≡ verified event =
                          rw (verify_parts, parsed, fresh, signed, parse_verified, malformed) at
                            h in
                        cc
                    | inr (event', event_of) ↦
                        let e : verified event' ≡ verified event =
                          rw (verify_parts, parsed, fresh, signed, parse_verified, event_of) at h in
                        record {
                          id = id;
                          timestamp = timestamp;
                          signature = signature;
                          seconds = seconds;
                          has_id = a;
                          has_timestamp = b;
                          has_signature = c;
                          parsed = parsed;
                          fresh = ground (arith, fresh);
                          signed =
                              matches_of (sign_webhook_payload host secret id seconds payload)
                                (split signature) signed;
                          event_of = ground (arith, event_of, e);
                        }
                  ]
                ]
        ]
      ]

  sound :
      (secret payload : Text) (tolerance now : ℕ) (headers : Headers) (event : Event)
      → verify_webhook_signature host secret payload tolerance now headers ≡ verified event
      → IsAuthentic secret payload tolerance now headers event
  unfolding verify_webhook_signature
  sound secret payload tolerance now headers event h = elim (Option-cases headers.id) [
    | inl gone ↦
        let e : rejected missing_headers ≡ verified event =
          rw (verify_webhook_signature, gone) at h in
        cc
    | inr (id, a) ↦ elim (Option-cases headers.timestamp) [
      | inl gone ↦
          let e : rejected missing_headers ≡ verified event =
            rw (verify_webhook_signature, a, gone) at h in
          cc
      | inr (timestamp, b) ↦ elim (Option-cases headers.signature) [
        | inl gone ↦
            let e : rejected missing_headers ≡ verified event =
              rw (verify_webhook_signature, a, b, gone) at h in
            cc
        | inr (signature, c) ↦
            parts_sound secret payload tolerance now headers event id timestamp signature a b c
              (rw (verify_webhook_signature, a, b, c) at h)
      ]
    ]
  ]

  complete :
      (secret payload : Text) (tolerance now : ℕ) (headers : Headers) (event : Event)
      → IsAuthentic secret payload tolerance now headers event
      → verify_webhook_signature host secret payload tolerance now headers ≡ verified event
  unfolding verify_webhook_signature is_matched
  complete secret payload tolerance now headers event h =
      let in_time : ltb tolerance (skew now h.seconds) ≡ false = ground (arith, h.fresh) in
      let expected = sign_webhook_payload host secret h.id h.seconds payload in
      let matched : is_matched host h.signature expected ≡ true =
        of_listed expected (split h.signature) h.signed.candidate h.signed.listed h.signed.same in
      rw
        (
          verify_webhook_signature, h.has_id, h.has_timestamp, h.has_signature, verify_parts,
          h.parsed, in_time, matched, parse_verified, h.event_of,
        )
        refl

  -- A delivery is verified, as an event, exactly if its three headers are there, its timestamp is a
  -- number within the tolerance of the clock, one of the signatures in its header, trimmed, is the
  -- one that the secret gives to the id, the timestamp and the body as they came, and the body parses
  -- as that event.
  pub verified_iff :
      (secret payload : Text) (tolerance now : ℕ) (headers : Headers) (event : Event)
      → (verify_webhook_signature host secret payload tolerance now headers ≡ verified event)
        ↔ IsAuthentic secret payload tolerance now headers event
  verified_iff secret payload tolerance now headers event = (
    sound secret payload tolerance now headers event,
    complete secret payload tolerance now headers event,
  )

  -- What the code relies on: a printed number is read back, and base64 text has no space within it
  -- or around it.
  pub record IsStandard : Type 0 where
    pub reads_back : (seconds : Seconds) → host.parse_int (host.number seconds) ≡ some seconds
    pub trimmed :
        (bytes : List ℕ)
        → host.trim (version ++ host.base64_encode bytes) ≡ version ++ host.base64_encode bytes
    pub spaceless : (bytes : List ℕ) → any (λ c. c == space) (host.base64_encode bytes) ≡ false
