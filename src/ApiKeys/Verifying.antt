-- ===== src/ApiKeys/Verifying.antt =====
-- The key behind a token that is accepted.
use self_consistency_answer.Common.{
  ℕ, ◌≡◌, refl, ap, subst, inl, inr, Option, none, some, is_some, Bool-cases, Option-cases, false,
}
use self_consistency_answer.Sse.{Text}
use self_consistency_answer.Tenancy.{MemberRole, Key, Directory}
use self_consistency_answer.Auth.{stored_scopes}
use self_consistency_answer.ApiKeys.{
  Crypto, ParsedApiKey, creator_role, principal_of, malformed, ApiKeyPrincipal, ApiKeyVerification,
  accepted, refused, revoked, unknown, expired, is_expired, api_key_secret_matches, parse_api_key,
  key_by_prefix, verify_row, verify_api_key,
}

-- What an accepted key's row is.
pub record IsOf (row : Key) (now : ℕ) (d : Directory) (p : ApiKeyPrincipal) : Type 0 where
  pub key_id : p.key_id ≡ row.id
  pub tenant_id : p.tenant_id ≡ row.tenant_id
  pub user_id : p.user_id ≡ row.created_by_user_id
  pub scopes : p.scopes ≡ stored_scopes row.scopes
  pub live : is_some row.revoked_at ≡ false
  pub unexpired : is_expired row.expires_at now ≡ false
  pub role : creator_role row d ≡ some p.role

principal_or : ApiKeyPrincipal → ApiKeyVerification → ApiKeyPrincipal
principal_or p (accepted q) = q
principal_or p (refused reason) = p

principal_of-IsOf :
    (row : Key) (now : ℕ) (d : Directory) (p : ApiKeyPrincipal) (role : Option MemberRole)
    → is_some row.revoked_at ≡ false
    → is_expired row.expires_at now ≡ false
    → creator_role row d ≡ role
    → principal_of row role ≡ accepted p
    → IsOf row now d p
unfolding principal_or
principal_of-IsOf row now d p none live unexpired has h = absurd cc
principal_of-IsOf row now d p (some role) live unexpired has h =
    subst (IsOf row now d) (ap (principal_or p) h) (record {
      key_id = refl;
      tenant_id = refl;
      user_id = refl;
      scopes = refl;
      live = live;
      unexpired = unexpired;
      role = has;
    })

pub verify_row-IsOf :
    (crypto : Crypto) (secret : Text) (row : Key) (now : ℕ) (d : Directory) (p : ApiKeyPrincipal)
    → verify_row crypto secret row now d ≡ accepted p
    → IsOf row now d p
unfolding verify_row
verify_row-IsOf crypto secret row now d p h =
    elim (Bool-cases (api_key_secret_matches crypto secret row.hash)) [
      | inr wrong ↦
          let never : refused unknown ≡ accepted p = rw (verify_row, wrong) at h in absurd cc
      | inl right ↦ elim (Bool-cases (is_some row.revoked_at)) [
        | inl dead ↦
            let never : refused revoked ≡ accepted p = rw (verify_row, right, dead) at h in
            absurd cc
        | inr live ↦ elim (Bool-cases (is_expired row.expires_at now)) [
          | inl old ↦
              let never : refused expired ≡ accepted p = rw (verify_row, right, live, old) at h in
              absurd cc
          | inr unexpired ↦
              principal_of-IsOf row now d p (creator_role row d) live unexpired refl
                (rw (verify_row, right, live, unexpired) at h)
        ]
      ]
    ]

-- The row of an accepted token.
pub verify_api_key-IsOf :
    (crypto : Crypto) (token : Text) (now : ℕ) (d : Directory) (p : ApiKeyPrincipal)
    → verify_api_key crypto token now d ≡ accepted p
    → (parsed : ParsedApiKey) × (row : Key) × (parse_api_key token ≡ some parsed)
      × (key_by_prefix parsed.prefix d.keys ≡ some row)
      × IsOf row now d p
unfolding verify_api_key
verify_api_key-IsOf crypto token now d p h = elim (Option-cases (parse_api_key token)) [
  | inl bad ↦
      let never : refused malformed ≡ accepted p = rw (verify_api_key, bad) at h in absurd cc
  | inr (parsed, is_parsed) ↦ elim (Option-cases (key_by_prefix parsed.prefix d.keys)) [
    | inl absent ↦
        let never : refused unknown ≡ accepted p = rw (verify_api_key, is_parsed, absent) at h in
        absurd cc
    | inr (row, found) ↦ (
      parsed,
      row,
      is_parsed,
      found,
      verify_row-IsOf crypto parsed.secret row now d p (rw (verify_api_key, is_parsed, found) at h),
    )
  ]
]
