-- ===== src/Access.antt =====
-- packages/server/src/auth/ and packages/server/src/keys.ts: from a request to the actor behind it, the
-- gates before a route, and the routes that make and revoke keys. What Clerk found out about the
-- request is a parameter. The statements of one request are taken as one step.
pub mod Keys
pub mod Belonging
pub mod Leaving
pub mod Minting
pub mod Escalation
pub mod Deletion
mod Tests
use Prim.Native.String.{◌++◌}
use self_consistency_answer.Common.{
  ℕ, ◌+◌, ◌*◌, Bool, true, false, not, ◌&&◌, ◌||◌, Option, none, some, String, List, [], ◌∷◌,
  filter, any, find?, is_some, or_else, str_eq, leb, ◌==◌, if◌then◌else◌,
}
use self_consistency_answer.Sse.{Text, is_white, trim}
use self_consistency_answer.Plans.{api_keys, PlanId, has_entitlement}
use self_consistency_answer.Billing.{Subscription, is_full, resolve_access, effective_plan}
use self_consistency_answer.Tenancy.{
  User, Directory, is_set_to, ResolvedMembership, resolve_membership, tenant_matches,
}
use self_consistency_answer.Auth.{
  Scope, all_scopes, default_scopes, scope_eq, parse_scope_list, Permission, key_create, key_revoke,
  CredentialKind, session, oauth, api_key, Actor, Resource, DenialReason, cross_tenant, lacks_role,
  lacks_scope, not_owner, Decision, allowed, denied, can,
}
use self_consistency_answer.ApiKeys.{
  Crypto, MintedApiKey, ApiKeyRejection, malformed, unknown, revoked, expired, no_membership,
  ApiKeyPrincipal, ApiKeyVerification, accepted, refused, looks_like_api_key, verify_api_key,
  touch_api_key, create_api_key, revoke_api_key,
}

pub record ClerkPrincipal : Type 0 where
  pub kind : CredentialKind
  pub external_user_id : String
  pub external_org_id : Option String
  pub scopes : List Scope
  pub credential_id : Option String

-- What Clerk makes of a request: it is not configured, it throws, the request is signed out, or it
-- carries a session or an OAuth token, whose scopes are joined by spaces.
pub data ClerkState : Type 0 where
  not_configured : ClerkState
  failed : String → ClerkState
  signed_out : String → ClerkState
  session_token : String → Option String → String → ClerkState
  oauth_token : Option String → Text → String → ClerkState

pub data ClerkVerification : Type 0 where
  verified : ClerkPrincipal → ClerkVerification
  rejected : String → ClerkVerification

-- A session has every scope: `"all"` stands for `ALL_SCOPES`.
unfoldable pub verify_clerk_request : ClerkState → ClerkVerification
verify_clerk_request not_configured = rejected "clerk-not-configured"
verify_clerk_request (failed error) = rejected ("clerk-error: " ++ error)
verify_clerk_request (signed_out reason) = rejected reason
verify_clerk_request (session_token user_id org_id session_id) = verified (record {
  kind = session;
  external_user_id = user_id;
  external_org_id = org_id;
  scopes = all_scopes;
  credential_id = some session_id;
})
verify_clerk_request (oauth_token none scopes client_id) = rejected "oauth-token-without-subject"
verify_clerk_request (oauth_token (some user_id) scopes client_id) = verified (record {
  kind = oauth;
  external_user_id = user_id;
  external_org_id = none;
  scopes = parse_scope_list scopes;
  credential_id = some client_id;
})

-- The `Authorization` header, and the tenant header trimmed; an absent tenant is the empty text.
pub record HttpRequest : Type 0 where
  pub authorization : Option Text
  pub tenant : String
  pub clerk : ClerkState

-- "bearer" in code units, and a letter in lower case.
abbrev pub bearer : Text
bearer = 98 ∷ 101 ∷ 97 ∷ 114 ∷ 101 ∷ 114 ∷ []

abbrev pub lower : ℕ → ℕ
lower c = if leb 65 c && leb c 90 then c + 32 else c

abbrev pub after_scheme : Text → Text → Option Text
after_scheme [] text = some text
after_scheme (c ∷ scheme) [] = none
after_scheme (c ∷ scheme) (d ∷ text) =
    let rest = after_scheme scheme text in if c == lower d then rest else none

abbrev pub is_line_end : ℕ → Bool
is_line_end c = (c == 10 || c == 13) || (c == 8232 || c == 8233)

-- `\s+(.+)$`: white space, then something on one line.
abbrev pub credential_after : Text → Option Text
credential_after [] = none
credential_after (c ∷ text) =
    if is_white c && not (any is_line_end (trim text)) then some (trim text) else none

unfoldable pub bearer_token : Option Text → Option Text
bearer_token none = none
bearer_token (some header) = elim (after_scheme bearer (trim header)) [
  | none ↦ none
  | some rest ↦ credential_after rest
]

pub data Authentication : Type 0 where
  authenticated : Actor → Authentication
  unauthenticated : String → Authentication
  forbidden : String → Authentication

-- What a request leaves: its answer, the directory, and the refusal that the audit log is told of.
pub record Attempt : Type 0 where
  pub result : Authentication
  pub directory : Directory
  pub audited : Option ApiKeyRejection

unfoldable pub is_audited : ApiKeyRejection → Bool
is_audited malformed = false
is_audited unknown = false
is_audited revoked = true
is_audited expired = true
is_audited no_membership = true

abbrev pub rejection_name : ApiKeyRejection → String
rejection_name malformed = "api-key-malformed"
rejection_name unknown = "api-key-unknown"
rejection_name revoked = "api-key-revoked"
rejection_name expired = "api-key-expired"
rejection_name no_membership = "api-key-no-membership"

abbrev pub actor_of_key : ApiKeyPrincipal → Actor
actor_of_key principal = record {
  credential = api_key;
  tenant_id = principal.tenant_id;
  user_id = principal.user_id;
  role = principal.role;
  scopes = principal.scopes;
  credential_id = some principal.key_id;
}

unfoldable pub answer_key : HttpRequest → ℕ → Directory → ApiKeyVerification → Attempt
answer_key request now d (refused reason) = record {
  result = unauthenticated (rejection_name reason);
  directory = d;
  audited = if is_audited reason then some reason else none;
}
answer_key request now d (accepted principal) =
    if not (str_eq request.tenant "") && not (tenant_matches principal.tenant_id request.tenant d)
    then record { result = forbidden "api-key-tenant-mismatch"; directory = d; audited = none }
    else record {
      result = authenticated (actor_of_key principal);
      directory = touch_api_key principal.tenant_id principal.key_id now d;
      audited = none;
    }

abbrev pub actor_of_member : ClerkPrincipal → User → ResolvedMembership → Actor
actor_of_member principal user membership = record {
  credential = principal.kind;
  tenant_id = membership.tenant.id;
  user_id = some user.id;
  role = membership.role;
  scopes = principal.scopes;
  credential_id = principal.credential_id;
}

abbrev pub find_user : String → List User → Option User
find_user external_id users = find? (λ (u : User). is_set_to external_id u.external_id) users

abbrev pub answer_member :
    HttpRequest → ClerkPrincipal → User → Option ResolvedMembership → Authentication
answer_member request principal user none =
    forbidden
      (if str_eq request.tenant "" then "no-membership" else "not-a-member-of-requested-tenant")
answer_member request principal user (some membership) =
    authenticated (actor_of_member principal user membership)

abbrev pub answer_user : HttpRequest → ClerkPrincipal → Directory → Option User → Authentication
answer_user request principal d none = forbidden "user-not-synced"
answer_user request principal d (some user) =
    answer_member request principal user
      (resolve_membership user.id request.tenant (or_else principal.external_org_id "") d)

abbrev pub answer_clerk : HttpRequest → Directory → ClerkVerification → Authentication
answer_clerk request d (rejected reason) = unauthenticated reason
answer_clerk request d (verified principal) =
    answer_user request principal d (find_user principal.external_user_id d.users)

unfoldable pub authenticate_clerk : HttpRequest → Directory → Authentication
authenticate_clerk request d = answer_clerk request d (verify_clerk_request request.clerk)

-- The token of a key, if the request carries one.
abbrev pub key_token : HttpRequest → Option Text
key_token request = elim (bearer_token request.authorization) [
  | none ↦ none
  | some token ↦ if looks_like_api_key token then some token else none
]

module _ (crypto : Crypto) where
  unfoldable pub authenticate : HttpRequest → ℕ → Directory → Attempt
  authenticate request now d = elim (key_token request) [
    | some token ↦ answer_key request now d (verify_api_key crypto token now d)
    | none ↦ record { result = authenticate_clerk request d; directory = d; audited = none }
  ]

unfoldable pub denial_status : DenialReason → ℕ
denial_status cross_tenant = 404
denial_status lacks_role = 403
denial_status lacks_scope = 403
denial_status not_owner = 403

-- The status of a refusal, and none to carry on.
unfoldable pub require_permission : Actor → Permission → Option ℕ
unfolding denial_status
require_permission actor permission = elim (can actor permission none) [
  | allowed ↦ none
  | denied reason ↦ some (denial_status reason)
]

unfoldable pub authorize_resource : Actor → Permission → Resource → Option ℕ
unfolding denial_status
authorize_resource actor permission resource = elim (can actor permission (some resource)) [
  | allowed ↦ none
  | denied reason ↦ some (denial_status reason)
]
