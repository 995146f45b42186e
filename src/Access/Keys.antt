-- ===== src/Access/Keys.antt =====
-- packages/server/src/keys.ts: the routes that make and revoke API keys. The body of a request is one that
-- its schema accepted.
use self_consistency_answer.Common.{
  ℕ, ◌+◌, ◌*◌, Bool, not, Option, none, some, String, List, [], ◌∷◌, filter, any, or_else,
  if◌then◌else◌,
}
use self_consistency_answer.Sse.{Text}
use self_consistency_answer.Plans.{api_keys, has_entitlement}
use self_consistency_answer.Billing.{Subscription, is_full, resolve_access, effective_plan}
use self_consistency_answer.Tenancy.{Directory}
use self_consistency_answer.Auth.{Scope, default_scopes, scope_eq, key_create, key_revoke, Actor}
use self_consistency_answer.ApiKeys.{MintApiKeyInput, MintedApiKey, create_api_key, revoke_api_key}
use self_consistency_answer.Access.{require_permission}

pub record CreateApiKeyInput : Type 0 where
  pub name : String
  pub scopes : Option (List Scope)
  pub expires_in_days : Option ℕ

pub data KeyAnswer : Type 0 where
  refused_with : ℕ → KeyAnswer
  payment_required feature_unavailable none_held prefix_taken : KeyAnswer
  created : Text → KeyAnswer
  revoked_one : Bool → KeyAnswer

abbrev pub holds : List Scope → Scope → Bool
holds held scope = any (scope_eq scope) held

unfoldable pub grantable_scopes : List Scope → Option (List Scope) → List Scope
grantable_scopes held requested = filter (holds held) (or_else requested default_scopes)

abbrev pub day_ms : ℕ
day_ms = 24 * 60 * 60 * 1000

abbrev pub expiry : Option ℕ → ℕ → Option ℕ
expiry none now = none
expiry (some days) now = some (now + days * day_ms)

abbrev pub mint_input : Actor → CreateApiKeyInput → ℕ → List Scope → MintApiKeyInput
mint_input actor input now scopes = record {
  tenant_id = actor.tenant_id;
  created_by_user_id = actor.user_id;
  name = input.name;
  scopes = scopes;
  expires_at = expiry input.expires_in_days now;
}

abbrev pub answer_minted : Directory → Option (Directory × Text) → Directory × KeyAnswer
answer_minted d none = (d, prefix_taken)
answer_minted d (some (after, token)) = (after, created token)

-- Minting, once the scopes are settled; the row's id is the database's choice.
abbrev pub mint_scopes :
    Actor
    → CreateApiKeyInput
    → ℕ
    → String
    → MintedApiKey
    → Directory
    → List Scope
    → Directory × KeyAnswer
mint_scopes actor input now id minted d [] = (d, none_held)
mint_scopes actor input now id minted d (scope ∷ scopes) =
    answer_minted d (create_api_key (mint_input actor input now (scope ∷ scopes)) id minted d)

module _ (iso : ℕ → String) where
  unfoldable pub create_key :
      Actor
      → CreateApiKeyInput
      → Subscription
      → ℕ
      → String
      → MintedApiKey
      → Directory
      → Directory × KeyAnswer
  create_key actor input subscription now id minted d = elim (require_permission actor key_create) [
    | some status ↦ (d, refused_with status)
    | none ↦
        if not (is_full (resolve_access iso subscription now).mode)
        then (d, payment_required)
        else if not (has_entitlement (effective_plan iso subscription now) api_keys)
        then (d, feature_unavailable)
        else mint_scopes actor input now id minted d (grantable_scopes actor.scopes input.scopes)
  ]

unfoldable pub delete_key : Actor → String → ℕ → Directory → Directory × KeyAnswer
delete_key actor key_id now d = elim (require_permission actor key_revoke) [
  | some status ↦ (d, refused_with status)
  | none ↦
      let (revoked, after) = revoke_api_key actor.tenant_id key_id now d in
      (after, revoked_one revoked)
]
