-- ===== src/Access/Tests.antt =====
-- An owner who makes a key, and a member whose key outlives the deletion of its maker.
use self_consistency_answer.Common.{
  ℕ, ◌≡◌, ◌≢◌, refl, true, ◌||◌, none, some, String, [], ◌∷◌, replicate, any, str_eq,
}
use self_consistency_answer.Sse.{Text}
use self_consistency_answer.Plans.{has_entitlement, pro}
use self_consistency_answer.Billing.{
  Subscription, resolve_access, effective_plan, free_subscription,
}
use self_consistency_answer.Tenancy.{
  MemberRole, owner, admin, member, viewer, Tenant, User, Key, Directory, is_membership,
  remove_clerk_membership, delete_clerk_user, get_membership, resolve_membership, tenant_matches,
}
use self_consistency_answer.Auth.{
  reads_runs, writes_keys, scope_name, text_eq, session, Actor, run_read, can, allows, all_scopes,
  stored_scopes,
}
use self_consistency_answer.ApiKeys.{
  Crypto, live, mint_api_key, MintedApiKey, accepted, ApiKeyPrincipal, verify_api_key,
  parse_api_key, role_of_creator, create_api_key, new_key, verify_row, creator_role,
}
use self_consistency_answer.ApiKeys.Tokens.{IsRandom, parse-mint_api_key, text_eq_refl}
use self_consistency_answer.Access.{
  HttpRequest, session_token, authenticate, authenticate_clerk, authenticated, actor_of_key,
  bearer_token, verify_clerk_request, require_permission,
}
use self_consistency_answer.Access.Keys.{
  CreateApiKeyInput, grantable_scopes, created, create_key, mint_input,
}
use self_consistency_answer.Auth.Policy.{is_at_most}
use self_consistency_answer.Access.Belonging.{authenticate-IsMember}
use self_consistency_answer.Access.Leaving.{leaver_is_locked_out}
use self_consistency_answer.Access.Deletion.{deleted_creator_makes_owner}
use self_consistency_answer.Access.Minting.{IsSound, secret_matches, with_key, minted_key_works}
use self_consistency_answer.Access.Escalation.{key_within_maker}

abbrev public_id : Text
public_id = replicate 12 97

abbrev secret : Text
secret = replicate 43 95

abbrev crypto : Crypto
crypto = record {
  sha256_hex = λ text. 48 ∷ text;
  from_hex = λ text. replicate 32 0;
  timing_safe_equal = text_eq;
}

is_sound : IsSound crypto
is_sound = record { digest_length = λ s. refl; equal_bytes = text_eq_refl }

is_random : IsRandom public_id secret
is_random = record {
  id_length = refl;
  id_hex = refl;
  secret_length = refl;
  secret_base64url = refl;
}

abbrev minted : MintedApiKey
minted = mint_api_key crypto live public_id secret

abbrev acme : Tenant
acme = record {
  id = "t1";
  slug = "acme";
  name = "Acme";
  external_id = some "org_1";
  deleted_at = none;
}

abbrev ada : User
ada = record { id = "u1"; email = "ada@example.com"; external_id = some "user_1" }

abbrev bob : User
bob = record { id = "u2"; email = "bob@example.com"; external_id = some "user_2" }

abbrev directory : Directory
directory = record {
  tenants = acme ∷ [];
  users = ada ∷ bob ∷ [];
  memberships =
      record { tenant_id = "t1"; user_id = "u1"; role = owner }
      ∷ record { tenant_id = "t1"; user_id = "u2"; role = member }
      ∷ [];
  keys = [];
}

abbrev key_of_bob : Key
key_of_bob = record {
  id = "k1";
  tenant_id = "t1";
  created_by_user_id = some "u2";
  name = "ci";
  prefix = minted.prefix;
  hash = minted.hash;
  scopes = scope_name reads_runs ∷ [];
  last_used_at = none;
  expires_at = none;
  revoked_at = none;
}

abbrev with_bobs_key : Directory
with_bobs_key = record directory { keys = key_of_bob ∷ [] }

abbrev from_browser : HttpRequest
from_browser = record {
  authorization = none;
  tenant = "acme";
  clerk = session_token "user_2" none "sess_1";
}

abbrev actor_bob : Actor
actor_bob = record {
  credential = session;
  tenant_id = "t1";
  user_id = some "u2";
  role = member;
  scopes = all_scopes;
  credential_id = some "sess_1";
}

bob_is_in : (authenticate crypto from_browser 5 directory).result ≡ authenticated actor_bob
unfolding authenticate bearer_token authenticate_clerk verify_clerk_request resolve_membership
bob_is_in = refl

authenticate-IsMember_example :
    ((user_id : String)
      → some "u2" ≡ some user_id
      → any (is_membership "t1" user_id) directory.memberships ≡ true)
    × ((str_eq "acme" "" || tenant_matches "t1" "acme" directory) ≡ true)
authenticate-IsMember_example =
    authenticate-IsMember crypto from_browser 5 directory actor_bob bob_is_in

abbrev without_bob : Directory
without_bob = remove_clerk_membership "org_1" "user_2" 9 directory

abbrev from_ada : HttpRequest
from_ada = record from_browser { clerk = session_token "user_1" none "sess_2" }

abbrev actor_ada : Actor
actor_ada = record actor_bob { user_id = some "u1"; role = owner; credential_id = some "sess_2" }

ada_is_in : (authenticate crypto from_ada 10 without_bob).result ≡ authenticated actor_ada
unfolding authenticate bearer_token authenticate_clerk verify_clerk_request resolve_membership
    remove_clerk_membership
ada_is_in = refl

leaver_is_locked_out_example : actor_ada.user_id ≢ some bob.id
leaver_is_locked_out_example =
    leaver_is_locked_out crypto "org_1" "user_2" 9 directory acme bob refl refl from_ada 10
      actor_ada ada_is_in refl

parsed_token :
    parse_api_key minted.token
    ≡ some (record { environment = live; prefix = minted.prefix; secret = minted.secret })
parsed_token = (parse-mint_api_key crypto live public_id secret is_random).0

deleted_creator_makes_owner_example :
    verify_api_key crypto minted.token 20 (delete_clerk_user "user_2" with_bobs_key)
    ≡ accepted (record {
      key_id = "k1";
      tenant_id = "t1";
      user_id = none;
      role = owner;
      scopes = stored_scopes (scope_name reads_runs ∷ []);
    })
deleted_creator_makes_owner_example =
    deleted_creator_makes_owner crypto "user_2" with_bobs_key bob minted.token
      (record { environment = live; prefix = minted.prefix; secret = minted.secret }) key_of_bob 20
      refl parsed_token refl refl (secret_matches crypto secret is_sound) refl refl

abbrev asked : CreateApiKeyInput
asked = record {
  name = "ci";
  scopes = some (reads_runs ∷ writes_keys ∷ []);
  expires_in_days = some 1;
}

abbrev on_pro : Subscription
on_pro = record free_subscription { plan = pro }

abbrev iso : ℕ → String
iso at = "2026-01-01"

abbrev with_minted : Directory
with_minted = with_key actor_ada asked 100 "k2" minted directory (reads_runs ∷ writes_keys ∷ [])

ada_makes_one :
    create_key iso actor_ada asked on_pro 100 "k2" minted directory
    ≡ (with_minted, created minted.token)
unfolding create_key require_permission can resolve_access effective_plan has_entitlement
    grantable_scopes create_api_key
ada_makes_one = refl

ada_is_owner : role_of_creator (some "u1") "t1" directory ≡ some owner
unfolding get_membership
ada_is_owner = refl

minted_key_works_example :
    verify_api_key crypto minted.token 200 with_minted
    ≡ accepted (record {
      key_id = "k2";
      tenant_id = "t1";
      user_id = some "u1";
      role = owner;
      scopes = grantable_scopes all_scopes (some (reads_runs ∷ writes_keys ∷ []));
    })
minted_key_works_example =
    minted_key_works crypto iso actor_ada asked on_pro 100 "k2" live public_id secret directory
      with_minted minted.token 200 is_sound is_random ada_makes_one refl ada_is_owner

-- Later, when the key has been used and its maker is a member only.
abbrev used : Key
used =
    record (new_key (mint_input actor_ada asked 100 (reads_runs ∷ writes_keys ∷ [])) "k2" minted) {
      last_used_at = some 150;
    }

abbrev demoted : Directory
demoted = record directory {
  memberships = record { tenant_id = "t1"; user_id = "u1"; role = member } ∷ [];
  keys = used ∷ [];
}

abbrev principal : ApiKeyPrincipal
principal = record {
  key_id = "k2";
  tenant_id = "t1";
  user_id = some "u1";
  role = member;
  scopes = stored_scopes used.scopes;
}

key_is_accepted : verify_api_key crypto minted.token 200 demoted ≡ accepted principal
unfolding verify_api_key verify_row creator_role get_membership
key_is_accepted =
    rw
      (
        verify_api_key,
        parsed_token,
        verify_row,
        secret_matches crypto secret is_sound,
        creator_role,
      )
      refl

key_may_read : allows (actor_of_key principal) run_read none ≡ true
unfolding allows can stored_scopes
key_may_read = refl

role_is_below :
    (role : MemberRole)
    → role_of_creator (some "u1") "t1" demoted ≡ some role
    → is_at_most role owner ≡ true
role_is_below viewer h = refl
role_is_below member h = refl
role_is_below admin h = refl
role_is_below owner h = refl

key_within_maker_example : allows actor_ada run_read none ≡ true
key_within_maker_example =
    key_within_maker crypto iso actor_ada asked on_pro 100 "k2" live public_id secret directory
      with_minted minted.token is_random ada_makes_one 200 demoted
      (new_key (mint_input actor_ada asked 100 (reads_runs ∷ writes_keys ∷ [])) "k2" minted) used
      refl refl refl refl refl role_is_below principal key_is_accepted run_read none key_may_read
