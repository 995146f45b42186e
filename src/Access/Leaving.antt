-- ===== src/Access/Leaving.antt =====
-- After a member has left, no credential acts as that member in the tenant.
use self_consistency_answer.Common.{ℕ, ◌≡◌, ◌≢◌, subst, true, false, some, String, any, find?}
use self_consistency_answer.Tenancy.{
  Tenant, User, Directory, is_set_to, is_membership, remove_clerk_membership,
}
use self_consistency_answer.Tenancy.Offboarding.{leaving_ends_access}
use self_consistency_answer.Auth.{Actor}
use self_consistency_answer.ApiKeys.{Crypto}
use self_consistency_answer.Access.{HttpRequest, authenticated, authenticate}
use self_consistency_answer.Access.Belonging.{authenticate-IsMember}

-- When the identity provider has reported that a user left an organization, and both are known, no
-- request is authenticated as that user inside the tenant any more: not with a session, an OAuth token
-- or an API key, whatever tenant it names and whenever it comes.
pub leaver_is_locked_out :
    (crypto : Crypto) (organization user : String) (left_at : ℕ) (d : Directory) (tenant : Tenant)
    (u : User)
    → find? (λ (t : Tenant). is_set_to organization t.external_id) d.tenants ≡ some tenant
    → find? (λ (v : User). is_set_to user v.external_id) d.users ≡ some u
    → (request : HttpRequest) (now : ℕ) (actor : Actor)
    → (authenticate crypto request now (remove_clerk_membership organization user left_at d)).result
      ≡ authenticated actor
    → actor.tenant_id ≡ tenant.id
    → actor.user_id ≢ some u.id
leaver_is_locked_out crypto organization user left_at d tenant u is_tenant is_user request now actor
      may inside is_u =
    let after = remove_clerk_membership organization user left_at d in
    let gone : any (is_membership tenant.id u.id) after.memberships ≡ false =
      (leaving_ends_access organization user left_at d tenant u is_tenant is_user).0 in
    let here : any (is_membership actor.tenant_id u.id) after.memberships ≡ true =
      (authenticate-IsMember crypto request now after actor may).0 u.id is_u in
    let both = subst (λ t. any (is_membership t u.id) after.memberships ≡ true) inside here in
    absurd cc
