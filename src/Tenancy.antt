-- ===== src/Tenancy.antt =====
-- packages/db/src/tenancy.ts: tenants, their members and keys, and which tenant a request acts inside.
-- Memberships stand in the order in which they were created. Every call is one statement or a few that
-- the model takes as one step.
pub mod Acting
pub mod Offboarding
pub mod Mirror
pub mod Slugs
pub mod Mirroring
pub mod Users
pub mod Members
mod Tests
use self_consistency_answer.Common.{
  ℕ, suc, Bool, true, false, not, ◌&&◌, ◌||◌, Option, none, some, String, List, [], ◌∷◌, ◌++◌, map,
  filter, any, find?, is_some, or_else, str_eq, if◌then◌else◌,
}
use self_consistency_answer.Sse.{Text}

pub data MemberRole : Type 0 where
  owner admin member viewer : MemberRole

pub record Tenant : Type 0 where
  pub id : String
  pub slug : String
  pub name : String
  pub external_id : Option String
  pub deleted_at : Option ℕ

pub record User : Type 0 where
  pub id : String
  pub email : String
  pub external_id : Option String

pub record Membership : Type 0 where
  pub tenant_id : String
  pub user_id : String
  pub role : MemberRole

pub record Key : Type 0 where
  pub id : String
  pub tenant_id : String
  pub created_by_user_id : Option String
  pub name : String
  pub prefix : Text
  pub hash : Text
  pub scopes : List Text
  pub last_used_at : Option ℕ
  pub expires_at : Option ℕ
  pub revoked_at : Option ℕ

pub record Directory : Type 0 where
  pub tenants : List Tenant
  pub users : List User
  pub memberships : List Membership
  pub keys : List Key

-- A column that is set to this.
abbrev pub is_set_to : String → Option String → Bool
is_set_to value none = false
is_set_to value (some set) = str_eq set value

abbrev pub is_membership : String → String → Membership → Bool
is_membership tenant_id user_id m = str_eq m.tenant_id tenant_id && str_eq m.user_id user_id

abbrev pub tenant_by_id : String → List Tenant → Option Tenant
tenant_by_id id tenants = find? (λ (t : Tenant). str_eq t.id id) tenants

abbrev pub with_role : Option MemberRole → Membership → Membership
with_role none m = m
with_role (some role) m = record m { role = role }

unfoldable pub ensure_membership : String → String → Option MemberRole → Directory → Directory
ensure_membership tenant_id user_id role d = record d {
  memberships =
      if any (is_membership tenant_id user_id) d.memberships
      then map (λ m. if is_membership tenant_id user_id m then with_role role m else m)
          d.memberships
      else d.memberships
        ++ record { tenant_id = tenant_id; user_id = user_id; role = or_else role member } ∷ [];
}

unfoldable pub delete_clerk_organization : String → ℕ → Directory → Directory
delete_clerk_organization external_id now d = record d {
  tenants =
      map
        (λ (t : Tenant).
          if is_set_to external_id t.external_id && not (is_some t.deleted_at)
          then record t { deleted_at = some now }
          else t)
        d.tenants;
}

-- The memberships of a user that is deleted go with it.
unfoldable pub delete_clerk_user : String → Directory → Directory
delete_clerk_user external_id d =
    let gone = filter (λ (u : User). is_set_to external_id u.external_id) d.users in
    record d {
      users = filter (λ (u : User). not (is_set_to external_id u.external_id)) d.users;
      memberships =
          filter (λ m. not (any (λ (u : User). str_eq u.id m.user_id) gone)) d.memberships;
      keys =
          map
            (λ (k : Key).
              if any (λ (u : User). is_set_to u.id k.created_by_user_id) gone
              then record k { created_by_user_id = none }
              else k)
            d.keys;
    }

abbrev pub revoke : ℕ → Key → Key
revoke now k = if is_some k.revoked_at then k else record k { revoked_at = some now }

unfoldable pub remove_membership : String → String → ℕ → Directory → Directory
remove_membership tenant_id user_id now d = record d {
  memberships = filter (λ m. not (is_membership tenant_id user_id m)) d.memberships;
  keys =
      map
        (λ (k : Key).
          if str_eq k.tenant_id tenant_id && is_set_to user_id k.created_by_user_id
          then revoke now k
          else k)
        d.keys;
}

unfoldable pub remove_clerk_membership : String → String → ℕ → Directory → Directory
unfolding remove_membership
remove_clerk_membership organization user now d =
    elim (find? (λ (t : Tenant). is_set_to organization t.external_id) d.tenants) [
      | none ↦ d
      | some tenant ↦ elim (find? (λ (u : User). is_set_to user u.external_id) d.users) [
        | none ↦ d
        | some u ↦ remove_membership tenant.id u.id now d
      ]
    ]

unfoldable pub get_membership : String → String → Directory → Option MemberRole
get_membership tenant_id user_id d = elim (find? (is_membership tenant_id user_id) d.memberships) [
  | none ↦ none
  | some m ↦ some m.role
]

pub record ResolvedMembership : Type 0 where
  pub tenant : Tenant
  pub role : MemberRole

-- What the caller names, if anything: a tenant by its id or slug, or the session's organization.
pub data Named : Type 0 where
  by_identifier : String → Named
  by_external_id : String → Named
  nothing : Named

-- Both texts are trimmed; an empty one is none.
unfoldable pub named_by : String → String → Named
named_by identifier external_id =
    if not (str_eq identifier "")
    then by_identifier identifier
    else if not (str_eq external_id "")
    then by_external_id external_id
    else nothing

unfoldable pub is_match : Named → Tenant → Bool
is_match (by_identifier identifier) t = str_eq t.id identifier || str_eq t.slug identifier
is_match (by_external_id external_id) t = is_set_to external_id t.external_id
is_match nothing t = true

-- The oldest of the memberships that may serve the request.
unfoldable pub first_serving :
    String → Named → List Tenant → List Membership → Option ResolvedMembership
first_serving user_id named tenants [] = none
first_serving user_id named tenants (m ∷ memberships) =
    let rest = first_serving user_id named tenants memberships in
    elim (tenant_by_id m.tenant_id tenants) [
      | none ↦ rest
      | some t ↦
          if str_eq m.user_id user_id && (not (is_some t.deleted_at) && is_match named t)
          then some (record { tenant = t; role = m.role })
          else rest
    ]

unfoldable pub resolve_membership : String → String → String → Directory → Option ResolvedMembership
unfolding named_by first_serving is_match
resolve_membership user_id identifier external_id d =
    first_serving user_id (named_by identifier external_id) d.tenants d.memberships

unfoldable pub tenant_matches : String → String → Directory → Bool
tenant_matches tenant_id identifier d =
    str_eq identifier tenant_id || (elim (tenant_by_id tenant_id d.tenants) [
      | none ↦ false
      | some t ↦ str_eq t.slug identifier || is_set_to identifier t.external_id
    ])
