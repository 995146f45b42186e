-- ===== src/Tenancy/Tests.antt =====
-- A user in two tenants, who leaves one of them.
use self_consistency_answer.Common.{
  ◌≡◌, refl, true, false, not, ◌&&◌, ◌||◌, none, some, String, [], ◌∷◌, ◌++◌, length, ◌==◌,
  if◌then◌else◌, any, all, filter, is_some, str_eq,
}
use self_consistency_answer.Tenancy.{
  owner, member, Tenant, User, Directory, ResolvedMembership, is_membership, ensure_membership,
  remove_clerk_membership, get_membership, resolve_membership,
}
use self_consistency_answer.Tenancy.Offboarding.{is_key_of, leaving_ends_access}
use self_consistency_answer.Tenancy.Mirror.{
  Host, MembershipEvent, sync_clerk_organization, sync_clerk_user, sync_clerk_membership,
  available_slug, first_free, upsert_tenant, tenant_slug_for, slugify, dash_runs, strip_start,
  strip_end,
}
use self_consistency_answer.Tenancy.Mirroring.{sync_clerk_organization_twice}
use self_consistency_answer.Tenancy.Users.{two_rows_conflict}
use self_consistency_answer.Tenancy.Members.{IsJoined, sync_clerk_membership-IsJoined}

abbrev acme : Tenant
acme = record {
  id = "t1";
  slug = "acme";
  name = "Acme";
  external_id = some "org_1";
  deleted_at = none;
}

abbrev beta : Tenant
beta = record {
  id = "t2";
  slug = "beta";
  name = "Beta";
  external_id = some "org_2";
  deleted_at = none;
}

abbrev ada : User
ada = record { id = "u1"; email = "ada@example.com"; external_id = some "user_1" }

abbrev directory : Directory
directory = record {
  tenants = acme ∷ beta ∷ [];
  users = ada ∷ [];
  memberships =
      record { tenant_id = "t1"; user_id = "u1"; role = owner }
      ∷ record { tenant_id = "t2"; user_id = "u1"; role = member }
      ∷ [];
  keys =
      record {
        id = "k1";
        tenant_id = "t1";
        created_by_user_id = some "u1";
        name = "ci";
        prefix = [];
        hash = [];
        scopes = [];
        last_used_at = none;
        expires_at = none;
        revoked_at = none;
      }
      ∷ [];
}

in_beta :
    resolve_membership "u1" "beta" "org_1" directory
    ≡ some (record { tenant = beta; role = member })
unfolding resolve_membership
in_beta = refl

leaving_ends_access_example :
    let after = remove_clerk_membership "org_1" "user_1" 900 directory in
    (any (is_membership "t1" "u1") after.memberships ≡ false)
    × ((identifier external_id : String) (r : ResolvedMembership)
        → resolve_membership "u1" identifier external_id after ≡ some r
        → str_eq r.tenant.id "t1" ≡ false)
    × (all (λ k. not (is_key_of "t1" "u1" k) || is_some k.revoked_at) after.keys ≡ true)
    × (filter (λ k. not (is_key_of "t1" "u1" k)) after.keys
        ≡ filter (λ k. not (is_key_of "t1" "u1" k)) directory.keys)
    × (after.tenants ≡ directory.tenants)
    × (after.users ≡ directory.users)
    × ((other_tenant other_user : String)
        → (str_eq "t1" other_tenant && str_eq "u1" other_user) ≡ false
        → get_membership other_tenant other_user after
          ≡ get_membership other_tenant other_user directory)
leaving_ends_access_example = leaving_ends_access "org_1" "user_1" 900 directory acme ada refl refl

-- A host that knows the names of the tests only.
abbrev host : Host
host = record {
  units = λ text. if str_eq text "acme" then 97 ∷ 99 ∷ 109 ∷ 101 ∷ [] else 120 ∷ 121 ∷ [];
  render = λ units. if length units == 4 then "acme" else "other";
  to_lower = λ units. units;
  before = λ a b. str_eq a "user_1";
}

abbrev acme_again : Tenant
acme_again = record {
  id = "t3";
  slug = "acme-2";
  name = "Acme too";
  external_id = some "org_3";
  deleted_at = none;
}

abbrev with_third : Directory
with_third = record directory { tenants = acme ∷ beta ∷ acme_again ∷ [] }

third_takes_a_suffix :
    sync_clerk_organization host "org_3" "Acme too" (some "acme") "t3" directory ≡ some with_third
unfolding sync_clerk_organization available_slug first_free upsert_tenant tenant_slug_for slugify
    dash_runs strip_start strip_end
third_takes_a_suffix = refl

sync_clerk_organization_twice_example :
    sync_clerk_organization host "org_3" "Acme too" (some "acme") "t4" with_third ≡ some with_third
sync_clerk_organization_twice_example =
    sync_clerk_organization_twice host "org_3" "Acme too" (some "acme") "t3" "t4" directory
      with_third third_takes_a_suffix

-- A row that was seeded under an address, and the placeholder of a membership event.
abbrev seeded : Directory
seeded = record directory {
  users =
      record { id = "u8"; email = "bob@example.com"; external_id = none }
      ∷ record { id = "u9"; email = "user_9@users.noreply.clerk"; external_id = some "user_9" }
      ∷ [];
}

two_rows_conflict_example : sync_clerk_user host "user_9" "bob@example.com" "u10" seeded ≡ none
two_rows_conflict_example =
    two_rows_conflict host "user_9" "bob@example.com" "u10" seeded "u8" "u9" refl refl refl

abbrev event : MembershipEvent
event = record {
  organization_external_id = "org_1";
  organization_name = "Acme";
  organization_slug = some "acme";
  user_external_id = "user_5";
  user_email = none;
  role = member;
}

abbrev joined : Directory
joined = record directory {
  users =
      ada
      ∷ record { id = "u5"; email = "user_5@users.noreply.clerk"; external_id = some "user_5" }
      ∷ [];
  memberships =
      directory.memberships ++ record { tenant_id = "t1"; user_id = "u5"; role = member } ∷ [];
}

joins : sync_clerk_membership host event "t9" "u5" directory ≡ (joined, true)
unfolding sync_clerk_membership sync_clerk_organization available_slug first_free upsert_tenant
    tenant_slug_for slugify dash_runs strip_start strip_end sync_clerk_user ensure_membership
joins = refl

sync_clerk_membership-IsJoined_example : IsJoined event joined
sync_clerk_membership-IsJoined_example =
    sync_clerk_membership-IsJoined host event "t9" "u5" directory joined joins
