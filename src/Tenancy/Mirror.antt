-- ===== src/Tenancy/Mirror.antt =====
-- packages/db/src/tenancy.ts: mirroring the identity provider's organizations, users and memberships. The
-- order of a text column, lower case and the code units of a text are parameters (Host); the id of a row
-- that is made is an argument. `none` is a violation of a unique index, which throws. Names are left out
-- of the user's row.
use Prim.Native.String as Text
use self_consistency_answer.Common.{
  ℕ, ◌-◌, Bool, true, false, not, ◌&&◌, ◌||◌, Option, none, some, String, List, [], ◌∷◌, ◌++◌, map,
  any, filter, find?, take, drop, length, or_else, leb, ◌==◌, str_eq, if◌then◌else◌,
}
use self_consistency_answer.Sse.{starts_with}
use self_consistency_answer.Tenancy.{
  MemberRole, Tenant, User, Directory, is_set_to, ensure_membership,
}

pub record Host : Type 0 where
  pub units : String → List ℕ
  pub render : List ℕ → String
  pub to_lower : List ℕ → List ℕ
  pub before : String → String → Bool

-- `[a-z0-9-]`.
abbrev pub is_slug_char : ℕ → Bool
is_slug_char c = (leb 97 c && leb c 122) || ((leb 48 c && leb c 57) || c == 45)

abbrev pub goes_on : List ℕ → Bool
goes_on [] = false
goes_on (c ∷ text) = not (is_slug_char c)

-- `.replace(/[^a-z0-9-]+/g, "-")`: a run gives its dash where it ends.
unfoldable pub dash_runs : List ℕ → List ℕ
dash_runs [] = []
dash_runs (c ∷ text) =
    let rest = dash_runs text in
    if is_slug_char c then c ∷ rest else (if goes_on text then rest else 45 ∷ rest)

-- `.replace(/^-+|-+$/g, "")`.
unfoldable pub strip_start : List ℕ → List ℕ
strip_start [] = []
strip_start (c ∷ text) = let rest = strip_start text in if c == 45 then rest else c ∷ text

abbrev pub onto_stripped : ℕ → List ℕ → List ℕ
onto_stripped c [] = if c == 45 then [] else c ∷ []
onto_stripped c (d ∷ rest) = c ∷ d ∷ rest

unfoldable pub strip_end : List ℕ → List ℕ
strip_end [] = []
strip_end (c ∷ text) = onto_stripped c (strip_end text)

-- `.replace(/^org_/, "")`, with "org_" in code units.
abbrev pub without_org : List ℕ → List ℕ
without_org text = if starts_with text (111 ∷ 114 ∷ 103 ∷ 95 ∷ []) then drop 4 text else text

module _ (host : Host) where
  unfoldable pub slugify : List ℕ → List ℕ
  slugify value = strip_end (strip_start (dash_runs (host.to_lower value)))

  unfoldable pub tenant_slug_for : String → Option String → String
  tenant_slug_for external_id slug =
      let base = slugify (host.units (or_else slug "")) in
      if leb 2 (length base)
      then host.render base
      else host.render
          (111 ∷ 114 ∷ 103 ∷ 45 ∷ take 24 (slugify (without_org (host.units external_id))))

  -- `externalId.slice(-6).toLowerCase()`.
  abbrev pub tail_of : String → String
  tail_of external_id =
      let text = host.units external_id in host.render (host.to_lower (drop (length text - 6) text))

  abbrev pub fallback : String → String → String
  fallback preferred external_id = Text.◌++◌ preferred (Text.◌++◌ "-" (tail_of external_id))

abbrev pub slug_candidates : String → List String
slug_candidates preferred =
    preferred
    ∷ Text.◌++◌ preferred "-2"
    ∷ Text.◌++◌ preferred "-3"
    ∷ Text.◌++◌ preferred "-4"
    ∷ Text.◌++◌ preferred "-5"
    ∷ []

abbrev pub is_free : String → Option Tenant → Bool
is_free external_id none = true
is_free external_id (some holder) = is_set_to external_id holder.external_id

abbrev pub holder_of : String → List Tenant → Option Tenant
holder_of slug tenants = find? (λ (t : Tenant). str_eq t.slug slug) tenants

unfoldable pub first_free : List String → String → String → List Tenant → String
first_free [] last external_id tenants = last
first_free (candidate ∷ rest) last external_id tenants =
    let later = first_free rest last external_id tenants in
    if is_free external_id (holder_of candidate tenants) then candidate else later

-- A row of another organization with the slug.
abbrev pub is_held : String → String → List Tenant → Bool
is_held slug external_id tenants =
    any (λ (t : Tenant). str_eq t.slug slug && not (is_set_to external_id t.external_id)) tenants

abbrev pub rename : String → String → String → Tenant → Tenant
rename external_id slug name t =
    if is_set_to external_id t.external_id then record t { slug = slug; name = name } else t

abbrev pub is_mirrored : String → List Tenant → Bool
is_mirrored external_id tenants = any (λ (t : Tenant). is_set_to external_id t.external_id) tenants

unfoldable pub upsert_tenant :
    String → String → String → String → List Tenant → Option (List Tenant)
upsert_tenant external_id slug name id tenants =
    if is_held slug external_id tenants
    then none
    else some (
        if is_mirrored external_id tenants
        then map (rename external_id slug name) tenants
        else tenants
          ++ record {
            id = id;
            slug = slug;
            name = name;
            external_id = some external_id;
            deleted_at = none;
          }
            ∷ [])

abbrev pub with_tenants : Directory → Option (List Tenant) → Option Directory
with_tenants d none = none
with_tenants d (some tenants) = some (record d { tenants = tenants })

abbrev pub is_candidate : String → String → User → Bool
is_candidate external_id email u = is_set_to external_id u.external_id || str_eq u.email email

module _ (host : Host) where
  unfoldable pub available_slug : String → String → List Tenant → String
  available_slug preferred external_id tenants =
      first_free (slug_candidates preferred) (fallback host preferred external_id) external_id
        tenants

  unfoldable pub sync_clerk_organization :
      String → String → Option String → String → Directory → Option Directory
  unfolding available_slug
  sync_clerk_organization external_id name slug id d = with_tenants d (
      upsert_tenant external_id
        (available_slug (tenant_slug_for host external_id slug) external_id d.tenants) name id
        d.tenants)

  -- Ascending by the external id, with the rows that have none last.
  abbrev pub precedes : Option String → Option String → Bool
  precedes none other = false
  precedes (some a) none = true
  precedes (some a) (some b) = host.before a b

  abbrev pub earlier : User → Option User → User
  earlier u none = u
  earlier u (some v) = if precedes v.external_id u.external_id then v else u

  abbrev pub first_of : List User → Option User
  first_of [] = none
  first_of (u ∷ users) = some (earlier u (first_of users))

  -- The row of the user, and the directory with it; an update that takes an external id or an address
  -- of another row throws.
  unfoldable pub sync_clerk_user :
      String → String → String → Directory → Option (Directory × String)
  sync_clerk_user external_id email id d =
      elim (first_of (filter (is_candidate external_id email) d.users)) [
        | none ↦ some (
          record d {
            users =
                d.users ++ record { id = id; email = email; external_id = some external_id } ∷ [];
          },
          id,
        )
        | some existing ↦
            if any (λ (u : User). is_candidate external_id email u && not (str_eq u.id existing.id))
              d.users
            then none
            else some (
              record d {
                users =
                    map
                      (λ (u : User).
                        if str_eq u.id existing.id
                        then record u { email = email; external_id = some external_id }
                        else u)
                      d.users;
              },
              existing.id,
            )
      ]

-- What a membership event carries.
pub record MembershipEvent : Type 0 where
  pub organization_external_id : String
  pub organization_name : String
  pub organization_slug : Option String
  pub user_external_id : String
  pub user_email : Option String
  pub role : MemberRole

abbrev pub email_of : MembershipEvent → String
email_of event = or_else event.user_email (Text.◌++◌ event.user_external_id "@users.noreply.clerk")

-- The upsert of the membership, once both rows are there. The three upserts are no transaction: where one
-- throws, which is `false`, what the earlier ones wrote stays.
abbrev pub upsert_membership :
    MembershipEvent → Directory → Option (Directory × String) → Directory × Bool
upsert_membership event d none = (d, false)
upsert_membership event d (some (d', user_id)) =
    elim (find? (λ (t : Tenant). is_set_to event.organization_external_id t.external_id)
      d'.tenants) [
        | none ↦ (d', false)
        | some tenant ↦ (ensure_membership tenant.id user_id (some event.role) d', true)
      ]

module _ (host : Host) where
  abbrev pub sync_member :
      MembershipEvent → String → Directory → Option Directory → Directory × Bool
  sync_member event user_row d none = (d, false)
  sync_member event user_row d (some d') =
      upsert_membership event d'
        (sync_clerk_user host event.user_external_id (email_of event) user_row d')

  unfoldable pub sync_clerk_membership :
      MembershipEvent → String → String → Directory → Directory × Bool
  sync_clerk_membership event tenant_row user_row d = sync_member event user_row d (
      sync_clerk_organization host event.organization_external_id event.organization_name
        event.organization_slug tenant_row d)
