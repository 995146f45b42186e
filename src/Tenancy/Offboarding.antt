-- ===== src/Tenancy/Offboarding.antt =====
-- A member who leaves keeps neither access nor a working key.
use self_consistency_answer.Common.{
  ℕ, ◌≡◌, refl, sym, subst, inl, inr, Bool, true, false, not, ◌&&◌, ◌||◌, some, String, List, [],
  ◌∷◌, arith, map, filter, any, all, find?, is_some, str_eq, eq_iff, if◌then◌else◌, Bool-cases,
}
use self_consistency_answer.Tenancy.{
  Tenant, User, Membership, Key, Directory, is_set_to, is_membership, revoke, remove_membership,
  remove_clerk_membership, get_membership, resolve_membership, ResolvedMembership,
}
use self_consistency_answer.Tenancy.Acting.{resolves_iff}

-- Whether a user made a key in a tenant.
abbrev pub is_key_of : String → String → Key → Bool
is_key_of tenant_id user_id k =
    str_eq k.tenant_id tenant_id && is_set_to user_id k.created_by_user_id

none_left :
    (tenant_id user_id : String) (memberships : List Membership)
    → any
        (is_membership tenant_id user_id)
        (filter (λ m. not (is_membership tenant_id user_id m)) memberships)
      ≡ false
none_left tenant_id user_id [] = refl
none_left tenant_id user_id (m ∷ memberships) =
    elim (Bool-cases (is_membership tenant_id user_id m)) [
      | inl gone ↦ rw gone (none_left tenant_id user_id memberships)
      | inr stays ↦ rw (stays, stays) (none_left tenant_id user_id memberships)
    ]

others_stay :
    (tenant_id user_id other_tenant other_user : String) (memberships : List Membership)
    → (str_eq tenant_id other_tenant && str_eq user_id other_user) ≡ false
    → find?
        (is_membership other_tenant other_user)
        (filter (λ m. not (is_membership tenant_id user_id m)) memberships)
      ≡ find? (is_membership other_tenant other_user) memberships
others_stay tenant_id user_id other_tenant other_user [] differs = refl
others_stay tenant_id user_id other_tenant other_user (m ∷ memberships) differs = ground (
  arith,
  differs,
  eq_iff m.tenant_id tenant_id,
  eq_iff m.user_id user_id,
  eq_iff m.tenant_id other_tenant,
  eq_iff m.user_id other_user,
  eq_iff tenant_id other_tenant,
  eq_iff user_id other_user,
  others_stay tenant_id user_id other_tenant other_user memberships differs,
)

all_revoked :
    (tenant_id user_id : String) (now : ℕ) (keys : List Key)
    → all
        (λ k. not (is_key_of tenant_id user_id k) || is_some k.revoked_at)
        (map (λ (k : Key). if is_key_of tenant_id user_id k then revoke now k else k) keys)
      ≡ true
all_revoked tenant_id user_id now [] = refl
all_revoked tenant_id user_id now (k ∷ keys) =
    let rest = all_revoked tenant_id user_id now keys in
    elim (Bool-cases (is_key_of tenant_id user_id k)) [
      | inr other ↦ rw (other, other) rest
      | inl own ↦ elim (Bool-cases (is_some k.revoked_at)) [
        | inl revoked ↦ rw (own, revoked, own, revoked) rest
        | inr live ↦ rw (own, live, own) rest
      ]
    ]

others_kept :
    (tenant_id user_id : String) (now : ℕ) (keys : List Key)
    → filter
        (λ k. not (is_key_of tenant_id user_id k))
        (map (λ (k : Key). if is_key_of tenant_id user_id k then revoke now k else k) keys)
      ≡ filter (λ k. not (is_key_of tenant_id user_id k)) keys
others_kept tenant_id user_id now [] = refl
others_kept tenant_id user_id now (k ∷ keys) =
    let rest = others_kept tenant_id user_id now keys in
    elim (Bool-cases (is_key_of tenant_id user_id k)) [
      | inr other ↦ rw (other, other, rest) refl
      | inl own ↦ elim (Bool-cases (is_some k.revoked_at)) [
        | inl revoked ↦ rw (own, revoked, own) rest
        | inr live ↦ rw (own, live, own) rest
      ]
    ]

-- What the removal leaves of a directory.
abbrev IsRemoved : String → String → Directory → Directory → Type 0
IsRemoved tenant_id user_id d after =
    (any (is_membership tenant_id user_id) after.memberships ≡ false)
    × ((identifier external_id : String) (r : ResolvedMembership)
        → resolve_membership user_id identifier external_id after ≡ some r
        → str_eq r.tenant.id tenant_id ≡ false)
    × (all (λ k. not (is_key_of tenant_id user_id k) || is_some k.revoked_at) after.keys ≡ true)
    × (filter (λ k. not (is_key_of tenant_id user_id k)) after.keys
        ≡ filter (λ k. not (is_key_of tenant_id user_id k)) d.keys)
    × (after.tenants ≡ d.tenants)
    × (after.users ≡ d.users)
    × ((other_tenant other_user : String)
        → (str_eq tenant_id other_tenant && str_eq user_id other_user) ≡ false
        → get_membership other_tenant other_user after ≡ get_membership other_tenant other_user d)

not_served :
    (tenant_id user_id : String) (memberships : List Membership) (id : String)
    → any (is_membership tenant_id user_id) memberships ≡ false
    → any (λ (m : Membership). str_eq m.tenant_id id && str_eq m.user_id user_id) memberships ≡ true
    → str_eq id tenant_id ≡ false
not_served tenant_id user_id memberships id left belongs = elim (Bool-cases (str_eq id tenant_id)) [
  | inr differs ↦ differs
  | inl same ↦
      let same_id : id ≡ tenant_id = ground (arith, same, eq_iff id tenant_id) in
      let again : any (is_membership tenant_id user_id) memberships ≡ true =
        rw same_id at belongs in
      absurd cc
]

remove_membership-IsRemoved :
    (tenant_id user_id : String) (now : ℕ) (d : Directory)
    → IsRemoved tenant_id user_id d (remove_membership tenant_id user_id now d)
unfolding remove_membership get_membership
remove_membership-IsRemoved tenant_id user_id now d =
    let after = remove_membership tenant_id user_id now d in
    let left = none_left tenant_id user_id d.memberships in
    (
      left,
      λ identifier external_id r resolved.
          let s = (resolves_iff user_id identifier external_id after).1 r resolved in
          not_served tenant_id user_id after.memberships r.tenant.id left s.belongs,
      all_revoked tenant_id user_id now d.keys,
      others_kept tenant_id user_id now d.keys,
      refl,
      refl,
      λ other_tenant other_user differs.
          let same = others_stay tenant_id user_id other_tenant other_user d.memberships differs in
          rw (get_membership, same) refl,
    )

-- When the identity provider reports that a member has left an organization, and both are known:
-- the user has no membership in the tenant, no request of the user acts inside it, and every key
-- that the user made there is revoked. Every other membership and every other key stays as it was,
-- the user's in other tenants and those of others in this one, and so do all tenants and users.
pub leaving_ends_access :
    (organization user : String) (now : ℕ) (d : Directory) (tenant : Tenant) (u : User)
    → find? (λ (t : Tenant). is_set_to organization t.external_id) d.tenants ≡ some tenant
    → find? (λ (v : User). is_set_to user v.external_id) d.users ≡ some u
    → let after = remove_clerk_membership organization user now d in
      (any (is_membership tenant.id u.id) after.memberships ≡ false)
      × ((identifier external_id : String) (r : ResolvedMembership)
          → resolve_membership u.id identifier external_id after ≡ some r
          → str_eq r.tenant.id tenant.id ≡ false)
      × (all (λ k. not (is_key_of tenant.id u.id k) || is_some k.revoked_at) after.keys ≡ true)
      × (filter (λ k. not (is_key_of tenant.id u.id k)) after.keys
          ≡ filter (λ k. not (is_key_of tenant.id u.id k)) d.keys)
      × (after.tenants ≡ d.tenants)
      × (after.users ≡ d.users)
      × ((other_tenant other_user : String)
          → (str_eq tenant.id other_tenant && str_eq u.id other_user) ≡ false
          → get_membership other_tenant other_user after ≡ get_membership other_tenant other_user d)
unfolding get_membership remove_clerk_membership
leaving_ends_access organization user now d tenant u is_tenant is_user =
    let left = remove_membership tenant.id u.id now d in
    let same : remove_clerk_membership organization user now d ≡ left =
      rw (remove_clerk_membership, is_tenant, is_user) refl in
    subst (IsRemoved tenant.id u.id d) (sym same) (remove_membership-IsRemoved tenant.id u.id now d)
