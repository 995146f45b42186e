-- ===== src/Tenancy/Acting.antt =====
-- Which tenant a request acts inside.
use self_consistency_answer.Common.{
  ◌≡◌, refl, sym, ap, subst, ◌∙◌, inl, inr, Bool, true, false, not, ◌&&◌, ◌||◌, Option, none, some,
  String, List, [], ◌∷◌, arith, any, is_some, or_else, str_eq, eq_iff, eq_refl, Bool-cases,
  Option-cases,
}
use self_consistency_answer.Tenancy.{
  Tenant, Membership, Directory, ResolvedMembership, Named, by_identifier, is_set_to, tenant_by_id,
  named_by, is_match, first_serving, resolve_membership, tenant_matches,
}

-- A membership that may serve a request.
abbrev pub serves : String → Named → List Tenant → Membership → Bool
serves user_id named tenants m = elim (tenant_by_id m.tenant_id tenants) [
  | none ↦ false
  | some t ↦ str_eq m.user_id user_id && (not (is_some t.deleted_at) && is_match named t)
]

pub record IsServed (user_id : String) (named : Named) (d : Directory) (r : ResolvedMembership)
    : Type 0 where
  pub matches : is_match named r.tenant ≡ true
  pub alive : is_some r.tenant.deleted_at ≡ false
  pub known : tenant_by_id r.tenant.id d.tenants ≡ some r.tenant
  pub belongs :
      any
        (λ (m : Membership). str_eq m.tenant_id r.tenant.id && str_eq m.user_id user_id)
        d.memberships
      ≡ true

tenant_by_id-id :
    (id : String) (tenants : List Tenant) (t : Tenant)
    → tenant_by_id id tenants ≡ some t
    → t.id ≡ id
tenant_by_id-id id [] t h = cc
tenant_by_id-id id (x ∷ tenants) t h = elim (Bool-cases (str_eq x.id id)) [
  | inl here ↦
      let same : some x ≡ some t = rw here at h in
      let same_id : x.id ≡ id = ground (arith, here, eq_iff x.id id) in
      ap (λ (o : Option Tenant). elim o [ none ↦ id | some y ↦ y.id ]) (sym same) ∙ same_id
  | inr other ↦ tenant_by_id-id id tenants t (rw other at h)
]

here-IsServed :
    (user_id : String) (named : Named) (d : Directory) (m : Membership)
    (memberships : List Membership) (t : Tenant) (r : ResolvedMembership)
    → tenant_by_id m.tenant_id d.tenants ≡ some t
    → (str_eq m.user_id user_id && (not (is_some t.deleted_at) && is_match named t)) ≡ true
    → some (record { tenant = t; role = m.role }) ≡ some r
    → IsServed user_id named (record d { memberships = m ∷ memberships }) r
here-IsServed user_id named d m memberships t r found served same =
    let start : IsServed user_id named (record d { memberships = m ∷ memberships })
        (record { tenant = t; role = m.role }) =
      record {
        matches = ground (arith, served);
        alive = ground (arith, served);
        known =
            subst (λ id. tenant_by_id id d.tenants ≡ some t)
              (sym (tenant_by_id-id m.tenant_id d.tenants t found)) found;
        belongs =
            let own : str_eq m.user_id user_id ≡ true = ground (arith, served) in
            let here : str_eq m.tenant_id t.id ≡ true =
              subst (λ id. str_eq m.tenant_id id ≡ true)
                (sym (tenant_by_id-id m.tenant_id d.tenants t found)) (eq_refl m.tenant_id) in
            rw (own, here) refl;
      } in
    subst (IsServed user_id named (record d { memberships = m ∷ memberships }))
      (ap (λ (o : Option ResolvedMembership). or_else o r) same) start

first_serving-IsServed :
    (user_id : String) (named : Named) (d : Directory) (memberships : List Membership)
    (r : ResolvedMembership)
    → first_serving user_id named d.tenants memberships ≡ some r
    → IsServed user_id named (record d { memberships = memberships }) r
unfolding first_serving
first_serving-IsServed user_id named d [] r h = cc
first_serving-IsServed user_id named d (m ∷ memberships) r h =
    elim (Option-cases (tenant_by_id m.tenant_id d.tenants)) [
      | inl unknown ↦
          let s =
            first_serving-IsServed user_id named d memberships r
              (rw (first_serving, unknown) at h) in
          record {
            matches = s.matches;
            alive = s.alive;
            known = s.known;
            belongs = ground (arith, s.belongs);
          }
      | inr (t, found) ↦
          elim (Bool-cases
            (str_eq m.user_id user_id && (not (is_some t.deleted_at) && is_match named t))) [
              | inr refused ↦
                  let s =
                    first_serving-IsServed user_id named d memberships r
                      (rw (first_serving, found, refused) at h) in
                  record {
                    matches = s.matches;
                    alive = s.alive;
                    known = s.known;
                    belongs = ground (arith, s.belongs);
                  }
              | inl served ↦
                  let same : some (record { tenant = t; role = m.role }) ≡ some r =
                    rw (first_serving, found, served) at h in
                  here-IsServed user_id named d m memberships t r found served same
            ]
    ]

first_serving_some :
    (user_id : String) (named : Named) (tenants : List Tenant) (memberships : List Membership)
    → is_some (first_serving user_id named tenants memberships)
      ≡ any (serves user_id named tenants) memberships
unfolding first_serving
first_serving_some user_id named tenants [] = refl
first_serving_some user_id named tenants (m ∷ memberships) =
    let rest = first_serving_some user_id named tenants memberships in
    elim (Option-cases (tenant_by_id m.tenant_id tenants)) [
      | inl unknown ↦ rw (first_serving, serves, unknown) rest
      | inr (t, found) ↦
          elim (Bool-cases
            (str_eq m.user_id user_id && (not (is_some t.deleted_at) && is_match named t))) [
              | inl served ↦ rw (first_serving, serves, found, served) refl
              | inr refused ↦ rw (first_serving, serves, found, refused) rest
            ]
    ]

-- A request is served exactly if the user has a membership in a tenant that is not deleted and that is
-- the one named, if one is named; and it then acts inside such a tenant, with the tenant's row as the
-- directory has it.
pub resolves_iff :
    (user_id identifier external_id : String) (d : Directory)
    → let named = named_by identifier external_id in
      let resolved = resolve_membership user_id identifier external_id d in
      (is_some resolved ≡ any (serves user_id named d.tenants) d.memberships)
      × ((r : ResolvedMembership) → resolved ≡ some r → IsServed user_id named d r)
unfolding resolve_membership
resolves_iff user_id identifier external_id d = (
  first_serving_some user_id (named_by identifier external_id) d.tenants d.memberships,
  λ r. first_serving-IsServed user_id (named_by identifier external_id) d d.memberships r,
)

-- A caller that names a tenant by an identifier that is not empty is never served as another: the
-- identifier is the id or the slug of the tenant that it acts inside, whatever organization its
-- session names, and the check of a tenant header accepts that identifier for that tenant.
pub named_tenant_only :
    (user_id identifier external_id : String) (d : Directory) (r : ResolvedMembership)
    → str_eq identifier "" ≡ false
    → resolve_membership user_id identifier external_id d ≡ some r
    → ((str_eq r.tenant.id identifier || str_eq r.tenant.slug identifier) ≡ true)
      × (tenant_matches r.tenant.id identifier d ≡ true)
unfolding resolve_membership tenant_matches
named_tenant_only user_id identifier external_id d r given resolved =
    let named : named_by identifier external_id ≡ by_identifier identifier =
      rw (named_by, given) refl in
    let s =
      first_serving-IsServed user_id (named_by identifier external_id) d d.memberships r resolved in
    let matched : (str_eq r.tenant.id identifier || str_eq r.tenant.slug identifier) ≡ true =
      rw (named, is_match) at s.matches in
    let accepts : (str_eq identifier r.tenant.id
          || (str_eq r.tenant.slug identifier || is_set_to identifier r.tenant.external_id))
        ≡ true =
      ground (arith, matched, eq_iff r.tenant.id identifier, eq_iff identifier r.tenant.id) in
    (matched, simp (tenant_matches, s.known) accepts)
