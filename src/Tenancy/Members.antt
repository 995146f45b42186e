-- ===== src/Tenancy/Members.antt =====
-- What an event about a membership leaves.
use self_consistency_answer.Common.{
  ◌≡◌, refl, ap, subst, inl, inr, true, false, Bool, ◌&&◌, Option, none, some, String, List, [],
  ◌∷◌, ◌++◌, arith, map, any, find?, str_eq, eq_refl, if◌then◌else◌, Bool-cases, Option-cases,
}
use self_consistency_answer.Tenancy.{
  MemberRole, Tenant, User, Membership, Directory, is_set_to, is_membership, with_role,
  ensure_membership, get_membership,
}
use self_consistency_answer.Tenancy.Mirror.{
  Host, sync_clerk_user, sync_clerk_organization, MembershipEvent, email_of, upsert_membership,
  sync_member, sync_clerk_membership,
}
use self_consistency_answer.Tenancy.Users.{synced_user}

find-with_role :
    (tenant_id user_id : String) (role : MemberRole) (memberships : List Membership)
    → any (is_membership tenant_id user_id) memberships ≡ true
    → (m : Membership) × (find? (is_membership tenant_id user_id) (
          map
            (λ n. if is_membership tenant_id user_id n then with_role (some role) n else n)
            memberships)
        ≡ some m)
      × (m.role ≡ role)
find-with_role tenant_id user_id role [] there = absurd cc
find-with_role tenant_id user_id role (m ∷ memberships) there =
    elim (Bool-cases (is_membership tenant_id user_id m)) [
      | inl here ↦ (record m { role = role }, rw (here, here) refl, refl)
      | inr other ↦
          let (n, found, is) =
            find-with_role tenant_id user_id role memberships (rw other at there) in
          (n, rw (other, other) found, is)
    ]

find-append :
    (tenant_id user_id : String) (role : MemberRole) (memberships : List Membership)
    → any (is_membership tenant_id user_id) memberships ≡ false
    → find?
        (is_membership tenant_id user_id)
        (memberships ++ record { tenant_id = tenant_id; user_id = user_id; role = role } ∷ [])
      ≡ some (record { tenant_id = tenant_id; user_id = user_id; role = role })
find-append tenant_id user_id role [] absent = rw (eq_refl tenant_id, eq_refl user_id) refl
find-append tenant_id user_id role (m ∷ memberships) absent =
    let other : is_membership tenant_id user_id m ≡ false = ground (arith, absent) in
    rw other (find-append tenant_id user_id role memberships (ground (arith, absent)))

get-ensure_membership :
    (tenant_id user_id : String) (role : MemberRole) (d : Directory)
    → get_membership tenant_id user_id (ensure_membership tenant_id user_id (some role) d)
      ≡ some role
unfolding get_membership ensure_membership
get-ensure_membership tenant_id user_id role d =
    elim (Bool-cases (any (is_membership tenant_id user_id) d.memberships)) [
      | inl there ↦
          let (m, found, is) = find-with_role tenant_id user_id role d.memberships there in
          rw (get_membership, ensure_membership, there, found) (ap some is)
      | inr absent ↦
          rw
            (
              get_membership,
              ensure_membership,
              absent,
              find-append tenant_id user_id role d.memberships absent,
            )
            refl
    ]

-- What an event about a membership leaves.
abbrev pub IsJoined : MembershipEvent → Directory → Type 0
IsJoined event after =
    (tenant : Tenant) × (user_id : String) × (find?
        (λ (t : Tenant). is_set_to event.organization_external_id t.external_id) after.tenants
      ≡ some tenant)
    × (any (λ (u : User). str_eq u.id user_id && is_set_to event.user_external_id u.external_id)
          after.users
        ≡ true)
    × (get_membership tenant.id user_id after ≡ some event.role)

-- A result that is no exception has this directory.
of_done : {d after : Directory} → ◌≡◌ {A = Directory × Bool} (d, true) (after, true) → d ≡ after
of_done h = ap (λ (r : Directory × Bool). r.0) h

never_done : {d after : Directory} → ◌≡◌ {A = Directory × Bool} (d, false) (after, true) → ⊥
never_done h = let never : false ≡ true = ap (λ (r : Directory × Bool). r.1) h in cc

upsert_membership-IsJoined :
    (event : MembershipEvent) (before d after : Directory) (user_id : String)
    → any
        (λ (u : User). str_eq u.id user_id && is_set_to event.user_external_id u.external_id)
        d.users
      ≡ true
    → upsert_membership event before (some (d, user_id)) ≡ (after, true)
    → IsJoined event after
unfolding ensure_membership
upsert_membership-IsJoined event before d after user_id there h =
    elim (Option-cases
      (find? (λ (t : Tenant). is_set_to event.organization_external_id t.external_id) d.tenants)) [
        | inl absent ↦ absurd (never_done (rw (upsert_membership, absent) at h))
        | inr (tenant, found) ↦
            subst (IsJoined event) (of_done (rw (upsert_membership, found) at h))
              (tenant, user_id, found, there, get-ensure_membership tenant.id user_id event.role d)
      ]

sync_member-IsJoined :
    (host : Host) (event : MembershipEvent) (user_row : String) (before : Directory)
    (d : Option Directory) (after : Directory)
    → sync_member host event user_row before d ≡ (after, true)
    → IsJoined event after
sync_member-IsJoined host event user_row before none after h = absurd (never_done h)
sync_member-IsJoined host event user_row before (some d) after h =
    elim (Option-cases (sync_clerk_user host event.user_external_id (email_of event) user_row d)) [
      | inl thrown ↦ absurd (never_done (rw (sync_member, thrown) at h))
      | inr ((between, user_id), synced) ↦
          upsert_membership-IsJoined event d between after user_id
            (synced_user host event.user_external_id (email_of event) user_row d between user_id
              synced)
            (rw (sync_member, synced) at h)
    ]

-- An event about a membership that is not refused by a unique index leaves the organization's tenant, a
-- row of the user, made or adopted, and a membership of this user in this tenant with the role of the
-- event, even if it comes before the events about the organization and the user.
pub sync_clerk_membership-IsJoined :
    (host : Host) (event : MembershipEvent) (tenant_row user_row : String) (d after : Directory)
    → sync_clerk_membership host event tenant_row user_row d ≡ (after, true)
    → IsJoined event after
unfolding sync_clerk_membership
sync_clerk_membership-IsJoined host event tenant_row user_row d after h =
    sync_member-IsJoined host event user_row d
      (sync_clerk_organization host event.organization_external_id event.organization_name
        event.organization_slug tenant_row d)
      after h
