-- ===== src/Auth/Policy.antt =====
-- What the decision on a permission guarantees.
use self_consistency_answer.Common.{
  ℕ, ◌≡◌, refl, sym, ap, subst, ◌∙◌, inl, inr, Bool, true, false, not, ◌&&◌, ◌||◌, Option, none,
  some, List, [], ◌∷◌, arith, any, all, head?, drop, or_else, str_eq, if◌then◌else◌, Bool-cases,
}
use self_consistency_answer.Tenancy.{MemberRole, owner, admin, member, viewer}
use self_consistency_answer.Auth.{
  Scope, reads_runs, writes_runs, reads_usage, reads_keys, writes_keys, reads_members,
  writes_members, reads_audit, all_scopes, scope_index, scope_eq, Permission, permissions,
  run_create, run_read, run_cancel, run_delete, usage_read, key_create, key_read, key_revoke,
  member_read, member_manage, tenant_manage, audit_read, Decision, allowed, denied, cross_tenant,
  lacks_role, lacks_scope, not_owner, includes, permissions_for_role, permissions_for_scope, Actor,
  Resource, owner_only_for_members, is_elsewhere, is_low, is_others, is_granted, can, allows,
}

-- The order of the roles: a viewer, a member, an admin, an owner.
abbrev pub is_at_most : MemberRole → MemberRole → Bool
is_at_most viewer r = true
is_at_most member viewer = false
is_at_most member r = true
is_at_most admin admin = true
is_at_most admin owner = true
is_at_most admin r = false
is_at_most owner owner = true
is_at_most owner r = false

abbrev pub is_within : List Scope → List Scope → Bool
is_within few many = all (λ scope. any (scope_eq scope) many) few

pub everywhere :
    (P : Permission → Bool) (permission : Permission)
    → all P permissions ≡ true
    → P permission ≡ true
everywhere P run_create h = ground (arith, h)
everywhere P run_read h = ground (arith, h)
everywhere P run_cancel h = ground (arith, h)
everywhere P run_delete h = ground (arith, h)
everywhere P usage_read h = ground (arith, h)
everywhere P key_create h = ground (arith, h)
everywhere P key_read h = ground (arith, h)
everywhere P key_revoke h = ground (arith, h)
everywhere P member_read h = ground (arith, h)
everywhere P member_manage h = ground (arith, h)
everywhere P tenant_manage h = ground (arith, h)
everywhere P audit_read h = ground (arith, h)

abbrev decide : Bool → Bool → Bool → Bool → Decision
decide elsewhere by_role by_scope others =
    if elsewhere
    then denied cross_tenant
    else if not by_role
    then denied lacks_role
    else if not by_scope
    then denied lacks_scope
    else if others
    then denied not_owner
    else allowed

decides :
    (elsewhere by_role by_scope others : Bool)
    → (elim (decide elsewhere by_role by_scope others) as (λ x. Bool) [
      | allowed ↦ true
      | denied reason ↦ false
    ])
      ≡ (not elsewhere && (by_role && (by_scope && not others)))
decides true r s o = refl
decides false false s o = refl
decides false true false o = refl
decides false true true true = refl
decides false true true false = refl

pub allows_iff :
    (actor : Actor) (permission : Permission) (resource : Option Resource)
    → allows actor permission resource ≡ (
        not (is_elsewhere actor resource)
        && (includes (permissions_for_role actor.role) permission
            && (is_granted actor.scopes permission
                && not (
                    includes owner_only_for_members permission
                    && is_low actor.role
                    && is_others actor.user_id resource))))
unfolding allows can
allows_iff actor permission resource =
    decides (is_elsewhere actor resource) (includes (permissions_for_role actor.role) permission)
      (is_granted actor.scopes permission)
      (includes owner_only_for_members permission
        && is_low actor.role
        && is_others actor.user_id resource)

abbrev grants_no_less : MemberRole → MemberRole → Permission → Bool
grants_no_less few many permission =
    not (includes (permissions_for_role few) permission)
    || includes (permissions_for_role many) permission

grants_no_less-all :
    (few many : MemberRole)
    → is_at_most few many ≡ true
    → all (grants_no_less few many) permissions ≡ true
unfolding permissions_for_role
grants_no_less-all viewer viewer h = refl
grants_no_less-all viewer member h = refl
grants_no_less-all viewer admin h = refl
grants_no_less-all viewer owner h = refl
grants_no_less-all member viewer h = absurd cc
grants_no_less-all member member h = refl
grants_no_less-all member admin h = refl
grants_no_less-all member owner h = refl
grants_no_less-all admin viewer h = absurd cc
grants_no_less-all admin member h = absurd cc
grants_no_less-all admin admin h = refl
grants_no_less-all admin owner h = refl
grants_no_less-all owner viewer h = absurd cc
grants_no_less-all owner member h = absurd cc
grants_no_less-all owner admin h = absurd cc
grants_no_less-all owner owner h = refl

role_grants_more :
    (few many : MemberRole) (permission : Permission)
    → is_at_most few many ≡ true
    → includes (permissions_for_role few) permission ≡ true
    → includes (permissions_for_role many) permission ≡ true
role_grants_more few many permission h few_grants =
    let more = everywhere (grants_no_less few many) permission (grants_no_less-all few many h) in
    elim (Bool-cases (includes (permissions_for_role many) permission)) [
      | inl grants ↦ grants
      | inr refuses ↦ absurd ground (arith, more, few_grants, refuses)
    ]

abbrev nth_scope : ℕ → Scope
nth_scope n = or_else (head? (drop n all_scopes)) reads_runs

nth-index : (scope : Scope) → nth_scope (scope_index scope) ≡ scope
nth-index reads_runs = refl
nth-index writes_runs = refl
nth-index reads_usage = refl
nth-index reads_keys = refl
nth-index writes_keys = refl
nth-index reads_members = refl
nth-index writes_members = refl
nth-index reads_audit = refl

pub scope_eq_same : (a b : Scope) → scope_eq a b ≡ true → a ≡ b
scope_eq_same a b h =
    let same : scope_index a ≡ scope_index b = ground (arith, h) in
    sym (nth-index a) ∙ ap nth_scope same ∙ nth-index b

any_of_one :
    (P : Scope → Bool) (scope : Scope) (many : List Scope)
    → any (scope_eq scope) many ≡ true
    → P scope ≡ true
    → any P many ≡ true
any_of_one P scope [] here holds = absurd cc
any_of_one P scope (s ∷ many) here holds = elim (Bool-cases (scope_eq scope s)) [
  | inl same ↦
      let first : P s ≡ true = subst (λ t. P t ≡ true) (scope_eq_same scope s same) holds in
      rw first refl
  | inr other ↦ let rest = any_of_one P scope many (rw other at here) holds in ground (arith, rest)
]

pub any_of_more :
    (P : Scope → Bool) (few many : List Scope)
    → is_within few many ≡ true
    → any P few ≡ true
    → any P many ≡ true
any_of_more P [] many within holds = absurd cc
any_of_more P (s ∷ few) many within holds = elim (Bool-cases (P s)) [
  | inl first ↦ any_of_one P s many (ground (arith, within)) first
  | inr other ↦ any_of_more P few many (ground (arith, within)) (rw other at holds)
]

low_stays :
    (few many : MemberRole) → is_at_most few many ≡ true → is_low many ≡ true → is_low few ≡ true
low_stays viewer many h low = refl
low_stays member many h low = refl
low_stays admin owner h low = absurd cc
low_stays admin admin h low = absurd cc
low_stays admin member h low = absurd cc
low_stays admin viewer h low = absurd cc
low_stays owner owner h low = absurd cc
low_stays owner admin h low = absurd cc
low_stays owner member h low = absurd cc
low_stays owner viewer h low = absurd cc

elsewhere_same :
    (few many : Actor) (resource : Option Resource)
    → few.tenant_id ≡ many.tenant_id
    → is_elsewhere few resource ≡ is_elsewhere many resource
elsewhere_same few many none same = refl
elsewhere_same few many (some resource) same = ap (λ t. not (str_eq resource.tenant_id t)) same

decide_more :
    (elsewhere by_role by_role' by_scope by_scope' guarded low low' others : Bool)
    → (by_role ≡ true → by_role' ≡ true)
    → (by_scope ≡ true → by_scope' ≡ true)
    → (low' ≡ true → low ≡ true)
    → (not elsewhere && (by_role && (by_scope && not (guarded && low && others)))) ≡ true
    → (not elsewhere && (by_role' && (by_scope' && not (guarded && low' && others)))) ≡ true
decide_more elsewhere by_role by_role' by_scope by_scope' guarded low low' others r s l may =
    let has_role = r (ground (arith, may)) in
    let has_scope = s (ground (arith, may)) in
    elim (Bool-cases low') [
      | inl is_low ↦ let was = l is_low in ground (arith, may, has_role, has_scope, is_low, was)
      | inr high ↦ ground (arith, may, has_role, has_scope, high)
    ]

-- An actor with a role that is no lower and with all the scopes of another actor, of the same tenant and
-- the same user, may do everything that the other may: a wider scope or a higher role takes nothing
-- away, so narrowing a credential or demoting its owner can only refuse more.
pub rights_grow :
    (few many : Actor)
    → few.tenant_id ≡ many.tenant_id
    → few.user_id ≡ many.user_id
    → is_at_most few.role many.role ≡ true
    → is_within few.scopes many.scopes ≡ true
    → (permission : Permission) (resource : Option Resource) → allows few permission resource ≡ true
    → allows many permission resource ≡ true
rights_grow few many same_tenant same_user lower within permission resource may =
    allows_iff many permission resource
    ∙ decide_more (is_elsewhere many resource) (includes (permissions_for_role few.role) permission)
        (includes (permissions_for_role many.role) permission) (is_granted few.scopes permission)
        (is_granted many.scopes permission) (includes owner_only_for_members permission)
        (is_low few.role) (is_low many.role) (is_others many.user_id resource)
        (role_grants_more few.role many.role permission lower)
        (any_of_more (λ scope. includes (permissions_for_scope scope) permission) few.scopes
          many.scopes within)
        (low_stays few.role many.role lower)
        (rw (sym (elsewhere_same few many resource same_tenant), sym same_user)
          (sym (allows_iff few permission resource) ∙ may))
