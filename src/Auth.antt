-- ===== src/Auth.antt =====
-- packages/shared/src/auth.ts: scopes, permissions, and the one decision on who may do what. Text is the
-- list of its UTF-16 code units.
pub mod Policy
pub mod Scopes
mod Tests
use self_consistency_answer.Common.{
  ℕ, Bool, true, false, not, ◌&&◌, ◌||◌, Option, none, some, String, List, [], ◌∷◌, ◌++◌, map, any,
  find?, is_some, str_eq, if◌then◌else◌, ◌==◌,
}
use self_consistency_answer.Sse.{Text, is_white}
use self_consistency_answer.Tenancy.{MemberRole, owner, admin, member, viewer, is_set_to}

pub data Scope : Type 0 where
  reads_runs writes_runs reads_usage reads_keys writes_keys reads_members writes_members
        reads_audit :
      Scope

abbrev pub all_scopes : List Scope
all_scopes =
    reads_runs ∷ writes_runs ∷ reads_usage ∷ reads_keys ∷ writes_keys ∷ reads_members
    ∷ writes_members ∷ reads_audit ∷ []

abbrev pub default_scopes : List Scope
default_scopes = reads_runs ∷ writes_runs ∷ reads_usage ∷ []

-- The code units of "runs:read", "runs:write" and so on.
unfoldable pub scope_name : Scope → Text
scope_name reads_runs = 114 ∷ 117 ∷ 110 ∷ 115 ∷ 58 ∷ 114 ∷ 101 ∷ 97 ∷ 100 ∷ []
scope_name writes_runs = 114 ∷ 117 ∷ 110 ∷ 115 ∷ 58 ∷ 119 ∷ 114 ∷ 105 ∷ 116 ∷ 101 ∷ []
scope_name reads_usage = 117 ∷ 115 ∷ 97 ∷ 103 ∷ 101 ∷ 58 ∷ 114 ∷ 101 ∷ 97 ∷ 100 ∷ []
scope_name reads_keys = 107 ∷ 101 ∷ 121 ∷ 115 ∷ 58 ∷ 114 ∷ 101 ∷ 97 ∷ 100 ∷ []
scope_name writes_keys = 107 ∷ 101 ∷ 121 ∷ 115 ∷ 58 ∷ 119 ∷ 114 ∷ 105 ∷ 116 ∷ 101 ∷ []
scope_name reads_members = 109 ∷ 101 ∷ 109 ∷ 98 ∷ 101 ∷ 114 ∷ 115 ∷ 58 ∷ 114 ∷ 101 ∷ 97 ∷ 100 ∷ []
scope_name writes_members =
    109 ∷ 101 ∷ 109 ∷ 98 ∷ 101 ∷ 114 ∷ 115 ∷ 58 ∷ 119 ∷ 114 ∷ 105 ∷ 116 ∷ 101 ∷ []
scope_name reads_audit = 97 ∷ 117 ∷ 100 ∷ 105 ∷ 116 ∷ 58 ∷ 114 ∷ 101 ∷ 97 ∷ 100 ∷ []

abbrev pub text_eq : Text → Text → Bool
text_eq [] [] = true
text_eq [] (d ∷ t) = false
text_eq (c ∷ s) [] = false
text_eq (c ∷ s) (d ∷ t) = c == d && text_eq s t

-- `scopeSchema.safeParse`.
unfoldable pub parse_scope : Text → Option Scope
unfolding scope_name
parse_scope text = find? (λ scope. text_eq (scope_name scope) text) all_scopes

abbrev pub scope_index : Scope → ℕ
scope_index reads_runs = 0
scope_index writes_runs = 1
scope_index reads_usage = 2
scope_index reads_keys = 3
scope_index writes_keys = 4
scope_index reads_members = 5
scope_index writes_members = 6
scope_index reads_audit = 7

abbrev pub scope_eq : Scope → Scope → Bool
scope_eq a b = scope_index a == scope_index b

abbrev pub starts_white : Text → Bool
starts_white [] = false
starts_white (c ∷ text) = is_white c

abbrev pub onto_first : ℕ → List Text → List Text
onto_first c [] = (c ∷ []) ∷ []
onto_first c (piece ∷ pieces) = (c ∷ piece) ∷ pieces

-- `raw.split(/\s+/)`.
unfoldable pub split_white : Text → List Text
split_white [] = [] ∷ []
split_white (c ∷ text) =
    let rest = split_white text in
    if is_white c then (if starts_white text then rest else [] ∷ rest) else onto_first c rest

-- `seen.add(scope)`.
abbrev pub add_scope : Scope → List Scope → List Scope
add_scope scope seen = if any (scope_eq scope) seen then seen else seen ++ scope ∷ []

abbrev pub collect_scopes : List Scope → List Text → List Scope
collect_scopes seen [] = seen
collect_scopes seen (piece ∷ pieces) = elim (parse_scope piece) [
  | none ↦ collect_scopes seen pieces
  | some scope ↦ collect_scopes (add_scope scope seen) pieces
]

unfoldable pub parse_scope_list : Text → List Scope
unfolding split_white
parse_scope_list raw = collect_scopes [] (split_white raw)

abbrev pub join_scopes : Scope → List Scope → Text
join_scopes scope [] = scope_name scope
join_scopes scope (next ∷ scopes) = scope_name scope ++ 32 ∷ join_scopes next scopes

unfoldable pub format_scope_list : List Scope → Text
format_scope_list [] = []
format_scope_list (scope ∷ scopes) = join_scopes scope scopes

-- `storedScopesSchema`.
unfoldable pub stored_scopes : List Text → List Scope
unfolding parse_scope
stored_scopes [] = []
stored_scopes (value ∷ values) =
    let rest = stored_scopes values in
    elim (parse_scope value) [ none ↦ rest | some scope ↦ scope ∷ rest ]

pub data Permission : Type 0 where
  run_create run_read run_cancel run_delete usage_read key_create key_read key_revoke member_read
        member_manage tenant_manage audit_read :
      Permission

abbrev pub permissions : List Permission
permissions =
    run_create ∷ run_read ∷ run_cancel ∷ run_delete ∷ usage_read ∷ key_create ∷ key_read
    ∷ key_revoke ∷ member_read ∷ member_manage ∷ tenant_manage ∷ audit_read ∷ []

abbrev pub permission_index : Permission → ℕ
permission_index run_create = 0
permission_index run_read = 1
permission_index run_cancel = 2
permission_index run_delete = 3
permission_index usage_read = 4
permission_index key_create = 5
permission_index key_read = 6
permission_index key_revoke = 7
permission_index member_read = 8
permission_index member_manage = 9
permission_index tenant_manage = 10
permission_index audit_read = 11

-- `permissions.includes(permission)`.
abbrev pub includes : List Permission → Permission → Bool
includes list permission = any (λ p. permission_index p == permission_index permission) list

unfoldable pub permissions_for_role : MemberRole → List Permission
permissions_for_role owner = permissions
permissions_for_role admin =
    run_create ∷ run_read ∷ run_cancel ∷ run_delete ∷ usage_read ∷ key_create ∷ key_read
    ∷ key_revoke ∷ member_read ∷ member_manage ∷ audit_read ∷ []
permissions_for_role member =
    run_create ∷ run_read ∷ run_cancel ∷ run_delete ∷ usage_read ∷ member_read ∷ []
permissions_for_role viewer = run_read ∷ usage_read ∷ member_read ∷ []

unfoldable pub permissions_for_scope : Scope → List Permission
permissions_for_scope reads_runs = run_read ∷ []
permissions_for_scope writes_runs = run_create ∷ run_cancel ∷ run_delete ∷ []
permissions_for_scope reads_usage = usage_read ∷ []
permissions_for_scope reads_keys = key_read ∷ []
permissions_for_scope writes_keys = key_create ∷ key_revoke ∷ []
permissions_for_scope reads_members = member_read ∷ []
permissions_for_scope writes_members = member_manage ∷ tenant_manage ∷ []
permissions_for_scope reads_audit = audit_read ∷ []

pub data CredentialKind : Type 0 where
  session oauth api_key : CredentialKind

pub record Actor : Type 0 where
  pub credential : CredentialKind
  pub tenant_id : String
  pub user_id : Option String
  pub role : MemberRole
  pub scopes : List Scope
  pub credential_id : Option String

pub record Resource : Type 0 where
  pub tenant_id : String
  pub created_by_user_id : Option String

pub data DenialReason : Type 0 where
  cross_tenant lacks_role lacks_scope not_owner : DenialReason

pub data Decision : Type 0 where
  allowed : Decision
  denied : DenialReason → Decision

abbrev pub owner_only_for_members : List Permission
owner_only_for_members = run_delete ∷ run_cancel ∷ []

abbrev pub is_elsewhere : Actor → Option Resource → Bool
is_elsewhere actor none = false
is_elsewhere actor (some resource) = not (str_eq resource.tenant_id actor.tenant_id)

abbrev pub is_low : MemberRole → Bool
is_low owner = false
is_low admin = false
is_low member = true
is_low viewer = true

-- Something that has an owner, who is another.
abbrev pub is_others : Option String → Option Resource → Bool
is_others user_id none = false
is_others user_id (some resource) = elim resource.created_by_user_id [
  | none ↦ false
  | some creator ↦ not (is_set_to creator user_id)
]

abbrev pub is_granted : List Scope → Permission → Bool
is_granted scopes permission =
    any (λ scope. includes (permissions_for_scope scope) permission) scopes

unfoldable pub can : Actor → Permission → Option Resource → Decision
unfolding permissions_for_role permissions_for_scope
can actor permission resource =
    if is_elsewhere actor resource
    then denied cross_tenant
    else if not (includes (permissions_for_role actor.role) permission)
    then denied lacks_role
    else if not (is_granted actor.scopes permission)
    then denied lacks_scope
    else if includes owner_only_for_members permission
        && is_low actor.role
        && is_others actor.user_id resource
    then denied not_owner
    else allowed

unfoldable pub allows : Actor → Permission → Option Resource → Bool
unfolding can
allows actor permission resource = elim (can actor permission resource) [
  | allowed ↦ true
  | denied reason ↦ false
]
