-- ===== src/Auth/Tests.antt =====
-- A member and an owner of one tenant, and a list of scopes with a repeat.
use self_consistency_answer.Common.{◌≡◌, refl, true, none, some, [], ◌∷◌}
use self_consistency_answer.Tenancy.{owner, member}
use self_consistency_answer.Auth.{
  reads_runs, writes_runs, run_delete, session, Actor, Resource, all_scopes, allows,
  parse_scope_list, format_scope_list, can, denied, not_owner, cross_tenant,
}
use self_consistency_answer.Auth.Policy.{rights_grow}
use self_consistency_answer.Auth.Scopes.{distinct, parse-format_scope_list}

abbrev narrow : Actor
narrow = record {
  credential = session;
  tenant_id = "t1";
  user_id = some "u1";
  role = member;
  scopes = writes_runs ∷ [];
  credential_id = none;
}

abbrev wide : Actor
wide = record narrow { role = owner; scopes = all_scopes }

abbrev own_run : Resource
own_run = record { tenant_id = "t1"; created_by_user_id = some "u1" }

abbrev other_run : Resource
other_run = record { tenant_id = "t1"; created_by_user_id = some "u2" }

refused_on_others : can narrow run_delete (some other_run) ≡ denied not_owner
unfolding can
refused_on_others = refl

refused_elsewhere :
    can wide run_delete (some (record other_run { tenant_id = "t2" })) ≡ denied cross_tenant
unfolding can
refused_elsewhere = refl

may_delete_own : allows narrow run_delete (some own_run) ≡ true
unfolding allows can
may_delete_own = refl

rights_grow_example : allows wide run_delete (some own_run) ≡ true
rights_grow_example =
    rights_grow narrow wide refl refl refl refl run_delete (some own_run) may_delete_own

parse-format_scope_list_example :
    parse_scope_list (format_scope_list (reads_runs ∷ writes_runs ∷ reads_runs ∷ []))
    ≡ distinct (reads_runs ∷ writes_runs ∷ reads_runs ∷ [])
parse-format_scope_list_example =
    parse-format_scope_list (reads_runs ∷ writes_runs ∷ reads_runs ∷ [])
