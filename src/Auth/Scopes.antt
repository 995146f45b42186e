-- ===== src/Auth/Scopes.antt =====
-- The wire format of a list of scopes.
use self_consistency_answer.Common.{
  ◌≡◌, refl, sym, ap, subst, ◌∙◌, inl, inr, Bool, true, false, not, ◌&&◌, ◌||◌, none, some, List,
  [], ◌∷◌, ◌++◌, append-nil, append_assoc, arith, map, any, all, filter, if◌then◌else◌, Bool-cases,
}
use self_consistency_answer.Sse.{Text, is_white}
use self_consistency_answer.Auth.{
  Scope, reads_runs, writes_runs, reads_usage, reads_keys, writes_keys, reads_members,
  writes_members, reads_audit, scope_name, scope_eq, parse_scope, starts_white, split_white,
  add_scope, collect_scopes, parse_scope_list, join_scopes, format_scope_list,
}
use self_consistency_answer.Auth.Policy.{scope_eq_same}

-- The scopes of a list, each where it stands first.
abbrev pub distinct : List Scope → List Scope
distinct [] = []
distinct (scope ∷ scopes) = scope ∷ filter (λ s. not (scope_eq scope s)) (distinct scopes)

name_solid : (scope : Scope) → all (λ c. not (is_white c)) (scope_name scope) ≡ true
unfolding scope_name is_white
name_solid reads_runs = refl
name_solid writes_runs = refl
name_solid reads_usage = refl
name_solid reads_keys = refl
name_solid writes_keys = refl
name_solid reads_members = refl
name_solid writes_members = refl
name_solid reads_audit = refl

name_first : (scope : Scope) (rest : Text) → starts_white (scope_name scope ++ rest) ≡ false
unfolding scope_name is_white
name_first reads_runs rest = refl
name_first writes_runs rest = refl
name_first reads_usage rest = refl
name_first reads_keys rest = refl
name_first writes_keys rest = refl
name_first reads_members rest = refl
name_first writes_members rest = refl
name_first reads_audit rest = refl

pub parse_scope-name : (scope : Scope) → parse_scope (scope_name scope) ≡ some scope
unfolding parse_scope
parse_scope-name reads_runs = refl
parse_scope-name writes_runs = refl
parse_scope-name reads_usage = refl
parse_scope-name reads_keys = refl
parse_scope-name writes_keys = refl
parse_scope-name reads_members = refl
parse_scope-name writes_members = refl
parse_scope-name reads_audit = refl

split_white-last :
    (word : Text) → all (λ c. not (is_white c)) word ≡ true → split_white word ≡ word ∷ []
unfolding split_white
split_white-last [] h = refl
split_white-last (c ∷ word) h =
    let solid : is_white c ≡ false = ground (arith, h) in
    rw (split_white, solid, split_white-last word (ground (arith, h))) refl

space_white : is_white 32 ≡ true
unfolding is_white
space_white = refl

split_white-word :
    (word rest : Text)
    → all (λ c. not (is_white c)) word ≡ true
    → starts_white rest ≡ false
    → split_white (word ++ 32 ∷ rest) ≡ word ∷ split_white rest
unfolding split_white
split_white-word [] rest h k = rw (split_white, space_white, k) refl
split_white-word (c ∷ word) rest h k =
    let solid : is_white c ≡ false = ground (arith, h) in
    rw (split_white, solid, split_white-word word rest (ground (arith, h)) k) refl

join_scopes-first :
    (scope : Scope) (scopes : List Scope) → starts_white (join_scopes scope scopes) ≡ false
join_scopes-first scope [] = rw (sym (append-nil (scope_name scope))) (name_first scope [])
join_scopes-first scope (next ∷ scopes) = name_first scope (32 ∷ join_scopes next scopes)

split_white-join :
    (scope : Scope) (scopes : List Scope)
    → split_white (join_scopes scope scopes) ≡ map scope_name (scope ∷ scopes)
split_white-join scope [] = split_white-last (scope_name scope) (name_solid scope)
split_white-join scope (next ∷ scopes) =
    split_white-word (scope_name scope) (join_scopes next scopes) (name_solid scope)
      (join_scopes-first next scopes)
    ∙ ap (λ words. scope_name scope ∷ words) (split_white-join next scopes)

abbrev is_new : List Scope → Scope → Bool
is_new seen s = not (any (scope_eq s) seen)

filter_same :
    (P Q : Scope → Bool) (scopes : List Scope)
    → ((s : Scope) → P s ≡ Q s)
    → filter P scopes ≡ filter Q scopes
filter_same P Q [] same = refl
filter_same P Q (s ∷ scopes) same = rw (same s, filter_same P Q scopes same) refl

filter-filter :
    (P Q : Scope → Bool) (scopes : List Scope)
    → filter P (filter Q scopes) ≡ filter (λ s. Q s && P s) scopes
filter-filter P Q [] = refl
filter-filter P Q (s ∷ scopes) = ground (arith, filter-filter P Q scopes)

any-append_one :
    (s scope : Scope) (seen : List Scope)
    → any (scope_eq s) (seen ++ scope ∷ []) ≡ (any (scope_eq s) seen || scope_eq s scope)
any-append_one s scope [] = ground arith
any-append_one s scope (t ∷ seen) = ground (arith, any-append_one s scope seen)

new_after :
    (scope s : Scope) (seen : List Scope)
    → is_new (add_scope scope seen) s ≡ (not (scope_eq scope s) && is_new seen s)
new_after scope s seen = elim (Bool-cases (any (scope_eq scope) seen)) [
  | inl known ↦ elim (Bool-cases (scope_eq scope s)) [
    | inl same ↦
        let found : any (scope_eq s) seen ≡ true =
          subst (λ t. any (scope_eq t) seen ≡ true) (scope_eq_same scope s same) known in
        ground (arith, known, same, found)
    | inr other ↦ ground (arith, known, other)
  ]
  | inr fresh ↦ ground (arith, fresh, any-append_one s scope seen)
]

add_scope-append :
    (scope : Scope) (seen rest : List Scope)
    → add_scope scope seen ++ rest ≡ seen ++ (if is_new seen scope then scope ∷ rest else rest)
add_scope-append scope seen rest = elim (Bool-cases (any (scope_eq scope) seen)) [
  | inl known ↦ rw known refl
  | inr fresh ↦ rw fresh (append_assoc seen (scope ∷ []) rest)
]

filter_nothing : (scopes : List Scope) → filter (is_new []) scopes ≡ scopes
filter_nothing [] = refl
filter_nothing (s ∷ scopes) = rw (filter_nothing scopes) refl

collect_one :
    (scope : Scope) (seen : List Scope) (pieces : List Text)
    → collect_scopes seen (scope_name scope ∷ pieces) ≡ collect_scopes (add_scope scope seen) pieces
collect_one scope seen pieces =
    ap
      (λ parsed. elim parsed as (λ x. List Scope) [
        | none ↦ collect_scopes seen pieces
        | some s ↦ collect_scopes (add_scope s seen) pieces
      ])
      (parse_scope-name scope)

collect_scopes_lem :
    (seen scopes : List Scope)
    → collect_scopes seen (map scope_name scopes) ≡ seen ++ filter (is_new seen) (distinct scopes)
collect_scopes_lem seen [] = sym (append-nil seen)
collect_scopes_lem seen (scope ∷ scopes) =
    let rest = filter (is_new seen) (filter (λ s. not (scope_eq scope s)) (distinct scopes)) in
    let later : filter (is_new (add_scope scope seen)) (distinct scopes) ≡ rest =
      filter_same (is_new (add_scope scope seen)) (λ s. not (scope_eq scope s) && is_new seen s)
        (distinct scopes) (λ s. new_after scope s seen)
      ∙ sym (filter-filter (is_new seen) (λ s. not (scope_eq scope s)) (distinct scopes)) in
    collect_one scope seen (map scope_name scopes)
    ∙ (collect_scopes_lem (add_scope scope seen) scopes
        ∙ ap (λ xs. add_scope scope seen ++ xs) later
        ∙ add_scope-append scope seen rest)

nothing_parsed : parse_scope_list [] ≡ []
unfolding parse_scope_list parse_scope split_white
nothing_parsed = refl

-- A list of scopes that is written in the wire format is read back as its scopes, each once, in the
-- order in which they stand first.
pub parse-format_scope_list :
    (scopes : List Scope) → parse_scope_list (format_scope_list scopes) ≡ distinct scopes
unfolding parse_scope_list format_scope_list
parse-format_scope_list [] = nothing_parsed
parse-format_scope_list (scope ∷ scopes) =
    ap (λ pieces. collect_scopes [] pieces) (split_white-join scope scopes)
    ∙ collect_scopes_lem [] (scope ∷ scopes)
    ∙ filter_nothing (distinct (scope ∷ scopes))
