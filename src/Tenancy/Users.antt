-- ===== src/Tenancy/Users.antt =====
-- The row that an event about a user leaves, and the rows that stand in its way.
use self_consistency_answer.Common.{
  ◌≡◌, refl, ap, subst, ◌∙◌, inl, inr, Bool, true, false, not, ◌&&◌, Option, none, some, String,
  List, [], ◌∷◌, ◌++◌, arith, map, filter, any, or_else, is_some, str_eq, eq_iff, eq_refl,
  if◌then◌else◌, Bool-cases, Option-cases,
}
use self_consistency_answer.Tenancy.{User, Directory, is_set_to}
use self_consistency_answer.Tenancy.Mirror.{Host, precedes, first_of, is_candidate, sync_clerk_user}

any_other :
    (P : User → Bool) (id chosen : String) (users : List User)
    → str_eq id chosen ≡ false
    → any (λ (u : User). P u && str_eq u.id id) users ≡ true
    → any (λ (u : User). P u && not (str_eq u.id chosen)) users ≡ true
any_other P id chosen [] differs there = absurd cc
any_other P id chosen (u ∷ users) differs there = elim (Bool-cases (P u && str_eq u.id id)) [
  | inl here ↦ ground (arith, here, differs, eq_iff u.id id, eq_iff u.id chosen, eq_iff id chosen)
  | inr later ↦ ground (arith, any_other P id chosen users differs (rw later at there))
]

first_of-some :
    (host : Host) (P Q : User → Bool) (users : List User)
    → any (λ (u : User). P u && Q u) users ≡ true
    → is_some (first_of host (filter P users)) ≡ true
first_of-some host P Q [] there = absurd cc
first_of-some host P Q (u ∷ users) there = elim (Bool-cases (P u)) [
  | inl here ↦ rw here refl
  | inr other ↦ rw other (first_of-some host P Q users (rw other at there))
]

-- If the identity provider's id and the address of an event belong to the rows of two users, the event is
-- refused by a unique index, whichever row is found first; so is every delivery of it, since nothing is
-- written.
pub two_rows_conflict :
    (host : Host) (external_id email id : String) (d : Directory) (one other : String)
    → str_eq one other ≡ false
    → any (λ (u : User). is_candidate external_id email u && str_eq u.id one) d.users ≡ true
    → any (λ (u : User). is_candidate external_id email u && str_eq u.id other) d.users ≡ true
    → sync_clerk_user host external_id email id d ≡ none
unfolding sync_clerk_user
two_rows_conflict host external_id email id d one other differs has_one has_other =
    let matching = is_candidate external_id email in
    elim (Option-cases (first_of host (filter matching d.users))) [
      | inl nobody ↦
          let somebody =
            first_of-some host matching (λ (u : User). str_eq u.id one) d.users has_one in
          let never : false ≡ true = rw nobody at somebody in absurd cc
      | inr (existing, found) ↦
          let second : any (λ (u : User). matching u && not (str_eq u.id existing.id)) d.users
              ≡ true =
            elim (Bool-cases (str_eq one existing.id)) [
              | inr not_one ↦ any_other matching one existing.id d.users not_one has_one
              | inl is_one ↦
                  any_other matching other existing.id d.users
                    (ground (
                      arith,
                      differs,
                      is_one,
                      eq_iff one existing.id,
                      eq_iff other existing.id,
                      eq_iff one other,
                    ))
                    has_other
            ] in
          rw (sync_clerk_user, found, second) refl
    ]

-- The user's row after its event.
user_is_there :
    (id external_id email : String) (users : List User)
    → any (λ (u : User). str_eq u.id id) users ≡ true
    → any
        (λ (u : User). str_eq u.id id && is_set_to external_id u.external_id)
        (map
          (λ (u : User).
            if str_eq u.id id
            then record u { email = email; external_id = some external_id }
            else u)
          users)
      ≡ true
user_is_there id external_id email [] there = absurd cc
user_is_there id external_id email (u ∷ users) there = elim (Bool-cases (str_eq u.id id)) [
  | inl here ↦ rw (here, here, eq_refl external_id) refl
  | inr other ↦ rw (other, other) (user_is_there id external_id email users (rw other at there))
]

user_is_new :
    (id external_id email : String) (users : List User)
    → any
        (λ (u : User). str_eq u.id id && is_set_to external_id u.external_id)
        (users ++ record { id = id; email = email; external_id = some external_id } ∷ [])
      ≡ true
user_is_new id external_id email [] = rw (eq_refl id, eq_refl external_id) refl
user_is_new id external_id email (u ∷ users) =
    ground (arith, user_is_new id external_id email users)

same_id : (u v : User) → some u ≡ some v → u.id ≡ v.id
same_id u v same = ap (λ (o : Option User). (or_else o u).id) same

first_of-any :
    (host : Host) (P : User → Bool) (users : List User) (existing : User)
    → first_of host (filter P users) ≡ some existing
    → any (λ (u : User). str_eq u.id existing.id) users ≡ true
first_of-any host P [] existing found = absurd cc
first_of-any host P (u ∷ users) existing found = elim (Bool-cases (P u)) [
  | inr other ↦ ground (arith, first_of-any host P users existing (rw other at found))
  | inl here ↦ elim (Option-cases (first_of host (filter P users))) [
    | inl last ↦
        ground (arith, same_id u existing (rw (here, last) at found), eq_iff u.id existing.id)
    | inr (v, next) ↦ elim (Bool-cases (precedes host v.external_id u.external_id)) [
      | inl earlier_one ↦
          let same : some v ≡ some existing = rw (here, next, earlier_one) at found in
          ground (arith, first_of-any host P users existing (next ∙ same))
      | inr later_one ↦
          ground (
            arith,
            same_id u existing (rw (here, next, later_one) at found),
            eq_iff u.id existing.id,
          )
    ]
  ]
]

-- What the event of a user leaves.
pub synced_user :
    (host : Host) (external_id email id : String) (d after : Directory) (user_id : String)
    → sync_clerk_user host external_id email id d ≡ some (after, user_id)
    → any (λ (u : User). str_eq u.id user_id && is_set_to external_id u.external_id) after.users
      ≡ true
unfolding sync_clerk_user
synced_user host external_id email id d after user_id h =
    let matching = is_candidate external_id email in
    let is_there = λ (o : Option (Directory × String)).
      any (λ (u : User). str_eq u.id (or_else o (d, "")).1 && is_set_to external_id u.external_id)
        (or_else o (d, "")).0.users in
    elim (Option-cases (first_of host (filter matching d.users))) [
      | inl nobody ↦
          subst (λ o. is_there o ≡ true) (rw (sync_clerk_user, nobody) at h)
            (user_is_new id external_id email d.users)
      | inr (existing, found) ↦
          elim (Bool-cases
            (any (λ (u : User). matching u && not (str_eq u.id existing.id)) d.users)) [
              | inl conflict ↦
                  let never : none ≡ some (after, user_id) =
                    rw (sync_clerk_user, found, conflict) at h in
                  absurd cc
              | inr alone ↦
                  subst (λ o. is_there o ≡ true) (rw (sync_clerk_user, found, alone) at h)
                    (user_is_there existing.id external_id email d.users
                      (first_of-any host matching d.users existing found))
            ]
    ]
