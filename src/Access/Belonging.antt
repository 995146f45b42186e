-- ===== src/Access/Belonging.antt =====
-- Whoever is authenticated belongs to the tenant it acts inside.
use self_consistency_answer.Common.{
  ℕ, ◌≡◌, refl, sym, ap, subst, ◌∙◌, inl, inr, Bool, true, not, ◌&&◌, ◌||◌, Option, none, some,
  String, List, [], ◌∷◌, arith, any, find?, or_else, str_eq, Bool-cases, Option-cases,
}
use self_consistency_answer.Sse.{Text}
use self_consistency_answer.Tenancy.{
  MemberRole, User, Membership, Directory, is_membership, get_membership, ResolvedMembership,
  resolve_membership, tenant_matches,
}
use self_consistency_answer.Tenancy.Acting.{resolves_iff, named_tenant_only}
use self_consistency_answer.Auth.{Actor}
use self_consistency_answer.ApiKeys.{
  Crypto, ApiKeyPrincipal, ApiKeyVerification, accepted, refused, creator_role, role_of_creator,
  verify_api_key,
}
use self_consistency_answer.ApiKeys.Verifying.{verify_api_key-IsOf}
use self_consistency_answer.Access.{
  ClerkPrincipal, ClerkVerification, rejected, verified, HttpRequest, Authentication, authenticated,
  forbidden, unauthenticated, answer_key, actor_of_key, answer_member, answer_user, answer_clerk,
  authenticate_clerk, verify_clerk_request, find_user, key_token, authenticate,
}

find_any :
    (P : Membership → Bool) (memberships : List Membership) (m : Membership)
    → find? P memberships ≡ some m
    → any P memberships ≡ true
find_any P [] m h = absurd cc
find_any P (x ∷ memberships) m h = elim (Bool-cases (P x)) [
  | inl here ↦ rw here refl
  | inr later ↦ ground (arith, later, find_any P memberships m (rw later at h))
]

pub get_membership-any :
    (tenant_id user_id : String) (d : Directory) (role : MemberRole)
    → get_membership tenant_id user_id d ≡ some role
    → any (is_membership tenant_id user_id) d.memberships ≡ true
unfolding get_membership
get_membership-any tenant_id user_id d role h =
    elim (Option-cases (find? (is_membership tenant_id user_id) d.memberships)) [
      | inl absent ↦ let none_is : none ≡ some role = rw (get_membership, absent) at h in absurd cc
      | inr (m, found) ↦ find_any (is_membership tenant_id user_id) d.memberships m found
    ]

-- The actor acts inside a tenant that its user, if it has one, is a member of, and that is the one that
-- the request names, if it names one.
abbrev pub IsMember : HttpRequest → Directory → Actor → Type 0
IsMember request d actor =
    ((user_id : String)
      → actor.user_id ≡ some user_id
      → any (is_membership actor.tenant_id user_id) d.memberships ≡ true)
    × ((str_eq request.tenant "" || tenant_matches actor.tenant_id request.tenant d) ≡ true)

actor_or : Actor → Authentication → Actor
actor_or a (authenticated b) = b
actor_or a (unauthenticated reason) = a
actor_or a (forbidden reason) = a

creator_any :
    (creator : Option String) (tenant_id user_id : String) (d : Directory) (role : MemberRole)
    → role_of_creator creator tenant_id d ≡ some role
    → creator ≡ some user_id
    → any (is_membership tenant_id user_id) d.memberships ≡ true
creator_any creator tenant_id user_id d role has is =
    get_membership-any tenant_id user_id d role
      (subst (λ c. role_of_creator c tenant_id d ≡ some role) is has)

principal-IsMember :
    (crypto : Crypto) (request : HttpRequest) (now : ℕ) (d : Directory) (token : Text)
    (p : ApiKeyPrincipal)
    → verify_api_key crypto token now d ≡ accepted p
    → (str_eq request.tenant "" || tenant_matches p.tenant_id request.tenant d) ≡ true
    → IsMember request d (actor_of_key p)
unfolding creator_role
principal-IsMember crypto request now d token p h named =
    let (parsed, row, is_parsed, found, is) = verify_api_key-IsOf crypto token now d p h in
    (
      λ user_id has.
          subst (λ t. any (is_membership t user_id) d.memberships ≡ true) (sym is.tenant_id)
            (creator_any row.created_by_user_id row.tenant_id user_id d p.role is.role
              (sym is.user_id ∙ has)),
      named,
    )

answer_key-IsMember :
    (crypto : Crypto) (request : HttpRequest) (now : ℕ) (d : Directory) (token : Text)
    (v : ApiKeyVerification) (actor : Actor)
    → verify_api_key crypto token now d ≡ v
    → (answer_key request now d v).result ≡ authenticated actor
    → IsMember request d actor
unfolding answer_key actor_or
answer_key-IsMember crypto request now d token (refused reason) actor is h = absurd cc
answer_key-IsMember crypto request now d token (accepted p) actor is h =
    elim (Bool-cases
      (not (str_eq request.tenant "") && not (tenant_matches p.tenant_id request.tenant d))) [
        | inl mismatch ↦
            let never : forbidden "api-key-tenant-mismatch" ≡ authenticated actor =
              rw (answer_key, mismatch) at h in
            absurd cc
        | inr matches ↦
            let same : authenticated (actor_of_key p) ≡ authenticated actor =
              rw (answer_key, matches) at h in
            subst (IsMember request d) (ap (actor_or actor) same)
              (principal-IsMember crypto request now d token p is (ground (arith, matches)))
      ]

answer_member-IsMember :
    (request : HttpRequest) (principal : ClerkPrincipal) (user : User) (external_id : String)
    (d : Directory) (membership : Option ResolvedMembership) (actor : Actor)
    → resolve_membership user.id request.tenant external_id d ≡ membership
    → answer_member request principal user membership ≡ authenticated actor
    → IsMember request d actor
unfolding actor_or
answer_member-IsMember request principal user external_id d none actor is h = absurd cc
answer_member-IsMember request principal user external_id d (some r) actor is h =
    let served = (resolves_iff user.id request.tenant external_id d).1 r is in
    subst (IsMember request d) (ap (actor_or actor) h) (
      λ user_id has.
          subst (λ u. any (is_membership r.tenant.id u) d.memberships ≡ true)
            (ap (λ o. or_else o user.id) has) served.belongs,
      elim (Bool-cases (str_eq request.tenant "")) [
        | inl absent ↦ ground (arith, absent)
        | inr given ↦
            ground (arith, (named_tenant_only user.id request.tenant external_id d r given is).1)
      ],
    )

answer_user-IsMember :
    (request : HttpRequest) (principal : ClerkPrincipal) (d : Directory) (user : Option User)
    (actor : Actor)
    → answer_user request principal d user ≡ authenticated actor
    → IsMember request d actor
answer_user-IsMember request principal d none actor h = absurd cc
answer_user-IsMember request principal d (some user) actor h =
    let external_id = or_else principal.external_org_id "" in
    answer_member-IsMember request principal user external_id d
      (resolve_membership user.id request.tenant external_id d) actor refl h

answer_clerk-IsMember :
    (request : HttpRequest) (d : Directory) (v : ClerkVerification) (actor : Actor)
    → answer_clerk request d v ≡ authenticated actor
    → IsMember request d actor
answer_clerk-IsMember request d (rejected reason) actor h = absurd cc
answer_clerk-IsMember request d (verified principal) actor h =
    answer_user-IsMember request principal d (find_user principal.external_user_id d.users) actor h

-- Whatever its credential, a request that is authenticated acts inside a tenant that its user, if its
-- credential has one, is a member of at that moment; and if it names a tenant, inside that one.
pub authenticate-IsMember :
    (crypto : Crypto) (request : HttpRequest) (now : ℕ) (d : Directory) (actor : Actor)
    → (authenticate crypto request now d).result ≡ authenticated actor
    → IsMember request d actor
unfolding authenticate authenticate_clerk verify_clerk_request
authenticate-IsMember crypto request now d actor h = elim (Option-cases (key_token request)) [
  | inr (token, has_token) ↦
      answer_key-IsMember crypto request now d token (verify_api_key crypto token now d) actor refl
        (rw (authenticate, has_token) at h)
  | inl without ↦
      answer_clerk-IsMember request d (verify_clerk_request request.clerk) actor
        (rw (authenticate, without) at h)
]
