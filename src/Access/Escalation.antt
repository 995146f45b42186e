-- ===== src/Access/Escalation.antt =====
-- No key may do more than the actor that made it.
use self_consistency_answer.Common.{
  ℕ, ◌≡◌, refl, sym, ap, subst, ◌∙◌, inl, inr, map, true, Option, some, String, List, [], ◌∷◌,
  or_else, filter, Bool-cases,
}
use self_consistency_answer.Sse.{Text}
use self_consistency_answer.Billing.{Subscription}
use self_consistency_answer.Tenancy.{MemberRole, Key, Directory}
use self_consistency_answer.Auth.{
  Scope, scope_name, stored_scopes, default_scopes, Permission, Actor, Resource, allows,
}
use self_consistency_answer.Auth.Policy.{is_at_most, is_within, rights_grow}
use self_consistency_answer.ApiKeys.{
  Crypto, ApiKeyEnvironment, MintedApiKey, mint_api_key, new_key, key_by_prefix, ApiKeyPrincipal,
  accepted, role_of_creator, creator_role, verify_api_key,
}
use self_consistency_answer.ApiKeys.Tokens.{IsRandom, parse-mint_api_key}
use self_consistency_answer.ApiKeys.Verifying.{IsOf, verify_row-IsOf}
use self_consistency_answer.Access.{actor_of_key}
use self_consistency_answer.Access.Keys.{
  CreateApiKeyInput, created, holds, grantable_scopes, mint_input, create_key,
}
use self_consistency_answer.Access.Minting.{
  IsMinted, create_key-IsMinted, key_by_prefix-append, stored_scopes-names,
}

is_within-filter : (held wanted : List Scope) → is_within (filter (holds held) wanted) held ≡ true
is_within-filter held [] = refl
is_within-filter held (s ∷ wanted) = elim (Bool-cases (holds held s)) [
  | inl has ↦ rw (has, has) (is_within-filter held wanted)
  | inr lacks ↦ rw lacks (is_within-filter held wanted)
]

grantable-within :
    (held : List Scope) (requested : Option (List Scope))
    → is_within (grantable_scopes held requested) held ≡ true
unfolding grantable_scopes
grantable-within held requested = is_within-filter held (or_else requested default_scopes)

-- The row of a token that was given, right after.
made_row :
    (actor : Actor) (input : CreateApiKeyInput) (now : ℕ) (id : String) (minted : MintedApiKey)
    (d after : Directory) (token : Text) (made : Key)
    → IsMinted actor input now id minted d after token
    → key_by_prefix minted.prefix after.keys ≡ some made
    → made
      ≡ new_key (mint_input actor input now (grantable_scopes actor.scopes input.scopes)) id minted
made_row actor input now id minted d after token made is found =
    let scopes = grantable_scopes actor.scopes input.scopes in
    let row = new_key (mint_input actor input now scopes) id minted in
    let both : some made ≡ some row =
      sym found
      ∙ ap (λ (a : Directory). key_by_prefix minted.prefix a.keys) is.after_is
      ∙ key_by_prefix-append d.keys row is.free in
    ap (λ o. or_else o made) both

-- The row that a minted token is checked against.
token-IsOf :
    (crypto : Crypto) (environment : ApiKeyEnvironment) (public_id secret : Text) (row : Key)
    (later : ℕ) (d : Directory) (p : ApiKeyPrincipal)
    → IsRandom public_id secret
    → let minted = mint_api_key crypto environment public_id secret in
      key_by_prefix minted.prefix d.keys ≡ some row
      → verify_api_key crypto minted.token later d ≡ accepted p
      → IsOf row later d p
unfolding verify_api_key
token-IsOf crypto environment public_id secret row later d p random found h =
    verify_row-IsOf crypto secret row later d p (
      rw (verify_api_key, (parse-mint_api_key crypto environment public_id secret random).0, found)
        at h)

-- A principal with the tenant, the user and the scopes of a new key may do no more than an actor whose
-- role is at least the creator's.
within_maker :
    (actor : Actor) (requested : Option (List Scope)) (row : Key) (later : ℕ) (d : Directory)
    (p : ApiKeyPrincipal)
    → IsOf row later d p
    → row.tenant_id ≡ actor.tenant_id
    → row.created_by_user_id ≡ actor.user_id
    → row.scopes ≡ map scope_name (grantable_scopes actor.scopes requested)
    → ((role : MemberRole)
        → role_of_creator actor.user_id actor.tenant_id d ≡ some role
        → is_at_most role actor.role ≡ true)
    → (permission : Permission) (resource : Option Resource)
    → allows (actor_of_key p) permission resource ≡ true
    → allows actor permission resource ≡ true
unfolding creator_role
within_maker actor requested row later d p is tenant user scopes below =
    let granted = grantable_scopes actor.scopes requested in
    let role_is : role_of_creator actor.user_id actor.tenant_id d ≡ some p.role =
      rw (sym user, sym tenant) is.role in
    rights_grow (actor_of_key p) actor (is.tenant_id ∙ tenant) (is.user_id ∙ user)
      (below p.role role_is)
      (subst (λ s. is_within s actor.scopes ≡ true)
        (sym (is.scopes ∙ ap stored_scopes scopes ∙ stored_scopes-names granted))
        (grantable-within actor.scopes requested))

-- A key may do nothing that the actor that made it may not: whatever scopes the request asked for, every
-- permission that the decision grants to a principal that the new token resolves to, on any resource, it
-- grants to the actor. This holds at any later time and in any directory in which the key's row has the
-- tenant, the creator and the scopes that it was made with, and the creator has no higher role than the
-- actor had, or has left. The random texts are assumed to have their alphabets and lengths.
pub key_within_maker :
    (crypto : Crypto) (iso : ℕ → String) (actor : Actor) (input : CreateApiKeyInput)
    (subscription : Subscription) (now : ℕ) (id : String) (environment : ApiKeyEnvironment)
    (public_id secret : Text) (d after : Directory) (token : Text)
    → IsRandom public_id secret
    → create_key iso actor input subscription now id
        (mint_api_key crypto environment public_id secret)
        d
      ≡ (after, created token)
    → (later : ℕ) (later_d : Directory) (made row : Key)
    → key_by_prefix (mint_api_key crypto environment public_id secret).prefix after.keys ≡ some made
    → key_by_prefix (mint_api_key crypto environment public_id secret).prefix later_d.keys
      ≡ some row
    → row.tenant_id ≡ made.tenant_id
    → row.created_by_user_id ≡ made.created_by_user_id
    → row.scopes ≡ made.scopes
    → ((role : MemberRole)
        → role_of_creator actor.user_id actor.tenant_id later_d ≡ some role
        → is_at_most role actor.role ≡ true)
    → (p : ApiKeyPrincipal) → verify_api_key crypto token later later_d ≡ accepted p
    → (permission : Permission) (resource : Option Resource)
    → allows (actor_of_key p) permission resource ≡ true
    → allows actor permission resource ≡ true
key_within_maker crypto iso actor input subscription now id environment public_id secret d after
      token random answer later later_d made row was found tenant user scopes below p ok =
    let minted = mint_api_key crypto environment public_id secret in
    let is = create_key-IsMinted iso actor input subscription now id minted d after token answer in
    let made_is = made_row actor input now id minted d after token made is was in
    within_maker actor input.scopes row later later_d p
      (token-IsOf crypto environment public_id secret row later later_d p random found
        (sym (ap (λ t. verify_api_key crypto t later later_d) is.token_is) ∙ ok))
      (tenant ∙ ap (λ (k : Key). k.tenant_id) made_is)
      (user ∙ ap (λ (k : Key). k.created_by_user_id) made_is)
      (scopes ∙ ap (λ (k : Key). k.scopes) made_is) below
