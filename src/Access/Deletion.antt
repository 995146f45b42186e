-- ===== src/Access/Deletion.antt =====
-- What becomes of the keys of a user who is deleted.
use self_consistency_answer.Common.{
  ℕ, ◌≡◌, refl, sym, ap, ◌∙◌, inl, inr, true, false, Option, none, some, String, List, [], ◌∷◌, any,
  map, find?, filter, is_some, eq_refl, if◌then◌else◌, Bool-cases,
}
use mathlib.Core.Option.{map as option_map}
use self_consistency_answer.Sse.{Text}
use self_consistency_answer.Tenancy.{owner, User, Key, Directory, is_set_to, delete_clerk_user}
use self_consistency_answer.Auth.{stored_scopes, text_eq}
use self_consistency_answer.ApiKeys.{
  Crypto, ParsedApiKey, accepted, parse_api_key, key_by_prefix, is_expired, api_key_secret_matches,
  verify_row, verify_api_key, creator_role,
}

abbrev detach : List User → Key → Key
detach gone k =
    if any (λ (u : User). is_set_to u.id k.created_by_user_id) gone
    then record k { created_by_user_id = none }
    else k

detach_prefix : (gone : List User) (k : Key) → (detach gone k).prefix ≡ k.prefix
detach_prefix gone k =
    elim (Bool-cases (any (λ (u : User). is_set_to u.id k.created_by_user_id) gone)) [
      | inl was ↦ rw was refl
      | inr other ↦ rw other refl
    ]

key_by_prefix-map :
    (prefix : Text) (gone : List User) (keys : List Key) (row : Key)
    → key_by_prefix prefix keys ≡ some row
    → key_by_prefix prefix (map (detach gone) keys) ≡ some (detach gone row)
key_by_prefix-map prefix gone [] row h = absurd cc
key_by_prefix-map prefix gone (k ∷ keys) row h =
    let same : (detach gone k).prefix ≡ k.prefix = detach_prefix gone k in
    elim (Bool-cases (text_eq k.prefix prefix)) [
      | inl here ↦
          let is : some k ≡ some row = rw here at h in
          rw (same, here) (ap (option_map (detach gone)) is)
      | inr later ↦ rw (same, later) (key_by_prefix-map prefix gone keys row (rw later at h))
    ]

deleted_any :
    (external_id : String) (users : List User) (u : User) (creator : Option String)
    → find? (λ (v : User). is_set_to external_id v.external_id) users ≡ some u
    → creator ≡ some u.id
    → any
        (λ (v : User). is_set_to v.id creator)
        (filter (λ (v : User). is_set_to external_id v.external_id) users)
      ≡ true
deleted_any external_id [] u creator h is = absurd cc
deleted_any external_id (v ∷ users) u creator h is =
    elim (Bool-cases (is_set_to external_id v.external_id)) [
      | inl here ↦
          let same : some v ≡ some u = rw here at h in
          let creator_is : creator ≡ some v.id =
            is ∙ sym (ap (option_map (λ (w : User). w.id)) same) in
          rw (here, creator_is, eq_refl v.id) refl
      | inr later ↦ rw later (deleted_any external_id users u creator (rw later at h) is)
    ]

detached :
    (gone : List User) (row : Key)
    → any (λ (u : User). is_set_to u.id row.created_by_user_id) gone ≡ true
    → detach gone row ≡ record row { created_by_user_id = none }
detached gone row h = rw h refl

-- A key that is live and that a user made in a tenant goes on working after the identity provider has
-- reported the user deleted, and it acts from then on with the role of an owner of the tenant, whatever
-- role the user had.
pub deleted_creator_makes_owner :
    (crypto : Crypto) (external_id : String) (d : Directory) (u : User) (token : Text)
    (parsed : ParsedApiKey) (row : Key) (now : ℕ)
    → find? (λ (v : User). is_set_to external_id v.external_id) d.users ≡ some u
    → parse_api_key token ≡ some parsed
    → key_by_prefix parsed.prefix d.keys ≡ some row
    → row.created_by_user_id ≡ some u.id
    → api_key_secret_matches crypto parsed.secret row.hash ≡ true
    → is_some row.revoked_at ≡ false
    → is_expired row.expires_at now ≡ false
    → verify_api_key crypto token now (delete_clerk_user external_id d)
      ≡ accepted (record {
        key_id = row.id;
        tenant_id = row.tenant_id;
        user_id = none;
        role = owner;
        scopes = stored_scopes row.scopes;
      })
unfolding verify_api_key verify_row delete_clerk_user creator_role
deleted_creator_makes_owner crypto external_id d u token parsed row now is_user is_parsed found
      made_by right live unexpired =
    let gone = filter (λ (v : User). is_set_to external_id v.external_id) d.users in
    let left : key_by_prefix parsed.prefix (map (detach gone) d.keys)
        ≡ some (record row { created_by_user_id = none }) =
      key_by_prefix-map parsed.prefix gone d.keys row found
      ∙ ap some (
          detached gone row
            (deleted_any external_id d.users u row.created_by_user_id is_user made_by)) in
    rw (verify_api_key, is_parsed, left, verify_row, right, live, unexpired, creator_role) refl
