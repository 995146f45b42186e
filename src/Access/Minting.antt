-- ===== src/Access/Minting.antt =====
-- A key that a request makes: it works, and it may do no more than its maker.
use self_consistency_answer.Common.{
  ℕ, ◌≡◌, refl, sym, ap, subst, ◌∙◌, inl, inr, true, false, Option, none, some, String, List, [],
  ◌∷◌, ◌++◌, map, Bool-cases, Option-cases, length,
}
use self_consistency_answer.Sse.{Text}
use self_consistency_answer.Plans.{api_keys, has_entitlement}
use self_consistency_answer.Billing.{Subscription, is_full, resolve_access, effective_plan}
use self_consistency_answer.Tenancy.{MemberRole, Key, Directory, get_membership}
use self_consistency_answer.Auth.{Scope, scope_name, stored_scopes, text_eq, key_create, Actor}
use self_consistency_answer.Auth.Scopes.{parse_scope-name}
use self_consistency_answer.ApiKeys.{
  Crypto, ApiKeyEnvironment, MintedApiKey, mint_api_key, new_key, key_by_prefix, create_api_key,
  ApiKeyPrincipal, accepted, role_of_creator, creator_role, is_expired, verify_row, verify_api_key,
  api_key_secret_matches,
}
use self_consistency_answer.ApiKeys.Tokens.{IsRandom, text_eq_refl, parse-mint_api_key}
use self_consistency_answer.Access.{require_permission}
use self_consistency_answer.Access.Keys.{
  CreateApiKeyInput, KeyAnswer, refused_with, payment_required, feature_unavailable, none_held,
  prefix_taken, revoked_one, created, grantable_scopes, mint_input, mint_scopes, create_key, expiry,
}

-- The directory with a new key of the actor.
abbrev pub with_key :
    Actor → CreateApiKeyInput → ℕ → String → MintedApiKey → Directory → List Scope → Directory
with_key actor input now id minted d scopes = record d {
  keys = d.keys ++ new_key (mint_input actor input now scopes) id minted ∷ [];
}

-- What a request that was given a token has done.
pub record IsMinted (actor : Actor) (input : CreateApiKeyInput) (now : ℕ) (id : String)
    (minted : MintedApiKey) (d after : Directory) (token : Text) : Type 0 where
  pub free : key_by_prefix minted.prefix d.keys ≡ none
  pub token_is : token ≡ minted.token
  pub after_is :
      after ≡ with_key actor input now id minted d (grantable_scopes actor.scopes input.scopes)

token_of : Directory × KeyAnswer → Text
token_of (d, created token) = token
token_of (d, refused_with status) = []
token_of (d, payment_required) = []
token_of (d, feature_unavailable) = []
token_of (d, none_held) = []
token_of (d, prefix_taken) = []
token_of (d, revoked_one revoked) = []

mint_scopes-IsMinted :
    (actor : Actor) (input : CreateApiKeyInput) (now : ℕ) (id : String) (minted : MintedApiKey)
    (d after : Directory) (token : Text) (scopes : List Scope)
    → grantable_scopes actor.scopes input.scopes ≡ scopes
    → mint_scopes actor input now id minted d scopes ≡ (after, created token)
    → IsMinted actor input now id minted d after token
unfolding create_api_key token_of
mint_scopes-IsMinted actor input now id minted d after token [] is h =
    let never : none_held ≡ created token = ap (λ (r : Directory × KeyAnswer). r.1) h in absurd cc
mint_scopes-IsMinted actor input now id minted d after token (scope ∷ scopes) is h =
    elim (Option-cases (key_by_prefix minted.prefix d.keys)) [
      | inr (row, taken) ↦
          let never : prefix_taken ≡ created token =
            ap (λ (r : Directory × KeyAnswer). r.1) (rw (create_api_key, taken) at h) in
          absurd cc
      | inl free ↦
          let done : (with_key actor input now id minted d (scope ∷ scopes), created minted.token)
              ≡ (after, created token) =
            rw (create_api_key, free) at h in
          record {
            free = free;
            token_is = sym (ap token_of done);
            after_is =
                subst (λ s. after ≡ with_key actor input now id minted d s) (sym is)
                  (sym (ap (λ (r : Directory × KeyAnswer). r.0) done));
          }
    ]

pub create_key-IsMinted :
    (iso : ℕ → String) (actor : Actor) (input : CreateApiKeyInput) (subscription : Subscription)
    (now : ℕ) (id : String) (minted : MintedApiKey) (d after : Directory) (token : Text)
    → create_key iso actor input subscription now id minted d ≡ (after, created token)
    → IsMinted actor input now id minted d after token
unfolding create_key
create_key-IsMinted iso actor input subscription now id minted d after token h =
    elim (Option-cases (require_permission actor key_create)) [
      | inr (status, denied) ↦
          let never : refused_with status ≡ created token =
            ap (λ (r : Directory × KeyAnswer). r.1) (rw (create_key, denied) at h) in
          absurd cc
      | inl may ↦ elim (Bool-cases (is_full (resolve_access iso subscription now).mode)) [
        | inr closed ↦
            let never : payment_required ≡ created token =
              ap (λ (r : Directory × KeyAnswer). r.1) (rw (create_key, may, closed) at h) in
            absurd cc
        | inl writable ↦
            elim (Bool-cases (has_entitlement (effective_plan iso subscription now) api_keys)) [
              | inr lacking ↦
                  let never : feature_unavailable ≡ created token =
                    ap (λ (r : Directory × KeyAnswer). r.1)
                      (rw (create_key, may, writable, lacking) at h) in
                  absurd cc
              | inl entitled ↦
                  mint_scopes-IsMinted actor input now id minted d after token
                    (grantable_scopes actor.scopes input.scopes) refl
                    (rw (create_key, may, writable, entitled) at h)
            ]
      ]
    ]

pub stored_scopes-names : (scopes : List Scope) → stored_scopes (map scope_name scopes) ≡ scopes
unfolding stored_scopes
stored_scopes-names [] = refl
stored_scopes-names (scope ∷ scopes) =
    rw (stored_scopes, parse_scope-name scope, stored_scopes-names scopes) refl

pub key_by_prefix-append :
    (keys : List Key) (k : Key)
    → key_by_prefix k.prefix keys ≡ none
    → key_by_prefix k.prefix (keys ++ k ∷ []) ≡ some k
key_by_prefix-append [] k free = rw (text_eq_refl k.prefix) refl
key_by_prefix-append (x ∷ keys) k free = elim (Bool-cases (text_eq x.prefix k.prefix)) [
  | inl taken ↦ let never : some x ≡ none = rw taken at free in absurd cc
  | inr other ↦ rw other (key_by_prefix-append keys k (rw other at free))
]

pub same_role :
    (creator : Option String) (tenant_id : String) (d : Directory) (keys : List Key)
    → role_of_creator creator tenant_id (record d { keys = keys })
      ≡ role_of_creator creator tenant_id d
unfolding get_membership
same_role none tenant_id d keys = refl
same_role (some user_id) tenant_id d keys = refl

-- A digest has 32 bytes, and equal bytes compare equal.
pub record IsSound (crypto : Crypto) : Type 0 where
  pub digest_length : (s : Text) → length (crypto.from_hex (crypto.sha256_hex s)) ≡ 32
  pub equal_bytes : (bytes : List ℕ) → crypto.timing_safe_equal bytes bytes ≡ true

pub secret_matches :
    (crypto : Crypto) (secret : Text)
    → IsSound crypto
    → api_key_secret_matches crypto secret (crypto.sha256_hex secret) ≡ true
unfolding api_key_secret_matches
secret_matches crypto secret sound =
    rw
      (
        api_key_secret_matches,
        sound.digest_length secret,
        sound.equal_bytes (crypto.from_hex (crypto.sha256_hex secret)),
      )
      refl

abbrev principal_with : Actor → String → MemberRole → List Scope → ApiKeyPrincipal
principal_with actor id role scopes = record {
  key_id = id;
  tenant_id = actor.tenant_id;
  user_id = actor.user_id;
  role = role;
  scopes = scopes;
}

verify-with_key :
    (crypto : Crypto) (actor : Actor) (input : CreateApiKeyInput) (now : ℕ) (id : String)
    (environment : ApiKeyEnvironment) (public_id secret : Text) (d : Directory)
    (scopes : List Scope) (later : ℕ) (role : MemberRole)
    → IsSound crypto
    → IsRandom public_id secret
    → let minted = mint_api_key crypto environment public_id secret in
      key_by_prefix minted.prefix d.keys ≡ none
      → is_expired (expiry input.expires_in_days now) later ≡ false
      → role_of_creator actor.user_id actor.tenant_id d ≡ some role
      → verify_api_key crypto minted.token later (with_key actor input now id minted d scopes)
        ≡ accepted (principal_with actor id role scopes)
unfolding verify_api_key verify_row creator_role
verify-with_key crypto actor input now id environment public_id secret d scopes later role sound
      random free fresh has =
    let minted = mint_api_key crypto environment public_id secret in
    let row = new_key (mint_input actor input now scopes) id minted in
    let current : role_of_creator actor.user_id actor.tenant_id
          (with_key actor input now id minted d scopes)
        ≡ some role =
      same_role actor.user_id actor.tenant_id d (d.keys ++ row ∷ []) ∙ has in
    rw
      (
        verify_api_key,
        (parse-mint_api_key crypto environment public_id secret random).0,
        key_by_prefix-append d.keys row free,
        verify_row,
        secret_matches crypto secret sound,
        fresh,
        creator_role,
        current,
        stored_scopes-names scopes,
      )
      refl

-- A token that a request was given is accepted until the key expires: it acts in the tenant of the actor
-- that made it and as that actor's user, with the role that this user has in the tenant, and with the
-- scopes that were asked for and that the actor holds. A digest is assumed to have 32 bytes, equal bytes to
-- compare equal, the random texts to have their alphabets and lengths, and the actor's role to be the
-- current one of its user.
pub minted_key_works :
    (crypto : Crypto) (iso : ℕ → String) (actor : Actor) (input : CreateApiKeyInput)
    (subscription : Subscription) (now : ℕ) (id : String) (environment : ApiKeyEnvironment)
    (public_id secret : Text) (d after : Directory) (token : Text) (later : ℕ)
    → IsSound crypto
    → IsRandom public_id secret
    → create_key iso actor input subscription now id
        (mint_api_key crypto environment public_id secret)
        d
      ≡ (after, created token)
    → is_expired (expiry input.expires_in_days now) later ≡ false
    → role_of_creator actor.user_id actor.tenant_id d ≡ some actor.role
    → verify_api_key crypto token later after
      ≡ accepted (principal_with actor id actor.role (grantable_scopes actor.scopes input.scopes))
minted_key_works crypto iso actor input subscription now id environment public_id secret d after
      token later sound random made fresh has =
    let minted = mint_api_key crypto environment public_id secret in
    let scopes = grantable_scopes actor.scopes input.scopes in
    let is = create_key-IsMinted iso actor input subscription now id minted d after token made in
    ap (λ t. verify_api_key crypto t later after) is.token_is
    ∙ ap (verify_api_key crypto minted.token later) is.after_is
    ∙ verify-with_key crypto actor input now id environment public_id secret d scopes later
        actor.role sound random is.free fresh has
