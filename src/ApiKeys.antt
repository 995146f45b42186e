-- ===== src/ApiKeys.antt =====
-- packages/shared/src/apikey.ts and packages/db/src/auth.ts: the format of an API key, minting one,
-- and resolving a token to a principal. The digest, the hexadecimal decoder and the comparison of Node
-- are parameters (Crypto), and so are the random texts of a new key.
pub mod Tokens
pub mod Verifying
mod Tests
use self_consistency_answer.Common.{
  ℕ, ◌-◌, Bool, true, false, not, ◌&&◌, ◌||◌, Option, none, some, String, List, [], ◌∷◌, ◌++◌, map,
  filter, any, all, find?, take, drop, length, is_some, str_eq, ltb, leb, ◌==◌, if◌then◌else◌,
}
use self_consistency_answer.Sse.{Text, trim}
use self_consistency_answer.Tenancy.{MemberRole, owner, Key, Directory, get_membership}
use self_consistency_answer.Auth.{Scope, text_eq, scope_name, stored_scopes}

pub data ApiKeyEnvironment : Type 0 where
  live test : ApiKeyEnvironment

-- The code units of "live", "test", "sce" and "_".
abbrev pub environment_name : ApiKeyEnvironment → Text
environment_name live = 108 ∷ 105 ∷ 118 ∷ 101 ∷ []
environment_name test = 116 ∷ 101 ∷ 115 ∷ 116 ∷ []

abbrev pub vendor : Text
vendor = 115 ∷ 99 ∷ 101 ∷ []

abbrev pub underscore : ℕ
underscore = 95

pub record ParsedApiKey : Type 0 where
  pub environment : ApiKeyEnvironment
  pub prefix : Text
  pub secret : Text

pub record MintedApiKey : Type 0 where
  pub environment : ApiKeyEnvironment
  pub prefix : Text
  pub secret : Text
  pub token : Text
  pub hash : Text

-- `[0-9a-f]` and `[A-Za-z0-9_-]`.
abbrev pub is_hex : ℕ → Bool
is_hex c = (leb 48 c && leb c 57) || (leb 97 c && leb c 102)

abbrev pub is_base64url : ℕ → Bool
is_base64url c =
    (leb 65 c && leb c 90)
    || ((leb 97 c && leb c 122) || ((leb 48 c && leb c 57) || (c == 95 || c == 45)))

-- What is left of a text after a prefix that it has.
unfoldable pub after : Text → Text → Option Text
after [] text = some text
after (c ∷ prefix) [] = none
after (c ∷ prefix) (d ∷ text) = let rest = after prefix text in if c == d then rest else none

-- The part of `TOKEN` behind the environment.
unfoldable pub token_tail : ApiKeyEnvironment → Text → Option (ApiKeyEnvironment × Text × Text)
token_tail environment text =
    let public_id = take 12 text in
    let secret = drop 13 text in
    if (length public_id == 12 && all is_hex public_id)
      && (text_eq (take 1 (drop 12 text)) (underscore ∷ [])
          && (length secret == 43 && all is_base64url secret))
    then some (environment, public_id, secret)
    else none

-- `TOKEN.exec`, with the groups.
unfoldable pub token_parts : Text → Option (ApiKeyEnvironment × Text × Text)
token_parts text =
    elim (after (vendor ++ underscore ∷ environment_name live ++ underscore ∷ []) text) [
      | some rest ↦ token_tail live rest
      | none ↦ elim (after (vendor ++ underscore ∷ environment_name test ++ underscore ∷ []) text) [
        | some rest ↦ token_tail test rest
        | none ↦ none
      ]
    ]

abbrev pub prefix_of : ApiKeyEnvironment → Text → Text
prefix_of environment public_id =
    vendor ++ underscore ∷ environment_name environment ++ underscore ∷ public_id

unfoldable pub looks_like_api_key : Text → Bool
looks_like_api_key value = is_some (after (vendor ++ underscore ∷ []) value)

unfoldable pub parse_api_key : Text → Option ParsedApiKey
parse_api_key token =
    let text = trim token in
    if leb 1 (length text) && leb (length text) 200
    then (elim (token_parts text) [
      | none ↦ none
      | some (environment, public_id, secret) ↦ some (record {
        environment = environment;
        prefix = prefix_of environment public_id;
        secret = secret;
      })
    ])
    else none

-- `createHash("sha256")…digest("hex")`, `Buffer.from(text, "hex")` and `timingSafeEqual`.
pub record Crypto : Type 0 where
  pub sha256_hex : Text → Text
  pub from_hex : Text → List ℕ
  pub timing_safe_equal : List ℕ → List ℕ → Bool

pub data ApiKeyRejection : Type 0 where
  malformed unknown revoked expired no_membership : ApiKeyRejection

pub record ApiKeyPrincipal : Type 0 where
  pub key_id : String
  pub tenant_id : String
  pub user_id : Option String
  pub role : MemberRole
  pub scopes : List Scope

pub data ApiKeyVerification : Type 0 where
  accepted : ApiKeyPrincipal → ApiKeyVerification
  refused : ApiKeyRejection → ApiKeyVerification

-- `createdByUserId` and the other columns of a new row; `expires_at` of `none` is a key that does not
-- expire.
pub record MintApiKeyInput : Type 0 where
  pub tenant_id : String
  pub created_by_user_id : Option String
  pub name : String
  pub scopes : List Scope
  pub expires_at : Option ℕ

-- The key with a prefix, which is a unique column.
abbrev pub key_by_prefix : Text → List Key → Option Key
key_by_prefix prefix keys = find? (λ (k : Key). text_eq k.prefix prefix) keys

abbrev pub is_expired : Option ℕ → ℕ → Bool
is_expired none now = false
is_expired (some expires_at) now = leb expires_at now

abbrev pub new_key : MintApiKeyInput → String → MintedApiKey → Key
new_key input id minted = record {
  id = id;
  tenant_id = input.tenant_id;
  created_by_user_id = input.created_by_user_id;
  name = input.name;
  prefix = minted.prefix;
  hash = minted.hash;
  scopes = map scope_name input.scopes;
  last_used_at = none;
  expires_at = input.expires_at;
  revoked_at = none;
}

-- The row and the token of a new key; a prefix that is taken is a violation of its unique index.
unfoldable pub create_api_key :
    MintApiKeyInput → String → MintedApiKey → Directory → Option (Directory × Text)
create_api_key input id minted d =
    if is_some (key_by_prefix minted.prefix d.keys)
    then none
    else some (record d { keys = d.keys ++ new_key input id minted ∷ [] }, minted.token)

-- The role of a key's creator now; a key without one has full authority.
abbrev pub role_of_creator : Option String → String → Directory → Option MemberRole
role_of_creator none tenant_id d = some owner
role_of_creator (some user_id) tenant_id d = get_membership tenant_id user_id d

unfoldable pub creator_role : Key → Directory → Option MemberRole
creator_role row d = role_of_creator row.created_by_user_id row.tenant_id d

abbrev pub principal_of : Key → Option MemberRole → ApiKeyVerification
principal_of row none = refused no_membership
principal_of row (some role) = accepted (record {
  key_id = row.id;
  tenant_id = row.tenant_id;
  user_id = row.created_by_user_id;
  role = role;
  scopes = stored_scopes row.scopes;
})

module _ (crypto : Crypto) where
  abbrev pub mint_api_key : ApiKeyEnvironment → Text → Text → MintedApiKey
  mint_api_key environment public_id secret = record {
    environment = environment;
    prefix = prefix_of environment public_id;
    secret = secret;
    token = prefix_of environment public_id ++ underscore ∷ secret;
    hash = crypto.sha256_hex secret;
  }

  unfoldable pub api_key_secret_matches : Text → Text → Bool
  api_key_secret_matches secret stored_hash =
      let presented = crypto.from_hex (crypto.sha256_hex secret) in
      let stored = crypto.from_hex stored_hash in
      if not (length presented == length stored) || length stored == 0
      then false
      else crypto.timing_safe_equal presented stored

  -- The checks of a row, in their order, after the lookup.
  unfoldable pub verify_row : Text → Key → ℕ → Directory → ApiKeyVerification
  verify_row secret row now d =
      if not (api_key_secret_matches secret row.hash)
      then refused unknown
      else if is_some row.revoked_at
      then refused revoked
      else if is_expired row.expires_at now
      then refused expired
      else principal_of row (creator_role row d)

  unfoldable pub verify_api_key : Text → ℕ → Directory → ApiKeyVerification
  verify_api_key token now d = elim (parse_api_key token) [
    | none ↦ refused malformed
    | some parsed ↦ elim (key_by_prefix parsed.prefix d.keys) [
      | none ↦ refused unknown
      | some row ↦ verify_row parsed.secret row now d
    ]
  ]

abbrev pub is_key : String → String → Key → Bool
is_key tenant_id key_id k = str_eq k.id key_id && str_eq k.tenant_id tenant_id

-- Whether a live key was there to revoke, and the directory after it.
unfoldable pub revoke_api_key : String → String → ℕ → Directory → Bool × Directory
revoke_api_key tenant_id key_id now d =
    let live_one = λ (k : Key). is_key tenant_id key_id k && not (is_some k.revoked_at) in
    (
      any live_one d.keys,
      record d {
        keys = map (λ k. if live_one k then record k { revoked_at = some now } else k) d.keys;
      },
    )

abbrev pub last_used_resolution_ms : ℕ
last_used_resolution_ms = 60_000

-- Never used, or not since the cutoff.
abbrev pub is_stale : Option ℕ → ℕ → Bool
is_stale none cutoff = true
is_stale (some used) cutoff = ltb used cutoff

unfoldable pub touch_api_key : String → String → ℕ → Directory → Directory
touch_api_key tenant_id key_id now d = record d {
  keys =
      map
        (λ (k : Key).
          if is_key tenant_id key_id k && is_stale k.last_used_at (now - last_used_resolution_ms)
          then record k { last_used_at = some now }
          else k)
        d.keys;
}
