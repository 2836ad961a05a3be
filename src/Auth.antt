-- ===== src/Auth.antt =====
-- API keys (internal/auth/authenticator.go, internal/auth/middleware.go, internal/auth/identity.go).
-- SHA-256 and the canonical spelling of a header's name are parameters.
pub mod Keys
use agent.Base.{
  ℕ, ◌≡◌, Bool, true, false, not, ◌&&◌, Option, none, some, List, [], ◌∷◌, if◌then◌else◌, eqb,
  length, suc,
}
use agent.Text.{
  Text, text_eq, codes, trim_space, to_lower, trim_prefix, byte_len, is_empty, contains_any, fields,
  equal_fold,
}
use agent.Map.{◌==◌}
use agent.Hex.{decode_hex}
use agent.Config.{ApiKeyAuthConfig, ApiKeyCredentialConfig}

pub record Identity : Type 0 where
  pub key_id : Text
  pub user_id : Text
  pub tenant_id : Text
  pub scopes : List Text

pub record ApiKeyCredential : Type 0 where
  pub hash : List ℕ
  pub identity : Identity

pub record ApiKeyAuthenticator : Type 0 where
  pub header : Text
  pub credentials : List ApiKeyCredential

pub data AuthError : Type 0 where
  header_empty header_invalid no_keys : AuthError
  bad_hash : ℕ → AuthError

pub data AuthResult : Type 0 where
  ready : ApiKeyAuthenticator → AuthResult
  failed : AuthError → AuthResult

unfoldable pub parse_api_key_hash : Text → Option (List ℕ)
parse_api_key_hash value =
    let hash = trim_prefix (trim_space (to_lower value)) (codes "sha256:") in
    if eqb (byte_len hash) 64 then decode_hex hash else none

unfoldable pub normalize_scopes : List Text → List Text
normalize_scopes [] = []
normalize_scopes (scope ∷ scopes) =
    let t = trim_space scope in
    let rest = normalize_scopes scopes in if is_empty t then rest else t ∷ rest

abbrev pub credential_of : ApiKeyCredentialConfig → List ℕ → ApiKeyCredential
credential_of key hash = record {
  hash = hash;
  identity = record {
    key_id = trim_space key.id;
    user_id = trim_space key.user_id;
    tenant_id = trim_space key.tenant_id;
    scopes = normalize_scopes key.scopes;
  };
}

-- The loop over the keys: `inl`-like `failed` at the first hash that does not parse.
pub data Credentials : Type 0 where
  parsed : List ApiKeyCredential → Credentials
  invalid : AuthError → Credentials

abbrev pub cons_credential : ApiKeyCredential → Credentials → Credentials
cons_credential c (parsed cs) = parsed (c ∷ cs)
cons_credential c (invalid e) = invalid e

unfoldable pub parse_keys : ℕ → List ApiKeyCredentialConfig → Credentials
unfolding parse_api_key_hash normalize_scopes
parse_keys i [] = parsed []
parse_keys i (key ∷ keys) =
    let rest = parse_keys (suc i) keys in
    elim (parse_api_key_hash key.key_hash) [
      | none ↦ invalid (bad_hash i)
      | some hash ↦ cons_credential (credential_of key hash) rest
    ]

abbrev is_nil : List ApiKeyCredentialConfig → Bool
is_nil [] = true
is_nil (_ ∷ _) = false

module _ (canonical_header_key : Text → Text) where
  abbrev authenticator_of : Text → Credentials → AuthResult
  authenticator_of header (parsed cs) =
      ready (record { header = canonical_header_key header; credentials = cs })
  authenticator_of header (invalid e) = failed e

  unfoldable pub new_api_key_authenticator : ApiKeyAuthConfig → AuthResult
  unfolding parse_keys
  new_api_key_authenticator cfg =
      let header = trim_space cfg.header in
      if is_empty header
      then failed header_empty
      else if contains_any header (32 ∷ 9 ∷ 13 ∷ 10 ∷ 58 ∷ [])
      then failed header_invalid
      else if is_nil cfg.keys
      then failed no_keys
      else authenticator_of header (parse_keys 0 cfg.keys)

-- The loop of `authenticate`: it goes through all credentials, and the last match stays.
unfoldable pub match_credentials :
    List ℕ → List ApiKeyCredential → Option Identity → Option Identity
match_credentials digest [] matched = matched
match_credentials digest (c ∷ cs) matched =
    match_credentials digest cs (if digest == c.hash then some c.identity else matched)

-- `cloneIdentity` copies the slice of scopes, which here is a value.
unfoldable pub authenticate : (Text → List ℕ) → ApiKeyAuthenticator → Text → Option Identity
unfolding match_credentials
authenticate sha256 a api_key = match_credentials (sha256 api_key) a.credentials none

abbrev bearer_token : List Text → Option Text
bearer_token (scheme ∷ token ∷ []) = if equal_fold scheme (codes "Bearer") then some token else none
bearer_token _ = none

-- `value` is what `r.Header.Get(a.header)` returns.
unfoldable pub extract_api_key : ApiKeyAuthenticator → Text → Option Text
extract_api_key a header_value =
    let value = trim_space header_value in
    if is_empty value
    then none
    else if equal_fold a.header (codes "Authorization")
    then bearer_token (fields value)
    else some value

-- What the middleware does with a request.
pub data Verdict : Type 0 where
  missing_key invalid_key : Verdict
  next_with : Identity → Verdict

abbrev pub verdict_of : Option Identity → Verdict
verdict_of none = invalid_key
verdict_of (some identity) = next_with identity

unfoldable pub middleware : (Text → List ℕ) → ApiKeyAuthenticator → Text → Verdict
unfolding extract_api_key authenticate
middleware sha256 a header_value = elim (extract_api_key a header_value) [
  | none ↦ missing_key
  | some api_key ↦ verdict_of (authenticate sha256 a api_key)
]
