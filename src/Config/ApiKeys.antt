-- ===== src/Config/ApiKeys.antt =====
-- The checks of the API keys (internal/config/auth.go).
use agent.Base.{ℕ, suc, Option, none, some, List, [], ◌∷◌, if◌then◌else◌, eqb, length}
use agent.Text.{
  Text, text_eq, codes, is_empty, trim_space, to_lower, trim_prefix, byte_len, contains_any,
}
use agent.Map.{mem}
use agent.Hex.{decode_hex}
use agent.Config.{ApiKeyAuthConfig, ApiKeyCredentialConfig}
use agent.Config.Validate.{
  empty, malformed, too_few, repeated, Check, wrong, first_error, when, is_blank,
}

abbrev pub decoded : Text → Option (List ℕ) → Option Text
decoded hash none = none
decoded hash (some bytes) = some hash

-- `none` is an error.
unfoldable pub normalize_api_key_hash : Text → Option Text
normalize_api_key_hash value =
    let hash = trim_prefix (trim_space (to_lower value)) (codes "sha256:") in
    if eqb (byte_len hash) 64 then decoded hash (decode_hex hash) else none

unfoldable pub check_scopes : ℕ → ℕ → List Text → Check
check_scopes i j [] = none
check_scopes i j (scope ∷ scopes) = first_error (
    wrong (is_blank scope) (codes "auth.api_key.keys.scopes") (i ∷ j ∷ []) empty
    ∷ check_scopes i (suc j) scopes
    ∷ [])

-- The loop over the keys, with the identifiers and the hashes seen.
unfoldable pub check_keys : ℕ → List Text → List Text → List ApiKeyCredentialConfig → Check
unfolding normalize_api_key_hash check_scopes
check_keys i ids hashes [] = none
check_keys i ids hashes (key ∷ keys) =
    let id = trim_space key.id in
    let at = i ∷ [] in
    let hashed : Check = elim (normalize_api_key_hash key.key_hash) [
      | none ↦
          some (record { field = codes "auth.api_key.keys.key_hash"; at = at; problem = malformed })
      | some hash ↦ first_error (
          wrong (mem hash hashes) (codes "auth.api_key.keys.key_hash") at repeated
          ∷ check_scopes i 0 key.scopes
          ∷ check_keys (suc i) (id ∷ ids) (hash ∷ hashes) keys
          ∷ [])
    ] in
    first_error (
      wrong (is_empty id) (codes "auth.api_key.keys.id") at empty
      ∷ wrong (mem id ids) (codes "auth.api_key.keys.id") at repeated
      ∷ wrong (is_blank key.user_id) (codes "auth.api_key.keys.user_id") at empty
      ∷ hashed
      ∷ [])

-- Space, tab, carriage return, line feed and colon.
abbrev pub header_separators : Text
header_separators = 32 ∷ 9 ∷ 13 ∷ 10 ∷ 58 ∷ []

unfoldable pub validate_api_key_auth : ApiKeyAuthConfig → Check
unfolding check_keys
validate_api_key_auth cfg = when cfg.enabled (
    first_error (
      wrong (is_blank cfg.header) (codes "auth.api_key.header") [] empty
      ∷ wrong (contains_any cfg.header header_separators) (codes "auth.api_key.header") [] malformed
      ∷ wrong (eqb (length cfg.keys) 0) (codes "auth.api_key.keys") [] too_few
      ∷ check_keys 0 [] [] cfg.keys
      ∷ []))
