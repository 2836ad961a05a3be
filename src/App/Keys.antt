-- ===== src/App/Keys.antt =====
-- The authenticator that is made from an accepted configuration (internal/config/auth.go before
-- internal/auth/authenticator.go).
use agent.Base.{
  ℕ, suc, ◌≡◌, refl, sym, ap, subst, true, false, Option, none, some, List, [], ◌∷◌, arith, all,
  eqb, length, map, Bool-cases, inl, inr,
}
use agent.Text.{
  is_empty, Text, text_eq, text_beq_iff, trim_space, to_lower, lower, trim_prefix, byte_len, codes,
}
use agent.Text.Trim.{all-trim_space, all-trim_prefix, contains_any-trim_space, is_empty-trim_twice}
use agent.Map.{◌==◌, mem, distinct}
use agent.Hex.{decode_hex, is_not_upper, decode_hex-injective}
use agent.Config.{Config, ApiKeyCredentialConfig}
use agent.Config.Validate.{Parsers}
use agent.Config.ApiKeys.{normalize_api_key_hash, check_keys, validate_api_key_auth, decoded}
use agent.Config.Whole.{validate}
use agent.Auth.{
  ApiKeyAuthenticator, ApiKeyCredential, parsed, ready, parse_api_key_hash, parse_keys,
  credential_of, new_api_key_authenticator,
}
use agent.App.Identity.{has_user}

to_lower-is_not_upper : (s : Text) → all is_not_upper (to_lower s) ≡ true
unfolding to_lower lower is_not_upper
to_lower-is_not_upper [] = refl
to_lower-is_not_upper (c ∷ s) = ground (arith, to_lower-is_not_upper s)

-- A hash that the configuration keeps, and the bytes that the authenticator reads from it.
pub record IsHash (hash : Text) (bytes : List ℕ) : Type 0 where
  is_lower : all is_not_upper hash ≡ true
  decodes : decode_hex hash ≡ some bytes

decoded-IsHash :
    (text : Text) (r : Option (List ℕ)) {hash : Text}
    → decode_hex text ≡ r
    → all is_not_upper text ≡ true
    → decoded text r ≡ some hash
    → (bytes : List ℕ) × (r ≡ some bytes) × IsHash hash bytes
decoded-IsHash text none d l e = absurd (ground arith)
decoded-IsHash text (some bytes) d l e =
    (bytes, refl, record { is_lower = ground arith; decodes = ground arith })

-- The two routines for a hash agree: a value whose hash the configuration keeps is one that the
-- authenticator reads, as the bytes of that hash.
pub normalize-parse :
    (value : Text) {hash : Text}
    → normalize_api_key_hash value ≡ some hash
    → (bytes : List ℕ) × (parse_api_key_hash value ≡ some bytes) × IsHash hash bytes
unfolding normalize_api_key_hash parse_api_key_hash
normalize-parse value {hash} e =
    let text = trim_prefix (trim_space (to_lower value)) (codes "sha256:") in
    let lower_case =
      all-trim_prefix is_not_upper _ (codes "sha256:")
        (all-trim_space is_not_upper _ (to_lower-is_not_upper value)) in
    elim (Bool-cases (eqb (byte_len text) 64)) [
      | inl long ↦ rw (long) (decoded-IsHash text (decode_hex text) refl lower_case (rw long at e))
      | inr short ↦ absurd (ground (arith, short, e))
    ]

IsHash-same : (g h : Text) (bytes : List ℕ) → IsHash g bytes → IsHash h bytes → g ≡ h
IsHash-same g h bytes x y = decode_hex-injective g h bytes x.is_lower y.is_lower x.decodes y.decodes

-- What the authenticator makes of the keys, none of whose hashes is among those seen.
record Distinct (j : ℕ) (hashes : List Text) (keys : List ApiKeyCredentialConfig) : Type 0 where
  credentials : List ApiKeyCredential
  parses : parse_keys j keys ≡ parsed credentials
  one_each : length credentials ≡ length keys
  users_named : all (λ c. has_user c.identity) credentials ≡ true
  distinct_hashes : distinct (map (λ c. c.hash) credentials) ≡ true
  fresh :
      (h : Text) (bytes : List ℕ)
      → mem h hashes ≡ true
      → IsHash h bytes
      → mem bytes (map (λ c. c.hash) credentials) ≡ false

cons-Distinct :
    (j : ℕ) (hashes : List Text) (key : ApiKeyCredentialConfig) (keys : List ApiKeyCredentialConfig)
    (hash : Text)
    → normalize_api_key_hash key.key_hash ≡ some hash
    → mem hash hashes ≡ false
    → is_empty (trim_space key.user_id) ≡ false
    → Distinct (suc j) (hash ∷ hashes) keys
    → Distinct j hashes (key ∷ keys)
unfolding parse_keys mem distinct
cons-Distinct j hashes key keys hash e new named d =
    let (bytes, p, h) = normalize-parse key.key_hash e in
    record {
      credentials = credential_of key bytes ∷ d.credentials;
      parses = ground (arith, p, d.parses);
      one_each = ap suc d.one_each;
      users_named = ground (arith, named, is_empty-trim_twice key.user_id, d.users_named);
      distinct_hashes =
          ground (
            arith,
            d.fresh hash bytes (ground (arith, text_beq_iff hash hash)) h,
            d.distinct_hashes,
          );
      fresh = λ g bs m x. elim (Bool-cases (bytes == bs)) [
        | inl hit ↦
            let same =
              IsHash-same g hash bytes (subst (IsHash g) (sym ((text_beq_iff bytes bs).0 hit)) x)
                h in
            absurd (ground (arith, subst (λ a. mem a hashes ≡ true) same m, new))
        | inr miss ↦ ground (arith, miss, d.fresh g bs (ground (arith, m)) x)
      ];
    }

check_keys-Distinct :
    (i j : ℕ) (ids hashes : List Text) (keys : List ApiKeyCredentialConfig)
    → check_keys i ids hashes keys ≡ none
    → Distinct j hashes keys
unfolding check_keys parse_keys mem distinct
check_keys-Distinct i j ids hashes [] ok = record {
  credentials = [];
  parses = refl;
  one_each = refl;
  users_named = refl;
  distinct_hashes = refl;
  fresh = λ h bytes m e. refl;
}
check_keys-Distinct i j ids hashes (key ∷ keys) ok =
    elim (normalize_api_key_hash key.key_hash)
        as (λ r. normalize_api_key_hash key.key_hash ≡ r → Distinct j hashes (key ∷ keys)) [
          | none ↦ λ e. absurd (ground (arith, ok, e))
          | some hash ↦ λ e.
              cons-Distinct j hashes key keys hash e (ground (arith, ok, e)) (ground (arith, ok, e))
                (check_keys-Distinct (suc i) (suc j) (trim_space key.id ∷ ids) (hash ∷ hashes) keys
                  (ground (arith, ok, e)))
        ]
      refl

module _ {F : Type 0} (p : Parsers F) (c : Config F) (ok : validate p c ≡ none)
    (on : c.auth.enabled ≡ true) where
  auth-accepted : validate_api_key_auth c.auth ≡ none
  unfolding validate
  auth-accepted = ground arith

  keys-accepted : check_keys 0 [] [] c.auth.keys ≡ none
  unfolding validate_api_key_auth
  keys-accepted = ground (arith, auth-accepted, on)

  -- An accepted configuration that asks for API keys makes an authenticator: its construction does
  -- not fail, it has one credential for each configured key, no two of them have the same digest,
  -- and each of them names a user.
  pub validate-authenticator :
      (canonical : Text → Text)
      → (a : ApiKeyAuthenticator) × (new_api_key_authenticator canonical c.auth ≡ ready a)
        × (length a.credentials ≡ length c.auth.keys)
        × (distinct (map (λ k. k.hash) a.credentials) ≡ true)
        × (all (λ k. has_user k.identity) a.credentials ≡ true)
  unfolding validate_api_key_auth new_api_key_authenticator
  validate-authenticator canonical =
      let d = check_keys-Distinct 0 0 [] [] c.auth.keys keys-accepted in
      let a : ApiKeyAuthenticator = record {
        header = canonical (trim_space c.auth.header);
        credentials = d.credentials;
      } in
      let plain = contains_any-trim_space c.auth.header (32 ∷ 9 ∷ 13 ∷ 10 ∷ 58 ∷ []) in
      (
        a,
        ground (arith, auth-accepted, on, plain, d.parses),
        d.one_each,
        d.distinct_hashes,
        d.users_named,
      )
