-- ===== src/Auth/Keys.antt =====
-- Which keys are accepted, and as whom (internal/auth/authenticator.go).
use agent.Base.{
  ℕ, ◌≡◌, ◌⊎◌, refl, sym, true, false, Option, none, some, List, [], ◌∷◌, arith, Bool-cases, inl,
  inr, map,
}
use agent.Text.{Text, text_eq, text_beq_iff}
use agent.Map.{◌==◌, distinct, mem}
use agent.Auth.{Identity, ApiKeyCredential, ApiKeyAuthenticator, match_credentials, authenticate}

-- A credential stands in a list.
pub data In (c : ApiKeyCredential) : List ApiKeyCredential → Type 0 where
  here : {cs : List ApiKeyCredential} → In c (c ∷ cs)
  there : {d : ApiKeyCredential} {cs : List ApiKeyCredential} → In c cs → In c (d ∷ cs)

match_sound :
    (digest : List ℕ) (cs : List ApiKeyCredential) (matched : Option Identity) (identity : Identity)
    → match_credentials digest cs matched ≡ some identity
    → (matched ≡ some identity)
      ⊎ ((c : ApiKeyCredential) × In c cs × (c.hash ≡ digest) × (c.identity ≡ identity))
unfolding match_credentials
match_sound digest [] matched identity e = inl e
match_sound digest (c ∷ cs) matched identity e = elim (match_sound digest cs _ identity e) [
  | inr (d, i, h, same) ↦ inr (d, there i, h, same)
  | inl now ↦ elim (Bool-cases (digest == c.hash)) [
    | inr other ↦ inl (rw other at now)
    | inl hit ↦ inr (c, here, sym ((text_beq_iff digest c.hash).0 hit), ground arith)
  ]
]

match_missing :
    (digest : List ℕ) (cs : List ApiKeyCredential) (matched : Option Identity)
    → mem digest (map (λ c. c.hash) cs) ≡ false
    → match_credentials digest cs matched ≡ matched
unfolding match_credentials mem
match_missing digest [] matched h = refl
match_missing digest (c ∷ cs) matched h =
    ground (
      arith,
      text_beq_iff c.hash digest,
      text_beq_iff digest c.hash,
      match_missing digest cs matched,
    )

match_complete :
    (digest : List ℕ) (cs : List ApiKeyCredential) (matched : Option Identity)
    (c : ApiKeyCredential)
    → In c cs
    → c.hash ≡ digest
    → distinct (map (λ c. c.hash) cs) ≡ true
    → match_credentials digest cs matched ≡ some c.identity
unfolding match_credentials distinct
match_complete digest [] matched c i e d = elim i [ ]
match_complete digest (c ∷ cs) matched _ here e d =
    ground (arith, text_beq_iff digest c.hash, match_missing digest cs (some c.identity))
match_complete digest (b ∷ cs) matched c (there i) e d =
    match_complete digest cs _ c i e (ground arith)

-- Whoever is accepted is the identity of a configured credential whose hash is the digest of the
-- key presented.
pub authenticate_sound :
    (sha256 : Text → List ℕ) (a : ApiKeyAuthenticator) (api_key : Text) {identity : Identity}
    → authenticate sha256 a api_key ≡ some identity
    → (c : ApiKeyCredential) × In c a.credentials
      × (c.hash ≡ sha256 api_key)
      × (c.identity ≡ identity)
unfolding authenticate
authenticate_sound sha256 a api_key {identity} e =
    elim (match_sound _ a.credentials none identity e) [ inl no_match ↦ cc | inr found ↦ found ]

-- Where no hash is configured twice, a key whose digest a credential holds is accepted as that
-- credential's identity, wherever it stands among the credentials.
pub authenticate_complete :
    (sha256 : Text → List ℕ) (a : ApiKeyAuthenticator) (api_key : Text) (c : ApiKeyCredential)
    → In c a.credentials
    → c.hash ≡ sha256 api_key
    → distinct (map (λ c. c.hash) a.credentials) ≡ true
    → authenticate sha256 a api_key ≡ some c.identity
unfolding authenticate
authenticate_complete sha256 a api_key c i e d =
    match_complete (sha256 api_key) a.credentials none c i e d
