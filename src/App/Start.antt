-- ===== src/App/Start.antt =====
-- The start of the gateway (internal/config/loader.go before `New` of internal/app/app.go).
use agent.Base.{
  ◌≡◌, subst, refl, true, Option, none, some, [], arith, Bool-cases, inl, inr, if◌then◌else◌,
}
use agent.Text.{Text, is_empty, codes}
use agent.Map.{has}
use agent.Config.{Config}
use agent.Config.Validate.{Parsers}
use agent.Config.Whole.{validate}
use agent.Config.Loading.{
  Outer, Loaded, unreadable, unparsable, invalid, loaded, apply_env_overrides, check_loaded,
  load_file, load, default_config,
}
use agent.Auth.{ApiKeyAuthenticator, new_api_key_authenticator}
use agent.RateLimit.{RateLimiter}
use agent.Handler.{Handler, new_handler}
use agent.Telemetry.{Runtime, Sdk}
use agent.App.Pipeline.{
  new_gateway, authenticator_of, gateway_with, app_with, runtime_or_new, Gateway,
}
use agent.App.Keys.{validate-authenticator}

-- What is loaded is valid.
abbrev IsAccepted : {F : Type 0} → Parsers F → Loaded F → Type 0
IsAccepted p unreadable = Unit
IsAccepted p unparsable = Unit
IsAccepted p (invalid e) = Unit
IsAccepted p (loaded c) = validate p c ≡ none

module _ {F : Type 0} (p : Parsers F) (o : Outer F) where
  check_loaded-IsAccepted : (c : Config F) → IsAccepted p (check_loaded p o c)
  unfolding check_loaded
  check_loaded-IsAccepted c =
      let cfg = apply_env_overrides p o c in
      elim (validate p cfg)
          as (λ r.
            validate p cfg ≡ r → IsAccepted p (elim r [ some e ↦ invalid e | none ↦ loaded cfg ])) [
              | some e ↦ λ h. tt
              | none ↦ λ h. h
            ]
        refl

  decoded_file : Option (Config F) → Loaded F
  decoded_file none = unparsable
  decoded_file (some decoded) = check_loaded p o decoded

  decoded_file-IsAccepted : (r : Option (Config F)) → IsAccepted p (decoded_file r)
  unfolding decoded_file
  decoded_file-IsAccepted none = tt
  decoded_file-IsAccepted (some decoded) = check_loaded-IsAccepted decoded

  load_file-IsAccepted : (path : Text) (c : Config F) → IsAccepted p (load_file p o path c)
  unfolding load_file decoded_file
  load_file-IsAccepted path c =
      elim (o.read_file path)
        as (λ r.
          IsAccepted p
            (elim r [ none ↦ unreadable | some text ↦ decoded_file (o.decode text c) ])) [
              | none ↦ tt
              | some text ↦ decoded_file-IsAccepted (o.decode text c)
            ]

  load-IsAccepted : (one : F) (path : Text) → IsAccepted p (load p o one path)
  unfolding load
  load-IsAccepted one path₀ =
      let path = if is_empty path₀ then o.getenv (codes "GATEWAY_CONFIG") else path₀ in
      elim (Bool-cases (is_empty path)) [
        | inl no_file ↦ rw (no_file) (check_loaded-IsAccepted (default_config one))
        | inr file ↦ rw (file) (load_file-IsAccepted path (default_config one))
      ]

module _ {F : Type 0} (rate : RateLimiter F) (canonical : Text → Text) (p : Parsers F) (sdk : Sdk)
    (given : Option Runtime) (c : Config F) (ok : validate p c ≡ none) where
  -- An authenticator can be made wherever one is asked for.
  made_authenticator :
      has (authenticator_of c.auth.enabled (new_api_key_authenticator canonical c.auth)) ≡ true
  made_authenticator = elim (Bool-cases c.auth.enabled) [
    | inr off ↦ rw (off) refl
    | inl on ↦
        let (a, ready_made, one_each, apart, named) = validate-authenticator p c ok on canonical in
        rw (ready_made, on) refl
  ]

  gateway_with-has :
      (m : Option (Option ApiKeyAuthenticator))
      → has m ≡ true
      → has (gateway_with rate canonical c m) ≡ true
  gateway_with-has none h = h
  gateway_with-has (some a) h = refl

  app_with-has :
      (r : Option Runtime) (handler : Handler) (route : Option (Gateway F rate.Bucket))
      → has route ≡ true
      → has (app_with rate canonical r handler route) ≡ has r
  app_with-has none handler route h = refl
  app_with-has (some r) handler none h = absurd (ground arith)
  app_with-has (some r) handler (some route) h = refl

  new_gateway-has :
      has (new_gateway rate canonical p sdk given c)
      ≡ has (runtime_or_new sdk given c.observability.open_telemetry)
  unfolding new_gateway
  new_gateway-has = rw (ok) (
      app_with-has (runtime_or_new sdk given c.observability.open_telemetry)
        (new_handler c.ai (some [])) _ (gateway_with-has _ made_authenticator))

-- Telemetry is all that can keep a loaded configuration from starting a gateway: whatever the file and
-- the environment say, from what `Load` returns without an error `New` makes a gateway, without an
-- error, exactly if it is given the runtime of a telemetry or can make one. Neither the configuration
-- nor its API keys are refused any more.
pub load-new_gateway :
    {F : Type 0} (rate : RateLimiter F) (canonical : Text → Text) (p : Parsers F) (o : Outer F)
    (sdk : Sdk) (given : Option Runtime) (one : F) (path : Text) {c : Config F}
    → load p o one path ≡ loaded c
    → has (new_gateway rate canonical p sdk given c)
      ≡ has (runtime_or_new sdk given c.observability.open_telemetry)
load-new_gateway rate canonical p o sdk given one path {c} e =
    new_gateway-has rate canonical p sdk given c
      (subst (IsAccepted p) e (load-IsAccepted p o one path))
