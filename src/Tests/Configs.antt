-- ===== src/Tests/Configs.antt =====
-- A configuration, and what an accepted one gives.
use agent.Base.{
  ℕ, ◌<◌, ◌≡◌, ◌⊎◌, refl, true, false, none, some, List, [], ◌∷◌, eqb, length, map, all,
  if◌then◌else◌, ltb, ◌-◌,
}
use agent.Num.{pos, pos_part, ◌≤ℤ◌}
use agent.Text.{Text, text_eq, codes, trim_space, contains_any, byte_len, trim_prefix, to_lower}
use agent.Map.{Map, mem, distinct, has, lookup, insert}
use agent.Hex.{decode_hex}
use agent.Config.{Config, ApiKeyCredentialConfig}
use agent.Config.Validate.{
  Parsers, on_cycle, validate_server, validate_open_telemetry, validate_observability_stack,
  validate_user_rate_limit, validate_token_usage,
}
use agent.Config.ApiKeys.{validate_api_key_auth}
use agent.Config.Fallbacks.{collect_sources, validate_fallbacks, field}
use agent.Config.Walks.{Chain, Ends}
use agent.Config.Cycles.{validate_fallbacks-Ends}
use agent.Config.Whole.{validate}
use agent.Config.Loading.{Outer, load, default_config}
use agent.Config.Normalize.{normalize_fallbacks, add_targets, normalize_ai_config}
use agent.Candidates.{is_configured}
use agent.Handler.{new_handler}
use agent.Budget.{BudgetLimiter, new_budget_limiter, budget_for_identity}
use agent.Auth.{ApiKeyAuthenticator, new_api_key_authenticator, ready}
use agent.RateLimit.{RateLimiter}
use agent.App.Accepted.{validate-budgets}
use agent.App.Routes.{validate-targets}
use agent.App.Keys.{validate-authenticator}
use agent.App.Identity.{has_user}
use agent.Telemetry.{Sdk}
use agent.App.Pipeline.{new_gateway, runtime_or_new}
use agent.App.Start.{load-new_gateway}

abbrev a : Text
a = codes "a"

abbrev b : Text
b = codes "b"

abbrev two_models : Map Text Text
two_models = (a, codes "x") ∷ (b, codes "y") ∷ []

abbrev there_and_back : Map Text (List Text)
there_and_back = (a, b ∷ []) ∷ (b, a ∷ []) ∷ []

cycle_example :
    let r = validate_fallbacks there_and_back two_models in
    (r ≡ none) × ((m : Text) → Ends there_and_back m)
    ⊎ ((m : Text) × (r ≡ some (record { field = field; at = []; problem = on_cycle m }))
        × Chain there_and_back m m)
unfolding collect_sources trim_space lookup insert
cycle_example = validate_fallbacks-Ends two_models there_and_back refl

-- Parsers that read every address as that of a host and a port.
abbrev parsers : Parsers ℕ
parsers = record {
  split_host_port = λ s. some ([], codes "8080");
  atoi = λ s. some (pos 8080);
  parse_url = λ s. some (codes "http", codes "host");
  not_above_zero = λ n. eqb n 0;
}

abbrev key : ApiKeyCredentialConfig
key = record {
  id = codes "k1";
  key_hash = codes "00112233445566778899aabbccddeeff00112233445566778899aabbccddeeff";
  user_id = codes "ann";
  tenant_id = [];
  scopes = [];
}

-- The defaults, with a key, a token budget and a fallback.
abbrev configured : Config ℕ
configured =
    let base = default_config 1 in
    let auth = base.auth in
    let usage = base.token_usage in
    let ai = base.ai in
    record base {
      auth = record auth { enabled = true; keys = key ∷ [] };
      token_usage = record usage { enabled = true };
      ai = record ai { fallbacks = (codes "mock-a", codes " mock-b" ∷ []) ∷ [] };
    }

configured_valid : validate parsers configured ≡ none
unfolding validate default_config validate_server trim_space validate_open_telemetry
    validate_observability_stack validate_api_key_auth contains_any mem byte_len trim_prefix
    to_lower decode_hex validate_user_rate_limit validate_token_usage lookup insert
configured_valid = refl

abbrev configured_limiter : BudgetLimiter
configured_limiter = new_budget_limiter configured.token_usage

budget_example :
    (0 < configured_limiter.window)
    × (pos 1 ≤ℤ budget_for_identity configured_limiter (codes "ann"))
unfolding default_config
budget_example = validate-budgets parsers configured configured_valid refl (codes "ann")

target_example : is_configured (new_handler configured.ai none).routes (codes "mock-b") ≡ true
unfolding default_config new_handler normalize_fallbacks add_targets normalize_ai_config trim_space
    lookup insert mem
target_example =
    validate-targets parsers configured none configured_valid (codes "mock-a") (codes "mock-b") refl

authenticator_example :
    (m : ApiKeyAuthenticator) × (new_api_key_authenticator (λ h. h) configured.auth ≡ ready m)
    × (length m.credentials ≡ length configured.auth.keys)
    × (distinct (map (λ k. k.hash) m.credentials) ≡ true)
    × (all (λ k. has_user k.identity) m.credentials ≡ true)
unfolding default_config
authenticator_example = validate-authenticator parsers configured configured_valid refl (λ h. h)

-- No environment and no file.
abbrev bare : Outer ℕ
bare = record { getenv = λ name. []; read_file = λ path. none; decode = λ text cfg. none }

-- A bucket that counts down its tokens.
abbrev counting : RateLimiter ℕ
counting = record {
  Bucket = ℕ;
  new_bucket = λ rate burst. pos_part burst;
  allow = λ now b. if ltb 0 b then (true, b - 1) else (false, b);
  delay = λ now b. (some 1_500_000_000, b);
}

-- An SDK that makes everything, and an environment without variables.
abbrev sdk : Sdk
sdk = record { getenv = λ name. []; resource_made = true; exporter_made = λ options. true }

start_example : has (new_gateway counting (λ h. h) parsers sdk none (default_config 1)) ≡ true
unfolding load default_config validate validate_server trim_space validate_open_telemetry
    validate_observability_stack validate_api_key_auth validate_user_rate_limit validate_token_usage
    mem to_lower lookup insert runtime_or_new
start_example = load-new_gateway counting (λ h. h) parsers bare sdk none 1 [] refl
