-- ===== src/Config/Normalize.antt =====
-- The defaults and the trimming that internal/llm/fallback.go applies to the configuration.
use agent.Base.{◌≡◌, Bool, List, [], ◌∷◌, ◌++◌, if◌then◌else◌, arith}
use agent.Num.{ℤ, pos, leb_ℤ, ◌≤ℤ◌}
use agent.Text.{Text, text_eq, trim_space, is_empty}
use agent.Map.{Map, mem, lookup, insert, or_nil}
use agent.Config.{AiConfig}

abbrev is_unset : ℤ → Bool
is_unset a = leb_ℤ a (pos 0)

unfoldable pub normalize_ai_config : AiConfig → AiConfig
normalize_ai_config cfg =
    let request_timeout' =
      if is_unset cfg.request_timeout then pos 30_000_000_000 else cfg.request_timeout in
    let breaker = cfg.circuit_breaker in
    record cfg {
      request_timeout = request_timeout';
      first_token_timeout =
          if is_unset cfg.first_token_timeout then request_timeout' else cfg.first_token_timeout;
      circuit_breaker = record breaker {
        failure_threshold =
            if is_unset breaker.failure_threshold then pos 3 else breaker.failure_threshold;
        open_timeout =
            if is_unset breaker.open_timeout then pos 30_000_000_000 else breaker.open_timeout;
        half_open_max_requests =
            if is_unset breaker.half_open_max_requests
            then pos 1
            else breaker.half_open_max_requests;
      };
    }

-- The targets of one source: trimmed, with the empty and the repeated ones left out.
unfoldable pub add_targets :
    Text → List Text → List Text → Map Text (List Text) → Map Text (List Text)
add_targets source seen [] normalized = normalized
add_targets source seen (target ∷ targets) normalized =
    let t = trim_space target in
    let skipped = add_targets source seen targets normalized in
    let added =
      add_targets source (t ∷ seen) targets
        (insert source (or_nil (lookup source normalized) ++ t ∷ []) normalized) in
    if is_empty t then skipped else if mem t seen then skipped else added

unfoldable pub add_sources : Map Text (List Text) → Map Text (List Text) → Map Text (List Text)
unfolding add_targets
add_sources [] normalized = normalized
add_sources ((source, targets) ∷ rest) normalized =
    let s = trim_space source in
    add_sources rest (if is_empty s then normalized else add_targets s [] targets normalized)

-- `fallbacks` is given in the order in which `range` visits the map.
unfoldable pub normalize_fallbacks : Map Text (List Text) → Map Text (List Text)
unfolding add_sources
normalize_fallbacks fallbacks = add_sources fallbacks []

-- A configuration that the gateway can run with, made from one: what is configured above zero is
-- kept, and the rest has its default.
pub record IsNormalized (cfg cfg' : AiConfig) : Type 0 where
  pub request_pos : pos 1 ≤ℤ cfg'.request_timeout
  pub first_token_pos : pos 1 ≤ℤ cfg'.first_token_timeout
  pub threshold_pos : pos 1 ≤ℤ cfg'.circuit_breaker.failure_threshold
  pub open_pos : pos 1 ≤ℤ cfg'.circuit_breaker.open_timeout
  pub probes_pos : pos 1 ≤ℤ cfg'.circuit_breaker.half_open_max_requests
  pub enabled_kept : cfg'.circuit_breaker.enabled ≡ cfg.circuit_breaker.enabled
  pub first_token_inherits : cfg'.first_token_timeout ≡ (
      if leb_ℤ (pos 1) cfg.first_token_timeout
      then cfg.first_token_timeout
      else cfg'.request_timeout)
  pub threshold_default : cfg'.circuit_breaker.failure_threshold ≡ (
      if leb_ℤ (pos 1) cfg.circuit_breaker.failure_threshold
      then cfg.circuit_breaker.failure_threshold
      else pos 3)
  pub probes_default : cfg'.circuit_breaker.half_open_max_requests ≡ (
      if leb_ℤ (pos 1) cfg.circuit_breaker.half_open_max_requests
      then cfg.circuit_breaker.half_open_max_requests
      else pos 1)

-- Whatever is configured, the timeouts are at least a nanosecond and the breaker's thresholds at
-- least one; the failure threshold and the number of probes that are configured above zero are
-- kept, and else are 3 and 1; and a first-token timeout that is not above zero is the request's.
pub normalize_ai_config-IsNormalized : (cfg : AiConfig) → IsNormalized cfg (normalize_ai_config cfg)
unfolding normalize_ai_config
normalize_ai_config-IsNormalized cfg = ground arith
