-- ===== src/Config/Whole.antt =====
-- The check of a whole configuration (`Validate` of internal/config/validate.go).
use agent.Base.{◌&&◌, some, List, [], ◌∷◌, ltb, length}
use agent.Text.{Text, codes}
use agent.Map.{Map}
use agent.Config.{Config, AiConfig, ConcurrencyLimitConfig}
use agent.Config.Validate.{
  too_few, not_positive, Check, wrong, first_error, blank, unset, is_unset, Parsers,
  validate_server, validate_open_telemetry, validate_observability_stack, validate_user_rate_limit,
  validate_token_usage, validate_circuit_breaker,
}
use agent.Config.Models.{Checked, fails, passes, Seen, check_backends}
use agent.Config.Fallbacks.{validate_fallbacks}
use agent.Config.ApiKeys.{validate_api_key_auth}

abbrev pub nothing_seen : Seen
nothing_seen = record { names = []; models = [] }

-- The fallbacks are checked against the models that the backends' loop has left.
unfoldable pub check_routes : Map Text (List Text) → Checked Seen → Check
unfolding validate_fallbacks
check_routes fallbacks (fails e) = some e
check_routes fallbacks (passes seen) = validate_fallbacks fallbacks seen.models

unfoldable pub validate_concurrency : ConcurrencyLimitConfig → Check
validate_concurrency cfg =
    wrong (cfg.enabled && is_unset cfg.max_in_flight) (codes "rate_limit.concurrency.max_in_flight")
      [] not_positive

module _ {F : Type 0} (p : Parsers F) where
  unfoldable pub validate_ai : AiConfig → Check
  unfolding validate_circuit_breaker check_backends check_routes
  validate_ai cfg = first_error (
      unset (codes "ai.request_timeout") cfg.request_timeout
      ∷ unset (codes "ai.first_token_timeout") cfg.first_token_timeout
      ∷ validate_circuit_breaker cfg.circuit_breaker
      ∷ wrong (ltb (length cfg.backends) 2) (codes "ai.backends") [] too_few
      ∷ check_routes cfg.fallbacks (check_backends p 0 cfg.backends nothing_seen)
      ∷ [])

  unfoldable pub validate : Config F → Check
  unfolding validate_ai validate_concurrency
  validate c = first_error (
      validate_server p c.server
      ∷ blank (codes "observability.metrics_namespace") c.observability.metrics_namespace
      ∷ validate_open_telemetry p c.observability.open_telemetry
      ∷ validate_observability_stack p c.observability.stack
      ∷ validate_api_key_auth c.auth
      ∷ validate_user_rate_limit p c.rate_limit.user
      ∷ validate_concurrency c.rate_limit.concurrency
      ∷ validate_token_usage c.token_usage
      ∷ validate_ai c.ai
      ∷ [])
