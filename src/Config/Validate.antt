-- ===== src/Config/Validate.antt =====
-- The checks of a configuration (internal/config/validate.go and internal/config/auth.go). A check
-- returns the first error in the order of the code, `none` for nil.
use agent.Base.{
  ℕ, suc, Bool, true, false, not, ◌&&◌, ◌||◌, Option, none, some, List, [], ◌∷◌, eqb, if◌then◌else◌,
  length,
}
use agent.Num.{ℤ, pos, leb_ℤ, ltb_ℤ}
use agent.Text.{Text, text_eq, codes, is_empty, trim_space}
use agent.Map.{◌==◌, Map}
use agent.Config.{
  ServerConfig, OpenTelemetryConfig, ServiceConfig, DashboardConfig, ObservabilityStack,
  UserRateLimitConfig, TokenUsageConfig, CircuitBreakerConfig,
}

-- What is wrong with a field.
pub data Problem : Type 0 where
  empty malformed not_positive negative too_few repeated unsupported not_configured to_itself :
      Problem
  on_cycle : Text → Problem

-- An error: the field, the positions in the lists on the way to it, and the problem.
pub record ConfigError : Type 0 where
  pub field : Text
  pub at : List ℕ
  pub problem : Problem

-- `net.SplitHostPort`, `strconv.Atoi`, `url.Parse` (scheme and host), each `none` for an error, and
-- whether a floating-point number is at most zero.
pub record Parsers (F : Type 0) : Type 0 where
  pub split_host_port : Text → Option (Text × Text)
  pub atoi : Text → Option ℤ
  pub parse_url : Text → Option (Text × Text)
  pub not_above_zero : F → Bool

abbrev pub Check : Type 0
Check = Option ConfigError

abbrev pub wrong : Bool → Text → List ℕ → Problem → Check
wrong bad field at problem =
    if bad then some (record { field = field; at = at; problem = problem }) else none

-- The first error of several checks.
abbrev pub first_error : List Check → Check
first_error [] = none
first_error (none ∷ checks) = first_error checks
first_error (some e ∷ checks) = some e

-- The checks under an `if`.
abbrev pub when : Bool → Check → Check
when true c = c
when false c = none

abbrev pub is_blank : Text → Bool
is_blank s = is_empty (trim_space s)

abbrev pub is_unset : ℤ → Bool
is_unset n = leb_ℤ n (pos 0)

abbrev pub is_port : Option ℤ → Bool
is_port none = false
is_port (some n) = not (is_unset n) && leb_ℤ n (pos 65535)

abbrev pub blank : Text → Text → Check
blank field value = wrong (is_blank value) field [] empty

abbrev pub unset : Text → ℤ → Check
unset field value = wrong (is_unset value) field [] not_positive

-- An absolute URL of HTTP or HTTPS, as parsed.
unfoldable pub check_url : Text → List ℕ → Option (Text × Text) → Check
check_url field at none = some (record { field = field; at = at; problem = malformed })
check_url field at (some (scheme, host)) = first_error (
    wrong (is_empty scheme || is_empty host) field at malformed
    ∷ wrong (not ((scheme == codes "http") || (scheme == codes "https"))) field at unsupported
    ∷ [])

module _ {F : Type 0} (p : Parsers F) where
  unfoldable pub validate_address : Text → Check
  validate_address address =
      let field = codes "server.address" in
      let port : Check = elim (p.split_host_port address) [
        | none ↦ some (record { field = field; at = []; problem = malformed })
        | some (host, number) ↦ wrong (not (is_port (p.atoi number))) field [] malformed
      ] in
      first_error (blank field address ∷ port ∷ [])

  unfoldable pub validate_server : ServerConfig → Check
  unfolding validate_address
  validate_server cfg = first_error (
      validate_address cfg.address
      ∷ unset (codes "server.read_header_timeout") cfg.read_header_timeout
      ∷ unset (codes "server.shutdown_timeout") cfg.shutdown_timeout
      ∷ [])

  unfoldable pub validate_otlp_endpoint : Text → List ℕ → Text → Check
  unfolding check_url
  validate_otlp_endpoint field at value =
      let url = trim_space value in
      if is_empty url then none else check_url field at (p.parse_url url)

  unfoldable pub check_headers : Map Text Text → Check
  check_headers [] = none
  check_headers ((key, value) ∷ headers) = first_error (
      wrong (is_blank key) (codes "observability.opentelemetry.headers") [] empty
      ∷ check_headers headers
      ∷ [])

  unfoldable pub validate_open_telemetry : OpenTelemetryConfig → Check
  unfolding validate_otlp_endpoint check_headers
  validate_open_telemetry cfg = when cfg.enabled (
      first_error (
        blank (codes "observability.opentelemetry.service_name") cfg.service_name
        ∷ unset (codes "observability.opentelemetry.export_timeout") cfg.export_timeout
        ∷ validate_otlp_endpoint (codes "observability.opentelemetry.endpoint") [] cfg.endpoint
        ∷ validate_otlp_endpoint (codes "observability.opentelemetry.traces.endpoint") []
            cfg.traces.endpoint
        ∷ validate_otlp_endpoint (codes "observability.opentelemetry.logs.endpoint") []
            cfg.logs.endpoint
        ∷ check_headers cfg.headers
        ∷ []))

  -- The loop over the services, from an index on.
  unfoldable pub check_services : ℕ → List ServiceConfig → Check
  unfolding validate_otlp_endpoint
  check_services i [] = none
  check_services i (s ∷ services) =
      let at = i ∷ [] in
      first_error (
        wrong (is_blank s.name) (codes "observability.stack.services.name") at empty
        ∷ wrong (is_blank s.kind) (codes "observability.stack.services.kind") at empty
        ∷ validate_otlp_endpoint (codes "observability.stack.services.public_url") at s.public_url
        ∷ validate_otlp_endpoint (codes "observability.stack.services.health_url") at s.health_url
        ∷ wrong (is_blank s.public_url && is_blank s.health_url)
            (codes "observability.stack.services") at empty
        ∷ check_services (suc i) services
        ∷ [])

  unfoldable pub check_dashboards : ℕ → List DashboardConfig → Check
  unfolding validate_otlp_endpoint
  check_dashboards i [] = none
  check_dashboards i (d ∷ dashboards) =
      let at = i ∷ [] in
      first_error (
        wrong (is_blank d.name) (codes "observability.stack.dashboards.name") at empty
        ∷ validate_otlp_endpoint (codes "observability.stack.dashboards.url") at d.url
        ∷ validate_otlp_endpoint (codes "observability.stack.dashboards.embed_url") at d.embed_url
        ∷ wrong (is_blank d.url && is_blank d.embed_url) (codes "observability.stack.dashboards") at
            empty
        ∷ check_dashboards (suc i) dashboards
        ∷ [])

  unfoldable pub validate_observability_stack : ObservabilityStack → Check
  unfolding check_services check_dashboards
  validate_observability_stack cfg = when cfg.enabled (
      first_error (
        wrong (eqb (length cfg.services) 0 && eqb (length cfg.dashboards) 0)
          (codes "observability.stack") [] too_few
        ∷ check_services 0 cfg.services
        ∷ check_dashboards 0 cfg.dashboards
        ∷ []))

  unfoldable pub validate_user_rate_limit : UserRateLimitConfig F → Check
  validate_user_rate_limit cfg = when cfg.enabled (
      first_error (
        blank (codes "rate_limit.user.identity_header") cfg.identity_header
        ∷ wrong (p.not_above_zero cfg.requests_per_second)
            (codes "rate_limit.user.requests_per_second") [] not_positive
        ∷ unset (codes "rate_limit.user.burst") cfg.burst
        ∷ []))

unfoldable pub check_user_budgets : Map Text ℤ → Check
check_user_budgets [] = none
check_user_budgets ((identity, budget) ∷ budgets) = first_error (
    wrong (is_blank identity) (codes "token_usage.user_budgets") [] empty
    ∷ wrong (is_unset budget) (codes "token_usage.user_budgets") [] not_positive
    ∷ check_user_budgets budgets
    ∷ [])

unfoldable pub validate_token_usage : TokenUsageConfig → Check
unfolding check_user_budgets
validate_token_usage cfg = when cfg.enabled (
    first_error (
      blank (codes "token_usage.identity_header") cfg.identity_header
      ∷ unset (codes "token_usage.window") cfg.window
      ∷ unset (codes "token_usage.default_budget_tokens") cfg.default_budget_tokens
      ∷ wrong (ltb_ℤ cfg.default_max_completion_tokens (pos 0))
          (codes "token_usage.default_max_completion_tokens") [] negative
      ∷ check_user_budgets cfg.user_budgets
      ∷ []))

unfoldable pub validate_circuit_breaker : CircuitBreakerConfig → Check
validate_circuit_breaker cfg = first_error (
    unset (codes "ai.circuit_breaker.failure_threshold") cfg.failure_threshold
    ∷ unset (codes "ai.circuit_breaker.open_timeout") cfg.open_timeout
    ∷ unset (codes "ai.circuit_breaker.half_open_max_requests") cfg.half_open_max_requests
    ∷ [])
