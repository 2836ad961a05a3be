-- ===== src/Config.antt =====
-- The configuration of internal/config/config.go: the fields that the gateway reads after loading.
-- A `Duration` is its nanoseconds, a floating-point number a value of the parameter `F`.
pub mod Normalize
pub mod Validate
pub mod Models
pub mod Fallbacks
pub mod ApiKeys
pub mod Whole
pub mod Walks
pub mod Cycles
pub mod Loading
use agent.Base.{Bool, List}
use agent.Num.{ℤ}
use agent.Text.{Text}
use agent.Map.{Map}

pub record CircuitBreakerConfig : Type 0 where
  pub enabled : Bool
  pub failure_threshold : ℤ
  pub open_timeout : ℤ
  pub half_open_max_requests : ℤ

pub record ModelBackendConfig : Type 0 where
  pub name : Text
  pub type : Text
  pub base_url : Text
  pub api_key : Text
  pub api_key_env : Text
  pub models : List Text

pub record AiConfig : Type 0 where
  pub request_timeout : ℤ
  pub first_token_timeout : ℤ
  pub circuit_breaker : CircuitBreakerConfig
  pub fallbacks : Map Text (List Text)
  pub backends : List ModelBackendConfig

pub record TokenUsageConfig : Type 0 where
  pub enabled : Bool
  pub identity_header : Text
  pub window : ℤ
  pub default_budget_tokens : ℤ
  pub default_max_completion_tokens : ℤ
  pub user_budgets : Map Text ℤ

pub record UserRateLimitConfig (F : Type 0) : Type 0 where
  pub enabled : Bool
  pub identity_header : Text
  pub requests_per_second : F
  pub burst : ℤ

pub record ConcurrencyLimitConfig : Type 0 where
  pub enabled : Bool
  pub max_in_flight : ℤ

pub record ApiKeyCredentialConfig : Type 0 where
  pub id : Text
  pub key_hash : Text
  pub user_id : Text
  pub tenant_id : Text
  pub scopes : List Text

pub record ApiKeyAuthConfig : Type 0 where
  pub enabled : Bool
  pub header : Text
  pub keys : List ApiKeyCredentialConfig

pub record ServerConfig : Type 0 where
  pub address : Text
  pub read_header_timeout : ℤ
  pub shutdown_timeout : ℤ

pub record SignalConfig : Type 0 where
  pub enabled : Bool
  pub endpoint : Text

pub record OpenTelemetryConfig : Type 0 where
  pub enabled : Bool
  pub service_name : Text
  pub service_version : Text
  pub environment : Text
  pub endpoint : Text
  pub insecure : Bool
  pub headers : Map Text Text
  pub export_timeout : ℤ
  pub traces : SignalConfig
  pub logs : SignalConfig

pub record ServiceConfig : Type 0 where
  pub name : Text
  pub kind : Text
  pub public_url : Text
  pub health_url : Text

pub record DashboardConfig : Type 0 where
  pub name : Text
  pub url : Text
  pub embed_url : Text

pub record ObservabilityStack : Type 0 where
  pub enabled : Bool
  pub services : List ServiceConfig
  pub dashboards : List DashboardConfig

-- `tracing_enabled` is the one field of `TracingConfig`.
pub record ObservabilityConfig : Type 0 where
  pub metrics_namespace : Text
  pub tracing_enabled : Bool
  pub open_telemetry : OpenTelemetryConfig
  pub stack : ObservabilityStack

pub record RateLimitConfig (F : Type 0) : Type 0 where
  pub user : UserRateLimitConfig F
  pub concurrency : ConcurrencyLimitConfig

-- `auth` is the one field of `AuthConfig`.
pub record Config (F : Type 0) : Type 0 where
  pub server : ServerConfig
  pub observability : ObservabilityConfig
  pub auth : ApiKeyAuthConfig
  pub rate_limit : RateLimitConfig F
  pub token_usage : TokenUsageConfig
  pub ai : AiConfig
