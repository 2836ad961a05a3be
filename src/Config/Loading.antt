-- ===== src/Config/Loading.antt =====
-- Where a configuration comes from (internal/config/defaults.go, internal/config/loader.go and
-- internal/config/duration.go). The environment, the files and the decoding of JSON are parameters.
use agent.Base.{ℕ, ◌*◌, true, false, Option, none, some, [], ◌∷◌, if◌then◌else◌}
use agent.Num.{ℤ, pos}
use agent.Text.{Text, codes, is_empty}
use agent.Config.{SignalConfig, ModelBackendConfig, Config}
use agent.Config.Validate.{Parsers, ConfigError}
use agent.Config.Whole.{validate}

abbrev pub seconds : ℕ → ℤ
seconds n = pos (n * 1_000_000_000)

abbrev mock_backend : Text → Text → ModelBackendConfig
mock_backend name model = record {
  name = name;
  type = codes "mock";
  base_url = [];
  api_key = [];
  api_key_env = [];
  models = name ∷ model ∷ [];
}

abbrev pub enabled_signal : SignalConfig
enabled_signal = record { enabled = true; endpoint = [] }

-- `Default`; `one` is the number of requests per second.
unfoldable pub default_config : {F : Type 0} → F → Config F
default_config one = record {
  server = record {
    address = codes ":8080";
    read_header_timeout = seconds 5;
    shutdown_timeout = seconds 10;
  };
  observability = record {
    metrics_namespace = codes "gateway";
    tracing_enabled = true;
    open_telemetry = record {
      enabled = true;
      service_name = codes "telemetry-gateway";
      service_version = codes "dev";
      environment = [];
      endpoint = [];
      insecure = true;
      headers = [];
      export_timeout = seconds 10;
      traces = enabled_signal;
      logs = enabled_signal;
    };
    stack = record { enabled = false; services = []; dashboards = [] };
  };
  auth = record { enabled = false; header = codes "Authorization"; keys = [] };
  rate_limit = record {
    user = record {
      enabled = false;
      identity_header = codes "X-User-ID";
      requests_per_second = one;
      burst = pos 1;
    };
    concurrency = record { enabled = false; max_in_flight = pos 100 };
  };
  token_usage = record {
    enabled = false;
    identity_header = codes "X-User-ID";
    window = seconds 86_400;
    default_budget_tokens = pos 100_000;
    default_max_completion_tokens = pos 1024;
    user_budgets = [];
  };
  ai = record {
    request_timeout = seconds 30;
    first_token_timeout = seconds 30;
    circuit_breaker = record {
      enabled = true;
      failure_threshold = pos 3;
      open_timeout = seconds 30;
      half_open_max_requests = pos 1;
    };
    fallbacks = [];
    backends =
        mock_backend (codes "mock-a") (codes "gpt-4o-mini")
        ∷ mock_backend (codes "mock-b") (codes "gpt-4.1-mini")
        ∷ [];
  };
}

-- `json.Unmarshal` into a string and into an integer, and `time.ParseDuration`; `none` is an error.
pub record DurationJson : Type 0 where
  pub as_string : Text → Option Text
  pub as_int : Text → Option ℤ
  pub parse_duration : Text → Option ℤ

unfoldable pub unmarshal_duration : DurationJson → Text → Option ℤ
unmarshal_duration json text = elim (json.as_string text) [
  | some raw ↦ json.parse_duration raw
  | none ↦ json.as_int text
]

-- The environment, the files, and the decoder, which writes over a configuration.
pub record Outer (F : Type 0) : Type 0 where
  pub getenv : Text → Text
  pub read_file : Text → Option Text
  pub decode : Text → Config F → Option (Config F)

pub data Loaded (F : Type 0) : Type 0 where
  unreadable unparsable : Loaded F
  invalid : ConfigError → Loaded F
  loaded : Config F → Loaded F

module _ {F : Type 0} (p : Parsers F) (o : Outer F) where
  abbrev with_address : Text → Config F → Config F
  with_address value cfg =
      let server = cfg.server in
      if is_empty value then cfg else record cfg { server = record server { address = value } }

  unfoldable pub apply_env_overrides : Config F → Config F
  apply_env_overrides cfg =
      with_address (o.getenv (codes "GATEWAY_ADDR"))
        (with_address (o.getenv (codes "GATEWAY_ADDRESS")) cfg)

  -- `Load` once the file is decoded.
  unfoldable pub check_loaded : Config F → Loaded F
  unfolding apply_env_overrides validate
  check_loaded cfg₀ =
      let cfg = apply_env_overrides cfg₀ in
      elim (validate p cfg) [ some e ↦ invalid e | none ↦ loaded cfg ]

  -- `Load` of the file at a path that is given.
  unfoldable pub load_file : Text → Config F → Loaded F
  unfolding check_loaded
  load_file path cfg = elim (o.read_file path) [
    | none ↦ unreadable
    | some text ↦ elim (o.decode text cfg) [
      | none ↦ unparsable
      | some decoded ↦ check_loaded decoded
    ]
  ]

  unfoldable pub load : F → Text → Loaded F
  unfolding default_config load_file
  load one path₀ =
      let path = if is_empty path₀ then o.getenv (codes "GATEWAY_CONFIG") else path₀ in
      if is_empty path
      then check_loaded (default_config one)
      else load_file path (default_config one)
