-- ===== src/Telemetry.antt =====
-- What the telemetry exports, and where to (internal/telemetry/runtime.go,
-- internal/telemetry/exporters.go and internal/telemetry/propagator.go). The SDK and its exporters are
-- parameters: whether each can be made; so is the reading of a trace identifier.
pub mod Logger
pub mod Fanout
use agent.Base.{
  ℕ, ◌≡◌, refl, Bool, true, false, not, ◌&&◌, ◌||◌, Option, none, some, List, [], ◌∷◌, ◌++◌, arith,
  if◌then◌else◌, eqb,
}
use agent.Num.{ℤ}
use agent.Text.{Text, text_eq, codes, is_empty, trim_space, trim_right_by}
use agent.Map.{Map, insert, lookup-insert}
use agent.Config.{OpenTelemetryConfig, SignalConfig}
use agent.Proxy.{Header, get}
use agent.Tracing.Outbound.{set_header, trace_id_key, request_id_key}

abbrev pub is_slash : ℕ → Bool
is_slash c = eqb c b'/'

unfoldable pub signal_endpoint : Text → Text → Text → Text
signal_endpoint common_endpoint own_endpoint signal_path =
    let own = trim_space own_endpoint in
    let common = trim_right_by is_slash (trim_space common_endpoint) in
    if not (is_empty own) then own else if is_empty common then [] else common ++ signal_path

-- The loop over the headers, in the order in which `range` visits the map.
unfoldable pub clean_headers_onto : Map Text Text → Map Text Text → Map Text Text
clean_headers_onto [] result = result
clean_headers_onto ((key₀, value) ∷ headers) result =
    let key = trim_space key₀ in
    let skipped = clean_headers_onto headers result in
    let kept = clean_headers_onto headers (insert key (trim_space value) result) in
    if is_empty key then skipped else kept

unfoldable pub clean_headers : Map Text Text → Map Text Text
unfolding clean_headers_onto
clean_headers headers = clean_headers_onto headers []

unfoldable pub should_export : (Text → Text) → OpenTelemetryConfig → SignalConfig → Text → Bool
should_export getenv cfg signal signal_env =
    cfg.enabled
    && signal.enabled
    && (not (is_empty (trim_space cfg.endpoint))
        || not (is_empty (trim_space signal.endpoint))
        || not (is_empty (getenv (codes "OTEL_EXPORTER_OTLP_ENDPOINT")))
        || not
            (is_empty (getenv (codes "OTEL_EXPORTER_OTLP_" ++ (signal_env ++ codes "_ENDPOINT")))))

-- The options of an OTLP exporter.
pub data ExporterOption : Type 0 where
  with_timeout : ℤ → ExporterOption
  with_endpoint_url : Text → ExporterOption
  with_insecure : ExporterOption
  with_headers : Map Text Text → ExporterOption

abbrev pub when_some : Bool → ExporterOption → List ExporterOption
when_some true o = o ∷ []
when_some false o = []

abbrev pub no_headers : Map Text Text → Bool
no_headers [] = true
no_headers (h ∷ hs) = false

abbrev pub exporter_options : OpenTelemetryConfig → SignalConfig → Text → List ExporterOption
exporter_options cfg signal path =
    let endpoint = signal_endpoint cfg.endpoint signal.endpoint path in
    let headers = clean_headers cfg.headers in
    with_timeout cfg.export_timeout
    ∷ (when_some (not (is_empty endpoint)) (with_endpoint_url endpoint)
        ++ when_some cfg.insecure with_insecure
        ++ when_some (not (no_headers headers)) (with_headers headers))

unfoldable pub trace_exporter_options : OpenTelemetryConfig → List ExporterOption
unfolding signal_endpoint clean_headers
trace_exporter_options cfg = exporter_options cfg cfg.traces (codes "/v1/traces")

unfoldable pub log_exporter_options : OpenTelemetryConfig → List ExporterOption
unfolding signal_endpoint clean_headers
log_exporter_options cfg = exporter_options cfg cfg.logs (codes "/v1/logs")

-- A provider: the options of its exporter if it exports.
pub record Provider : Type 0 where
  pub exporter : Option (List ExporterOption)

-- `none` is an error of the exporter's construction.
abbrev pub provider_with : Bool → Bool → List ExporterOption → Option Provider
provider_with false made options = some (record { exporter = none })
provider_with true true options = some (record { exporter = some options })
provider_with true false options = none

-- What the SDK and the environment do: whether the resource and an exporter can be made.
pub record Sdk : Type 0 where
  pub getenv : Text → Text
  pub resource_made : Bool
  pub exporter_made : List ExporterOption → Bool

module _ (sdk : Sdk) where
  unfoldable pub new_tracer_provider : OpenTelemetryConfig → Option Provider
  unfolding should_export trace_exporter_options
  new_tracer_provider cfg =
      let options = trace_exporter_options cfg in
      provider_with (should_export sdk.getenv cfg cfg.traces (codes "TRACES"))
        (sdk.exporter_made options) options

  unfoldable pub new_logger_provider : OpenTelemetryConfig → Option Provider
  unfolding should_export log_exporter_options
  new_logger_provider cfg =
      let options = log_exporter_options cfg in
      provider_with (should_export sdk.getenv cfg cfg.logs (codes "LOGS"))
        (sdk.exporter_made options) options

-- `Runtime`, without its resource and its propagator.
pub record Runtime : Type 0 where
  pub cfg : OpenTelemetryConfig
  pub tracer_provider : Option Provider
  pub logger_provider : Option Provider

-- A provider of a signal, if the signal is enabled: `none` is an error.
abbrev pub enabled_provider : Bool → Option Provider → Option (Option Provider)
enabled_provider false p = some none
enabled_provider true none = none
enabled_provider true (some p) = some (some p)

abbrev pub runtime_of :
    OpenTelemetryConfig → Option (Option Provider) → Option (Option Provider) → Option Runtime
runtime_of cfg none logs = none
runtime_of cfg (some traces) none = none
runtime_of cfg (some traces) (some logs) =
    some (record { cfg = cfg; tracer_provider = traces; logger_provider = logs })

unfoldable pub new_runtime : Sdk → OpenTelemetryConfig → Option Runtime
unfolding new_tracer_provider new_logger_provider
new_runtime sdk cfg =
    let made =
      runtime_of cfg (enabled_provider cfg.traces.enabled (new_tracer_provider sdk cfg))
        (enabled_provider cfg.logs.enabled (new_logger_provider sdk cfg)) in
    if not cfg.enabled
    then some (record { cfg = cfg; tracer_provider = none; logger_provider = none })
    else if sdk.resource_made
    then made
    else none

abbrev pub has_provider : Option Provider → Bool
has_provider none = false
has_provider (some p) = true

-- `r` is `none` for a nil `*Runtime`.
unfoldable pub traces_enabled : Option Runtime → Bool
traces_enabled none = false
traces_enabled (some r) = r.cfg.enabled && r.cfg.traces.enabled && has_provider r.tracer_provider

unfoldable pub logs_enabled : Option Runtime → Bool
logs_enabled none = false
logs_enabled (some r) = r.cfg.enabled && r.cfg.logs.enabled && has_provider r.logger_provider

-- The calls of `Shutdown` on the two providers, and whether any of them fails.
unfoldable pub shutdown : (Provider → Bool) → Option Runtime → Bool
shutdown fails none = false
shutdown fails (some r) =
    let failed : Option Provider → Bool = λ o. elim o [ none ↦ false | some p ↦ fails p ] in
    failed r.logger_provider || failed r.tracer_provider

-- `legacyTraceIDPropagator.Inject`, of the identifier of the valid span of the context.
unfoldable pub legacy_inject : Option Text → Header → Header
legacy_inject none h = h
legacy_inject (some trace_id) h =
    set_header request_id_key trace_id (set_header trace_id_key trace_id h)

-- `legacyTraceIDPropagator.Extract`: the identifier of the span of the context afterwards.
-- `trace_id_from_hex` reads and prints an identifier, `none` for an error; `random` is the span
-- identifier, `none` if none can be read.
unfoldable pub legacy_extract :
    (Text → Option Text) → Option Text → Option Text → Header → Option Text
legacy_extract trace_id_from_hex random (some trace_id) h = some trace_id
legacy_extract trace_id_from_hex random none h =
    let own = get trace_id_key h in
    let value = if is_empty own then get request_id_key h else own in
    elim (trace_id_from_hex value) [
      | none ↦ none
      | some trace_id ↦ elim random [ none ↦ none | some span_id ↦ some trace_id ]
    ]

-- A trace passes through the plain headers: what one gateway's propagator injects for a valid span
-- is extracted by the next one, which has no span yet, as the same trace, provided that the trace's
-- identifier is read back as itself and a span identifier can be made.
pub legacy_extract-inject :
    (trace_id_from_hex : Text → Option Text) (trace_id span_id : Text) (h : Header)
    → trace_id_from_hex trace_id ≡ some trace_id
    → is_empty trace_id ≡ false
    → legacy_extract trace_id_from_hex (some span_id) none (legacy_inject (some trace_id) h)
      ≡ some trace_id
unfolding legacy_extract legacy_inject
legacy_extract-inject read trace_id span_id h same given =
    let id = trace_id ∷ [] in
    let below = lookup-insert trace_id_key request_id_key id (insert trace_id_key id h) in
    let own = lookup-insert trace_id_key trace_id_key id h in
    let named : get trace_id_key (legacy_inject (some trace_id) h) ≡ trace_id =
      ground (arith, below, own) in
    rw (named, given, same, legacy_extract) refl

-- The signals are as configured: if the runtime can be made, it has traces exactly if they and the
-- telemetry are enabled, and likewise logs.
pub new_runtime-enabled :
    (sdk : Sdk) (cfg : OpenTelemetryConfig) {r : Runtime}
    → new_runtime sdk cfg ≡ some r
    → (traces_enabled (some r) ≡ (cfg.enabled && cfg.traces.enabled))
      × (logs_enabled (some r) ≡ (cfg.enabled && cfg.logs.enabled))
unfolding new_runtime traces_enabled logs_enabled
new_runtime-enabled sdk cfg {r} e = ground (arith, e)
