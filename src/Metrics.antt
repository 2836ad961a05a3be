-- ===== src/Metrics.antt =====
-- The metrics (internal/observability/metrics.go and internal/observability/request_metrics.go): what
-- is registered, and what each observation asks of Prometheus. The calls on its vectors are listed
-- in order; a duration is its nanoseconds, and floating-point numbers are a parameter.
pub mod Counts
pub mod Names
use agent.Base.{
  ℕ, ◌+◌, ◌*◌, ◌%◌, ◌^◌, ◌≡◌, Bool, true, false, Option, none, some, List, [], ◌∷◌, ◌++◌,
  if◌then◌else◌, eqb,
}
use agent.Num.{ℤ, pos, ltb_ℤ, pos_part}
use agent.Text.{Text, text_eq, codes, is_empty, trim_space}
use agent.Map.{◌==◌, Map, lookup, insert}

abbrev pub request_result_success : Text
request_result_success = codes "success"

abbrev pub request_result_failure : Text
request_result_failure = codes "failure"

-- The counts are `uint64`.
pub record RequestMetricCount : Type 0 where
  pub success : ℕ
  pub total : ℕ

abbrev pub RequestMetricStats : Type 0
RequestMetricStats = Map Text RequestMetricCount

-- A missing key reads as the zero value.
abbrev pub or_zero : Option RequestMetricCount → RequestMetricCount
or_zero none = record { success = 0; total = 0 }
or_zero (some c) = c

abbrev pub increment : ℕ → ℕ
increment n = (n + 1) % 2 ^ 64

abbrev pub counted : Text → RequestMetricCount → RequestMetricCount
counted result c = record {
  success = if result == request_result_success then increment c.success else c.success;
  total = increment c.total;
}

-- The vectors of `Metrics`.
pub data Vec : Type 0 where
  requests_total request_duration request_success_rate first_token_duration fallbacks_total : Vec
  upstream_errors_total circuit_breaker_state token_usage_total token_budget_remaining : Vec
  token_budget_rejected_total : Vec

-- A gauge function, or a vector.
pub data Collector : Type 0 where
  vec : Vec → Collector
  up ready : Collector

-- The options of a metric, without its help and its buckets.
pub record Opts : Type 0 where
  pub collector : Collector
  pub namespace : Text
  pub name : Text
  pub labels : List Text

abbrev pub opts : Collector → Text → Text → List Text → Opts
opts collector namespace name labels = record {
  collector = collector;
  namespace = namespace;
  name = name;
  labels = labels;
}

abbrev pub namespace_or_default : Text → Text
namespace_or_default namespace =
    let given = trim_space namespace in if is_empty given then codes "gateway" else given

-- What `NewMetrics` registers, in the order of `MustRegister`.
unfoldable pub new_metrics : Text → List Opts
new_metrics namespace =
    let n = namespace_or_default namespace in
    let backend = codes "backend" in
    let identity = codes "identity" in
    let model = codes "model" in
    opts (vec circuit_breaker_state) n (codes "circuit_breaker_state") (backend ∷ [])
    ∷ opts (vec fallbacks_total) n (codes "fallbacks_total")
        (codes "from_model" ∷ codes "to_model" ∷ codes "reason" ∷ [])
    ∷ opts (vec first_token_duration) (codes "aegis") (codes "first_token_duration_seconds")
        (model ∷ [])
    ∷ opts (vec request_duration) n (codes "request_duration_seconds")
        (backend ∷ codes "result" ∷ [])
    ∷ opts (vec request_success_rate) n (codes "request_success_rate") (backend ∷ [])
    ∷ opts (vec requests_total) n (codes "requests_total") (backend ∷ codes "result" ∷ [])
    ∷ opts (vec token_budget_rejected_total) n (codes "token_budget_rejected_total")
        (identity ∷ model ∷ [])
    ∷ opts (vec token_budget_remaining) n (codes "token_budget_remaining") (identity ∷ [])
    ∷ opts (vec token_usage_total) n (codes "token_usage_total")
        (identity ∷ model ∷ codes "type" ∷ codes "estimated" ∷ [])
    ∷ opts (vec upstream_errors_total) n (codes "upstream_errors_total")
        (backend ∷ codes "reason" ∷ [])
    ∷ opts up n (codes "up") []
    ∷ opts ready n (codes "ready") []
    ∷ []

-- The name that Prometheus gives a metric.
unfoldable pub full_name : Opts → Text
full_name o = o.namespace ++ b'_' ∷ o.name

-- A call on one metric of a vector.
pub data VecCall (F : Type 0) : Type 0 where
  inc : Vec → List Text → VecCall F
  add : Vec → List Text → ℕ → VecCall F
  observe_seconds : Vec → List Text → ℤ → VecCall F
  set_rate : Vec → List Text → F → VecCall F
  set : Vec → List Text → ℕ → VecCall F

-- `Metrics` as `NewMetrics` makes it, with no field nil.
pub record Metrics (F : Type 0) : Type 0 where
  pub request_stats : RequestMetricStats
  pub calls : List (VecCall F)

module _ {F : Type 0} (ratio : ℕ → ℕ → F) (no_rate : F) where
  abbrev pub rate : RequestMetricCount → F
  rate c = if eqb c.total 0 then no_rate else ratio c.success c.total

  -- Under the lock, which makes the calls a sequence.
  unfoldable pub observe : Text → Text → RequestMetricStats → RequestMetricStats × F
  observe backend result s =
      let c = counted result (or_zero (lookup backend s)) in (insert backend c s, rate c)

  abbrev pub asked : List (VecCall F) → Metrics F → Metrics F
  asked cs m = record m { calls = m.calls ++ cs }

  -- `ObserveModelBackendRequest` up to the gauge, and the rate for it.
  unfoldable pub count_request : Text → Text → ℤ → Metrics F → Metrics F × F
  unfolding observe
  count_request backend result₀ duration₀ m =
      let result = if is_empty result₀ then request_result_failure else result₀ in
      let duration = if ltb_ℤ duration₀ (pos 0) then pos 0 else duration₀ in
      let m₁ =
        asked
          (inc requests_total (backend ∷ result ∷ [])
            ∷ observe_seconds request_duration (backend ∷ result ∷ []) duration
            ∷ [])
          m in
      let (stats, success_rate) = observe backend result m₁.request_stats in
      (record m₁ { request_stats = stats }, success_rate)

  -- The gauge is set once the lock is released, so that other requests may come in between.
  unfoldable pub show_rate : Text → F → Metrics F → Metrics F
  show_rate backend success_rate m =
      asked (set_rate request_success_rate (backend ∷ []) success_rate ∷ []) m

  -- Both steps, with no other request in between.
  unfoldable pub observe_model_backend_request : Text → Text → ℤ → Metrics F → Metrics F
  unfolding count_request show_rate
  observe_model_backend_request backend result duration m =
      let (m₁, success_rate) = count_request backend result duration m in
      show_rate backend success_rate m₁

  unfoldable pub observe_first_token : Text → ℤ → Metrics F → Metrics F
  observe_first_token model duration m =
      asked (observe_seconds first_token_duration (model ∷ []) duration ∷ []) m

  unfoldable pub observe_model_fallback : Text → Text → Text → Metrics F → Metrics F
  observe_model_fallback from_model to_model reason m =
      asked (inc fallbacks_total (from_model ∷ to_model ∷ reason ∷ []) ∷ []) m

  unfoldable pub observe_upstream_error : Text → Text → Metrics F → Metrics F
  observe_upstream_error backend reason m =
      asked (inc upstream_errors_total (backend ∷ reason ∷ []) ∷ []) m

  unfoldable pub set_circuit_breaker_state : Text → ℕ → Metrics F → Metrics F
  set_circuit_breaker_state backend state m =
      asked (set circuit_breaker_state (backend ∷ []) state ∷ []) m

  abbrev pub format_bool : Bool → Text
  format_bool true = codes "true"
  format_bool false = codes "false"

  abbrev pub add_positive : List Text → ℤ → List (VecCall F)
  add_positive labels n =
      if ltb_ℤ (pos 0) n then add token_usage_total labels (pos_part n) ∷ [] else []

  unfoldable pub observe_token_usage : Text → Text → ℤ → ℤ → ℤ → Bool → Metrics F → Metrics F
  observe_token_usage identity model prompt_tokens completion_tokens total_tokens estimated m =
      let value = format_bool estimated in
      let labels : Text → List Text = λ kind. identity ∷ model ∷ kind ∷ value ∷ [] in
      asked
        (add_positive (labels (codes "prompt")) prompt_tokens
          ++ add_positive (labels (codes "completion")) completion_tokens
          ++ add_positive (labels (codes "total")) total_tokens)
        m

  unfoldable pub set_token_budget_remaining : Text → ℤ → Metrics F → Metrics F
  set_token_budget_remaining identity remaining_tokens m =
      asked (set token_budget_remaining (identity ∷ []) (pos_part remaining_tokens) ∷ []) m

  unfoldable pub observe_token_budget_rejected : Text → Text → Metrics F → Metrics F
  observe_token_budget_rejected identity model m =
      asked (inc token_budget_rejected_total (identity ∷ model ∷ []) ∷ []) m
