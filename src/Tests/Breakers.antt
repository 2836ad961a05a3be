-- ===== src/Tests/Breakers.antt =====
-- Runs of the circuit breaker and the chain of fallbacks.
use agent.Base.{◌≡◌, refl, true, false, none, some, List, [], ◌∷◌, arith, ◌↔◌, ◌+◌, inl, inr}
use agent.Num.{pos, ◌≤ℤ◌}
use agent.Text.{Text, text_eq, codes}
use agent.Map.{lookup, distinct, mem}
use agent.Config.{CircuitBreakerConfig, AiConfig}
use agent.Breaker.{
  BackendCircuitState, CircuitBreaker, CircuitBreakerPermit, closed, half_open, opened, allow,
  finish, succeed, ignore, new_circuit_breaker,
}
use agent.Breaker.Spec.{
  view, success, failure, ignored, machine_allow, machine_settle, allow-machine_allow,
  finish-machine_settle,
}
use agent.Breaker.Invariant.{IsUsable, IsSound, Call, ask, settled, run, run-IsSound}
use agent.Breaker.Recovery.{request-opened}
use agent.Breaker.Gauge.{IsSynced, run-IsSynced}
use agent.Breaker.Behaviour.{
  request, requests, admitted, requests-failure, admitted-le-max, succeed-opened, ignore-half_open,
}
use agent.Candidates.{Routes, ModelBackend, candidate_models}
use agent.Candidates.Search.{Reach}
use agent.Candidates.Chain.{candidate_models-Reach}

abbrev two_strikes : CircuitBreakerConfig
two_strikes = record {
  enabled = true;
  failure_threshold = pos 2;
  open_timeout = pos 100;
  half_open_max_requests = pos 1;
}

two_strikes-IsUsable : IsUsable two_strikes
two_strikes-IsUsable = record {
  enabled = refl;
  threshold_pos = omega arith;
  probes_pos = omega arith;
}

abbrev backend_a : Text
backend_a = codes "a"

abbrev with_state : BackendCircuitState → CircuitBreaker
with_state s = record { cfg = two_strikes; metrics = none; states = (backend_a, s) ∷ [] }

abbrev one_failure : CircuitBreaker
one_failure =
    with_state
      (record { state = closed; consecutive_failures = 1; opened_at = 0; half_open_in_flight = 0 })

abbrev cut_off : CircuitBreaker
cut_off =
    with_state
      (record { state = opened; consecutive_failures = 2; opened_at = 50; half_open_in_flight = 0 })

abbrev probed : CircuitBreaker
probed = with_state (record {
  state = half_open;
  consecutive_failures = 2;
  opened_at = 50;
  half_open_in_flight = 1;
})

abbrev granted : CircuitBreakerPermit
granted = record { backend = backend_a; allowed = true; done = false }

abbrev after_timeout : BackendCircuitState
after_timeout = (machine_allow two_strikes 160 (view cut_off backend_a)).0

-- The timeout has passed: a probe is let through.
allow_example :
    (view (allow 160 backend_a cut_off).0 backend_a ≡ after_timeout)
    × ((allow 160 backend_a cut_off).2 ≡ true)
    × ((allow 160 backend_a cut_off).1
        ≡ record { backend = backend_a; allowed = true; done = false })
unfolding machine_allow lookup
allow_example = allow-machine_allow cut_off 160 backend_a refl backend_a

finish_example :
    (view (finish 60 false true granted one_failure).0 backend_a
      ≡ machine_settle two_strikes 60 failure (view one_failure backend_a))
    × ((finish 60 false true granted one_failure).1.done ≡ true)
unfolding lookup
finish_example = finish-machine_settle one_failure 60 granted refl refl refl failure backend_a

abbrev some_calls : List Call
some_calls =
    ask 10 backend_a
    ∷ settled 20 failure granted
    ∷ settled 30 failure granted
    ∷ ask 140 backend_a
    ∷ []

breaker_run_example :
    IsSound two_strikes
      (view (run some_calls (new_circuit_breaker two_strikes (backend_a ∷ []) none)) backend_a)
breaker_run_example =
    run-IsSound two_strikes (backend_a ∷ []) none some_calls two_strikes-IsUsable backend_a

gauge_run_example :
    IsSynced (run some_calls (new_circuit_breaker two_strikes (backend_a ∷ []) (some []))) backend_a
gauge_run_example = run-IsSynced two_strikes (backend_a ∷ []) some_calls backend_a

failures_example :
    let before = requests [] backend_a failure one_failure in
    let after = request 70 backend_a failure before in
    ((view before backend_a).state ≡ closed)
    × ((view after backend_a).state ≡ opened)
    × ((view after backend_a).opened_at ≡ 70)
unfolding lookup
failures_example = requests-failure [] 70 one_failure backend_a refl refl refl

cut_off-IsSound : IsSound two_strikes (view cut_off backend_a)
unfolding lookup
cut_off-IsSound = record { idle = inr refl; closed_below = inl refl; probes_bounded = omega arith }

recovered_example :
    ((allow 160 backend_a cut_off).2 ≡ true)
    × (view (request 160 backend_a success cut_off) backend_a ≡ record (view cut_off backend_a) {
      state = closed;
      consecutive_failures = 0;
      half_open_in_flight = 0;
    })
    × ((view (request 160 backend_a failure cut_off) backend_a).state ≡ opened)
    × ((view (request 160 backend_a failure cut_off) backend_a).opened_at ≡ 160)
    × (view (request 160 backend_a ignored cut_off) backend_a
        ≡ record (view cut_off backend_a) { state = half_open; half_open_in_flight = 0 })
unfolding lookup
recovered_example =
    request-opened cut_off 160 backend_a two_strikes-IsUsable cut_off-IsSound refl (omega arith)

admitted_example :
    pos (
      admitted (160 ∷ 161 ∷ 162 ∷ []) backend_a cut_off
      + (view cut_off backend_a).half_open_in_flight)
    ≤ℤ pos 1
unfolding lookup
admitted_example =
    admitted-le-max (160 ∷ 161 ∷ 162 ∷ []) cut_off backend_a two_strikes-IsUsable cut_off-IsSound
      (λ e. ground arith)

succeed_example :
    ((view (succeed 60 granted cut_off).0 backend_a).state ≡ closed)
    × ((view (succeed 60 granted cut_off).0 backend_a).consecutive_failures ≡ 0)
    × ((allow 61 backend_a (succeed 60 granted cut_off).0).2 ≡ true)
unfolding lookup
succeed_example = succeed-opened cut_off 60 granted refl refl refl refl 61

ignore_example :
    ((allow 171 backend_a probed).2 ≡ false)
    × ((allow 171 backend_a (ignore 170 granted probed).0).2 ≡ true)
unfolding lookup
ignore_example = ignore-half_open probed 170 granted refl refl refl refl refl (omega arith) 171

abbrev no_config : AiConfig
no_config = record {
  request_timeout = pos 0;
  first_token_timeout = pos 0;
  circuit_breaker = record {
    enabled = true;
    failure_threshold = pos 5;
    open_timeout = pos 0;
    half_open_max_requests = pos 0;
  };
  fallbacks = [];
  backends = [];
}

abbrev mock_backend : ModelBackend
mock_backend = record {
  cfg = record {
    name = codes "m";
    type = codes "mock";
    base_url = [];
    api_key = [];
    api_key_env = [];
    models = [];
  };
  backend_type = codes "mock";
  chat_completions_url = [];
}

-- Two models that fall back on each other.
abbrev cycle : Routes
cycle = record {
  backends = (codes "x", mock_backend) ∷ (codes "y", mock_backend) ∷ [];
  fallbacks = (codes "x", codes "y" ∷ []) ∷ (codes "y", codes "x" ∷ []) ∷ [];
}

candidates_example :
    (rest : List Text) × (candidate_models cycle (codes "x") ≡ some (codes "x" ∷ rest))
    × (distinct (codes "x" ∷ rest) ≡ true)
    × ((x : Text) → (mem x (codes "x" ∷ rest) ≡ true) ↔ Reach cycle (codes "x") x)
unfolding lookup
candidates_example = candidate_models-Reach cycle (codes "x") refl
