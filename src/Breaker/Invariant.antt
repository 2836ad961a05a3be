-- ===== src/Breaker/Invariant.antt =====
-- What holds of the breaker between two calls (internal/llm/circuit_breaker.go): the counters of
-- every backend, and the gauge.
use agent.Base.{
  ℕ, ◌+◌, ◌≡◌, refl, Bool, true, false, Option, List, [], ◌∷◌, arith, if-intro, Bool-cases, ◌⊎◌,
  ◌∙◌, subst, inl, inr,
}
use agent.Num.{pos, ◌≤ℤ◌}
use agent.Text.{Text, text_eq}
use agent.Map.{Map, ◌==◌, lookup, lookup-insert}
use agent.Config.{CircuitBreakerConfig}
use agent.Breaker.{
  CircuitBreaker, BackendCircuitState, CircuitBreakerPermit, closed, is_half_open, is_closed,
  fresh_state, set_state_metric_locked, store_state, allow, finish, add_backends,
  new_circuit_breaker,
}
use agent.Breaker.Spec.{
  view, Outcome, is_success, is_counted, machine_allow, machine_settle, allow-machine_allow,
  finish-machine_settle,
}

-- A configuration that `normalizeAIConfig` returns.
pub record IsUsable (cfg : CircuitBreakerConfig) : Type 0 where
  pub enabled : cfg.enabled ≡ true
  pub threshold_pos : pos 1 ≤ℤ cfg.failure_threshold
  pub probes_pos : pos 1 ≤ℤ cfg.half_open_max_requests

-- The counters of one backend: probes are out only while half-open, and no more than configured;
-- a closed backend has seen fewer failures in a row than the threshold.
pub record IsSound (cfg : CircuitBreakerConfig) (s : BackendCircuitState) : Type 0 where
  pub idle : (is_half_open s.state ≡ true) ⊎ (s.half_open_in_flight ≡ 0)
  pub closed_below :
      (is_closed s.state ≡ false) ⊎ (pos (s.consecutive_failures + 1) ≤ℤ cfg.failure_threshold)
  pub probes_bounded : pos s.half_open_in_flight ≤ℤ cfg.half_open_max_requests

module _ (cfg : CircuitBreakerConfig) (usable : IsUsable cfg) where
  fresh-IsSound : IsSound cfg fresh_state
  fresh-IsSound = ground arith

  machine_allow-IsSound :
      (now : ℕ) (s : BackendCircuitState) → IsSound cfg s → IsSound cfg (machine_allow cfg now s).0
  unfolding machine_allow
  machine_allow-IsSound now s h = ground arith

  machine_settle-IsSound :
      (now : ℕ) (o : Outcome) (s : BackendCircuitState)
      → IsSound cfg s
      → IsSound cfg (machine_settle cfg now o s)
  unfolding machine_settle
  machine_settle-IsSound now o s h = ground arith

-- The calls that requests make, in the order in which they take the mutex. A permit may come back
-- at any time, in any state.
pub data Call : Type 0 where
  ask : ℕ → Text → Call
  settled : ℕ → Outcome → CircuitBreakerPermit → Call

unfoldable pub step : Call → CircuitBreaker → CircuitBreaker
step (ask now backend) b = (allow now backend b).0
step (settled now o p) b = (finish now (is_success o) (is_counted o) p b).0

unfoldable pub run : List Call → CircuitBreaker → CircuitBreaker
run [] b = b
run (c ∷ cs) b = run cs (step c b)

abbrev pub IsSoundBreaker : CircuitBreaker → Type 0
IsSoundBreaker b = (k : Text) → IsSound b.cfg (view b k)

-- No call changes the configuration.
pub allow-cfg : (now : ℕ) (k : Text) (b : CircuitBreaker) → (allow now k b).0.cfg ≡ b.cfg
unfolding allow
allow-cfg now k b = ground arith

pub finish-cfg :
    (now : ℕ) (success? count? : Bool) (p : CircuitBreakerPermit) (b : CircuitBreaker)
    → (finish now success? count? p b).0.cfg ≡ b.cfg
unfolding finish
finish-cfg now success? count? p b = ground arith

step-cfg : (c : Call) (b : CircuitBreaker) → (step c b).cfg ≡ b.cfg
unfolding step
step-cfg (ask now k) b = allow-cfg now k b
step-cfg (settled now o p) b = finish-cfg now (is_success o) (is_counted o) p b

finish_skipped :
    (b : CircuitBreaker) (now : ℕ) (success? count? : Bool) (p : CircuitBreakerPermit)
    → (p.done ≡ true) ⊎ (p.allowed ≡ false)
    → (finish now success? count? p b).0 ≡ b
unfolding finish
finish_skipped b now success? count? p h = ground arith

step-IsSound :
    (c : Call) (b : CircuitBreaker) → IsUsable b.cfg → IsSoundBreaker b → IsSoundBreaker (step c b)
unfolding step
step-IsSound (ask now k) b u h j =
    rw (step-cfg (ask now k) b, (allow-machine_allow b now k u.enabled j).0)
      (if-intro (IsSound b.cfg) (k == j) (λ _. machine_allow-IsSound b.cfg u now _ (h k))
        (λ _. h j))
step-IsSound (settled now o p) b u h j = elim (Bool-cases p.done) [
  | inl d ↦ rw (finish_skipped b now (is_success o) (is_counted o) p (inl d)) (h j)
  | inr d ↦ elim (Bool-cases p.allowed) [
    | inr a ↦ rw (finish_skipped b now (is_success o) (is_counted o) p (inr a)) (h j)
    | inl a ↦
        rw (step-cfg (settled now o p) b, (finish-machine_settle b now p u.enabled a d o j).0)
          (if-intro (IsSound b.cfg) (p.backend == j)
            (λ _. machine_settle-IsSound b.cfg u now o _ (h p.backend)) (λ _. h j))
  ]
]

add_backends-view :
    (k : Text) (names : List Text) (b : CircuitBreaker)
    → view b k ≡ fresh_state
    → (view (add_backends names b) k ≡ fresh_state) × ((add_backends names b).cfg ≡ b.cfg)
unfolding add_backends
add_backends-view k [] b h = (h, refl)
add_backends-view k (n ∷ names) b h =
    let b' = set_state_metric_locked n closed (store_state n fresh_state b) in
    ground (arith, lookup-insert k n fresh_state b.states, add_backends-view k names b')

run-IsSound_from :
    (calls : List Call) (b : CircuitBreaker)
    → IsUsable b.cfg
    → IsSoundBreaker b
    → IsSoundBreaker (run calls b)
unfolding run
run-IsSound_from [] b u h = h
run-IsSound_from (c ∷ calls) b u h =
    run-IsSound_from calls (step c b) (rw (step-cfg c b) u) (step-IsSound c b u h)

run-cfg : (calls : List Call) (b : CircuitBreaker) → (run calls b).cfg ≡ b.cfg
unfolding run
run-cfg [] b = refl
run-cfg (c ∷ calls) b = run-cfg calls (step c b) ∙ step-cfg c b

module _ (cfg : CircuitBreakerConfig) (backends : List Text) (metrics : Option (Map Text ℕ)) where
  pub new-view : (k : Text) → view (new_circuit_breaker cfg backends metrics) k ≡ fresh_state
  unfolding new_circuit_breaker lookup
  new-view k =
      (add_backends-view k backends (record { cfg = cfg; metrics = metrics; states = [] }) refl).0

  pub new-cfg : (new_circuit_breaker cfg backends metrics).cfg ≡ cfg
  unfolding new_circuit_breaker lookup
  new-cfg =
      (add_backends-view [] backends (record { cfg = cfg; metrics = metrics; states = [] }) refl).1

-- With a usable configuration, whatever calls a breaker made by `newCircuitBreaker` has served, in
-- any order and with any permits, every backend is sound: it has probes out only while half-open
-- and never more than `HalfOpenMaxRequests`, and while closed its failures in a row are below
-- `FailureThreshold`.
pub run-IsSound :
    (cfg : CircuitBreakerConfig) (backends : List Text) (metrics : Option (Map Text ℕ))
    (calls : List Call)
    → IsUsable cfg
    → (k : Text) → IsSound cfg (view (run calls (new_circuit_breaker cfg backends metrics)) k)
run-IsSound cfg backends metrics calls u k =
    let b = new_circuit_breaker cfg backends metrics in
    subst (λ c. IsSound c (view (run calls b) k)) (run-cfg calls b ∙ new-cfg cfg backends metrics)
      (run-IsSound_from calls b (rw (new-cfg cfg backends metrics) u)
        (λ j.
          rw (new-cfg cfg backends metrics, new-view cfg backends metrics j) (fresh-IsSound cfg u))
        k)
