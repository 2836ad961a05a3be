-- ===== src/Breaker.antt =====
-- The circuit breaker of internal/llm/circuit_breaker.go: one state per backend behind a mutex, a
-- gauge that mirrors it, and permits that a request settles once. A method takes the clock's reading
-- and returns the breaker as it leaves it.
pub mod Spec
pub mod Invariant
pub mod Gauge
pub mod Behaviour
pub mod Recovery
use agent.Base.{
  ℕ, ◌+◌, ◌-◌, ◌≡◌, Bool, true, false, ◌&&◌, ◌||◌, not, Option, none, some, List, [], ◌∷◌, ltb,
  if◌then◌else◌,
}
use agent.Num.{ℤ, pos, sub_ℕ, leb_ℤ}
use agent.Text.{Text, text_eq}
use agent.Map.{Map, lookup, insert}
use agent.Config.{CircuitBreakerConfig}

pub data CircuitState : Type 0 where
  closed half_open opened : CircuitState

abbrev pub state_code : CircuitState → ℕ
state_code closed = 0
state_code half_open = 1
state_code opened = 2

abbrev pub same_state : CircuitState → CircuitState → Bool
same_state closed closed = true
same_state half_open half_open = true
same_state opened opened = true
same_state _ _ = false

abbrev pub is_closed : CircuitState → Bool
is_closed closed = true
is_closed _ = false

abbrev pub is_half_open : CircuitState → Bool
is_half_open half_open = true
is_half_open _ = false

abbrev pub is_opened : CircuitState → Bool
is_opened opened = true
is_opened _ = false

pub record BackendCircuitState : Type 0 where
  pub state : CircuitState
  pub consecutive_failures : ℕ
  pub opened_at : ℕ  -- nanoseconds
  pub half_open_in_flight : ℕ

-- `metrics` is the gauge per backend, `none` for a nil `*Metrics`.
pub record CircuitBreaker : Type 0 where
  pub cfg : CircuitBreakerConfig
  pub metrics : Option (Map Text ℕ)
  pub states : Map Text BackendCircuitState

-- `allowed` is false exactly in the zero permit, whose breaker is nil.
pub record CircuitBreakerPermit : Type 0 where
  pub backend : Text
  pub allowed : Bool
  pub done : Bool

abbrev pub fresh_state : BackendCircuitState
fresh_state = record {
  state = closed;
  consecutive_failures = 0;
  opened_at = 0;
  half_open_in_flight = 0;
}

abbrev pub zero_permit : CircuitBreakerPermit
zero_permit = record { backend = []; allowed = false; done = false }

unfoldable pub set_state_metric_locked : Text → CircuitState → CircuitBreaker → CircuitBreaker
set_state_metric_locked backend next b = elim b.metrics [
  | none ↦ b
  | some gauge ↦ record b { metrics = some (insert backend (state_code next) gauge) }
]

-- A write through the pointer that the map holds.
abbrev pub store_state : Text → BackendCircuitState → CircuitBreaker → CircuitBreaker
store_state backend s b = record b { states = insert backend s b.states }

unfoldable pub state_locked : Text → CircuitBreaker → CircuitBreaker × BackendCircuitState
unfolding set_state_metric_locked
state_locked backend b = elim (lookup backend b.states) [
  | some s ↦ (b, s)
  | none ↦ (set_state_metric_locked backend closed (store_state backend fresh_state b), fresh_state)
]

-- The fields that `transitionLocked` leaves in the state.
unfoldable pub transition_state : BackendCircuitState → CircuitState → BackendCircuitState
transition_state s next =
    if same_state s.state next
    then s
    else if is_closed next
    then record s { state = next; consecutive_failures = 0; half_open_in_flight = 0 }
    else record s { state = next }

unfoldable pub transition_locked :
    Text → BackendCircuitState → CircuitState → CircuitBreaker → CircuitBreaker
unfolding transition_state set_state_metric_locked
transition_locked backend s next b =
    set_state_metric_locked backend next (store_state backend (transition_state s next) b)

unfoldable pub open_locked : ℕ → Text → BackendCircuitState → CircuitBreaker → CircuitBreaker
unfolding transition_locked
open_locked now backend s b =
    transition_locked backend (record s { opened_at = now; half_open_in_flight = 0 }) opened b

abbrev pub grant : Text → CircuitBreakerPermit
grant backend = record { backend = backend; allowed = true; done = false }

-- The `switch` of `Allow`, on the state after a possible transition to half-open.
unfoldable pub admit :
    Text → BackendCircuitState → CircuitBreaker → CircuitBreaker × CircuitBreakerPermit × Bool
admit backend s b = elim s.state [
  | opened ↦ (b, zero_permit, false)
  | half_open ↦
      if leb_ℤ b.cfg.half_open_max_requests (pos s.half_open_in_flight)
      then (b, zero_permit, false)
      else (
        store_state backend (record s { half_open_in_flight = s.half_open_in_flight + 1 }) b,
        grant backend,
        true,
      )
  | closed ↦ (b, grant backend, true)
]

abbrev pub timed_out : ℕ → BackendCircuitState → CircuitBreaker → Bool
timed_out now s b = is_opened s.state && leb_ℤ b.cfg.open_timeout (sub_ℕ now s.opened_at)

unfoldable pub allow : ℕ → Text → CircuitBreaker → CircuitBreaker × CircuitBreakerPermit × Bool
unfolding state_locked transition_locked admit
allow now backend b =
    if not b.cfg.enabled
    then (b, zero_permit, true)
    else let (b₁, s) = state_locked backend b in
      if timed_out now s b₁
      then admit backend (transition_state s half_open) (transition_locked backend s half_open b₁)
      else admit backend s b₁

-- `if state.state == circuitStateHalfOpen && state.halfOpenInFlight > 0 { … }`
abbrev pub leave_probe : BackendCircuitState → BackendCircuitState
leave_probe s =
    if is_half_open s.state && ltb 0 s.half_open_in_flight
    then record s { half_open_in_flight = s.half_open_in_flight - 1 }
    else s

-- The `switch` of `finish` after a counted failure.
unfoldable pub count_failure : ℕ → Text → BackendCircuitState → CircuitBreaker → CircuitBreaker
unfolding open_locked
count_failure now backend s b = elim s.state [
  | half_open ↦ open_locked now backend s b
  | opened ↦ b
  | closed ↦
      let s₁ = record s { consecutive_failures = s.consecutive_failures + 1 } in
      if leb_ℤ b.cfg.failure_threshold (pos s₁.consecutive_failures)
      then open_locked now backend s₁ (store_state backend s₁ b)
      else store_state backend s₁ b
]

-- The body of `finish` behind its guard.
unfoldable pub settle : ℕ → Bool → Bool → Text → CircuitBreaker → CircuitBreaker
unfolding state_locked transition_locked count_failure
settle now success count backend b₀ =
    let (b₁, s₁) = state_locked backend b₀ in
    let s = leave_probe s₁ in
    let b = store_state backend s b₁ in
    if not count
    then b
    else if success
    then transition_locked backend (record s { consecutive_failures = 0 }) closed b
    else count_failure now backend s b

unfoldable pub finish :
    ℕ → Bool → Bool → CircuitBreakerPermit → CircuitBreaker → CircuitBreaker × CircuitBreakerPermit
unfolding settle
finish now success count p b =
    if p.done || not p.allowed || not b.cfg.enabled
    then (b, p)
    else (settle now success count p.backend b, record p { done = true })

abbrev pub succeed :
    ℕ → CircuitBreakerPermit → CircuitBreaker → CircuitBreaker × CircuitBreakerPermit
succeed now p b = finish now true true p b

abbrev pub fail : ℕ → CircuitBreakerPermit → CircuitBreaker → CircuitBreaker × CircuitBreakerPermit
fail now p b = finish now false true p b

abbrev pub ignore :
    ℕ → CircuitBreakerPermit → CircuitBreaker → CircuitBreaker × CircuitBreakerPermit
ignore now p b = finish now false false p b

-- The loop of `newCircuitBreaker` over the configured names.
unfoldable pub add_backends : List Text → CircuitBreaker → CircuitBreaker
unfolding set_state_metric_locked
add_backends [] b = b
add_backends (name ∷ names) b =
    add_backends names (set_state_metric_locked name closed (store_state name fresh_state b))

unfoldable pub new_circuit_breaker :
    CircuitBreakerConfig → List Text → Option (Map Text ℕ) → CircuitBreaker
unfolding add_backends
new_circuit_breaker cfg backends metrics =
    add_backends backends (record { cfg = cfg; metrics = metrics; states = [] })
