-- ===== src/Breaker/Gauge.antt =====
-- The gauge that internal/llm/circuit_breaker.go keeps beside the states.
use agent.Base.{
  ℕ, ◌≡◌, refl, Bool, Option, none, some, List, [], ◌∷◌, ◌+◌, arith, Option-cases, inl, inr,
}
use agent.Text.{Text, text_eq, text_beq_iff}
use agent.Map.{Map, lookup, lookup-insert, lookup-insert_self}
use agent.Config.{CircuitBreakerConfig}
use agent.Breaker.{
  CircuitBreaker, CircuitState, BackendCircuitState, closed, half_open, opened, fresh_state,
  state_code, set_state_metric_locked, store_state, state_locked, transition_state,
  transition_locked, open_locked, admit, allow, leave_probe, count_failure, settle, finish,
  add_backends, new_circuit_breaker,
}
use agent.Breaker.Spec.{is_success, is_counted}
use agent.Breaker.Invariant.{Call, ask, settled, step, run}

abbrev pub code_of : Option BackendCircuitState → Option ℕ
code_of none = none
code_of (some s) = some (state_code s.state)

-- What the gauge shows for a backend, and what it should show.
abbrev pub shown : Option (Map Text ℕ) → Text → Option ℕ
shown none k = none
shown (some gauge) k = lookup k gauge

abbrev pub expected : Option (Map Text ℕ) → Option BackendCircuitState → Option ℕ
expected none o = none
expected (some gauge) o = code_of o

-- The gauge of a backend shows its state, and is absent for one that has no state yet.
abbrev pub IsSynced : CircuitBreaker → Text → Type 0
IsSynced b k = shown b.metrics k ≡ expected b.metrics (lookup k b.states)

module _ (k j : Text) (b : CircuitBreaker) where
  IsSynced-set_metric :
      (s : BackendCircuitState) (n : CircuitState)
      → s.state ≡ n
      → IsSynced b j
      → IsSynced (set_state_metric_locked k n (store_state k s b)) j
  unfolding set_state_metric_locked
  IsSynced-set_metric s n e h = elim (Option-cases b.metrics) [
    | inl m ↦ ground arith
    | inr (g, m) ↦ ground (arith, lookup-insert j k (state_code n) g, lookup-insert j k s b.states)
  ]

  -- A write that leaves the state's name alone needs no write of the gauge.
  IsSynced-store :
      (s t : BackendCircuitState)
      → lookup k b.states ≡ some t
      → t.state ≡ s.state
      → IsSynced b j
      → IsSynced (store_state k s b) j
  IsSynced-store s t found e h = ground (arith, text_beq_iff k j, lookup-insert j k s b.states)

  lookup-set_metric :
      (s : BackendCircuitState) (n : CircuitState)
      → lookup k (set_state_metric_locked k n (store_state k s b)).states ≡ some s
  unfolding set_state_metric_locked
  lookup-set_metric s n = ground (arith, text_beq_iff k k, lookup-insert k k s b.states)

module _ (k j : Text) (b : CircuitBreaker) (h : IsSynced b j) where
  IsSynced-state_locked : IsSynced (state_locked k b).0 j
  unfolding state_locked
  IsSynced-state_locked = ground (arith, IsSynced-set_metric k j b fresh_state closed refl)

  IsSynced-transition :
      (s : BackendCircuitState) (n : CircuitState) → IsSynced (transition_locked k s n b) j
  unfolding transition_locked transition_state
  IsSynced-transition s n = ground (arith, IsSynced-set_metric k j b (transition_state s n) n)

  IsSynced-open : (now : ℕ) (s : BackendCircuitState) → IsSynced (open_locked now k s b) j
  unfolding open_locked
  IsSynced-open now s =
      IsSynced-transition (record s { opened_at = now; half_open_in_flight = 0 }) opened

  IsSynced-admit :
      (s : BackendCircuitState) → lookup k b.states ≡ some s → IsSynced (admit k s b).0 j
  unfolding admit
  IsSynced-admit s found =
      let s' = record s { half_open_in_flight = s.half_open_in_flight + 1 } in
      ground (arith, IsSynced-store k j b s' s found)

lookup-state_locked :
    (k : Text) (b : CircuitBreaker)
    → lookup k (state_locked k b).0.states ≡ some (state_locked k b).1
unfolding state_locked
lookup-state_locked k b = ground (arith, lookup-set_metric k k b fresh_state closed)

lookup-transition :
    (k : Text) (b : CircuitBreaker) (s : BackendCircuitState) (n : CircuitState)
    → lookup k (transition_locked k s n b).states ≡ some (transition_state s n)
unfolding transition_locked
lookup-transition k b s n = lookup-set_metric k k b (transition_state s n) n

module _ (k j : Text) (b : CircuitBreaker) (now : ℕ) where
  IsSynced-allow : IsSynced b j → IsSynced (allow now k b).0 j
  unfolding allow
  IsSynced-allow h =
      let b₁ = (state_locked k b).0 in
      let s = (state_locked k b).1 in
      let h₁ = IsSynced-state_locked k j b h in
      let h₂ = IsSynced-transition k j b₁ h₁ s half_open in
      ground (
        arith,
        IsSynced-admit k j b₁ h₁ s (lookup-state_locked k b),
        IsSynced-admit k j (transition_locked k s half_open b₁) h₂ (transition_state s half_open)
            (lookup-transition k b₁ s half_open),
      )

  IsSynced-count_failure :
      (s : BackendCircuitState)
      → lookup k b.states ≡ some s
      → IsSynced b j
      → IsSynced (count_failure now k s b) j
  unfolding count_failure
  IsSynced-count_failure s found h =
      let s₁ = record s { consecutive_failures = s.consecutive_failures + 1 } in
      let h₁ = IsSynced-store k j b s₁ s found refl h in
      ground (arith, IsSynced-open k j b h now s, IsSynced-open k j (store_state k s₁ b) h₁ now s₁)

leave_probe-state : (s : BackendCircuitState) → s.state ≡ (leave_probe s).state
leave_probe-state s = ground arith

module _ (k j : Text) (b : CircuitBreaker) (now : ℕ) where
  IsSynced-settle :
      (success? count? : Bool) → IsSynced b j → IsSynced (settle now success? count? k b) j
  unfolding settle
  IsSynced-settle success? count? h =
      let b₁ = (state_locked k b).0 in
      let s₁ = (state_locked k b).1 in
      let s = leave_probe s₁ in
      let b₂ = store_state k s b₁ in
      let h₂ =
        IsSynced-store k j b₁ s s₁ (lookup-state_locked k b) (leave_probe-state s₁)
          (IsSynced-state_locked k j b h) in
      ground (
        arith,
        IsSynced-transition k j b₂ h₂ (record s { consecutive_failures = 0 }) closed,
        IsSynced-count_failure k j b₂ now s (lookup-insert_self k s b₁.states) h₂,
      )

IsSynced-step : (c : Call) (j : Text) (b : CircuitBreaker) → IsSynced b j → IsSynced (step c b) j
unfolding step finish
IsSynced-step (ask now k) j b h = IsSynced-allow k j b now h
IsSynced-step (settled now o p) j b h =
    ground (arith, IsSynced-settle p.backend j b now (is_success o) (is_counted o) h)

IsSynced-run :
    (calls : List Call) (j : Text) (b : CircuitBreaker) → IsSynced b j → IsSynced (run calls b) j
unfolding run
IsSynced-run [] j b h = h
IsSynced-run (c ∷ calls) j b h = IsSynced-run calls j (step c b) (IsSynced-step c j b h)

IsSynced-add_backends :
    (names : List Text) (j : Text) (b : CircuitBreaker)
    → IsSynced b j
    → IsSynced (add_backends names b) j
unfolding add_backends
IsSynced-add_backends [] j b h = h
IsSynced-add_backends (n ∷ names) j b h =
    IsSynced-add_backends names j _ (IsSynced-set_metric n j b fresh_state closed refl h)

-- The gauge of every backend shows its state (0 closed, 1 half-open, 2 open) after any calls, with
-- any configuration, on a breaker that `newCircuitBreaker` made with a fresh gauge; a backend that
-- has no state has no gauge either.
pub run-IsSynced :
    (cfg : CircuitBreakerConfig) (backends : List Text) (calls : List Call) (k : Text)
    → IsSynced (run calls (new_circuit_breaker cfg backends (some []))) k
unfolding new_circuit_breaker lookup
run-IsSynced cfg backends calls k = IsSynced-run calls k _ (IsSynced-add_backends backends k _ refl)
