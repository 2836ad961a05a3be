-- ===== src/Breaker/Spec.antt =====
-- What the breaker promises: each backend has a machine of its own, which no call for another
-- backend moves (internal/llm/circuit_breaker.go).
use agent.Base.{
  ℕ, ◌+◌, ◌-◌, ◌≡◌, ◌≢◌, Bool, true, false, Option, none, some, [], arith, if◌then◌else◌,
}
use agent.Num.{pos, sub_ℕ, leb_ℤ}
use agent.Text.{Text, text_eq, text_beq_iff}
use agent.Map.{◌==◌, lookup, lookup-insert}
use agent.Config.{CircuitBreakerConfig}
use agent.Breaker.{
  CircuitBreaker, CircuitState, leave_probe, same_state, BackendCircuitState, CircuitBreakerPermit,
  closed, half_open, opened, fresh_state, set_state_metric_locked, state_locked, transition_state,
  transition_locked, open_locked, admit, allow, count_failure, settle, finish, store_state,
}

-- The state that a backend stands in; one that the map lacks is a fresh closed one.
abbrev pub or_fresh : Option BackendCircuitState → BackendCircuitState
or_fresh none = fresh_state
or_fresh (some s) = s

abbrev pub view : CircuitBreaker → Text → BackendCircuitState
view b k = or_fresh (lookup k b.states)

-- How a permit is settled.
pub data Outcome : Type 0 where
  success failure ignored : Outcome

abbrev pub is_success : Outcome → Bool
is_success success = true
is_success _ = false

abbrev pub is_counted : Outcome → Bool
is_counted ignored = false
is_counted _ = true

-- The machine of one backend: asking for a request to be let through.
unfoldable pub machine_admit :
    CircuitBreakerConfig → BackendCircuitState → BackendCircuitState × Bool
machine_admit cfg s = elim s.state [
  | closed ↦ (s, true)
  | opened ↦ (s, false)
  | half_open ↦
      if leb_ℤ cfg.half_open_max_requests (pos s.half_open_in_flight)
      then (s, false)
      else (record s { half_open_in_flight = s.half_open_in_flight + 1 }, true)
]

unfoldable pub machine_allow :
    CircuitBreakerConfig → ℕ → BackendCircuitState → BackendCircuitState × Bool
unfolding machine_admit
machine_allow cfg now s = elim s.state [
  | closed ↦ (s, true)
  | half_open ↦ machine_admit cfg s
  | opened ↦
      if leb_ℤ cfg.open_timeout (sub_ℕ now s.opened_at)
      then machine_admit cfg (record s { state = half_open })
      else (s, false)
]

abbrev trip : ℕ → ℕ → BackendCircuitState
trip now failures = record {
  state = opened;
  consecutive_failures = failures;
  opened_at = now;
  half_open_in_flight = 0;
}

-- The machine of one backend: a permit comes back.
unfoldable pub machine_settle :
    CircuitBreakerConfig → ℕ → Outcome → BackendCircuitState → BackendCircuitState
machine_settle cfg now o s = elim s.state [
  | closed ↦ elim o [
    | ignored ↦ s
    | success ↦ record s { consecutive_failures = 0 }
    | failure ↦
        if leb_ℤ cfg.failure_threshold (pos (s.consecutive_failures + 1))
        then trip now (s.consecutive_failures + 1)
        else record s { consecutive_failures = s.consecutive_failures + 1 }
  ]
  | half_open ↦ elim o [
    | ignored ↦ record s { half_open_in_flight = s.half_open_in_flight - 1 }
    | success ↦ record s { state = closed; consecutive_failures = 0; half_open_in_flight = 0 }
    | failure ↦ trip now s.consecutive_failures
  ]
  | opened ↦ elim o [
    | ignored ↦ s
    | success ↦ record s { state = closed; consecutive_failures = 0; half_open_in_flight = 0 }
    | failure ↦ s
  ]
]

module _ (k j : Text) (b : CircuitBreaker) where
  pub view-store_state :
      (s : BackendCircuitState) → view (store_state k s b) j ≡ (if k == j then s else view b j)
  view-store_state s = ground (arith, lookup-insert j k s b.states)

  pub set_state_metric_locked-states :
      (n : CircuitState) → (set_state_metric_locked k n b).states ≡ b.states
  unfolding set_state_metric_locked
  set_state_metric_locked-states n = ground arith

  pub set_state_metric_locked-cfg : (n : CircuitState) → (set_state_metric_locked k n b).cfg ≡ b.cfg
  unfolding set_state_metric_locked
  set_state_metric_locked-cfg n = ground arith

module _ (k j : Text) (b : CircuitBreaker) where
  pub state_locked-view :
      ((state_locked k b).1 ≡ view b k)
      × (view (state_locked k b).0 j ≡ view b j)
      × ((state_locked k b).0.cfg ≡ b.cfg)
  unfolding state_locked
  state_locked-view = ground (
    arith,
    text_beq_iff k j,
    view-store_state k j b fresh_state,
    set_state_metric_locked-states k j (store_state k fresh_state b) closed,
    set_state_metric_locked-cfg k j (store_state k fresh_state b) closed,
  )

  pub transition_locked-view :
      (s : BackendCircuitState) (n : CircuitState)
      → (view (transition_locked k s n b) j ≡ (if k == j then transition_state s n else view b j))
        × ((transition_locked k s n b).cfg ≡ b.cfg)
  unfolding transition_locked
  transition_locked-view s n = ground (
    arith,
    view-store_state k j b (transition_state s n),
    set_state_metric_locked-states k j (store_state k (transition_state s n) b) n,
    set_state_metric_locked-cfg k j (store_state k (transition_state s n) b) n,
  )

  pub admit-machine_admit :
      (s : BackendCircuitState)
      → view b k ≡ s
      → (view (admit k s b).0 j ≡ (if k == j then (machine_admit b.cfg s).0 else view b j))
        × ((admit k s b).2 ≡ (machine_admit b.cfg s).1)
        × ((admit k s b).1 ≡ (
            if (machine_admit b.cfg s).1
            then record { backend = k; allowed = true; done = false }
            else record { backend = []; allowed = false; done = false }))
  unfolding admit machine_admit
  admit-machine_admit s e = ground (
    arith,
    text_beq_iff k j,
    view-store_state k j b (record s { half_open_in_flight = s.half_open_in_flight + 1 }),
  )

module _ (b : CircuitBreaker) (now : ℕ) (k : Text) where
  -- `Allow` is the machine of its backend, and moves no other backend: with the breaker enabled,
  -- the answer is the machine's, the permit is one for this backend that is not yet settled exactly
  -- if it is allowed, and else one for none, and the state of every backend afterwards is as the
  -- machine leaves it or unchanged.
  pub allow-machine_allow :
      b.cfg.enabled ≡ true
      → (j : Text)
      → (view (allow now k b).0 j
          ≡ (if k == j then (machine_allow b.cfg now (view b k)).0 else view b j))
        × ((allow now k b).2 ≡ (machine_allow b.cfg now (view b k)).1)
        × ((allow now k b).1 ≡ (
            if (machine_allow b.cfg now (view b k)).1
            then record { backend = k; allowed = true; done = false }
            else record { backend = []; allowed = false; done = false }))
  unfolding allow machine_allow transition_state
  allow-machine_allow on j =
      let b₁ = (state_locked k b).0 in
      let s = (state_locked k b).1 in
      let b₂ = transition_locked k s half_open b₁ in
      ground (
        arith,
        text_beq_iff k k,
        state_locked-view k j b,
        state_locked-view k k b,
        admit-machine_admit k j b₁ s,
        transition_locked-view k j b₁ s half_open,
        transition_locked-view k k b₁ s half_open,
        admit-machine_admit k j b₂ (transition_state s half_open),
      )

module _ (k j : Text) (b : CircuitBreaker) where
  abbrev or_keep : BackendCircuitState → BackendCircuitState
  or_keep s = if k == j then s else view b j

  open_locked-view :
      (now : ℕ) (s : BackendCircuitState)
      → same_state s.state opened ≡ false
      → (view (open_locked now k s b) j ≡ or_keep (trip now s.consecutive_failures))
        × ((open_locked now k s b).cfg ≡ b.cfg)
  unfolding open_locked transition_state
  open_locked-view now s n = ground (
    arith,
    transition_locked-view k j b (record s { opened_at = now; half_open_in_flight = 0 }) opened,
  )

module _ (k j : Text) (b : CircuitBreaker) (now : ℕ) (s : BackendCircuitState) where
  count_failure-view :
      view b k ≡ s
      → s.state ≢ half_open
      → (view (count_failure now k s b) j ≡ or_keep k j b (machine_settle b.cfg now failure s))
        × ((count_failure now k s b).cfg ≡ b.cfg)
  unfolding count_failure machine_settle
  count_failure-view e n =
      let s₁ = record s { consecutive_failures = s.consecutive_failures + 1 } in
      ground (
        arith,
        text_beq_iff k j,
        view-store_state k j b s₁,
        open_locked-view k j (store_state k s₁ b) now s₁,
      )

  count_failure-view_half_open :
      s.state ≡ half_open
      → (view (count_failure now k s b) j ≡ or_keep k j b (trip now s.consecutive_failures))
        × ((count_failure now k s b).cfg ≡ b.cfg)
  unfolding count_failure
  count_failure-view_half_open e = ground (arith, open_locked-view k j b now s)

settle-machine_settle :
    (k j : Text) (b : CircuitBreaker) (now : ℕ) (o : Outcome)
    → (view (settle now (is_success o) (is_counted o) k b) j
        ≡ or_keep k j b (machine_settle b.cfg now o (view b k)))
      × ((settle now (is_success o) (is_counted o) k b).cfg ≡ b.cfg)
unfolding settle machine_settle transition_state
settle-machine_settle k j b now o =
    let b₁ = (state_locked k b).0 in
    let s₁ = (state_locked k b).1 in
    let s = leave_probe s₁ in
    let b₂ = store_state k s b₁ in
    ground (
      arith,
      text_beq_iff k k,
      text_beq_iff k j,
      state_locked-view k j b,
      state_locked-view k k b,
      view-store_state k j b₁ s,
      view-store_state k k b₁ s,
      transition_locked-view k j b₂ (record s { consecutive_failures = 0 }) closed,
      count_failure-view k j b₂ now s,
      count_failure-view_half_open k j b₂ now s,
    )

module _ (b : CircuitBreaker) (now : ℕ) (p : CircuitBreakerPermit) where
  -- `Succeed`, `Fail` and `Ignore` are the machine of the permit's backend, and move no other
  -- backend: for a granted permit that is not settled yet, with the breaker enabled, every backend
  -- stands afterwards as the machine leaves it or unchanged, and the permit is settled.
  pub finish-machine_settle :
      b.cfg.enabled ≡ true
      → p.allowed ≡ true
      → p.done ≡ false
      → (o : Outcome) (j : Text)
      → (view (finish now (is_success o) (is_counted o) p b).0 j
          ≡ (if p.backend == j then machine_settle b.cfg now o (view b p.backend) else view b j))
        × ((finish now (is_success o) (is_counted o) p b).1.done ≡ true)
  unfolding finish
  finish-machine_settle on granted open_permit o j =
      ground (arith, settle-machine_settle p.backend j b now o)

  -- A permit counts once: whatever a second settlement reports, and whenever, it changes neither
  -- the breaker nor the permit.
  pub finish-finish :
      (success? count? : Bool) (later : ℕ) (success?' count?' : Bool)
      → let (b', p') = finish now success? count? p b in
        finish later success?' count?' p' b' ≡ (b', p')
  unfolding finish
  finish-finish success? count? later success?' count?' = ground arith
