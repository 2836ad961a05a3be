-- ===== src/Breaker/Recovery.antt =====
-- How a backend comes back (internal/llm/circuit_breaker.go).
use agent.Base.{ℕ, ◌+◌, ◌≤◌, ◌≡◌, true, false, arith}
use agent.Num.{pos_part, leb_ℤ, sub_ℕ}
use agent.Text.{Text, text_beq_iff}
use agent.Breaker.{CircuitBreaker, closed, opened, half_open, allow}
use agent.Breaker.Spec.{
  view, Outcome, success, failure, ignored, machine_settle, finish-machine_settle,
}
use agent.Breaker.Invariant.{IsUsable, IsSound, allow-cfg}
use agent.Breaker.Behaviour.{allow-opened, request}

allow-granted :
    (b : CircuitBreaker) (now : ℕ) (k : Text)
    → b.cfg.enabled ≡ true
    → (allow now k b).2 ≡ true
    → ((allow now k b).1.allowed ≡ true)
      × ((allow now k b).1.done ≡ false)
      × ((allow now k b).1.backend ≡ k)
unfolding allow
allow-granted b now k on h = ground (arith, on, h)

module _ (b : CircuitBreaker) (now : ℕ) (k : Text) (u : IsUsable b.cfg)
    (s : IsSound b.cfg (view b k)) (cut_off : (view b k).state ≡ opened)
    (due : (view b k).opened_at + pos_part b.cfg.open_timeout ≤ now) where
  due-leb : leb_ℤ b.cfg.open_timeout (sub_ℕ now (view b k).opened_at) ≡ true
  due-leb = ground (arith, due)

  probe-let_through :
      ((allow now k b).2 ≡ true)
      × (view (allow now k b).0 k
          ≡ record (view b k) { state = half_open; half_open_in_flight = 1 })
  probe-let_through = ground (arith, allow-opened b now k u s cut_off, due-leb)

  probe-view :
      (o : Outcome)
      → view (request now k o b) k
        ≡ machine_settle b.cfg now o
            (record (view b k) { state = half_open; half_open_in_flight = 1 })
  unfolding request
  probe-view o =
      let b' = (allow now k b).0 in
      let p = (allow now k b).1 in
      let cfg = allow-cfg now k b in
      let through = probe-let_through in
      let granted = allow-granted b now k u.enabled through.0 in
      ground (
        arith,
        text_beq_iff k k,
        through,
        cfg,
        finish-machine_settle b' now p (ground (arith, cfg, u.enabled)) granted.0 granted.1 o k,
        granted,
      )

  -- A backend that was cut off comes back as soon as it works again: once the timeout has passed
  -- since it opened, the next request is let through, whenever it comes; if it succeeds, the backend
  -- is closed, with no failure counted and no probe out; if it fails, the backend is cut off again
  -- from that time on; and if it is dropped, the backend is half-open with no probe out. For a
  -- backend whose counters are sound.
  pub request-opened :
      ((allow now k b).2 ≡ true)
      × (view (request now k success b) k
          ≡ record (view b k) { state = closed; consecutive_failures = 0; half_open_in_flight = 0 })
      × ((view (request now k failure b) k).state ≡ opened)
      × ((view (request now k failure b) k).opened_at ≡ now)
      × (view (request now k ignored b) k
          ≡ record (view b k) { state = half_open; half_open_in_flight = 0 })
  unfolding machine_settle
  request-opened =
      ground (arith, probe-let_through, probe-view success, probe-view failure, probe-view ignored)
