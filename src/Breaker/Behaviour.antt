-- ===== src/Breaker/Behaviour.antt =====
-- What a client of internal/llm/circuit_breaker.go sees: when a backend is cut off, for how long,
-- how many probes are let through, and what a late permit does.
use agent.Base.{
  ℕ, ◌+◌, ◌<◌, ◌≡◌, refl, true, false, List, [], ◌∷◌, arith, length, ◌≢◌, if◌then◌else◌,
}
use agent.Num.{pos, sub_ℕ, leb_ℤ, ◌≤ℤ◌}
use agent.Text.{Text, text_eq, text_beq_iff}
use agent.Breaker.{
  CircuitBreaker, CircuitBreakerPermit, closed, half_open, opened, allow, finish, succeed, ignore,
}
use agent.Breaker.Spec.{
  view, Outcome, success, failure, ignored, is_success, is_counted, machine_allow, machine_settle,
  allow-machine_allow, finish-machine_settle,
}
use agent.Breaker.Invariant.{IsUsable, IsSound, allow-cfg, finish-cfg}

-- One request against a backend: it asks, and settles its permit with an outcome if it has one.
unfoldable pub request : ℕ → Text → Outcome → CircuitBreaker → CircuitBreaker
request now k o b =
    let (b', permit, allowed) = allow now k b in
    if allowed then (finish now (is_success o) (is_counted o) permit b').0 else b'

unfoldable pub requests : List ℕ → Text → Outcome → CircuitBreaker → CircuitBreaker
unfolding request
requests [] k o b = b
requests (now ∷ nows) k o b = requests nows k o (request now k o b)

allow_closed :
    (b : CircuitBreaker) (now : ℕ) (k : Text)
    → b.cfg.enabled ≡ true
    → (view b k).state ≡ closed
    → ((allow now k b).2 ≡ true)
      × (view (allow now k b).0 k ≡ view b k)
      × ((allow now k b).1.allowed ≡ true)
unfolding machine_allow
allow_closed b now k on c = ground (arith, allow-machine_allow b now k on k)

-- In the closed state a permit granted is one for the backend asked for, not settled.
pub allow-permit :
    (b : CircuitBreaker) (now : ℕ) (k : Text)
    → (allow now k b).1.allowed ≡ true
    → ((allow now k b).1.backend ≡ k) × ((allow now k b).1.done ≡ false)
unfolding allow
allow-permit b now k h = ground arith

request-machine :
    (b : CircuitBreaker) (now : ℕ) (k : Text) (o : Outcome)
    → b.cfg.enabled ≡ true
    → (view b k).state ≡ closed
    → (view (request now k o b) k ≡ machine_settle b.cfg now o (view b k))
      × ((request now k o b).cfg ≡ b.cfg)
unfolding request
request-machine b now k o on c =
    let b' = (allow now k b).0 in
    let p = (allow now k b).1 in
    ground (
      arith,
      text_beq_iff k k,
      allow_closed b now k on c,
      allow-permit b now k,
      allow-cfg now k b,
      finish-cfg now (is_success o) (is_counted o) p b',
      finish-machine_settle b' now p (ground (arith, allow-cfg now k b))
          (allow_closed b now k on c).2 (allow-permit b now k (allow_closed b now k on c).2).1 o k,
    )

failure-closed :
    (b : CircuitBreaker) (now : ℕ) (k : Text)
    → b.cfg.enabled ≡ true
    → (view b k).state ≡ closed
    → pos ((view b k).consecutive_failures + 2) ≤ℤ b.cfg.failure_threshold
    → ((view (request now k failure b) k).state ≡ closed)
      × ((view (request now k failure b) k).consecutive_failures
          ≡ (view b k).consecutive_failures + 1)
unfolding machine_settle
failure-closed b now k on c h = ground (arith, request-machine b now k failure on c)

requests-failure-closed :
    (nows : List ℕ) (b : CircuitBreaker) (k : Text)
    → b.cfg.enabled ≡ true
    → (view b k).state ≡ closed
    → pos ((view b k).consecutive_failures + length nows + 1) ≤ℤ b.cfg.failure_threshold
    → ((view (requests nows k failure b) k).state ≡ closed)
      × ((view (requests nows k failure b) k).consecutive_failures
          ≡ (view b k).consecutive_failures + length nows)
      × ((requests nows k failure b).cfg ≡ b.cfg)
unfolding requests
requests-failure-closed [] b k on c h = (c, omega arith, refl)
requests-failure-closed (now ∷ nows) b k on c h = ground (
  arith,
  request-machine b now k failure on c,
  failure-closed b now k on c,
  requests-failure-closed nows (request now k failure b) k,
)

-- Failures in a row open a backend at the threshold and not before: from a closed state with some
-- failures counted, requests that fail one after the other, at any times, leave it closed as long
-- as fewer than `FailureThreshold` are counted in all, and the one that reaches the threshold opens
-- it, at that request's time.
pub requests-failure :
    (nows : List ℕ) (now : ℕ) (b : CircuitBreaker) (k : Text)
    → b.cfg.enabled ≡ true
    → (view b k).state ≡ closed
    → b.cfg.failure_threshold ≡ pos ((view b k).consecutive_failures + length nows + 1)
    → let before = requests nows k failure b in
      let after = request now k failure before in
      ((view before k).state ≡ closed)
      × ((view after k).state ≡ opened)
      × ((view after k).opened_at ≡ now)
unfolding machine_settle
requests-failure nows now b k on c h = ground (
  arith,
  requests-failure-closed nows b k on c,
  request-machine (requests nows k failure b) now k failure,
)

-- An open backend is cut off until `OpenTimeout` has passed: a sound one is let through exactly if
-- the timeout has passed since it opened. Then it is half-open with that one probe out, and before
-- it stays as it was.
pub allow-opened :
    (b : CircuitBreaker) (now : ℕ) (k : Text)
    → IsUsable b.cfg
    → IsSound b.cfg (view b k)
    → (view b k).state ≡ opened
    → ((allow now k b).2 ≡ leb_ℤ b.cfg.open_timeout (sub_ℕ now (view b k).opened_at))
      × (view (allow now k b).0 k ≡ (
          if leb_ℤ b.cfg.open_timeout (sub_ℕ now (view b k).opened_at)
          then record (view b k) { state = half_open; half_open_in_flight = 1 }
          else view b k))
unfolding machine_allow
allow-opened b now k u h o =
    ground (arith, text_beq_iff k k, allow-machine_allow b now k u.enabled k)

-- How many of the requests that ask in turn are let through, with no permit coming back meanwhile.
unfoldable pub admitted : List ℕ → Text → CircuitBreaker → ℕ
admitted [] k b = 0
admitted (now ∷ nows) k b =
    let (b', _, allowed) = allow now k b in
    if allowed then admitted nows k b' + 1 else admitted nows k b'

admitted-half_open :
    (nows : List ℕ) (b : CircuitBreaker) (k : Text)
    → IsUsable b.cfg
    → (view b k).state ≡ half_open
    → pos (view b k).half_open_in_flight ≤ℤ b.cfg.half_open_max_requests
    → pos (admitted nows k b + (view b k).half_open_in_flight) ≤ℤ b.cfg.half_open_max_requests
unfolding admitted machine_allow
admitted-half_open [] b k u o h = omega arith
admitted-half_open (now ∷ nows) b k u o h = ground (
  arith,
  text_beq_iff k k,
  u,
  allow-cfg now k b,
  allow-machine_allow b now k u.enabled k,
  admitted-half_open nows (allow now k b).0 k (rw (allow-cfg now k b) u),
)

-- However many requests ask while a sound backend is open or half-open, and whenever they ask, at
-- most `HalfOpenMaxRequests` are let through before a permit comes back, counting the probes that
-- are already out.
pub admitted-le-max :
    (nows : List ℕ) (b : CircuitBreaker) (k : Text)
    → IsUsable b.cfg
    → IsSound b.cfg (view b k)
    → (view b k).state ≢ closed
    → pos (admitted nows k b + (view b k).half_open_in_flight) ≤ℤ b.cfg.half_open_max_requests
unfolding admitted machine_allow
admitted-le-max [] b k u h o = omega (arith, h.probes_bounded)
admitted-le-max (now ∷ nows) b k u h o = ground (
  arith,
  text_beq_iff k k,
  allow-cfg now k b,
  allow-machine_allow b now k u.enabled k,
  admitted-half_open (now ∷ nows) b k u,
  admitted-half_open nows (allow now k b).0 k (rw (allow-cfg now k b) u),
  admitted-le-max nows (allow now k b).0 k (rw (allow-cfg now k b) u),
)

module _ (b : CircuitBreaker) (now : ℕ) (p : CircuitBreakerPermit) where
  -- A success that comes in late overrides the cut-off: whenever a granted permit of an open
  -- backend reports success, however recently the backend opened, it is closed at once with no
  -- failure counted, and the next request is let through.
  pub succeed-opened :
      b.cfg.enabled ≡ true
      → p.allowed ≡ true
      → p.done ≡ false
      → (view b p.backend).state ≡ opened
      → (later : ℕ)
      → ((view (succeed now p b).0 p.backend).state ≡ closed)
        × ((view (succeed now p b).0 p.backend).consecutive_failures ≡ 0)
        × ((allow later p.backend (succeed now p b).0).2 ≡ true)
  unfolding machine_settle
  succeed-opened on granted fresh o later = ground (
    arith,
    text_beq_iff p.backend p.backend,
    finish-cfg now true true p b,
    finish-machine_settle b now p on granted fresh success p.backend,
    allow_closed (succeed now p b).0 later p.backend,
  )

  -- A permit gives back a probe slot whether it took one or not: with every probe of a half-open
  -- backend out, any granted permit of it that is dropped, also one from before the backend opened,
  -- lets one more probe through while the others are still out.
  pub ignore-half_open :
      b.cfg.enabled ≡ true
      → p.allowed ≡ true
      → p.done ≡ false
      → (view b p.backend).state ≡ half_open
      → b.cfg.half_open_max_requests ≡ pos (view b p.backend).half_open_in_flight
      → 0 < (view b p.backend).half_open_in_flight
      → (later : ℕ)
      → ((allow later p.backend b).2 ≡ false)
        × ((allow later p.backend (ignore now p b).0).2 ≡ true)
  unfolding machine_settle machine_allow
  ignore-half_open on granted fresh o full some_out later = ground (
    arith,
    text_beq_iff p.backend p.backend,
    finish-cfg now false false p b,
    finish-machine_settle b now p on granted fresh ignored p.backend,
    allow-machine_allow b later p.backend on p.backend,
    allow-machine_allow (ignore now p b).0 later p.backend (rw (finish-cfg now false false p b) on)
        p.backend,
  )
