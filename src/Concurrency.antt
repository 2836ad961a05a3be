-- ===== src/Concurrency.antt =====
-- The limit on requests in flight (internal/concurrency/limiter.go): a buffered channel whose
-- elements are the slots taken.
use agent.Base.{
  ℕ, ◌+◌, ◌-◌, ◌≡◌, ◌≤◌, ◌<◌, Bool, true, false, Option, none, some, ltb, if◌then◌else◌, arith,
}
use agent.Num.{pos_part}
use agent.Config.{ConcurrencyLimitConfig}

pub record Limiter : Type 0 where
  pub slots : ℕ
  pub capacity : ℕ

-- `make` panics at a negative capacity, which the configuration's validation excludes.
unfoldable pub new_limiter : ConcurrencyLimitConfig → Limiter
new_limiter cfg = record { slots = 0; capacity = pos_part cfg.max_in_flight }

-- A send that does not block.
unfoldable pub acquire : Limiter → Limiter × Bool
acquire l = if ltb l.slots l.capacity then (record l { slots = l.slots + 1 }, true) else (l, false)

-- A receive, `none` where it would block.
unfoldable pub release : Limiter → Option Limiter
release l = if ltb 0 l.slots then some (record l { slots = l.slots - 1 }) else none

-- The middleware's requests, in any interleaving: `serving` run the next handler, `refused` were
-- answered 429.
pub record Gate : Type 0 where
  pub limiter : Limiter
  pub serving : ℕ
  pub refused : ℕ

unfoldable pub arrive : Gate → Gate
unfolding acquire
arrive g =
    let (l, ok) = acquire g.limiter in
    if ok
    then record g { limiter = l; serving = g.serving + 1 }
    else record g { limiter = l; refused = g.refused + 1 }

-- A handler returns or panics; the deferred `release` runs.
pub data Step (g : Gate) : Gate → Type 0 where
  arrives : Step g (arrive g)
  leaves :
      {l : Limiter}
      → 0 < g.serving
      → release g.limiter ≡ some l
      → Step g (record g { limiter = l; serving = g.serving - 1 })

pub data Steps (g : Gate) : Gate → Type 0 where
  here : Steps g g
  next : {h k : Gate} → Steps g h → Step h k → Steps g k

pub record IsBounded (cap : ℕ) (g : Gate) : Type 0 where
  pub counted : g.limiter.slots ≡ g.serving
  pub capped : g.serving ≤ g.limiter.capacity
  pub kept : g.limiter.capacity ≡ cap

arrive-IsBounded : (cap : ℕ) (g : Gate) → IsBounded cap g → IsBounded cap (arrive g)
unfolding arrive
arrive-IsBounded cap g b = ground arith

leave-IsBounded :
    (cap : ℕ) (g : Gate) (l : Limiter)
    → IsBounded cap g
    → release g.limiter ≡ some l
    → IsBounded cap (record g { limiter = l; serving = g.serving - 1 })
unfolding release
leave-IsBounded cap g l b e = ground arith

Steps-IsBounded : {g h : Gate} (cap : ℕ) → IsBounded cap g → Steps g h → IsBounded cap h
Steps-IsBounded cap b here = b
Steps-IsBounded cap b (next {h} r arrives) = arrive-IsBounded cap h (Steps-IsBounded cap b r)
Steps-IsBounded cap b (next {h} r (leaves {l} s e)) =
    leave-IsBounded cap h l (Steps-IsBounded cap b r) e

abbrev pub opening : ConcurrencyLimitConfig → Gate
opening cfg = record { limiter = new_limiter cfg; serving = 0; refused = 0 }

-- However requests come and go, never more are served at once than `MaxInFlight`. Each of them
-- holds one slot, so that one that ends always has a slot to give back, and the release blocks only
-- with none served; and a request that arrives is refused exactly while `MaxInFlight` are served.
pub Steps-capped :
    (cfg : ConcurrencyLimitConfig) {g : Gate}
    → Steps (opening cfg) g
    → (g.serving ≤ pos_part cfg.max_in_flight)
      × (release g.limiter
          ≡ (if ltb 0 g.serving then some (record g.limiter { slots = g.serving - 1 }) else none))
      × ((acquire g.limiter).1 ≡ ltb g.serving (pos_part cfg.max_in_flight))
unfolding new_limiter acquire release
Steps-capped cfg {g} r =
    let b = Steps-IsBounded (pos_part cfg.max_in_flight) (ground arith) r in
    (ground (arith, b), ground (arith, b), ground (arith, b))
