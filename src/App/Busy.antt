-- ===== src/App/Busy.antt =====
-- A request that the limit on requests in flight turns away, and the token budget around it
-- (internal/app/app.go with internal/concurrency/limiter.go and internal/tokenusage/middleware.go).
use agent.Base.{
  ℕ, ◌+◌, ◌≡◌, ◌≤◌, ◌⊎◌, refl, ap, Bool, true, ◌&&◌, Option, none, some, List, arith, eqb_iff,
  subst, sym, Bool-cases, inl, inr,
}
use agent.Num.{pos, pos_part}
use agent.Text.{Text, text_eq, text_beq_iff, codes, is_empty}
use agent.Map.{◌==◌, nat_eq}
use agent.Auth.{Identity, ApiKeyAuthenticator}
use agent.Auth
use agent.RateLimit.{RateLimiter, UserLimiter}
use agent.RateLimit
use agent.Budget.{
  BudgetLimiter, BudgetWindow, empty_window, cleanup_locked, budget_for_identity, window_id,
}
use agent.Budget.Window.{window_of}
use agent.Budget.Reserve.{IsCounted, IsBudget, current_window}
use agent.Usage.{RequestEstimate, estimate_request}
use agent.Controller.{
  Json, Request, HandlerRun, max_response_body_bytes, returned, charged, estimated_request,
  reserve_and_serve,
}
use agent.Controller
use agent.Controller.Settled.{reserve_and_serve-window, charge}
use agent.Concurrency.{Limiter}
use agent.Errors.{ErrorBody}
use agent.App.Pipeline.{
  Gateway, ChatRequest, Clock, Outcome, budget_stage, rate_stage, chat, serve, guarded, by_rate,
  by_key,
}
use agent.App.Refused.{guarded-uncharged}

-- The window of an identity, if there is a budget at all.
abbrev pub window_in : Option BudgetLimiter → Text → ℕ → BudgetWindow
window_in none j i = empty_window
window_in (some l) j i = window_of l j i

abbrev pub cleaned : ℕ → Option BudgetLimiter → Option BudgetLimiter
cleaned now none = none
cleaned now (some l) = some (cleanup_locked now l)

-- A window has what it had before, or what the cleanup leaves of that.
abbrev pub IsUncharged : ℕ → Option BudgetLimiter → Option BudgetLimiter → Text → ℕ → Type 0
IsUncharged now o o' j i =
    (window_in o' j i ≡ window_in o j i) ⊎ (window_in o' j i ≡ window_in (cleaned now o) j i)

-- What the budget counts for everybody is in the range of an `int`.
pub record InRange (now : ℕ) (l : BudgetLimiter) : Type 0 where
  pub budgets : (k : Text) → IsBudget (budget_for_identity l k)
  pub counts : (k : Text) → IsCounted (current_window k now l)

abbrev AllInRange : ℕ → Option BudgetLimiter → Type 0
AllInRange now none = Unit
AllInRange now (some l) = InRange now l

same_window : (w : BudgetWindow) → IsCounted w → record w { used = pos (pos_part w.used + 0) } ≡ w
same_window w c = ground (arith, c.used_nonneg)

module _ (json : Json) (can_flush : Bool) (now later : ℕ) (run : HandlerRun) (l : BudgetLimiter)
    (range : InRange now l)
    (refused : (e : RequestEstimate) → charged json can_flush e run ≡ none) where
  reserve_and_serve-uncharged :
      (e : RequestEstimate) (k j : Text) (i : ℕ)
      → window_of (reserve_and_serve json can_flush e k now later run l).limiter j i
        ≡ window_of (cleanup_locked now l) j i
  reserve_and_serve-uncharged e k j i =
      let c = range.counts k in
      let w = window_of (cleanup_locked now l) j i in
      let free : charge (charged json can_flush e run) ≡ 0 = ap charge (refused e) in
      let settled =
        reserve_and_serve-window json can_flush e k now later run l (range.budgets k) c
          (omega (arith, c.fits, free)) j i in
      elim (Bool-cases ((k == j) && (window_id l now == i))) [
        | inl here ↦ ground (
          arith,
          settled,
          free,
          here,
          same_window w,
          c,
          text_beq_iff k j,
          eqb_iff (window_id l now) i,
        )
        | inr elsewhere ↦ ground (arith, settled, elsewhere)
      ]

  estimated_request-IsUncharged :
      (o : Option RequestEstimate) (q : Request) (j : Text) (i : ℕ)
      → IsUncharged now
          (some l)
          (some (estimated_request json can_flush o q now later run l).limiter)
          j
          i
  unfolding estimated_request
  estimated_request-IsUncharged none q j i = inl refl
  estimated_request-IsUncharged (some e) q j i =
      let k = Controller.identity_from_request q l.identity_header in
      elim (Bool-cases e.reservable) [
        | inr free ↦ rw (free) (inl refl)
        | inl reserving ↦ elim (Bool-cases (is_empty k)) [
          | inl nobody ↦ rw (reserving, nobody) (inl refl)
          | inr somebody ↦
              rw (reserving, somebody)
                (inr (reserve_and_serve-uncharged (record e { reservable = true }) k j i))
        ]
      ]

  middleware-IsUncharged :
      (method : Text) (raw_body : Option Text) (identity : Option Identity) (header : Text → Text)
      (j : Text) (i : ℕ)
      → let q : Request = record {
        method = method;
        raw_body = raw_body;
        identity = identity;
        header = header;
      } in
        IsUncharged now
          (some l)
          (some (Controller.middleware json can_flush q now later run l).limiter)
          j
          i
  unfolding Controller.middleware
  middleware-IsUncharged method none identity header j i =
      elim (Bool-cases (method == codes "POST")) [
        | inl post ↦ rw (post) (inl refl)
        | inr other ↦ rw (other) (inl refl)
      ]
  middleware-IsUncharged method (some raw_body) identity header j i =
      let q : Request = record {
        method = method;
        raw_body = some raw_body;
        identity = identity;
        header = header;
      } in
      elim (Bool-cases (method == codes "POST")) [
        | inl post ↦ rw (post) (
            estimated_request-IsUncharged
              (estimate_request json.content (json.as_request raw_body)
                l.default_max_completion_tokens)
              q j i)
        | inr other ↦ rw (other) (inl refl)
      ]

module _ {F : Type 0} (rate : RateLimiter F) (json : Json) (can_flush : Bool)
    (sha256 : Text → List ℕ) (r : ChatRequest) (t : Clock) (run : HandlerRun) (j : Text) (i : ℕ)
    (refused : (e : RequestEstimate) → charged json can_flush e run ≡ none) where
  open rate use {Bucket}

  budget_stage-IsUncharged :
      (identity : Option Identity) (o : Option BudgetLimiter)
      → AllInRange t.reserved o
      → IsUncharged t.reserved o (budget_stage rate json can_flush identity r t run o).0 j i
  unfolding budget_stage
  budget_stage-IsUncharged identity none h = inl refl
  budget_stage-IsUncharged identity (some l) h =
      middleware-IsUncharged json can_flush t.reserved t.settled run l h refused r.method r.raw_body
        identity r.header j i

  by_rate-IsUncharged :
      (g : Gateway F Bucket) (next : Gateway F Bucket × Outcome) (v : RateLimit.Verdict)
      → IsUncharged t.reserved g.budget next.0.budget j i
      → IsUncharged t.reserved g.budget (by_rate rate json can_flush g next v).0.budget j i
  by_rate-IsUncharged g next RateLimit.next_handler h = h
  by_rate-IsUncharged g next RateLimit.no_identity h = inl refl
  by_rate-IsUncharged g next (RateLimit.too_many seconds) h = inl refl

  rate_stage-IsUncharged :
      (identity : Option Identity) (users : Option (UserLimiter F Bucket)) (g : Gateway F Bucket)
      → AllInRange t.reserved g.budget
      → IsUncharged t.reserved g.budget
          (rate_stage rate json can_flush identity r t run users g).0.budget
          j
          i
  unfolding rate_stage
  rate_stage-IsUncharged identity none g h = budget_stage-IsUncharged identity g.budget h
  rate_stage-IsUncharged identity (some l) g h =
      let (l', verdict) =
        RateLimit.middleware rate identity (r.header l.identity_header) t.arrival l in
      let g' = record g { users = some l' } in
      by_rate-IsUncharged g' _ verdict (budget_stage-IsUncharged identity g.budget h)

  by_key-IsUncharged :
      (g : Gateway F Bucket) (v : Auth.Verdict)
      → AllInRange t.reserved g.budget
      → IsUncharged t.reserved g.budget
          (by_key rate json can_flush
            (λ identity. rate_stage rate json can_flush identity r t run g.users g)
            g
            v).0.budget
          j
          i
  by_key-IsUncharged g Auth.missing_key h = inl refl
  by_key-IsUncharged g Auth.invalid_key h = inl refl
  by_key-IsUncharged g (Auth.next_with identity) h =
      rate_stage-IsUncharged (some identity) g.users g h

  chat-IsUncharged :
      (key : Option ApiKeyAuthenticator) (g : Gateway F Bucket)
      → AllInRange t.reserved g.budget
      → IsUncharged t.reserved g.budget (chat rate json can_flush sha256 r t run key g).0.budget j i
  unfolding chat
  chat-IsUncharged none g h = rate_stage-IsUncharged none g.users g h
  chat-IsUncharged (some a) g h =
      by_key-IsUncharged g (Auth.middleware sha256 a (r.header a.header)) h

-- A request that finds no free slot costs its user no tokens: whatever becomes of it at the key, the
-- rate and the budget, afterwards each window of each identity has the tokens used and reserved
-- that it had before the request, or those that the cleanup of old windows leaves of them. For
-- budgets and windows in the range of an `int`.
pub serve-IsUncharged :
    {F : Type 0} (rate : RateLimiter F) (json : Json) (can_flush : Bool) (encode : ErrorBody → Text)
    (sha256 : Text → List ℕ) (r : ChatRequest) (t : Clock) (handler : HandlerRun)
    (g : Gateway F rate.Bucket) (l : Limiter) (b : BudgetLimiter)
    → g.slots ≡ some l
    → l.capacity ≤ l.slots
    → g.budget ≡ some b
    → InRange t.reserved b
    → (j : Text) (i : ℕ)
    → IsUncharged t.reserved g.budget
        (serve rate json can_flush encode sha256 r t handler g).0.budget
        j
        i
unfolding serve
serve-IsUncharged rate json can_flush encode sha256 r t handler g l b slots full budget range j i =
    let run = guarded encode g.slots handler in
    let refused : (e : RequestEstimate) → charged json can_flush e run ≡ none =
      subst
        (λ o. (e : RequestEstimate) → charged json can_flush e (guarded encode o handler) ≡ none)
        (sym slots) (guarded-uncharged encode json can_flush l handler full) in
    let held = subst (AllInRange t.reserved) (sym budget) range in
    chat-IsUncharged rate json can_flush sha256 r t run j i refused g.authenticator g held
