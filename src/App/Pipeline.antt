-- ===== src/App/Pipeline.antt =====
-- A chat request on its way through the middlewares (`New` of internal/app/app.go and `Register` of
-- internal/llm/handler.go): the API key, the user's request rate, the token budget, the requests in
-- flight, and the handler, each where it is enabled. The handler is what it does to its writer. A
-- request runs from its arrival to its end; the slots that others hold stay theirs meanwhile.
use agent.Base.{ℕ, Bool, true, false, Option, none, some, List, [], if◌then◌else◌}
use agent.Text.{Text, codes}
use agent.Config.{Config, OpenTelemetryConfig}
use agent.Handler.{Handler, new_handler}
use agent.Telemetry.{Runtime, Sdk, new_runtime}
use agent.Config.Validate.{Parsers, ConfigError}
use agent.Config.Whole.{validate}
use agent.Auth.{ApiKeyAuthenticator, AuthResult, ready, failed, Identity, new_api_key_authenticator}
use agent.Auth
use agent.RateLimit.{RateLimiter, UserLimiter, new_user_limiter}
use agent.RateLimit
use agent.Budget.{BudgetLimiter, new_budget_limiter}
use agent.Controller.{Json, Request, HandlerRun, returned, panicked, Reply, passed, served, Handled}
use agent.Controller
use agent.Concurrency.{Limiter, new_limiter, acquire}
use agent.Errors.{ErrorBody, write_concurrency_error}

-- The middlewares of the chat route, `none` for one that is not enabled.
pub record Gateway (F B : Type 0) : Type 0 where
  pub authenticator : Option ApiKeyAuthenticator
  pub users : Option (UserLimiter F B)
  pub budget : Option BudgetLimiter
  pub slots : Option Limiter

-- `App` without its configuration, logger and server: the runtime of its telemetry, the handler of the
-- models, and the middlewares of the chat route.
pub record App (F B : Type 0) : Type 0 where
  pub telemetry_runtime : Runtime
  pub handler : Handler
  pub route : Gateway F B

-- The runtime that is given, or a new one; `none` is an error.
unfoldable pub runtime_or_new : Sdk → Option Runtime → OpenTelemetryConfig → Option Runtime
unfolding new_runtime
runtime_or_new sdk (some runtime) cfg = some runtime
runtime_or_new sdk none cfg = new_runtime sdk cfg

-- `none` is an error.
abbrev pub authenticator_of : Bool → AuthResult → Option (Option ApiKeyAuthenticator)
authenticator_of false r = some none
authenticator_of true (ready a) = some (some a)
authenticator_of true (failed e) = none

abbrev enabled : {A : Type 0} → Bool → A → Option A
enabled on a = if on then some a else none

pub record ChatRequest : Type 0 where
  pub method : Text
  pub header : Text → Text
  pub raw_body : Option Text

-- The clock at the rate limit, at the reservation and at the settlement.
pub record Clock : Type 0 where
  pub arrival : ℕ
  pub reserved : ℕ
  pub settled : ℕ

-- What becomes of a request.
pub data Outcome : Type 0 where
  missing_api_key invalid_api_key no_user : Outcome
  slow_down : ℕ → Outcome
  budgeted : Reply → Outcome
  ran : HandlerRun → Outcome

module _ {F : Type 0} (rate : RateLimiter F) (canonical : Text → Text) where
  open rate use {Bucket}

  -- The rest of `New`, with the authenticator made or not.
  abbrev pub gateway_with :
      Config F → Option (Option ApiKeyAuthenticator) → Option (Gateway F Bucket)
  gateway_with cfg none = none
  gateway_with cfg (some a) = some (record {
    authenticator = a;
    users =
        enabled cfg.rate_limit.user.enabled (new_user_limiter rate canonical cfg.rate_limit.user);
    budget = enabled cfg.token_usage.enabled (new_budget_limiter cfg.token_usage);
    slots = enabled cfg.rate_limit.concurrency.enabled (new_limiter cfg.rate_limit.concurrency);
  })

  abbrev pub app_with : Option Runtime → Handler → Option (Gateway F Bucket) → Option (App F Bucket)
  app_with none handler route = none
  app_with (some runtime) handler none = none
  app_with (some runtime) handler (some route) =
      some (record { telemetry_runtime = runtime; handler = handler; route = route })

  abbrev pub checked_app : Option (App F Bucket) → Option ConfigError → Option (App F Bucket)
  checked_app a none = a
  checked_app a (some e) = none

  -- `New`, with the chat route; the parsers serve the check of the configuration, and `given` is the
  -- runtime that `New` is called with, if any. `NewHandler` returns no error.
  unfoldable pub new_gateway : Parsers F → Sdk → Option Runtime → Config F → Option (App F Bucket)
  unfolding validate runtime_or_new new_handler new_api_key_authenticator new_user_limiter
      new_budget_limiter new_limiter
  new_gateway p sdk given cfg =
      checked_app
        (app_with (runtime_or_new sdk given cfg.observability.open_telemetry)
          (new_handler cfg.ai (some []))
          (gateway_with cfg
            (authenticator_of cfg.auth.enabled (new_api_key_authenticator canonical cfg.auth))))
        (validate p cfg)

module _ (encode : ErrorBody → Text) where
  -- What the limit on requests in flight makes of the handler: run in a slot, or an answer of 429.
  unfoldable pub guarded : Option Limiter → HandlerRun → HandlerRun
  unfolding acquire write_concurrency_error
  guarded none next = next
  guarded (some l) next =
      let (l', ok) = acquire l in
      let refusal =
        write_concurrency_error encode 429 (codes "当前并发请求过多，请稍后重试") (codes "rate_limit_error") in
      if ok then next else returned refusal.calls (codes "application/json; charset=utf-8")

abbrev pub budget_request : Option Identity → ChatRequest → Request
budget_request identity r = record {
  method = r.method;
  raw_body = r.raw_body;
  identity = identity;
  header = r.header;
}

module _ {F : Type 0} (rate : RateLimiter F) (json : Json) (can_flush : Bool) where
  open rate use {Bucket}

  -- From the token budget on.
  unfoldable pub budget_stage :
      Option Identity
      → ChatRequest
      → Clock
      → HandlerRun
      → Option BudgetLimiter
      → Option BudgetLimiter × Outcome
  unfolding Controller.middleware
  budget_stage identity r t next none = (none, ran next)
  budget_stage identity r t next (some l) =
      let h =
        Controller.middleware json can_flush (budget_request identity r) t.reserved t.settled next
          l in
      (some h.limiter, budgeted h.reply)

  abbrev pub with_budget :
      Gateway F Bucket → Option BudgetLimiter × Outcome → Gateway F Bucket × Outcome
  with_budget g (budget, o) = (record g { budget = budget }, o)

  abbrev pub by_rate :
      Gateway F Bucket → Gateway F Bucket × Outcome → RateLimit.Verdict → Gateway F Bucket × Outcome
  by_rate g next RateLimit.next_handler = next
  by_rate g next RateLimit.no_identity = (g, no_user)
  by_rate g next (RateLimit.too_many seconds) = (g, slow_down seconds)

  -- From the rate limit on, which is given apart.
  unfoldable pub rate_stage :
      Option Identity
      → ChatRequest
      → Clock
      → HandlerRun
      → Option (UserLimiter F Bucket)
      → Gateway F Bucket
      → Gateway F Bucket × Outcome
  unfolding budget_stage RateLimit.middleware
  rate_stage identity r t next none g = with_budget g (budget_stage identity r t next g.budget)
  rate_stage identity r t next (some l) g =
      let (l', verdict) =
        RateLimit.middleware rate identity (r.header l.identity_header) t.arrival l in
      let g' = record g { users = some l' } in
      by_rate g' (with_budget g' (budget_stage identity r t next g.budget)) verdict

  abbrev pub by_key :
      (Option Identity → Gateway F Bucket × Outcome)
      → Gateway F Bucket
      → Auth.Verdict
      → Gateway F Bucket × Outcome
  by_key next g Auth.missing_key = (g, missing_api_key)
  by_key next g Auth.invalid_key = (g, invalid_api_key)
  by_key next g (Auth.next_with identity) = next (some identity)

  -- From the API key on, whose authenticator is given apart.
  unfoldable pub chat :
      (Text → List ℕ)
      → ChatRequest
      → Clock
      → HandlerRun
      → Option ApiKeyAuthenticator
      → Gateway F Bucket
      → Gateway F Bucket × Outcome
  unfolding rate_stage Auth.middleware
  chat sha256 r t next none g = rate_stage none r t next g.users g
  chat sha256 r t next (some a) g =
      by_key (λ identity. rate_stage identity r t next g.users g) g
        (Auth.middleware sha256 a (r.header a.header))

  -- A request to the chat route; the slot that it may take is given back at its end.
  unfoldable pub serve :
      (ErrorBody → Text)
      → (Text → List ℕ)
      → ChatRequest
      → Clock
      → HandlerRun
      → Gateway F Bucket
      → Gateway F Bucket × Outcome
  unfolding chat guarded
  serve encode sha256 r t handler g =
      chat sha256 r t (guarded encode g.slots handler) g.authenticator g
