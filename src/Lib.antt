-- ===== src/Lib.antt =====
-- The gateway for language models of this repository: what its Go code does with a request, and
-- why that is right. A chat request passes the middlewares for API keys, for the request rate of a
-- user, for the token budget and for requests in flight, and comes to the handler, which tries the
-- backends of the model and of its fallbacks, each behind a circuit breaker, and passes the answer
-- on, whole or as a stream of events. Each part is a module, translated function by function; a Go
-- method on a shared object takes the object and returns it changed, in the order in which the
-- mutex is taken.
--
-- Shared modules: Base (names, tests, lists), Num (a Go `int`: ℤ with `wrap64`), Map (association
-- lists for Go maps), Text (strings as code points, and the functions of package strings), Hex.
--
-- * Breaker is internal/llm/circuit_breaker.go: `allow` is Allow, `finish` is finish behind
--   Succeed, Fail and Ignore. Breaker.Spec is the machine of one backend, Breaker.Invariant and
--   Breaker.Gauge follow any sequence of calls, Breaker.Behaviour and Breaker.Recovery are what a
--   client sees.
-- * Config is internal/config: the records of config.go, Config.Validate, Config.Models,
--   Config.Fallbacks, Config.ApiKeys and Config.Whole the checks of validate.go and auth.go, and
--   Config.Loading loader.go, defaults.go and duration.go. Config.Walks and Config.Cycles are
--   about the search for a cycle among the fallbacks.
-- * Candidates and Config.Normalize are internal/llm/fallback.go: the chain of models
--   (candidateModels) and the defaults. The depth of the visit is bounded by the number of models.
-- * Proxy is internal/llm/proxy.go: Proxy.Attempt is one attempt, Proxy.Stream the streamed one of
--   internal/llm/proxy_stream.go, Proxy.Fallback the loop over the candidates, Proxy.Mock
--   internal/llm/mock.go, Proxy.Upstream the request to a backend with internal/llm/backend.go. An
--   Exchange is the client's writer, the breaker, the metrics and the requests sent.
--   Proxy.Settled, Proxy.StreamSettled, Proxy.Answer, Proxy.Exhausted and Proxy.Total are about
--   what a request leaves.
-- * Sse is internal/llm/sse.go. A reader is the lines it has left, the bytes after them and the
--   error at the end; the rounds of the copying are bounded by these.
-- * Handler is internal/llm/handler.go: NewHandler's tables, ServeHTTP and ListModels.
-- * Budget is internal/tokenusage/budget.go: Budget.Window reads it as a table of windows,
--   Budget.Reserve is about each method, Budget.Ledger about requests in any interleaving.
-- * Usage is internal/tokenusage/usage.go and response_usage.go, Capture is capture_writer.go and
--   Controller is middleware.go there: estimate, reserve, serve, settle. Usage.Same compares the
--   estimate with that of internal/llm/content.go.
-- * Auth is internal/auth, RateLimit internal/ratelimit, Concurrency internal/concurrency.
-- * Tracing is internal/tracing/ids.go and headers.go, Tracing.Outbound context.go and the headers
--   that are set, Tracing.Writer response_writer.go and middleware.go.
-- * Metrics is internal/observability/metrics.go and request_metrics.go, Health is health.go there
--   and internal/app/lifecycle.go, Admin is internal/admin/observability.go, Admin.Pages admin.go
--   there, Errors the response.go of each middleware, Telemetry internal/telemetry/runtime.go,
--   exporters.go and propagator.go, Telemetry.Logger and Telemetry.Fanout logger.go there.
-- * App.Pipeline is the chat route of internal/app/app.go: the parts above in the order in which a
--   request meets them. App.Identity, App.Refused and App.Busy are about a request there, App.Accepted,
--   App.Routes, App.Keys and App.Start about what an accepted configuration gives to the parts
--   that are made from it.
-- * Tests has runs at concrete inputs.
--
-- Not under this repository, and so parameters: the HTTP client, JSON, SHA-256, the canonical
-- header key, golang.org/x/time/rate, Prometheus, log/slog, OpenTelemetry, the parsers of addresses
-- and URLs, the file server, random bytes, files, the environment and the clock. Text is code points, so it is valid
-- UTF-8; letters outside ASCII keep their case unless the result is ASCII. Times are nanoseconds.
-- A Go map is ranged over in the order of its list. Requests between an attempt and its settlement
-- are interleaved in Breaker and Budget, not in Proxy. A nil breaker or limiter, spans, logs, the
-- profiler and the other routes are left out. Fuel is given to the visit of the fallbacks (one
-- more than there are backends' models), the search for a cycle (one more than there are models,
-- as deep as a chain without one goes), the rounds of a stream (two more than the lines and the
-- bytes after them) and the cutting of a text (its length).
-- The body of a response may go on for ever (the ending `unended`): then no fuel is enough, and the
-- streamed attempt does not return.
pub mod Base
pub mod Num
pub mod Map
pub mod Text
pub mod Config
pub mod Breaker
pub mod Candidates
pub mod Budget
pub mod Usage
pub mod Capture
pub mod Hex
pub mod Auth
pub mod Controller
pub mod RateLimit
pub mod Concurrency
pub mod Sse
pub mod Proxy
pub mod Handler
pub mod Metrics
pub mod Tracing
pub mod Errors
pub mod Telemetry
pub mod Health
pub mod Admin
pub mod App
pub mod Tests
