-- ===== src/Proxy/Fallback.antt =====
-- The attempts on a chain of models (`serveChatCompletionWithFallback` and `proxyOpenAICompatible` of
-- internal/llm/proxy.go) and the checks before them (`ServeHTTP` of internal/llm/handler.go).
use agent.Base.{ℕ, ◌+◌, Bool, false, not, ◌&&◌, Option, none, some, List, [], ◌∷◌, if◌then◌else◌}
use agent.Text.{Text, text_eq, codes}
use agent.Map.{◌==◌, lookup}
use agent.Breaker.{CircuitBreakerPermit, allow}
use agent.Candidates.{Routes, ModelBackend, candidate_models}
use agent.Proxy.{
  Header, Outside, Exchange, ChatCompletionRequest, AttemptResult, FailureSummary, observe,
  retryable_attempt, backend_request, model_fallback, observe_metric, reply_error,
}
use agent.Proxy.Attempt.{Attempt, proxy_non_stream}
use agent.Proxy.Stream.{proxy_stream}
use agent.Proxy.Mock.{serve_mock}

-- What every attempt of a request reads.
pub record Request : Type 0 where
  pub header : Header
  pub raw_body : Text
  pub chat : ChatCompletionRequest

-- The attempt behind the breaker, with the observation of the deferred function.
unfoldable pub observed_attempt : Text → Attempt → AttemptResult × Exchange
unfolding observe_metric
observed_attempt name a = (a.outcome, observe_metric (backend_request name a.result) a.after)

unfoldable pub attempted : Text → Option Attempt → Option (AttemptResult × Exchange)
unfolding observed_attempt
attempted name none = none
attempted name (some a) = some (observed_attempt name a)

-- `allowBackendRequest`
unfoldable pub admitted : Outside → Text → Exchange → CircuitBreakerPermit × Bool × Exchange
admitted o name e =
    let (b, permit, ok) = allow (o.now e.ticks) name e.breaker in
    (permit, ok, record e { breaker = b; ticks = e.ticks + 1 })

-- `proxyOpenAICompatible`; `none` means that a loop of a stream ran out of fuel.
unfoldable pub proxy_openai_compatible :
    Outside → Header → Text → Bool → ModelBackend → Exchange → Option (AttemptResult × Exchange)
unfolding admitted attempted observed_attempt proxy_non_stream proxy_stream
proxy_openai_compatible o h raw_body stream backend e₀ =
    let name = backend.cfg.name in
    let (permit, ok, e) = admitted o name e₀ in
    if not ok
    then some (retryable_attempt (codes "circuit_open"), e)
    else if stream
    then attempted name (proxy_stream o h raw_body backend permit e)
    else some (observed_attempt name (proxy_non_stream o h raw_body backend permit e))

abbrev pub server_error : Outside → ℕ → Text → Exchange → Exchange
server_error o status message e = reply_error o status message (codes "server_error") [] e

-- The answer when no candidate is left.
unfoldable pub exhausted : Outside → FailureSummary → Exchange → Exchange
exhausted o failures e =
    if failures.any && failures.all_timeout
    then server_error o 504 (codes "模型后端请求超时") e
    else server_error o 503 (codes "模型后端暂不可用") e

-- `rawBody`, with the model rewritten unless it is the one asked for.
abbrev pub candidate_body : Outside → Request → Text → Option Text
candidate_body o r model =
    if model == r.chat.model then some r.raw_body else o.rewrite_model r.raw_body model

abbrev pub note_fallback : Text → List Text → Text → Exchange → Exchange
note_fallback model [] reason e = e
note_fallback model (next ∷ rest) reason e = observe_metric (model_fallback model next reason) e

-- The loop over the candidates. A candidate is configured, so the case without a backend is that of
-- the zero value of the map and is not reached.
unfoldable pub try_candidates :
    Outside → Routes → Request → List Text → FailureSummary → Exchange → Option Exchange
unfolding exhausted observe observe_metric
try_candidates o routes r [] failures e = some (exhausted o failures e)
try_candidates o routes r (model ∷ rest) failures e = elim (lookup model routes.backends) [
  | none ↦ none
  | some backend ↦ elim (candidate_body o r model) [
    | none ↦ some (server_error o 500 (codes "改写降级模型请求失败") e)
    | some body ↦
        if backend.backend_type == codes "mock"
        then some (serve_mock o (record r.chat { model = model }) backend e)
        else elim (proxy_openai_compatible o r.header body r.chat.stream backend e) [
          | none ↦ none
          | some (result, e') ↦
              let after = note_fallback model rest result.reason e' in
              let next = try_candidates o routes r rest (observe result failures) after in
              if result.done
              then some e'
              else if result.retryable
              then next
              else some (server_error o 503 (codes "模型后端暂不可用") e')
        ]
  ]
]

abbrev pub no_failures : FailureSummary
no_failures = record { any = false; all_timeout = false }

unfoldable pub serve_with_fallback : Outside → Routes → Request → Exchange → Option Exchange
unfolding try_candidates
serve_with_fallback o routes r e = elim (candidate_models routes r.chat.model) [
  | none ↦ none
  | some [] ↦
      some (reply_error o 404 (codes "未找到可用模型候选") (codes "invalid_request_error") (codes "model") e)
  | some (model ∷ rest) ↦ try_candidates o routes r (model ∷ rest) no_failures e
]
