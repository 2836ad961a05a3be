-- ===== src/Proxy/Answer.antt =====
-- What the client of a chat completion is sent (internal/llm/proxy.go).
use agent.Base.{
  ℕ, ◌≡◌, refl, Bool, true, false, not, ◌&&◌, Option, none, some, List, [], ◌∷◌, arith, if-intro,
  Option-cases, Bool-cases, ◌⊎◌, inl, inr, subst, ap, ◌∙◌,
}
use agent.Text.{Text, codes, text_eq}
use agent.Map.{◌==◌, lookup}
use agent.Breaker.{CircuitBreakerPermit}
use agent.Candidates.{Routes, ModelBackend, candidate_models}
use agent.Proxy.{
  Header, Outside, Client, Exchange, ChatCompletionRequest, AttemptResult, FailureSummary, observe,
  retryable_attempt, observe_metric, reply_error,
}
use agent.Proxy.Attempt.{Attempt, proxy_non_stream}
use agent.Proxy.Stream.{proxy_stream}
use agent.Proxy.Mock.{serve_mock}
use agent.Proxy.Settled.{IsSettled, proxy_non_stream-IsSettled}
use agent.Proxy.StreamSettled.{Holds, proxy_stream-IsSettled}
use agent.Proxy.Fallback.{
  Request, attempted, observed_attempt, admitted, candidate_body, note_fallback, no_failures,
  exhausted, server_error, proxy_openai_compatible, try_candidates, serve_with_fallback,
}

-- Whether the attempt is done, or retryable with the client as it was.
abbrev Undecided : Client → AttemptResult × Exchange → Type 0
Undecided w (result, e) =
    (result.retryable ≡ not result.done) × ((result.retryable ≡ false) ⊎ (e.client ≡ w))

observed_attempt-Undecided :
    (o : Outside) (name : Text) (p : CircuitBreakerPermit) (e : Exchange) (a : Attempt)
    → IsSettled o p e a
    → Undecided e.client (observed_attempt name a)
unfolding observed_attempt observe_metric
observed_attempt-Undecided o name p e a h = (h.exclusive, ground (arith, h.untouched))

attempted-Undecided :
    (o : Outside) (name : Text) (p : CircuitBreakerPermit) (e : Exchange) (a : Option Attempt)
    (x : AttemptResult × Exchange)
    → Holds (IsSettled o p e) a
    → attempted name a ≡ some x
    → Undecided e.client x
unfolding attempted Holds
attempted-Undecided o name p e none x h eq = ground arith
attempted-Undecided o name p e (some a) x h eq =
    ground (arith, observed_attempt-Undecided o name p e a h)

-- A computation returns one thing.
returned :
    {A : Type 0} (P : A → Type 0) (b a : A) {x : Option A} → x ≡ some a → x ≡ some b → P a → P b
returned P b a ha hb = subst P (ground (arith, ha, hb))

-- An attempt on a backend is either done or retryable, and where it is retryable, nothing of it has
-- reached the client.
pub proxy_openai_compatible-untouched :
    (o : Outside) (h : Header) (raw_body : Text) (stream : Bool) (backend : ModelBackend)
    (e : Exchange) (result : AttemptResult) (e' : Exchange)
    → proxy_openai_compatible o h raw_body stream backend e ≡ some (result, e')
    → (result.retryable ≡ not result.done) × ((result.retryable ≡ false) ⊎ (e'.client ≡ e.client))
unfolding proxy_openai_compatible admitted
proxy_openai_compatible-untouched o h raw_body stream backend e result e' eq =
    let (permit, ok, e₁) = admitted o backend.cfg.name e in
    let name = backend.cfg.name in
    let goal : AttemptResult × Exchange → Type 0 = Undecided e.client in
    elim (Bool-cases ok) [
      | inr refused ↦
          returned goal (result, e') (retryable_attempt (codes "circuit_open"), e₁)
            (ground (arith, refused)) eq (refl, inr refl)
      | inl allowed ↦ elim (Bool-cases stream) [
        | inl streamed ↦
            attempted-Undecided o name permit e₁ (proxy_stream o h raw_body backend permit e₁)
              (result, e') (proxy_stream-IsSettled o h raw_body backend permit e₁)
              (ground (arith, allowed, streamed))
        | inr whole ↦
            returned goal (result, e')
              (observed_attempt name (proxy_non_stream o h raw_body backend permit e₁))
              (ground (arith, allowed, whole)) eq
              (observed_attempt-Undecided o name permit e₁
                (proxy_non_stream o h raw_body backend permit e₁)
                (proxy_non_stream-IsSettled o h raw_body backend permit e₁))
      ]
    ]

-- What ends a request: an error, the mock backend, or an attempt that is done.
pub data Answers (o : Outside) (e : Exchange) : Exchange → Type 0 where
  by_error :
      (status : ℕ) (message type param : Text)
      → Answers o e (reply_error o status message type param e)
  by_mock :
      (req : ChatCompletionRequest) (backend : ModelBackend)
      → Answers o e (serve_mock o req backend e)
  by_attempt :
      (h : Header) (body : Text) (stream : Bool) (backend : ModelBackend) (result : AttemptResult)
      {e' : Exchange}
      → proxy_openai_compatible o h body stream backend e ≡ some (result, e')
      → result.done ≡ true
      → Answers o e e'

abbrev Answered : Outside → Exchange → Exchange → Type 0
Answered o e e' = (e₁ : Exchange) × (e₁.client ≡ e.client) × Answers o e₁ e'

exhausted-Answers :
    (o : Outside) (f : FailureSummary) (e : Exchange) → Answers o e (exhausted o f e)
unfolding exhausted
exhausted-Answers o f e =
    if-intro (Answers o e) (f.any && f.all_timeout)
      (λ h. by_error 504 (codes "模型后端请求超时") (codes "server_error") [])
      (λ h. by_error 503 (codes "模型后端暂不可用") (codes "server_error") [])

note_fallback-client :
    (model : Text) (rest : List Text) (reason : Text) (e : Exchange)
    → (note_fallback model rest reason e).client ≡ e.client
unfolding observe_metric
note_fallback-client model [] reason e = refl
note_fallback-client model (next ∷ rest) reason e = ground arith

kept_client : {A : Type 0} (b : Bool) → (b ≡ false) ⊎ A → b ≡ true → A
kept_client b (inl h) e = ground (arith, h, e)
kept_client b (inr a) e = a

try_candidates-answer :
    (o : Outside) (routes : Routes) (r : Request) (models : List Text) (f : FailureSummary)
    (e e' : Exchange)
    → try_candidates o routes r models f e ≡ some e'
    → (e₁ : Exchange) × (e₁.client ≡ e.client) × Answers o e₁ e'
unfolding try_candidates
try_candidates-answer o routes r [] f e e' eq =
    returned (Answered o e) e' (exhausted o f e) refl eq (e, refl, exhausted-Answers o f e)
try_candidates-answer o routes r (m ∷ models) f e e' eq =
    elim (Option-cases (lookup m routes.backends)) [
      | inl none_found ↦ ground (arith, none_found)
      | inr (backend, found) ↦ elim (Option-cases (candidate_body o r m)) [
        | inl no_body ↦
            returned (Answered o e) e' (server_error o 500 (codes "改写降级模型请求失败") e)
              (ground (arith, found, no_body)) eq
              (e, refl, by_error 500 (codes "改写降级模型请求失败") (codes "server_error") [])
        | inr (body, has_body) ↦ elim (Bool-cases (backend.backend_type == codes "mock")) [
          | inl mock ↦
              returned (Answered o e) e' (serve_mock o (record r.chat { model = m }) backend e)
                (ground (arith, found, has_body, mock)) eq
                (e, refl, by_mock (record r.chat { model = m }) backend)
          | inr real ↦
              elim (Option-cases
                (proxy_openai_compatible o r.header body r.chat.stream backend e)) [
                  | inl stuck ↦ ground (arith, found, has_body, real, stuck)
                  | inr ((result, e₂), ran) ↦
                      let (either, untouched) =
                        proxy_openai_compatible-untouched o r.header body r.chat.stream backend e
                          result e₂ ran in
                      elim (Bool-cases result.done) [
                        | inl done ↦
                            returned (Answered o e) e' e₂
                              (ground (arith, found, has_body, real, ran, done)) eq
                              (
                                e,
                                refl,
                                by_attempt r.header body r.chat.stream backend result ran done,
                              )
                        | inr again ↦
                            let (e₁, same, answers) =
                              try_candidates-answer o routes r models (observe result f)
                                (note_fallback m models result.reason e₂) e'
                                (ground (arith, found, has_body, real, ran, again, either)) in
                            (
                              e₁,
                              same
                                  ∙ note_fallback-client m models result.reason e₂
                                  ∙ kept_client result.retryable untouched (either ∙ ap not again),
                              answers,
                            )
                      ]
                ]
        ]
      ]
    ]

-- The client of a chat completion that ends is answered once: what it is sent is one error, the answer
-- of the mock backend, or that of one attempt that is done; of the attempts before it, nothing has
-- reached the client.
pub serve_with_fallback-answer :
    (o : Outside) (routes : Routes) (r : Request) (e e' : Exchange)
    → serve_with_fallback o routes r e ≡ some e'
    → (e₁ : Exchange) × (e₁.client ≡ e.client) × Answers o e₁ e'
unfolding serve_with_fallback
serve_with_fallback-answer o routes r e e' eq =
    elim (Option-cases (candidate_models routes r.chat.model)) [
      | inl stuck ↦ ground (arith, stuck)
      | inr ([], no_candidates) ↦
          returned (Answered o e) e'
            (reply_error o 404 (codes "未找到可用模型候选") (codes "invalid_request_error") (codes "model")
              e)
            (ground (arith, no_candidates)) eq
            (
              e,
              refl,
              by_error 404 (codes "未找到可用模型候选") (codes "invalid_request_error") (codes "model"),
            )
      | inr (m ∷ models, found) ↦
          try_candidates-answer o routes r (m ∷ models) no_failures e e' (ground (arith, found))
    ]
