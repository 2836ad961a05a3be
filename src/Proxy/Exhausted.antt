-- ===== src/Proxy/Exhausted.antt =====
-- A chat completion of which every attempt fails (internal/llm/proxy.go).
use agent.Base.{
  ◌≡◌, refl, ap, ◌∙◌, Bool, true, false, ◌&&◌, none, some, List, [], ◌∷◌, arith, if◌then◌else◌, all,
}
use agent.Text.{Text, text_eq, codes}
use agent.Map.{◌==◌, lookup}
use agent.Candidates.{Routes, ModelBackend, candidate_models}
use agent.Proxy.{
  Outside, Exchange, AttemptResult, FailureSummary, observe, write_openai_error, observe_metric,
}
use agent.Proxy.Fallback.{
  Request, candidate_body, note_fallback, no_failures, exhausted, proxy_openai_compatible,
  try_candidates, serve_with_fallback,
}
use agent.Proxy.Answer.{proxy_openai_compatible-untouched}

-- The attempts on the candidates in order, none of which is done: their results, and the exchange
-- that they leave.
pub data AllFail (o : Outside) (routes : Routes) (r : Request)
    : List Text → Exchange → List AttemptResult → Exchange → Type 0 where
  none_left : {e : Exchange} → AllFail o routes r [] e [] e
  one_fails :
      {m : Text} {ms : List Text} {e e₂ : Exchange} {rs : List AttemptResult}
      (backend : ModelBackend) (body : Text) (result : AttemptResult) (e₁ : Exchange)
      → lookup m routes.backends ≡ some backend
      → candidate_body o r m ≡ some body
      → (backend.backend_type == codes "mock") ≡ false
      → proxy_openai_compatible o r.header body r.chat.stream backend e ≡ some (result, e₁)
      → result.done ≡ false
      → AllFail o routes r ms (note_fallback m ms result.reason e₁) rs e₂
      → AllFail o routes r (m ∷ ms) e (result ∷ rs) e₂

unfoldable pub observe_all : List AttemptResult → FailureSummary → FailureSummary
observe_all [] f = f
observe_all (r ∷ rs) f = observe_all rs (observe r f)

abbrev pub timed_out_all : List AttemptResult → Bool
timed_out_all = all (λ r. r.timeout)

observe_all-some :
    (rs : List AttemptResult) (f : FailureSummary)
    → f.any ≡ true
    → ((observe_all rs f).any ≡ true)
      × ((observe_all rs f).all_timeout ≡ (f.all_timeout && timed_out_all rs))
unfolding observe_all observe
observe_all-some [] f h = ground arith
observe_all-some (r ∷ rs) f h = ground (arith, observe_all-some rs (observe r f))

note_fallback-client :
    (model : Text) (rest : List Text) (reason : Text) (e : Exchange)
    → (note_fallback model rest reason e).client ≡ e.client
unfolding observe_metric
note_fallback-client model [] reason e = refl
note_fallback-client model (next ∷ rest) reason e = ground arith

module _ (o : Outside) (routes : Routes) (r : Request) where
  try_candidates-AllFail :
      (models : List Text) (e e₂ : Exchange) (rs : List AttemptResult) (f : FailureSummary)
      → AllFail o routes r models e rs e₂
      → (try_candidates o routes r models f e ≡ some (exhausted o (observe_all rs f) e₂))
        × (e₂.client ≡ e.client)
  unfolding try_candidates observe_all
  try_candidates-AllFail [] e e₂ rs f none_left = (refl, refl)
  try_candidates-AllFail (m ∷ ms) e e₂ [] f fails = elim fails [ ]
  try_candidates-AllFail (m ∷ ms) e e₂ (res ∷ rs) f
        (one_fails backend body result e₁ found has_body real ran again rest) =
      let (either, kept) =
        proxy_openai_compatible-untouched o r.header body r.chat.stream backend e result e₁ ran in
      let (done, same) =
        try_candidates-AllFail ms (note_fallback m ms result.reason e₁) e₂ rs (observe result f)
          rest in
      (
        ground (arith, found, has_body, real, ran, again, either, done),
        same ∙ note_fallback-client m ms result.reason e₁ ∙ ground (arith, either, kept, again),
      )

  -- What the summary says of the attempts on one candidate or more.
  observed_timeouts :
      (model : Text) (models : List Text) (e e₂ : Exchange) (rs : List AttemptResult)
      → AllFail o routes r (model ∷ models) e rs e₂
      → ((observe_all rs no_failures).any && (observe_all rs no_failures).all_timeout)
        ≡ timed_out_all rs
  unfolding observe_all observe
  observed_timeouts model models e e₂ [] fails = elim fails [ ]
  observed_timeouts model models e e₂ (res ∷ rs)
        (one_fails backend body result e₁ found has_body real ran again rest) =
      ground (arith, observe_all-some rs (observe res no_failures))

  exhausted-status :
      (f : FailureSummary) (e : Exchange)
      → e.client.status ≡ none
      → (exhausted o f e).client.status ≡ some (if f.any && f.all_timeout then 504 else 503)
  unfolding exhausted write_openai_error
  exhausted-status f e h = ground arith

  -- When every candidate fails, the client is told so: with 504 if every attempt has timed out, and
  -- else with 503. For a client that has been sent no status before.
  pub serve_with_fallback-AllFail :
      (model : Text) (models : List Text) (e e₂ : Exchange) (rs : List AttemptResult)
      → candidate_models routes r.chat.model ≡ some (model ∷ models)
      → AllFail o routes r (model ∷ models) e rs e₂
      → e.client.status ≡ none
      → (e' : Exchange) × (serve_with_fallback o routes r e ≡ some e')
        × (e'.client.status ≡ some (if timed_out_all rs then 504 else 503))
  unfolding serve_with_fallback
  serve_with_fallback-AllFail model models e e₂ rs found fails fresh =
      let (ran, same) = try_candidates-AllFail (model ∷ models) e e₂ rs no_failures fails in
      let f = observe_all rs no_failures in
      (
        exhausted o f e₂,
        ground (arith, found, ran),
        exhausted-status f e₂ (ap (λ w. w.status) same ∙ fresh)
            ∙ ap (λ b. some (if b then 504 else 503))
                (observed_timeouts model models e e₂ rs fails),
      )
