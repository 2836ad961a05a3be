-- ===== src/Proxy/Settled.antt =====
-- What an attempt on a backend leaves behind (internal/llm/proxy.go and internal/llm/proxy_stream.go).
use agent.Base.{ℕ, ◌≡◌, refl, true, false, not, Option, none, some, arith, if-intro, ◌⊎◌, inl, inr}
use agent.Text.{Text, text_eq, codes}
use agent.Map.{◌==◌}
use agent.Breaker.{CircuitBreakerPermit}
use agent.Candidates.{ModelBackend}
use agent.Sse.{Failure, deadline_exceeded, ReadError, eof, unended, broken}
use agent.Proxy.{
  UpstreamRequest, Header, Response, Outcome, failed, responded, Outside, Exchange, AttemptResult,
  done_attempt, failure_reason_from_error, observe_metric, request_result_from_status,
  failure_reason_from_status, result_failure, is_retryable_status, Settlement, succeeded,
  failed_backend, ignored, settle_permit,
}
use agent.Proxy.Upstream.{new_upstream_request}
use agent.Proxy.Attempt.{
  Attempt, finish_attempt, retry, fail_with, pass_on, read_all, receive, refuse, no_request,
  send_request, proxy_non_stream, send,
}

-- The attempt has settled its permit once, as a failure of the backend if it is retryable; and then
-- it has not touched the client.
pub record IsSettled (o : Outside) (p : CircuitBreakerPermit) (e : Exchange) (a : Attempt)
    : Type 0 where
  pub how : Settlement
  pub breaker_eq : a.after.breaker ≡ (settle_permit o how p e).0.breaker
  pub permit_eq : a.permit ≡ (settle_permit o how p e).1
  pub exclusive : a.outcome.retryable ≡ not a.outcome.done
  pub untouched :
      (a.outcome.retryable ≡ false) ⊎ ((how ≡ failed_backend) × (a.after.client ≡ e.client))

finish_attempt-IsSettled :
    (o : Outside) (how : Settlement) (r : AttemptResult) (result : Text) (p : CircuitBreakerPermit)
    (e : Exchange)
    → r.done ≡ true
    → r.retryable ≡ false
    → IsSettled o p e (finish_attempt o how r result p e)
unfolding finish_attempt settle_permit
finish_attempt-IsSettled o how r result p e d h = record {
  how = how;
  breaker_eq = refl;
  permit_eq = refl;
  exclusive = ground arith;
  untouched = inl h;
}

pub retry-IsSettled :
    (o : Outside) (name reason result : Text) (p : CircuitBreakerPermit) (e : Exchange)
    → IsSettled o p e (retry o name reason result p e)
unfolding retry finish_attempt settle_permit observe_metric
retry-IsSettled o name reason result p e = record {
  how = failed_backend;
  breaker_eq = ground arith;
  permit_eq = ground arith;
  exclusive = ground arith;
  untouched = inr (refl, ground arith);
}

pub fail_with-IsSettled :
    (o : Outside) (name : Text) (err : Failure) (kept : Text) (p : CircuitBreakerPermit)
    (e : Exchange)
    → IsSettled o p e (fail_with o name err kept p e)
unfolding fail_with
fail_with-IsSettled o name err kept p e =
    if-intro (IsSettled o p e) (failure_reason_from_error err == codes "client_canceled")
      (λ h. finish_attempt-IsSettled o ignored done_attempt kept p e refl refl)
      (λ h. retry-IsSettled o name (failure_reason_from_error err) result_failure p e)

pub pass_on-IsSettled :
    (o : Outside) (resp : Response) (p : CircuitBreakerPermit) (e : Exchange)
    → IsSettled o p e (pass_on o resp p e)
unfolding pass_on finish_attempt settle_permit
pass_on-IsSettled o resp p e = record {
  how = succeeded;
  breaker_eq = refl;
  permit_eq = refl;
  exclusive = refl;
  untouched = inl refl;
}

read_all-IsSettled :
    (o : Outside) (backend : ModelBackend) (resp : Response) (p : CircuitBreakerPermit)
    (e : Exchange) (ending : ReadError)
    → IsSettled o p e (read_all o backend resp p e ending)
unfolding read_all
read_all-IsSettled o backend resp p e eof = pass_on-IsSettled o resp p e
read_all-IsSettled o backend resp p e unended =
    fail_with-IsSettled o backend.cfg.name deadline_exceeded
      (request_result_from_status resp.status_code) p e
read_all-IsSettled o backend resp p e (broken err) =
    fail_with-IsSettled o backend.cfg.name err (request_result_from_status resp.status_code) p e

receive-IsSettled :
    (o : Outside) (backend : ModelBackend) (p : CircuitBreakerPermit) (e : Exchange)
    (answer : Outcome)
    → IsSettled o p e (receive o backend p e answer)
unfolding receive
receive-IsSettled o backend p e (failed err) =
    fail_with-IsSettled o backend.cfg.name err result_failure p e
receive-IsSettled o backend p e (responded resp) =
    if-intro (IsSettled o p e) (is_retryable_status resp.status_code)
      (λ h.
        retry-IsSettled o backend.cfg.name (failure_reason_from_status resp.status_code)
          (request_result_from_status resp.status_code) p e)
      (λ h. read_all-IsSettled o backend resp p e resp.body_ending)

-- `send` changes neither the client nor the breaker.
pub send-IsSettled :
    (o : Outside) (req : UpstreamRequest) (p : CircuitBreakerPermit) (e : Exchange) (a : Attempt)
    → IsSettled o p (send req e) a
    → IsSettled o p e a
unfolding settle_permit
send-IsSettled o req p e a h = record {
  how = h.how;
  breaker_eq = h.breaker_eq;
  permit_eq = h.permit_eq;
  exclusive = h.exclusive;
  untouched = h.untouched;
}

pub refuse-IsSettled :
    (o : Outside) (status : ℕ) (message : Text) (p : CircuitBreakerPermit) (e : Exchange)
    → IsSettled o p e (refuse o status message p e)
unfolding refuse finish_attempt settle_permit
refuse-IsSettled o status message p e = record {
  how = ignored;
  breaker_eq = refl;
  permit_eq = refl;
  exclusive = refl;
  untouched = inl refl;
}

send_request-IsSettled :
    (o : Outside) (backend : ModelBackend) (p : CircuitBreakerPermit) (e : Exchange)
    (req : Option UpstreamRequest)
    → IsSettled o p e (send_request o backend p e req)
unfolding send_request
send_request-IsSettled o backend p e none = refuse-IsSettled o 502 no_request p e
send_request-IsSettled o backend p e (some req) =
    send-IsSettled o req p e (receive o backend p (send req e) (o.client_do e.sent req))
      (receive-IsSettled o backend p (send req e) (o.client_do e.sent req))

-- An attempt that is not streamed, whatever the backend answers, settles its permit exactly once; it
-- is either done or retryable, and if it is retryable it counts as a failure of the backend and the
-- client has been sent nothing.
pub proxy_non_stream-IsSettled :
    (o : Outside) (h : Header) (raw_body : Text) (backend : ModelBackend) (p : CircuitBreakerPermit)
    (e : Exchange)
    → IsSettled o p e (proxy_non_stream o h raw_body backend p e)
unfolding proxy_non_stream
proxy_non_stream-IsSettled o h raw_body backend p e =
    send_request-IsSettled o backend p e (new_upstream_request o h raw_body backend)
