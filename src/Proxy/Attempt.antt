-- ===== src/Proxy/Attempt.antt =====
-- An attempt that is not streamed (`proxyOpenAICompatibleNonStream` of internal/llm/proxy.go), and
-- what both kinds of attempt share. The permit and `result`, which the source passes by pointer, are
-- returned.
use agent.Base.{ℕ, Option, none, some, [], ◌∷◌, ◌++◌, if◌then◌else◌}
use agent.Text.{Text, text_eq, codes}
use agent.Map.{◌==◌}
use agent.Breaker.{CircuitBreakerPermit}
use agent.Candidates.{ModelBackend}
use agent.Sse.{Failure, deadline_exceeded, ReadError, eof, unended, broken}
use agent.Proxy.{
  Header, UpstreamRequest, Response, Outcome, failed, responded, Outside, Client, upstream_error,
  Exchange, AttemptResult, retryable_attempt, done_attempt, result_failure,
  request_result_from_status, is_retryable_status, failure_reason_from_status,
  failure_reason_from_error, copied_headers, add_headers, write_status, write_bytes, reply_error,
  observe_metric, Settlement, succeeded, failed_backend, ignored, settle_permit,
}
use agent.Proxy.Upstream.{new_upstream_request}

-- The attempt's result, the value of `*result` when it returns, and the permit.
pub record Attempt : Type 0 where
  pub outcome : AttemptResult
  pub result : Text
  pub permit : CircuitBreakerPermit
  pub after : Exchange

unfoldable pub finish_attempt :
    Outside → Settlement → AttemptResult → Text → CircuitBreakerPermit → Exchange → Attempt
unfolding settle_permit
finish_attempt o how outcome result p e =
    let (e', p') = settle_permit o how p e in
    record { outcome = outcome; result = result; permit = p'; after = e' }

-- `permit.Fail()`, the metric, and a retryable result.
unfoldable pub retry : Outside → Text → Text → Text → CircuitBreakerPermit → Exchange → Attempt
unfolding finish_attempt observe_metric
retry o name reason result p e =
    let a = finish_attempt o failed_backend (retryable_attempt reason) result p e in
    record a { after = observe_metric (upstream_error name reason) a.after }

-- An error of the request or of reading its answer; `kept` is `*result` where the client left.
unfoldable pub fail_with :
    Outside → Text → Failure → Text → CircuitBreakerPermit → Exchange → Attempt
unfolding retry failure_reason_from_error finish_attempt
fail_with o name err kept p e =
    let reason = failure_reason_from_error err in
    if reason == codes "client_canceled"
    then finish_attempt o ignored done_attempt kept p e
    else retry o name reason result_failure p e

abbrev pub with_client : Client → Exchange → Exchange
with_client w e = record e { client = w }

-- The body of the answer, written as it is; the result is that of the status, or a failure if the
-- client did not take it.
unfoldable pub pass_on : Outside → Response → CircuitBreakerPermit → Exchange → Attempt
unfolding finish_attempt write_bytes copied_headers
pass_on o resp p e =
    let a =
      finish_attempt o succeeded done_attempt (request_result_from_status resp.status_code) p e in
    let w₁ =
      write_status resp.status_code (add_headers (copied_headers resp.header) a.after.client) in
    let (w, ok) = write_bytes resp.body w₁ in
    record a { after = with_client w a.after; result = if ok then a.result else result_failure }

-- By how the reading of the whole body ends; one that would not end fails at the deadline of the
-- request's context.
unfoldable pub read_all :
    Outside → ModelBackend → Response → CircuitBreakerPermit → Exchange → ReadError → Attempt
unfolding fail_with pass_on
read_all o backend resp p e eof = pass_on o resp p e
read_all o backend resp p e unended =
    fail_with o backend.cfg.name deadline_exceeded (request_result_from_status resp.status_code) p e
read_all o backend resp p e (broken err) =
    fail_with o backend.cfg.name err (request_result_from_status resp.status_code) p e

unfoldable pub receive :
    Outside → ModelBackend → CircuitBreakerPermit → Exchange → Outcome → Attempt
unfolding retry fail_with read_all is_retryable_status failure_reason_from_status
receive o backend p e (failed err) = fail_with o backend.cfg.name err result_failure p e
receive o backend p e (responded resp) =
    let result = request_result_from_status resp.status_code in
    let reason = failure_reason_from_status resp.status_code in
    if is_retryable_status resp.status_code
    then retry o backend.cfg.name reason result p e
    else read_all o backend resp p e resp.body_ending

abbrev pub send : UpstreamRequest → Exchange → Exchange
send req e = record e { sent = e.sent ++ req ∷ [] }

-- No request could be made.
unfoldable pub refuse : Outside → ℕ → Text → CircuitBreakerPermit → Exchange → Attempt
unfolding finish_attempt
refuse o status message p e =
    let a = finish_attempt o ignored done_attempt result_failure p e in
    record a { after = reply_error o status message (codes "server_error") [] a.after }

abbrev pub no_request : Text
no_request = codes "创建上游请求失败"

unfoldable pub send_request :
    Outside → ModelBackend → CircuitBreakerPermit → Exchange → Option UpstreamRequest → Attempt
unfolding refuse receive
send_request o backend p e none = refuse o 502 no_request p e
send_request o backend p e (some req) = receive o backend p (send req e) (o.client_do e.sent req)

unfoldable pub proxy_non_stream :
    Outside → Header → Text → ModelBackend → CircuitBreakerPermit → Exchange → Attempt
unfolding new_upstream_request send_request
proxy_non_stream o h raw_body backend p e =
    send_request o backend p e (new_upstream_request o h raw_body backend)
