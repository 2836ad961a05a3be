-- ===== src/Proxy/StreamSettled.antt =====
-- What a streamed attempt on a backend leaves behind (internal/llm/proxy_stream.go).
use agent.Base.{
  ℕ, zero, suc, ◌≡◌, refl, Bool, true, false, not, Option, none, some, [], ◌∙◌, leb, arith,
  if-intro, inl,
}
use agent.Text.{Text, text_eq}
use agent.Breaker.{CircuitBreakerPermit}
use agent.Candidates.{ModelBackend}
use agent.Sse.{Failure, ReadError, eof, unended, broken, stream_copy, reader_of, Copy}
use agent.Proxy.{
  UpstreamRequest, Header, Response, Outcome, failed, responded, Outside, Exchange, observe_metric,
  request_result_from_status, failure_reason_from_status, result_failure, is_retryable_status,
  succeeded, failed_backend, ignored, settle_permit,
}
use agent.Proxy.Upstream.{new_upstream_request}
use agent.Proxy.Attempt.{Attempt, finish_attempt, no_request, pass_on, send}
use agent.Proxy.Stream.{
  Buffered, send_buffered, copy_of, end_stream, relay_stream, copied_stream, observe_first,
  with_sink, start_stream, buffered_stream, copy_body, receive_stream, send_stream_request,
  proxy_stream, unsupported, read_until_first, rounds,
}
use agent.Proxy.Settled.{
  IsSettled, refuse-IsSettled, fail_with-IsSettled, retry-IsSettled, pass_on-IsSettled,
  send-IsSettled,
}

-- For the streams: what `some` holds, if anything.
unfoldable pub Holds : (Attempt → Type 0) → Option Attempt → Type 0
Holds P none = Unit
Holds P (some a) = P a

Holds-map :
    {P Q : Attempt → Type 0}
    → ((a : Attempt) → P a → Q a)
    → (x : Option Attempt) → Holds P x
    → Holds Q x
unfolding Holds
Holds-map f none h = tt
Holds-map f (some a) h = f a h

observe_first-same :
    (name : Text) (n : ℕ) (e : Exchange)
    → ((observe_first name n e).breaker ≡ e.breaker) × ((observe_first name n e).ticks ≡ e.ticks)
unfolding observe_first observe_metric
observe_first-same name zero e = (refl, refl)
observe_first-same name (suc n) e = ground (arith, observe_first-same name n e)

end_stream-IsSettled :
    (o : Outside) (name result : Text) (p : CircuitBreakerPermit) (e e₀ : Exchange) (ok : Bool)
    → (e.breaker ≡ e₀.breaker) × (e.ticks ≡ e₀.ticks)
    → IsSettled o p e₀ (end_stream o name result p e ok)
unfolding end_stream finish_attempt settle_permit observe_metric
end_stream-IsSettled o name result p e e₀ true h = record {
  how = succeeded;
  breaker_eq = ground (arith, h);
  permit_eq = ground (arith, h);
  exclusive = refl;
  untouched = inl refl;
}
end_stream-IsSettled o name result p e e₀ false h = record {
  how = failed_backend;
  breaker_eq = ground (arith, h);
  permit_eq = ground (arith, h);
  exclusive = refl;
  untouched = inl refl;
}

copied_stream-IsSettled :
    (o : Outside) (name result : Text) (p : CircuitBreakerPermit) (e e₀ : Exchange)
    (c : Option (Copy × Bool))
    → (e.breaker ≡ e₀.breaker) × (e.ticks ≡ e₀.ticks)
    → Holds (IsSettled o p e₀) (copied_stream o name result p e c)
unfolding copied_stream Holds
copied_stream-IsSettled o name result p e e₀ none h = tt
copied_stream-IsSettled o name result p e e₀ (some (c, ok)) h =
    let same = observe_first-same name c.observed (with_sink c.sink e) in
    end_stream-IsSettled o name result p (observe_first name c.observed (with_sink c.sink e)) e₀ ok
      (same.0 ∙ h.0, same.1 ∙ h.1)

relay_stream-IsSettled :
    (o : Outside) (backend : ModelBackend) (resp : Response) (b : Buffered)
    (p : CircuitBreakerPermit) (e : Exchange)
    → Holds (IsSettled o p e) (relay_stream o backend resp b p e)
unfolding relay_stream Holds finish_attempt settle_permit
relay_stream-IsSettled o backend resp b p e =
    let sent = send_buffered resp b e in
    let result = request_result_from_status resp.status_code in
    if-intro (Holds (IsSettled o p e)) sent.1
      (λ h.
        copied_stream-IsSettled o backend.cfg.name result p sent.0 e
          (stream_copy (rounds b.rest) o.chunk_json (copy_of b sent.0.client.sink)) (refl, refl))
      (λ h. record {
        how = ignored;
        breaker_eq = refl;
        permit_eq = refl;
        exclusive = refl;
        untouched = inl refl;
      })

start_stream-IsSettled :
    (o : Outside) (backend : ModelBackend) (resp : Response) (b : Buffered)
    (p : CircuitBreakerPermit) (e : Exchange) (err : Option Failure)
    → Holds (IsSettled o p e) (start_stream o backend resp b p e err)
unfolding start_stream Holds
start_stream-IsSettled o backend resp b p e (some err) =
    fail_with-IsSettled o backend.cfg.name err (request_result_from_status resp.status_code) p e
start_stream-IsSettled o backend resp b p e none = relay_stream-IsSettled o backend resp b p e

buffered_stream-IsSettled :
    (o : Outside) (backend : ModelBackend) (resp : Response) (p : CircuitBreakerPermit)
    (e : Exchange) (b : Option Buffered)
    → Holds (IsSettled o p e) (buffered_stream o backend resp p e b)
unfolding buffered_stream Holds
buffered_stream-IsSettled o backend resp p e none = tt
buffered_stream-IsSettled o backend resp p e (some b) =
    start_stream-IsSettled o backend resp b p e b.error

copy_body-IsSettled :
    (o : Outside) (resp : Response) (p : CircuitBreakerPermit) (e : Exchange) (ending : ReadError)
    → Holds (IsSettled o p e) (copy_body o resp p e ending)
unfolding Holds pass_on finish_attempt settle_permit
copy_body-IsSettled o resp p e eof = pass_on-IsSettled o resp p e
copy_body-IsSettled o resp p e unended = tt
copy_body-IsSettled o resp p e (broken f) = record {
  how = succeeded;
  breaker_eq = refl;
  permit_eq = refl;
  exclusive = refl;
  untouched = inl refl;
}

receive_stream-IsSettled :
    (o : Outside) (backend : ModelBackend) (p : CircuitBreakerPermit) (e : Exchange)
    (answer : Outcome)
    → Holds (IsSettled o p e) (receive_stream o backend p e answer)
unfolding receive_stream Holds
receive_stream-IsSettled o backend p e (failed err) =
    fail_with-IsSettled o backend.cfg.name err result_failure p e
receive_stream-IsSettled o backend p e (responded resp) =
    if-intro (Holds (IsSettled o p e)) (is_retryable_status resp.status_code)
      (λ h.
        retry-IsSettled o backend.cfg.name (failure_reason_from_status resp.status_code)
          (request_result_from_status resp.status_code) p e)
      (λ h.
        if-intro (Holds (IsSettled o p e)) (leb 400 resp.status_code)
          (λ h'. copy_body-IsSettled o resp p e resp.body_ending)
          (λ h'.
            let r = reader_of resp.body resp.body_ending in
            buffered_stream-IsSettled o backend resp p e
              (read_until_first (rounds r) o.chunk_json resp.waits [] r)))

send_stream_request-IsSettled :
    (o : Outside) (backend : ModelBackend) (p : CircuitBreakerPermit) (e : Exchange)
    (req : Option UpstreamRequest)
    → Holds (IsSettled o p e) (send_stream_request o backend p e req)
unfolding send_stream_request Holds
send_stream_request-IsSettled o backend p e none = refuse-IsSettled o 502 no_request p e
send_stream_request-IsSettled o backend p e (some req) =
    Holds-map (send-IsSettled o req p e)
      (receive_stream o backend p (send req e) (o.client_do e.sent req))
      (receive_stream-IsSettled o backend p (send req e) (o.client_do e.sent req))

-- A streamed attempt that returns, whatever the backend answers and whenever the client leaves, has
-- settled its permit exactly once; it is either done or retryable, and if it is retryable it counts
-- as a failure of the backend and the client has been sent nothing.
pub proxy_stream-IsSettled :
    (o : Outside) (h : Header) (raw_body : Text) (backend : ModelBackend) (p : CircuitBreakerPermit)
    (e : Exchange)
    → Holds (IsSettled o p e) (proxy_stream o h raw_body backend p e)
unfolding proxy_stream Holds
proxy_stream-IsSettled o h raw_body backend p e =
    if-intro (Holds (IsSettled o p e)) (not e.client.can_flush)
      (λ h'. refuse-IsSettled o 500 unsupported p e)
      (λ h'.
        send_stream_request-IsSettled o backend p e (new_upstream_request o h raw_body backend))
