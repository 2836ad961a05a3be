-- ===== src/Proxy/Stream.antt =====
-- A streamed attempt (internal/llm/proxy_stream.go): nothing is sent to the client before the first
-- event with content has been read.
use agent.Base.{
  ℕ, zero, suc, ◌+◌, Bool, true, false, not, ◌&&◌, Option, none, some, List, [], ◌∷◌, ◌++◌, leb,
  if◌then◌else◌, length,
}
use agent.Text.{Text, text_eq, codes, is_empty}
use agent.Breaker.{CircuitBreakerPermit}
use agent.Candidates.{ModelBackend}
use agent.Sse.{
  Failure, deadline_exceeded, ReadError, eof, unended, broken, Reader, reader_of, Event, ChunkJson,
  read_sse_event, has_content_token, write_buffered_sse, Sink, Copy, stream_copy,
}
use agent.Proxy.{
  UpstreamRequest, Header, get, Response, Outcome, failed, responded, Outside, Wait, arrived,
  timer_fired, context_done, first_token, upstream_error, Exchange, done_attempt, result_failure,
  request_result_from_status, is_retryable_status, failure_reason_from_status, copied_headers,
  add_headers, write_status, observe_metric, succeeded, failed_backend, ignored,
}
use agent.Proxy.Upstream.{new_upstream_request}
use agent.Proxy.Attempt.{
  Attempt, finish_attempt, retry, fail_with, with_client, pass_on, send, refuse, no_request,
}

-- What `readUntilFirstContentToken` has read: the events, whether the last has content, the error
-- other than the end, and the reader and the waits that are left.
pub record Buffered : Type 0 where
  pub events : List Event
  pub first : Bool
  pub error : Option Failure
  pub rest : Reader

abbrev pub next_wait : List Wait → Wait × List Wait
next_wait [] = (arrived, [])
next_wait (w ∷ ws) = (w, ws)

-- `readSSEEventWithTimeout`: the body is closed where the event has not arrived.
unfoldable pub read_with_timeout : Wait → Reader → Event × Option ReadError × Reader
unfolding read_sse_event
read_with_timeout arrived r = read_sse_event r
read_with_timeout timer_fired r = ([], some (broken deadline_exceeded), r)
read_with_timeout (context_done f) r = ([], some (broken f), r)

-- The end of the events before one with content; there is none on a stream that goes on.
abbrev pub end_of_events : List Event → Reader → ReadError → Option Buffered
end_of_events events r eof =
    some (record { events = events; first = false; error = none; rest = r })
end_of_events events r unended = none
end_of_events events r (broken f) =
    some (record { events = events; first = false; error = some f; rest = r })

-- `readUntilFirstContentToken`, with fuel for its rounds: `none` where it does not return.
unfoldable pub read_until_first : ℕ → ChunkJson → List Wait → List Event → Reader → Option Buffered
unfolding read_with_timeout has_content_token
read_until_first zero json waits buffered r = none
read_until_first (suc fuel) json waits buffered r =
    let (wait, waits') = next_wait waits in
    let (event, err, r') = read_with_timeout wait r in
    let buffered' = if is_empty event then buffered else buffered ++ event ∷ [] in
    let rest = read_until_first fuel json waits' buffered' r' in
    if not (is_empty event) && has_content_token json event
    then some (record { events = buffered'; first = true; error = none; rest = r' })
    else elim err [ none ↦ rest | some e ↦ end_of_events buffered' r' e ]

abbrev pub bool_nat : Bool → ℕ
bool_nat true = 1
bool_nat false = 0

unfoldable pub observe_first : Text → ℕ → Exchange → Exchange
unfolding observe_metric
observe_first name zero e = e
observe_first name (suc n) e = observe_metric (first_token name) (observe_first name n e)

abbrev pub event_stream : Text × Text
event_stream = (codes "Content-Type", codes "text/event-stream; charset=utf-8")

abbrev pub stream_headers : Response → List (Text × Text)
stream_headers resp =
    let copied = copied_headers resp.header in
    if is_empty (get (codes "Content-Type") resp.header)
    then copied ++ event_stream ∷ []
    else copied

abbrev pub with_sink : Sink → Exchange → Exchange
with_sink s e = record e { client = record e.client { sink = s } }

-- The end of a stream by what `streamCopyFromReader` returns.
unfoldable pub end_stream : Outside → Text → Text → CircuitBreakerPermit → Exchange → Bool → Attempt
unfolding finish_attempt observe_metric
end_stream o name result p e true = finish_attempt o succeeded done_attempt result p e
end_stream o name result p e false =
    let a = finish_attempt o failed_backend done_attempt result_failure p e in
    record a { after = observe_metric (upstream_error name (codes "stream_error")) a.after }

unfoldable pub copied_stream :
    Outside → Text → Text → CircuitBreakerPermit → Exchange → Option (Copy × Bool) → Option Attempt
unfolding end_stream observe_first
copied_stream o name result p e none = none
copied_stream o name result p e (some (c, ok)) =
    some (end_stream o name result p (observe_first name c.observed (with_sink c.sink e)) ok)

abbrev pub rounds : Reader → ℕ
rounds r = 2 + length r.lines + length r.tail

-- The headers and the buffered events, sent to the client.
abbrev pub send_buffered : Response → Buffered → Exchange → Exchange × Bool
send_buffered resp b e =
    let w = write_status resp.status_code (add_headers (stream_headers resp) e.client) in
    let (sink, ok) = write_buffered_sse b.events w.sink in (with_sink sink (with_client w e), ok)

abbrev pub copy_of : Buffered → Sink → Copy
copy_of b sink = record {
  reader = b.rest;
  sink = sink;
  first_observed = b.first;
  observed = bool_nat b.first;
}

-- From the headers on; `none` means that the copying ran out of fuel.
unfoldable pub relay_stream :
    Outside → ModelBackend → Response → Buffered → CircuitBreakerPermit → Exchange → Option Attempt
unfolding copied_stream stream_copy write_buffered_sse finish_attempt
relay_stream o backend resp b p e =
    let result = request_result_from_status resp.status_code in
    let (e₁, ok) = send_buffered resp b e in
    let copied = stream_copy (rounds b.rest) o.chunk_json (copy_of b e₁.client.sink) in
    if ok
    then copied_stream o backend.cfg.name result p e₁ copied
    else some (finish_attempt o ignored done_attempt result_failure p e₁)

unfoldable pub start_stream :
    Outside
    → ModelBackend
    → Response
    → Buffered
    → CircuitBreakerPermit
    → Exchange
    → Option Failure
    → Option Attempt
unfolding fail_with relay_stream
start_stream o backend resp b p e (some err) =
    some (fail_with o backend.cfg.name err (request_result_from_status resp.status_code) p e)
start_stream o backend resp b p e none = relay_stream o backend resp b p e

unfoldable pub buffered_stream :
    Outside
    → ModelBackend
    → Response
    → CircuitBreakerPermit
    → Exchange
    → Option Buffered
    → Option Attempt
unfolding start_stream
buffered_stream o backend resp p e none = none
buffered_stream o backend resp p e (some b) = start_stream o backend resp b p e b.error

-- The copying of an answer that is an error, which lasts as long as its body does.
abbrev pub copy_body :
    Outside → Response → CircuitBreakerPermit → Exchange → ReadError → Option Attempt
copy_body o resp p e eof = some (pass_on o resp p e)
copy_body o resp p e unended = none
copy_body o resp p e (broken f) = some (record (pass_on o resp p e) { result = result_failure })

unfoldable pub receive_stream :
    Outside → ModelBackend → CircuitBreakerPermit → Exchange → Outcome → Option Attempt
unfolding retry fail_with pass_on buffered_stream read_until_first is_retryable_status
    failure_reason_from_status
receive_stream o backend p e (failed err) =
    some (fail_with o backend.cfg.name err result_failure p e)
receive_stream o backend p e (responded resp) =
    let result = request_result_from_status resp.status_code in
    let reason = failure_reason_from_status resp.status_code in
    let r = reader_of resp.body resp.body_ending in
    if is_retryable_status resp.status_code
    then some (retry o backend.cfg.name reason result p e)
    else if leb 400 resp.status_code
    then copy_body o resp p e resp.body_ending
    else buffered_stream o backend resp p e
        (read_until_first (rounds r) o.chunk_json resp.waits [] r)

unfoldable pub send_stream_request :
    Outside
    → ModelBackend
    → CircuitBreakerPermit
    → Exchange
    → Option UpstreamRequest
    → Option Attempt
unfolding refuse receive_stream
send_stream_request o backend p e none = some (refuse o 502 no_request p e)
send_stream_request o backend p e (some req) =
    receive_stream o backend p (send req e) (o.client_do e.sent req)

abbrev pub unsupported : Text
unsupported = codes "当前 HTTP writer 不支持流式刷新"

unfoldable pub proxy_stream :
    Outside → Header → Text → ModelBackend → CircuitBreakerPermit → Exchange → Option Attempt
unfolding new_upstream_request refuse send_stream_request
proxy_stream o h raw_body backend p e =
    if not e.client.can_flush
    then some (refuse o 500 unsupported p e)
    else send_stream_request o backend p e (new_upstream_request o h raw_body backend)
