-- ===== src/Proxy/Total.antt =====
-- When a chat completion ends (internal/llm/proxy.go and internal/llm/proxy_stream.go): the fuel of
-- the streams and of the chain of candidates is enough.
use agent.Base.{
  ℕ, zero, suc, ◌≡◌, ◌≢◌, ◌<◌, refl, Bool, true, false, not, ◌&&◌, ◌||◌, Option, none, some, List,
  [], ◌∷◌, ◌++◌, if◌then◌else◌, arith, if-intro, Option-cases, Bool-cases, inl, inr, All,
}
use agent.Text.{Text, text_eq, is_empty, text_beq_iff}
use agent.Map.{lookup, mem}
use agent.Breaker.{CircuitBreakerPermit}
use agent.Candidates.Search.{Reach, start, via}
use agent.Candidates.Chain.{candidate_models-Reach, candidate_models-none}
use agent.Candidates.{Routes, ModelBackend, is_configured}
use agent.Sse.{
  Event, ReadError, eof, unended, broken, is_ended, ChunkJson, Reader, reader_of, read_sse_event,
  has_content_token, stream_copy, Copy,
}
use agent.Sse.Relay.{
  Shrinks, Shrinks-none, size, read_sse_event-Shrinks, Ends, Ends-rest, Ends-error, Keeps-Ends,
  read_sse_event-Keeps, stream_copy-total,
}
use agent.Proxy.{
  Header, UpstreamRequest, Outside, Response, Outcome, failed, responded, Exchange, Wait, arrived,
  timer_fired, context_done, FailureSummary, observe,
}
use agent.Proxy.Upstream.{new_upstream_request}
use agent.Proxy.Attempt.{Attempt, send}
use agent.Proxy.Stream.{
  Buffered, rounds, next_wait, end_of_events, copy_body, read_with_timeout, read_until_first,
  send_buffered, copy_of, copied_stream, relay_stream, start_stream, buffered_stream,
  receive_stream, send_stream_request, proxy_stream,
}
use agent.Proxy.Fallback.{
  Request, attempted, admitted, candidate_body, note_fallback, no_failures, proxy_openai_compatible,
  try_candidates, serve_with_fallback,
}

read_with_timeout-Ends :
    (w : Wait) (r : Reader) → is_ended r.ending ≡ true → Ends (read_with_timeout w r)
unfolding read_with_timeout
read_with_timeout-Ends arrived r h =
    Keeps-Ends r.ending (read_sse_event r) h (read_sse_event-Keeps r)
read_with_timeout-Ends timer_fired r h = (refl, h)
read_with_timeout-Ends (context_done f) r h = (refl, h)

-- Events have been read, and the stream that is left ends.
HasEvents : Option Buffered → Type 0
HasEvents none = true ≡ false
HasEvents (some b) = is_ended b.rest.ending ≡ true

end_of_events-HasEvents :
    (events : List Event) (r : Reader) (e : ReadError)
    → is_ended r.ending ≡ true
    → is_ended e ≡ true
    → HasEvents (end_of_events events r e)
unfolding HasEvents
end_of_events-HasEvents events r eof h ended = h
end_of_events-HasEvents events r unended h ended = absurd (ground arith)
end_of_events-HasEvents events r (broken f) h ended = h

read_with_timeout-Shrinks : (w : Wait) (r : Reader) → Shrinks (size r) (read_with_timeout w r)
unfolding read_with_timeout
read_with_timeout-Shrinks arrived r = read_sse_event-Shrinks r
read_with_timeout-Shrinks timer_fired r = tt
read_with_timeout-Shrinks (context_done f) r = tt

read_until_first-HasEvents :
    (fuel : ℕ) (json : ChunkJson) (waits : List Wait) (buffered : List Event) (r : Reader)
    → is_ended r.ending ≡ true
    → size r < fuel
    → HasEvents (read_until_first fuel json waits buffered r)
unfolding read_until_first HasEvents
read_until_first-HasEvents zero json waits buffered r ended h = absurd (ground arith)
read_until_first-HasEvents (suc fuel) json waits buffered r ended h =
    let wait = next_wait waits in
    let read = read_with_timeout wait.0 r in
    let ends = read_with_timeout-Ends wait.0 r ended in
    let buffered' = if is_empty read.0 then buffered else buffered ++ read.0 ∷ [] in
    let rest_ended = Ends-rest read ends in
    if-intro HasEvents (not (is_empty read.0) && has_content_token json read.0) (λ h'. rest_ended)
      (λ h'.
        elim read.1
            as (λ o.
              read.1 ≡ o
              → HasEvents (elim o as (λ _. Option Buffered) [
                | none ↦ read_until_first fuel json wait.1 buffered' read.2
                | some e ↦ end_of_events buffered' read.2 e
              ])) [
                | none ↦ λ eq.
                    read_until_first-HasEvents fuel json wait.1 buffered' read.2 rest_ended (
                      omega
                        (arith, Shrinks-none (size r) read (read_with_timeout-Shrinks wait.0 r) eq))
                | some e ↦ λ eq.
                    end_of_events-HasEvents buffered' read.2 e rest_ended (Ends-error read ends eq)
              ]
          refl)

copied_stream-total :
    (o : Outside) (name result : Text) (p : CircuitBreakerPermit) (e : Exchange)
    (c : Option (Copy × Bool))
    → c ≢ none
    → copied_stream o name result p e c ≢ none
unfolding copied_stream
copied_stream-total o name result p e none h eq = h refl
copied_stream-total o name result p e (some (c, ok)) h eq = ground arith

relay_stream-total :
    (o : Outside) (backend : ModelBackend) (resp : Response) (b : Buffered)
    (p : CircuitBreakerPermit) (e : Exchange)
    → is_ended b.rest.ending ≡ true
    → relay_stream o backend resp b p e ≢ none
unfolding relay_stream
relay_stream-total o backend resp b p e ended =
    let sent = send_buffered resp b e in
    if-intro (λ x. x ≢ none) sent.1
      (λ h.
        copied_stream-total o _ _ p sent.0
          (stream_copy (rounds b.rest) o.chunk_json (copy_of b sent.0.client.sink))
          (stream_copy-total (rounds b.rest) o.chunk_json (copy_of b sent.0.client.sink) ended
            (omega arith)))
      (λ h e. ground arith)

buffered_stream-total :
    (o : Outside) (backend : ModelBackend) (resp : Response) (p : CircuitBreakerPermit)
    (e : Exchange) (b : Option Buffered)
    → HasEvents b
    → buffered_stream o backend resp p e b ≢ none
unfolding buffered_stream start_stream HasEvents
buffered_stream-total o backend resp p e none h eq = absurd (ground (arith, h))
buffered_stream-total o backend resp p e (some b) h eq =
    ground (arith, relay_stream-total o backend resp b p e h)

copy_body-total :
    (o : Outside) (resp : Response) (p : CircuitBreakerPermit) (e : Exchange) (ending : ReadError)
    → is_ended ending ≡ true
    → copy_body o resp p e ending ≢ none
copy_body-total o resp p e eof h eq = ground arith
copy_body-total o resp p e unended h eq = ground arith
copy_body-total o resp p e (broken f) h eq = ground arith

receive_stream-total :
    (o : Outside) (backend : ModelBackend) (p : CircuitBreakerPermit) (e : Exchange)
    (answer : Outcome)
    → ((resp : Response) → answer ≡ responded resp → is_ended resp.body_ending ≡ true)
    → receive_stream o backend p e answer ≢ none
unfolding receive_stream
receive_stream-total o backend p e (failed err) ends eq = ground arith
receive_stream-total o backend p e (responded resp) ends eq =
    let r = reader_of resp.body resp.body_ending in
    let ended = ends resp refl in
    let copied = copy_body-total o resp p e resp.body_ending ended in
    ground (
      arith,
      copied,
      buffered_stream-total o backend resp p e
          (read_until_first (rounds r) o.chunk_json resp.waits [] r)
          (read_until_first-HasEvents (rounds r) o.chunk_json resp.waits [] r ended (omega arith)),
    )

send_stream_request-total :
    (o : Outside) (backend : ModelBackend) (p : CircuitBreakerPermit) (e : Exchange)
    (req : Option UpstreamRequest)
    → ((sent : List UpstreamRequest) (req : UpstreamRequest) (resp : Response)
        → o.client_do sent req ≡ responded resp
        → is_ended resp.body_ending ≡ true)
    → send_stream_request o backend p e req ≢ none
unfolding send_stream_request
send_stream_request-total o backend p e none ends eq = ground arith
send_stream_request-total o backend p e (some req) ends eq =
    receive_stream-total o backend p (send req e) (o.client_do e.sent req) (ends e.sent req) eq

-- A streamed attempt returns, whatever the backend sends, if the bodies of its answers end.
pub proxy_stream-total :
    (o : Outside) (h : Header) (raw_body : Text) (backend : ModelBackend) (p : CircuitBreakerPermit)
    (e : Exchange)
    → ((sent : List UpstreamRequest) (req : UpstreamRequest) (resp : Response)
        → o.client_do sent req ≡ responded resp
        → is_ended resp.body_ending ≡ true)
    → proxy_stream o h raw_body backend p e ≢ none
unfolding proxy_stream
proxy_stream-total o h raw_body backend p e ends eq =
    let sent =
      send_stream_request-total o backend p e (new_upstream_request o h raw_body backend) ends in
    ground (arith, sent)

attempted-total : (name : Text) (a : Option Attempt) → a ≢ none → attempted name a ≢ none
unfolding attempted
attempted-total name none h eq = h refl
attempted-total name (some a) h eq = ground arith

proxy_openai_compatible-total :
    (o : Outside) (h : Header) (raw_body : Text) (stream : Bool) (backend : ModelBackend)
    (e : Exchange)
    → ((sent : List UpstreamRequest) (req : UpstreamRequest) (resp : Response)
        → o.client_do sent req ≡ responded resp
        → (not stream || is_ended resp.body_ending) ≡ true)
    → proxy_openai_compatible o h raw_body stream backend e ≢ none
unfolding proxy_openai_compatible
proxy_openai_compatible-total o h raw_body false backend e ends eq = ground arith
proxy_openai_compatible-total o h raw_body true backend e ends eq =
    let (permit, ok, e') = admitted o backend.cfg.name e in
    let returned =
      attempted-total backend.cfg.name (proxy_stream o h raw_body backend permit e')
        (proxy_stream-total o h raw_body backend permit e' ends) in
    ground (arith, returned)

try_candidates-total :
    (o : Outside) (routes : Routes) (r : Request) (models : List Text) (f : FailureSummary)
    (e : Exchange)
    → ((sent : List UpstreamRequest) (req : UpstreamRequest) (resp : Response)
        → o.client_do sent req ≡ responded resp
        → (not r.chat.stream || is_ended resp.body_ending) ≡ true)
    → All (λ m. is_configured routes m ≡ true) models
    → try_candidates o routes r models f e ≢ none
unfolding try_candidates
try_candidates-total o routes r [] f e ends h eq = ground arith
try_candidates-total o routes r (m ∷ models) f e ends h eq =
    elim (Option-cases (lookup m routes.backends)) [
      | inl none_found ↦ ground (arith, none_found)
      | inr (backend, found) ↦ elim (Option-cases (candidate_body o r m)) [
        | inl no_body ↦ ground (arith, found, no_body)
        | inr (body, has_body) ↦
            elim (Option-cases (proxy_openai_compatible o r.header body r.chat.stream backend e)) [
              | inl stuck ↦
                  proxy_openai_compatible-total o r.header body r.chat.stream backend e ends stuck
              | inr ((result, e'), ran) ↦ ground (
                arith,
                found,
                has_body,
                ran,
                try_candidates-total o routes r models (observe result f)
                    (note_fallback m models result.reason e') ends h.1,
              )
            ]
      ]
    ]

All-mem : (P : Text → Type 0) (xs : List Text) → ((x : Text) → mem x xs ≡ true → P x) → All P xs
unfolding mem
All-mem P [] h = tt
All-mem P (x ∷ xs) h =
    (h x (ground (arith, text_beq_iff x x)), All-mem P xs (λ y e. h y (ground (arith, e))))

Reach-is_configured :
    (h : Routes) (model : Text) {x : Text} → Reach h model x → is_configured h x ≡ true
Reach-is_configured h model (start c) = c
Reach-is_configured h model (via r m c) = c

-- A chat completion ends, whatever the backends answer and however the fallbacks are configured: no
-- loop of it runs on, and no candidate is without a backend. If the completion is streamed, this is
-- for backends whose answers each have a body that ends, with a failure or without; else for any.
pub serve_with_fallback-total :
    (o : Outside) (routes : Routes) (r : Request) (e : Exchange)
    → ((sent : List UpstreamRequest) (req : UpstreamRequest) (resp : Response)
        → o.client_do sent req ≡ responded resp
        → (not r.chat.stream || is_ended resp.body_ending) ≡ true)
    → serve_with_fallback o routes r e ≢ none
unfolding serve_with_fallback
serve_with_fallback-total o routes r e ends eq =
    elim (Bool-cases (is_configured routes r.chat.model)) [
      | inl configured ↦
          let (rest, found, different, reached) =
            candidate_models-Reach routes r.chat.model configured in
          ground (
            arith,
            found,
            try_candidates-total o routes r (r.chat.model ∷ rest) no_failures e ends (
                All-mem (λ m. is_configured routes m ≡ true) (r.chat.model ∷ rest)
                  (λ x m. Reach-is_configured routes r.chat.model ((reached x).0 m))),
          )
      | inr missing ↦ ground (arith, candidate_models-none routes r.chat.model missing)
    ]
