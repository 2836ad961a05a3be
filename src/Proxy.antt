-- ===== src/Proxy.antt =====
-- The proxying of a chat completion (internal/llm/proxy.go, with internal/llm/backend.go,
-- internal/llm/metrics.go and internal/llm/response.go): the state that a request changes, and the
-- helpers of an attempt on a backend.
pub mod Upstream
pub mod Attempt
pub mod Stream
pub mod Mock
pub mod Fallback
pub mod Settled
pub mod StreamSettled
pub mod Total
pub mod Answer
pub mod Exhausted
use agent.Base.{
  ℕ, zero, suc, ◌+◌, ◌≡◌, Bool, true, false, not, ◌&&◌, ◌||◌, Option, none, some, List, [], ◌∷◌,
  ◌++◌, eqb, leb, ltb, if◌then◌else◌, map,
}
use agent.Num.{ℤ}
use agent.Text.{Text, text_eq, codes, is_empty, trim_space, to_lower, has_suffix, trim_right_by}
use agent.Map.{◌==◌, Map, mem, lookup, or_nil}
use agent.Config.{ModelBackendConfig}
use agent.Breaker.{CircuitBreaker, CircuitBreakerPermit, allow, succeed, fail, ignore}
use agent.Candidates.{Routes, ModelBackend}
use agent.Sse.{Failure, canceled, deadline_exceeded, timed_out, network, ReadError, Sink, ChunkJson}

-- `http.Header` with canonical keys.
abbrev pub Header : Type 0
Header = Map Text (List Text)

-- `Header.Get`: the first value, or the empty string.
abbrev pub first_value : Option (List Text) → Text
first_value none = []
first_value (some []) = []
first_value (some (v ∷ vs)) = v

abbrev pub get : Text → Header → Text
get key h = first_value (lookup key h)

-- The request's side of the client's connection, and the backend's request and answer.
pub record UpstreamRequest : Type 0 where
  pub url : Text
  pub headers : List (Text × Text)
  pub body : Text

-- `waits` is the case that each `select` on the response's body takes: the event has arrived (also
-- when the list is used up), the context is done, or the timer has fired.
pub data Wait : Type 0 where
  arrived timer_fired : Wait
  context_done : Failure → Wait

-- The body is its bytes and what comes behind them; a body that never ends is any of its beginnings,
-- with the ending `unended`.
pub record Response : Type 0 where
  pub status_code : ℕ
  pub header : Header
  pub body : Text
  pub body_ending : ReadError
  pub waits : List Wait

pub data Outcome : Type 0 where
  failed : Failure → Outcome
  responded : Response → Outcome

pub record ErrorBody : Type 0 where
  pub message : Text
  pub type : Text
  pub param : Option Text

pub record ChatMessage : Type 0 where
  pub role : Text
  pub content : Text

pub record ChatCompletionRequest : Type 0 where
  pub model : Text
  pub messages : List ChatMessage
  pub stream : Bool

-- `chatCompletionResponse` and `chatCompletionChunk` of internal/llm/types.go, by the fields that
-- vary: there is one choice, of index 0.
pub record Completion : Type 0 where
  pub id : Text
  pub model : Text
  pub content : Text
  pub prompt_tokens : ℕ
  pub completion_tokens : ℕ
  pub total_tokens : ℕ

pub record Chunk : Type 0 where
  pub id : Text
  pub model : Text
  pub role : Text
  pub content : Text
  pub finish_reason : Option Text

-- What the code takes from elsewhere: the HTTP client (`client_do` is given the requests that were
-- sent before), the parsing of a URL, JSON, the environment, the clock (its n-th reading), random
-- bytes, and whether the client has left before the n-th piece of a mock stream.
pub record Outside : Type 0 where
  pub valid_url : Text → Bool
  pub client_do : List UpstreamRequest → UpstreamRequest → Outcome
  pub chunk_json : ChunkJson
  pub encode_error : ErrorBody → Text
  pub rewrite_model : Text → Text → Option Text
  pub getenv : Text → Text
  pub now : ℕ → ℕ
  pub text_of_json : Text → Option Text
  pub parts_of_json : Text → Option (List (Text × Text))
  pub encode_completion : Completion → Text
  pub encode_chunk : Chunk → Text
  pub random : List ℕ
  pub left_at : ℕ → Bool

-- The client's `http.ResponseWriter`: the header lines added in order, the status of the first
-- `WriteHeader`, the body, and whether the writer is an `http.Flusher`.
pub record Client : Type 0 where
  pub added : List (Text × Text)
  pub status : Option ℕ
  pub sink : Sink
  pub can_flush : Bool

-- The calls on the metrics, without the durations.
pub data Observation : Type 0 where
  backend_request : Text → Text → Observation
  upstream_error : Text → Text → Observation
  model_fallback : Text → Text → Text → Observation
  first_token : Text → Observation

-- What the handler changes while it serves a request; `metrics` is `none` for a nil `*Metrics`.
pub record Exchange : Type 0 where
  pub client : Client
  pub breaker : CircuitBreaker
  pub metrics : Option (List Observation)
  pub sent : List UpstreamRequest
  pub ticks : ℕ

-- `proxyAttemptResult`
pub record AttemptResult : Type 0 where
  pub done : Bool
  pub retryable : Bool
  pub reason : Text
  pub timeout : Bool

abbrev pub retryable_attempt : Text → AttemptResult
retryable_attempt reason = record {
  done = false;
  retryable = true;
  reason = reason;
  timeout = reason == codes "timeout";
}

abbrev pub done_attempt : AttemptResult
done_attempt = record { done = true; retryable = false; reason = []; timeout = false }

-- `attemptFailureSummary`
pub record FailureSummary : Type 0 where
  pub any : Bool
  pub all_timeout : Bool

unfoldable pub observe : AttemptResult → FailureSummary → FailureSummary
observe result s =
    let started = if s.any then s.all_timeout else true in
    record { any = true; all_timeout = if result.timeout then started else false }

abbrev pub result_success : Text
result_success = codes "success"

abbrev pub result_failure : Text
result_failure = codes "failure"

abbrev pub request_result_from_status : ℕ → Text
request_result_from_status status =
    if leb 200 status && ltb status 400 then result_success else result_failure

unfoldable pub is_retryable_status : ℕ → Bool
is_retryable_status status = eqb status 429 || leb 500 status

unfoldable pub failure_reason_from_status : ℕ → Text
failure_reason_from_status status =
    if eqb status 429 then codes "http_429" else if leb 500 status then codes "http_5xx" else []

unfoldable pub failure_reason_from_error : Failure → Text
failure_reason_from_error canceled = codes "client_canceled"
failure_reason_from_error deadline_exceeded = codes "timeout"
failure_reason_from_error timed_out = codes "timeout"
failure_reason_from_error network = codes "network"

abbrev pub hop_by_hop : List Text
hop_by_hop = map codes (
    "connection" ∷ "keep-alive" ∷ "proxy-authenticate" ∷ "proxy-authorization" ∷ "te" ∷ "trailer"
    ∷ "transfer-encoding" ∷ "upgrade" ∷ "content-length" ∷ [])

unfoldable pub is_hop_by_hop_header : Text → Bool
is_hop_by_hop_header key = mem (to_lower key) hop_by_hop

abbrev pub add_values : Text → List Text → List (Text × Text)
add_values key values = map (λ v. (key, v)) values

-- The header lines that `copyResponseHeaders` adds.
unfoldable pub copied_headers : Header → List (Text × Text)
copied_headers [] = []
copied_headers ((key, values) ∷ src) =
    let rest = copied_headers src in
    if is_hop_by_hop_header key then rest else add_values key values ++ rest

abbrev pub add_headers : List (Text × Text) → Client → Client
add_headers lines w = record w { added = w.added ++ lines }

-- Only the first call counts.
abbrev pub write_status : ℕ → Client → Client
write_status status w = elim w.status [ none ↦ record w { status = some status } | some s ↦ w ]

abbrev pub append_bytes : Text → Option ℕ → Client → Client
append_bytes bytes left w = record w {
  sink = record { output = w.sink.output ++ bytes; writes_left = left };
}

-- `Write`: false if it fails.
unfoldable pub write_bytes : Text → Client → Client × Bool
write_bytes bytes w = elim w.sink.writes_left [
  | none ↦ (append_bytes bytes none w, true)
  | some zero ↦ (w, false)
  | some (suc n) ↦ (append_bytes bytes (some n) w, true)
]

abbrev pub json_headers : List (Text × Text)
json_headers = (codes "Content-Type", codes "application/json; charset=utf-8") ∷ []

unfoldable pub write_openai_error : Outside → ℕ → Text → Text → Text → Client → Client
unfolding write_bytes
write_openai_error o status message type param w =
    let shown : Option Text = if is_empty param then none else some param in
    let body = o.encode_error (record { message = message; type = type; param = shown }) in
    (write_bytes body (write_status status (add_headers json_headers w))).0

abbrev pub reply_error : Outside → ℕ → Text → Text → Text → Exchange → Exchange
reply_error o status message type param e = record e {
  client = write_openai_error o status message type param e.client;
}

unfoldable pub observe_metric : Observation → Exchange → Exchange
observe_metric x e = elim e.metrics [
  | none ↦ e
  | some log ↦ record e { metrics = some (log ++ x ∷ []) }
]

-- How an attempt settles its permit.
pub data Settlement : Type 0 where
  succeeded failed_backend ignored : Settlement

unfoldable pub settle_permit :
    Outside → Settlement → CircuitBreakerPermit → Exchange → Exchange × CircuitBreakerPermit
settle_permit o how p e =
    let now = o.now e.ticks in
    let (b, p') : CircuitBreaker × CircuitBreakerPermit = elim how [
      | succeeded ↦ succeed now p e.breaker
      | failed_backend ↦ fail now p e.breaker
      | ignored ↦ ignore now p e.breaker
    ] in
    (record e { breaker = b; ticks = e.ticks + 1 }, p')
