-- ===== src/Tests/Proxies.antt =====
-- Runs of the proxy and of the trace headers.
use agent.Base.{
  ◌≡◌, ◌≢◌, refl, true, false, not, ◌||◌, arith, Option, none, some, List, [], ◌∷◌, ◌++◌,
  if◌then◌else◌, Option-cases, inl, inr,
}
use agent.Num.{pos}
use agent.Text.{Text, text_eq, codes}
use agent.Map.{mem, ◌==◌, lookup}
use agent.Config.{CircuitBreakerConfig, ModelBackendConfig, AiConfig}
use agent.Breaker.{opened, allow, state_locked, admit, CircuitBreakerPermit}
use agent.Candidates.{candidate_models, visit, visit_all, Routes, ModelBackend}
use agent.Sse.{timed_out, eof, is_ended}
use agent.Proxy.{
  Header, AttemptResult, retryable_attempt, Outside, Exchange, Outcome, failed, responded,
  UpstreamRequest, Response,
}
use agent.Proxy.Attempt.{proxy_non_stream}
use agent.Proxy.Stream.{proxy_stream}
use agent.Proxy.Settled.{IsSettled, proxy_non_stream-IsSettled}
use agent.Proxy.StreamSettled.{Holds, proxy_stream-IsSettled}
use agent.Proxy.Total.{serve_with_fallback-total}
use agent.Proxy.Answer.{Answers, serve_with_fallback-answer}
use agent.Proxy.Fallback.{admitted, proxy_openai_compatible, Request, serve_with_fallback}
use agent.Proxy.Exhausted.{
  AllFail, none_left, one_fails, timed_out_all, serve_with_fallback-AllFail,
}
use agent.Hex.{is_lower_hex}
use agent.Tracing.{Info, new_info_from_headers}
use agent.Tracing.Outbound.{inject, inject-continues}
use agent.Tracing.RoundTrip.{IsTraceInfo}

abbrev first_url : Text
first_url = codes "http://a/v1/chat/completions"

-- The first backend times out, the second answers.
abbrev answer_at : Text → Outcome
answer_at url =
    if url == first_url
    then failed timed_out
    else responded (record {
      status_code = 200;
      header = [];
      body = codes "data: {}" ++ 10 ∷ 10 ∷ [];
      body_ending = eof;
      waits = [];
    })

abbrev outside : Outside
outside = record {
  valid_url = λ url. true;
  client_do = λ sent req. answer_at req.url;
  chunk_json = λ s. some (codes "hi" ∷ []);
  encode_error = λ e. e.message;
  rewrite_model = λ body model. some body;
  getenv = λ name. [];
  now = λ n. n;
  text_of_json = λ s. none;
  parts_of_json = λ s. none;
  encode_completion = λ c. c.content;
  encode_chunk = λ c. c.content;
  random = [];
  left_at = λ n. false;
}

abbrev config_named : Text → ModelBackendConfig
config_named name = record {
  name = name;
  type = codes "openai";
  base_url = codes "http://" ++ name;
  api_key = [];
  api_key_env = [];
  models = name ∷ [];
}

abbrev backend_at : Text → Text → ModelBackend
backend_at name url = record {
  cfg = config_named name;
  backend_type = codes "openai_compatible";
  chat_completions_url = url;
}

abbrev first_backend : ModelBackend
first_backend = backend_at (codes "a") first_url

abbrev second_backend : ModelBackend
second_backend = backend_at (codes "b") (codes "http://b/v1/chat/completions")

abbrev routes : Routes
routes = record {
  backends = (codes "a", first_backend) ∷ (codes "b", second_backend) ∷ [];
  fallbacks = (codes "a", codes "b" ∷ []) ∷ [];
}

abbrev breaker_config : CircuitBreakerConfig
breaker_config = record {
  enabled = true;
  failure_threshold = pos 1;
  open_timeout = pos 100;
  half_open_max_requests = pos 1;
}

abbrev start : Exchange
start = record {
  client = record {
    added = [];
    status = none;
    sink = record { output = []; writes_left = none };
    can_flush = true;
  };
  breaker = record { cfg = breaker_config; metrics = none; states = [] };
  metrics = some [];
  sent = [];
  ticks = 0;
}

abbrev permit : CircuitBreakerPermit
permit = record { backend = codes "a"; allowed = true; done = false }

abbrev streamed_chat : Request
streamed_chat = record {
  header = [];
  raw_body = codes "{}";
  chat = record { model = codes "a"; messages = []; stream = true };
}

non_stream_example :
    IsSettled outside permit start
      (proxy_non_stream outside [] (codes "{}") first_backend permit start)
non_stream_example = proxy_non_stream-IsSettled outside [] (codes "{}") first_backend permit start

stream_example :
    Holds
      (IsSettled outside permit start)
      (proxy_stream outside [] (codes "{}") second_backend permit start)
stream_example = proxy_stream-IsSettled outside [] (codes "{}") second_backend permit start

-- Every answer has an end.
outside_ends :
    (sent : List UpstreamRequest) (req : UpstreamRequest) (resp : Response)
    → outside.client_do sent req ≡ responded resp
    → (not true || is_ended resp.body_ending) ≡ true
outside_ends sent req resp eq = ground (arith, eq)

total_example : serve_with_fallback outside routes streamed_chat start ≢ none
total_example = serve_with_fallback-total outside routes streamed_chat start outside_ends

abbrev or_start : Option Exchange → Exchange
or_start none = start
or_start (some e) = e

abbrev answered : Exchange
answered = or_start (serve_with_fallback outside routes streamed_chat start)

-- What `answered` stands for.
answered_lem : serve_with_fallback outside routes streamed_chat start ≡ some answered
answered_lem = elim (Option-cases (serve_with_fallback outside routes streamed_chat start)) [
  | inl stuck ↦
      absurd (serve_with_fallback-total outside routes streamed_chat start outside_ends stuck)
  | inr (e, eq) ↦ rw eq refl
]

answer_example : (e₁ : Exchange) × (e₁.client ≡ start.client) × Answers outside e₁ answered
answer_example = serve_with_fallback-answer outside routes streamed_chat start answered answered_lem

-- A breaker that lets nothing through.
abbrev tripped : Exchange
tripped = record start {
  breaker = record start.breaker {
    states =
        (
          codes "a",
          record {
            state = opened;
            consecutive_failures = 1;
            opened_at = 0;
            half_open_in_flight = 0;
          },
        )
        ∷ [];
  };
}

abbrev refused : AttemptResult
refused = retryable_attempt (codes "circuit_open")

abbrev alone : Routes
alone = record routes { fallbacks = [] }

abbrev after_refusal : Exchange
after_refusal = record tripped { ticks = 1 }

tripped-AllFail :
    AllFail outside alone streamed_chat (codes "a" ∷ []) tripped (refused ∷ []) after_refusal
unfolding lookup proxy_openai_compatible admitted allow state_locked admit
tripped-AllFail =
    one_fails first_backend (codes "{}") refused after_refusal refl refl refl refl refl none_left

unavailable_example :
    (e' : Exchange) × (serve_with_fallback outside alone streamed_chat tripped ≡ some e')
    × (e'.client.status ≡ some (if timed_out_all (refused ∷ []) then 504 else 503))
unfolding candidate_models visit visit_all lookup mem
unavailable_example =
    serve_with_fallback-AllFail outside alone streamed_chat (codes "a") [] tripped after_refusal
      (refused ∷ []) refl tripped-AllFail refl

abbrev two_backends : AiConfig
two_backends = record {
  request_timeout = pos 0;
  first_token_timeout = pos 0;
  circuit_breaker = breaker_config;
  fallbacks = [];
  backends = config_named (codes "a") ∷ config_named (codes "b") ∷ [];
}

abbrev info : Info
info = record {
  trace_id = codes "4bf92f3577b34da6a3ce929d0e0e4736";
  span_id = codes "00f067aa0ba902b7";
  parent_span_id = [];
  trace_flags = codes "01";
  trace_state = [];
}

abbrev sent : Info
sent = record info { parent_span_id = info.span_id; span_id = codes "00f067aa0ba902b7" }

sent-IsTraceInfo : IsTraceInfo sent
unfolding is_lower_hex
sent-IsTraceInfo = record {
  trace_hex = refl;
  trace_len = refl;
  trace_nonzero = refl;
  span_hex = refl;
  span_len = refl;
  span_nonzero = refl;
  flags_hex = refl;
  flags_len = refl;
}

abbrev sent_headers : Header
sent_headers = inject (λ h. h) (codes "00f067aa0ba902b7") none (some info) []

trace_sent_example :
    let received = new_info_from_headers (codes "other") (codes "next") sent_headers in
    (received.trace_id ≡ info.trace_id)
    × (received.parent_span_id ≡ codes "00f067aa0ba902b7")
    × (received.span_id ≡ codes "next")
    × (received.trace_flags ≡ info.trace_flags)
trace_sent_example =
    inject-continues (λ h. h) (codes "00f067aa0ba902b7") info [] sent-IsTraceInfo refl
      (codes "other") (codes "next")
