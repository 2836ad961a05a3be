-- ===== src/Tests/Apps.antt =====
-- Runs of a gateway's middlewares, and of what stands beside them.
use agent.Base.{
  Bool, Option, all, ℕ, ◌-◌, ◌≤◌, ◌≡◌, refl, true, false, none, some, List, [], ◌∷◌, arith, eqb,
  if◌then◌else◌, ltb, map,
}
use agent.Num.{pos, pos_part}
use agent.Text.{Text, text_eq, codes, trim_space, join, split, has_suffix}
use agent.Map.{distinct, ◌==◌, nat_eq, mem, lookup, range_update}
use agent.Config.{ServiceConfig}
use agent.Auth.{ApiKeyAuthenticator}
use agent.RateLimit.{RateLimiter}
use agent.Budget.{BudgetLimiter, budget_for_identity, cleanup_locked}
use agent.Usage.{RequestPayload, ResponsePayload}
use agent.Controller.{Json, HandlerRun, returned}
use agent.Concurrency.{Limiter}
use agent.Capture.{write_header, status_ok, new_capture_writer, capture_calls, capture_status}
use agent.Errors.{ErrorBody}
use agent.App.Pipeline.{Gateway, ChatRequest, Clock, serve}
use agent.App.Identity.{serve-header}
use agent.App.Busy.{InRange, IsUncharged, serve-IsUncharged}
use agent.Metrics.{new_metrics, full_name}
use agent.Metrics.Counts.{
  Finished, observe_all, successes_of, requests_of, shown, observe_all-shown,
}
use agent.Metrics.Names.{new_metrics-distinct}
use agent.Tracing.Writer.{
  TracedCall, sets_status, writes, flushes, reads_from, new_response_writer, traced_calls,
  seen_calls, traced_calls-capture_calls,
}
use agent.Health.{
  State, Life, serving, here, later, starts, ready_handler, is_serving, ready_handler-is_serving,
}
use agent.Admin.{answered, check_observability_services, checked_in_order}
use agent.Admin.Order.{check_observability_services-in_order}
use agent.Admin.Pages.{
  page_handler, clean_request_path, cache_header, is_name, page_handler-is_name,
}

abbrev ann : Text
ann = codes "ann"

abbrev keys : ApiKeyAuthenticator
keys = record {
  header = codes "X-Api-Key";
  credentials =
      record {
        hash = codes "secret";
        identity = record { key_id = codes "k1"; user_id = ann; tenant_id = []; scopes = [] };
      }
      ∷ [];
}

-- A bucket that counts down its tokens.
abbrev counting : RateLimiter ℕ
counting = record {
  Bucket = ℕ;
  new_bucket = λ rate burst. pos_part burst;
  allow = λ now n. if ltb 0 n then (true, n - 1) else (false, n);
  delay = λ now n. (some 1_500_000_000, n);
}

abbrev limiter : BudgetLimiter
limiter = record {
  identity_header = codes "X-User-Id";
  window = 100;
  default_budget_tokens = pos 50;
  default_max_completion_tokens = pos 4;
  user_budgets = [];
  identity_idle_ttl = 50;
  accounts = [];
}

-- One slot, which another request holds.
abbrev full : Limiter
full = record { slots = 1; capacity = 1 }

abbrev gateway : Gateway ℕ ℕ
gateway = record {
  authenticator = some keys;
  users = none;
  budget = some limiter;
  slots = some full;
}

abbrev payload : RequestPayload
payload = record {
  model = codes "m";
  messages = record { role = codes "user"; content = codes "hello" } ∷ [];
  max_tokens = none;
  max_completion_tokens = none;
}

abbrev no_usage : ResponsePayload
no_usage = record { model = []; contents = []; usage = none }

abbrev json : Json
json = record {
  content = record { as_text = λ s. some s; as_parts = λ s. none };
  as_request = λ s. some payload;
  response = record { as_payload = λ s. some no_usage; as_chunk = λ s. none };
}

abbrev headers : Text → Text → Text
headers user name = if name == codes "X-Api-Key" then codes "secret" else user

abbrev request : ChatRequest
request = record { method = codes "POST"; header = headers []; raw_body = some (codes "{}") }

abbrev clock : Clock
clock = record { arrival = 120; reserved = 120; settled = 130 }

abbrev answer : HandlerRun
answer = returned (write_header 200 ∷ []) (codes "json")

abbrev encode : ErrorBody → Text
encode e = e.message

-- Bob's name in a header does not make Ann's request his.
header_example :
    serve counting json true encode
      (λ k. k)
      (record request { header = headers (codes "bob") })
      clock
      answer
      gateway
    ≡ serve counting json true encode (λ k. k) request clock answer gateway
unfolding trim_space
header_example =
    serve-header counting json true encode (λ k. k) request clock answer gateway keys
      (headers (codes "bob")) refl refl refl

limiter-InRange : InRange 120 limiter
unfolding budget_for_identity cleanup_locked lookup range_update
limiter-InRange = record {
  budgets = λ k. record { positive = omega arith; in_range = omega arith };
  counts =
      λ k. record { used_nonneg = omega arith; reserved_nonneg = omega arith; fits = omega arith };
}

busy_example :
    IsUncharged 120 gateway.budget
      (serve counting json true encode (λ k. k) request clock answer gateway).0.budget
      ann
      1
busy_example =
    serve-IsUncharged counting json true encode (λ k. k) request clock answer gateway full limiter
      refl (omega arith) refl limiter-InRange ann 1

abbrev finished : List Finished
finished =
    (ann, [], pos 5) ∷ (codes "bob", codes "failure", pos 7) ∷ (ann, codes "success", pos 1) ∷ []

-- A ratio as the pair of its two numbers.
abbrev pair : ℕ → ℕ → ℕ × ℕ
pair m n = (m, n)

rate_example :
    (shown ann (observe_all pair (0, 0) finished).calls none ≡ some (1, 2))
    × (successes_of ann finished ≤ requests_of ann finished)
unfolding successes_of requests_of
rate_example = observe_all-shown pair (0, 0) ann finished (omega arith)

names_example : distinct (map full_name (new_metrics (codes "aegis"))) ≡ true
names_example = new_metrics-distinct (codes "aegis")

abbrev called : List TracedCall
called =
    writes (codes "hi") (pos 2)
    ∷ sets_status 500
    ∷ reads_from (codes "a" ∷ codes "b" ∷ []) (pos 2)
    ∷ flushes
    ∷ []

traced_example :
    let t = traced_calls called (new_response_writer true) in
    let w = capture_calls (seen_calls called) (new_capture_writer true 10) in
    (t.calls ≡ w.calls)
    × (capture_status w ≡ (if eqb t.status_code 0 then status_ok else t.status_code))
traced_example = traced_calls-capture_calls called 10 refl

abbrev running : Life
running = record { phase = serving; ready = true }

abbrev state : State
state = record { service_name = codes "gateway"; start_time = 0; ready = some true }

ready_example :
    (ready_handler state (codes "GET")).status ≡ (if is_serving running.phase then 200 else 503)
ready_example =
    ready_handler-is_serving {life = running} state (codes "GET") (later here starts) refl refl

abbrev service : Text → ServiceConfig
service name = record { name = name; kind = codes "k"; public_url = []; health_url = name }

abbrev services : List ServiceConfig
services = service (codes "a") ∷ service (codes "b") ∷ []

order_example :
    check_observability_services (λ url. answered 200) (λ n. []) (1 ∷ 0 ∷ []) services
    ≡ checked_in_order (λ url. answered 200) (λ n. []) services
unfolding mem
order_example =
    check_observability_services-in_order (λ url. answered 200) (λ n. []) (1 ∷ 0 ∷ []) services
      (λ j h. ground (arith, h))

-- Every path is that of a file.
abbrev all_files : Text → Option Bool
all_files request_path = some false

page_example :
    (codes "../a/./b//../c" ≡ codes "../a/./b//../c")
    × (codes "public, max-age=300" ≡ codes "public, max-age=300")
    × (names : List Text) × (codes "a/c" ≡ join (codes "/") names)
    × (all is_name names ≡ true)
    × (all_files (codes "a/c") ≡ some false)
unfolding page_handler clean_request_path cache_header join split has_suffix
page_example = page_handler-is_name all_files (codes "GET") (codes "../a/./b//../c") refl
