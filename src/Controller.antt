-- ===== src/Controller.antt =====
-- The token budget around a chat request (internal/tokenusage/middleware.go): read the body,
-- estimate, reserve, run the handler behind a capturing writer, and settle. The handler is what it
-- does to its writer; JSON decoding is a parameter; the clock is read when the tokens are reserved
-- and again when they are settled.
pub mod Settled
use agent.Base.{
  ℕ, ◌+◌, ◌-◌, ◌*◌, ◌/◌, ◌≡◌, Bool, true, false, not, ◌&&◌, ◌||◌, Option, none, some, List, [], ◌∷◌,
  ltb, leb, if◌then◌else◌,
}
use agent.Num.{ℤ, pos, negsuc, pos_part}
use agent.Text.{Text, text_eq, codes, trim_space, is_empty}
use agent.Map.{◌==◌}
use agent.Auth.{Identity}
use agent.Budget.{BudgetLimiter, BudgetSnapshot, Reservation, reserve, commit, release}
use agent.Usage.{
  Usage, RequestEstimate, RequestPayload, ContentJson, ResponseJson, estimate_request,
  usage_from_response_body,
}
use agent.Capture.{WriterCall, new_capture_writer, capture_calls, capture_status}

pub record Json : Type 0 where
  pub content : ContentJson
  pub as_request : Text → Option RequestPayload
  pub response : ResponseJson

-- `raw_body` is `none` where the body is too large or cannot be read; `identity` is what the
-- authentication put into the context.
pub record Request : Type 0 where
  pub method : Text
  pub raw_body : Option Text
  pub identity : Option Identity
  pub header : Text → Text

-- What `next.ServeHTTP` does: its calls on the writer, and the content type that it leaves in the
-- header; or its calls until it panics.
pub data HandlerRun : Type 0 where
  returned : List WriterCall → Text → HandlerRun
  panicked : List WriterCall → HandlerRun

pub data Reply : Type 0 where
  passed : Reply
  too_large : Reply
  no_identity : Reply
  over_budget : BudgetSnapshot → ℕ → Reply
  served : BudgetSnapshot → HandlerRun → Reply

-- The calls of `observeUsage`, `observeBudgetRemaining` and `observeBudgetRejected`.
pub data Observation : Type 0 where
  usage_of : Text → Usage → Observation
  remaining_of : Text → ℤ → Observation
  rejected_of : Text → Text → Observation

pub record Handled : Type 0 where
  pub limiter : BudgetLimiter
  pub reply : Reply
  pub observed : List Observation

abbrev pub max_response_body_bytes : ℕ
max_response_body_bytes = 1_048_576

unfoldable pub identity_from_request : Request → Text → Text
identity_from_request r fallback_header =
    let fallback = trim_space (r.header fallback_header) in
    elim r.identity [
      | none ↦ fallback
      | some identity ↦
          let user_id = trim_space identity.user_id in
          let tenant_id = trim_space identity.tenant_id in
          if not (is_empty user_id)
          then user_id
          else if not (is_empty tenant_id)
          then tenant_id
          else fallback
    ]

-- Seconds until the window is reset, rounded up, and at least one; over exact numbers.
unfoldable pub retry_after : ℤ → ℕ → ℕ
retry_after (negsuc n) now = 1
retry_after (pos reset_at) now =
    let seconds = (reset_at - now + 999_999_999) / 1_000_000_000 in
    if ltb seconds 1 then 1 else seconds

abbrev pub is_success_status : ℕ → Bool
is_success_status status = leb 200 status && ltb status 300

-- What the middleware charges for the handler's run; `none` where it releases the reservation.
unfoldable pub charged : Json → Bool → RequestEstimate → HandlerRun → Option Usage
charged json can_flush estimate (panicked calls) = none
charged json can_flush estimate (returned calls content_type) =
    let w = capture_calls calls (new_capture_writer can_flush max_response_body_bytes) in
    if is_success_status (capture_status w)
    then some (usage_from_response_body json.response w.body content_type w.truncated estimate)
    else none

-- The settlement after the handler's run.
unfoldable pub settle_run :
    Option Usage → Text → ℕ → Reservation → BudgetLimiter → BudgetLimiter × List Observation
settle_run none identity later reservation l =
    let (l', _, snapshot) = release later reservation l in
    (l', remaining_of identity snapshot.remaining ∷ [])
settle_run (some usage) identity later reservation l =
    let (l', _, snapshot) = commit usage.total_tokens later reservation l in
    (l', usage_of identity usage ∷ remaining_of identity snapshot.remaining ∷ [])

-- A granted reservation, served.
unfoldable pub serve :
    Json
    → Bool
    → RequestEstimate
    → Text
    → ℕ
    → HandlerRun
    → Reservation
    → BudgetSnapshot
    → BudgetLimiter
    → Handled
unfolding charged settle_run
serve json can_flush estimate identity later next reservation snapshot l =
    let (l', observed) =
      settle_run (charged json can_flush estimate next) identity later reservation l in
    record { limiter = l'; reply = served snapshot next; observed = observed }

-- The middleware once the identity is known.
unfoldable pub reserve_and_serve :
    Json → Bool → RequestEstimate → Text → ℕ → ℕ → HandlerRun → BudgetLimiter → Handled
unfolding serve retry_after
reserve_and_serve json can_flush estimate identity now later next l =
    let (l₁, reservation, snapshot, ok) = reserve identity estimate.usage.total_tokens now l in
    elim reservation [
      | none ↦ record {
        limiter = l₁;
        reply = over_budget snapshot (retry_after snapshot.reset_at now);
        observed = rejected_of identity estimate.usage.model ∷ [];
      }
      | some r ↦ serve json can_flush estimate identity later next r snapshot l₁
    ]

abbrev stopped : Reply → BudgetLimiter → Handled
stopped reply l = record { limiter = l; reply = reply; observed = [] }

-- The middleware once the body is read.
unfoldable pub estimated_request :
    Json → Bool → Option RequestEstimate → Request → ℕ → ℕ → HandlerRun → BudgetLimiter → Handled
unfolding reserve_and_serve identity_from_request
estimated_request json can_flush none r now later next l = stopped passed l
estimated_request json can_flush (some estimate) r now later next l =
    let identity = identity_from_request r l.identity_header in
    if not estimate.reservable
    then stopped passed l
    else if is_empty identity
    then stopped no_identity l
    else reserve_and_serve json can_flush estimate identity now later next l

unfoldable pub middleware : Json → Bool → Request → ℕ → ℕ → HandlerRun → BudgetLimiter → Handled
unfolding estimated_request
middleware json can_flush r now later next l =
    let read : Handled = elim r.raw_body [
      | none ↦ stopped too_large l
      | some raw_body ↦
          estimated_request json can_flush
            (estimate_request json.content (json.as_request raw_body)
              l.default_max_completion_tokens)
            r now later next l
    ] in
    if not (r.method == codes "POST") then stopped passed l else read
