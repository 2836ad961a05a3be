-- ===== src/App/Refused.antt =====
-- The answer to a request that finds no free slot (internal/concurrency/limiter.go, Middleware), and
-- what it is charged.
use agent.Base.{ℕ, ◌≡◌, ◌≤◌, refl, ap, ◌∙◌, Bool, false, none, some, List, [], ◌∷◌, arith, ltb}
use agent.Text.{Text, text_eq, codes}
use agent.Map.{nat_eq}
use agent.Usage.{RequestEstimate}
use agent.Controller.{Json, HandlerRun, max_response_body_bytes, returned, charged}
use agent.Concurrency.{Limiter, acquire}
use agent.Errors.{ErrorBody, write_concurrency_error}
use agent.Capture.{
  WriterCall, write_header, write, CaptureWriter, new_capture_writer, capture_header, capture_calls,
  capture_status, capture,
}
use agent.App.Pipeline.{guarded}

refused_calls : (ErrorBody → Text) → List WriterCall
refused_calls encode =
    (write_concurrency_error encode 429 (codes "当前并发请求过多，请稍后重试") (codes "rate_limit_error")).calls

guarded-full :
    (encode : ErrorBody → Text) (l : Limiter) (handler : HandlerRun)
    → l.capacity ≤ l.slots
    → guarded encode (some l) handler
      ≡ returned (refused_calls encode) (codes "application/json; charset=utf-8")
unfolding guarded acquire refused_calls
guarded-full encode l handler full =
    let none_free : ltb l.slots l.capacity ≡ false = ground arith in rw (none_free) refl

capture-status : (p : Text) (w : CaptureWriter) → (capture p w).status ≡ w.status
unfolding capture
capture-status p w = ground arith

refused-status :
    (can_flush : Bool) (limit : ℕ) (body : Text)
    → capture_status
        (capture_calls (write_header 429 ∷ write body ∷ []) (new_capture_writer can_flush limit))
      ≡ 429
unfolding capture_status capture_calls capture_header
refused-status can_flush limit body =
    let w = capture_header 429 (new_capture_writer can_flush limit) in
    rw (capture-status body w) refl

refused-charged :
    (json : Json) (can_flush : Bool) (e : RequestEstimate) (body content_type : Text)
    → charged json can_flush e (returned (write_header 429 ∷ write body ∷ []) content_type) ≡ none
unfolding charged
refused-charged json can_flush e body content_type =
    rw (refused-status can_flush max_response_body_bytes body) refl

refused_run-charged :
    (encode : ErrorBody → Text) (json : Json) (can_flush : Bool) (e : RequestEstimate)
    → charged json can_flush e
        (returned (refused_calls encode) (codes "application/json; charset=utf-8"))
      ≡ none
unfolding refused_calls write_concurrency_error
refused_run-charged encode json can_flush e = refused-charged json can_flush e _ _

-- A handler behind a limit that has no free slot is not run, and nothing is charged.
pub guarded-uncharged :
    (encode : ErrorBody → Text) (json : Json) (can_flush : Bool) (l : Limiter)
    (handler : HandlerRun)
    → l.capacity ≤ l.slots
    → (e : RequestEstimate) → charged json can_flush e (guarded encode (some l) handler) ≡ none
guarded-uncharged encode json can_flush l handler full e =
    ap (charged json can_flush e) (guarded-full encode l handler full)
    ∙ refused_run-charged encode json can_flush e
