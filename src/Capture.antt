-- ===== src/Capture.antt =====
-- The response writer that records what the handler writes (internal/tokenusage/capture_writer.go),
-- over a writer whose calls are listed in order.
pub mod Record
use agent.Base.{
  ℕ, zero, suc, ◌+◌, ◌-◌, ◌≡◌, ◌≤◌, ◌<◌, refl, Bool, true, false, ◌||◌, List, [], ◌∷◌, ◌++◌, arith,
  ltb, leb, eqb, if◌then◌else◌, length, take, Option, none, some, Bool-cases, inl, inr,
}
use agent.Text.{Text}

-- The calls on the wrapped `http.ResponseWriter`.
pub data WriterCall : Type 0 where
  write_header : ℕ → WriterCall
  write : Text → WriterCall
  flush : WriterCall

-- `calls` is what the wrapped writer was asked; `limit` of the configuration is a constant of the
-- code and positive.
pub record CaptureWriter : Type 0 where
  pub calls : List WriterCall
  pub can_flush : Bool
  pub status : ℕ
  pub body : Text
  pub limit : ℕ
  pub written : Bool
  pub truncated : Bool

abbrev pub status_ok : ℕ
status_ok = 200

abbrev pub new_capture_writer : Bool → ℕ → CaptureWriter
new_capture_writer can_flush limit = record {
  calls = [];
  can_flush = can_flush;
  status = 0;
  body = [];
  limit = limit;
  written = false;
  truncated = false;
}

abbrev forward : WriterCall → CaptureWriter → CaptureWriter
forward c w = record w { calls = w.calls ++ c ∷ [] }

unfoldable pub capture_header : ℕ → CaptureWriter → CaptureWriter
capture_header status w =
    if w.written
    then w
    else forward (write_header status) (record w { status = status; written = true })

unfoldable pub capture : Text → CaptureWriter → CaptureWriter
capture p w =
    let remaining = w.limit - length w.body in
    if leb w.limit 0 || w.truncated
    then record w { truncated = true }
    else if leb remaining 0
    then record w { truncated = true }
    else if ltb remaining (length p)
    then record w { body = w.body ++ take remaining p; truncated = true }
    else record w { body = w.body ++ p }

unfoldable pub capture_write : Text → CaptureWriter → CaptureWriter
unfolding capture_header capture
capture_write p w =
    let w₁ = if w.written then w else capture_header status_ok w in forward (write p) (capture p w₁)

-- `Flush` is a method only of a writer that wraps an `http.Flusher`.
unfoldable pub capture_flush : CaptureWriter → CaptureWriter
unfolding capture_header
capture_flush w =
    let w₁ = if w.written then w else capture_header status_ok w in
    if w.can_flush then forward flush w₁ else w

unfoldable pub capture_status : CaptureWriter → ℕ
capture_status w = if eqb w.status 0 then status_ok else w.status

unfoldable pub capture_call : WriterCall → CaptureWriter → CaptureWriter
unfolding capture_header capture_write capture_flush
capture_call (write_header status) w = capture_header status w
capture_call (write p) w = capture_write p w
capture_call flush w = capture_flush w

unfoldable pub capture_calls : List WriterCall → CaptureWriter → CaptureWriter
unfolding capture_call
capture_calls [] w = w
capture_calls (c ∷ cs) w = capture_calls cs (capture_call c w)

-- All that a handler writes.
unfoldable pub written_by : List WriterCall → Text
written_by [] = []
written_by (write p ∷ cs) = p ++ written_by cs
written_by (write_header status ∷ cs) = written_by cs
written_by (flush ∷ cs) = written_by cs
