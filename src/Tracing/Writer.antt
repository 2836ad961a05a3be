-- ===== src/Tracing/Writer.antt =====
-- The writer of the access log (internal/tracing/response_writer.go) and the middleware around a
-- request (internal/tracing/middleware.go). The handler is what it does to its writer, and the
-- clock and the remote address are left out of the log.
use agent.Base.{
  ℕ, ◌≡◌, refl, Bool, true, false, Option, none, some, List, [], ◌∷◌, ◌++◌, arith, if◌then◌else◌,
  eqb, all, sym, subst, append-nil, append_assoc,
}
use agent.Num.{ℤ, pos, add_int}
use agent.Text.{Text}
use agent.Proxy.{Header}
use agent.Capture.{
  WriterCall, write_header, write, flush, status_ok, CaptureWriter, new_capture_writer,
  capture_call, capture_calls, capture_status, capture,
}
use agent.Tracing.{Info, new_info_from_headers}
use agent.Tracing.Outbound.{from_context, set_response_headers}

-- What a handler asks of the writer, with the number of bytes that the wrapped writer takes.
-- `reads_from` has the pieces that the reader gives before its end, none for an empty reader;
-- `ReadFrom` reaches the wrapped writer as one write for each, by its own `ReadFrom` or by `io.Copy`.
pub data TracedCall : Type 0 where
  sets_status : ℕ → TracedCall
  writes : Text → ℤ → TracedCall
  flushes : TracedCall
  reads_from : List Text → ℤ → TracedCall

pub record ResponseWriter : Type 0 where
  pub calls : List WriterCall
  pub can_flush : Bool
  pub status_code : ℕ
  pub bytes_written : ℤ
  pub wrote_header : Bool

abbrev pub new_response_writer : Bool → ResponseWriter
new_response_writer can_flush = record {
  calls = [];
  can_flush = can_flush;
  status_code = status_ok;
  bytes_written = pos 0;
  wrote_header = false;
}

abbrev forward : WriterCall → ResponseWriter → ResponseWriter
forward c w = record w { calls = w.calls ++ c ∷ [] }

unfoldable pub traced_header : ℕ → ResponseWriter → ResponseWriter
traced_header status w =
    if w.wrote_header
    then w
    else forward (write_header status) (record w { status_code = status; wrote_header = true })

abbrev with_header : ResponseWriter → ResponseWriter
with_header w = if w.wrote_header then w else traced_header status_ok w

unfoldable pub traced_write : Text → ℤ → ResponseWriter → ResponseWriter
unfolding traced_header
traced_write p n w =
    let w₁ = forward (write p) (with_header w) in
    record w₁ { bytes_written = add_int w₁.bytes_written n }

unfoldable pub traced_flush : ResponseWriter → ResponseWriter
unfolding traced_header
traced_flush w = let w₁ = with_header w in if w₁.can_flush then forward flush w₁ else w₁

abbrev pub write_all : List Text → List WriterCall
write_all [] = []
write_all (p ∷ ps) = write p ∷ write_all ps

unfoldable pub traced_read_from : List Text → ℤ → ResponseWriter → ResponseWriter
unfolding traced_header
traced_read_from pieces n w =
    let w₀ = with_header w in
    let w₁ = record w₀ { calls = w₀.calls ++ write_all pieces } in
    record w₁ { bytes_written = add_int w₁.bytes_written n }

unfoldable pub traced_call : TracedCall → ResponseWriter → ResponseWriter
unfolding traced_header traced_write traced_flush traced_read_from
traced_call (sets_status status) w = traced_header status w
traced_call (writes p n) w = traced_write p n w
traced_call flushes w = traced_flush w
traced_call (reads_from pieces n) w = traced_read_from pieces n w

unfoldable pub traced_calls : List TracedCall → ResponseWriter → ResponseWriter
unfolding traced_call
traced_calls [] w = w
traced_calls (c ∷ cs) w = traced_calls cs (traced_call c w)

-- The fields of the log's entry that the middleware decides.
pub record LogEntry : Type 0 where
  pub trace_id : Text
  pub span_id : Text
  pub status : ℕ
  pub bytes : ℤ

-- What a request leaves: the headers of the answer as the handler finds them, the calls on its
-- writer, the entry of the log, and the information that the handler finds in its context.
pub record Traced : Type 0 where
  pub headers : Header
  pub calls : List WriterCall
  pub entry : LogEntry
  pub passed_on : Info

abbrev info_or : Info → Option Info → Info
info_or own none = own
info_or own (some info) = info

unfoldable pub middleware :
    Text → Text → Option Info → Option Info → Header → Header → Bool → List TracedCall → Traced
unfolding from_context new_info_from_headers set_response_headers traced_calls
middleware new_trace_id new_span_id span stored headers answer can_flush handler =
    let info =
      info_or (new_info_from_headers new_trace_id new_span_id headers) (from_context span stored) in
    let w = traced_calls handler (new_response_writer can_flush) in
    record {
      headers = set_response_headers info answer;
      calls = w.calls;
      entry = record {
        trace_id = info.trace_id;
        span_id = info.span_id;
        status = w.status_code;
        bytes = w.bytes_written;
      };
      passed_on = info;
    }

-- The calls that the budget's writer sees of the same handler. It has no `ReadFrom` of its own, so
-- that `io.Copy` writes to it what it reads.
abbrev pub seen_call : TracedCall → List WriterCall
seen_call (sets_status status) = write_header status ∷ []
seen_call (writes p n) = write p ∷ []
seen_call flushes = flush ∷ []
seen_call (reads_from pieces n) = write_all pieces

abbrev pub seen_calls : List TracedCall → List WriterCall
seen_calls [] = []
seen_calls (c ∷ cs) = seen_call c ++ seen_calls cs

-- No reader that is read from is empty.
abbrev pub reads_some : TracedCall → Bool
reads_some (reads_from [] n) = false
reads_some _ = true

-- The two writers are at the same point.
record IsAlike (t : ResponseWriter) (c : CaptureWriter) : Type 0 where
  calls_same : t.calls ≡ c.calls
  flushing : t.can_flush ≡ true
  still_flushing : c.can_flush ≡ true
  header_same : t.wrote_header ≡ c.written
  status_same : t.status_code ≡ (if c.written then c.status else status_ok)
  unset : (if c.written then 0 else c.status) ≡ 0

-- More writes to writers that have sent their header.
write_all-IsAlike :
    (ps : List Text) (t : ResponseWriter) (w : CaptureWriter)
    → IsAlike t w
    → t.wrote_header ≡ true
    → IsAlike (record t { calls = t.calls ++ write_all ps }) (capture_calls (write_all ps) w)
unfolding capture_calls capture_call capture
write_all-IsAlike [] t w a sent =
    subst (λ cs. IsAlike (record t { calls = cs }) w) (sym (append-nil t.calls)) a
write_all-IsAlike (p ∷ ps) t w a sent =
    let t₁ = record t { calls = t.calls ++ write p ∷ [] } in
    let w₁ = capture_call (write p) w in
    let b : IsAlike t₁ w₁ = ground (arith, a, sent) in
    subst (λ cs. IsAlike (record t { calls = cs }) (capture_calls (write_all ps) w₁))
      (append_assoc t.calls (write p ∷ []) (write_all ps)) (write_all-IsAlike ps t₁ w₁ b sent)

counted-IsAlike :
    (n : ℤ) (t : ResponseWriter) (w : CaptureWriter)
    → IsAlike t w
    → IsAlike (record t { bytes_written = n }) w
counted-IsAlike n t w a = record {
  calls_same = a.calls_same;
  flushing = a.flushing;
  still_flushing = a.still_flushing;
  header_same = a.header_same;
  status_same = a.status_same;
  unset = a.unset;
}

call-IsAlike :
    (c : TracedCall) (t : ResponseWriter) (w : CaptureWriter)
    → reads_some c ≡ true
    → IsAlike t w
    → IsAlike (traced_call c t) (capture_calls (seen_call c) w)
unfolding traced_call traced_read_from capture_calls capture_call capture
call-IsAlike (sets_status status) t w some_data a = ground (arith, a)
call-IsAlike (writes p n) t w some_data a = ground (arith, a)
call-IsAlike flushes t w some_data a = ground (arith, a)
call-IsAlike (reads_from [] n) t w some_data a = absurd (ground arith)
call-IsAlike (reads_from (p ∷ ps) n) t w some_data a =
    let t₀ = with_header t in
    let t₁ = record t₀ { calls = t₀.calls ++ write p ∷ [] } in
    let w₁ = capture_call (write p) w in
    let sent : t₁.wrote_header ≡ true = ground arith in
    let b : IsAlike t₁ w₁ = ground (arith, a) in
    counted-IsAlike (add_int t₀.bytes_written n) _ _ (
      subst (λ cs. IsAlike (record t₀ { calls = cs }) (capture_calls (write_all ps) w₁))
        (append_assoc t₀.calls (write p ∷ []) (write_all ps)) (write_all-IsAlike ps t₁ w₁ b sent))

capture_calls-append :
    (cs ds : List WriterCall) (w : CaptureWriter)
    → capture_calls (cs ++ ds) w ≡ capture_calls ds (capture_calls cs w)
unfolding capture_calls
capture_calls-append [] ds w = refl
capture_calls-append (c ∷ cs) ds w = capture_calls-append cs ds (capture_call c w)

calls-IsAlike :
    (cs : List TracedCall) (t : ResponseWriter) (w : CaptureWriter)
    → all reads_some cs ≡ true
    → IsAlike t w
    → IsAlike (traced_calls cs t) (capture_calls (seen_calls cs) w)
unfolding traced_calls capture_calls
calls-IsAlike [] t w h a = a
calls-IsAlike (c ∷ cs) t w h a =
    subst (IsAlike (traced_calls (c ∷ cs) t))
      (sym (capture_calls-append (seen_call c) (seen_calls cs) w))
      (calls-IsAlike cs (traced_call c t) (capture_calls (seen_call c) w) (ground arith)
        (call-IsAlike c t w (ground arith) a))

-- The access log and the token budget agree on an answer: over a writer that can flush, and given
-- the same handler, the writer of the log and the writer of the budget pass on the same calls, and
-- report the same status, but for a status 0, which the budget's writer reports as 200. For a handler
-- that copies from no empty reader.
pub traced_calls-capture_calls :
    (cs : List TracedCall) (limit : ℕ)
    → all reads_some cs ≡ true
    → let t = traced_calls cs (new_response_writer true) in
      let w = capture_calls (seen_calls cs) (new_capture_writer true limit) in
      (t.calls ≡ w.calls)
      × (capture_status w ≡ (if eqb t.status_code 0 then status_ok else t.status_code))
unfolding capture_status
traced_calls-capture_calls cs limit some_data =
    let start : IsAlike (new_response_writer true) (new_capture_writer true limit) = record {
      calls_same = refl;
      flushing = refl;
      still_flushing = refl;
      header_same = refl;
      status_same = refl;
      unset = refl;
    } in
    let a =
      calls-IsAlike cs (new_response_writer true) (new_capture_writer true limit) some_data start in
    (a.calls_same, ground (arith, a.status_same, a.unset))
