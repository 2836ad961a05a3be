-- ===== src/Tracing/Outbound.antt =====
-- The trace in the context, in the headers of an answer and in those of a request that the gateway
-- sends (internal/tracing/context.go and internal/tracing/headers.go). The span context of
-- OpenTelemetry and its propagator are parameters.
use agent.Base.{
  ◌≡◌, false, ◌||◌, Option, none, some, [], ◌∷◌, if◌then◌else◌, arith, ap, ◌∙◌, refl, Bool-cases,
  inl, inr,
}
use agent.Text.{Text, text_eq, codes, is_empty}
use agent.Map.{insert, lookup-insert}
use agent.Proxy.{Header, get}
use agent.Tracing.{Info, trace_parent_value, new_info_from_headers, parse_trace_parent}
use agent.Tracing.RoundTrip.{IsTraceInfo, parse_trace_parent-value, non_empty}

-- `Header.Set` with a canonical key.
abbrev pub set_header : Text → Text → Header → Header
set_header key value h = insert key (value ∷ []) h

abbrev pub trace_parent_key : Text
trace_parent_key = codes "Traceparent"

abbrev pub trace_id_key : Text
trace_id_key = codes "X-Trace-Id"

abbrev pub request_id_key : Text
request_id_key = codes "X-Request-Id"

abbrev pub trace_state_key : Text
trace_state_key = codes "Tracestate"

-- `FromContext`, of the information of a valid span and of the value that `WithInfo` stored.
unfoldable pub from_context : Option Info → Option Info → Option Info
from_context (some span) stored = some span
from_context none none = none
from_context none (some info) =
    if is_empty info.trace_id || is_empty info.span_id then none else some info

unfoldable pub trace_id_from_context : Option Info → Option Info → Text
unfolding from_context
trace_id_from_context span stored = elim (from_context span stored) [
  | none ↦ []
  | some info ↦ info.trace_id
]

unfoldable pub set_response_headers : Info → Header → Header
set_response_headers info h =
    let named = set_header request_id_key info.trace_id (
      set_header trace_id_key info.trace_id
        (set_header trace_parent_key (trace_parent_value info) h)) in
    if is_empty info.trace_state then named else set_header trace_state_key info.trace_state named

-- What `Inject` sets for the information of the context.
unfoldable pub inject_child : Text → Info → Header → Header
inject_child new_span_id info h =
    let child = record info { parent_span_id = info.span_id; span_id = new_span_id } in
    let named = set_header request_id_key info.trace_id (
      set_header trace_id_key info.trace_id
        (set_header trace_parent_key (trace_parent_value child) h)) in
    if is_empty info.trace_state then named else set_header trace_state_key info.trace_state named

abbrev inject_found : Text → Option Info → Header → Header
inject_found new_span_id none h = h
inject_found new_span_id (some info) h = inject_child new_span_id info h

-- `Inject`, of the span's information and of what the context holds; `propagate` is the
-- propagator's `Inject`, and `new_span_id` the identifier that is generated if it is needed.
unfoldable pub inject : (Header → Header) → Text → Option Info → Option Info → Header → Header
unfolding from_context inject_child
inject propagate new_span_id (some span) stored h =
    set_header request_id_key span.trace_id (set_header trace_id_key span.trace_id (propagate h))
inject propagate new_span_id none stored h = inject_found new_span_id (from_context none stored) h

abbrev child_of : Text → Info → Info
child_of new_span_id info = record info { parent_span_id = info.span_id; span_id = new_span_id }

module _ (propagate : Header → Header) (new_span_id : Text) (info : Info) (h : Header)
    (valid : IsTraceInfo (child_of new_span_id info))
    (spanned : is_empty info.span_id ≡ false) where
  inject-child : inject propagate new_span_id none (some info) h ≡ inject_child new_span_id info h
  unfolding inject from_context
  inject-child = ground (arith, spanned, non_empty info.trace_id 31 valid.trace_len)

  child-trace_parent :
      get trace_parent_key (inject_child new_span_id info h)
      ≡ trace_parent_value (child_of new_span_id info)
  unfolding inject_child
  child-trace_parent =
      let v = trace_parent_value (child_of new_span_id info) ∷ [] in
      let id = info.trace_id ∷ [] in
      let h₁ = insert trace_parent_key v h in
      let h₂ = insert trace_id_key id h₁ in
      let h₃ = insert request_id_key id h₂ in
      let set = lookup-insert trace_parent_key trace_parent_key v h in
      let below = lookup-insert trace_parent_key trace_id_key id h₁ in
      let named = lookup-insert trace_parent_key request_id_key id h₂ in
      let stated = lookup-insert trace_parent_key trace_state_key (info.trace_state ∷ []) h₃ in
      elim (Bool-cases (is_empty info.trace_state)) [
        | inl no_state ↦ rw (no_state, named, below, set) refl
        | inr state ↦ rw (state, stated, named, below, set) refl
      ]

  -- A trace goes on from one gateway to the next: what a receiver makes of the headers that were
  -- injected without OpenTelemetry is the same trace, with the flags of the sender, and the span
  -- that the sender has generated as its parent, whatever identifiers the receiver would generate.
  pub inject-continues :
      (other_trace_id next_span_id : Text)
      → let received =
          new_info_from_headers other_trace_id next_span_id
            (inject propagate new_span_id none (some info) h) in
        (received.trace_id ≡ info.trace_id)
        × (received.parent_span_id ≡ new_span_id)
        × (received.span_id ≡ next_span_id)
        × (received.trace_flags ≡ info.trace_flags)
  unfolding new_info_from_headers
  inject-continues other_trace_id next_span_id =
      let read =
        ap (λ r. parse_trace_parent (get trace_parent_key r)) inject-child
        ∙ ap parse_trace_parent child-trace_parent
        ∙ parse_trace_parent-value (child_of new_span_id info) valid in
      rw (read, new_info_from_headers) (refl, refl, refl, refl)
