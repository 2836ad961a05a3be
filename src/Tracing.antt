-- ===== src/Tracing.antt =====
-- Trace identifiers and the headers that carry them (internal/tracing/ids.go and
-- internal/tracing/headers.go).
pub mod RoundTrip
pub mod Outbound
pub mod Writer
use agent.Base.{
  ℕ, zero, suc, ◌≡◌, Bool, true, false, not, ◌&&◌, ◌||◌, Option, none, some, List, [], ◌∷◌, ◌++◌,
  eqb, ltb, if◌then◌else◌, all, length,
}
use agent.Text.{Text, text_eq, codes, is_empty, trim_space, to_lower, split, byte_len}
use agent.Map.{◌==◌}
use agent.Hex.{is_lower_hex, encode_hex}
use agent.Proxy.{Header, get}

pub record Info : Type 0 where
  pub trace_id : Text
  pub span_id : Text
  pub parent_span_id : Text
  pub trace_flags : Text
  pub trace_state : Text

abbrev pub default_trace_flags : Text
default_trace_flags = codes "01"

abbrev pub all_zero : ℕ → List ℕ → Bool
all_zero z = all (λ c. eqb c z)

-- `newNonZeroHex` on the readings of `rand.Read`, `none` where it fails; `fallback` is the text of
-- `fallbackRandomHex`. The result is `none` where all the readings are zero.
unfoldable pub new_non_zero_hex : Text → List (Option (List ℕ)) → Option Text
new_non_zero_hex fallback [] = none
new_non_zero_hex fallback (none ∷ readings) = some fallback
new_non_zero_hex fallback (some buf ∷ readings) =
    let again = new_non_zero_hex fallback readings in
    if all_zero 0 buf then again else some (encode_hex buf)

abbrev pub is_hex : Text → Bool
is_hex value = all is_lower_hex value

unfoldable pub normalize_id : ℕ → Text → Text
normalize_id size value₀ =
    let value = to_lower (trim_space value₀) in
    if not (eqb (byte_len value) size) || not (is_hex value) || all_zero b'0' value
    then []
    else value

abbrev pub normalize_trace_id : Text → Text
normalize_trace_id value = normalize_id 32 value

abbrev pub normalize_span_id : Text → Text
normalize_span_id value = normalize_id 16 value

unfoldable pub is_valid_trace_flags : Text → Bool
is_valid_trace_flags value = eqb (byte_len value) 2 && is_hex value

unfoldable pub trace_parent_value : Info → Text
unfolding is_valid_trace_flags
trace_parent_value info =
    let given = to_lower (trim_space info.trace_flags) in
    let flags = if is_valid_trace_flags given then given else default_trace_flags in
    codes "00-" ++ (info.trace_id ++ b'-' ∷ (info.span_id ++ b'-' ∷ flags))

abbrev parsed : Text → Text → Text → Option Info
parsed trace_id parent_span_id flags = some (record {
  trace_id = trace_id;
  span_id = [];
  parent_span_id = parent_span_id;
  trace_flags = flags;
  trace_state = [];
})

-- The four parts of a value.
unfoldable pub parse_parts : List Text → Option Info
unfolding normalize_id is_valid_trace_flags
parse_parts (version₀ ∷ trace ∷ parent ∷ flags₀ ∷ []) =
    let version = to_lower version₀ in
    let trace_id = normalize_trace_id trace in
    let parent_span_id = normalize_span_id parent in
    let flags = to_lower flags₀ in
    if (version == codes "ff") || not (eqb (byte_len version) 2) || not (is_hex version)
    then none
    else if is_empty trace_id || is_empty parent_span_id || not (is_valid_trace_flags flags)
    then none
    else parsed trace_id parent_span_id flags
parse_parts _ = none

unfoldable pub parse_trace_parent : Text → Option Info
unfolding parse_parts
parse_trace_parent value = parse_parts (split b'-' (trim_space value))

unfoldable pub trace_state_from_headers : Header → Text
trace_state_from_headers headers =
    let value = trim_space (get (codes "Tracestate") headers) in
    if ltb 512 (byte_len value) then [] else value

abbrev own_info : Text → Text → Text → Info
own_info trace_id span_id trace_state = record {
  trace_id = trace_id;
  span_id = span_id;
  parent_span_id = [];
  trace_flags = default_trace_flags;
  trace_state = trace_state;
}

-- `NewInfoFromHeaders`, with the identifiers that are generated if they are needed.
unfoldable pub new_info_from_headers : Text → Text → Header → Info
unfolding parse_trace_parent trace_state_from_headers normalize_id
new_info_from_headers new_trace_id new_span_id headers =
    let state = trace_state_from_headers headers in
    let trace = normalize_trace_id (get (codes "X-Trace-Id") headers) in
    let request = normalize_trace_id (get (codes "X-Request-Id") headers) in
    let own : Info =
      if not (is_empty trace)
      then own_info trace new_span_id state
      else if not (is_empty request)
      then own_info request new_span_id state
      else own_info new_trace_id new_span_id state in
    elim (parse_trace_parent (get (codes "Traceparent") headers)) [
      | some info ↦ record info { span_id = new_span_id; trace_state = state }
      | none ↦ own
    ]
