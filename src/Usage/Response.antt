-- ===== src/Usage/Response.antt =====
-- The usage read from a response (internal/tokenusage/response_usage.go).
use agent.Base.{
  ◌≡◌, refl, ◌∙◌, Bool, false, Option, none, some, List, [], ◌∷◌, arith, if-intro, Option-cases,
  inl, inr,
}
use agent.Num.{ℤ, pos, ◌≤ℤ◌}
use agent.Text.{Text, contains, to_lower, codes}
use agent.Usage.{
  Usage, RequestEstimate, ResponseUsage, ResponsePayload, ResponseJson, Tally,
  usage_from_json_response, usage_from_stream_response, usage_from_response_body, reported_usage,
  counted_usage, scan_lines, tally_lines, tally_stream, tally_chunk, line_data, decode_line,
  clamp_zero,
}

pub record IsCharged (u : Usage) : Type 0 where
  pub prompt_nonneg : pos 0 ≤ℤ u.prompt_tokens
  pub completion_nonneg : pos 0 ≤ℤ u.completion_tokens
  pub total_pos : pos 1 ≤ℤ u.total_tokens

module _ (e : RequestEstimate) (h : IsCharged e.usage) where
  reported-IsCharged : (m : Text) (u : ResponseUsage) → IsCharged (reported_usage m u e)
  unfolding reported_usage
  reported-IsCharged m u = ground arith

  counted-IsCharged : (m : Text) (n : ℤ) → IsCharged (counted_usage m n e)
  unfolding counted_usage
  counted-IsCharged m n = ground arith

  json-IsCharged : (p : Option ResponsePayload) → IsCharged (usage_from_json_response p e)
  unfolding usage_from_json_response
  json-IsCharged none = h
  json-IsCharged (some p) = elim (Option-cases p.usage) [
    | inl n ↦ rw (n) (counted-IsCharged _ _)
    | inr (u, n) ↦ rw (n) (reported-IsCharged _ u)
  ]

  stream-IsCharged :
      (decode : Text → Option ResponsePayload) (body : Text)
      → IsCharged (usage_from_stream_response decode body e)
  unfolding usage_from_stream_response
  stream-IsCharged decode body =
      let t = tally_stream decode body e in
      elim (Option-cases t.actual_usage) [
        | inl n ↦ rw (n, usage_from_stream_response) (counted-IsCharged _ _)
        | inr (u, n) ↦ rw (n, usage_from_stream_response) (reported-IsCharged _ u)
      ]

  -- Whatever a response reports, and however its body reads, what is charged for it has no negative
  -- count and at least one token in total, if that holds of the estimate.
  pub usage_from_response_body-IsCharged :
      (json : ResponseJson) (body content_type : Text) (truncated : Bool)
      → IsCharged (usage_from_response_body json body content_type truncated e)
  unfolding usage_from_response_body
  usage_from_response_body-IsCharged json body content_type truncated =
      if-intro IsCharged truncated (λ _. h)
        (λ _.
          if-intro IsCharged (contains (to_lower content_type) (codes "text/event-stream"))
            (λ _. stream-IsCharged json.as_chunk body) (λ _. json-IsCharged (json.as_payload body)))

-- The chunks of a stream that decode, in order, and the usage that the last one with a usage has.
unfoldable pub chunks_of : (Text → Option ResponsePayload) → List Text → List ResponsePayload
chunks_of decode [] = []
chunks_of decode (line ∷ lines) =
    let rest = chunks_of decode lines in
    elim (decode_line decode (line_data line)) [ none ↦ rest | some c ↦ c ∷ rest ]

unfoldable pub last_usage : List ResponsePayload → Option ResponseUsage
last_usage [] = none
last_usage (c ∷ cs) = elim (last_usage cs) [ none ↦ c.usage | some u ↦ some u ]

abbrev or_else : Option ResponseUsage → Option ResponseUsage → Option ResponseUsage
or_else none o = o
or_else (some u) o = some u

tally_lines-last_usage :
    (decode : Text → Option ResponsePayload) (lines : List Text) (t : Tally)
    → (tally_lines decode lines t).actual_usage
      ≡ or_else (last_usage (chunks_of decode lines)) t.actual_usage
unfolding tally_lines chunks_of last_usage
tally_lines-last_usage decode [] t = refl
tally_lines-last_usage decode (line ∷ lines) t =
    elim (Option-cases (decode_line decode (line_data line))) [
      | inl e ↦ ground (arith, tally_lines-last_usage decode lines t)
      | inr (c, e) ↦ ground (arith, tally_lines-last_usage decode lines (tally_chunk t c))
    ]

-- A stream is charged what the last of its chunks with a usage reports: where that has a positive
-- total, the total is charged as it is, as an actual and not an estimated one, and its counts with
-- the negative ones taken for none; the chunks before it and their texts do not matter.
pub usage_from_stream-last_usage :
    (decode : Text → Option ResponsePayload) (body : Text) (e : RequestEstimate) {u : ResponseUsage}
    → last_usage (chunks_of decode (scan_lines body)) ≡ some u
    → pos 1 ≤ℤ u.total_tokens
    → ((usage_from_stream_response decode body e).total_tokens ≡ u.total_tokens)
      × ((usage_from_stream_response decode body e).estimated ≡ false)
      × ((usage_from_stream_response decode body e).prompt_tokens ≡ clamp_zero u.prompt_tokens)
      × ((usage_from_stream_response decode body e).completion_tokens
          ≡ clamp_zero u.completion_tokens)
unfolding usage_from_stream_response tally_stream
usage_from_stream-last_usage decode body e {u} last h =
    let start : Tally = record {
      model = e.usage.model;
      completion_tokens = pos 0;
      actual_usage = none;
    } in
    let found : (tally_stream decode body e).actual_usage ≡ some u =
      tally_lines-last_usage decode (scan_lines body) start ∙ (rw last) in
    ground (arith, found)
