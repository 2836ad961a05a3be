-- ===== src/Usage.antt =====
-- Token counts of a request and a response (internal/tokenusage/usage.go and
-- internal/tokenusage/response_usage.go). Decoding JSON is the library's: what it yields is a
-- parameter, `none` where it reports an error.
pub mod Same
pub mod Estimate
pub mod Response
use agent.Base.{
  ℕ, ◌+◌, ◌/◌, ◌≡◌, Bool, true, false, ◌||◌, Option, none, some, List, [], ◌∷◌, ◌++◌, map, ltb,
  if◌then◌else◌, length, eqb,
}
use agent.Num.{ℤ, pos, leb_ℤ, ltb_ℤ, add_int}
use agent.Text.{
  Text, text_eq, codes, trim_space, is_empty, is_space, join, has_prefix, trim_prefix, contains,
  to_lower, trim_right_by,
}
use agent.Map.{◌==◌}

-- `chatMessage`: the content is raw JSON.
pub record ChatMessage : Type 0 where
  pub role : Text
  pub content : Text

pub record ContentPart : Type 0 where
  pub type : Text
  pub text : Text

-- `json.Unmarshal` of a message's content into a string, and into a list of parts.
pub record ContentJson : Type 0 where
  pub as_text : Text → Option Text
  pub as_parts : Text → Option (List ContentPart)

pub record RequestPayload : Type 0 where
  pub model : Text
  pub messages : List ChatMessage
  pub max_tokens : Option ℤ
  pub max_completion_tokens : Option ℤ

pub record Usage : Type 0 where
  pub model : Text
  pub prompt_tokens : ℤ
  pub completion_tokens : ℤ
  pub total_tokens : ℤ
  pub estimated : Bool

pub record RequestEstimate : Type 0 where
  pub usage : Usage
  pub completion_budget : ℤ
  pub reservable : Bool

unfoldable pub estimate_tokens : Text → ℕ
estimate_tokens text = let t = trim_space text in if is_empty t then 0 else length t / 4 + 1

abbrev pub is_text_part : Text → Bool
is_text_part type = is_empty type || (type == codes "text")

unfoldable pub part_texts : List ContentPart → List Text
part_texts [] = []
part_texts (p ∷ ps) =
    let rest = part_texts ps in if is_text_part p.type then p.text ∷ rest else rest

unfoldable pub message_content_text : ContentJson → ChatMessage → Text
unfolding part_texts
message_content_text json m =
    let parts : Text = elim (json.as_parts m.content) [
      | some ps ↦ join [] (part_texts ps)
      | none ↦ m.content
    ] in
    if is_empty m.content
    then []
    else elim (json.as_text m.content) [ some text ↦ text | none ↦ parts ]

unfoldable pub estimate_prompt_tokens : ContentJson → List ChatMessage → ℕ
unfolding estimate_tokens message_content_text
estimate_prompt_tokens json [] = 0
estimate_prompt_tokens json (m ∷ ms) =
    estimate_tokens m.role
    + estimate_tokens (message_content_text json m)
    + estimate_prompt_tokens json ms

abbrev pub is_positive : ℤ → Bool
is_positive n = ltb_ℤ (pos 0) n

abbrev pub positive_or : Option ℤ → ℤ → ℤ
positive_or none default = default
positive_or (some n) default = if is_positive n then n else default

unfoldable pub completion_budget_from_request : RequestPayload → ℤ → ℤ
completion_budget_from_request payload default =
    positive_or payload.max_completion_tokens
      (positive_or payload.max_tokens (if is_positive default then default else pos 0))

abbrev pub is_nil {ℓ} : {A : Type ℓ} → List A → Bool
is_nil [] = true
is_nil (_ ∷ _) = false

-- `payload` is what the body decodes to.
unfoldable pub estimate_request : ContentJson → Option RequestPayload → ℤ → Option RequestEstimate
estimate_request json none default = none
estimate_request json (some payload) default =
    let model = trim_space payload.model in
    let prompt = pos (estimate_prompt_tokens json payload.messages) in
    let budget = completion_budget_from_request payload default in
    let total = add_int prompt budget in
    if is_empty model || is_nil payload.messages
    then some (record {
      usage = record {
        model = model;
        prompt_tokens = pos 0;
        completion_tokens = pos 0;
        total_tokens = pos 0;
        estimated = true;
      };
      completion_budget = pos 0;
      reservable = false;
    })
    else some (record {
      usage = record {
        model = model;
        prompt_tokens = prompt;
        completion_tokens = budget;
        total_tokens = if leb_ℤ total (pos 0) then pos 1 else total;
        estimated = true;
      };
      completion_budget = budget;
      reservable = true;
    })

pub record ResponseUsage : Type 0 where
  pub prompt_tokens : ℤ
  pub completion_tokens : ℤ
  pub total_tokens : ℤ

-- A decoded response body, or a decoded chunk of a stream: `contents` are the texts of its choices.
pub record ResponsePayload : Type 0 where
  pub model : Text
  pub contents : List Text
  pub usage : Option ResponseUsage

unfoldable pub first_non_empty : List Text → Text
first_non_empty [] = []
first_non_empty (value ∷ values) =
    let t = trim_space value in let rest = first_non_empty values in if is_empty t then rest else t

abbrev pub clamp_zero : ℤ → ℤ
clamp_zero n = if ltb_ℤ n (pos 0) then pos 0 else n

unfoldable pub normalize_usage : Usage → RequestEstimate → Usage
unfolding first_non_empty
normalize_usage u estimate =
    let prompt = clamp_zero u.prompt_tokens in
    let completion = clamp_zero u.completion_tokens in
    let total =
      if leb_ℤ u.total_tokens (pos 0) then add_int prompt completion else u.total_tokens in
    let known = if leb_ℤ total (pos 0) then false else true in
    record {
      model = first_non_empty (u.model ∷ estimate.usage.model ∷ []);
      prompt_tokens = prompt;
      completion_tokens = completion;
      total_tokens = if known then total else estimate.usage.total_tokens;
      estimated = if known then u.estimated else true;
    }

-- The loops over the choices.
unfoldable pub count_contents : List Text → ℤ → ℤ
unfolding estimate_tokens
count_contents [] total = total
count_contents (c ∷ cs) total = count_contents cs (add_int total (pos (estimate_tokens c)))

-- The two forms of the usage that both kinds of response end with.
unfoldable pub reported_usage : Text → ResponseUsage → RequestEstimate → Usage
unfolding normalize_usage
reported_usage model u estimate =
    normalize_usage
      (record {
        model = model;
        prompt_tokens = u.prompt_tokens;
        completion_tokens = u.completion_tokens;
        total_tokens = u.total_tokens;
        estimated = false;
      })
      estimate

unfoldable pub counted_usage : Text → ℤ → RequestEstimate → Usage
unfolding normalize_usage
counted_usage model completion estimate =
    normalize_usage
      (record {
        model = model;
        prompt_tokens = estimate.usage.prompt_tokens;
        completion_tokens = completion;
        total_tokens = add_int estimate.usage.prompt_tokens completion;
        estimated = true;
      })
      estimate

unfoldable pub usage_from_json_response : Option ResponsePayload → RequestEstimate → Usage
unfolding reported_usage counted_usage count_contents first_non_empty
usage_from_json_response none estimate = estimate.usage
usage_from_json_response (some p) estimate =
    let model = first_non_empty (p.model ∷ estimate.usage.model ∷ []) in
    elim p.usage [
      | some u ↦ reported_usage model u estimate
      | none ↦ counted_usage model (count_contents p.contents (pos 0)) estimate
    ]

abbrev line_feed : ℕ
line_feed = 10

abbrev add_to_first : ℕ → List Text → List Text
add_to_first c [] = (c ∷ []) ∷ []
add_to_first c (l ∷ ls) = (c ∷ l) ∷ ls

-- The lines that a `bufio.Scanner` yields: an empty last line is none. The carriage return that it
-- drops at a line's end is left here for `TrimSpace`, which the caller applies to every line.
unfoldable pub scan_lines : Text → List Text
scan_lines [] = []
scan_lines (c ∷ s) =
    let rest = scan_lines s in if eqb c line_feed then [] ∷ rest else add_to_first c rest

-- The loop variables of `usageFromStreamResponse`.
pub record Tally : Type 0 where
  pub model : Text
  pub completion_tokens : ℤ
  pub actual_usage : Option ResponseUsage

-- The payload of a `data:` line, if it is one that is decoded.
unfoldable pub line_data : Text → Option Text
line_data raw =
    let line = trim_space raw in
    let value = trim_space (trim_prefix line (codes "data:")) in
    if has_prefix line (codes "data:")
    then (if is_empty value || (value == codes "[DONE]") then none else some value)
    else none

unfoldable pub tally_chunk : Tally → ResponsePayload → Tally
unfolding count_contents first_non_empty
tally_chunk t chunk =
    let model = first_non_empty (chunk.model ∷ t.model ∷ []) in
    elim chunk.usage [
      | some u ↦ record t { model = model; actual_usage = some u }
      | none ↦ record t {
        model = model;
        completion_tokens = count_contents chunk.contents t.completion_tokens;
      }
    ]

abbrev pub decode_line : (Text → Option ResponsePayload) → Option Text → Option ResponsePayload
decode_line decode none = none
decode_line decode (some value) = decode value

abbrev pub tally_or : Tally → Option ResponsePayload → Tally
tally_or t none = t
tally_or t (some chunk) = tally_chunk t chunk

unfoldable pub tally_lines : (Text → Option ResponsePayload) → List Text → Tally → Tally
unfolding line_data tally_chunk
tally_lines decode [] t = t
tally_lines decode (line ∷ lines) t =
    tally_lines decode lines (tally_or t (decode_line decode (line_data line)))

-- The loop over the lines, from its first values.
unfoldable pub tally_stream : (Text → Option ResponsePayload) → Text → RequestEstimate → Tally
unfolding scan_lines tally_lines
tally_stream decode body estimate =
    tally_lines decode (scan_lines body)
      (record { model = estimate.usage.model; completion_tokens = pos 0; actual_usage = none })

unfoldable pub usage_from_stream_response :
    (Text → Option ResponsePayload) → Text → RequestEstimate → Usage
unfolding reported_usage counted_usage
usage_from_stream_response decode body estimate =
    let t = tally_stream decode body estimate in
    elim t.actual_usage [
      | some u ↦ reported_usage t.model u estimate
      | none ↦ counted_usage t.model t.completion_tokens estimate
    ]

-- The JSON of a whole response and of a chunk, into the fields read here.
pub record ResponseJson : Type 0 where
  pub as_payload : Text → Option ResponsePayload
  pub as_chunk : Text → Option ResponsePayload

unfoldable pub usage_from_response_body :
    ResponseJson → Text → Text → Bool → RequestEstimate → Usage
unfolding usage_from_stream_response usage_from_json_response
usage_from_response_body json body content_type truncated estimate =
    if truncated
    then estimate.usage
    else if contains (to_lower content_type) (codes "text/event-stream")
    then usage_from_stream_response json.as_chunk body estimate
    else usage_from_json_response (json.as_payload body) estimate
