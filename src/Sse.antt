-- ===== src/Sse.antt =====
-- Server-sent events (internal/llm/sse.go): reading them off a stream of bytes, writing them, and
-- copying a stream. A reader is given by the lines that its bytes have and the error at their end.
pub mod RoundTrip
pub mod Relay
pub mod Split
use agent.Base.{
  ℕ, zero, suc, ◌+◌, ◌≡◌, Bool, true, false, not, ◌&&◌, ◌||◌, Option, none, some, List, [], ◌∷◌,
  ◌++◌, eqb, leb, ltb, if◌then◌else◌, length, take, drop,
}
use agent.Num.{ℤ, pos, negsuc}
use agent.Text.{Text, text_eq, codes, is_empty, trim_right_by, has_prefix, cut, join}
use agent.Map.{◌==◌}

-- How a call on the upstream fails, as `failureReasonFromError` tells errors apart.
pub data Failure : Type 0 where
  canceled deadline_exceeded timed_out network : Failure

-- What a read meets behind the bytes of a stream: its end, a failure, or neither, where the stream
-- goes on with bytes that are not listed, so that no read past the listed ones ever returns.
pub data ReadError : Type 0 where
  eof unended : ReadError
  broken : Failure → ReadError

abbrev pub is_ended : ReadError → Bool
is_ended eof = true
is_ended unended = false
is_ended (broken f) = true

-- What is left of a stream: its complete lines without their line feed, the bytes after the last
-- one, and the error that comes when they are read.
pub record Reader : Type 0 where
  pub lines : List Text
  pub tail : Text
  pub ending : ReadError

abbrev pub line_feed : ℕ
line_feed = 10

abbrev add_byte : ℕ → List Text × Text → List Text × Text
add_byte c ([], tail) = ([], c ∷ tail)
add_byte c (l ∷ ls, tail) = ((c ∷ l) ∷ ls, tail)

abbrev end_line : List Text × Text → List Text × Text
end_line (ls, tail) = ([] ∷ ls, tail)

unfoldable pub lines_of : Text → List Text × Text
lines_of [] = ([], [])
lines_of (c ∷ s) =
    let rest = lines_of s in if eqb c line_feed then end_line rest else add_byte c rest

abbrev pub reader_of : Text → ReadError → Reader
reader_of bytes ending =
    let (ls, tail) = lines_of bytes in record { lines = ls; tail = tail; ending = ending }

abbrev pub is_line_end : ℕ → Bool
is_line_end c = eqb c 13 || eqb c 10

-- A line as the loop of `readSSEEvent` sees it.
pub data Line : Type 0 where
  blank skipped : Line
  field : Text → Text → Line

abbrev drop_space : Text → Text
drop_space value = if has_prefix value (codes " ") then drop 1 value else value

unfoldable pub classify : Text → Line
classify raw =
    let line = trim_right_by is_line_end raw in
    let parts : Line = elim (cut b':' line) [
      | none ↦ skipped
      | some (name, value) ↦ field name (drop_space value)
    ] in
    if is_empty line then blank else if has_prefix line (codes ":") then skipped else parts

-- `sseEvent`, by its data.
abbrev pub Event : Type 0
Event = Text

abbrev pub is_data : Text → Bool
is_data name = name == codes "data"

abbrev pub collect : Text → Text → List Text → List Text
collect name value data_lines = if is_data name then data_lines ++ value ∷ [] else data_lines

abbrev pub event_of : List Text → Event
event_of data_lines = join (line_feed ∷ []) data_lines

abbrev pub at_end : ReadError → Reader
at_end ending = record { lines = []; tail = []; ending = ending }

-- The round of the loop that reads what follows the last line feed. A line that the loop passes
-- over is followed by a read of nothing, which loses the lines collected.
unfoldable pub read_tail : Text → ReadError → List Text → Event × Option ReadError × Reader
unfolding classify
read_tail tail ending data_lines =
    let last : Event × Option ReadError × Reader = elim (classify tail) [
      | blank ↦ (event_of data_lines, none, at_end ending)
      | skipped ↦ ([], some ending, at_end ending)
      | field name value ↦ (event_of (collect name value data_lines), some ending, at_end ending)
    ] in
    if is_empty tail || not (is_ended ending) then ([], some ending, at_end ending) else last

unfoldable pub read_lines :
    List Text → Text → ReadError → List Text → Event × Option ReadError × Reader
unfolding read_tail classify
read_lines [] tail ending data_lines = read_tail tail ending data_lines
read_lines (l ∷ ls) tail ending data_lines = elim (classify l) [
  | blank ↦ (event_of data_lines, none, record { lines = ls; tail = tail; ending = ending })
  | skipped ↦ read_lines ls tail ending data_lines
  | field name value ↦ read_lines ls tail ending (collect name value data_lines)
]

unfoldable pub read_sse_event : Reader → Event × Option ReadError × Reader
unfolding read_lines
read_sse_event r = read_lines r.lines r.tail r.ending []

-- The contents of a chunk's choices, `none` where the JSON does not decode: a parameter.
abbrev pub ChunkJson : Type 0
ChunkJson = Text → Option (List Text)

unfoldable pub any_content : List Text → Bool
any_content [] = false
any_content (c ∷ cs) = let rest = any_content cs in if is_empty c then rest else true

unfoldable pub has_content_token : ChunkJson → Text → Bool
unfolding any_content
has_content_token json text =
    let decoded : Bool = elim (json text) [ none ↦ false | some contents ↦ any_content contents ] in
    if is_empty text || (text == codes "[DONE]") then false else decoded

-- The client's side: the bytes written, and how many more writes succeed (`none`: all do).
pub record Sink : Type 0 where
  pub output : Text
  pub writes_left : Option ℕ

abbrev pub sse_bytes : Text → Text
sse_bytes text = codes "data: " ++ text ++ line_feed ∷ line_feed ∷ []

unfoldable pub write_sse_data : Text → Sink → Sink × Bool
write_sse_data text w = elim w.writes_left [
  | none ↦ (record w { output = w.output ++ sse_bytes text }, true)
  | some zero ↦ (w, false)
  | some (suc n) ↦ (record { output = w.output ++ sse_bytes text; writes_left = some n }, true)
]

unfoldable pub write_buffered_sse : List Event → Sink → Sink × Bool
unfolding write_sse_data
write_buffered_sse [] w = (w, true)
write_buffered_sse (e ∷ events) w =
    let skip = write_buffered_sse events w in
    let (w', ok) = write_sse_data e w in
    let rest = write_buffered_sse events w' in
    if is_empty e then skip else if ok then rest else (w', false)

-- What the copying returns at the end of the stream; it goes on if there is none.
abbrev pub copy_result : ReadError → Option Bool
copy_result eof = some true
copy_result unended = none
copy_result (broken f) = some false

-- The loop variables of `streamCopyFromReader`; `observed` counts the calls of `ObserveFirstToken`.
pub record Copy : Type 0 where
  pub reader : Reader
  pub sink : Sink
  pub first_observed : Bool
  pub observed : ℕ

-- One round: the copy after it, and the result if the round returns one.
unfoldable pub copy_round : ChunkJson → Copy → Copy × Option Bool
unfolding read_sse_event write_sse_data has_content_token
copy_round json c =
    let (event, err, r) = read_sse_event c.reader in
    let (w, ok) = write_sse_data event c.sink in
    let first = not c.first_observed && has_content_token json event in
    let result : Option Bool = elim err [ none ↦ none | some e ↦ copy_result e ] in
    if is_empty event
    then (record c { reader = r }, result)
    else if not ok
    then (record c { reader = r; sink = w }, some false)
    else if first
    then (record { reader = r; sink = w; first_observed = true; observed = c.observed + 1 }, result)
    else (record c { reader = r; sink = w }, result)

-- `streamCopyFromReader` with fuel for its rounds; `none` means that it ran out, as it does for any
-- fuel on a stream that does not end.
unfoldable pub stream_copy : ℕ → ChunkJson → Copy → Option (Copy × Bool)
unfolding copy_round
stream_copy zero json c = none
stream_copy (suc fuel) json c =
    let (c', result) = copy_round json c in
    let rest = stream_copy fuel json c' in elim result [ none ↦ rest | some ok ↦ some (c', ok) ]

abbrev pub chunk_size_or_default : ℤ → ℕ
chunk_size_or_default (pos zero) = 12
chunk_size_or_default (pos (suc n)) = suc n
chunk_size_or_default (negsuc n) = 12

-- The loop of `splitText`, with fuel for its rounds.
unfoldable pub split_runes : ℕ → ℕ → Text → List Text
split_runes zero size runes = []
split_runes (suc fuel) size runes =
    let rest = split_runes fuel size (drop size runes) in
    if is_empty runes then [] else take size runes ∷ rest

unfoldable pub split_text : Text → ℤ → List Text
unfolding split_runes
split_text text chunk_size = split_runes (length text) (chunk_size_or_default chunk_size) text
