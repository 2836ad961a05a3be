-- ===== src/Sse/Relay.antt =====
-- The copying of a stream (`streamCopyFromReader` of internal/llm/sse.go): every event that is read
-- without an error uses up part of the reader, so the rounds end if the stream does.
use agent.Base.{
  refl, sym, ap, ◌∙◌, subst, ℕ, zero, suc, ◌+◌, ◌≡◌, ◌≢◌, ◌<◌, true, false, Option, none, some,
  List, [], ◌∷◌, ◌++◌, arith, length, All, append-nil, append_assoc, inl, inr, Option-cases,
}
use agent.Text.{Text, is_empty}
use agent.Sse.{
  ReadError, lines_of, eof, unended, broken, is_ended, copy_result, Line, sse_bytes, reader_of,
  write_sse_data, Reader, blank, skipped, field, Event, classify, read_tail, read_lines,
  read_sse_event, collect, event_of, at_end, ChunkJson, Copy, copy_round, stream_copy,
}
use agent.Sse.RoundTrip.{IsLine, read_sse_event-write}

-- The lines and the bytes that a reader has left.
abbrev pub size : Reader → ℕ
size r = length r.lines + length r.tail

-- Without an error, something has been read.
abbrev pub Shrinks : ℕ → Event × Option ReadError × Reader → Type 0
Shrinks n (event, none, r) = size r < n
Shrinks n (event, some e, r) = Unit

Shrinks-weaken : (n : ℕ) (x : Event × Option ReadError × Reader) → Shrinks n x → Shrinks (suc n) x
Shrinks-weaken n (event, none, r) h = omega (arith, h)
Shrinks-weaken n (event, some e, r) h = tt

-- What the round behind the last line feed makes of the line there.
abbrev last_line : ReadError → List Text → Line → Event × Option ReadError × Reader
last_line ending data_lines blank = (event_of data_lines, none, at_end ending)
last_line ending data_lines skipped = ([], some ending, at_end ending)
last_line ending data_lines (field name value) =
    (event_of (collect name value data_lines), some ending, at_end ending)

last_line-Shrinks :
    (n : ℕ) (ending : ReadError) (data_lines : List Text) (line : Line)
    → Shrinks (suc n) (last_line ending data_lines line)
last_line-Shrinks n ending data_lines blank = omega arith
last_line-Shrinks n ending data_lines skipped = tt
last_line-Shrinks n ending data_lines (field name value) = tt

read_tail-Shrinks :
    (tail : Text) (ending : ReadError) (data_lines : List Text)
    → Shrinks (length tail) (read_tail tail ending data_lines)
unfolding read_tail
read_tail-Shrinks [] ending data_lines = tt
read_tail-Shrinks (c ∷ tail) eof data_lines =
    last_line-Shrinks (length tail) eof data_lines (classify (c ∷ tail))
read_tail-Shrinks (c ∷ tail) unended data_lines = tt
read_tail-Shrinks (c ∷ tail) (broken f) data_lines =
    last_line-Shrinks (length tail) (broken f) data_lines (classify (c ∷ tail))

read_lines-Shrinks :
    (ls : List Text) (tail : Text) (ending : ReadError) (data_lines : List Text)
    → Shrinks (length ls + length tail) (read_lines ls tail ending data_lines)
unfolding read_lines
read_lines-Shrinks [] tail ending data_lines =
    subst (λ n. Shrinks n (read_tail tail ending data_lines)) (omega arith)
      (read_tail-Shrinks tail ending data_lines)
read_lines-Shrinks (l ∷ ls) tail ending data_lines =
    let n = length ls + length tail in
    subst (λ n. Shrinks n (read_lines (l ∷ ls) tail ending data_lines)) (omega arith)
      (elim (classify l)
        as (λ x. Shrinks (suc n) (elim x [
          | blank ↦ (event_of data_lines, none, record { lines = ls; tail = tail; ending = ending })
          | skipped ↦ read_lines ls tail ending data_lines
          | field name value ↦ read_lines ls tail ending (collect name value data_lines)
        ])) [
          | blank ↦ omega arith
          | skipped ↦
              Shrinks-weaken n (read_lines ls tail ending data_lines)
                (read_lines-Shrinks ls tail ending data_lines)
          | field name value ↦
              Shrinks-weaken n (read_lines ls tail ending (collect name value data_lines))
                (read_lines-Shrinks ls tail ending (collect name value data_lines))
        ])

pub read_sse_event-Shrinks : (r : Reader) → Shrinks (size r) (read_sse_event r)
unfolding read_sse_event
read_sse_event-Shrinks r = read_lines-Shrinks r.lines r.tail r.ending []

pub Shrinks-none :
    (n : ℕ) (x : Event × Option ReadError × Reader) → Shrinks n x → x.1 ≡ none → size x.2 < n
Shrinks-none n (event, none, r) h e = h
Shrinks-none n (event, some err, r) h e = ground arith

-- The end of the stream stays what it is, and an error of a read is that end.
abbrev pub Keeps : ReadError → Event × Option ReadError × Reader → Type 0
Keeps ending (event, none, r) = r.ending ≡ ending
Keeps ending (event, some e, r) = (e ≡ ending) × (r.ending ≡ ending)

last_line-Keeps :
    (ending : ReadError) (data_lines : List Text) (line : Line)
    → Keeps ending (last_line ending data_lines line)
last_line-Keeps ending data_lines blank = refl
last_line-Keeps ending data_lines skipped = (refl, refl)
last_line-Keeps ending data_lines (field name value) = (refl, refl)

read_tail-Keeps :
    (tail : Text) (ending : ReadError) (data_lines : List Text)
    → Keeps ending (read_tail tail ending data_lines)
unfolding read_tail
read_tail-Keeps [] ending data_lines = (refl, refl)
read_tail-Keeps (c ∷ tail) eof data_lines = last_line-Keeps eof data_lines (classify (c ∷ tail))
read_tail-Keeps (c ∷ tail) unended data_lines = (refl, refl)
read_tail-Keeps (c ∷ tail) (broken f) data_lines =
    last_line-Keeps (broken f) data_lines (classify (c ∷ tail))

read_lines-Keeps :
    (ls : List Text) (tail : Text) (ending : ReadError) (data_lines : List Text)
    → Keeps ending (read_lines ls tail ending data_lines)
unfolding read_lines
read_lines-Keeps [] tail ending data_lines = read_tail-Keeps tail ending data_lines
read_lines-Keeps (l ∷ ls) tail ending data_lines =
    elim (classify l)
      as (λ x. Keeps ending (elim x [
        | blank ↦ (event_of data_lines, none, record { lines = ls; tail = tail; ending = ending })
        | skipped ↦ read_lines ls tail ending data_lines
        | field name value ↦ read_lines ls tail ending (collect name value data_lines)
      ])) [
        | blank ↦ refl
        | skipped ↦ read_lines-Keeps ls tail ending data_lines
        | field name value ↦ read_lines-Keeps ls tail ending (collect name value data_lines)
      ]

pub read_sse_event-Keeps : (r : Reader) → Keeps r.ending (read_sse_event r)
unfolding read_sse_event
read_sse_event-Keeps r = read_lines-Keeps r.lines r.tail r.ending []

-- A read off a stream that ends: an error is an end, and what is left ends too.
abbrev pub Ends : Event × Option ReadError × Reader → Type 0
Ends (event, none, r) = is_ended r.ending ≡ true
Ends (event, some e, r) = (is_ended e ≡ true) × (is_ended r.ending ≡ true)

pub Keeps-Ends :
    (ending : ReadError) (x : Event × Option ReadError × Reader)
    → is_ended ending ≡ true
    → Keeps ending x
    → Ends x
Keeps-Ends ending (event, none, r) h k = ap is_ended k ∙ h
Keeps-Ends ending (event, some e, r) h (k, k') = (ap is_ended k ∙ h, ap is_ended k' ∙ h)

pub Ends-rest : (x : Event × Option ReadError × Reader) → Ends x → is_ended x.2.ending ≡ true
Ends-rest (event, none, r) h = h
Ends-rest (event, some e, r) h = h.1

pub Ends-error :
    (x : Event × Option ReadError × Reader) {e : ReadError}
    → Ends x
    → x.1 ≡ some e
    → is_ended e ≡ true
Ends-error (event, none, r) h eq = absurd (ground arith)
Ends-error (event, some e', r) h eq = ground (arith, h, eq)

copy_result-ended : (e : ReadError) → is_ended e ≡ true → copy_result e ≢ none
copy_result-ended eof h eq = ground arith
copy_result-ended unended h eq = ground arith
copy_result-ended (broken f) h eq = ground arith

-- A round that does not end the copying of a stream with an end has read an event without an error.
copy_round-none :
    (json : ChunkJson) (c : Copy)
    → is_ended c.reader.ending ≡ true
    → (copy_round json c).1 ≡ none
    → ((read_sse_event c.reader).1 ≡ none)
      × ((copy_round json c).0.reader ≡ (read_sse_event c.reader).2)
unfolding copy_round
copy_round-none json c ended h =
    let ends =
      Keeps-Ends c.reader.ending (read_sse_event c.reader) ended (read_sse_event-Keeps c.reader) in
    elim (Option-cases (read_sse_event c.reader).1) [
      | inl eq ↦ ground (arith, eq)
      | inr (e, eq) ↦ absurd (
          copy_result-ended e (Ends-error (read_sse_event c.reader) ends eq)
            (ground (arith, eq, h)))
    ]

copy_round-size :
    (json : ChunkJson) (c : Copy)
    → is_ended c.reader.ending ≡ true
    → (copy_round json c).1 ≡ none
    → size (copy_round json c).0.reader < size c.reader
copy_round-size json c ended h =
    let read = copy_round-none json c ended h in
    subst (λ r. size r < size c.reader) (sym read.1)
      (Shrinks-none (size c.reader) (read_sse_event c.reader) (read_sse_event-Shrinks c.reader)
        read.0)

-- The copying of a stream with an end ends: with more rounds than the reader has lines and bytes after
-- them, the fuel does not run out.
pub stream_copy-total :
    (fuel : ℕ) (json : ChunkJson) (c : Copy)
    → is_ended c.reader.ending ≡ true
    → size c.reader < fuel
    → stream_copy fuel json c ≢ none
unfolding stream_copy
stream_copy-total zero json c ended h e = ground arith
stream_copy-total (suc fuel) json c ended h e = elim (Option-cases (copy_round json c).1) [
  | inl eq ↦
      let read = copy_round-none json c ended eq in
      stream_copy-total fuel json (copy_round json c).0
        (subst (λ r. is_ended r.ending ≡ true) (sym read.1)
          (Ends-rest (read_sse_event c.reader) (
            Keeps-Ends c.reader.ending (read_sse_event c.reader) ended
              (read_sse_event-Keeps c.reader))))
        (omega (arith, copy_round-size json c ended eq)) (ground (arith, eq))
  | inr (ok, eq) ↦ ground (arith, eq)
]

-- The bytes of a list of events, written one after the other.
unfoldable pub written : List Text → Text
written [] = []
written (d ∷ ds) = sse_bytes d ++ written ds

copy_round-event :
    (json : ChunkJson) (c : Copy) (d : Text) (r : Reader)
    → read_sse_event c.reader ≡ (d, none, r)
    → is_empty d ≡ false
    → c.sink.writes_left ≡ none
    → ((copy_round json c).1 ≡ none)
      × ((copy_round json c).0.reader ≡ r)
      × ((copy_round json c).0.sink
          ≡ record { output = c.sink.output ++ sse_bytes d; writes_left = none })
unfolding copy_round write_sse_data
copy_round-event json c d r read some_data accepts = ground arith

copy_round-end :
    (json : ChunkJson) (c : Copy)
    → read_sse_event c.reader ≡ ([], some eof, reader_of [] eof)
    → ((copy_round json c).1 ≡ some true) × ((copy_round json c).0.sink ≡ c.sink)
unfolding copy_round
copy_round-end json c read = ground arith

-- A round on an event that was written sends it on.
copy_round-written :
    (json : ChunkJson) (d : Text) (ds : List Text) (c : Copy)
    → IsLine d
    → is_empty d ≡ false
    → c.reader ≡ reader_of (written (d ∷ ds)) eof
    → c.sink.writes_left ≡ none
    → ((copy_round json c).1 ≡ none)
      × ((copy_round json c).0.reader ≡ reader_of (written ds) eof)
      × ((copy_round json c).0.sink
          ≡ record { output = c.sink.output ++ sse_bytes d; writes_left = none })
unfolding written
copy_round-written json d ds c line some_data from accepts =
    let read : read_sse_event c.reader ≡ (d, none, reader_of (written ds) eof) =
      ap read_sse_event from ∙ read_sse_event-write d (written ds) eof line in
    copy_round-event json c d (reader_of (written ds) eof) read some_data accepts

-- A stream of events with data of one line each is copied to the client unchanged, to its end, where
-- the client takes every write.
pub stream_copy-written :
    (json : ChunkJson) (ds : List Text) (fuel : ℕ) (c : Copy)
    → All IsLine ds
    → All (λ d. is_empty d ≡ false) ds
    → length ds < fuel
    → c.reader ≡ reader_of (written ds) eof
    → c.sink.writes_left ≡ none
    → (c' : Copy) × (stream_copy fuel json c ≡ some (c', true))
      × (c'.sink.output ≡ c.sink.output ++ written ds)
unfolding stream_copy written lines_of
stream_copy-written json ds zero c lines full le from accepts = ground arith
stream_copy-written json [] (suc fuel) c lines full le from accepts =
    let last = copy_round-end json c (ap read_sse_event from) in
    ((copy_round json c).0, ground (arith, last), ground (arith, last, append-nil c.sink.output))
stream_copy-written json (d ∷ ds) (suc fuel) c lines full le from accepts =
    let step = copy_round-written json d ds c lines.0 full.0 from accepts in
    let (c', copied, output) =
      stream_copy-written json ds fuel (copy_round json c).0 lines.1 full.1 (ground arith) step.1
        (ap (λ w. w.writes_left) step.2) in
    (
      c',
      ground (arith, step, copied),
      output
          ∙ ap (λ w. w.output ++ written ds) step.2
          ∙ append_assoc c.sink.output (sse_bytes d) (written ds),
    )
