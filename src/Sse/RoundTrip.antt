-- ===== src/Sse/RoundTrip.antt =====
-- What is read back of an event that was written (`writeSSEData` and `readSSEEvent` of
-- internal/llm/sse.go).
use agent.Base.{
  ℕ, ◌≡◌, refl, ap, ◌∙◌, Bool, true, false, not, none, List, [], ◌∷◌, ◌++◌, eqb, arith, all,
  append_assoc,
}
use agent.Text.{Text, text_eq, codes, trim_right_by, cut, join}
use agent.Sse.{
  ReadError, line_feed, lines_of, reader_of, is_line_end, blank, skipped, field, classify,
  read_lines, read_sse_event, sse_bytes,
}

abbrev pub one_line : Text → Bool
one_line = all (λ c. not (eqb c line_feed))

-- A text that a reader gives back as it is: without a line feed, and with no carriage return at its
-- end, which the reader would trim.
pub record IsLine (s : Text) : Type 0 where
  pub unbroken : one_line s ≡ true
  pub untrimmed : trim_right_by is_line_end s ≡ s

pub lines_of-line :
    (l s : Text)
    → one_line l ≡ true
    → lines_of (l ++ line_feed ∷ s) ≡ (l ∷ (lines_of s).0, (lines_of s).1)
unfolding lines_of
lines_of-line [] s h = refl
lines_of-line (c ∷ l) s h = ground (arith, lines_of-line l s)

pub trim_right_by-cons :
    (p : ℕ → Bool) (c : ℕ) (s : Text)
    → p c ≡ false
    → trim_right_by p (c ∷ s) ≡ c ∷ trim_right_by p s
unfolding trim_right_by
trim_right_by-cons p c s h = ground arith

trim_data :
    (d : Text)
    → trim_right_by is_line_end (codes "data: " ++ d)
      ≡ codes "data: " ++ trim_right_by is_line_end d
unfolding trim_right_by
trim_data d = ground arith

-- A `data: ` line is the field of its data.
pub classify-data :
    (d : Text)
    → trim_right_by is_line_end d ≡ d
    → classify (codes "data: " ++ d) ≡ field (codes "data") d
unfolding classify cut
classify-data d h = rw (trim_data d, h) refl

classify-blank : classify [] ≡ blank
unfolding classify trim_right_by
classify-blank = refl

-- The lines of an event that was written, before what follows it.
written_lines :
    (d rest : Text)
    → one_line d ≡ true
    → lines_of (sse_bytes d ++ rest)
      ≡ ((codes "data: " ++ d) ∷ [] ∷ (lines_of rest).0, (lines_of rest).1)
unfolding lines_of
written_lines d rest h =
    let whole : one_line (codes "data: " ++ d) ≡ true = h in
    rw (append_assoc d (line_feed ∷ line_feed ∷ []) rest)
      (lines_of-line (codes "data: " ++ d) (line_feed ∷ rest) whole)

-- A `data` line and a blank one are an event.
read_lines-event :
    (line d : Text) (ls : List Text) (tail : Text) (ending : ReadError)
    → classify line ≡ field (codes "data") d
    → read_lines (line ∷ [] ∷ ls) tail ending []
      ≡ (d, none, record { lines = ls; tail = tail; ending = ending })
unfolding read_lines join
read_lines-event line d ls tail ending h = ground (arith, h, classify-blank)

read_lines-skip :
    (line other d : Text) (ls : List Text) (tail : Text) (ending : ReadError)
    → classify line ≡ field (codes "data") d
    → classify other ≡ skipped
    → read_lines (line ∷ other ∷ [] ∷ ls) tail ending []
      ≡ (d, none, record { lines = ls; tail = tail; ending = ending })
unfolding read_lines join
read_lines-skip line other d ls tail ending h skip = ground (arith, h, skip, classify-blank)

written_two_lines :
    (a b rest : Text)
    → one_line a ≡ true
    → one_line b ≡ true
    → lines_of (sse_bytes (a ++ line_feed ∷ b) ++ rest)
      ≡ ((codes "data: " ++ a) ∷ b ∷ [] ∷ (lines_of rest).0, (lines_of rest).1)
unfolding lines_of
written_two_lines a b rest ha hb =
    let whole : one_line (codes "data: " ++ a) ≡ true = ha in
    rw
      (
        append_assoc a (line_feed ∷ b) (line_feed ∷ line_feed ∷ []),
        append_assoc a (line_feed ∷ b ++ line_feed ∷ line_feed ∷ []) rest,
        append_assoc b (line_feed ∷ line_feed ∷ []) rest,
      )
      (lines_of-line (codes "data: " ++ a) (b ++ line_feed ∷ line_feed ∷ rest) whole
        ∙ ap (λ p. ((codes "data: " ++ a) ∷ p.0, p.1)) (lines_of-line b (line_feed ∷ rest) hb))

-- Reading an event that was written gives its data back, without an error, and leaves the reader at
-- what follows it: for data of one line that does not end in a carriage return.
pub read_sse_event-write :
    (d rest : Text) (ending : ReadError)
    → IsLine d
    → read_sse_event (reader_of (sse_bytes d ++ rest) ending) ≡ (d, none, reader_of rest ending)
unfolding read_sse_event
read_sse_event-write d rest ending h = rw (written_lines d rest h.unbroken) (
    read_lines-event (codes "data: " ++ d) d (lines_of rest).0 (lines_of rest).1 ending
      (classify-data d h.untrimmed))

-- Of an event of two data lines that is written as it is, only the first line is read back, where
-- the second line is no field: a line without a colon, or a comment.
pub read_sse_event-write_two_lines :
    (a b rest : Text) (ending : ReadError)
    → IsLine a
    → one_line b ≡ true
    → classify b ≡ skipped
    → read_sse_event (reader_of (sse_bytes (a ++ line_feed ∷ b) ++ rest) ending)
      ≡ (a, none, reader_of rest ending)
unfolding read_sse_event
read_sse_event-write_two_lines a b rest ending ha hb skip =
    rw (written_two_lines a b rest ha.unbroken hb) (
      read_lines-skip (codes "data: " ++ a) b a (lines_of rest).0 (lines_of rest).1 ending
        (classify-data a ha.untrimmed) skip)
