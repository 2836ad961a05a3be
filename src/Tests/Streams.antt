-- ===== src/Tests/Streams.antt =====
-- Runs of the reading and the writing of event streams.
use agent.Base.{◌≡◌, refl, false, none, List, [], ◌∷◌, ◌++◌}
use agent.Text.{Text, text_eq, codes, trim_right_by, cut}
use agent.Sse.{eof, reader_of, read_sse_event, sse_bytes, Copy, line_feed, classify}
use agent.Sse.RoundTrip.{IsLine, read_sse_event-write, read_sse_event-write_two_lines}
use agent.Sse.Relay.{written}
use agent.Capture.{WriterCall, write_header, write}

hello-IsLine : IsLine (codes "hello")
unfolding trim_right_by
hello-IsLine = record { unbroken = refl; untrimmed = refl }

read_example :
    read_sse_event (reader_of (sse_bytes (codes "hello") ++ codes "rest") eof)
    ≡ (codes "hello", none, reader_of (codes "rest") eof)
read_example = read_sse_event-write (codes "hello") (codes "rest") eof hello-IsLine

lost_example :
    read_sse_event (reader_of (sse_bytes (codes "hello" ++ line_feed ∷ codes "world") ++ []) eof)
    ≡ (codes "hello", none, reader_of [] eof)
unfolding classify trim_right_by cut
lost_example =
    read_sse_event-write_two_lines (codes "hello") (codes "world") [] eof hello-IsLine refl refl

abbrev events : List Text
events = codes "hello" ∷ codes "hello" ∷ []

abbrev copy : Copy
copy = record {
  reader = reader_of (written events) eof;
  sink = record { output = []; writes_left = none };
  first_observed = false;
  observed = 0;
}

abbrev short : Copy
short = record copy {
  reader = record { lines = codes "data: x" ∷ []; tail = codes "y"; ending = eof };
}

abbrev calls : List WriterCall
calls = write (codes "hello") ∷ write_header 500 ∷ write (codes "world") ∷ []
