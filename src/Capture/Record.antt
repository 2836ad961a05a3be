-- ===== src/Capture/Record.antt =====
-- What the captured record says of the response (internal/tokenusage/capture_writer.go).
use agent.Base.{
  ℕ, ◌-◌, ◌≡◌, ◌≢◌, ◌≤◌, ◌<◌, refl, sym, ap, ◌∙◌, Bool, true, false, ◌||◌, List, [], ◌∷◌, ◌++◌,
  arith, ltb, leb, if◌then◌else◌, length, take, drop, append_assoc, append-nil, length-append,
  length-take, take-append-drop, Bool-cases, inl, inr, ◌⊎◌, if-intro, leb→le, ltb→lt,
}
use agent.Text.{Text}
use agent.Capture.{
  CaptureWriter, WriterCall, write_header, write, flush, status_ok, new_capture_writer,
  capture_header, capture, capture_write, capture_flush, capture_status, capture_call,
  capture_calls, written_by,
}

-- The record against what has been written: a prefix within the limit, whole unless truncated, and
-- not truncated below the limit.
pub record IsRecord (all : Text) (w : CaptureWriter) : Type 0 where
  pub rest : Text
  pub prefix : w.body ++ rest ≡ all
  pub within : length w.body ≤ w.limit
  pub whole : w.truncated ≡ false → rest ≡ []
  pub room : length all < w.limit → w.truncated ≡ false

IsRecord-length : (all : Text) (w : CaptureWriter) → IsRecord all w → length w.body ≤ length all
IsRecord-length all w r = omega (arith, ap length r.prefix, length-append w.body r.rest)

-- A write that is not recorded.
skip-IsRecord :
    (all p : Text) (w : CaptureWriter)
    → IsRecord all w
    → w.limit ≤ length (all ++ p)
    → IsRecord (all ++ p) (record w { truncated = true })
skip-IsRecord all p w r full = record {
  rest = r.rest ++ p;
  prefix = sym (append_assoc w.body r.rest p) ∙ ap (λ t. t ++ p) r.prefix;
  within = r.within;
  whole = λ e. cc;
  room = λ h. absurd (omega arith);
}

-- A write whose first part is recorded.
part-IsRecord :
    (all p : Text) (w : CaptureWriter)
    → IsRecord all w
    → w.truncated ≡ false
    → w.limit - length w.body < length p
    → IsRecord
        (all ++ p)
        (record w { body = w.body ++ take (w.limit - length w.body) p; truncated = true })
part-IsRecord all p w r t h =
    let n = w.limit - length w.body in
    let same : w.body ≡ all =
      sym (append-nil w.body) ∙ ap (λ x. w.body ++ x) (sym (r.whole t)) ∙ r.prefix in
    record {
      rest = drop n p;
      prefix =
          append_assoc w.body (take n p) (drop n p)
          ∙ ap (λ x. w.body ++ x) (take-append-drop n p)
          ∙ ap (λ x. x ++ p) same;
      within = omega (arith, length-append w.body (take n p), length-take n p, r.within);
      whole = λ e. cc;
      room = λ k. absurd (omega (arith, length-append all p, ap length same, r.within));
    }

-- A write that is recorded whole.
all-IsRecord :
    (all p : Text) (w : CaptureWriter)
    → IsRecord all w
    → w.truncated ≡ false
    → length p ≤ w.limit - length w.body
    → IsRecord (all ++ p) (record w { body = w.body ++ p })
all-IsRecord all p w r t h =
    let same : w.body ≡ all =
      sym (append-nil w.body) ∙ ap (λ x. w.body ++ x) (sym (r.whole t)) ∙ r.prefix in
    record {
      rest = [];
      prefix = append-nil (w.body ++ p) ∙ ap (λ x. x ++ p) same;
      within = omega (arith, length-append w.body p, r.within);
      whole = λ e. refl;
      room = λ k. t;
    }

-- A truncated record has reached its limit.
truncated-full :
    (all p : Text) (w : CaptureWriter)
    → IsRecord all w
    → 0 < w.limit
    → (leb w.limit 0 || w.truncated) ≡ true
    → w.limit ≤ length (all ++ p)
truncated-full all p w r pos t = ground (arith, length-append all p, r.room)

capture-IsRecord :
    (all p : Text) (w : CaptureWriter)
    → 0 < w.limit
    → IsRecord all w
    → IsRecord (all ++ p) (capture p w)
unfolding capture
capture-IsRecord all p w pos r =
    let n = w.limit - length w.body in
    let Good = IsRecord (all ++ p) in
    if-intro Good (leb w.limit 0 || w.truncated)
      (λ t. skip-IsRecord all p w r (truncated-full all p w r pos t))
      (λ t.
        if-intro Good (leb n 0)
          (λ full.
            skip-IsRecord all p w r
              (omega (arith, leb→le n 0 full, length-append all p, IsRecord-length all w r)))
          (λ open_one.
            if-intro Good (ltb n (length p))
              (λ h. part-IsRecord all p w r (ground arith) (ltb→lt n (length p) h))
              (λ h. all-IsRecord all p w r (ground arith) (ground arith))))

-- The record stands in three fields.
abbrev SameFields : CaptureWriter → CaptureWriter → Type 0
SameFields w w' = (w'.body ≡ w.body) × (w'.limit ≡ w.limit) × (w'.truncated ≡ w.truncated)

IsRecord-same :
    (all : Text) (w w' : CaptureWriter) → SameFields w w' → IsRecord all w → IsRecord all w'
IsRecord-same all w w' (b, l, t) r = record {
  rest = r.rest;
  prefix = rw b r.prefix;
  within = omega (arith, ap length b, r.within);
  whole = λ e. r.whole (sym t ∙ e);
  room = λ h. t ∙ r.room (omega arith);
}

header-SameFields : (status : ℕ) (w : CaptureWriter) → SameFields w (capture_header status w)
unfolding capture_header
header-SameFields status w = ground arith

flush-SameFields : (w : CaptureWriter) → SameFields w (capture_flush w)
unfolding capture_flush
flush-SameFields w = ground arith

capture-limit : (p : Text) (w : CaptureWriter) → (capture p w).limit ≡ w.limit
unfolding capture
capture-limit p w = ground arith

abbrev with_header : CaptureWriter → CaptureWriter
with_header w = if w.written then w else capture_header status_ok w

write-IsRecord :
    (all p : Text) (w : CaptureWriter)
    → 0 < w.limit
    → IsRecord all w
    → IsRecord (all ++ p) (capture_write p w) × ((capture_write p w).limit ≡ w.limit)
unfolding capture_write
write-IsRecord all p w pos r =
    let w₁ = with_header w in
    let same : SameFields w w₁ = ground (arith, header-SameFields status_ok w) in
    let kept = capture-IsRecord all p w₁ (omega arith) (IsRecord-same all w w₁ same r) in
    (
      IsRecord-same (all ++ p) (capture p w₁) (capture_write p w) (refl, refl, refl) kept,
      capture-limit p w₁ ∙ same.1,
    )

calls-IsRecord :
    (cs : List WriterCall) (all : Text) (w : CaptureWriter)
    → 0 < w.limit
    → IsRecord all w
    → IsRecord (all ++ written_by cs) (capture_calls cs w) × ((capture_calls cs w).limit ≡ w.limit)
unfolding capture_calls written_by
calls-IsRecord [] all w pos r = (rw append-nil r, refl)
calls-IsRecord (write_header s ∷ cs) all w pos r =
    let same = header-SameFields s w in
    let (done, l) =
      calls-IsRecord cs all (capture_header s w) (rw same.1 pos) (IsRecord-same all w _ same r) in
    (done, l ∙ same.1)
calls-IsRecord (flush ∷ cs) all w pos r =
    let same = flush-SameFields w in
    let (done, l) =
      calls-IsRecord cs all (capture_flush w) (rw same.1 pos) (IsRecord-same all w _ same r) in
    (done, l ∙ same.1)
calls-IsRecord (write p ∷ cs) all w pos r =
    let (r₁, l₁) = write-IsRecord all p w pos r in
    let (done, l) = calls-IsRecord cs (all ++ p) (capture_write p w) (rw l₁ pos) r₁ in
    (rw (← append_assoc) done, l ∙ l₁)

-- Whatever calls the handler makes, the body captured is a prefix of all that it writes, within the
-- limit. Either the writer does not say that it is truncated, and the body is the whole of it, or it
-- says so, and then what was written reaches the limit. For a positive limit.
pub capture_calls-IsRecord :
    (cs : List WriterCall) (can_flush : Bool) (limit : ℕ)
    → 0 < limit
    → let w = capture_calls cs (new_capture_writer can_flush limit) in
      ((rest : Text) × (w.body ++ rest ≡ written_by cs))
      × (length w.body ≤ limit)
      × ((w.truncated ≡ false) × (w.body ≡ written_by cs)
          ⊎ (w.truncated ≡ true) × (limit ≤ length (written_by cs)))
capture_calls-IsRecord cs can_flush limit pos =
    let start : IsRecord [] (new_capture_writer can_flush limit) = record {
      rest = [];
      prefix = refl;
      within = omega arith;
      whole = λ e. refl;
      room = λ h. refl;
    } in
    let (r, l) = calls-IsRecord cs [] (new_capture_writer can_flush limit) pos start in
    let w = capture_calls cs (new_capture_writer can_flush limit) in
    (
      (r.rest, r.prefix),
      omega (arith, r.within),
      elim (Bool-cases w.truncated) [
        | inr t ↦ inl (t, sym (append-nil w.body) ∙ (rw (r.whole t) at r.prefix))
        | inl t ↦ inr (t, ground (arith, r.room))
      ],
    )

-- The status that a client sees: that of the first call, if it is not a write or a flush without
-- one.
unfoldable pub first_status : Bool → List WriterCall → ℕ
first_status can_flush [] = status_ok
first_status can_flush (write_header s ∷ cs) = s
first_status can_flush (write p ∷ cs) = status_ok
first_status can_flush (flush ∷ cs) =
    let rest = first_status can_flush cs in if can_flush then status_ok else rest

call-status :
    (c : WriterCall) (w : CaptureWriter)
    → w.written ≡ true
    → ((capture_call c w).status ≡ w.status) × ((capture_call c w).written ≡ true)
unfolding capture_call capture
call-status (write_header s) w h = ground arith
call-status (write p) w h = ground arith
call-status flush w h = ground arith

calls-status :
    (cs : List WriterCall) (w : CaptureWriter)
    → w.written ≡ true
    → (capture_calls cs w).status ≡ w.status
unfolding capture_calls
calls-status [] w h = refl
calls-status (c ∷ cs) w h =
    let (s, still) = call-status c w h in calls-status cs (capture_call c w) still ∙ s

first_call :
    (c : WriterCall) (w : CaptureWriter)
    → w.written ≡ false
    → w.can_flush ≡ true
    → ((capture_call c w).status ≡ first_status true (c ∷ [])) × ((capture_call c w).written ≡ true)
unfolding capture_call capture first_status
first_call (write_header s) w h f = ground arith
first_call (write p) w h f = ground arith
first_call flush w h f = ground arith

-- The status reported is the first that the handler sets, as `net/http` sends it: later ones do not
-- count, and a write or a flush before any sets 200, as does a handler that does nothing. For a
-- writer that can flush, and no status 0.
pub capture_calls-first_status :
    (cs : List WriterCall) (limit : ℕ)
    → first_status true cs ≢ 0
    → capture_status (capture_calls cs (new_capture_writer true limit)) ≡ first_status true cs
unfolding capture_calls capture_status first_status
capture_calls-first_status [] limit h = refl
capture_calls-first_status (c ∷ cs) limit h =
    let w = new_capture_writer true limit in
    let (s, written) = first_call c w refl refl in
    let kept = calls-status cs (capture_call c w) written in
    first_only c cs (capture_calls cs (capture_call c w)) (kept ∙ s) h
  where
    first_only :
        (c : WriterCall) (cs : List WriterCall) (w : CaptureWriter)
        → w.status ≡ first_status true (c ∷ [])
        → first_status true (c ∷ cs) ≢ 0
        → capture_status w ≡ first_status true (c ∷ cs)
    first_only (write_header s) cs w e h = ground arith
    first_only (write p) cs w e h = ground arith
    first_only flush cs w e h = ground arith
