-- ===== src/Tracing/RoundTrip.antt =====
-- Reading the trace header that was written (internal/tracing/headers.go).
use agent.Base.{
  ℕ, suc, ◌≡◌, refl, ap, ◌∙◌, Bool, true, false, not, ◌||◌, some, [], ◌∷◌, ◌++◌, eqb, all, length,
  arith,
}
use agent.Text.{
  Text, text_eq, codes, is_empty, trim_space, trim_left_by, trim_right_by, is_space, to_lower,
  lower, split, byte_len,
}
use agent.Map.{◌==◌}
use agent.Hex.{is_lower_hex}
use agent.Tracing.{
  Info, is_hex, all_zero, normalize_id, is_valid_trace_flags, trace_parent_value, parse_parts,
  parse_trace_parent,
}

trim_left_by-none : (p : ℕ → Bool) (s : Text) → all (λ c. not (p c)) s ≡ true → trim_left_by p s ≡ s
unfolding trim_left_by
trim_left_by-none p [] h = refl
trim_left_by-none p (c ∷ s) h = ground arith

trim_right_by-none :
    (p : ℕ → Bool) (s : Text) → all (λ c. not (p c)) s ≡ true → trim_right_by p s ≡ s
unfolding trim_right_by
trim_right_by-none p [] h = refl
trim_right_by-none p (c ∷ s) h = ground (arith, trim_right_by-none p s)

trim_space-none : (s : Text) → all (λ c. not (is_space c)) s ≡ true → trim_space s ≡ s
unfolding trim_space
trim_space-none s h =
    ap (trim_right_by is_space) (trim_left_by-none is_space s h) ∙ trim_right_by-none is_space s h

is_hex-space : (s : Text) → is_hex s ≡ true → all (λ c. not (is_space c)) s ≡ true
unfolding is_lower_hex is_space
is_hex-space [] h = refl
is_hex-space (c ∷ s) h = ground (arith, is_hex-space s)

to_lower-is_hex : (s : Text) → is_hex s ≡ true → to_lower s ≡ s
unfolding to_lower is_lower_hex lower
to_lower-is_hex [] h = refl
to_lower-is_hex (c ∷ s) h = ground (arith, to_lower-is_hex s)

byte_len-is_hex : (s : Text) → is_hex s ≡ true → byte_len s ≡ length s
unfolding byte_len is_lower_hex
byte_len-is_hex [] h = refl
byte_len-is_hex (c ∷ s) h = ground (arith, byte_len-is_hex s)

split-is_hex :
    (s rest : Text) → is_hex s ≡ true → split b'-' (s ++ b'-' ∷ rest) ≡ s ∷ split b'-' rest
unfolding split is_lower_hex
split-is_hex [] rest h = refl
split-is_hex (c ∷ s) rest h = ground (arith, split-is_hex s rest)

split_last-is_hex : (s : Text) → is_hex s ≡ true → split b'-' s ≡ s ∷ []
unfolding split is_lower_hex
split_last-is_hex [] h = refl
split_last-is_hex (c ∷ s) h = ground (arith, split_last-is_hex s)

-- The identifiers that the gateway makes or accepts: lower-case hexadecimal, of their sizes, and not
-- all zeros.
pub record IsTraceInfo (info : Info) : Type 0 where
  pub trace_hex : is_hex info.trace_id ≡ true
  pub trace_len : length info.trace_id ≡ 32
  pub trace_nonzero : all_zero b'0' info.trace_id ≡ false
  pub span_hex : is_hex info.span_id ≡ true
  pub span_len : length info.span_id ≡ 16
  pub span_nonzero : all_zero b'0' info.span_id ≡ false
  pub flags_hex : is_hex info.trace_flags ≡ true
  pub flags_len : length info.trace_flags ≡ 2

normalize_id-is_hex :
    (n : ℕ) (s : Text)
    → is_hex s ≡ true
    → length s ≡ n
    → all_zero b'0' s ≡ false
    → normalize_id n s ≡ s
unfolding normalize_id
normalize_id-is_hex n s h l z =
    let same : to_lower (trim_space s) ≡ s =
      ap to_lower (trim_space-none s (is_hex-space s h)) ∙ to_lower-is_hex s h in
    ground (arith, same, byte_len-is_hex s h)

pub non_empty : (s : Text) (n : ℕ) → length s ≡ suc n → is_empty s ≡ false
non_empty [] n h = ground arith
non_empty (c ∷ s) n h = refl

all_spaceless-dash :
    (s t : Text)
    → is_hex s ≡ true
    → all (λ c. not (is_space c)) t ≡ true
    → all (λ c. not (is_space c)) (s ++ b'-' ∷ t) ≡ true
unfolding is_lower_hex is_space
all_spaceless-dash [] t hs ht = ht
all_spaceless-dash (c ∷ s) t hs ht = ground (arith, all_spaceless-dash s t)

abbrev parts_value : Info → Text
parts_value info =
    codes "00-" ++ (info.trace_id ++ b'-' ∷ (info.span_id ++ b'-' ∷ info.trace_flags))

zeros-is_hex : is_hex (codes "00") ≡ true
unfolding is_lower_hex
zeros-is_hex = refl

zeros-version :
    (((to_lower (codes "00") == codes "ff") || not (eqb (byte_len (to_lower (codes "00"))) 2))
      || not (is_hex (to_lower (codes "00"))))
    ≡ false
unfolding is_lower_hex to_lower lower byte_len
zeros-version = refl

module _ (info : Info) (h : IsTraceInfo info) where
  flags-valid : is_valid_trace_flags info.trace_flags ≡ true
  unfolding is_valid_trace_flags
  flags-valid =
      ground (arith, h.flags_hex, h.flags_len, byte_len-is_hex info.trace_flags h.flags_hex)

  flags-same : to_lower (trim_space info.trace_flags) ≡ info.trace_flags
  flags-same =
      ap to_lower (trim_space-none info.trace_flags (is_hex-space info.trace_flags h.flags_hex))
      ∙ to_lower-is_hex info.trace_flags h.flags_hex

  trace_parent_value-parts : trace_parent_value info ≡ parts_value info
  unfolding trace_parent_value
  trace_parent_value-parts = rw (flags-same, flags-valid) refl

  trim_space-parts : trim_space (parts_value info) ≡ parts_value info
  trim_space-parts = trim_space-none (parts_value info) (
      all_spaceless-dash (codes "00")
        (info.trace_id ++ b'-' ∷ (info.span_id ++ b'-' ∷ info.trace_flags)) zeros-is_hex
        (all_spaceless-dash info.trace_id (info.span_id ++ b'-' ∷ info.trace_flags) h.trace_hex (
          all_spaceless-dash info.span_id info.trace_flags h.span_hex
            (is_hex-space info.trace_flags h.flags_hex))))

  split-parts :
      split b'-' (parts_value info)
      ≡ codes "00" ∷ info.trace_id ∷ info.span_id ∷ info.trace_flags ∷ []
  split-parts =
      split-is_hex (codes "00") (info.trace_id ++ b'-' ∷ (info.span_id ++ b'-' ∷ info.trace_flags))
        zeros-is_hex
      ∙ ap (◌∷◌ (codes "00")) (
          split-is_hex info.trace_id (info.span_id ++ b'-' ∷ info.trace_flags) h.trace_hex
          ∙ ap (◌∷◌ info.trace_id) (
              split-is_hex info.span_id info.trace_flags h.span_hex
              ∙ ap (◌∷◌ info.span_id) (split_last-is_hex info.trace_flags h.flags_hex)))

  parse_parts-info :
      parse_parts (codes "00" ∷ info.trace_id ∷ info.span_id ∷ info.trace_flags ∷ [])
      ≡ some (record {
        trace_id = info.trace_id;
        span_id = [];
        parent_span_id = info.span_id;
        trace_flags = info.trace_flags;
        trace_state = [];
      })
  unfolding parse_parts
  parse_parts-info = ground (
    arith,
    zeros-version,
    normalize_id-is_hex 32 info.trace_id h.trace_hex h.trace_len h.trace_nonzero,
    normalize_id-is_hex 16 info.span_id h.span_hex h.span_len h.span_nonzero,
    to_lower-is_hex info.trace_flags h.flags_hex,
    flags-valid,
    non_empty info.trace_id 31 h.trace_len,
    non_empty info.span_id 15 h.span_len,
  )

  -- The trace header that the gateway sends is read back: the receiver gets the trace's identifier
  -- and flags, and the sender's span as its parent.
  pub parse_trace_parent-value :
      parse_trace_parent (trace_parent_value info)
      ≡ some (record {
        trace_id = info.trace_id;
        span_id = [];
        parent_span_id = info.span_id;
        trace_flags = info.trace_flags;
        trace_state = [];
      })
  unfolding parse_trace_parent
  parse_trace_parent-value =
      ap (λ v. parse_parts (split b'-' (trim_space v))) trace_parent_value-parts
      ∙ ap (λ v. parse_parts (split b'-' v)) trim_space-parts
      ∙ ap parse_parts split-parts
      ∙ parse_parts-info
