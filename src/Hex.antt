-- ===== src/Hex.antt =====
-- Hexadecimal text of bytes, as encoding/hex writes and reads it.
use agent.Base.{
  ℕ, ◌+◌, ◌-◌, ◌*◌, ◌/◌, ◌%◌, ◌≡◌, ◌<◌, refl, ap, sym, ◌∙◌, Bool, true, not, ◌&&◌, ◌||◌, Option,
  none, some, List, [], ◌∷◌, arith, ltb, leb, if◌then◌else◌, All, length, all,
}
use agent.Text.{Text}

unfoldable pub is_lower_hex : ℕ → Bool
is_lower_hex c = leb b'0' c && leb c b'9' || leb b'a' c && leb c b'f'

unfoldable pub hex_value : ℕ → Option ℕ
hex_value c =
    if leb b'0' c && leb c b'9'
    then some (c - b'0')
    else if leb b'a' c && leb c b'f'
    then some (c - b'a' + 10)
    else if leb b'A' c && leb c b'F'
    then some (c - b'A' + 10)
    else none

unfoldable pub hex_digit : ℕ → ℕ
hex_digit n = if ltb n 10 then b'0' + n else b'a' + (n - 10)

abbrev byte_of : Option ℕ → Option ℕ → Option (List ℕ) → Option (List ℕ)
byte_of (some h) (some l) (some bytes) = some ((16 * h + l) ∷ bytes)
byte_of _ _ _ = none

-- `hex.DecodeString`, `none` where it reports an error.
unfoldable pub decode_hex : Text → Option (List ℕ)
unfolding hex_value
decode_hex [] = some []
decode_hex (c ∷ []) = none
decode_hex (c ∷ d ∷ s) = byte_of (hex_value c) (hex_value d) (decode_hex s)

-- `hex.EncodeToString`.
unfoldable pub encode_hex : List ℕ → Text
unfolding hex_digit
encode_hex [] = []
encode_hex (b ∷ bytes) = hex_digit (b / 16) ∷ hex_digit (b % 16) ∷ encode_hex bytes

pub hex_value-hex_digit : (n : ℕ) → n < 16 → hex_value (hex_digit n) ≡ some n
unfolding hex_value hex_digit
hex_value-hex_digit n h = ground arith

-- Reading what was written gives the bytes back.
pub decode_hex-encode_hex :
    (bytes : List ℕ) → All (λ b. b < 256) bytes → decode_hex (encode_hex bytes) ≡ some bytes
unfolding decode_hex encode_hex
decode_hex-encode_hex [] h = refl
decode_hex-encode_hex (b ∷ bytes) h =
    let high = hex_value-hex_digit (b / 16) (omega (arith, h.0)) in
    let low = hex_value-hex_digit (b % 16) (omega arith) in
    let rest = decode_hex-encode_hex bytes h.1 in
    let whole : 16 * (b / 16) + b % 16 ≡ b = omega arith in
    rw (high, low, rest) (ap (λ x. some (x ∷ bytes)) whole)

pub length-encode_hex : (bytes : List ℕ) → length (encode_hex bytes) ≡ 2 * length bytes
unfolding encode_hex
length-encode_hex [] = refl
length-encode_hex (b ∷ bytes) = omega (arith, length-encode_hex bytes)

pub hex_digit-is_lower_hex : (n : ℕ) → n < 16 → is_lower_hex (hex_digit n) ≡ true
unfolding hex_digit is_lower_hex
hex_digit-is_lower_hex n h = ground arith

pub encode_hex-is_lower_hex :
    (bytes : List ℕ) → All (λ b. b < 256) bytes → all is_lower_hex (encode_hex bytes) ≡ true
unfolding encode_hex
encode_hex-is_lower_hex [] h = refl
encode_hex-is_lower_hex (b ∷ bytes) h =
    rw
      (
        hex_digit-is_lower_hex (b / 16) (omega (arith, h.0)),
        hex_digit-is_lower_hex (b % 16) (omega arith),
      )
      (encode_hex-is_lower_hex bytes h.1)

-- No letter from A to Z.
unfoldable pub is_not_upper : ℕ → Bool
is_not_upper c = not (leb b'A' c && leb c b'Z')

hex_value-injective :
    (c d v : ℕ)
    → is_not_upper c ≡ true
    → is_not_upper d ≡ true
    → hex_value c ≡ some v
    → hex_value d ≡ some v
    → c ≡ d
unfolding hex_value is_not_upper
hex_value-injective c d v hc hd ec ed = ground arith

hex_value-lt : (c : ℕ) {v : ℕ} → hex_value c ≡ some v → v < 16
unfolding hex_value
hex_value-lt c e = ground arith

-- What a decoded text of at least one byte was read from.
record Decoded (c d : ℕ) (s : Text) (byte : ℕ) (bytes : List ℕ) : Type 0 where
  high : ℕ
  low : ℕ
  high_of : hex_value c ≡ some high
  low_of : hex_value d ≡ some low
  rest_of : decode_hex s ≡ some bytes
  byte_is : byte ≡ 16 * high + low

decode_hex-Decoded :
    (c d : ℕ) (s : Text) (byte : ℕ) (bytes : List ℕ)
    → decode_hex (c ∷ d ∷ s) ≡ some (byte ∷ bytes)
    → Decoded c d s byte bytes
unfolding decode_hex
decode_hex-Decoded c d s byte bytes e =
    elim (hex_value c)
        as (λ h.
          hex_value c ≡ h
          → byte_of h (hex_value d) (decode_hex s) ≡ some (byte ∷ bytes)
          → Decoded c d s byte bytes) [
            | none ↦ λ ch e. absurd (ground arith)
            | some h ↦ λ ch.
                elim (hex_value d)
                    as (λ l.
                      hex_value d ≡ l
                      → byte_of (some h) l (decode_hex s) ≡ some (byte ∷ bytes)
                      → Decoded c d s byte bytes) [
                        | none ↦ λ dl e. absurd (ground arith)
                        | some l ↦ λ dl.
                            elim (decode_hex s)
                                as (λ r.
                                  decode_hex s ≡ r
                                  → byte_of (some h) (some l) r ≡ some (byte ∷ bytes)
                                  → Decoded c d s byte bytes) [
                                    | none ↦ λ sr e. absurd (ground arith)
                                    | some r ↦ λ sr e. record {
                                      high = h;
                                      low = l;
                                      high_of = ch;
                                      low_of = dl;
                                      rest_of = ground (arith, sr, e);
                                      byte_is = ground (arith, e);
                                    }
                                  ]
                              refl
                      ]
                  refl
          ]
      refl e

byte_of-is_not_nil : (h l : Option ℕ) (r : Option (List ℕ)) → ¬ (byte_of h l r ≡ some [])
byte_of-is_not_nil none l r e = ground arith
byte_of-is_not_nil (some h) none r e = ground arith
byte_of-is_not_nil (some h) (some l) none e = ground arith
byte_of-is_not_nil (some h) (some l) (some r) e = ground arith

all-pair :
    (p : ℕ → Bool) (c d : ℕ) (s : Text)
    → all p (c ∷ d ∷ s) ≡ true
    → (p c ≡ true) × (p d ≡ true) × (all p s ≡ true)
all-pair p c d s h = ground arith

-- Lower-case texts that stand for the same bytes are the same.
pub decode_hex-injective :
    (s t : Text) (bytes : List ℕ)
    → all is_not_upper s ≡ true
    → all is_not_upper t ≡ true
    → decode_hex s ≡ some bytes
    → decode_hex t ≡ some bytes
    → s ≡ t
unfolding decode_hex
decode_hex-injective [] [] bytes hs ht es et = refl
decode_hex-injective (c ∷ []) t bytes hs ht es et = absurd (ground (arith, es))
decode_hex-injective s (c ∷ []) bytes hs ht es et = absurd (ground (arith, et))
decode_hex-injective [] (c ∷ d ∷ t) bytes hs ht es et =
    absurd (byte_of-is_not_nil _ _ _ (et ∙ sym es))
decode_hex-injective (c ∷ d ∷ s) [] bytes hs ht es et =
    absurd (byte_of-is_not_nil _ _ _ (es ∙ sym et))
decode_hex-injective (c ∷ d ∷ s) (c' ∷ d' ∷ t) [] hs ht es et = absurd (byte_of-is_not_nil _ _ _ es)
decode_hex-injective (c ∷ d ∷ s) (c' ∷ d' ∷ t) (b ∷ bytes) hs ht es et =
    let x = decode_hex-Decoded c d s b bytes es in
    let y = decode_hex-Decoded c' d' t b bytes et in
    let x_low = hex_value-lt d x.low_of in
    let y_low = hex_value-lt d' y.low_of in
    let low_same : x.low ≡ y.low = omega (arith, x.byte_is, y.byte_is, x_low, y_low) in
    let high_same : x.high ≡ y.high = omega (arith, x.byte_is, y.byte_is, low_same) in
    let (hc, hd, hs') = all-pair is_not_upper c d s hs in
    let (hc', hd', ht') = all-pair is_not_upper c' d' t ht in
    let first =
      hex_value-injective c c' x.high hc hc' x.high_of (y.high_of ∙ ap some (sym high_same)) in
    let second =
      hex_value-injective d d' x.low hd hd' x.low_of (y.low_of ∙ ap some (sym low_same)) in
    let rest = decode_hex-injective s t bytes hs' ht' x.rest_of y.rest_of in
    ap (λ a. a ∷ d ∷ s) first ∙ ap (λ a. c' ∷ a ∷ s) second ∙ ap (λ r. c' ∷ d' ∷ r) rest
