-- ===== src/Num.antt =====
-- Go's `int` and `int64`: integers over the native numbers, with the wrap-around of 64 bits
-- written out.
use agent.Base.{ℕ, suc, ◌+◌, ◌-◌, ◌%◌, ◌^◌, ◌≤◌, ◌<◌, ◌≡◌, Bool, arith, ltb, leb, if◌then◌else◌}

-- `negsuc n` is -(n + 1).
pub data ℤ : Type 0 where
  pos : ℕ → ℤ
  negsuc : ℕ → ℤ

abbrev pub pos_part : ℤ → ℕ
pos_part (pos n) = n
pos_part (negsuc n) = 0

abbrev pub neg_part : ℤ → ℕ
neg_part (pos n) = 0
neg_part (negsuc n) = suc n

-- a - b, as an integer.
abbrev pub sub_ℕ : ℕ → ℕ → ℤ
sub_ℕ a b = if leb b a then pos (a - b) else negsuc (b - a - 1)

abbrev pub leb_ℤ : ℤ → ℤ → Bool
leb_ℤ a b = leb (pos_part a + neg_part b) (pos_part b + neg_part a)

abbrev pub ltb_ℤ : ℤ → ℤ → Bool
ltb_ℤ a b = ltb (pos_part a + neg_part b) (pos_part b + neg_part a)

infix 50 ◌≤ℤ◌
abbrev pub ◌≤ℤ◌ : ℤ → ℤ → Type 0
a ≤ℤ b = pos_part a + neg_part b ≤ pos_part b + neg_part a

abbrev pub max_int : ℕ
max_int = 2 ^ 63 - 1

-- The value that a 64-bit signed word keeps of an integer.
unfoldable pub wrap64 : ℤ → ℤ
wrap64 (pos n) =
    if ltb (n % 2 ^ 64) (2 ^ 63) then pos (n % 2 ^ 64) else negsuc (2 ^ 64 - n % 2 ^ 64 - 1)
wrap64 (negsuc n) =
    if ltb (n % 2 ^ 64) (2 ^ 63) then negsuc (n % 2 ^ 64) else pos (2 ^ 64 - n % 2 ^ 64 - 1)

-- `a + b` and `a - b` of Go.
unfoldable pub add_int : ℤ → ℤ → ℤ
unfolding wrap64
add_int a b = wrap64 (sub_ℕ (pos_part a + pos_part b) (neg_part a + neg_part b))

unfoldable pub sub_int : ℤ → ℤ → ℤ
unfolding wrap64
sub_int a b = wrap64 (sub_ℕ (pos_part a + neg_part b) (neg_part a + pos_part b))

-- Between non-negative words that are in range a sum in range does not wrap.
pub add_int-pos : (a b : ℕ) → a + b ≤ max_int → add_int (pos a) (pos b) ≡ pos (a + b)
unfolding add_int
add_int-pos a b h = ground arith

-- A sum just over the range of an `int` is negative.
pub add_int-overflow :
    (a b : ℕ)
    → a ≤ max_int
    → b ≤ max_int
    → max_int < a + b
    → add_int (pos a) (pos b) ≡ negsuc (2 ^ 64 - (a + b) - 1)
unfolding add_int
add_int-overflow a b ha hb h = ground arith

pub sub_int-pos : (a b : ℕ) → a ≤ max_int → b ≤ max_int → sub_int (pos a) (pos b) ≡ sub_ℕ a b
unfolding sub_int
sub_int-pos a b ha hb = ground arith
