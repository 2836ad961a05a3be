-- ===== src/Sse/Split.antt =====
-- The pieces in which the mock backend streams its text (`splitText` of internal/llm/sse.go).
use agent.Base.{
  ℕ, zero, suc, ◌≡◌, ap, ◌∙◌, ◌≤◌, ◌<◌, refl, List, [], ◌∷◌, ◌++◌, All, arith, length, take, drop,
  take-append-drop, length-take, length-drop,
}
use agent.Num.{ℤ, pos, negsuc}
use agent.Text.{Text}
use agent.Sse.{split_runes, split_text, chunk_size_or_default}

unfoldable pub joined : List Text → Text
joined [] = []
joined (s ∷ l) = s ++ joined l

-- A piece is not empty and no longer than the size.
abbrev pub Fits : ℕ → Text → Type 0
Fits size piece = (0 < length piece) × (length piece ≤ size)

joined-split_runes :
    (fuel size : ℕ) (runes : Text)
    → 0 < size
    → length runes ≤ fuel
    → joined (split_runes fuel size runes) ≡ runes
unfolding joined split_runes
joined-split_runes zero size [] h le = refl
joined-split_runes zero size (c ∷ runes) h le = ground arith
joined-split_runes (suc fuel) size [] h le = refl
joined-split_runes (suc fuel) zero (c ∷ runes) h le = ground arith
joined-split_runes (suc fuel) (suc size) (c ∷ runes) h le =
    ap (λ s. c ∷ take size runes ++ s)
      (joined-split_runes fuel (suc size) (drop size runes) h
        (ground (arith, length-drop size runes)))
    ∙ ap (◌∷◌ c) (take-append-drop size runes)

split_runes-Fits :
    (fuel size : ℕ) (runes : Text) → 0 < size → All (Fits size) (split_runes fuel size runes)
unfolding split_runes
split_runes-Fits zero size runes h = tt
split_runes-Fits (suc fuel) size [] h = tt
split_runes-Fits (suc fuel) zero (c ∷ runes) h = ground arith
split_runes-Fits (suc fuel) (suc size) (c ∷ runes) h = (
  (omega arith, ground (arith, length-take size runes)),
  split_runes-Fits fuel (suc size) (drop size runes) h,
)

positive : (z : ℤ) → 0 < chunk_size_or_default z
positive (pos zero) = omega arith
positive (pos (suc n)) = omega arith
positive (negsuc n) = omega arith

-- The pieces of a text, put together, are the text; no piece is empty, and none is longer than the
-- size asked for, or than 12 where that is not positive.
pub split_text-pieces :
    (text : Text) (chunk_size : ℤ)
    → (joined (split_text text chunk_size) ≡ text)
      × All (Fits (chunk_size_or_default chunk_size)) (split_text text chunk_size)
unfolding split_text
split_text-pieces text chunk_size =
    let size = chunk_size_or_default chunk_size in
    (
      joined-split_runes (length text) size text (positive chunk_size) (omega arith),
      split_runes-Fits (length text) size text (positive chunk_size),
    )
