-- ===== src/Text/Trim.antt =====
-- What trimming keeps of a text: a property of all its characters.
use agent.Base.{
  ℕ, ◌≡◌, refl, sym, ◌∙◌, Bool, true, false, not, ◌&&◌, [], ◌∷◌, arith, all, drop, zero, suc,
  Bool-cases, inl, inr,
}
use agent.Text.{
  is_empty, is_space, Text, trim_space, trim_left_by, trim_right_by, trim_prefix, contains_any,
  has_char, has_prefix, trim_end,
}

module _ (q : ℕ → Bool) where
  all-trim_left : (p : ℕ → Bool) (s : Text) → all q s ≡ true → all q (trim_left_by p s) ≡ true
  unfolding trim_left_by
  all-trim_left p [] h = refl
  all-trim_left p (c ∷ s) h = ground (arith, all-trim_left p s)

  all-trim_end :
      (b : Bool) (c : ℕ) (s : Text) → q c ≡ true → all q s ≡ true → all q (trim_end b c s) ≡ true
  all-trim_end true c [] h r = refl
  all-trim_end false c [] h r = ground arith
  all-trim_end true c (d ∷ s) h r = ground arith
  all-trim_end false c (d ∷ s) h r = ground arith

  all-trim_right : (p : ℕ → Bool) (s : Text) → all q s ≡ true → all q (trim_right_by p s) ≡ true
  unfolding trim_right_by
  all-trim_right p [] h = refl
  all-trim_right p (c ∷ s) h =
      all-trim_end (p c) c (trim_right_by p s) (ground arith) (all-trim_right p s (ground arith))

  pub all-trim_space : (s : Text) → all q s ≡ true → all q (trim_space s) ≡ true
  unfolding trim_space
  all-trim_space s h = all-trim_right _ _ (all-trim_left _ s h)

  all-drop : (n : ℕ) (s : Text) → all q s ≡ true → all q (drop n s) ≡ true
  all-drop zero s h = h
  all-drop (suc n) [] h = refl
  all-drop (suc n) (c ∷ s) h = all-drop n s (ground arith)

  pub all-trim_prefix : (s p : Text) → all q s ≡ true → all q (trim_prefix s p) ≡ true
  unfolding trim_prefix
  all-trim_prefix s p h = elim (Bool-cases (has_prefix s p)) [
    | inl e ↦ rw (e) (all-drop _ s h)
    | inr e ↦ rw (e) h
  ]

-- A text without certain characters has none of them once it is trimmed.
pub contains_any-trim_space :
    (s chars : Text) → contains_any s chars ≡ false → contains_any (trim_space s) chars ≡ false
unfolding contains_any
contains_any-trim_space s chars h = ground (arith, all-trim_space (λ c. not (has_char c chars)) s)

module _ (p : ℕ → Bool) where
  trim_left-is_empty : (s : Text) → is_empty (trim_left_by p s) ≡ all p s
  unfolding trim_left_by
  trim_left-is_empty [] = refl
  trim_left-is_empty (c ∷ s) = ground (arith, trim_left-is_empty s)

  all-trim_left_same : (s : Text) → all p (trim_left_by p s) ≡ all p s
  unfolding trim_left_by
  all-trim_left_same [] = refl
  all-trim_left_same (c ∷ s) = ground (arith, all-trim_left_same s)

  trim_end-is_empty : (c : ℕ) (s : Text) → is_empty (trim_end (p c) c s) ≡ (p c && is_empty s)
  trim_end-is_empty c [] = elim (Bool-cases (p c)) [ inl e ↦ rw (e) refl | inr e ↦ rw (e) refl ]
  trim_end-is_empty c (d ∷ s) = elim (Bool-cases (p c)) [
    | inl e ↦ rw (e) refl
    | inr e ↦ rw (e) refl
  ]

  trim_right-is_empty : (s : Text) → is_empty (trim_right_by p s) ≡ all p s
  unfolding trim_right_by
  trim_right-is_empty [] = refl
  trim_right-is_empty (c ∷ s) =
      ground (arith, trim_right-is_empty s, trim_end-is_empty c (trim_right_by p s))

  all-trim_end_same : (c : ℕ) (s : Text) → all p (trim_end (p c) c s) ≡ (p c && all p s)
  all-trim_end_same c [] = elim (Bool-cases (p c)) [
    | inl e ↦ rw (e) refl
    | inr e ↦ rw (e) (ground (arith, e))
  ]
  all-trim_end_same c (d ∷ s) = elim (Bool-cases (p c)) [
    | inl e ↦ rw (e) refl
    | inr e ↦ rw (e) refl
  ]

  all-trim_right_same : (s : Text) → all p (trim_right_by p s) ≡ all p s
  unfolding trim_right_by
  all-trim_right_same [] = refl
  all-trim_right_same (c ∷ s) =
      ground (arith, all-trim_right_same s, all-trim_end_same c (trim_right_by p s))

-- Trimming twice leaves nothing only where trimming once does.
pub is_empty-trim_twice :
    (s : Text) → is_empty (trim_space (trim_space s)) ≡ is_empty (trim_space s)
unfolding trim_space
is_empty-trim_twice s =
    let once = trim_left_by is_space s in
    let twice = trim_right_by is_space once in
    trim_right-is_empty is_space (trim_left_by is_space twice)
    ∙ all-trim_left_same is_space twice
    ∙ all-trim_right_same is_space once
    ∙ sym (trim_right-is_empty is_space once)
