-- ===== src/Candidates/Search.antt =====
-- One call of `visit` (internal/llm/fallback.go): it ends within its fuel, and what it leaves.
use agent.Base.{
  ℕ, ◌+◌, ◌≤◌, ◌<◌, ◌≡◌, refl, sym, true, false, List, [], ◌∷◌, ◌++◌, arith, if◌then◌else◌,
  Bool-cases, inl, inr, length, append_assoc, append-nil,
}
use agent.Text.{Text, text_eq, text_beq_iff}
use agent.Map.{◌==◌, mem, distinct, keys}
use agent.Candidates.{Routes, Visit, is_configured, targets}

-- How many keys of the table are not seen yet.
unfoldable pub unseen : List Text → List Text → ℕ
unseen seen [] = 0
unseen seen (k ∷ ks) = let rest = unseen seen ks in if mem k seen then rest else rest + 1

pub unseen-le : (seen ks : List Text) → unseen seen ks ≤ length ks
unfolding unseen
unseen-le seen [] = omega arith
unseen-le seen (k ∷ ks) = ground (arith, unseen-le seen ks)

unseen_cons_le : (k : Text) (seen ks : List Text) → unseen (k ∷ seen) ks ≤ unseen seen ks
unfolding unseen mem
unseen_cons_le k seen [] = omega arith
unseen_cons_le k seen (j ∷ ks) = ground (arith, unseen_cons_le k seen ks)

-- Seeing a key of the table for the first time leaves fewer.
pub unseen_cons_lt :
    (k : Text) (seen ks : List Text)
    → mem k ks ≡ true
    → mem k seen ≡ false
    → unseen (k ∷ seen) ks < unseen seen ks
unfolding unseen mem
unseen_cons_lt k seen [] h n = cc
unseen_cons_lt k seen (j ∷ ks) h n =
    ground (
      arith,
      text_beq_iff j k,
      text_beq_iff k j,
      unseen_cons_le k seen ks,
      unseen_cons_lt k seen ks,
    )

pub mem-snoc :
    (x y : Text) (l : List Text) → mem x (l ++ y ∷ []) ≡ (if mem x l then true else y == x)
unfolding mem
mem-snoc x y [] = ground arith
mem-snoc x y (z ∷ l) = ground (arith, mem-snoc x y l)

pub distinct-snoc :
    (y : Text) (l : List Text) → distinct l ≡ true → mem y l ≡ false → distinct (l ++ y ∷ []) ≡ true
unfolding distinct mem
distinct-snoc y [] d n = refl
distinct-snoc y (z ∷ l) d n =
    ground (arith, mem-snoc z y l, distinct-snoc y l, text_beq_iff z y, text_beq_iff y z)

module _ (h : Routes) where
  -- Models that fallbacks lead to, from one configured model through configured ones.
  pub data Reach (root : Text) : Text → Type 0 where
    start : is_configured h root ≡ true → Reach root root
    via :
        {a b : Text}
        → Reach root a
        → mem b (targets h a) ≡ true
        → is_configured h b ≡ true
        → Reach root b

  -- What holds of the captured variables between two calls.
  pub record IsVisit (root : Text) (s : Visit) : Type 0 where
    pub agree : (x : Text) → mem x s.candidates ≡ mem x s.seen
    pub reached : (x : Text) → mem x s.seen ≡ true → Reach root x
    pub different : distinct s.candidates ≡ true

  -- What a call does: it forgets nothing, adds at the end, and every model that it adds has all of
  -- its configured fallbacks among those seen when the call ends.
  pub record Extends (s s' : Visit) : Type 0 where
    pub kept : (x : Text) → mem x s.seen ≡ true → mem x s'.seen ≡ true
    pub more : List Text
    pub appended : s'.candidates ≡ s.candidates ++ more
    pub fewer : unseen s'.seen (keys h.backends) ≤ unseen s.seen (keys h.backends)
    pub followed :
        (x y : Text)
        → mem x s'.seen ≡ true
        → mem x s.seen ≡ false
        → mem y (targets h x) ≡ true
        → is_configured h y ≡ true
        → mem y s'.seen ≡ true

  pub Extends-refl : (s : Visit) → Extends s s
  Extends-refl s = record {
    kept = λ x e. e;
    more = [];
    appended = sym (append-nil s.candidates);
    fewer = omega arith;
    followed = λ x y e n. cc;
  }

  pub Extends-trans : {s t u : Visit} → Extends s t → Extends t u → Extends s u
  Extends-trans {s} {t} {u} p q = record {
    kept = λ x e. q.kept x (p.kept x e);
    more = p.more ++ q.more;
    appended = rw (q.appended, p.appended) (append_assoc s.candidates p.more q.more);
    fewer = omega (arith, p.fewer, q.fewer);
    followed = λ x y e n m c. elim (Bool-cases (mem x t.seen)) [
      | inl old ↦ q.kept y (p.followed x y old n m c)
      | inr new ↦ q.followed x y e new m c
    ];
  }
