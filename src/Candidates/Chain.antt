-- ===== src/Candidates/Chain.antt =====
-- The chain of candidates (`candidateModels` of internal/llm/fallback.go): always found, without
-- repetition, and exactly the models that fallbacks lead to.
use agent.Base.{
  ℕ, zero, suc, ◌<◌, ◌≡◌, refl, sym, ap, true, false, some, List, [], ◌∷◌, ◌++◌, arith, Bool-cases,
  inl, inr, length, append_assoc, ◌∙◌, ◌↔◌,
}
use agent.Text.{Text, text_eq, text_beq_iff}
use agent.Map.{length-keys, ◌==◌, mem, distinct, keys, mem-keys}
use agent.Candidates.{Routes, Visit, is_configured, targets, visit_all, visit, candidate_models}
use agent.Candidates.Search.{
  unseen, unseen-le, unseen_cons_lt, mem-snoc, distinct-snoc, Reach, start, via, IsVisit, Extends,
  Extends-refl, Extends-trans,
}

module _ (h : Routes) (root : Text) where
  -- A call of `visit` that ends: with its invariant, and with the model seen if it is configured.
  Done : ℕ → Text → Visit → Type 0
  Done fuel current s =
      (s' : Visit) × (visit h fuel current s ≡ some s')
      × IsVisit h root s'
      × Extends h s s'
      × (is_configured h current ≡ true → mem current s'.seen ≡ true)

  DoneAll : ℕ → List Text → Visit → Type 0
  DoneAll fuel models s =
      (s' : Visit) × (visit_all (visit h fuel) models s ≡ some s')
      × IsVisit h root s'
      × Extends h s s'
      × ((y : Text) → mem y models ≡ true → is_configured h y ≡ true → mem y s'.seen ≡ true)

  Ends : ℕ → Type 0
  Ends fuel =
      (current : Text) (s : Visit)
      → unseen s.seen (keys h.backends) < fuel
      → IsVisit h root s
      → (is_configured h current ≡ true → Reach h root current)
      → Done fuel current s

  visit_all-Ends :
      (fuel : ℕ) (ends : Ends fuel) (models : List Text) (s : Visit)
      → unseen s.seen (keys h.backends) < fuel
      → IsVisit h root s
      → ((y : Text) → mem y models ≡ true → is_configured h y ≡ true → Reach h root y)
      → DoneAll fuel models s
  unfolding visit_all mem Done DoneAll Ends
  visit_all-Ends fuel ends [] s m v r = (s, refl, v, Extends-refl h s, λ y e. cc)
  visit_all-Ends fuel ends (y ∷ models) s m v r =
      let (s₁, ran, v₁, x₁, got) = ends y s m v (r y (ground (arith, text_beq_iff y y))) in
      let (s₂, ran', v₂, x₂, got') =
        visit_all-Ends fuel ends models s₁ (omega (arith, x₁.fewer)) v₁
          (λ z e. r z (ground arith)) in
      (
        s₂,
        rw (ran, visit_all) ran',
        v₂,
        Extends-trans h x₁ x₂,
        λ z e c. elim (Bool-cases (y == z)) [
          | inl same ↦ x₂.kept z (ground (arith, text_beq_iff y z, got))
          | inr other ↦ got' z (ground arith) c
        ],
      )

  abbrev entered : Text → Visit → Visit
  entered current s = record { seen = current ∷ s.seen; candidates = s.candidates ++ current ∷ [] }

  entered-IsVisit :
      (current : Text) (s : Visit)
      → mem current s.seen ≡ false
      → Reach h root current
      → IsVisit h root s
      → IsVisit h root (entered current s)
  unfolding mem
  entered-IsVisit current s new r v = record {
    agree = λ x. ground (arith, mem-snoc x current s.candidates, v.agree x);
    reached = λ x e. elim (Bool-cases (current == x)) [
      | inl same ↦ rw (← (text_beq_iff current x).0 same) r
      | inr other ↦ v.reached x (ground arith)
    ];
    different = distinct-snoc current s.candidates v.different (ground (arith, v.agree current));
  }

  entered-Extends :
      (current : Text) (s s' : Visit)
      → mem current s.seen ≡ false
      → is_configured h current ≡ true
      → Extends h (entered current s) s'
      → ((y : Text)
          → mem y (targets h current) ≡ true
          → is_configured h y ≡ true
          → mem y s'.seen ≡ true)
      → Extends h s s'
  unfolding mem
  entered-Extends current s s' new c x all = record {
    kept = λ z e. x.kept z (ground arith);
    more = current ∷ x.more;
    appended = rw (x.appended) (append_assoc s.candidates (current ∷ []) x.more);
    fewer = omega (
      arith,
      x.fewer,
      unseen_cons_lt current s.seen (keys h.backends) (mem-keys current h.backends ∙ c) new,
    );
    followed = λ z y e n m k. elim (Bool-cases (current == z)) [
      | inl same ↦ all y (rw ((text_beq_iff current z).0 same) m) k
      | inr other ↦ x.followed z y e (ground arith) m k
    ];
  }

  visit-Ends : (fuel : ℕ) → Ends fuel
  unfolding visit Ends Done DoneAll
  visit-Ends zero current s m v r = absurd (omega arith)
  visit-Ends (suc fuel) current s m v r = elim (Bool-cases (mem current s.seen)) [
    | inl old ↦ (s, rw old, v, Extends-refl h s, λ c. old)
    | inr new ↦ elim (Bool-cases (is_configured h current)) [
      | inr missing ↦ (s, rw (new, missing), v, Extends-refl h s, λ c. cc)
      | inl c ↦
          let fewer =
            unseen_cons_lt current s.seen (keys h.backends) (mem-keys current h.backends ∙ c) new in
          let (s', ran, v', x, all) =
            visit_all-Ends fuel (visit-Ends fuel) (targets h current) (entered current s)
              (omega (arith, fewer)) (entered-IsVisit current s new (r c) v)
              (λ y e k. via (r c) e k) in
          (
            s',
            rw (new, c) ran,
            v',
            entered-Extends current s s' new c x all,
            λ k. x.kept current (unfold mem in ground (arith, text_beq_iff current current)),
          )
    ]
  ]

unvisited : Visit
unvisited = record { seen = []; candidates = [] }

unvisited-IsVisit : (h : Routes) (root : Text) → IsVisit h root unvisited
unfolding unvisited mem distinct
unvisited-IsVisit h root = record { agree = λ x. refl; reached = λ x e. cc; different = refl }

Extends-Reach :
    (h : Routes) (root : Text) (s : Visit)
    → Extends h unvisited s
    → mem root s.seen ≡ true
    → {x : Text} → Reach h root x
    → mem x s.seen ≡ true
unfolding unvisited mem
Extends-Reach h root s x e (start c) = e
Extends-Reach h root s x e (via {a} {b} r m c) =
    x.followed a b (Extends-Reach h root s x e r) refl m c

module _ (h : Routes) (model : Text) (c : is_configured h model ≡ true) where
  chain_entered :
      DoneAll h model (length h.backends) (targets h model) (entered h model model unvisited)
  unfolding unvisited mem Ends
  chain_entered =
      let fewer = unseen_cons_lt model [] (keys h.backends) (mem-keys model h.backends ∙ c) refl in
      visit_all-Ends h model (length h.backends) (visit-Ends h model (length h.backends))
        (targets h model) (entered h model model unvisited)
        (omega (arith, fewer, unseen-le [] (keys h.backends), length-keys h.backends))
        (entered-IsVisit h model model unvisited refl (start c) (unvisited-IsVisit h model))
        (λ y e k. via (start c) e k)

  -- For a configured model the chain of candidates is always found (no cycle of fallbacks and no
  -- depth of them exhausts the visit); it begins with the model itself, names no model twice, and
  -- names exactly the models that a path of fallbacks through configured models leads to.
  pub candidate_models-Reach :
      (rest : List Text) × (candidate_models h model ≡ some (model ∷ rest))
      × (distinct (model ∷ rest) ≡ true)
      × ((x : Text) → (mem x (model ∷ rest) ≡ true) ↔ Reach h model x)
  unfolding candidate_models visit unvisited mem DoneAll
  candidate_models-Reach =
      let (s, ran, v, x, all) = chain_entered in
      let shape : s.candidates ≡ model ∷ x.more = x.appended in
      let same : (y : Text) → mem y (model ∷ x.more) ≡ mem y s.seen =
        λ y. sym (ap (mem y) shape) ∙ v.agree y in
      let whole = entered-Extends h model model unvisited s refl c x all in
      let begun = x.kept model (ground (arith, text_beq_iff model model)) in
      (
        x.more,
        rw (c, ran) (ap some x.appended),
        rw x.appended at v.different,
        λ y. (
          λ e. v.reached y (sym (same y) ∙ e),
          λ r. same y ∙ Extends-Reach h model s whole begun r,
        ),
      )

-- A model that is not configured has no candidates.
pub candidate_models-none :
    (h : Routes) (model : Text) → is_configured h model ≡ false → candidate_models h model ≡ some []
unfolding candidate_models visit mem
candidate_models-none h model c = ground arith
