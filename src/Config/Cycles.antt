-- ===== src/Config/Cycles.antt =====
-- The search for a cycle among the fallbacks (`validateFallbacks` of internal/config/validate.go) in
-- whole: the collection of the fallbacks, and what the search reports.
use agent.Base.{
  subst, ℕ, suc, ◌≡◌, refl, sym, true, none, some, List, [], ◌∷◌, ◌++◌, arith, All, if◌then◌else◌,
  length, inl, inr, Bool-cases, ◌⊎◌,
}
use agent.Text.{Text, text_eq, text_beq_iff, trim_space}
use agent.Map.{
  ◌==◌, Map, lookup, insert, mem, keys, lookup-insert, or_nil, has, mem-keys, length-keys,
}
use agent.Config.Validate.{on_cycle, Check}
use agent.Config.Models.{Checked, fails, passes, Collected, after-Collected, then-Collected}
use agent.Config.Fallbacks.{
  field, collect_targets, collect_sources, validate_fallbacks, cycle_check, Colours, flag, Walk,
  out_of_fuel, cycle_at, walked, edges, walk, unmarked, search_cycles,
}
use agent.Config.Walks.{
  Chain, Ends, ends, Settled, Ready, VisitedAll, idle-le, walk_all-Visited, walk-Visited,
}

-- What the collection keeps: sources and targets are configured models.
record IsConfigured (models : Map Text Text) (n : Map Text (List Text)) : Type 0 where
  sources : (a : Text) → mem a (keys n) ≡ true → mem a (keys models) ≡ true
  targets : (a b : Text) → mem b (edges n a) ≡ true → mem b (keys models) ≡ true

-- The targets of one source, and all of them.
abbrev pub TargetsConfigured : Map Text Text → List Text → Type 0
TargetsConfigured models = All (λ t. has (lookup (trim_space t) models) ≡ true)

abbrev pub AllTargetsConfigured : Map Text Text → Map Text (List Text) → Type 0
AllTargetsConfigured models = All (λ p. TargetsConfigured models p.1)

pub mem-append_one :
    (x y : Text) (l : List Text) → mem x (l ++ y ∷ []) ≡ (if mem x l then true else y == x)
unfolding mem
mem-append_one x y [] = ground arith
mem-append_one x y (z ∷ l) = ground (arith, mem-append_one x y l)

with-Collected :
    (A B : Type 0)
    → A
    → (r : Checked (Map Text (List Text))) → Collected (λ _. B) r
    → Collected (λ _. A × B) r
with-Collected A B a (fails e) h = tt
with-Collected A B a (passes n) h = (a, h)

module _ (models : Map Text Text) where
  add-IsConfigured :
      (source target : Text) (n : Map Text (List Text))
      → has (lookup source models) ≡ true
      → has (lookup target models) ≡ true
      → IsConfigured models n
      → IsConfigured models (insert source (or_nil (lookup source n) ++ target ∷ []) n)
  add-IsConfigured source target n hs ht c =
      let l = or_nil (lookup source n) ++ target ∷ [] in
      record {
        sources = λ a e. ground (
          arith,
          text_beq_iff source a,
          mem-keys a (insert source l n),
          mem-keys a n,
          mem-keys source models,
          lookup-insert a source l n,
          c.sources a,
        );
        targets = λ a b e. ground (
          arith,
          text_beq_iff source a,
          text_beq_iff target b,
          mem-append_one b target (or_nil (lookup source n)),
          mem-keys target models,
          lookup-insert a source l n,
          c.targets a b,
        );
      }

  collect_targets-IsConfigured :
      (source : Text) (j : ℕ) (ts : List Text) (n : Map Text (List Text))
      → has (lookup source models) ≡ true
      → IsConfigured models n
      → Collected (IsConfigured models) (collect_targets models source j ts n)
  unfolding collect_targets
  collect_targets-IsConfigured source j [] n hs c = c
  collect_targets-IsConfigured source j (t ∷ ts) n hs c =
      let target = trim_space t in
      let n' = insert source (or_nil (lookup source n) ++ target ∷ []) n in
      after-Collected (IsConfigured models) _ (collect_targets models source (suc j) ts n') (λ ok.
        collect_targets-IsConfigured source (suc j) ts n' hs
          (add-IsConfigured source target n hs (ground (arith, ok)) c))

  collect_sources-IsConfigured :
      (fallbacks : Map Text (List Text)) (n : Map Text (List Text))
      → IsConfigured models n
      → Collected (IsConfigured models) (collect_sources models fallbacks n)
  unfolding collect_sources
  collect_sources-IsConfigured [] n c = c
  collect_sources-IsConfigured ((s, targets) ∷ fallbacks) n c =
      let source = trim_space s in
      after-Collected (IsConfigured models) _ _ (λ ok.
        then-Collected (IsConfigured models) (IsConfigured models)
          (collect_sources models fallbacks) (collect_targets models source 0 targets n)
          (collect_targets-IsConfigured source 0 targets n (ground (arith, ok)) c)
          (collect_sources-IsConfigured fallbacks))

  collect_targets-Targets :
      (source : Text) (j : ℕ) (ts : List Text) (n : Map Text (List Text))
      → Collected (λ _. TargetsConfigured models ts) (collect_targets models source j ts n)
  unfolding collect_targets
  collect_targets-Targets source j [] n = tt
  collect_targets-Targets source j (t ∷ ts) n =
      let target = trim_space t in
      let n' = insert source (or_nil (lookup source n) ++ target ∷ []) n in
      after-Collected (λ _. TargetsConfigured models (t ∷ ts)) _
        (collect_targets models source (suc j) ts n')
        (λ ok.
          with-Collected _ _ (ground (arith, ok)) (collect_targets models source (suc j) ts n')
            (collect_targets-Targets source (suc j) ts n'))

  pub collect_sources-Targets :
      (fallbacks : Map Text (List Text)) (n : Map Text (List Text))
      → Collected (λ _. AllTargetsConfigured models fallbacks) (collect_sources models fallbacks n)
  unfolding collect_sources
  collect_sources-Targets [] n = tt
  collect_sources-Targets ((s, targets) ∷ fallbacks) n =
      let source = trim_space s in
      after-Collected (λ _. AllTargetsConfigured models ((s, targets) ∷ fallbacks)) _ _
        (λ ok.
          then-Collected (λ _. TargetsConfigured models targets)
            (λ _. AllTargetsConfigured models ((s, targets) ∷ fallbacks))
            (collect_sources models fallbacks) (collect_targets models source 0 targets n)
            (collect_targets-Targets source 0 targets n)
            (λ n' h.
              with-Collected _ _ h (collect_sources models fallbacks n')
                (collect_sources-Targets fallbacks n')))

no_sources : (models : Map Text Text) → IsConfigured models []
unfolding lookup mem
no_sources models = record { sources = λ a e. ground arith; targets = λ a b e. ground arith }

module _ (models : Map Text Text) (n : Map Text (List Text)) (c : IsConfigured models n) where
  root-Ready :
      (m : Text) → mem m (keys n) ≡ true → Ready n (keys models) (suc (length models)) m unmarked
  unfolding lookup
  root-Ready m e = record {
    below = λ x f. ground arith;
    settled = λ x f. ground arith;
    inside = c.sources m e;
    room = omega (arith, idle-le [] (keys models), length-keys models);
  }

  search_cycles-Visited : VisitedAll n (keys models) (keys n) unmarked (search_cycles models n)
  unfolding search_cycles lookup
  search_cycles-Visited =
      let fuel = suc (length models) in
      walk_all-Visited n (keys models) fuel (walk n fuel)
        (walk-Visited n (keys models) c.targets fuel) (keys n) unmarked (λ x f. ground arith)
        root-Ready

  -- A model that is no source has no fallbacks.
  searched-Ends :
      (s : Colours)
      → Settled n s
      → ((b : Text) → mem b (keys n) ≡ true → flag b s.visited ≡ true)
      → (m : Text) → Ends n m
  unfolding mem
  searched-Ends s h all m = elim (Bool-cases (mem m (keys n))) [
    | inl source ↦ h m (all m source)
    | inr no_source ↦ ends (λ b edge. ground (arith, mem-keys m n, no_source))
  ]

  Outcome : Check → Type 0
  Outcome r =
      (r ≡ none) × ((m : Text) → Ends n m)
      ⊎ ((m : Text) × (r ≡ some (record { field = field; at = []; problem = on_cycle m }))
          × Chain n m m)

  cycle_check-outcome :
      (w : Walk) → VisitedAll n (keys models) (keys n) unmarked w → Outcome (cycle_check w)
  unfolding Outcome
  cycle_check-outcome out_of_fuel v = absurd v
  cycle_check-outcome (cycle_at m) v = inr (m, refl, v)
  cycle_check-outcome (walked s) (d, all) = inl (refl, searched-Ends s d.settled all)

-- The search for a cycle ends, and reports one exactly if there is one: once the fallbacks name
-- configured models only, either they are accepted, and from every model each chain of fallbacks
-- ends, or they are rejected with a model that a chain of fallbacks leads back to.
pub validate_fallbacks-Ends :
    (models : Map Text Text) (fallbacks : Map Text (List Text)) {n : Map Text (List Text)}
    → collect_sources models fallbacks [] ≡ passes n
    → let r = validate_fallbacks fallbacks models in
      (r ≡ none) × ((m : Text) → Ends n m)
      ⊎ ((m : Text) × (r ≡ some (record { field = field; at = []; problem = on_cycle m }))
          × Chain n m m)
unfolding validate_fallbacks Outcome
validate_fallbacks-Ends models fallbacks {n} e =
    let c =
      subst (Collected (IsConfigured models)) e
        (collect_sources-IsConfigured models fallbacks [] (no_sources models)) in
    let same : validate_fallbacks fallbacks models ≡ cycle_check (search_cycles models n) =
      rw (e, validate_fallbacks) refl in
    subst (Outcome models n c) (sym same)
      (cycle_check-outcome models n c (search_cycles models n) (search_cycles-Visited models n c))
