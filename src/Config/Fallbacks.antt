-- ===== src/Config/Fallbacks.antt =====
-- The checks of the fallbacks (`validateFallbacks` of internal/config/validate.go): that they name
-- configured models, and a depth-first search for a cycle.
use agent.Base.{
  ℕ, zero, suc, Bool, true, false, not, Option, none, some, List, [], ◌∷◌, ◌++◌, if◌then◌else◌,
  length,
}
use agent.Text.{Text, text_eq, codes, is_empty, trim_space}
use agent.Map.{◌==◌, Map, lookup, insert, has, or_nil, keys}
use agent.Config.Validate.{empty, not_configured, to_itself, on_cycle, Check, wrong, first_error}
use agent.Config.Models.{Checked, fails, passes, after}

abbrev pub field : Text
field = codes "ai.fallbacks"

-- The loop over the targets of one source.
unfoldable pub collect_targets :
    Map Text Text → Text → ℕ → List Text → Map Text (List Text) → Checked (Map Text (List Text))
collect_targets models source j [] normalized = passes normalized
collect_targets models source j (t ∷ ts) normalized =
    let target = trim_space t in
    let rest =
      collect_targets models source (suc j) ts
        (insert source (or_nil (lookup source normalized) ++ target ∷ []) normalized) in
    after
      (first_error (
        wrong (is_empty target) field (j ∷ []) empty
        ∷ wrong (not (has (lookup target models))) field (j ∷ []) not_configured
        ∷ wrong (target == source) field [] to_itself
        ∷ []))
      rest

-- The loop over the sources, in the order in which `range` visits the map.
unfoldable pub collect_sources :
    Map Text Text → Map Text (List Text) → Map Text (List Text) → Checked (Map Text (List Text))
unfolding collect_targets
collect_sources models [] normalized = passes normalized
collect_sources models ((s, targets) ∷ fallbacks) normalized =
    let source = trim_space s in
    let collected : Checked (Map Text (List Text)) =
      elim (collect_targets models source 0 targets normalized) [
        | fails e ↦ fails e
        | passes n ↦ collect_sources models fallbacks n
      ] in
    after
      (first_error (
        wrong (is_empty source) field [] empty
        ∷ wrong (not (has (lookup source models))) field [] not_configured
        ∷ []))
      collected

-- The two maps that the closure `visit` captures.
pub record Colours : Type 0 where
  pub visiting : Map Text Bool
  pub visited : Map Text Bool

-- A key that is missing reads as false.
abbrev pub or_false : Option Bool → Bool
or_false none = false
or_false (some b) = b

abbrev pub flag : Text → Map Text Bool → Bool
flag k m = or_false (lookup k m)

-- What a visit comes to: the error names a model; `out_of_fuel` is not of the code.
pub data Walk : Type 0 where
  out_of_fuel : Walk
  cycle_at : Text → Walk
  walked : Colours → Walk

abbrev pub edges : Map Text (List Text) → Text → List Text
edges normalized model = or_nil (lookup model normalized)

-- The loop over models, which ends at the first error.
unfoldable pub walk_all : (Text → Colours → Walk) → List Text → Colours → Walk
walk_all visit' [] s = walked s
walk_all visit' (m ∷ ms) s = elim (visit' m s) [
  | out_of_fuel ↦ out_of_fuel
  | cycle_at c ↦ cycle_at c
  | walked s' ↦ walk_all visit' ms s'
]

abbrev pub enter : Text → Colours → Colours
enter model s = record s { visiting = insert model true s.visiting }

abbrev pub leave : Text → Colours → Colours
leave model s = record {
  visiting = insert model false s.visiting;
  visited = insert model true s.visited;
}

abbrev pub left : Text → Walk → Walk
left model (walked s) = walked (leave model s)
left model (cycle_at c) = cycle_at c
left model out_of_fuel = out_of_fuel

unfoldable pub walk : Map Text (List Text) → ℕ → Text → Colours → Walk
unfolding walk_all
walk normalized zero model s = out_of_fuel
walk normalized (suc fuel) model s =
    let inner = walk_all (walk normalized fuel) (edges normalized model) (enter model s) in
    if flag model s.visiting
    then cycle_at model
    else if flag model s.visited
    then walked s
    else left model inner

abbrev pub unmarked : Colours
unmarked = record { visiting = []; visited = [] }

abbrev pub cycle_check : Walk → Check
cycle_check (walked s) = none
cycle_check (cycle_at m) = some (record { field = field; at = []; problem = on_cycle m })
cycle_check out_of_fuel = none

-- The search from every source, with fuel for its depth: one more than there are models.
unfoldable pub search_cycles : Map Text Text → Map Text (List Text) → Walk
unfolding walk walk_all
search_cycles models normalized =
    walk_all (walk normalized (suc (length models))) (keys normalized) unmarked

unfoldable pub validate_fallbacks : Map Text (List Text) → Map Text Text → Check
unfolding collect_sources search_cycles
validate_fallbacks fallbacks models = elim (collect_sources models fallbacks []) [
  | fails e ↦ some e
  | passes normalized ↦ cycle_check (search_cycles models normalized)
]
