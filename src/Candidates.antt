-- ===== src/Candidates.antt =====
-- The handler's tables (internal/llm/handler.go) and the chain of fallback models that
-- internal/llm/fallback.go collects by a depth-first visit.
pub mod Search
pub mod Chain
use agent.Base.{
  ℕ, zero, suc, Bool, true, false, Option, none, some, List, [], ◌∷◌, ◌++◌, ◌≡◌, if◌then◌else◌,
  length,
}
use agent.Text.{Text, text_eq}
use agent.Map.{Map, mem, lookup, has, or_nil}
use agent.Config.{ModelBackendConfig}

pub record ModelBackend : Type 0 where
  pub cfg : ModelBackendConfig
  pub backend_type : Text
  pub chat_completions_url : Text

-- The two maps of `Handler` that the visit reads.
pub record Routes : Type 0 where
  pub backends : Map Text ModelBackend
  pub fallbacks : Map Text (List Text)

-- What the closure `visit` captures: `seen`, and `candidates` in the order of discovery.
pub record Visit : Type 0 where
  pub seen : List Text
  pub candidates : List Text

abbrev pub is_configured : Routes → Text → Bool
is_configured h model = has (lookup model h.backends)

abbrev pub targets : Routes → Text → List Text
targets h model = or_nil (lookup model h.fallbacks)

-- The loop over the fallbacks of one model.
unfoldable pub visit_all : (Text → Visit → Option Visit) → List Text → Visit → Option Visit
visit_all visit' [] s = some s
visit_all visit' (fallback ∷ rest) s = elim (visit' fallback s) [
  | none ↦ none
  | some s' ↦ visit_all visit' rest s'
]

-- `visit`, with fuel for the depth of the recursion; `none` means that it ran out.
unfoldable pub visit : Routes → ℕ → Text → Visit → Option Visit
unfolding visit_all
visit h zero current s = none
visit h (suc fuel) current s =
    let entered : Visit = record {
      seen = current ∷ s.seen;
      candidates = s.candidates ++ current ∷ [];
    } in
    let rest = visit_all (visit h fuel) (targets h current) entered in
    if mem current s.seen then some s else if is_configured h current then rest else some s

abbrev pub candidates_of : Option Visit → Option (List Text)
candidates_of none = none
candidates_of (some s) = some s.candidates

-- The visit goes no deeper than there are models, so this fuel is enough.
unfoldable pub candidate_models : Routes → Text → Option (List Text)
unfolding visit
candidate_models h model =
    candidates_of (visit h (suc (length h.backends)) model (record { seen = []; candidates = [] }))
