-- ===== src/Config/Models.antt =====
-- The checks of the backends and of their models (`Validate` of internal/config/validate.go).
use agent.Base.{
  ℕ, suc, ◌≡◌, Bool, none, some, List, [], ◌∷◌, ◌++◌, refl, if◌then◌else◌, length, eqb,
}
use agent.Text.{Text, text_eq, codes, is_empty, trim_space, to_lower}
use agent.Map.{◌==◌, Map, lookup, insert, has, mem}
use agent.Config.{ModelBackendConfig}
use agent.Config.Validate.{
  empty, too_few, repeated, unsupported, ConfigError, Check, wrong, first_error, check_url, Parsers,
}

-- A check that goes on with a value.
pub data Checked (A : Type 0) : Type 0 where
  fails : ConfigError → Checked A
  passes : A → Checked A

abbrev pub after : {A : Type 0} → Check → Checked A → Checked A
after none r = r
after (some e) r = fails e

-- What the value has, if the check goes on.
abbrev pub Collected : {A : Type 0} → (A → Type 0) → Checked A → Type 0
Collected P (fails e) = Unit
Collected P (passes a) = P a

pub after-Collected :
    {A : Type 0} (P : A → Type 0) (c : Check) (r : Checked A)
    → (c ≡ none → Collected P r)
    → Collected P (after c r)
after-Collected P none r h = h refl
after-Collected P (some e) r h = tt

pub then-Collected :
    {A B : Type 0} (P : A → Type 0) (Q : B → Type 0) (next : A → Checked B) (r : Checked A)
    → Collected P r
    → ((a : A) → P a → Collected Q (next a))
    → Collected Q (elim r [ fails e ↦ fails e | passes a ↦ next a ])
then-Collected P Q next (fails e) h f = tt
then-Collected P Q next (passes a) h f = f a h

pub Collected-map :
    {A : Type 0} {P Q : A → Type 0} (r : Checked A)
    → ((a : A) → P a → Q a)
    → Collected P r
    → Collected Q r
Collected-map (fails e) f h = tt
Collected-map (passes a) f h = f a h

unfoldable pub is_openai_type : Text → Bool
is_openai_type type =
    mem type (codes "openai" ∷ codes "openai_compatible" ∷ codes "openai-compatible" ∷ [])

-- The loop over the models of one backend: the owners by model.
unfoldable pub check_models :
    List ℕ → ℕ → Text → List Text → Map Text Text → Checked (Map Text Text)
check_models at j name [] models = passes models
check_models at j name (m ∷ ms) models =
    let model = trim_space m in
    let rest = check_models at (suc j) name ms (insert model name models) in
    after
      (first_error (
        wrong (is_empty model) (codes "ai.backends.models") (at ++ j ∷ []) empty
        ∷ wrong (has (lookup model models)) (codes "ai.backends.models") (at ++ j ∷ []) repeated
        ∷ []))
      rest

-- What the loop over the backends keeps: the names seen, and the owners by model.
pub record Seen : Type 0 where
  pub names : List Text
  pub models : Map Text Text

module _ {F : Type 0} (p : Parsers F) where
  unfoldable pub check_type : List ℕ → ModelBackendConfig → Check
  unfolding is_openai_type check_url
  check_type at cfg =
      let type = trim_space (to_lower cfg.type) in
      let url = trim_space cfg.base_url in
      if type == codes "mock"
      then none
      else if is_openai_type type
      then first_error (
          wrong (is_empty url) (codes "ai.backends.base_url") at empty
          ∷ check_url (codes "ai.backends.base_url") at (p.parse_url url)
          ∷ [])
      else some (record { field = codes "ai.backends.type"; at = at; problem = unsupported })

  unfoldable pub check_backend : ℕ → ModelBackendConfig → Seen → Checked Seen
  unfolding check_type check_models
  check_backend i cfg seen =
      let at = i ∷ [] in
      let name = trim_space cfg.name in
      let models : Checked Seen = elim (check_models at 0 name cfg.models seen.models) [
        | fails e ↦ fails e
        | passes ms ↦ passes (record { names = name ∷ seen.names; models = ms })
      ] in
      after
        (first_error (
          wrong (is_empty name) (codes "ai.backends.name") at empty
          ∷ wrong (mem name seen.names) (codes "ai.backends.name") at repeated
          ∷ check_type at cfg
          ∷ wrong (eqb (length cfg.models) 0) (codes "ai.backends.models") at too_few
          ∷ []))
        models

  unfoldable pub check_backends : ℕ → List ModelBackendConfig → Seen → Checked Seen
  unfolding check_backend
  check_backends i [] seen = passes seen
  check_backends i (cfg ∷ cfgs) seen = elim (check_backend i cfg seen) [
    | fails e ↦ fails e
    | passes seen' ↦ check_backends (suc i) cfgs seen'
  ]
