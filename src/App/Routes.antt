-- ===== src/App/Routes.antt =====
-- The routing tables of a handler that is made from an accepted configuration (`Validate` of
-- internal/config/validate.go before `NewHandler` of internal/llm/handler.go).
use agent.Base.{
  ℕ, suc, ◌≡◌, refl, sym, ◌∙◌, true, ◌||◌, Option, none, some, List, [], ◌∷◌, ◌++◌, arith,
  if◌then◌else◌, Bool-cases, inl, inr,
}
use agent.Text.{Text, text_eq, text_beq_iff, trim_space, is_empty}
use agent.Map.{Map, lookup, insert, mem, has, or_nil, lookup-insert}
use agent.Config.{Config, AiConfig, ModelBackendConfig}
use agent.Config.Normalize.{normalize_ai_config, add_targets, add_sources, normalize_fallbacks}
use agent.Config.Validate.{Parsers}
use agent.Config.Models.{
  Checked, fails, passes, Seen, check_models, check_backend, check_backends, Collected,
  after-Collected, then-Collected, Collected-map,
}
use agent.Config.Fallbacks.{collect_sources, validate_fallbacks, cycle_check, search_cycles}
use agent.Config.Cycles.{
  AllTargetsConfigured, TargetsConfigured, mem-append_one, collect_sources-Targets,
}
use agent.Config.Whole.{validate, validate_ai, check_routes, nothing_seen}
use agent.Candidates.{ModelBackend, targets, is_configured}
use agent.Handler.{new_handler, make_backend}
use agent.Handler.Table.{serves, configured_backend, new_handler-lookup}
use agent.App.Accepted.{ai-accepted}

check_models-serves :
    (at : List ℕ) (j : ℕ) (name : Text) (ms : List Text) (owners : Map Text Text)
    → Collected
        (λ owners'. (m : Text) → has (lookup m owners') ≡ (serves m ms || has (lookup m owners)))
        (check_models at j name ms owners)
unfolding check_models serves
check_models-serves at j name [] owners = λ m. refl
check_models-serves at j name (x ∷ ms) owners =
    let model = trim_space x in
    let owners₁ = insert model name owners in
    let rest = check_models at (suc j) name ms owners₁ in
    after-Collected _ _ rest (λ ok.
      Collected-map rest
        (λ owners' same m. ground (arith, same m, lookup-insert m model name owners))
        (check_models-serves at (suc j) name ms owners₁))

module _ {F : Type 0} (p : Parsers F) where
  check_backend-serves :
      (i : ℕ) (cfg : ModelBackendConfig) (seen : Seen)
      → Collected
          (λ seen'.
            (m : Text)
            → has (lookup m seen'.models) ≡ (serves m cfg.models || has (lookup m seen.models)))
          (check_backend p i cfg seen)
  unfolding check_backend
  check_backend-serves i cfg seen =
      let name = trim_space cfg.name in
      let owners = check_models (i ∷ []) 0 name cfg.models seen.models in
      let keep : Map Text Text → Checked Seen =
        λ ms. passes (record { names = name ∷ seen.names; models = ms }) in
      let next : Checked Seen = elim owners [ fails e ↦ fails e | passes ms ↦ keep ms ] in
      let Owns : Map Text Text → Type 0 = λ ms.
        (m : Text) → has (lookup m ms) ≡ (serves m cfg.models || has (lookup m seen.models)) in
      let P : Seen → Type 0 = λ s. Owns s.models in
      after-Collected P _ next (λ ok.
        then-Collected Owns P keep owners
          (check_models-serves (i ∷ []) 0 name cfg.models seen.models) (λ ms e. e))

  check_backends-configured :
      (i : ℕ) (cfgs : List ModelBackendConfig) (seen : Seen) (found : Text → Option ModelBackend)
      → ((m : Text) → has (found m) ≡ has (lookup m seen.models))
      → Collected
          (λ seen'.
            (m : Text) → has (lookup m seen'.models) ≡ has (configured_backend m cfgs (found m)))
          (check_backends p i cfgs seen)
  unfolding check_backends configured_backend
  check_backends-configured i [] seen found e = λ m. sym (e m)
  check_backends-configured i (cfg ∷ cfgs) seen found e =
      let now : Text → Option ModelBackend =
        λ m. if serves m cfg.models then some (make_backend cfg) else found m in
      then-Collected _ _ (check_backends p (suc i) cfgs) (check_backend p i cfg seen)
        (check_backend-serves i cfg seen)
        (λ seen' same.
          check_backends-configured (suc i) cfgs seen' now (λ m. ground (arith, e m, same m)))

-- Every target of the fallbacks is a key of the map.
record Within (models : Map Text Text) (n : Map Text (List Text)) : Type 0 where
  within : (a b : Text) → mem b (or_nil (lookup a n)) ≡ true → has (lookup b models) ≡ true

module _ (models : Map Text Text) where
  add-Within :
      (source t : Text) (n : Map Text (List Text))
      → has (lookup t models) ≡ true
      → Within models n
      → Within models (insert source (or_nil (lookup source n) ++ t ∷ []) n)
  add-Within source t n h w =
      let l = or_nil (lookup source n) ++ t ∷ [] in
      record {
        within = λ a b e. ground (
          arith,
          text_beq_iff source a,
          text_beq_iff t b,
          mem-append_one b t (or_nil (lookup source n)),
          lookup-insert a source l n,
          w.within a b,
        );
      }

  add_targets-Within :
      (source : Text) (seen ts : List Text) (n : Map Text (List Text))
      → TargetsConfigured models ts
      → Within models n
      → Within models (add_targets source seen ts n)
  unfolding add_targets
  add_targets-Within source seen [] n c w = w
  add_targets-Within source seen (x ∷ ts) n (h, c) w =
      let t = trim_space x in
      let n' = insert source (or_nil (lookup source n) ++ t ∷ []) n in
      elim (Bool-cases (is_empty t || mem t seen)) [
        | inl skip ↦ ground (arith, add_targets-Within source seen ts n c w)
        | inr keep ↦
            ground (arith, add_targets-Within source (t ∷ seen) ts n' c (add-Within source t n h w))
      ]

  add_sources-Within :
      (fallbacks n : Map Text (List Text))
      → AllTargetsConfigured models fallbacks
      → Within models n
      → Within models (add_sources fallbacks n)
  unfolding add_sources
  add_sources-Within [] n c w = w
  add_sources-Within ((source, ts) ∷ rest) n (h, c) w =
      let s = trim_space source in
      elim (Bool-cases (is_empty s)) [
        | inl skip ↦ rw (skip) (add_sources-Within rest n c w)
        | inr keep ↦
            rw (keep)
              (add_sources-Within rest (add_targets s [] ts n) c (add_targets-Within s [] ts n h w))
      ]

  no_sources-Within : Within models []
  unfolding mem lookup
  no_sources-Within = record { within = λ a b e. ground arith }

  validate_fallbacks-Within :
      (fallbacks : Map Text (List Text))
      → validate_fallbacks fallbacks models ≡ none
      → Within models (normalize_fallbacks fallbacks)
  unfolding validate_fallbacks normalize_fallbacks
  validate_fallbacks-Within fallbacks ok =
      elim (collect_sources models fallbacks [])
          as (λ r.
            Collected (λ _. AllTargetsConfigured models fallbacks) r
            → elim r [ fails e ↦ some e | passes n ↦ cycle_check (search_cycles models n) ] ≡ none
            → Within models (normalize_fallbacks fallbacks)) [
              | fails e ↦ λ c bad. absurd (ground arith)
              | passes n ↦ λ c good. add_sources-Within fallbacks [] c no_sources-Within
            ]
        (collect_sources-Targets models fallbacks []) ok

-- A fallback of an accepted configuration is a model of one of its backends.
check_routes-configured :
    (cfg : AiConfig) (r : Checked Seen)
    → Collected
        (λ seen.
          (m : Text) → has (lookup m seen.models) ≡ has (configured_backend m cfg.backends none))
        r
    → check_routes cfg.fallbacks r ≡ none
    → (model target : Text)
    → mem target (or_nil (lookup model (normalize_fallbacks cfg.fallbacks))) ≡ true
    → has (configured_backend target cfg.backends none) ≡ true
unfolding check_routes
check_routes-configured cfg (fails e) same ok = absurd (ground arith)
check_routes-configured cfg (passes seen) same ok = λ model target listed.
    let w = validate_fallbacks-Within seen.models cfg.fallbacks ok in
    sym (same target) ∙ w.within model target listed

module _ {F : Type 0} (p : Parsers F) (c : Config F) where
  routes-accepted :
      validate p c ≡ none
      → check_routes c.ai.fallbacks (check_backends p 0 c.ai.backends nothing_seen) ≡ none
  unfolding validate_ai
  routes-accepted ok = ground (arith, ai-accepted p c ok)

  backends-configured :
      Collected
        (λ seen.
          (m : Text) → has (lookup m seen.models) ≡ has (configured_backend m c.ai.backends none))
        (check_backends p 0 c.ai.backends nothing_seen)
  unfolding lookup
  backends-configured =
      check_backends-configured p 0 c.ai.backends nothing_seen (λ m. none) (λ m. refl)

  -- Every fallback of a model is served: once a configuration is accepted, each target that a new
  -- handler reads for a model from its fallbacks is a model that the handler knows.
  pub validate-targets :
      (metrics : Option (Map Text ℕ))
      → validate p c ≡ none
      → (model target : Text) → mem target (targets (new_handler c.ai metrics).routes model) ≡ true
      → is_configured (new_handler c.ai metrics).routes target ≡ true
  unfolding new_handler normalize_ai_config
  validate-targets metrics ok model target e = rw (new_handler-lookup c.ai metrics target) (
      check_routes-configured c.ai (check_backends p 0 c.ai.backends nothing_seen)
        backends-configured (routes-accepted ok) model target e)
