-- ===== src/Handler/Table.antt =====
-- The routing tables of a handler (`NewHandler` of internal/llm/handler.go).
use agent.Base.{
  ℕ, ◌≡◌, refl, ap, ◌∙◌, Bool, false, ◌||◌, Option, none, some, List, [], ◌∷◌, ◌++◌, if◌then◌else◌,
  arith,
}
use agent.Text.{Text, text_eq, trim_space}
use agent.Map.{◌==◌, Map, lookup, insert, lookup-insert}
use agent.Config.{AiConfig, ModelBackendConfig}
use agent.Config.Normalize.{normalize_ai_config}
use agent.Candidates.{ModelBackend}
use agent.Handler.{ModelInfo, Tables, make_backend, add_models, add_backend_models, new_handler}

-- The backend of a model by the configuration: the last one that names it.
unfoldable pub serves : Text → List Text → Bool
serves model [] = false
serves model (m ∷ ms) = (trim_space m == model) || serves model ms

unfoldable pub configured_backend :
    Text → List ModelBackendConfig → Option ModelBackend → Option ModelBackend
unfolding serves
configured_backend model [] found = found
configured_backend model (cfg ∷ cfgs) found =
    configured_backend model cfgs
      (if serves model cfg.models then some (make_backend cfg) else found)

add_models-lookup :
    (model : Text) (backend : ModelBackend) (ms : List Text) (t : Tables)
    → lookup model (add_models backend ms t).0
      ≡ (if serves model ms then some backend else lookup model t.0)
unfolding add_models serves
add_models-lookup model backend [] t = refl
add_models-lookup model backend (m ∷ ms) (bs, infos) =
    let info : ModelInfo = record { id = trim_space m; backend = backend.cfg.name } in
    ground (
      arith,
      add_models-lookup model backend ms (insert (trim_space m) backend bs, infos ++ info ∷ []),
      lookup-insert model (trim_space m) backend bs,
    )

add_backend_models-lookup :
    (model : Text) (cfgs : List ModelBackendConfig) (t : Tables)
    → lookup model (add_backend_models cfgs t).0 ≡ configured_backend model cfgs (lookup model t.0)
unfolding add_backend_models configured_backend
add_backend_models-lookup model [] t = refl
add_backend_models-lookup model (cfg ∷ cfgs) t =
    add_backend_models-lookup model cfgs (add_models (make_backend cfg) cfg.models t)
    ∙ ap (configured_backend model cfgs) (add_models-lookup model (make_backend cfg) cfg.models t)

-- A new handler sends a model to the last backend of the configuration that names it, up to the space
-- around the name, and knows no other model.
pub new_handler-lookup :
    (cfg : AiConfig) (metrics : Option (Map Text ℕ)) (model : Text)
    → lookup model (new_handler cfg metrics).routes.backends
      ≡ configured_backend model cfg.backends none
unfolding new_handler normalize_ai_config lookup
new_handler-lookup cfg metrics model = add_backend_models-lookup model cfg.backends ([], [])
