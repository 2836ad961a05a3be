-- ===== src/Handler.antt =====
-- The HTTP handler of the LLM routes (internal/llm/handler.go): the tables that `NewHandler` builds,
-- the checks of `ServeHTTP`, and the list of models.
pub mod Table
use agent.Base.{
  ℕ, ◌≡◌, Bool, true, false, not, Option, none, some, List, [], ◌∷◌, ◌++◌, if◌then◌else◌,
}
use agent.Num.{ℤ}
use agent.Text.{Text, text_eq, codes, is_empty, trim_space}
use agent.Map.{◌==◌, Map, lookup, insert, has}
use agent.Config.{AiConfig, ModelBackendConfig}
use agent.Config.Normalize.{normalize_ai_config, normalize_fallbacks}
use agent.Breaker.{CircuitBreaker, new_circuit_breaker}
use agent.Candidates.{Routes, ModelBackend, is_configured}
use agent.Proxy.{
  Header, Outside, Client, Exchange, ChatMessage, ChatCompletionRequest, reply_error, add_headers,
  json_headers, write_status, write_bytes,
}
use agent.Proxy.Upstream.{normalize_backend_type, chat_completions_url}
use agent.Proxy.Fallback.{Request, serve_with_fallback}

pub record ModelInfo : Type 0 where
  pub id : Text
  pub backend : Text

-- The fields of `Handler` that the configuration gives.
pub record Handler : Type 0 where
  pub routes : Routes
  pub models : List ModelInfo
  pub request_timeout : ℤ
  pub first_token_timeout : ℤ
  pub circuit_breaker : CircuitBreaker

abbrev pub is_mock : Text → Bool
is_mock type = type == codes "mock"

unfoldable pub make_backend : ModelBackendConfig → ModelBackend
make_backend cfg =
    let type = normalize_backend_type cfg.type in
    let url = if is_mock type then [] else chat_completions_url cfg.base_url in
    record { cfg = cfg; backend_type = type; chat_completions_url = url }

abbrev pub Tables : Type 0
Tables = Map Text ModelBackend × List ModelInfo

-- The loop over the models of one backend.
unfoldable pub add_models : ModelBackend → List Text → Tables → Tables
add_models backend [] t = t
add_models backend (m ∷ ms) (backends, models) =
    let model = trim_space m in
    let info : ModelInfo = record { id = model; backend = backend.cfg.name } in
    add_models backend ms (insert model backend backends, models ++ info ∷ [])

-- The loop over the backends.
unfoldable pub add_backend_models : List ModelBackendConfig → Tables → Tables
unfolding make_backend add_models
add_backend_models [] t = t
add_backend_models (cfg ∷ cfgs) t =
    add_backend_models cfgs (add_models (make_backend cfg) cfg.models t)

abbrev backend_names : List ModelBackendConfig → List Text
backend_names [] = []
backend_names (cfg ∷ cfgs) = cfg.name ∷ backend_names cfgs

unfoldable pub new_handler : AiConfig → Option (Map Text ℕ) → Handler
unfolding add_backend_models normalize_ai_config normalize_fallbacks new_circuit_breaker
new_handler cfg₀ metrics =
    let cfg = normalize_ai_config cfg₀ in
    let (backends, models) = add_backend_models cfg.backends ([], []) in
    record {
      routes = record { backends = backends; fallbacks = normalize_fallbacks cfg.fallbacks };
      models = models;
      request_timeout = cfg.request_timeout;
      first_token_timeout = cfg.first_token_timeout;
      circuit_breaker =
          new_circuit_breaker cfg.circuit_breaker (backend_names cfg.backends) metrics;
    }

-- `body` is `none` where it is too large or cannot be read.
pub record HttpRequest : Type 0 where
  pub method : Text
  pub header : Header
  pub body : Option Text

-- The decoding of a chat completion, and the text of the error for an unknown model: parameters.
pub record Codec : Type 0 where
  pub decode_chat : Text → Option ChatCompletionRequest
  pub unknown_model : Text → Text

abbrev invalid_request : Outside → ℕ → Text → Text → Exchange → Exchange
invalid_request o status message param e =
    reply_error o status message (codes "invalid_request_error") param e

abbrev allow_header : Text → Exchange → Exchange
allow_header method e = record e { client = add_headers ((codes "Allow", method) ∷ []) e.client }

abbrev pub no_messages : List ChatMessage → Bool
no_messages [] = true
no_messages (m ∷ ms) = false

-- The checks of a decoded request; `Model` is trimmed first.
unfoldable pub serve_chat :
    Outside
    → Codec
    → Routes
    → HttpRequest
    → Text
    → ChatCompletionRequest
    → Exchange
    → Option Exchange
unfolding serve_with_fallback
serve_chat o codec routes r raw_body chat₀ e =
    let model = trim_space chat₀.model in
    let chat = record chat₀ { model = model } in
    let request : Request = record { header = r.header; raw_body = raw_body; chat = chat } in
    if is_empty model
    then some (invalid_request o 400 (codes "model 不能为空") (codes "model") e)
    else if no_messages chat.messages
    then some (invalid_request o 400 (codes "messages 至少需要一条消息") (codes "messages") e)
    else if not (is_configured routes model)
    then some (invalid_request o 404 (codec.unknown_model model) (codes "model") e)
    else serve_with_fallback o routes request e

unfoldable pub decode_and_serve :
    Outside
    → Codec
    → Routes
    → HttpRequest
    → Text
    → Option ChatCompletionRequest
    → Exchange
    → Option Exchange
unfolding serve_chat
decode_and_serve o codec routes r raw_body none e =
    some (invalid_request o 400 (codes "请求体必须是有效 JSON") [] e)
decode_and_serve o codec routes r raw_body (some chat) e =
    serve_chat o codec routes r raw_body chat e

unfoldable pub read_and_serve :
    Outside → Codec → Routes → HttpRequest → Option Text → Exchange → Option Exchange
unfolding decode_and_serve
read_and_serve o codec routes r none e = some (invalid_request o 413 (codes "请求体过大或读取失败") [] e)
read_and_serve o codec routes r (some raw_body) e =
    decode_and_serve o codec routes r raw_body (codec.decode_chat raw_body) e

unfoldable pub serve_http : Outside → Codec → Routes → HttpRequest → Exchange → Option Exchange
unfolding read_and_serve
serve_http o codec routes r e =
    if not (r.method == codes "POST")
    then some (invalid_request o 405 (codes "仅支持 POST 方法") [] (allow_header (codes "POST") e))
    else read_and_serve o codec routes r r.body e

-- `modelData`, without the time of creation.
pub record ModelData : Type 0 where
  pub id : Text
  pub owned_by : Text

unfoldable pub model_data : List ModelInfo → List ModelData
model_data [] = []
model_data (m ∷ ms) = record { id = m.id; owned_by = m.backend } ∷ model_data ms

unfoldable pub list_models :
    Outside → (List ModelData → Text) → List ModelInfo → HttpRequest → Exchange → Exchange
unfolding model_data write_bytes
list_models o encode models r e =
    let w = write_status 200 (add_headers json_headers e.client) in
    if not (r.method == codes "GET")
    then invalid_request o 405 (codes "仅支持 GET 方法") [] (allow_header (codes "GET") e)
    else record e { client = (write_bytes (encode (model_data models)) w).0 }
