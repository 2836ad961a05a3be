-- ===== src/Proxy/Upstream.antt =====
-- The request to a backend (`newUpstreamRequest` and `resolveAPIKey` of internal/llm/proxy.go, and
-- internal/llm/backend.go).
use agent.Base.{ℕ, Bool, Option, none, some, List, [], ◌∷◌, ◌++◌, eqb, if◌then◌else◌}
use agent.Text.{Text, text_eq, codes, is_empty, trim_space, to_lower, has_suffix, trim_right_by}
use agent.Map.{mem}
use agent.Config.{ModelBackendConfig}
use agent.Candidates.{ModelBackend}
use agent.Proxy.{Header, get, Outside, UpstreamRequest}

unfoldable pub resolve_api_key : Outside → ModelBackendConfig → Text
resolve_api_key o cfg =
    let value = o.getenv cfg.api_key_env in
    if is_empty cfg.api_key_env then cfg.api_key else if is_empty value then cfg.api_key else value

abbrev passed_on : Text → Header → List (Text × Text)
passed_on key h = let value = get key h in if is_empty value then [] else (key, value) ∷ []

abbrev bearer : Text → Text × Text
bearer key = (codes "Authorization", codes "Bearer " ++ key)

abbrev authorization : Text → Header → List (Text × Text)
authorization key h =
    let own = passed_on (codes "Authorization") h in if is_empty key then own else bearer key ∷ []

-- `newUpstreamRequest` without the trace headers; `none` is its error.
unfoldable pub new_upstream_request :
    Outside → Header → Text → ModelBackend → Option UpstreamRequest
unfolding resolve_api_key
new_upstream_request o h raw_body backend =
    let lines =
      (codes "Content-Type", codes "application/json") ∷ passed_on (codes "Accept") h
      ++ passed_on (codes "OpenAI-Organization") h
      ++ passed_on (codes "OpenAI-Project") h
      ++ authorization (resolve_api_key o backend.cfg) h in
    let url = backend.chat_completions_url in
    if o.valid_url url then some (record { url = url; headers = lines; body = raw_body }) else none

unfoldable pub normalize_backend_type : Text → Text
normalize_backend_type value =
    let openai = codes "openai" ∷ codes "openai_compatible" ∷ codes "openai-compatible" ∷ [] in
    if mem (to_lower (trim_space value)) openai then codes "openai_compatible" else codes "mock"

abbrev is_slash : ℕ → Bool
is_slash c = eqb c 47

unfoldable pub chat_completions_url : Text → Text
chat_completions_url base_url =
    let base = trim_right_by is_slash (trim_space base_url) in
    if has_suffix base (codes "/chat/completions")
    then base
    else if has_suffix base (codes "/v1")
    then base ++ codes "/chat/completions"
    else base ++ codes "/v1/chat/completions"
