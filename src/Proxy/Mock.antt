-- ===== src/Proxy/Mock.antt =====
-- The mock backend (internal/llm/mock.go, with internal/llm/content.go and internal/llm/id.go).
use agent.Base.{
  ℕ, ◌+◌, ◌/◌, Bool, true, false, ◌||◌, Option, none, some, List, [], ◌∷◌, ◌++◌, if◌then◌else◌,
  length,
}
use agent.Num.{pos}
use agent.Text.{Text, text_eq, codes, is_empty, trim_space, join}
use agent.Map.{◌==◌}
use agent.Hex.{encode_hex}
use agent.Candidates.{ModelBackend}
use agent.Sse.{Sink, write_sse_data, split_text}
use agent.Proxy.{
  Outside, Client, Exchange, ChatMessage, ChatCompletionRequest, Completion, Chunk, backend_request,
  result_success, result_failure, json_headers, add_headers, write_status, write_bytes,
  write_openai_error, observe_metric,
}

unfoldable pub text_parts : List (Text × Text) → List Text
text_parts [] = []
text_parts ((type, text) ∷ parts) =
    let rest = text_parts parts in
    if is_empty type || (type == codes "text") then text ∷ rest else rest

unfoldable pub message_content_text : Outside → ChatMessage → Text
unfolding text_parts
message_content_text o message =
    let parts : Text = elim (o.parts_of_json message.content) [
      | none ↦ message.content
      | some ps ↦ join [] (text_parts ps)
    ] in
    let text : Text = elim (o.text_of_json message.content) [ none ↦ parts | some t ↦ t ] in
    if is_empty message.content then [] else text

unfoldable pub estimate_tokens : Text → ℕ
estimate_tokens text =
    let trimmed = trim_space text in if is_empty trimmed then 0 else length trimmed / 4 + 1

unfoldable pub estimate_prompt_tokens : Outside → List ChatMessage → ℕ
unfolding estimate_tokens
estimate_prompt_tokens o [] = 0
estimate_prompt_tokens o (m ∷ messages) =
    estimate_tokens m.role
    + estimate_tokens (message_content_text o m)
    + estimate_prompt_tokens o messages

-- The last message, and the last one of the user.
unfoldable pub last_message : (ChatMessage → Bool) → List ChatMessage → Option ChatMessage
last_message p [] = none
last_message p (m ∷ messages) = elim (last_message p messages) [
  | some found ↦ some found
  | none ↦ if p m then some m else none
]

abbrev text_of : Outside → Option ChatMessage → Text
text_of o none = []
text_of o (some m) = message_content_text o m

abbrev is_user : ChatMessage → Bool
is_user m = m.role == codes "user"

abbrev is_any : ChatMessage → Bool
is_any m = true

unfoldable pub mock_content : Outside → List ChatMessage → ModelBackend → Text
unfolding last_message
mock_content o messages backend =
    let user = text_of o (last_message is_user messages) in
    let last =
      if is_empty (trim_space user) then text_of o (last_message is_any messages) else user in
    let shown = if is_empty (trim_space last) then codes "空消息" else last in
    backend.cfg.name ++ codes " 已收到请求：" ++ shown

abbrev pub new_id : Outside → Text → Text
new_id o prefix = prefix ++ codes "-" ++ encode_hex o.random

abbrev chunk : Text → Text → Text → Text → Option Text → Chunk
chunk id model role content finish_reason = record {
  id = id;
  model = model;
  role = role;
  content = content;
  finish_reason = finish_reason;
}

-- The loop over the pieces, counted.
unfoldable pub stream_pieces : Outside → (Text → Chunk) → ℕ → List Text → Sink → Sink × Bool
unfolding write_sse_data
stream_pieces o chunk_of n [] w = (w, true)
stream_pieces o chunk_of n (piece ∷ pieces) w =
    let (w', ok) = write_sse_data (o.encode_chunk (chunk_of piece)) w in
    let rest = stream_pieces o chunk_of (n + 1) pieces w' in
    if o.left_at n then (w, false) else if ok then rest else (w', false)

abbrev stream_headers : List (Text × Text)
stream_headers =
    (codes "Content-Type", codes "text/event-stream; charset=utf-8")
    ∷ (codes "Cache-Control", codes "no-cache")
    ∷ (codes "Connection", codes "keep-alive")
    ∷ (codes "X-Accel-Buffering", codes "no")
    ∷ []

-- The chunks of `streamMock`: the role, the pieces, the finish reason, and the mark of the end.
unfoldable pub stream_chunks : Outside → Text → Text → Text → Sink → Sink × Bool
unfolding write_sse_data stream_pieces
stream_chunks o id model content w₀ =
    let (w₁, ok₁) =
      write_sse_data (o.encode_chunk (chunk id model (codes "assistant") [] none)) w₀ in
    let (w₂, ok₂) =
      stream_pieces o (λ piece. chunk id model [] piece none) 0 (split_text content (pos 12)) w₁ in
    let (w₃, ok₃) =
      write_sse_data (o.encode_chunk (chunk id model [] [] (some (codes "stop")))) w₂ in
    let last = write_sse_data (codes "[DONE]") w₃ in
    if ok₁ then if ok₂ then if ok₃ then last else (w₃, false) else (w₂, false) else (w₁, false)

unfoldable pub stream_mock : Outside → ChatCompletionRequest → ModelBackend → Client → Client × Bool
unfolding stream_chunks mock_content
stream_mock o req backend w =
    let content = mock_content o req.messages backend in
    let w₁ = write_status 200 (add_headers stream_headers w) in
    let (sink, ok) = stream_chunks o (new_id o (codes "chatcmpl")) req.model content w.sink in
    let refused =
      write_openai_error o 500 (codes "当前 HTTP writer 不支持流式刷新") (codes "server_error") [] w in
    if w.can_flush then (record w₁ { sink = sink }, ok) else (refused, false)

unfoldable pub answer_mock : Outside → ChatCompletionRequest → ModelBackend → Client → Client
unfolding mock_content estimate_prompt_tokens estimate_tokens write_bytes
answer_mock o req backend w =
    let content = mock_content o req.messages backend in
    let prompt = estimate_prompt_tokens o req.messages in
    let completion = estimate_tokens content in
    let answer : Completion = record {
      id = new_id o (codes "chatcmpl");
      model = req.model;
      content = content;
      prompt_tokens = prompt;
      completion_tokens = completion;
      total_tokens = prompt + completion;
    } in
    (write_bytes (o.encode_completion answer) (write_status 200 (add_headers json_headers w))).0

unfoldable pub serve_mock : Outside → ChatCompletionRequest → ModelBackend → Exchange → Exchange
unfolding stream_mock answer_mock observe_metric
serve_mock o req backend e =
    let name = backend.cfg.name in
    let (w, ok) = stream_mock o req backend e.client in
    let result = if ok then result_success else result_failure in
    if req.stream
    then observe_metric (backend_request name result) (record e { client = w })
    else observe_metric (backend_request name result_success)
        (record e { client = answer_mock o req backend e.client })
