-- ===== src/Usage/Same.antt =====
-- The estimate of a prompt that internal/tokenusage/usage.go reserves, and the one that
-- internal/llm/content.go makes for the mock backend's answer.
use agent.Base.{◌≡◌, refl, ap, Option, none, some, List, [], ◌∷◌, if◌then◌else◌}
use agent.Text.{Text, text_eq, is_empty, join}
use agent.Usage.{ContentPart, ContentJson, part_texts}
use agent.Usage
use agent.Proxy.{Outside}
use agent.Proxy
use agent.Proxy.Mock.{text_parts}
use agent.Proxy.Mock

abbrev pub parts_of : List (Text × Text) → List ContentPart
parts_of [] = []
parts_of ((type, text) ∷ ps) = record { type = type; text = text } ∷ parts_of ps

abbrev pub all_parts : Option (List (Text × Text)) → Option (List ContentPart)
all_parts none = none
all_parts (some ps) = some (parts_of ps)

-- The same decoding, as either package uses it.
unfoldable pub content_json : Outside → ContentJson
content_json o = record { as_text = o.text_of_json; as_parts = λ t. all_parts (o.parts_of_json t) }

abbrev pub usage_message : Proxy.ChatMessage → Usage.ChatMessage
usage_message m = record { role = m.role; content = m.content }

abbrev pub usage_messages : List Proxy.ChatMessage → List Usage.ChatMessage
usage_messages [] = []
usage_messages (m ∷ ms) = usage_message m ∷ usage_messages ms

part_texts-parts : (ps : List (Text × Text)) → part_texts (parts_of ps) ≡ text_parts ps
unfolding part_texts text_parts
part_texts-parts [] = refl
part_texts-parts ((type, text) ∷ ps) = rw (part_texts-parts ps) refl

abbrev usage_parts : Text → Option (List ContentPart) → Text
usage_parts content none = content
usage_parts content (some ps) = join [] (part_texts ps)

abbrev mock_parts : Text → Option (List (Text × Text)) → Text
mock_parts content none = content
mock_parts content (some ps) = join [] (text_parts ps)

parts_same :
    (content : Text) (o : Option (List (Text × Text)))
    → usage_parts content (all_parts o) ≡ mock_parts content o
parts_same content none = refl
parts_same content (some ps) = ap (join []) (part_texts-parts ps)

message_content_text-same :
    (o : Outside) (m : Proxy.ChatMessage)
    → Usage.message_content_text (content_json o) (usage_message m) ≡ Mock.message_content_text o m
unfolding Usage.message_content_text Mock.message_content_text content_json
message_content_text-same o m =
    ap
      (λ parts.
        if is_empty m.content
        then []
        else elim (o.text_of_json m.content) as (λ _. Text) [ some text ↦ text | none ↦ parts ])
      (parts_same m.content (o.parts_of_json m.content))

estimate_tokens-same : (text : Text) → Usage.estimate_tokens text ≡ Mock.estimate_tokens text
unfolding Usage.estimate_tokens Mock.estimate_tokens
estimate_tokens-same text = refl

-- The prompt that the budget reserves tokens for is estimated as the mock backend reports it: the two
-- copies of the estimate agree on all messages, for the same decoding of JSON.
pub estimate_prompt_tokens-same :
    (o : Outside) (ms : List Proxy.ChatMessage)
    → Usage.estimate_prompt_tokens (content_json o) (usage_messages ms)
      ≡ Mock.estimate_prompt_tokens o ms
unfolding Usage.estimate_prompt_tokens Mock.estimate_prompt_tokens
estimate_prompt_tokens-same o [] = refl
estimate_prompt_tokens-same o (m ∷ ms) =
    rw
      (
        estimate_tokens-same m.role,
        message_content_text-same o m,
        estimate_tokens-same (Mock.message_content_text o m),
        estimate_prompt_tokens-same o ms,
      )
      refl
