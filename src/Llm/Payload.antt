-- ===== src/Llm/Payload.antt =====
-- What the request body of `complete` and `stream` says when it is read back.
use mathlib.Core.Option
use ai_developer_copilot_pla.Prelude.{
  ◌≡◌, refl, List, [], ◌∷◌, ◌++◌, map, Bool, Option, none, some, arith,
}
use ai_developer_copilot_pla.Text.{Text, codes}
use ai_developer_copilot_pla.Json.{
  Json, str, int, float, boolean, array, object, get_field, from_items, to_fields,
  from_items-to_items,
}
use ai_developer_copilot_pla.Llm.Adapter.{
  LlmAdapter, Message, Options, build_payload, with_system_prompt,
}

-- `payload.get(k)`.
abbrev pub read : Json → Text → Option Json
read (object fs) k = get_field k fs
read v k = none

abbrev items_of : Option Json → List Json
items_of (some (array xs)) = from_items xs
items_of o = []

-- The messages that a body carries.
abbrev pub conversation : Json → List Json
conversation payload = items_of (read payload (codes "messages"))

abbrev pub message : Message → Json
message m = object (to_fields m)

-- The system message, if there is a prompt and it is not empty.
abbrev pub system_messages : Option Text → List Json
system_messages none = []
system_messages (some []) = []
system_messages (some (c ∷ prompt)) =
    message ((codes "role", codes "system") ∷ (codes "content", c ∷ prompt) ∷ []) ∷ []

map-with_system_prompt :
    (prompt : Option Text) (messages : List Message)
    → map message (with_system_prompt prompt messages)
      ≡ system_messages prompt ++ map message messages
map-with_system_prompt none messages = refl
map-with_system_prompt (some []) messages = refl
map-with_system_prompt (some (c ∷ prompt)) messages = refl

-- The body names the model, carries the system message if the prompt is there and not empty, then
-- the caller's messages in their order and nothing else, and has the temperature, the stream flag,
-- and a limit of tokens exactly if the caller gives one.
build_payload-read :
    (adapter : LlmAdapter) (messages : List Message) (options : Options) (stream : Bool)
    → let payload = build_payload adapter messages options stream in
      (read payload (codes "model") ≡ some (str adapter.model))
      × (conversation payload ≡ system_messages options.system_prompt ++ map message messages)
      × (read payload (codes "temperature") ≡ some (float options.temperature))
      × (read payload (codes "stream") ≡ some (boolean stream))
      × (read payload (codes "max_tokens") ≡ Option.map int options.max_tokens)
unfolding build_payload
build_payload-read adapter messages options stream = (
  refl,
  rw from_items-to_items (map-with_system_prompt options.system_prompt messages),
  refl,
  refl,
  ground arith,
)
