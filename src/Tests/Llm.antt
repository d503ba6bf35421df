-- ===== src/Tests/Llm.antt =====
-- The LLM adapter over servers and decoders that are given as lists.
use ai_developer_copilot_pla.Prelude.{
  ℕ, ◌≤◌, ◌≡◌, refl, arith, List, [], ◌∷◌, true, false, Option, none, some, pos, ◌↔◌, if◌then◌else◌,
}
use ai_developer_copilot_pla.Text.{Text, codes, eq_text}
use ai_developer_copilot_pla.Exn.{ok, raised, http_timeout, http_request, type_error}
use ai_developer_copilot_pla.Json.{
  Json, Fields, str, int, array, object, cons, nil, field, end, Runtime, to_str,
}
use ai_developer_copilot_pla.Http.{json_of, Request, Response, Server, NoTransport}
use ai_developer_copilot_pla.Llm.Reply.{reply}
use ai_developer_copilot_pla.Llm.Adapter.{
  LlmAdapter, Message, Options, chat_request, retries_exhausted, complete, LineEvent, line, broken,
  StreamResponse, stream,
}
use ai_developer_copilot_pla.Llm.Retries.{sent_after, complete_answered, complete_bounded}
use ai_developer_copilot_pla.Llm.Reference.{complete-concluded}
use ai_developer_copilot_pla.Llm.Streaming.{Says, token, blank, Reads, done, next, stream_complete}
use ai_developer_copilot_pla.Llm.Malformed.{
  Contains, IsSound, NoTransportEnd, reply_iff, stream-IsSound, stream_not_object,
}

abbrev only : Text → Json → Fields
only k v = field k v end

abbrev first_of : Json → Json
first_of v = array (cons v nil)

-- `{"choices": [{"message": {"content": "Hi"}}]}`.
abbrev greeting : Fields
greeting = only (codes "choices") (
    first_of (object (only (codes "message") (object (only (codes "content") (str (codes "Hi")))))))

-- `{"choices": [{"delta": {"content": "Hi"}}]}`.
abbrev greeting_delta : Fields
greeting_delta = only (codes "content") (str (codes "Hi"))

abbrev greeting_choice : Fields
greeting_choice = only (codes "delta") (object greeting_delta)

abbrev greeting_chunk : Fields
greeting_chunk = only (codes "choices") (first_of (object greeting_choice))

abbrev decode : List (Text × Json) → Text → Option Json
decode [] text = none
decode ((t, v) ∷ known) text = if eq_text t text then some v else decode known text

-- A decoder that knows three texts.
abbrev pub rt : Runtime
rt = record {
  loads = decode (
      (codes "greeting", object greeting)
      ∷ (codes "chunk", object greeting_chunk)
      ∷ (codes "7", int (pos 7))
      ∷ []);
  repr = λ v. [];
  trunc = λ x. ok (pos x);
  parse_int = λ t. none;
}

abbrev pub adapter : LlmAdapter
adapter = record { model = codes "gpt-4o"; max_retries = pos 3; client = 4 }

abbrev pub options : Options
options = record {
  system_prompt = some (codes "Be brief.");
  temperature = 0;
  max_tokens = some (pos 9);
}

abbrev pub messages : List Message
messages = ((codes "role", codes "user") ∷ (codes "content", codes "Hello") ∷ []) ∷ []

abbrev request : Request
request = chat_request adapter messages options false

abbrev accepted : Response
accepted = record { status_code = 200; text = codes "greeting"; content = some (codes "greeting") }

-- The first request of a client times out, and the later ones are answered.
abbrev slow_start : Server
slow_start [] r = raised (http_timeout (codes "slow"))
slow_start (s ∷ sent) r = ok accepted

abbrev silent : Server
silent sent r = raised (http_request (codes "refused"))

complete-concluded_example :
    complete rt slow_start adapter messages options [] ≡ (reply rt accepted, request ∷ request ∷ [])
complete-concluded_example = complete-concluded rt slow_start adapter messages options []

complete-silent_test : complete rt silent adapter messages options [] ≡ (
  raised (retries_exhausted (pos 3) (some (http_request (codes "refused")))),
  request ∷ request ∷ request ∷ [],
)
complete-silent_test = complete-concluded rt silent adapter messages options []

complete_answered_example :
    complete rt slow_start adapter messages options [] ≡ (reply rt accepted, request ∷ request ∷ [])
complete_answered_example =
    complete_answered rt slow_start adapter messages options [] 1
      (some (http_timeout (codes "slow"))) accepted (omega arith)
      (http_timeout (codes "slow"), refl, refl, refl) refl

complete_bounded_example :
    ((k : ℕ) × (k ≤ 3)
      × ((complete rt silent adapter messages options []).1 ≡ sent_after request k []))
    × NoTransport (complete rt silent adapter messages options []).0
complete_bounded_example = complete_bounded rt silent adapter messages options []

reply_iff_example : (reply rt accepted ≡ ok (codes "Hi")) ↔ (
    (accepted.status_code ≡ 200)
    × ((fs : Fields) × (v : Json) × (json_of rt accepted ≡ ok (object fs))
        × Contains fs v
        × (to_str rt v ≡ codes "Hi")))
reply_iff_example = reply_iff rt accepted (codes "Hi")

abbrev pub chunk_line : LineEvent
chunk_line = line (codes "data: chunk")

abbrev pub blank_line : LineEvent
blank_line = line []

greeting-Says : Says greeting_chunk (codes "Hi")
greeting-Says = record {
  choice = greeting_choice;
  others = nil;
  delta = greeting_delta;
  choices_at = refl;
  delta_at = refl;
  content_at = refl;
}

pub two_lines-Reads : Reads rt (chunk_line ∷ blank_line ∷ []) (codes "Hi" ∷ [] ∷ [])
two_lines-Reads =
    next (token (codes "chunk") (codes "Hi") greeting_chunk refl greeting-Says) (next blank done)

abbrev pub answer : List LineEvent → StreamResponse
answer lines = record { status_code = 200; body = ok []; lines = lines }

abbrev pub streaming : Request
streaming = chat_request adapter messages options true

stream_complete_example :
    stream rt (λ sent r. ok (answer (chunk_line ∷ blank_line ∷ []))) adapter messages options []
    ≡ (record { fragments = str (codes "Hi") ∷ []; failure = none }, streaming ∷ [])
stream_complete_example =
    stream_complete rt refl (λ sent r. ok (answer (chunk_line ∷ blank_line ∷ []))) adapter messages
      options [] (answer (chunk_line ∷ blank_line ∷ [])) (codes "Hi" ∷ [] ∷ []) refl refl
      two_lines-Reads

abbrev pub interrupted : List LineEvent
interrupted = chunk_line ∷ blank_line ∷ broken (http_timeout (codes "slow")) ∷ chunk_line ∷ []

stream-IsSound_example :
    ((stream rt (λ sent r. ok (answer interrupted)) adapter messages options []).1 ≡ streaming ∷ [])
    × IsSound (stream rt (λ sent r. ok (answer interrupted)) adapter messages options []).0
    × NoTransportEnd (stream rt (λ sent r. ok (answer interrupted)) adapter messages options []).0
stream-IsSound_example =
    stream-IsSound rt (λ sent r. ok (answer interrupted)) adapter messages options []

abbrev with_number : List LineEvent
with_number = chunk_line ∷ blank_line ∷ line (codes "data: 7") ∷ chunk_line ∷ []

stream_not_object_example :
    (stream rt (λ sent r. ok (answer with_number)) adapter messages options []).0
    ≡ record { fragments = str (codes "Hi") ∷ []; failure = some type_error }
stream_not_object_example =
    stream_not_object rt (λ sent r. ok (answer with_number)) adapter messages options [] refl
      (answer with_number) (chunk_line ∷ blank_line ∷ []) (chunk_line ∷ []) (codes "Hi" ∷ [] ∷ [])
      (codes "7") (int (pos 7)) refl refl refl two_lines-Reads refl refl
