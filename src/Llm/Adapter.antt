-- ===== src/Llm/Adapter.antt =====
-- `LLMAdapter` of backend/app/infrastructure/llm/llm_adapter.py: the request body, `complete` and
-- `stream`.
use ai_developer_copilot_pla.Prelude.{
  ℕ, zero, suc, List, [], ◌∷◌, ◌++◌, map, Bool, true, false, Option, none, some, ℤ, pos_part, ◌==◌,
  if◌then◌else◌,
}
use mathlib.Core.Option
use ai_developer_copilot_pla.Text.{Text, codes, show_ℕ, show_int}
use ai_developer_copilot_pla.Exn.{Exn, Result, ok, raised, llm, http_timeout, http_request}
use ai_developer_copilot_pla.Json.{
  Json, str, int, float, boolean, array, object, end, field, Fields, Float, Runtime, to_items,
  to_fields,
}
use ai_developer_copilot_pla.Http.{Request, Sent, Server, post}
use ai_developer_copilot_pla.Exec.{Exec, raise, lift, ◌>>=◌, try_except}
use ai_developer_copilot_pla.Llm.Reply.{reply, fragment}

-- The fields of the object; `client` names its `httpx.AsyncClient`.
pub record LlmAdapter : Type 0 where
  pub model : Text
  pub max_retries : ℤ
  pub client : ℕ

abbrev pub Message : Type 0
Message = List (Text × Text)

abbrev pub with_system_prompt : Option Text → List Message → List Message
with_system_prompt none messages = messages
with_system_prompt (some []) messages = messages
with_system_prompt (some (c ∷ prompt)) messages =
    ((codes "role", codes "system") ∷ (codes "content", c ∷ prompt) ∷ []) ∷ messages

abbrev pub optional_max_tokens : Option ℤ → Fields
optional_max_tokens none = end
optional_max_tokens (some n) = field (codes "max_tokens") (int n) end

-- The keyword arguments of a call.
pub record Options : Type 0 where
  pub system_prompt : Option Text
  pub temperature : Float
  pub max_tokens : Option ℤ

unfoldable pub build_payload : LlmAdapter → List Message → Options → Bool → Json
build_payload adapter messages options stream =
    let conversation = with_system_prompt options.system_prompt messages in
    object (
      field (codes "model") (str adapter.model) (
        field (codes "messages") (array (to_items (map (λ m. object (to_fields m)) conversation))) (
          field (codes "temperature") (float options.temperature)
            (field (codes "stream") (boolean stream) (optional_max_tokens options.max_tokens)))))

abbrev pub chat_request : LlmAdapter → List Message → Options → Bool → Request
chat_request adapter messages options stream = record {
  path = codes "/v1/chat/completions";
  payload = build_payload adapter messages options stream;
}

-- `{last_exc}` in the last message. Only transport errors are stored there.
abbrev pub show_last : Option Exn → Text
show_last none = codes "None"
show_last (some (http_timeout text)) = text
show_last (some (http_request text)) = text
show_last (some e) = []

abbrev pub retries_exhausted : ℤ → Option Exn → Exn
retries_exhausted max_retries last_exc = llm (record {
  message =
      codes "LLM request failed after "
      ++ (show_int max_retries ++ (codes " retries: " ++ show_last last_exc));
  status_code = none;
})

-- The `except` clauses of a round, where `next` is the round after it. At the last round the loop
-- ends by itself, so `continue` and the end of the clause both go to `next`.
abbrev pub retry : (Exn → Exec Sent Text) → Exn → Exec Sent Text
retry next (http_timeout text) = next (http_timeout text)
retry next (http_request text) = next (http_request text)
retry next e = raise e

module _ (rt : Runtime) (server : Server) where
  -- The rounds that are left of `for attempt in range(self._max_retries)`.
  unfoldable pub attempts : ℤ → Request → ℕ → Option Exn → Exec Sent Text
  attempts max_retries request zero last_exc = raise (retries_exhausted max_retries last_exc)
  attempts max_retries request (suc rounds) last_exc =
      let next = λ (e : Exn). attempts max_retries request rounds (some e) in
      try_except (do response ← post server request; lift (reply rt response)) (retry next)

  unfoldable pub complete : LlmAdapter → List Message → Options → Exec Sent Text
  unfolding attempts
  complete adapter messages options =
      attempts adapter.max_retries (chat_request adapter messages options false)
        (pos_part adapter.max_retries) none

-- What `response.aiter_lines()` delivers next.
pub data LineEvent : Type 0 where
  line : Text → LineEvent
  broken : Exn → LineEvent

-- An answer to a streaming request: its status, its whole body for `aread` and `decode`, and its
-- lines.
pub record StreamResponse : Type 0 where
  pub status_code : ℕ
  pub body : Result Text
  pub lines : List LineEvent

-- What an asynchronous generator does: the fragments that it yields, and the exception that ends
-- it, if one does.
pub record Stream : Type 0 where
  pub fragments : List Json
  pub failure : Option Exn

abbrev pub before : Option Json → Stream → Stream
before none s = s
before (some v) s = record s { fragments = v ∷ s.fragments }

abbrev pub failed : Exn → Stream
failed e = record { fragments = []; failure = some e }

-- The two `except` clauses of `stream`.
abbrev pub wrap_failure : Exn → Exn
wrap_failure (http_timeout text) =
    llm (record { message = codes "LLM streaming request timed out"; status_code = none })
wrap_failure (http_request text) =
    llm (record { message = codes "LLM streaming connection failed: " ++ text; status_code = none })
wrap_failure e = e

abbrev pub wrap_stream : Stream → Stream
wrap_stream s = record s { failure = Option.map wrap_failure s.failure }

-- The answer to a request whose status is not 200.
abbrev pub status_failure : ℕ → Result Text → Exn
status_failure status (ok body) = llm (record {
  message = codes "LLM streaming error " ++ (show_ℕ status ++ (codes ": " ++ body));
  status_code = some status;
})
status_failure status (raised e) = e

abbrev pub then_rest : Result (Option Json) → Stream → Stream
then_rest (ok v) rest = before v rest
then_rest (raised e) rest = failed e

module _ (rt : Runtime) where
  unfoldable pub stream_lines : List LineEvent → Stream
  stream_lines [] = record { fragments = []; failure = none }
  stream_lines (line text ∷ events) = then_rest (fragment rt text) (stream_lines events)
  stream_lines (broken e ∷ events) = failed e

  abbrev pub read_response : Result StreamResponse → Stream
  read_response (ok response) =
      if response.status_code == 200
      then stream_lines response.lines
      else failed (status_failure response.status_code response.body)
  read_response (raised e) = failed e

  -- The whole of what one call of `stream` does if its caller asks for every fragment.
  unfoldable pub stream :
      (Sent → Request → Result StreamResponse)
      → LlmAdapter
      → List Message
      → Options
      → Sent
      → Stream × Sent
  unfolding stream_lines
  stream server adapter messages options sent =
      let request = chat_request adapter messages options true in
      (wrap_stream (read_response (server sent request)), sent ++ request ∷ [])
