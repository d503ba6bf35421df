-- ===== src/Llm/Reply.antt =====
-- What `LLMAdapter.complete` and `LLMAdapter.stream` of
-- backend/app/infrastructure/llm/llm_adapter.py make of one answer, with no effect.
use ai_developer_copilot_pla.Prelude.{◌++◌, Option, none, some, ◌||◌, ◌==◌, if◌then◌else◌}
use ai_developer_copilot_pla.Text.{Text, codes, show_ℕ, eq_text, is_empty, strip_prefix}
use ai_developer_copilot_pla.Exn.{
  Result, ok, raised, llm, json_decode, key_error, index_error, ◌>>=◌,
}
use ai_developer_copilot_pla.Json.{
  Json, null, object, end, Runtime, at_key, at_zero, get_or, to_str, truthy, loads,
}
use ai_developer_copilot_pla.Http.{Response, json_of}

module _ (rt : Runtime) where
  -- The two statements behind the test of the status.
  abbrev pub content_of : Response → Result Text
  content_of response = do
    body ← json_of rt response
    choices ← at_key body (codes "choices")
    choice ← at_zero choices
    message ← at_key choice (codes "message")
    content ← at_key message (codes "content")
    ok (to_str rt content)

  -- The `try` block of `complete` once the request has been answered.
  unfoldable pub reply : Response → Result Text
  reply response =
      if response.status_code == 200
      then content_of response
      else raised (
          llm (record {
            message =
                codes "LLM API error "
                ++ (show_ℕ response.status_code ++ (codes ": " ++ response.text));
            status_code = some response.status_code;
          }))

  -- `except (json.JSONDecodeError, KeyError, IndexError): continue`. `none` yields nothing.
  abbrev pub skip_malformed : Result (Option Json) → Result (Option Json)
  skip_malformed (raised json_decode) = ok none
  skip_malformed (raised key_error) = ok none
  skip_malformed (raised index_error) = ok none
  skip_malformed r = r

  abbrev pub delta_content : Text → Result (Option Json)
  delta_content raw = do
    chunk ← loads rt raw
    choices ← at_key chunk (codes "choices")
    choice ← at_zero choices
    delta ← get_or choice (codes "delta") (object end)
    content ← get_or delta (codes "content") null
    ok (if truthy content then some content else none)

  abbrev data_line : Option Text → Result (Option Json)
  data_line none = ok none
  data_line (some raw) = skip_malformed (delta_content raw)

  -- The body of the loop over the lines: what it yields, or what it lets out.
  unfoldable pub fragment : Text → Result (Option Json)
  fragment line =
      if is_empty line || eq_text line (codes "data: [DONE]")
      then ok none
      else data_line (strip_prefix (codes "data: ") line)
