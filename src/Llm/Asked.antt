-- ===== src/Llm/Asked.antt =====
-- What a caller of `stream` gets who asks for some of its fragments, from the lines of the answer.
use ai_developer_copilot_pla.Prelude.{
  ℕ, ◌≡◌, refl, ◌∙◌, ap, List, [], ◌∷◌, ◌++◌, true, false, Option, none, some, leb, if◌then◌else◌,
  length, take, append-nil,
}
use ai_developer_copilot_pla.Text.{Text, codes}
use ai_developer_copilot_pla.Exn.{Exn, Result, ok, llm, http_timeout, http_request, type_error}
use ai_developer_copilot_pla.Json.{Json, Runtime}
use ai_developer_copilot_pla.Http.{Request, Sent, is_transport}
use ai_developer_copilot_pla.Llm.Reply.{fragment}
use ai_developer_copilot_pla.Llm.Adapter.{
  LlmAdapter, Message, Options, LineEvent, line, broken, StreamResponse, stream, stream_lines,
  wrap_stream, wrap_failure, chat_request,
}
use ai_developer_copilot_pla.Llm.Generator.{created, Wire}
use ai_developer_copilot_pla.Llm.Streaming.{
  Reads, fragments_of, prepend, not_end_mark, read_response-Reads,
}
use ai_developer_copilot_pla.Llm.Malformed.{is_object, chunk_refused}
use ai_developer_copilot_pla.Llm.Asking.{seen, asks, asks-stream}

-- How the lines of an answer end, and what the caller gets then: StopAsyncIteration, or an exception.
pub data Ends (rt : Runtime) : List LineEvent → Option Exn → Type 0 where
  all_read : Ends rt [] none
  times_out :
      (text : Text) (rest : List LineEvent)
      → Ends rt (broken (http_timeout text) ∷ rest) (
          some (
            llm (record { message = codes "LLM streaming request timed out"; status_code = none })))
  breaks_off :
      (text : Text) (rest : List LineEvent)
      → Ends rt (broken (http_request text) ∷ rest) (
          some (
            llm (record {
              message = codes "LLM streaming connection failed: " ++ text;
              status_code = none;
            })))
  breaks_otherwise :
      (e : Exn) (rest : List LineEvent)
      → is_transport e ≡ false
      → Ends rt (broken e ∷ rest) (some e)
  no_object :
      (raw : Text) (v : Json) (rest : List LineEvent)
      → rt.loads raw ≡ some v
      → is_object v ≡ false
      → Ends rt (line (codes "data: " ++ raw) ∷ rest) (some type_error)

wrap_other : (e : Exn) → is_transport e ≡ false → wrap_failure e ≡ e
wrap_other (http_timeout text) h = cc
wrap_other (http_request text) h = cc
wrap_other e h = refl

module _ (rt : Runtime) (no_json : rt.loads (codes "[DONE]") ≡ none) where
  stream_lines-Ends :
      (rest : List LineEvent) (failure : Option Exn)
      → Ends rt rest failure
      → wrap_stream (stream_lines rt rest) ≡ record { fragments = []; failure = failure }
  unfolding stream_lines fragment
  stream_lines-Ends rest failure all_read = refl
  stream_lines-Ends rest failure (times_out text more) = refl
  stream_lines-Ends rest failure (breaks_off text more) = refl
  stream_lines-Ends rest failure (breaks_otherwise e more h) = rw (wrap_other e h)
  stream_lines-Ends rest failure (no_object raw v more decoded scalar) =
      rw (not_end_mark rt no_json raw v decoded, chunk_refused rt raw v decoded scalar)

  module _ (server : Sent → Request → Result StreamResponse) (adapter : LlmAdapter)
      (messages : List Message) (options : Options) (w : Wire) where
    stream-Ends :
        (response : StreamResponse) (events rest : List LineEvent) (texts : List Text)
        (failure : Option Exn)
        → server w.sent (chat_request adapter messages options true) ≡ ok response
        → response.status_code ≡ 200
        → response.lines ≡ events ++ rest
        → Reads rt events texts
        → Ends rt rest failure
        → (stream rt server adapter messages options w.sent).0
          ≡ record { fragments = fragments_of texts; failure = failure }
    unfolding stream
    stream-Ends response events rest texts failure h status lines r ends =
        rw (h, read_response-Reads rt no_json response events rest texts status lines r)
          (ap (prepend (fragments_of texts)) (stream_lines-Ends rest failure ends) ∙ rw append-nil)

    -- If the server answers with status 200, with lines that bring the given texts, and then ends,
    -- breaks off or sends a value that is no object: a caller that asks a new generator `n` times gets
    -- the first `n` of the texts that are not empty. The end, an `LLMError` in place of a timeout or
    -- another transport error, comes exactly if the caller asks more often than there are such texts,
    -- so that what stands behind the last text asked for is never met. It assumes that the text of the
    -- end mark is no JSON.
    pub asks-Reads :
        (response : StreamResponse) (events rest : List LineEvent) (texts : List Text)
        (failure : Option Exn)
        → server w.sent (chat_request adapter messages options true) ≡ ok response
        → response.status_code ≡ 200
        → response.lines ≡ events ++ rest
        → Reads rt events texts
        → Ends rt rest failure
        → (n : ℕ)
        → (asks rt server adapter messages options n created w).0 ≡ record {
          fragments = take n (fragments_of texts);
          ending = if leb n (length (fragments_of texts)) then none else some failure;
        }
    asks-Reads response events rest texts failure h status lines r ends n =
        asks-stream rt server adapter messages options n w
        ∙ ap (seen n) (stream-Ends response events rest texts failure h status lines r ends)
