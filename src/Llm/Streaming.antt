-- ===== src/Llm/Streaming.antt =====
-- What `stream` yields, and how it ends.
use ai_developer_copilot_pla.Prelude.{
  ◌≡◌, refl, sym, ◌∙◌, ap, List, [], ◌∷◌, ◌++◌, true, false, Option, none, some, arith, append-nil,
  inl, inr, Bool-cases,
}
use ai_developer_copilot_pla.Text.{Text, codes, strip_prefix, eq_text, eq_text_sound}
use ai_developer_copilot_pla.Exn.{Exn, Result, ok}
use ai_developer_copilot_pla.Json.{
  Json, Items, Fields, str, array, object, cons, nil, Runtime, get_field,
}
use ai_developer_copilot_pla.Http.{Request, Sent}
use ai_developer_copilot_pla.Llm.Reply.{fragment}
use ai_developer_copilot_pla.Llm.Adapter.{
  LlmAdapter, Message, Options, LineEvent, line, StreamResponse, Stream, stream_lines, stream,
  read_response, before, chat_request,
}

-- A decoded chunk whose first choice has a delta with the text `t`, whatever else it holds.
pub record Says (chunk : Fields) (t : Text) : Type 0 where
  pub choice : Fields
  pub others : Items
  pub delta : Fields
  pub choices_at : get_field (codes "choices") chunk ≡ some (array (cons (object choice) others))
  pub delta_at : get_field (codes "delta") choice ≡ some (object delta)
  pub content_at : get_field (codes "content") delta ≡ some (str t)

-- The text that one line of the answer brings: that of its delta, and none for a blank line, the end
-- mark, a line of another field, a line that does not decode, and a chunk without choices.
pub data Brings (rt : Runtime) : Text → Text → Type 0 where
  token :
      (raw t : Text) (chunk : Fields)
      → rt.loads raw ≡ some (object chunk)
      → Says chunk t
      → Brings rt (codes "data: " ++ raw) t
  blank : Brings rt [] []
  end_mark : Brings rt (codes "data: [DONE]") []
  other_field : (l : Text) → strip_prefix (codes "data: ") l ≡ none → Brings rt l []
  undecodable : (raw : Text) → rt.loads raw ≡ none → Brings rt (codes "data: " ++ raw) []
  no_choices :
      (raw : Text) (chunk : Fields)
      → rt.loads raw ≡ some (object chunk)
      → get_field (codes "choices") chunk ≡ some (array nil)
      → Brings rt (codes "data: " ++ raw) []

-- What is yielded for a text: nothing if it is empty.
abbrev pub yielded : Text → Option Json
yielded [] = none
yielded (c ∷ t) = some (str (c ∷ t))

module _ (rt : Runtime) (no_json : rt.loads (codes "[DONE]") ≡ none) where
  pub not_end_mark :
      (raw : Text) (v : Json) → rt.loads raw ≡ some v → eq_text raw (codes "[DONE]") ≡ false
  not_end_mark raw v h = elim (Bool-cases (eq_text raw (codes "[DONE]"))) [
    | inl same ↦ cc (ap rt.loads (eq_text_sound raw (codes "[DONE]") same))
    | inr differ ↦ differ
  ]

  pub fragment-yielded : (l t : Text) → Brings rt l t → fragment rt l ≡ ok (yielded t)
  unfolding fragment
  fragment-yielded l t (token raw t' chunk h says) =
      rw (not_end_mark raw _ h) (ground (arith, says.choices_at, says.delta_at, says.content_at))
  fragment-yielded l t blank = refl
  fragment-yielded l t end_mark = refl
  fragment-yielded l t (other_field l' h) = ground arith
  fragment-yielded l t (undecodable raw h) = ground arith
  fragment-yielded l t (no_choices raw chunk h c) = ground arith

-- The texts that the lines of an answer bring, one for each line.
pub data Reads (rt : Runtime) : List LineEvent → List Text → Type 0 where
  done : Reads rt [] []
  next :
      {l t : Text} {events : List LineEvent} {texts : List Text}
      → Brings rt l t
      → Reads rt events texts
      → Reads rt (line l ∷ events) (t ∷ texts)

-- The texts that are not empty.
abbrev pub fragments_of : List Text → List Json
fragments_of [] = []
fragments_of ([] ∷ texts) = fragments_of texts
fragments_of ((c ∷ t) ∷ texts) = str (c ∷ t) ∷ fragments_of texts

abbrev pub prepend : List Json → Stream → Stream
prepend vs s = record s { fragments = vs ++ s.fragments }

module _ (rt : Runtime) (no_json : rt.loads (codes "[DONE]") ≡ none) where
  pub stream_lines-Reads :
      (events rest : List LineEvent) (texts : List Text)
      → Reads rt events texts
      → stream_lines rt (events ++ rest) ≡ prepend (fragments_of texts) (stream_lines rt rest)
  unfolding stream_lines
  stream_lines-Reads events rest texts done = refl
  stream_lines-Reads events rest texts (next {l} {t = []} {events = more} {texts = ts} b r) =
      rw (fragment-yielded rt no_json l [] b) (stream_lines-Reads more rest ts r)
  stream_lines-Reads events rest texts (next {l} {t = c ∷ t} {events = more} {texts = ts} b r) =
      rw (fragment-yielded rt no_json l (c ∷ t) b)
        (ap (before (some (str (c ∷ t)))) (stream_lines-Reads more rest ts r))

  read_response_accepted :
      (response : StreamResponse)
      → response.status_code ≡ 200
      → read_response rt (ok response) ≡ stream_lines rt response.lines
  read_response_accepted response h = ground arith

  pub read_response-Reads :
      (response : StreamResponse) (events rest : List LineEvent) (texts : List Text)
      → response.status_code ≡ 200
      → response.lines ≡ events ++ rest
      → Reads rt events texts
      → read_response rt (ok response) ≡ prepend (fragments_of texts) (stream_lines rt rest)
  read_response-Reads response events rest texts status lines r =
      read_response_accepted response status
      ∙ ap (stream_lines rt) lines
      ∙ stream_lines-Reads events rest texts r

  module _ (server : Sent → Request → Result StreamResponse) (adapter : LlmAdapter)
      (messages : List Message) (options : Options) (sent : Sent) where
    abbrev pub body : Request
    body = chat_request adapter messages options true

    -- If the server answers with status 200 and with lines that bring the given texts, `stream`
    -- yields exactly those of the texts that are not empty, in order, and ends without an exception.
    -- It assumes that the text of the end mark is no JSON.
    pub stream_complete :
        (response : StreamResponse) (texts : List Text)
        → server sent body ≡ ok response
        → response.status_code ≡ 200
        → Reads rt response.lines texts
        → stream rt server adapter messages options sent
          ≡ (record { fragments = fragments_of texts; failure = none }, sent ++ body ∷ [])
    unfolding stream
    stream_complete response texts h status r =
        rw (h, read_response-Reads response response.lines [] texts status (sym (append-nil _)) r)
          (rw append-nil)
