-- ===== src/Llm/Malformed.antt =====
-- What `complete` and `stream` make of answers that are not as the API documents them.
use ai_developer_copilot_pla.Prelude.{
  ◌≡◌, refl, ◌∙◌, ap, ◌↔◌, List, [], ◌∷◌, ◌++◌, Bool, true, false, Option, none, some, arith,
  append-nil, All, ◌==◌, ==_iff, inl, inr, Bool-cases,
}
use ai_developer_copilot_pla.Text.{Text, codes}
use ai_developer_copilot_pla.Exn.{Exn, Result, ok, raised, type_error, bind_ok}
use ai_developer_copilot_pla.Json.{
  Json, Items, Fields, array, object, cons, Runtime, get_field, truthy, to_str, at_key, at_zero,
  at_key-ok, at_zero-object,
}
use ai_developer_copilot_pla.Http.{Request, Response, Sent, json_of, is_transport}
use ai_developer_copilot_pla.Llm.Reply.{reply, fragment, delta_content, content_of}
use ai_developer_copilot_pla.Llm.Adapter.{
  LlmAdapter, Message, Options, LineEvent, line, broken, StreamResponse, Stream, stream_lines,
  stream, read_response, then_rest, wrap_stream, chat_request,
}
use ai_developer_copilot_pla.Llm.Streaming.{Reads, fragments_of, not_end_mark, read_response-Reads}

-- A decoded body whose first choice has a message with the content `v`, whatever else it holds.
pub record Contains (body : Fields) (v : Json) : Type 0 where
  pub choice : Fields
  pub others : Items
  pub message : Fields
  pub choices_at : get_field (codes "choices") body ≡ some (array (cons (object choice) others))
  pub message_at : get_field (codes "message") choice ≡ some (object message)
  pub content_at : get_field (codes "content") message ≡ some v

abbrev pub is_object : Json → Bool
is_object (object fs) = true
is_object v = false

abbrev pub IsSound : Stream → Type 0
IsSound s = All (λ v. truthy v ≡ true) s.fragments

then_rest-IsSound :
    (r : Result (Option Json)) (s : Stream)
    → ((v : Json) → r ≡ ok (some v) → truthy v ≡ true)
    → IsSound s
    → IsSound (then_rest r s)
then_rest-IsSound (ok none) s h sound = sound
then_rest-IsSound (ok (some v)) s h sound = (h v refl, sound)
then_rest-IsSound (raised e) s h sound = tt

-- The stream does not end by a timeout or another transport error.
abbrev EndIsNoTransport : Option Exn → Type 0
EndIsNoTransport none = Unit
EndIsNoTransport (some e) = is_transport e ≡ false

abbrev pub NoTransportEnd : Stream → Type 0
NoTransportEnd s = EndIsNoTransport s.failure

wrap_stream-NoTransportEnd : (s : Stream) → NoTransportEnd (wrap_stream s)
wrap_stream-NoTransportEnd s = ground arith

module _ (rt : Runtime) where
  reply_accepted :
      (response : Response) (body : Fields) (v : Json)
      → response.status_code ≡ 200
      → json_of rt response ≡ ok (object body)
      → Contains body v
      → reply rt response ≡ ok (to_str rt v)
  unfolding reply
  reply_accepted response body v status h c =
      ground (arith, c.choices_at, c.message_at, c.content_at)

  -- The end mark changes nothing: what `stream` does is the same with the line of the
  -- end mark anywhere among the lines, and the lines behind it are still read.
  stream_lines-end_mark :
      (before after : List LineEvent)
      → stream_lines rt (before ++ line (codes "data: [DONE]") ∷ after)
        ≡ stream_lines rt (before ++ after)
  unfolding stream_lines fragment
  stream_lines-end_mark [] after = refl
  stream_lines-end_mark (line text ∷ events) after =
      ap (then_rest (fragment rt text)) (stream_lines-end_mark events after)
  stream_lines-end_mark (broken e ∷ events) after = refl

  fragment-truthy : (text : Text) (v : Json) → fragment rt text ≡ ok (some v) → truthy v ≡ true
  unfolding fragment
  fragment-truthy text v h = ground arith

  stream_lines-IsSound : (events : List LineEvent) → IsSound (stream_lines rt events)
  unfolding stream_lines
  stream_lines-IsSound [] = tt
  stream_lines-IsSound (broken e ∷ events) = tt
  stream_lines-IsSound (line text ∷ events) =
      then_rest-IsSound (fragment rt text) (stream_lines rt events) (fragment-truthy text)
        (stream_lines-IsSound events)

  content_of-ok :
      (response : Response) (t : Text)
      → content_of rt response ≡ ok t
      → (body : Fields) × (v : Json) × (json_of rt response ≡ ok (object body))
        × Contains body v
        × (to_str rt v ≡ t)
  content_of-ok response t h =
      let (body, hb, h₁) = bind_ok (json_of rt response) _ t h in
      let (choices, hc, h₂) = bind_ok (at_key body (codes "choices")) _ t h₁ in
      let (choice, hz, h₃) = bind_ok (at_zero choices) _ t h₂ in
      let (message, hm, h₄) = bind_ok (at_key choice (codes "message")) _ t h₃ in
      let (v, hv, h₅) = bind_ok (at_key message (codes "content")) _ t h₄ in
      let (fs, is_fs, choices_at) = at_key-ok body (codes "choices") choices hc in
      let (cs, is_cs, message_at) = at_key-ok choice (codes "message") message hm in
      let (ms, is_ms, content_at) = at_key-ok message (codes "content") v hv in
      let (others, is_list) = at_zero-object choices cs (rw is_cs at hz) in
      (
        fs,
        v,
        hb ∙ ap ok is_fs,
        record {
          choice = cs;
          others = others;
          message = ms;
          choices_at = choices_at ∙ ap some is_list;
          message_at = message_at ∙ ap some is_ms;
          content_at = content_at;
        },
        cc,
      )

  read_response-IsSound : (r : Result StreamResponse) → IsSound (read_response rt r)
  read_response-IsSound (raised e) = tt
  read_response-IsSound (ok response) = elim (Bool-cases (response.status_code == 200)) [
    | inl same ↦ rw same (stream_lines-IsSound response.lines)
    | inr differ ↦ rw differ tt
  ]

  -- An answer is accepted exactly where its status is 200 and its body decodes to an object whose
  -- first choice has a message with a content; the result is then `str` of that content.
  pub reply_iff :
      (response : Response) (text : Text)
      → (reply rt response ≡ ok text) ↔ (
          (response.status_code ≡ 200)
          × ((body : Fields) × (v : Json) × (json_of rt response ≡ ok (object body))
              × Contains body v
              × (to_str rt v ≡ text)))
  unfolding reply
  reply_iff response text = (
    λ h. elim (Bool-cases (response.status_code == 200)) [
      | inl same ↦ ((==_iff _ _).0 same, content_of-ok response text (rw same at h))
      | inr differ ↦ cc (rw differ at h)
    ],
    λ (status, (body, v, h, c, e)). reply_accepted response body v status h c ∙ ap ok e,
  )

  pub chunk_refused :
      (raw : Text) (v : Json)
      → rt.loads raw ≡ some v
      → is_object v ≡ false
      → delta_content rt raw ≡ raised type_error
  chunk_refused raw v h n = ground arith

  module _ (server : Sent → Request → Result StreamResponse) (adapter : LlmAdapter)
      (messages : List Message) (options : Options) (sent : Sent) where
    -- Whatever the server does, `stream` sends one request, yields no fragment that is false for
    -- Python, and lets no timeout and no other transport error out of it.
    pub stream-IsSound :
        let (s, t) = stream rt server adapter messages options sent in
        (t ≡ sent ++ chat_request adapter messages options true ∷ []) × IsSound s × NoTransportEnd s
    unfolding stream
    stream-IsSound = (
      refl,
      read_response-IsSound (server sent (chat_request adapter messages options true)),
      wrap_stream-NoTransportEnd
          (read_response rt (server sent (chat_request adapter messages options true))),
    )

    -- If the server answers with status 200 and a line holds a JSON value that is no object, behind
    -- lines that bring the given texts, then `stream` yields those of the texts that are not empty and
    -- raises a `TypeError`: it does not skip the line. It assumes that the text of the end mark is no
    -- JSON.
    pub stream_not_object :
        rt.loads (codes "[DONE]") ≡ none
        → (response : StreamResponse) (events rest : List LineEvent) (texts : List Text)
          (raw : Text) (v : Json)
        → server sent (chat_request adapter messages options true) ≡ ok response
        → response.status_code ≡ 200
        → response.lines ≡ events ++ line (codes "data: " ++ raw) ∷ rest
        → Reads rt events texts
        → rt.loads raw ≡ some v
        → is_object v ≡ false
        → (stream rt server adapter messages options sent).0
          ≡ record { fragments = fragments_of texts; failure = some type_error }
    unfolding stream fragment
    stream_not_object no_json response events rest texts raw v h status lines r decoded scalar =
        rw
          (
            h,
            read_response-Reads rt no_json response events _ texts status lines r,
            not_end_mark rt no_json raw v decoded,
            chunk_refused raw v decoded scalar,
          )
          (rw append-nil)
