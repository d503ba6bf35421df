-- ===== src/Llm/Asking.antt =====
-- What a caller of `stream` gets who asks for some of the fragments, or closes the generator.
use ai_developer_copilot_pla.Prelude.{
  ℕ, zero, suc, ◌≡◌, sym, ap, ◌∙◌, List, [], ◌∷◌, Option, none, some, ◌==◌, true, leb,
  if◌then◌else◌, arith, length, take, inl, inr, Option-cases, Bool-cases,
}
use ai_developer_copilot_pla.Exn.{Exn, Result, ok, raised, Result-cases}
use ai_developer_copilot_pla.Json.{Json, Runtime}
use ai_developer_copilot_pla.Http.{Request, Sent}
use ai_developer_copilot_pla.Llm.Reply.{fragment}
use ai_developer_copilot_pla.Llm.Adapter.{
  LlmAdapter, Message, Options, LineEvent, line, broken, StreamResponse, Stream, stream,
  stream_lines, read_response, wrap_stream, wrap_failure, chat_request,
}
use ai_developer_copilot_pla.Llm.Generator.{
  Generator, created, suspended, Wire, Answer, yields, stops, raises, pull, begin, ask,
  open_response,
}

-- What the caller has seen: the fragments, and how the generator ended, if it has.
pub record Seen : Type 0 where
  pub fragments : List Json
  pub ending : Option (Option Exn)

-- What a caller sees of a stream who asks `n` times.
abbrev pub seen : ℕ → Stream → Seen
seen n s = record {
  fragments = take n s.fragments;
  ending = if leb n (length s.fragments) then none else some s.failure;
}

abbrev prepend : Json → Seen → Seen
prepend v s = record s { fragments = v ∷ s.fragments }

module _ (rt : Runtime) (server : Sent → Request → Result StreamResponse) (adapter : LlmAdapter)
    (messages : List Message) (options : Options) where
  abbrev anext : Generator → Wire → Answer × Generator × Wire
  anext = ask rt server adapter messages options

  abbrev after_answer :
      (Generator → Wire → Seen × Generator × Wire)
      → Answer × Generator × Wire
      → Seen × Generator × Wire
  after_answer rest (yields v, g, w) = let (s, h, x) = rest g w in (prepend v s, h, x)
  after_answer rest (stops, g, w) = (record { fragments = []; ending = some none }, g, w)
  after_answer rest (raises e, g, w) = (record { fragments = []; ending = some (some e) }, g, w)

  -- Asking until the generator ends, `n` times at most.
  unfoldable pub asks : ℕ → Generator → Wire → Seen × Generator × Wire
  asks zero g w = (record { fragments = []; ending = none }, g, w)
  asks (suc n) g w = after_answer (asks n) (anext g w)

  seen_zero : (s : Stream) → seen 0 s ≡ record { fragments = []; ending = none }
  seen_zero s = ground arith

  seen_nothing :
      (n : ℕ) (end : Option Exn)
      → seen (suc n) (record { fragments = []; failure = end })
        ≡ record { fragments = []; ending = some end }
  seen_nothing n end = ground arith

  seen_more :
      (n : ℕ) (v : Json) (s : Stream)
      → seen (suc n) (record s { fragments = v ∷ s.fragments }) ≡ prepend v (seen n s)
  seen_more n v s = ground arith

  asks-suspended :
      (events : List LineEvent) (n : ℕ) (w : Wire)
      → (asks n (suspended events) w).0 ≡ seen n (wrap_stream (stream_lines rt events))
  unfolding asks ask pull stream_lines
  asks-suspended events zero w = sym (seen_zero _)
  asks-suspended [] (suc n) w = sym (seen_nothing n none)
  asks-suspended (broken e ∷ events) (suc n) w = sym (seen_nothing n (some (wrap_failure e)))
  asks-suspended (line text ∷ events) (suc n) w = elim (Result-cases (fragment rt text)) [
    | inl (found, h) ↦ elim (Option-cases found) [
      | inl nothing ↦ rw (h, nothing) (asks-suspended events (suc n) w)
      | inr (v, some_v) ↦
          rw (h, some_v)
            (ap (prepend v) (asks-suspended events n w)
              ∙ sym (seen_more n v (wrap_stream (stream_lines rt events))))
    ]
    | inr (e, h) ↦ rw h (sym (seen_nothing n (some (wrap_failure e))))
  ]

  begin-seen :
      (r : Result StreamResponse) (n : ℕ) (w : Wire)
      → (after_answer (asks n) (begin rt r w)).0 ≡ seen (suc n) (wrap_stream (read_response rt r))
  unfolding asks ask
  begin-seen (ok response) n w = elim (Bool-cases (response.status_code == 200)) [
    | inl good ↦ rw good (asks-suspended response.lines (suc n) (open_response w))
    | inr bad ↦ rw bad (sym (seen_nothing n _))
  ]
  begin-seen (raised e) n w = sym (seen_nothing n (some (wrap_failure e)))

  -- Whatever the server answers: a caller that asks a new generator `n` times, or until it ends,
  -- gets the first `n` fragments of the whole stream, and its end exactly if the caller asks more
  -- often than there are fragments.
  pub asks-stream :
      (n : ℕ) (w : Wire)
      → (asks n created w).0 ≡ seen n (stream rt server adapter messages options w.sent).0
  unfolding asks ask stream
  asks-stream zero w = sym (seen_zero _)
  asks-stream (suc n) w =
      begin-seen (server w.sent (chat_request adapter messages options true)) n _
