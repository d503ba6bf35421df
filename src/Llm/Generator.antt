-- ===== src/Llm/Generator.antt =====
-- `LLMAdapter.stream` of backend/app/infrastructure/llm/llm_adapter.py as the asynchronous generator
-- that it is: its caller asks for one fragment after the other, and may close it at any time. What
-- `aclose` of the generator does is that of Python: it raises GeneratorExit at the `yield`, which no
-- clause of `stream` catches, and which leaves the `async with`.
use ai_developer_copilot_pla.Prelude.{
  ℕ, suc, List, [], ◌∷◌, ◌++◌, Option, none, some, ◌==◌, true, if◌then◌else◌,
}
use ai_developer_copilot_pla.Exn.{Exn, Result, ok, raised}
use ai_developer_copilot_pla.Json.{Json, Runtime}
use ai_developer_copilot_pla.Http.{Request, Sent}
use ai_developer_copilot_pla.Llm.Reply.{fragment}
use ai_developer_copilot_pla.Llm.Adapter.{
  LlmAdapter, Message, Options, LineEvent, line, broken, StreamResponse, wrap_failure,
  status_failure, chat_request,
}

-- Before its first fragment is asked for, at a `yield` with the lines that are left, and at its end.
pub data Generator : Type 0 where
  created : Generator
  suspended : List LineEvent → Generator
  finished : Generator

-- The requests sent, and how many of the responses were opened and closed.
pub record Wire : Type 0 where
  pub sent : Sent
  pub opened : ℕ
  pub closed : ℕ

-- What the caller gets: a fragment, StopAsyncIteration, or an exception.
pub data Answer : Type 0 where
  yields : Json → Answer
  stops : Answer
  raises : Exn → Answer

abbrev pub open_response : Wire → Wire
open_response w = record w { opened = suc w.opened }

abbrev pub close_response : Wire → Wire
close_response w = record w { closed = suc w.closed }

-- One round of the loop over the lines, with what the rounds behind it do.
abbrev pub or_next :
    Result (Option Json) → List LineEvent → Answer × List LineEvent → Answer × List LineEvent
or_next (ok none) events rest = rest
or_next (ok (some v)) events rest = (yields v, events)
or_next (raised e) events rest = (raises (wrap_failure e), events)

-- Out of the loop the response is closed.
abbrev pub leave : Answer × List LineEvent → Wire → Answer × Generator × Wire
leave (yields v, events) w = (yields v, suspended events, w)
leave (stops, events) w = (stops, finished, close_response w)
leave (raises e, events) w = (raises e, finished, close_response w)

module _ (rt : Runtime) where
  -- The loop over the lines up to the next `yield`.
  unfoldable pub pull : List LineEvent → Answer × List LineEvent
  pull [] = (stops, [])
  pull (line text ∷ events) = or_next (fragment rt text) events (pull events)
  pull (broken e ∷ events) = (raises (wrap_failure e), events)

  -- From the request to the first `yield`.
  abbrev pub begin : Result StreamResponse → Wire → Answer × Generator × Wire
  begin (ok response) w =
      if response.status_code == 200 then leave (pull response.lines) (open_response w) else (
        raises (wrap_failure (status_failure response.status_code response.body)),
        finished,
        close_response (open_response w),
      )
  begin (raised e) w = (raises (wrap_failure e), finished, w)

  module _ (server : Sent → Request → Result StreamResponse) (adapter : LlmAdapter)
      (messages : List Message) (options : Options) where
    -- `__anext__`.
    unfoldable pub ask : Generator → Wire → Answer × Generator × Wire
    unfolding pull
    ask created w =
        let request = chat_request adapter messages options true in
        begin (server w.sent request) (record w { sent = w.sent ++ request ∷ [] })
    ask (suspended events) w = leave (pull events) w
    ask finished w = (stops, finished, w)

-- `aclose`.
unfoldable pub aclose : Generator → Wire → Generator × Wire
aclose created w = (finished, w)
aclose (suspended events) w = (finished, close_response w)
aclose finished w = (finished, w)
