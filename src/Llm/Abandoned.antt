-- ===== src/Llm/Abandoned.antt =====
-- The connection behind a stream whose caller asks and closes as it likes.
use ai_developer_copilot_pla.Prelude.{
  ℕ, ◌+◌, ◌≤◌, ◌≡◌, refl, List, [], ◌∷◌, ◌++◌, ◌==◌, true, arith, inl, inr, ◌⊎◌, Bool-cases, Reach,
  Reach-invariant,
}
use ai_developer_copilot_pla.Exn.{Result, ok, raised}
use ai_developer_copilot_pla.Json.{Runtime}
use ai_developer_copilot_pla.Http.{Request, Sent}
use ai_developer_copilot_pla.Llm.Adapter.{
  LlmAdapter, Message, Options, LineEvent, StreamResponse, chat_request,
}
use ai_developer_copilot_pla.Llm.Generator.{
  Generator, created, suspended, finished, Wire, Answer, yields, stops, raises, leave, pull, begin,
  ask, aclose, open_response,
}

-- The responses that a generator keeps open.
abbrev pub held : Generator → ℕ
held created = 0
held (suspended events) = 1
held finished = 0

abbrev pub behind : Answer × Generator × Wire → Generator × Wire
behind (answer, g, w) = (g, w)

module _ (rt : Runtime) (server : Sent → Request → Result StreamResponse) (adapter : LlmAdapter)
    (messages : List Message) (options : Options) (sent : Sent) where
  -- One call of the caller, from a generator and the connection to those behind it.
  pub data Call (s t : Generator × Wire) : Type 0 where
    asks_next : t ≡ behind (ask rt server adapter messages options s.0 s.1) → Call s t
    closes : t ≡ aclose s.0 s.1 → Call s t

  -- `sent` are the requests of the adapter before the generator.
  abbrev pub start : Generator × Wire
  start = (created, record { sent = sent; opened = 0; closed = 0 })

  abbrev pub asked_for : Sent
  asked_for = sent ++ chat_request adapter messages options true ∷ []

  abbrev IsKept : Generator → Wire → Type 0
  IsKept created w = (w.sent ≡ sent) × (w.opened ≡ 0) × (w.closed ≡ 0)
  IsKept (suspended events) w = (w.sent ≡ asked_for) × (w.opened ≡ 1) × (w.closed ≡ 0)
  IsKept finished w =
      (w.opened ≡ w.closed) × (w.opened ≤ 1) × ((w.sent ≡ sent) ⊎ (w.sent ≡ asked_for))

  leave-IsKept :
      (found : Answer × List LineEvent) (w : Wire)
      → (w.sent ≡ asked_for) × (w.opened ≡ 1) × (w.closed ≡ 0)
      → IsKept (leave found w).1 (leave found w).2
  leave-IsKept (yields v, events) w h = h
  leave-IsKept (stops, events) w (e, o, c) = (omega arith, omega arith, inr e)
  leave-IsKept (raises x, events) w (e, o, c) = (omega arith, omega arith, inr e)

  begin-IsKept :
      (r : Result StreamResponse) (w : Wire)
      → (w.sent ≡ asked_for) × (w.opened ≡ 0) × (w.closed ≡ 0)
      → IsKept (begin rt r w).1 (begin rt r w).2
  begin-IsKept (ok response) w (e, o, c) = elim (Bool-cases (response.status_code == 200)) [
    | inl good ↦
        rw good
          (leave-IsKept (pull rt response.lines) (open_response w) (e, omega arith, omega arith))
    | inr bad ↦ rw bad (omega arith, omega arith, inr e)
  ]
  begin-IsKept (raised x) w (e, o, c) = (omega arith, omega arith, inr e)

  ask-IsKept :
      (g : Generator) (w : Wire)
      → IsKept g w
      → IsKept
          (ask rt server adapter messages options g w).1
          (ask rt server adapter messages options g w).2
  unfolding ask
  ask-IsKept created w (e, o, c) =
      begin-IsKept (server w.sent (chat_request adapter messages options true)) _ (rw e, o, c)
  ask-IsKept (suspended events) w h = leave-IsKept (pull rt events) w h
  ask-IsKept finished w h = h

  aclose-IsKept : (g : Generator) (w : Wire) → IsKept g w → IsKept (aclose g w).0 (aclose g w).1
  unfolding aclose
  aclose-IsKept created w (e, o, c) = (omega arith, omega arith, inl e)
  aclose-IsKept (suspended events) w (e, o, c) = (omega arith, omega arith, inr e)
  aclose-IsKept finished w h = h

  Call-IsKept : (s t : Generator × Wire) → Call s t → IsKept s.0 s.1 → IsKept t.0 t.1
  Call-IsKept s t (asks_next e) h = rw e (ask-IsKept s.0 s.1 h)
  Call-IsKept s t (closes e) h = rw e (aclose-IsKept s.0 s.1 h)

  abbrev pub IsTidy : Generator × Wire → Type 0
  IsTidy s =
      (s.1.opened ≡ s.1.closed + held s.0)
      × (s.1.opened ≤ 1)
      × ((s.1.sent ≡ sent) ⊎ (s.1.sent ≡ asked_for))

  IsKept-IsTidy : (g : Generator) (w : Wire) → IsKept g w → IsTidy (g, w)
  IsKept-IsTidy created w (e, o, c) = (omega arith, omega arith, inl e)
  IsKept-IsTidy (suspended events) w (e, o, c) = (omega arith, omega arith, inr e)
  IsKept-IsTidy finished w (c, o, e) = (omega arith, o, e)

  -- Whatever the server answers, and in whatever order the caller asks for fragments and closes the
  -- generator: one request was sent at most, one response was opened at most, and it is open only
  -- while the generator stands at a `yield`; at its end, after an exception, and once it was closed,
  -- the response is closed.
  pub calls-IsTidy : (s : Generator × Wire) → Reach Call start s → IsTidy s
  calls-IsTidy s reached =
      IsKept-IsTidy s.0 s.1
        (Reach-invariant Call (λ t. IsKept t.0 t.1) Call-IsKept reached (refl, refl, refl))
