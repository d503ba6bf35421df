-- ===== src/Llm/Retries.antt =====
-- How often `complete` asks, and what it returns or raises.
use Prim.Native.Nat.add
use ai_developer_copilot_pla.Prelude.{
  ℕ, zero, suc, ◌+◌, inl, inr, Bool-cases, ◌-◌, ◌≤◌, ◌<◌, ◌≡◌, refl, ◌∙◌, List, [], ◌∷◌, ◌++◌, true,
  false, ◌⊎◌, Option, none, some, ℤ, pos_part, arith,
}
use ai_developer_copilot_pla.Text.{Text}
use ai_developer_copilot_pla.Exn.{Exn, Result, ok, raised, http_timeout, http_request, Result-cases}
use ai_developer_copilot_pla.Json.{Runtime}
use ai_developer_copilot_pla.Http.{Request, Response, Sent, Server, is_transport, NoTransport}
use ai_developer_copilot_pla.Exec.{Exec, handle}
use ai_developer_copilot_pla.Llm.Reply.{reply}
use ai_developer_copilot_pla.Llm.Adapter.{
  LlmAdapter, Message, Options, attempts, complete, chat_request, retries_exhausted, retry,
}

-- The requests sent when `request` has gone out `k` more times.
abbrev pub sent_after : Request → ℕ → Sent → Sent
sent_after request zero sent = sent
sent_after request (suc k) sent = sent_after request k (sent ++ request ∷ [])

-- The first `k` tries fail by a timeout or another transport error; the last of these errors is
-- `last` (if `k` is 0, the one before).
abbrev pub FailsFirst : Server → Request → ℕ → Sent → Option Exn → Option Exn → Type 0
FailsFirst server request zero sent before last = before ≡ last
FailsFirst server request (suc k) sent before last =
    (e : Exn) × (server sent request ≡ raised e)
    × (is_transport e ≡ true)
    × FailsFirst server request k (sent ++ request ∷ []) (some e) last

retry_decided :
    (next : Exn → Exec Sent Text) (r : Result Text) (sent : Sent)
    → NoTransport r
    → handle r sent (retry next) ≡ (r, sent)
retry_decided next (ok text) sent d = refl
retry_decided next (raised (http_timeout text)) sent d = cc
retry_decided next (raised (http_request text)) sent d = cc
retry_decided next (raised e) sent d = refl

module _ (rt : Runtime) (server : Server) (max_retries : ℤ) (request : Request) where
  abbrev next : ℕ → Exn → Exec Sent Text
  next rounds e = attempts rt server max_retries request rounds (some e)

  pub attempts_step :
      (k : ℕ) (e : Exn) (sent : Sent) (before : Option Exn)
      → server sent request ≡ raised e
      → is_transport e ≡ true
      → attempts rt server max_retries request (suc k) before sent
        ≡ attempts rt server max_retries request k (some e) (sent ++ request ∷ [])
  unfolding attempts
  attempts_step k (http_timeout text) sent before h t = rw h
  attempts_step k (http_request text) sent before h t = rw h
  attempts_step k e sent before h t = cc

  -- Failures by transport use up rounds and change nothing else.
  attempts-FailsFirst :
      (k rounds : ℕ) (sent : Sent) (before last : Option Exn)
      → FailsFirst server request k sent before last
      → attempts rt server max_retries request (k + rounds) before sent
        ≡ attempts rt server max_retries request rounds last (sent_after request k sent)
  attempts-FailsFirst zero rounds sent before last h = rw (add.zero, h)
  attempts-FailsFirst (suc k) rounds sent before last (e, h, t, rest) = rw add.suc (
      attempts_step (k + rounds) e sent before h t
      ∙ attempts-FailsFirst k rounds (sent ++ request ∷ []) (some e) last rest)

  attempts_exhausted :
      (rounds : ℕ) (sent : Sent) (before last : Option Exn)
      → FailsFirst server request rounds sent before last
      → attempts rt server max_retries request rounds before sent
        ≡ (raised (retries_exhausted max_retries last), sent_after request rounds sent)
  attempts_exhausted zero sent before last h = unfold attempts in rw h
  attempts_exhausted (suc k) sent before last (e, h, t, rest) =
      attempts_step k e sent before h t
      ∙ attempts_exhausted k (sent ++ request ∷ []) (some e) last rest

  -- No answer is taken for a transport error.
  reply-NoTransport : (response : Response) → NoTransport (reply rt response)
  unfolding reply
  reply-NoTransport response = ground arith

  pub attempts_answered :
      (rounds : ℕ) (sent : Sent) (before : Option Exn) (response : Response)
      → server sent request ≡ ok response
      → attempts rt server max_retries request (suc rounds) before sent
        ≡ (reply rt response, sent ++ request ∷ [])
  unfolding attempts
  attempts_answered rounds sent before response h = rw h (
      retry_decided (next rounds) (reply rt response) (sent ++ request ∷ [])
        (reply-NoTransport response))

  pub attempts_refused :
      (rounds : ℕ) (sent : Sent) (before : Option Exn) (e : Exn)
      → server sent request ≡ raised e
      → is_transport e ≡ false
      → attempts rt server max_retries request (suc rounds) before sent
        ≡ (raised e, sent ++ request ∷ [])
  unfolding attempts
  attempts_refused rounds sent before e h f =
      rw h (retry_decided (next rounds) (raised e) (sent ++ request ∷ []) f)

  -- A round asks once. Either it fails by transport and the next round goes on, or it decides.
  attempts-cases :
      (rounds : ℕ) (sent : Sent) (before : Option Exn)
      → ((e : Exn) × (server sent request ≡ raised e)
          × (is_transport e ≡ true)
          × (attempts rt server max_retries request (suc rounds) before sent
              ≡ attempts rt server max_retries request rounds (some e) (sent ++ request ∷ [])))
        ⊎ ((r : Result Text) × NoTransport r
            × (attempts rt server max_retries request (suc rounds) before sent
                ≡ (r, sent ++ request ∷ [])))
  attempts-cases rounds sent before = elim (Result-cases (server sent request)) [
    | inl (response, h) ↦ inr (
      reply rt response,
      reply-NoTransport response,
      attempts_answered rounds sent before response h,
    )
    | inr (e, h) ↦ elim (Bool-cases (is_transport e)) [
      | inl t ↦ inl (e, h, t, attempts_step rounds e sent before h t)
      | inr f ↦ inr (raised e, f, attempts_refused rounds sent before e h f)
    ]
  ]

  attempts_sent :
      (rounds : ℕ) (sent : Sent) (before : Option Exn)
      → (k : ℕ) × (k ≤ rounds)
        × ((attempts rt server max_retries request rounds before sent).1
            ≡ sent_after request k sent)
  attempts_sent zero sent before = unfold attempts in (0, omega arith, refl)
  attempts_sent (suc rounds) sent before = elim (attempts-cases rounds sent before) [
    | inl (e, h, t, step) ↦
        let (k, le, same) = attempts_sent rounds (sent ++ request ∷ []) (some e) in
        (suc k, omega arith, rw step same)
    | inr (r, d, step) ↦ (1, omega arith, rw step)
  ]

  attempts-NoTransport :
      (rounds : ℕ) (sent : Sent) (before : Option Exn)
      → NoTransport (attempts rt server max_retries request rounds before sent).0
  attempts-NoTransport zero sent before = unfold attempts in refl
  attempts-NoTransport (suc rounds) sent before = elim (attempts-cases rounds sent before) [
    | inl (e, h, t, step) ↦ rw step (attempts-NoTransport rounds (sent ++ request ∷ []) (some e))
    | inr (r, d, step) ↦ rw step d
  ]

module _ (rt : Runtime) (server : Server) (adapter : LlmAdapter) (messages : List Message)
    (options : Options) (sent : Sent) where
  abbrev pub body : Request
  body = chat_request adapter messages options false

  -- If the first `k` tries fail by timeouts or other transport errors and try number `k + 1` of the
  -- at most `max_retries` is answered, whatever its status, then `complete` has sent the one request
  -- `k + 1` times and its result is what that answer says: an answer is never asked for again.
  pub complete_answered :
      (k : ℕ) (last : Option Exn) (response : Response)
      → k < pos_part adapter.max_retries
      → FailsFirst server body k sent none last
      → server (sent_after body k sent) body ≡ ok response
      → complete rt server adapter messages options sent
        ≡ (reply rt response, sent_after body k sent ++ body ∷ [])
  unfolding complete
  complete_answered k last response lt h answer =
      let rounds : ℕ = pos_part adapter.max_retries - suc k in
      let total : pos_part adapter.max_retries ≡ k + suc rounds = omega arith in
      rw total (
        attempts-FailsFirst rt server adapter.max_retries body k (suc rounds) sent none last h
        ∙ attempts_answered rt server adapter.max_retries body rounds (sent_after body k sent) last
            response answer)

  -- If all of the `max_retries` tries fail by timeouts or other transport errors, `complete` has sent
  -- the request that often and raises an `LLMError` that names the last of them and has no status.
  -- With `max_retries` not positive it sends nothing and raises the same error with no exception.
  complete_exhausted :
      (last : Option Exn)
      → FailsFirst server body (pos_part adapter.max_retries) sent none last
      → complete rt server adapter messages options sent ≡ (
        raised (retries_exhausted adapter.max_retries last),
        sent_after body (pos_part adapter.max_retries) sent,
      )
  unfolding complete
  complete_exhausted last h =
      attempts_exhausted rt server adapter.max_retries body (pos_part adapter.max_retries) sent none
        last h

  -- Whatever the server does, `complete` sends nothing but copies of its request, at most
  -- `max_retries` of them, and no timeout and no other transport error comes out of it.
  pub complete_bounded :
      ((k : ℕ) × (k ≤ pos_part adapter.max_retries)
        × ((complete rt server adapter messages options sent).1 ≡ sent_after body k sent))
      × NoTransport (complete rt server adapter messages options sent).0
  unfolding complete
  complete_bounded = (
    attempts_sent rt server adapter.max_retries body (pos_part adapter.max_retries) sent none,
    attempts-NoTransport rt server adapter.max_retries body (pos_part adapter.max_retries) sent
        none,
  )
