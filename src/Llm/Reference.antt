-- ===== src/Llm/Reference.antt =====
-- `complete` as a search through the answers of the server.
use ai_developer_copilot_pla.Prelude.{
  ℕ, zero, suc, ◌≡◌, refl, ◌∙◌, List, [], ◌∷◌, ◌++◌, Bool, Bool-cases, true, false, not, Option,
  none, some, ℤ, pos_part, if◌then◌else◌, inl, inr,
}
use mathlib.Core.Option
use ai_developer_copilot_pla.Text.{Text}
use ai_developer_copilot_pla.Exn.{Exn, Result, ok, raised, Result-cases}
use ai_developer_copilot_pla.Json.{Runtime}
use ai_developer_copilot_pla.Http.{Request, Response, Sent, Server, is_transport}
use ai_developer_copilot_pla.Llm.Reply.{reply}
use ai_developer_copilot_pla.Llm.Adapter.{
  LlmAdapter, Message, Options, attempts, complete, chat_request, retries_exhausted,
}
use ai_developer_copilot_pla.Llm.Retries.{
  sent_after, attempts_step, attempts_answered, attempts_refused,
}

-- What the server says to `n` copies of a request.
abbrev pub answers : Server → Request → ℕ → Sent → List (Result Response)
answers server request zero sent = []
answers server request (suc n) sent =
    server sent request ∷ answers server request n (sent ++ request ∷ [])

-- An answer that is not asked for again.
abbrev pub decides : Result Response → Bool
decides (ok response) = true
decides (raised e) = not (is_transport e)

abbrev one_later : ℕ × Result Response → ℕ × Result Response
one_later (k, r) = (suc k, r)

-- The first answer that decides, with its number.
abbrev pub decisive : List (Result Response) → Option (ℕ × Result Response)
decisive [] = none
decisive (r ∷ rest) = if decides r then some (1, r) else Option.map one_later (decisive rest)

abbrev pub last_error : Option Exn → List (Result Response) → Option Exn
last_error before [] = before
last_error before (ok response ∷ rest) = last_error before rest
last_error before (raised e ∷ rest) = last_error (some e) rest

module _ (rt : Runtime) (max_retries : ℤ) (request : Request) (n : ℕ) (sent : Sent) where
  -- What is made of it, with the requests that were sent.
  abbrev pub concluded : Option Exn → Option (ℕ × Result Response) → Result Text × Sent
  concluded last none = (raised (retries_exhausted max_retries last), sent_after request n sent)
  concluded last (some (k, ok response)) = (reply rt response, sent_after request k sent)
  concluded last (some (k, raised e)) = (raised e, sent_after request k sent)

module _ (rt : Runtime) (server : Server) (max_retries : ℤ) (request : Request) where
  concluded_later :
      (n : ℕ) (sent : Sent) (last : Option Exn) (found : Option (ℕ × Result Response))
      → concluded rt max_retries request n (sent ++ request ∷ []) last found
        ≡ concluded rt max_retries request (suc n) sent last (Option.map one_later found)
  concluded_later n sent last none = refl
  concluded_later n sent last (some (k, ok response)) = refl
  concluded_later n sent last (some (k, raised e)) = refl

  attempts-concluded :
      (n : ℕ) (sent : Sent) (before : Option Exn)
      → let replies = answers server request n sent in
        attempts rt server max_retries request n before sent
        ≡ concluded rt max_retries request n sent (last_error before replies) (decisive replies)
  attempts-concluded zero sent before = unfold attempts in refl
  attempts-concluded (suc n) sent before = elim (Result-cases (server sent request)) [
    | inl (response, h) ↦
        rw h (attempts_answered rt server max_retries request n sent before response h)
    | inr (e, h) ↦ elim (Bool-cases (is_transport e)) [
      | inl t ↦
          rw (h, t)
            (attempts_step rt server max_retries request n e sent before h t
              ∙ attempts-concluded n (sent ++ request ∷ []) (some e)
              ∙ concluded_later n sent
                  (last_error (some e) (answers server request n (sent ++ request ∷ [])))
                  (decisive (answers server request n (sent ++ request ∷ []))))
      | inr f ↦ rw (h, f) (attempts_refused rt server max_retries request n sent before e h f)
    ]
  ]

module _ (rt : Runtime) (server : Server) (adapter : LlmAdapter) (messages : List Message)
    (options : Options) (sent : Sent) where
  -- Whatever the server does: let `max_retries` copies of the request of `complete` be sent, none if
  -- it is not positive. The result of `complete` is what the first answer says that is no timeout and
  -- no other transport error, and it has sent no request behind that one; without such an answer it is
  -- the `LLMError` that names the last transport error, and all copies were sent.
  pub complete-concluded :
      let request = chat_request adapter messages options false in
      let n = pos_part adapter.max_retries in
      let replies = answers server request n sent in
      complete rt server adapter messages options sent
      ≡ concluded rt adapter.max_retries request n sent (last_error none replies) (decisive replies)
  unfolding complete
  complete-concluded =
      attempts-concluded rt server adapter.max_retries (chat_request adapter messages options false)
        (pos_part adapter.max_retries) sent none
