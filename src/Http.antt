-- ===== src/Http.antt =====
-- The HTTP client that the adapters share. Their `httpx.AsyncClient` is a parameter: what a request
-- meets may depend on every request that was sent before it. A run keeps the requests that were
-- sent, in order.
use ai_developer_copilot_pla.Prelude.{
  ℕ, ◌≡◌, List, [], ◌∷◌, ◌++◌, Bool, true, false, Option, none, some,
}
use ai_developer_copilot_pla.Text.{Text}
use ai_developer_copilot_pla.Json.{Json, Runtime, loads}
use ai_developer_copilot_pla.Exn.{Exn, Result, ok, raised, http_timeout, http_request, value_error}
use ai_developer_copilot_pla.Exec.{Exec}

pub record Request : Type 0 where
  pub path : Text
  pub payload : Json

pub record Response : Type 0 where
  pub status_code : ℕ
  pub text : Text
  -- the body in the encoding that `json()` finds, if its bytes are of that encoding
  pub content : Option Text

-- `response.json()`. The `UnicodeDecodeError` of bytes that are not of their encoding is a `ValueError`,
-- but no `JSONDecodeError`.
abbrev pub decode_content : Runtime → Option Text → Result Json
decode_content rt none = raised value_error
decode_content rt (some text) = loads rt text

abbrev pub json_of : Runtime → Response → Result Json
json_of rt response = decode_content rt response.content

abbrev pub Sent : Type 0
Sent = List Request

-- `AsyncClient.post`, which returns a response or raises.
abbrev pub Server : Type 0
Server = Sent → Request → Result Response

abbrev pub post : Server → Request → Exec Sent Response
post server request sent = (server sent request, sent ++ request ∷ [])

-- `except httpx.TimeoutException` and `except httpx.RequestError` together.
abbrev pub is_transport : Exn → Bool
is_transport (http_timeout text) = true
is_transport (http_request text) = true
is_transport e = false

-- No timeout and no other transport error.
abbrev pub NoTransport {ℓ} : {A : Type ℓ} → Result A → Type 0
NoTransport (ok a) = Unit
NoTransport (raised e) = is_transport e ≡ false
