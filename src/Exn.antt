-- ===== src/Exn.antt =====
-- The exceptions that the backend raises, wraps or lets pass, as one data type, and the outcome of
-- a call. The classes are those of Python, asyncio, httpx and botocore that its `except` clauses
-- tell apart, and the three error classes that it declares itself (infrastructure/llm/
-- llm_adapter.py, infrastructure/llm/embedding_adapter.py,
-- infrastructure/storage/object_storage_adapter.py).
use ai_developer_copilot_pla.Prelude.{◌≡◌, refl, ◌⊎◌, inl, inr, ℕ, Bool, true, false, Option, List}
use ai_developer_copilot_pla.Text.{Text}

-- `class LLMError`: message and status code.
pub record LlmError : Type 0 where
  pub message : Text
  pub status_code : Option ℕ

-- `class EmbeddingError`.
pub record EmbeddingError : Type 0 where
  pub message : Text
  pub status_code : Option ℕ

-- `class ObjectStorageError`.
pub record ObjectStorageError : Type 0 where
  pub message : Text
  pub operation : Text
  pub key : Text

pub data Exn : Type 0 where
  llm : LlmError → Exn
  embedding : EmbeddingError → Exn
  object_storage : ObjectStorageError → Exn
  -- `httpx.TimeoutException`, a subclass of `httpx.RequestError`
  http_timeout : Text → Exn
  -- any other `httpx.RequestError`
  http_request : Text → Exn
  boto_core : Text → Exn
  -- botocore's `ClientError`: its error code and its text
  client : Text → Text → Exn
  -- pydantic's `ValidationError`, with the fields that are refused
  validation : List Text → Exn
  json_decode key_error index_error type_error attribute_error value_error : Exn
  not_implemented : Text → Exn
  runtime : Text → Exn
  assertion : Text → Exn
  -- asyncio's `TimeoutError`
  timed_out : Exn
  -- any other subclass of `Exception`
  other : Text → Exn
  -- asyncio's `CancelledError`, which is no `Exception`
  cancelled : Exn
  -- `KeyboardInterrupt`, `SystemExit`, `GeneratorExit`, which are none either
  exit : Text → Exn

-- What `except Exception` catches.
abbrev pub is_exception : Exn → Bool
is_exception cancelled = false
is_exception (exit why) = false
is_exception _ = true

pub data Result {ℓ} (A : Type ℓ) : Type ℓ where
  ok : A → Result A
  raised : Exn → Result A

module _ {ℓ κ} {A : Type ℓ} {B : Type κ} where
  infixl 10 ◌>>=◌
  abbrev pub ◌>>=◌ : Result A → (A → Result B) → Result B
  ok a >>= f = f a
  raised e >>= f = raised e

pub Result-cases {ℓ} :
    {A : Type ℓ} (r : Result A) → ((a : A) × (r ≡ ok a)) ⊎ ((e : Exn) × (r ≡ raised e))
Result-cases (ok a) = inl (a, refl)
Result-cases (raised e) = inr (e, refl)

pub bind_ok {ℓ κ} :
    {A : Type ℓ} {B : Type κ} (m : Result A) (f : A → Result B) (b : B)
    → (m >>= f) ≡ ok b
    → (a : A) × (m ≡ ok a) × (f a ≡ ok b)
bind_ok (ok a) f b h = (a, refl, h)
bind_ok (raised e) f b h = cc
