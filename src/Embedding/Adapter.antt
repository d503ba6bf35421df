-- ===== src/Embedding/Adapter.antt =====
-- `EmbeddingAdapter` of backend/app/infrastructure/llm/embedding_adapter.py.
use ai_developer_copilot_pla.Prelude.{
  ℕ, zero, suc, ◌+◌, ◌/◌, List, [], ◌∷◌, ◌++◌, map, none, ℤ, pos, negsuc, length, take, drop,
}
use ai_developer_copilot_pla.Text.{Text, codes}
use ai_developer_copilot_pla.Exn.{
  Exn, Result, ok, raised, embedding, http_timeout, http_request, value_error, index_error,
}
use ai_developer_copilot_pla.Json.{Json, str, array, object, end, field, Runtime, to_items}
use ai_developer_copilot_pla.Http.{Request, Sent, Server, post}
use ai_developer_copilot_pla.Exec.{Exec, pure, raise, lift, ◌>>=◌, try_except}
use ai_developer_copilot_pla.Embedding.Reply.{reply}

-- The fields of the object; `client` names its `httpx.AsyncClient`.
pub record EmbeddingAdapter : Type 0 where
  pub model : Text
  pub batch_size : ℤ
  pub client : ℕ

abbrev pub embedding_request : EmbeddingAdapter → List Text → Request
embedding_request adapter texts = record {
  path = codes "/v1/embeddings";
  payload = object (
      field (codes "model") (str adapter.model)
        (field (codes "input") (array (to_items (map str texts))) end));
}

-- The two `except` clauses of `_embed_chunk`.
abbrev pub wrap_failure : Exn → Exn
wrap_failure (http_timeout text) =
    embedding
      (record { message = codes "Embedding request timed out: " ++ text; status_code = none })
wrap_failure (http_request text) =
    embedding (record { message = codes "Embedding request failed: " ++ text; status_code = none })
wrap_failure e = e

-- `range(start, stop, step)` with a positive step has (stop - start) / step members, rounded up.
abbrev pub count_up : ℕ → ℕ → ℕ → List ℕ
count_up zero start step = []
count_up (suc n) start step = start ∷ count_up n (start + step) step

-- `range(0, stop, step)`. A step of 0 is a `ValueError`, and with a negative step the range is
-- empty.
unfoldable pub range : ℕ → ℤ → Result (List ℕ)
range stop (pos zero) = raised value_error
range stop (pos (suc step)) = ok (count_up ((stop + step) / suc step) 0 (suc step))
range stop (negsuc step) = ok []

-- `texts[i : i + size]`. The size is positive where the loop has a round.
abbrev pub batch_at : ℤ → List Text → ℕ → List Text
batch_at (pos size) texts i = take size (drop i texts)
batch_at (negsuc size) texts i = []

abbrev pub first : List Json → Result Json
first [] = raised index_error
first (v ∷ vs) = ok v

module _ (rt : Runtime) (server : Server) (adapter : EmbeddingAdapter) where
  unfoldable pub embed_chunk : List Text → Exec Sent (List Json)
  embed_chunk texts = do
    response ←
        try_except (post server (embedding_request adapter texts)) (λ e. raise (wrap_failure e))
    lift (reply rt response)

  -- The loop over the starts of the batches.
  unfoldable pub embed_batches : List Text → List ℕ → List Json → Exec Sent (List Json)
  unfolding embed_chunk
  embed_batches texts [] all_embeddings = pure all_embeddings
  embed_batches texts (i ∷ starts) all_embeddings = do
    batch_embeddings ← embed_chunk (batch_at adapter.batch_size texts i)
    embed_batches texts starts (all_embeddings ++ batch_embeddings)

  unfoldable pub embed_batch : List Text → Exec Sent (List Json)
  unfolding embed_batches range
  embed_batch [] = pure []
  embed_batch (t ∷ texts) = do
    starts ← lift (range (length (t ∷ texts)) adapter.batch_size)
    embed_batches (t ∷ texts) starts []

  unfoldable pub embed : Text → Exec Sent Json
  unfolding embed_batch
  embed text = do results ← embed_batch (text ∷ []); lift (first results)
