-- ===== src/Embedding/Short.antt =====
-- Answers of the API that hold no entry.
use ai_developer_copilot_pla.Prelude.{ℕ, suc, ◌+◌, ◌/◌, ◌≡◌, refl, List, [], ◌∷◌, some, pos, length}
use ai_developer_copilot_pla.Text.{Text, codes}
use ai_developer_copilot_pla.Exn.{Result, ok, raised, index_error}
use ai_developer_copilot_pla.Json.{Json, Fields, array, nil, Runtime, object, get_field}
use ai_developer_copilot_pla.Exec.{resume, lift}
use ai_developer_copilot_pla.Http.{json_of, Request, Response, Sent, Server}
use ai_developer_copilot_pla.Embedding.Reply.{reply}
use ai_developer_copilot_pla.Embedding.Adapter.{
  EmbeddingAdapter, embed_chunk, embed_batches, embed_batch, embed, range, count_up, first,
  batch_at,
}

-- The status is 200, and the data of the body are an empty list.
pub record HoldsNothing (rt : Runtime) (response : Response) : Type 0 where
  pub accepted : response.status_code ≡ 200
  pub body : Fields
  pub decodes : json_of rt response ≡ ok (object body)
  pub data_at : get_field (codes "data") body ≡ some (array nil)

first_of_none :
    (end : Result (List Json) × Sent)
    → end.0 ≡ ok []
    → (resume end.0 end.1 (λ results. lift (first results))).0 ≡ raised index_error
first_of_none end h = rw h

module _ (rt : Runtime) (server : Server) (adapter : EmbeddingAdapter) (response : Response)
    (h : HoldsNothing rt response)
    (answers : (sent : Sent) (request : Request) → server sent request ≡ ok response) where
  embed_chunk_empty :
      (texts : List Text) (sent : Sent) → (embed_chunk rt server adapter texts sent).0 ≡ ok []
  unfolding embed_chunk reply
  embed_chunk_empty texts sent = rw (answers, h.accepted, h.decodes, h.data_at)

  embed_batches_empty :
      (texts : List Text) (starts : List ℕ) (sent : Sent)
      → (embed_batches rt server adapter texts starts [] sent).0 ≡ ok []
  unfolding embed_batches
  embed_batches_empty texts [] sent = refl
  embed_batches_empty texts (i ∷ starts) sent =
      rw (embed_chunk_empty (batch_at adapter.batch_size texts i) sent) (
        embed_batches_empty texts starts
          (embed_chunk rt server adapter (batch_at adapter.batch_size texts i) sent).1)

  embed_batch_empty :
      (b : ℕ)
      → adapter.batch_size ≡ pos (suc b)
      → (texts : List Text) (sent : Sent) → (embed_batch rt server adapter texts sent).0 ≡ ok []
  unfolding embed_batch range
  embed_batch_empty b size [] sent = refl
  embed_batch_empty b size (t ∷ texts) sent =
      let starts : List ℕ = count_up ((length (t ∷ texts) + b) / suc b) 0 (suc b) in
      let ranged : range (length (t ∷ texts)) adapter.batch_size ≡ ok starts = simp size in
      rw ranged (embed_batches_empty (t ∷ texts) starts sent)

  -- If the batch size is positive, and every answer has the status 200 and an empty list of data:
  -- `embed_batch` returns an empty list for any texts, and `embed` raises an `IndexError`.
  pub embed_batch_empty_answers :
      (b : ℕ)
      → adapter.batch_size ≡ pos (suc b)
      → (texts : List Text) (text : Text) (sent : Sent)
      → ((embed_batch rt server adapter texts sent).0 ≡ ok [])
        × ((embed rt server adapter text sent).0 ≡ raised index_error)
  unfolding embed
  embed_batch_empty_answers b size texts text sent = (
    embed_batch_empty b size texts sent,
    first_of_none (embed_batch rt server adapter (text ∷ []) sent)
        (embed_batch_empty b size (text ∷ []) sent),
  )
