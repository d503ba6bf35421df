-- ===== src/Embedding/Faults.antt =====
-- What `embed_batch` does when a batch fails, and with a batch size that is not positive.
use ai_developer_copilot_pla.Prelude.{
  ℕ, suc, ◌≡◌, refl, ◌∙◌, sym, ap, List, [], ◌∷◌, ◌++◌, map, true, false, inl, inr, arith, ℤ, pos,
  negsuc, pos_part, append_assoc, append-nil, subst, length,
}
use ai_developer_copilot_pla.Text.{Text, codes}
use ai_developer_copilot_pla.Exn.{Result, ok, raised, value_error, Result-cases, ◌>>=◌}
use ai_developer_copilot_pla.Json.{Json, str, float, boolean, int, Runtime, at_key, to_int}
use ai_developer_copilot_pla.Exec.{resume}
use ai_developer_copilot_pla.Embedding.Batches.{IsCut, range-batches}
use ai_developer_copilot_pla.Http.{json_of, Response, Sent, Server, NoTransport}
use ai_developer_copilot_pla.Embedding.Sort.{sort_by_key}
use ai_developer_copilot_pla.Embedding.Reply.{reply, decoded, with_keys, embeddings, iterate}
use ai_developer_copilot_pla.Embedding.Adapter.{
  EmbeddingAdapter, embedding_request, embed_chunk, embed_batches, embed_batch, batch_at, range,
}

NoTransport-bind {ℓ κ} :
    {A : Type ℓ} {B : Type κ} (r : Result A) (f : A → Result B)
    → NoTransport r
    → ((a : A) → NoTransport (f a))
    → NoTransport (r >>= f)
NoTransport-bind (ok a) f h g = g a
NoTransport-bind (raised e) f h g = h

at_key-NoTransport : (v : Json) (k : Text) → NoTransport (at_key v k)
at_key-NoTransport v k = ground arith

iterate-NoTransport : (v : Json) → NoTransport (iterate v)
iterate-NoTransport v = ground arith

embeddings-NoTransport : (items : List (ℤ × Json)) → NoTransport (embeddings items)
embeddings-NoTransport [] = tt
embeddings-NoTransport ((k, item) ∷ items) =
    NoTransport-bind (at_key item (codes "embedding")) _ (at_key-NoTransport item _)
      λ v. NoTransport-bind (embeddings items) _ (embeddings-NoTransport items) λ vs. tt

module _ (rt : Runtime) (truncates : (x : ℕ) → NoTransport (rt.trunc x)) where
  to_int-NoTransport : (v : Json) → NoTransport (to_int rt v)
  to_int-NoTransport (float x) = truncates x
  to_int-NoTransport (str s) = ground arith
  to_int-NoTransport (boolean true) = tt
  to_int-NoTransport (boolean false) = tt
  to_int-NoTransport (int n) = tt
  to_int-NoTransport v = refl

  with_keys-NoTransport : (items : List Json) → NoTransport (with_keys rt items)
  with_keys-NoTransport [] = tt
  with_keys-NoTransport (item ∷ items) =
      NoTransport-bind (at_key item (codes "index")) _ (at_key-NoTransport item _) λ index.
        NoTransport-bind (to_int rt index) _ (to_int-NoTransport index)
          λ k. NoTransport-bind (with_keys rt items) _ (with_keys-NoTransport items) λ rest. tt

  decoded-NoTransport : (response : Response) → NoTransport (decoded rt response)
  decoded-NoTransport response = NoTransport-bind (json_of rt response) _ (ground arith) λ body.
      NoTransport-bind (at_key body (codes "data")) _ (at_key-NoTransport body _) λ list.
        NoTransport-bind (iterate list) _ (iterate-NoTransport list) λ items.
          NoTransport-bind (with_keys rt items) _ (with_keys-NoTransport items)
            λ keyed. embeddings-NoTransport (sort_by_key keyed)

  reply-NoTransport : (response : Response) → NoTransport (reply rt response)
  unfolding reply
  reply-NoTransport response = ground (arith, decoded-NoTransport response)

  module _ (server : Server) (adapter : EmbeddingAdapter) where
    embed_chunk_once :
        (texts : List Text) (sent : Sent)
        → NoTransport (embed_chunk rt server adapter texts sent).0
          × ((embed_chunk rt server adapter texts sent).1
              ≡ sent ++ embedding_request adapter texts ∷ [])
    unfolding embed_chunk
    embed_chunk_once texts sent =
        elim (Result-cases (server sent (embedding_request adapter texts))) [
          | inl (response, h) ↦ (rw h (reply-NoTransport response), rw h)
          | inr (e, h) ↦ (ground arith, rw h)
        ]

    -- Nothing is left if the loop returns.
    abbrev pub Finished : {A : Type 0} → Result A → List ℕ → Type 0
    Finished (ok a) left = left ≡ []
    Finished (raised e) left = Unit

    -- What the loop has asked for when it ends: the batches at the first starts, and those at all of
    -- them if it does not raise.
    pub record Asked {A : Type 0} (starts : List ℕ) (texts : List Text) (sent : Sent)
        (r : Result A × Sent) : Type 0 where
      pub asked : List ℕ
      pub left : List ℕ
      pub whole : starts ≡ asked ++ left
      pub sends :
          r.1
          ≡ sent ++ map (λ i. embedding_request adapter (batch_at adapter.batch_size texts i)) asked
      pub finished : Finished r.0 left
      pub no_transport : NoTransport r.0

    Asked-resume :
        (texts : List Text) (i : ℕ) (starts : List ℕ) (all_embeddings : List Json) (sent : Sent)
        (r : Result (List Json))
        → NoTransport r
        → ((vs : List Json) (s : Sent)
            → Asked starts texts s (embed_batches rt server adapter texts starts vs s))
        → Asked (i ∷ starts) texts sent (
            resume r
              (sent ++ embedding_request adapter (batch_at adapter.batch_size texts i) ∷ [])
              (λ vs. embed_batches rt server adapter texts starts (all_embeddings ++ vs)))
    Asked-resume texts i starts all_embeddings sent (raised e) n rest = record {
      asked = i ∷ [];
      left = starts;
      whole = refl;
      sends = refl;
      finished = tt;
      no_transport = n;
    }
    Asked-resume texts i starts all_embeddings sent (ok vs) n rest =
        let later =
          rest (all_embeddings ++ vs)
            (sent ++ embedding_request adapter (batch_at adapter.batch_size texts i) ∷ []) in
        record {
          asked = i ∷ later.asked;
          left = later.left;
          whole = ap (◌∷◌ i) later.whole;
          sends = later.sends ∙ append_assoc sent _ _;
          finished = later.finished;
          no_transport = later.no_transport;
        }

    embed_batches-Asked :
        (texts : List Text) (starts : List ℕ) (all_embeddings : List Json) (sent : Sent)
        → Asked starts texts sent (embed_batches rt server adapter texts starts all_embeddings sent)
    unfolding embed_batches
    embed_batches-Asked texts [] all_embeddings sent = record {
      asked = [];
      left = [];
      whole = refl;
      sends = sym (append-nil sent);
      finished = refl;
      no_transport = tt;
    }
    embed_batches-Asked texts (i ∷ starts) all_embeddings sent =
        let (n, once) = embed_chunk_once (batch_at adapter.batch_size texts i) sent in
        rw once (
          Asked-resume texts i starts all_embeddings sent
            (embed_chunk rt server adapter (batch_at adapter.batch_size texts i) sent).0 n
            (embed_batches-Asked texts starts))

    -- With a positive batch size, and if `int` of a float raises no transport error, whatever the
    -- server does: for texts that are not empty `embed_batch` has asked for the batches at the first
    -- starts of its range, for each once and in order; if it returns, it has asked for all of them;
    -- and no timeout and no other transport error comes out of it.
    pub embed_batch-Asked :
        (b : ℕ)
        → adapter.batch_size ≡ pos (suc b)
        → (t : Text) (texts : List Text) (sent : Sent)
        → (starts : List ℕ) × (range (length (t ∷ texts)) adapter.batch_size ≡ ok starts)
          × Asked starts (t ∷ texts) sent (embed_batch rt server adapter (t ∷ texts) sent)
    unfolding embed_batch
    embed_batch-Asked b size t texts sent =
        let (starts, r, whole, fits) =
          subst (IsCut (t ∷ texts)) (sym size) (range-batches b (t ∷ texts)) in
        (starts, r, rw r (embed_batches-Asked (t ∷ texts) starts [] sent))

-- What comes of texts that are not empty if there is no batch.
abbrev pub without_batches : ℤ → Result (List Json)
without_batches (pos size) = raised value_error
without_batches (negsuc size) = ok []

-- With a batch size that is not positive `embed_batch` sends nothing: for texts that are not empty it
-- raises a `ValueError` if the size is 0, and returns no embedding at all if it is negative.
embed_batch_not_positive :
    (rt : Runtime) (server : Server) (adapter : EmbeddingAdapter)
    → pos_part adapter.batch_size ≡ 0
    → (t : Text) (texts : List Text) (sent : Sent)
    → embed_batch rt server adapter (t ∷ texts) sent ≡ (without_batches adapter.batch_size, sent)
unfolding embed_batch range embed_batches
embed_batch_not_positive rt server adapter size t texts sent = ground arith
