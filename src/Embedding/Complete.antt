-- ===== src/Embedding/Complete.antt =====
-- What `embed_batch` returns if the API answers as it documents, in whatever order.
use mathlib.Core.Path.{ap₂}
use mathlib.Core.List.{Permᴰ, Forall₂, flatten}
use ai_developer_copilot_pla.Prelude.{
  ℕ, suc, ◌≤◌, ◌<◌, ◌≡◌, refl, sym, ap, ◌∙◌, inl, inr, Bool-cases, List, [], ◌∷◌, ◌++◌, map, some,
  arith, ℤ, pos, append_assoc, append-nil, map-append, subst, length, pos_part, All,
}
use ai_developer_copilot_pla.Text.{Text, codes}
use ai_developer_copilot_pla.Exn.{Result, ok}
use ai_developer_copilot_pla.Json.{
  Json, Fields, int, object, array, Runtime, get_field, to_items, from_items-to_items,
}
use ai_developer_copilot_pla.Http.{Response, Sent, Server, json_of}
use ai_developer_copilot_pla.Embedding.Sort.{insert, sort_by_key, before}
use ai_developer_copilot_pla.Embedding.Order.{Fresh, DistinctKeys, sort_by_key-perm}
use ai_developer_copilot_pla.Embedding.Reply.{reply, with_keys, embeddings, decoded}
use ai_developer_copilot_pla.Embedding.Adapter.{
  EmbeddingAdapter, embedding_request, embed_chunk, embed_batches, embed_batch, batch_at,
}
use ai_developer_copilot_pla.Embedding.Batches.{batches, FitsBatch, IsCut, range-batches}

-- The elements with their places.
abbrev pub numbered : ℕ → List Text → List (ℤ × Text)
numbered i [] = []
numbered i (t ∷ texts) = (pos i, t) ∷ numbered (suc i) texts

numbered-Fresh :
    (i j : ℕ) (t : Text) (texts : List Text) → i < j → Fresh (pos i, t) (numbered j texts)
numbered-Fresh i j t [] h = tt
numbered-Fresh i j t (u ∷ texts) h =
    (λ e. ground arith, numbered-Fresh i (suc j) t texts (omega arith))

numbered-DistinctKeys : (i : ℕ) (texts : List Text) → DistinctKeys (numbered i texts)
numbered-DistinctKeys i [] = tt
numbered-DistinctKeys i (t ∷ texts) =
    (numbered-Fresh i (suc i) t texts (omega arith), numbered-DistinctKeys (suc i) texts)

insert-numbered :
    (i : ℕ) (t : Text) (texts : List Text)
    → insert (pos i, t) (numbered (suc i) texts) ≡ (pos i, t) ∷ numbered (suc i) texts
unfolding before
insert-numbered i t [] = refl
insert-numbered i t (u ∷ texts) = ground arith

sort_by_key-numbered :
    (i : ℕ) (texts : List Text) → sort_by_key (numbered i texts) ≡ numbered i texts
unfolding sort_by_key
sort_by_key-numbered i [] = refl
sort_by_key-numbered i (t ∷ texts) =
    rw (sort_by_key-numbered (suc i) texts) (insert-numbered i t texts)

-- A batch that `embed_batch` may ask for.
abbrev pub IsBatch : ℕ → List Text → Type 0
IsBatch size batch = (0 < length batch) × (length batch ≤ size)

batches-IsBatch :
    (size : ℤ) (texts : List Text) (starts : List ℕ)
    → All (FitsBatch size texts) starts
    → All (IsBatch (pos_part size)) (batches size texts starts)
batches-IsBatch size texts [] h = tt
batches-IsBatch size texts (i ∷ starts) h = (h.0, batches-IsBatch size texts starts h.1)

module _ (vec : Text → Json) where
  -- An entry of the answer: an object with the place of a text and the text's embedding.
  pub record Answers (entry : ℤ × Text) (item : Json) : Type 0 where
    pub fields : Fields
    pub is_object : item ≡ object fields
    pub index_at : get_field (codes "index") fields ≡ some (int entry.0)
    pub embedding_at : get_field (codes "embedding") fields ≡ some (vec entry.1)

  abbrev Matches : ℤ × Text → ℤ × Json → Type 0
  Matches entry keyed = (entry.0 ≡ keyed.0) × Answers entry keyed.1

  with_keys-Answers :
      (rt : Runtime) {entries : List (ℤ × Text)} {items : List Json}
      → Forall₂ Answers entries items
      → (keyed : List (ℤ × Json)) × (with_keys rt items ≡ ok keyed) × Forall₂ Matches entries keyed
  with_keys-Answers rt Forall₂.nil = ([], refl, Forall₂.nil)
  with_keys-Answers rt (Forall₂.cons {a} {b} h rest) =
      let (keyed, e, m) = with_keys-Answers rt rest in
      ((a.0, b) ∷ keyed, rw (e, h.is_object, h.index_at), Forall₂.cons (refl, h) m)

  insert-Matches :
      (x : ℤ × Text) (y : ℤ × Json) {entries : List (ℤ × Text)} {keyed : List (ℤ × Json)}
      → Matches x y
      → Forall₂ Matches entries keyed
      → Forall₂ Matches (insert x entries) (insert y keyed)
  insert-Matches x y h Forall₂.nil = Forall₂.cons h Forall₂.nil
  insert-Matches x y h (Forall₂.cons {a} {b} g rest) =
      let same : before a.0 x.0 ≡ before b.0 y.0 = ap₂ before g.0 h.0 in
      elim (Bool-cases (before b.0 y.0)) [
        | inl lt ↦ rw (same, lt) (Forall₂.cons g (insert-Matches x y h rest))
        | inr ge ↦ rw (same, ge) (Forall₂.cons h (Forall₂.cons g rest))
      ]

  sort_by_key-Matches :
      {entries : List (ℤ × Text)} {keyed : List (ℤ × Json)}
      → Forall₂ Matches entries keyed
      → Forall₂ Matches (sort_by_key entries) (sort_by_key keyed)
  unfolding sort_by_key
  sort_by_key-Matches Forall₂.nil = Forall₂.nil
  sort_by_key-Matches (Forall₂.cons {a} {b} h rest) =
      insert-Matches a b h (sort_by_key-Matches rest)

  embeddings-Matches :
      {entries : List (ℤ × Text)} {keyed : List (ℤ × Json)}
      → Forall₂ Matches entries keyed
      → embeddings keyed ≡ ok (map (λ e. vec e.1) entries)
  embeddings-Matches Forall₂.nil = refl
  embeddings-Matches (Forall₂.cons h rest) =
      rw (embeddings-Matches rest, h.1.is_object, h.1.embedding_at)

  map-numbered : (i : ℕ) (texts : List Text) → map (λ e. vec e.1) (numbered i texts) ≡ map vec texts
  map-numbered i [] = refl
  map-numbered i (t ∷ texts) = ap (◌∷◌ (vec t)) (map-numbered (suc i) texts)

  -- An answer to a request for the embeddings of `batch`: status 200, and a body whose data holds one
  -- entry for each text, in any order.
  pub record IsComplete (rt : Runtime) (batch : List Text) (answer : Result Response) : Type 0 where
    pub response : Response
    pub body : Fields
    pub entries : List (ℤ × Text)
    pub items : List Json
    pub answered : answer ≡ ok response
    pub accepted : response.status_code ≡ 200
    pub decodes : json_of rt response ≡ ok (object body)
    pub data_at : get_field (codes "data") body ≡ some (array (to_items items))
    pub order : Permᴰ (numbered 0 batch) entries
    pub entries_of : Forall₂ Answers entries items

  module _ (rt : Runtime) (server : Server) (adapter : EmbeddingAdapter) where
    decoded-IsComplete :
        (batch : List Text) {answer : Result Response} (c : IsComplete rt batch answer)
        → decoded rt c.response ≡ ok (map vec batch)
    decoded-IsComplete batch c =
        let (keyed, e, m) = with_keys-Answers rt c.entries_of in
        let sorted : sort_by_key c.entries ≡ numbered 0 batch =
          sym (sort_by_key-perm c.order (numbered-DistinctKeys 0 batch))
          ∙ sort_by_key-numbered 0 batch in
        rw (
          c.decodes,
          c.data_at,
          from_items-to_items,
          e,
          embeddings-Matches (sort_by_key-Matches m),
          sorted,
          map-numbered 0 batch,
        )

    reply_accepted :
        (response : Response) → response.status_code ≡ 200 → reply rt response ≡ decoded rt response
    unfolding reply
    reply_accepted response h = ground arith

    embed_chunk-IsComplete :
        (batch : List Text) (sent : Sent)
        → IsComplete rt batch (server sent (embedding_request adapter batch))
        → embed_chunk rt server adapter batch sent
          ≡ (ok (map vec batch), sent ++ embedding_request adapter batch ∷ [])
    unfolding embed_chunk
    embed_chunk-IsComplete batch sent c =
        rw (c.answered, reply_accepted c.response c.accepted, decoded-IsComplete batch c)

    -- The server answers every request for a batch of at most `batch_size` texts.
    abbrev pub AnswersAll : Type 0
    AnswersAll =
        (sent : Sent) (batch : List Text)
        → 0 < length batch
        → length batch ≤ pos_part adapter.batch_size
        → IsComplete rt batch (server sent (embedding_request adapter batch))

    embed_batches-IsComplete :
        AnswersAll
        → (texts : List Text) (starts : List ℕ) (all_embeddings : List Json) (sent : Sent)
        → All (FitsBatch adapter.batch_size texts) starts
        → embed_batches rt server adapter texts starts all_embeddings sent ≡ (
          ok (all_embeddings ++ map vec (flatten (batches adapter.batch_size texts starts))),
          sent ++ map (embedding_request adapter) (batches adapter.batch_size texts starts),
        )
    unfolding embed_batches flatten
    embed_batches-IsComplete answers texts [] all_embeddings sent fits = rw (append-nil, append-nil)
    embed_batches-IsComplete answers texts (i ∷ starts) all_embeddings sent fits =
        let batch : List Text = batch_at adapter.batch_size texts i in
        rw (embed_chunk-IsComplete batch sent (answers sent batch fits.0.0 fits.0.1)) (
          rw (embed_batches-IsComplete answers texts starts _ _ fits.1)
            (simp (map-append, append_assoc)))

    -- If the server answers every request for a batch that is not empty and not longer than a
    -- positive batch size with one entry for each of its texts, in any order, then `embed_batch`
    -- returns the embeddings of all texts in the order of the texts. It has sent one request for
    -- each batch; the batches make up the texts, none is empty, and none is longer than the batch
    -- size.
    pub embed_batch_complete :
        AnswersAll
        → (b : ℕ) → adapter.batch_size ≡ pos (suc b)
        → (texts : List Text) (sent : Sent)
        → (cut : List (List Text)) × (embed_batch rt server adapter texts sent
            ≡ (ok (map vec texts), sent ++ map (embedding_request adapter) cut))
          × (flatten cut ≡ texts)
          × All (IsBatch (pos_part adapter.batch_size)) cut
    unfolding embed_batch flatten
    embed_batch_complete answers b size [] sent = ([], rw append-nil, refl, tt)
    embed_batch_complete answers b size (t ∷ texts) sent =
        let (starts, r, whole, fits) =
          subst (IsCut (t ∷ texts)) (sym size) (range-batches b (t ∷ texts)) in
        (
          batches adapter.batch_size (t ∷ texts) starts,
          rw r (embed_batches-IsComplete answers (t ∷ texts) starts [] sent fits ∙ rw whole),
          whole,
          batches-IsBatch adapter.batch_size (t ∷ texts) starts fits,
        )
