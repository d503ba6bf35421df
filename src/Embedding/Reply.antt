-- ===== src/Embedding/Reply.antt =====
-- What `EmbeddingAdapter._embed_chunk` of backend/app/infrastructure/llm/embedding_adapter.py makes
-- of an answer, with no effect.
use ai_developer_copilot_pla.Prelude.{List, [], ◌∷◌, ◌++◌, some, ℤ, ◌==◌, if◌then◌else◌}
use ai_developer_copilot_pla.Text.{Text, codes, show_ℕ}
use ai_developer_copilot_pla.Exn.{Result, ok, raised, embedding, type_error, ◌>>=◌}
use ai_developer_copilot_pla.Json.{
  Json, Fields, end, field, str, array, object, Runtime, at_key, to_int, from_items,
}
use ai_developer_copilot_pla.Http.{Response, json_of}
use ai_developer_copilot_pla.Embedding.Sort.{sort_by_key}

abbrev field_names : Fields → List Json
field_names end = []
field_names (field k v fs) = str k ∷ field_names fs

abbrev characters : Text → List Json
characters [] = []
characters (c ∷ s) = str (c ∷ []) ∷ characters s

-- What a loop over the value runs through.
abbrev pub iterate : Json → Result (List Json)
iterate (array xs) = ok (from_items xs)
iterate (object fs) = ok (field_names fs)
iterate (str s) = ok (characters s)
iterate _ = raised type_error

-- `[item['embedding'] for item in items]`.
abbrev pub embeddings : List (ℤ × Json) → Result (List Json)
embeddings [] = ok []
embeddings ((k, item) ∷ items) = do
  v ← at_key item (codes "embedding")
  vs ← embeddings items
  ok (v ∷ vs)

module _ (rt : Runtime) where
  -- The keys of `sorted`, `int(x['index'])`, which are computed first, in order.
  abbrev pub with_keys : List Json → Result (List (ℤ × Json))
  with_keys [] = ok []
  with_keys (item ∷ items) = do
    index ← at_key item (codes "index")
    k ← to_int rt index
    rest ← with_keys items
    ok ((k, item) ∷ rest)

  abbrev pub decoded : Response → Result (List Json)
  decoded response = do
    body ← json_of rt response
    list ← at_key body (codes "data")
    items ← iterate list
    keyed ← with_keys items
    embeddings (sort_by_key keyed)

  -- `_embed_chunk` once the request has been answered.
  unfoldable pub reply : Response → Result (List Json)
  unfolding sort_by_key
  reply response =
      if response.status_code == 200
      then decoded response
      else raised (
          embedding (record {
            message =
                codes "Embedding API error "
                ++ (show_ℕ response.status_code ++ (codes ": " ++ response.text));
            status_code = some response.status_code;
          }))
