-- ===== src/Embedding/Single.antt =====
-- What `embed` returns for one text.
use mathlib.Core.List.{flatten}
use ai_developer_copilot_pla.Prelude.{
  ℕ, suc, ◌≡◌, refl, List, [], ◌∷◌, ◌++◌, arith, pos, pos_part, All,
}
use ai_developer_copilot_pla.Text.{Text}
use ai_developer_copilot_pla.Exn.{ok}
use ai_developer_copilot_pla.Json.{Json, Runtime}
use ai_developer_copilot_pla.Http.{Sent, Server}
use ai_developer_copilot_pla.Embedding.Adapter.{EmbeddingAdapter, embedding_request, embed}
use ai_developer_copilot_pla.Embedding.Complete.{AnswersAll, IsBatch, embed_batch_complete}

flatten-nil :
    (size : ℕ) (cut : List (List Text)) → flatten cut ≡ [] → All (IsBatch size) cut → cut ≡ []
unfolding flatten
flatten-nil size [] whole fits = refl
flatten-nil size ([] ∷ cut) whole fits = absurd (omega (arith, fits.0.0))
flatten-nil size ((u ∷ batch) ∷ cut) whole fits = cc

flatten_single :
    (size : ℕ) (t : Text) (cut : List (List Text))
    → flatten cut ≡ t ∷ []
    → All (IsBatch size) cut
    → cut ≡ (t ∷ []) ∷ []
unfolding flatten
flatten_single size t [] whole fits = cc
flatten_single size t ([] ∷ cut) whole fits = absurd (omega (arith, fits.0.0))
flatten_single size t ((u ∷ []) ∷ cut) whole fits =
    ground (arith, flatten-nil size cut (ground (arith, whole)) fits.1)
flatten_single size t ((u ∷ v ∷ batch) ∷ cut) whole fits = ground (arith, whole)

-- If the server answers every request for a batch that is not empty and not longer than a positive
-- batch size with one entry for each of its texts, `embed` returns the embedding of its text and has
-- sent one request, for that text alone.
embed_complete :
    (vec : Text → Json) (rt : Runtime) (server : Server) (adapter : EmbeddingAdapter)
    → AnswersAll vec rt server adapter
    → (b : ℕ) → adapter.batch_size ≡ pos (suc b)
    → (text : Text) (sent : Sent)
    → embed rt server adapter text sent
      ≡ (ok (vec text), sent ++ embedding_request adapter (text ∷ []) ∷ [])
unfolding embed
embed_complete vec rt server adapter answers b size text sent =
    let (cut, e, whole, fits) =
      embed_batch_complete vec rt server adapter answers b size (text ∷ []) sent in
    let single = flatten_single (pos_part adapter.batch_size) text cut whole fits in
    rw e (rw single)
