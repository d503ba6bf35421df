-- ===== src/Tests/Embedding.antt =====
-- The embedding adapter over a server that answers in reverse order.
use mathlib.Core.List.{Permᴰ, Forall₂, flatten}
use ai_developer_copilot_pla.Prelude.{
  ℕ, zero, suc, ◌≡◌, refl, arith, List, [], ◌∷◌, ◌++◌, map, ap, take, drop, Option, none, some, ℤ,
  pos, negsuc, length, All,
}
use ai_developer_copilot_pla.Text.{Text, codes}
use ai_developer_copilot_pla.Exn.{ok, raised, http_timeout, index_error}
use ai_developer_copilot_pla.Json.{
  Json, Items, Fields, cons, int, str, array, object, field, end, Runtime, to_items,
}
use ai_developer_copilot_pla.Http.{Response, Server}
use ai_developer_copilot_pla.Embedding.Sort.{sort_by_key}
use ai_developer_copilot_pla.Embedding.Adapter.{
  range, EmbeddingAdapter, embedding_request, embed_batch, embed,
}
use ai_developer_copilot_pla.Embedding.Faults.{Asked, embed_batch-Asked}
use ai_developer_copilot_pla.Embedding.Short.{embed_batch_empty_answers}
use ai_developer_copilot_pla.Embedding.Complete.{
  numbered, Answers, AnswersAll, IsBatch, embed_batch_complete,
}

sort_by_key_test :
    sort_by_key {A = ℕ} ((pos 2, 20) ∷ (pos 0, 1) ∷ (negsuc 0, 9) ∷ (pos 0, 2) ∷ [])
    ≡ (negsuc 0, 9) ∷ (pos 0, 1) ∷ (pos 0, 2) ∷ (pos 2, 20) ∷ []
unfolding sort_by_key
sort_by_key_test = refl

-- The embedding of a text, here the text itself.
abbrev vec : Text → Json
vec t = str t

abbrev item : ℤ × Text → Json
item (k, t) = object (field (codes "index") (int k) (field (codes "embedding") (vec t) end))

-- One or two texts as one text, and the answer that it stands for: the entries in reverse order.
abbrev encode : List Text → Text
encode [] = []
encode (a ∷ []) = 0 ∷ a
encode (a ∷ b ∷ more) = 1 ∷ length a ∷ (a ++ b)

abbrev answer : List Json → Fields
answer items = field (codes "data") (array (to_items items)) end

abbrev decode : Text → Option Json
decode (suc _ ∷ n ∷ s) =
    some (object (answer (item (pos 1, drop n s) ∷ item (pos 0, take n s) ∷ [])))
decode (zero ∷ a) = some (object (answer (item (pos 0, a) ∷ [])))
decode s = none

abbrev rt : Runtime
rt = record { loads = decode; repr = λ v. []; trunc = λ x. ok (pos x); parse_int = λ t. none }

abbrev adapter : EmbeddingAdapter
adapter = record { model = codes "text-embedding-3-large"; batch_size = pos 2; client = 5 }

abbrev texts_of : Items → List Text
texts_of (cons (str t) xs) = t ∷ texts_of xs
texts_of xs = []

abbrev inputs : Json → List Text
inputs (object (field model v (field input (array xs) end))) = texts_of xs
inputs v = []

abbrev reversing : Server
reversing sent r = ok (record {
  status_code = 200;
  text = encode (inputs r.payload);
  content = some (encode (inputs r.payload));
})

item-Answers : (k : ℤ) (t : Text) → Answers vec (k, t) (item (k, t))
item-Answers k t = record { fields = _; is_object = refl; index_at = refl; embedding_at = refl }

take-length : (a b : Text) → take (length a) (a ++ b) ≡ a
take-length [] b = refl
take-length (c ∷ a) b = ap (◌∷◌ c) (take-length a b)

drop-length : (a b : Text) → drop (length a) (a ++ b) ≡ b
drop-length [] b = refl
drop-length (c ∷ a) b = drop-length a b

reversing-AnswersAll : AnswersAll vec rt reversing adapter
reversing-AnswersAll sent [] some_text few = absurd (omega arith)
reversing-AnswersAll sent (a ∷ []) some_text few = record {
  response = _;
  body = answer (item (pos 0, a) ∷ []);
  entries = numbered 0 (a ∷ []);
  items = item (pos 0, a) ∷ [];
  answered = refl;
  accepted = refl;
  decodes = refl;
  data_at = refl;
  order = Permᴰ.cons refl Permᴰ.nil;
  entries_of = Forall₂.cons (item-Answers (pos 0) a) Forall₂.nil;
}
reversing-AnswersAll sent (a ∷ b ∷ []) some_text few = record {
  response = _;
  body = answer (item (pos 1, b) ∷ item (pos 0, a) ∷ []);
  entries = (pos 1, b) ∷ (pos 0, a) ∷ [];
  items = item (pos 1, b) ∷ item (pos 0, a) ∷ [];
  answered = refl;
  accepted = refl;
  decodes = rw (take-length a b, drop-length a b);
  data_at = refl;
  order = Permᴰ.swap refl refl;
  entries_of =
      Forall₂.cons (item-Answers (pos 1) b) (Forall₂.cons (item-Answers (pos 0) a) Forall₂.nil);
}
reversing-AnswersAll sent (a ∷ b ∷ c ∷ more) some_text few = absurd (omega arith)

abbrev three : List Text
three = codes "a" ∷ codes "b" ∷ codes "c" ∷ []

embed_batch_test : embed_batch rt reversing adapter three [] ≡ (
  ok (map vec three),
  embedding_request adapter (codes "a" ∷ codes "b" ∷ [])
      ∷ embedding_request adapter (codes "c" ∷ [])
      ∷ [],
)
unfolding embed_batch ai_developer_copilot_pla.Embedding.Reply.reply
embed_batch_test = refl

embed_batch_complete_example :
    (cut : List (List Text)) × (embed_batch rt reversing adapter three []
      ≡ (ok (map vec three), [] ++ map (embedding_request adapter) cut))
    × (flatten cut ≡ three)
    × All (IsBatch 2) cut
embed_batch_complete_example =
    embed_batch_complete vec rt reversing adapter reversing-AnswersAll 1 refl three []

-- A server that refuses the second request.
abbrev refusing : Server
refusing [] r = reversing [] r
refusing (s ∷ sent) r = raised (http_timeout (codes "slow"))

embed_batch-Asked_example :
    (starts : List ℕ) × (range 3 (pos 2) ≡ ok starts)
    × Asked rt (λ x. tt) refusing adapter starts three [] (embed_batch rt refusing adapter three [])
embed_batch-Asked_example =
    embed_batch-Asked rt (λ x. tt) refusing adapter 1 refl (codes "a") (codes "b" ∷ codes "c" ∷ [])
      []

abbrev nothing_at_once : EmbeddingAdapter
nothing_at_once = record adapter { batch_size = negsuc 0 }

-- A server that answers every request with an empty list of data.
abbrev nothing_rt : Runtime
nothing_rt = record rt { loads = λ t. some (object (answer [])) }

abbrev nothing : Response
nothing = record { status_code = 200; text = []; content = some [] }

embed_batch_empty_answers_example :
    ((embed_batch nothing_rt (λ sent request. ok nothing) adapter (codes "a" ∷ codes "b" ∷ []) []).0
      ≡ ok [])
    × ((embed nothing_rt (λ sent request. ok nothing) adapter (codes "c") []).0
        ≡ raised index_error)
embed_batch_empty_answers_example =
    embed_batch_empty_answers nothing_rt (λ sent request. ok nothing) adapter nothing
      (record { accepted = refl; body = answer []; decodes = refl; data_at = refl })
      (λ sent request. refl) 1 refl (codes "a" ∷ codes "b" ∷ []) (codes "c") []
