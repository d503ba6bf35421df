-- ===== src/Embedding/Batches.antt =====
-- How `embed_batch` cuts its input.
use Prim.Native.Nat.add
use mathlib.Core.List.{flatten}
use ai_developer_copilot_pla.Prelude.{
  ℕ, zero, suc, ◌+◌, ◌*◌, ◌/◌, ◌≤◌, ◌<◌, ◌≡◌, refl, sym, List, [], ◌∷◌, map, arith, ℤ, pos,
  pos_part, length, drop, All, take-append-drop, length-take, length-drop,
}
use ai_developer_copilot_pla.Text.{Text}
use ai_developer_copilot_pla.Exn.{ok}
use ai_developer_copilot_pla.Embedding.Adapter.{range, count_up, batch_at}

drop_all : (i : ℕ) (texts : List Text) → length texts ≤ i → drop i texts ≡ []
drop_all zero [] h = refl
drop_all zero (t ∷ texts) h = absurd (omega arith)
drop_all (suc i) [] h = refl
drop_all (suc i) (t ∷ texts) h = drop_all i texts (omega arith)

drop_nil : (i : ℕ) → drop {A = Text} i [] ≡ []
drop_nil zero = refl
drop_nil (suc i) = refl

drop-drop : (size i : ℕ) (texts : List Text) → drop size (drop i texts) ≡ drop (i + size) texts
drop-drop size zero texts = rw add.zero
drop-drop size (suc i) [] = rw (add.suc, drop_nil size)
drop-drop size (suc i) (t ∷ texts) = rw add.suc (drop-drop size i texts)

-- The batches that begin at the given places.
abbrev pub batches : ℤ → List Text → List ℕ → List (List Text)
batches size texts starts = map (batch_at size texts) starts

flatten-batches :
    (size : ℕ) (texts : List Text) (n start : ℕ)
    → length texts ≤ start + n * size
    → flatten (batches (pos size) texts (count_up n start size)) ≡ drop start texts
unfolding flatten
flatten-batches size texts zero start h = sym (drop_all start texts (omega arith))
flatten-batches size texts (suc n) start h =
    rw (flatten-batches size texts n (start + size) (omega arith), ← drop-drop size start texts)
      (take-append-drop size (drop start texts))

-- A batch that the loop asks for: not empty, and not longer than the batch size.
abbrev pub FitsBatch : ℤ → List Text → ℕ → Type 0
FitsBatch size texts start =
    (0 < length (batch_at size texts start)) × (length (batch_at size texts start) ≤ pos_part size)

batches-Fit :
    (b : ℕ) (texts : List Text) (n start : ℕ)
    → start + n * suc b < length texts + suc b
    → All (FitsBatch (pos (suc b)) texts) (count_up n start (suc b))
batches-Fit b texts zero start h = tt
batches-Fit b texts (suc n) start h = (
  omega (arith, length-take (suc b) (drop start texts), length-drop start texts),
  batches-Fit b texts n (start + suc b) (omega arith),
)

-- The range of the loop, and what its batches are.
abbrev pub IsCut : List Text → ℤ → Type 0
IsCut texts size =
    (starts : List ℕ) × (range (length texts) size ≡ ok starts)
    × (flatten (batches size texts starts) ≡ texts)
    × All (FitsBatch size texts) starts

-- With a positive batch size the batches that `embed_batch` asks for make up the whole input in
-- order, none is empty, and none is longer than the batch size.
pub range-batches : (b : ℕ) (texts : List Text) → IsCut texts (pos (suc b))
unfolding range
range-batches b texts = (
  count_up ((length texts + b) / suc b) 0 (suc b),
  refl,
  flatten-batches (suc b) texts ((length texts + b) / suc b) 0 (omega arith),
  batches-Fit b texts ((length texts + b) / suc b) 0 (omega arith),
)
