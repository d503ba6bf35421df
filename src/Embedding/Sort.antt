-- ===== src/Embedding/Sort.antt =====
-- Python's `sorted` with a key that is an `int`: ascending, and stable.
use ai_developer_copilot_pla.Prelude.{List, [], ◌∷◌, Bool, ℤ, ltb_ℤ, if◌then◌else◌}

-- `j < k` of two keys.
unfoldable pub before : ℤ → ℤ → Bool
before j k = ltb_ℤ j k

module _ {ℓ} {A : Type ℓ} where
  abbrev pub insert : ℤ × A → List (ℤ × A) → List (ℤ × A)
  insert (k, a) [] = (k, a) ∷ []
  insert (k, a) ((j, b) ∷ l) =
      let rest = insert (k, a) l in if before j k then (j, b) ∷ rest else (k, a) ∷ (j, b) ∷ l

  unfoldable pub sort_by_key : List (ℤ × A) → List (ℤ × A)
  unfolding before
  sort_by_key [] = []
  sort_by_key (x ∷ l) = insert x (sort_by_key l)
