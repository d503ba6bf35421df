-- ===== src/Embedding/Order.antt =====
-- Sorting by keys that are all different undoes any rearrangement.
use mathlib.Core.List.{Permᴰ}
use mathlib.Core.Path.{subst₂}
use ai_developer_copilot_pla.Prelude.{
  ◌≡◌, ◌≢◌, refl, sym, ◌∙◌, List, [], ◌∷◌, not, true, false, arith, ℤ,
}
use ai_developer_copilot_pla.Embedding.Sort.{insert, sort_by_key, before}

before_ne : (j k : ℤ) → j ≢ k → before j k ≡ not (before k j)
unfolding before
before_ne j k ne = ground arith

before_between : (i j k : ℤ) → before i j ≡ true → before i k ≡ false → before k j ≡ true
unfolding before
before_between i j k h n = ground arith

module _ {A : Type 0} where
  insert_comm :
      (x y : ℤ × A) (l : List (ℤ × A)) → x.0 ≢ y.0 → insert x (insert y l) ≡ insert y (insert x l)
  insert_comm (j, a) (k, b) [] ne = ground (arith, before_ne j k ne)
  insert_comm (j, a) (k, b) ((i, c) ∷ l) ne = ground (
    arith,
    insert_comm (j, a) (k, b) l ne,
    before_ne j k ne,
    before_between i j k,
    before_between i k j,
  )

  -- No key of the list is that of `x`.
  abbrev pub Fresh : ℤ × A → List (ℤ × A) → Type 0
  Fresh x [] = Unit
  Fresh x (y ∷ l) = (x.0 ≢ y.0) × Fresh x l

  abbrev pub DistinctKeys : List (ℤ × A) → Type 0
  DistinctKeys [] = Unit
  DistinctKeys (x ∷ l) = Fresh x l × DistinctKeys l

  Fresh-perm : (x : ℤ × A) {l r : List (ℤ × A)} → Permᴰ l r → Fresh x l → Fresh x r
  Fresh-perm x Permᴰ.nil f = tt
  Fresh-perm x (Permᴰ.cons e p) f = (rw (← e) f.0, Fresh-perm x p f.1)
  Fresh-perm x (Permᴰ.swap e d) f = (rw (← d) f.1.0, (rw (← e) f.0, f.1.1))
  Fresh-perm x (Permᴰ.trans p q) f = Fresh-perm x q (Fresh-perm x p f)

  DistinctKeys-perm : {l r : List (ℤ × A)} → Permᴰ l r → DistinctKeys l → DistinctKeys r
  DistinctKeys-perm Permᴰ.nil d = tt
  DistinctKeys-perm (Permᴰ.cons {a} e p) d =
      (rw (← e) (Fresh-perm a p d.0), DistinctKeys-perm p d.1)
  DistinctKeys-perm (Permᴰ.swap {a} {b} {l} e f) d =
      subst₂ (λ x y. DistinctKeys (x ∷ y ∷ l)) f e ((λ q. d.0.0 (sym q), d.1.0), (d.0.1, d.1.1))
  DistinctKeys-perm (Permᴰ.trans p q) d = DistinctKeys-perm q (DistinctKeys-perm p d)

  pub sort_by_key-perm :
      {l r : List (ℤ × A)} → Permᴰ l r → DistinctKeys l → sort_by_key l ≡ sort_by_key r
  unfolding sort_by_key
  sort_by_key-perm Permᴰ.nil d = refl
  sort_by_key-perm (Permᴰ.cons e p) d = rw (e, sort_by_key-perm p d.1)
  sort_by_key-perm (Permᴰ.swap {a} {b} {l} e f) d =
      rw (← e, ← f) (insert_comm a b (sort_by_key l) d.0.0)
  sort_by_key-perm (Permᴰ.trans p q) d =
      sort_by_key-perm p d ∙ sort_by_key-perm q (DistinctKeys-perm p d)
