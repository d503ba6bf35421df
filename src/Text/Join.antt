-- ===== src/Text/Join.antt =====
-- Joined texts: a separator that no part holds can be found again.
use ai_developer_copilot_pla.Prelude.{ℕ, ◌≡◌, refl, List, [], ◌∷◌, ◌++◌, arith, All, length}
use ai_developer_copilot_pla.Text.{Text, join_rest, Lacks}

-- What may follow a text that lacks the separator: nothing, or the separator.
pub data Tail (sep : ℕ) : Text → Type 0 where
  stop : Tail sep []
  more : (s : Text) → Tail sep (sep ∷ s)

module _ (sep : ℕ) where
  -- A text without the separator, and what stands behind it, can be told apart.
  pub append-inj_Lacks :
      (p q : Text) {r s : Text}
      → Lacks sep p
      → Lacks sep q
      → Tail sep r
      → Tail sep s
      → p ++ r ≡ q ++ s
      → (p ≡ q) × (r ≡ s)
  append-inj_Lacks [] [] hp hq tr ts e = (refl, e)
  append-inj_Lacks [] (c ∷ q) hp hq stop ts e = cc
  append-inj_Lacks [] (c ∷ q) hp hq (more r) ts e = absurd (hq.0 (ground arith))
  append-inj_Lacks (c ∷ p) [] hp hq tr stop e = cc
  append-inj_Lacks (c ∷ p) [] hp hq tr (more s) e = absurd (hp.0 (ground arith))
  append-inj_Lacks (c ∷ p) (d ∷ q) hp hq tr ts e =
      let rest = append-inj_Lacks p q hp.1 hq.1 tr ts (cc) in (cc rest.0, rest.1)

  pub Tail-join_rest : (parts : List Text) → Tail sep (join_rest (sep ∷ []) parts)
  Tail-join_rest [] = stop
  Tail-join_rest (p ∷ parts) = more (p ++ join_rest (sep ∷ []) parts)

  pub join_rest-inj :
      (ps qs : List Text)
      → All (Lacks sep) ps
      → All (Lacks sep) qs
      → join_rest (sep ∷ []) ps ≡ join_rest (sep ∷ []) qs
      → ps ≡ qs
  join_rest-inj [] [] hp hq e = refl
  join_rest-inj [] (q ∷ qs) hp hq e = cc
  join_rest-inj (p ∷ ps) [] hp hq e = cc
  join_rest-inj (p ∷ ps) (q ∷ qs) hp hq e =
      let rest : (p ≡ q) × (join_rest (sep ∷ []) ps ≡ join_rest (sep ∷ []) qs) =
        append-inj_Lacks p q hp.0 hq.0 (Tail-join_rest ps) (Tail-join_rest qs) (cc) in
      cc (rest.0, join_rest-inj ps qs hp.1 hq.1 rest.1)

pub append-inj_left : (p : Text) {r s : Text} → p ++ r ≡ p ++ s → r ≡ s
append-inj_left [] e = e
append-inj_left (c ∷ p) e = append-inj_left p (cc)

-- Texts of one length can be told apart from what follows them.
pub append-inj_length :
    (p q : Text) {r s : Text} → length p ≡ length q → p ++ r ≡ q ++ s → (p ≡ q) × (r ≡ s)
append-inj_length [] [] h e = (refl, e)
append-inj_length [] (d ∷ q) h e = absurd (omega arith)
append-inj_length (c ∷ p) [] h e = absurd (omega arith)
append-inj_length (c ∷ p) (d ∷ q) {r} {s} h e =
    let tails : p ++ r ≡ q ++ s = cc in
    let rest = append-inj_length p q (omega arith) tails in (cc rest.0, rest.1)
