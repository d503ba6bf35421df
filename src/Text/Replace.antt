-- ===== src/Text/Replace.antt =====
-- Replacing one character by another, which loses nothing of a text that lacks the new one.
use ai_developer_copilot_pla.Prelude.{ℕ, ◌≡◌, refl, [], ◌∷◌, arith, ◌≢◌, length, length-map}
use ai_developer_copilot_pla.Text.{Text, replace, replace_char, Lacks}

module _ (old new : ℕ) where
  pub length-replace : (s : Text) → length (replace old new s) ≡ length s
  unfolding replace
  length-replace s = length-map (replace_char old new) s

  replace_char-inj :
      (c d : ℕ) → c ≢ new → d ≢ new → replace_char old new c ≡ replace_char old new d → c ≡ d
  replace_char-inj c d hc hd e = ground arith

  pub replace-inj :
      (s t : Text) → Lacks new s → Lacks new t → replace old new s ≡ replace old new t → s ≡ t
  unfolding replace
  replace-inj [] [] hs ht e = refl
  replace-inj [] (d ∷ t) hs ht e = cc
  replace-inj (c ∷ s) [] hs ht e = cc
  replace-inj (c ∷ s) (d ∷ t) hs ht e =
      cc (replace_char-inj c d hs.0 ht.0 (cc), replace-inj s t hs.1 ht.1 (cc))

  replace_char-ne : (c : ℕ) → old ≢ new → replace_char old new c ≢ old
  replace_char-ne c h e = ground arith

  pub replace-Lacks : (s : Text) → old ≢ new → Lacks old (replace old new s)
  unfolding replace
  replace-Lacks [] h = tt
  replace-Lacks (c ∷ s) h = (replace_char-ne c h, replace-Lacks s h)
