-- ===== src/Text.antt =====
-- Python's `str` as the list of its code points, with the string operations that the backend uses:
-- `==`, `startswith` with the slice behind the prefix, `str.join`, `str.replace` of one character by
-- another, `rstrip('/')`, and `str` of an `int`.
pub mod Join
pub mod Replace
use Prim.Native.Char.{code}
use ai_developer_copilot_pla.Prelude.{
  ℕ, zero, suc, ◌+◌, ◌/◌, ◌%◌, String, ◌≡◌, refl, Bool, true, false, ◌&&◌, List, [], ◌∷◌, ◌++◌, map,
  Option, none, some, ◌↔◌, arith, ◌==◌, ltb, if◌then◌else◌, ℤ, pos, negsuc, All, ◌≢◌, inl, inr,
  Bool-cases,
}

abbrev pub Text : Type 0
Text = List ℕ

-- The code points of a literal.
abbrev pub codes : String → Text
codes String.[] = []
codes (String.◌∷◌ c s) = code c ∷ codes s

abbrev pub eq_text : Text → Text → Bool
eq_text [] [] = true
eq_text [] (d ∷ t) = false
eq_text (c ∷ s) [] = false
eq_text (c ∷ s) (d ∷ t) = c == d && eq_text s t

pub eq_text_refl : (s : Text) → eq_text s s ≡ true
eq_text_refl [] = refl
eq_text_refl (c ∷ s) = ground (arith, eq_text_refl s)

pub eq_text_sound : (s t : Text) → eq_text s t ≡ true → s ≡ t
eq_text_sound [] [] h = refl
eq_text_sound [] (d ∷ t) h = cc
eq_text_sound (c ∷ s) [] h = cc
eq_text_sound (c ∷ s) (d ∷ t) h = ground (arith, eq_text_sound s t)

pub eq_text_ne : (s t : Text) → s ≢ t → eq_text s t ≡ false
eq_text_ne s t ne = elim (Bool-cases (eq_text s t)) [
  | inl same ↦ absurd (ne (eq_text_sound s t same))
  | inr differ ↦ differ
]

-- `if not s` of a text.
abbrev pub is_empty : Text → Bool
is_empty [] = true
is_empty (c ∷ s) = false

-- `s[len(prefix):]` if `s.startswith(prefix)`.
abbrev pub strip_prefix : Text → Text → Option Text
strip_prefix [] s = some s
strip_prefix (c ∷ prefix) [] = none
strip_prefix (c ∷ prefix) (d ∷ s) = if c == d then strip_prefix prefix s else none

-- The loop of `str.join` behind the first part.
abbrev pub join_rest : Text → List Text → Text
join_rest sep [] = []
join_rest sep (p ∷ parts) = sep ++ (p ++ join_rest sep parts)

abbrev pub join : Text → List Text → Text
join sep [] = []
join sep (p ∷ parts) = p ++ join_rest sep parts

-- `s.replace(old, new)` of one character by another.
abbrev pub replace_char : ℕ → ℕ → ℕ → ℕ
replace_char old new c = if c == old then new else c

unfoldable pub replace : ℕ → ℕ → Text → Text
replace old new s = map (replace_char old new) s

-- `s.rstrip('/')`.
abbrev pub keep_unless_last : ℕ → ℕ → Text → Text
keep_unless_last strip c [] = if c == strip then [] else c ∷ []
keep_unless_last strip c (d ∷ s) = c ∷ d ∷ s

unfoldable pub rstrip : ℕ → Text → Text
rstrip strip [] = []
rstrip strip (c ∷ s) = keep_unless_last strip c (rstrip strip s)

-- Decimal digits; a number has at most as many digits as one more than its value.
digits_fuel : ℕ → ℕ → Text
digits_fuel zero n = []
digits_fuel (suc f) n =
    let rest = digits_fuel f (n / 10) ++ ((b'0' + n % 10) ∷ []) in
    if ltb n 10 then (b'0' + n) ∷ [] else rest

unfoldable pub show_ℕ : ℕ → Text
unfolding digits_fuel
show_ℕ n = digits_fuel (suc n) n

-- `str(n)` of an `int`.
unfoldable pub show_int : ℤ → Text
unfolding show_ℕ
show_int (pos n) = show_ℕ n
show_int (negsuc n) = b'-' ∷ show_ℕ (suc n)

abbrev pub Lacks : ℕ → Text → Type 0
Lacks b = All (λ c. c ≢ b)

show_ℕ_test : show_ℕ 1204 ≡ codes "1204"
unfolding show_ℕ
show_ℕ_test = refl
