-- ===== src/Scaffold/Source.antt =====
-- The string operations of scripts/generate_scaffold.py, and its `py_module`. `capitalize` and
-- `title` change ASCII letters only; the tables of the script hold no others.
use ai_developer_copilot_pla.Prelude.{
  ℕ, ◌+◌, ◌-◌, ◌==◌, Bool, true, false, ◌&&◌, List, [], ◌∷◌, ◌++◌, String, leb, if◌then◌else◌,
}
use ai_developer_copilot_pla.Text.{Text, codes}

abbrev pub quotes : Text
quotes = b'"' ∷ b'"' ∷ b'"' ∷ []

abbrev pub newline : ℕ
newline = 10

-- A text of whole lines.
unfoldable pub lines : List String → Text
lines [] = []
lines (s ∷ ss) = codes s ++ (newline ∷ lines ss)

-- The parts of an f-string.
unfoldable pub concat : List Text → Text
concat [] = []
concat (s ∷ ss) = s ++ concat ss

unfoldable pub py_module : Text → Text → Text
py_module doc body = quotes ++ (doc ++ (quotes ++ (newline ∷ newline ∷ (body ++ newline ∷ []))))

abbrev is_lower : ℕ → Bool
is_lower c = leb b'a' c && leb c b'z'

abbrev is_upper : ℕ → Bool
is_upper c = leb b'A' c && leb c b'Z'

abbrev upper : ℕ → ℕ
upper c = if is_lower c then c - 32 else c

abbrev lower : ℕ → ℕ
lower c = if is_upper c then c + 32 else c

abbrev lowered : Text → Text
lowered [] = []
lowered (c ∷ s) = lower c ∷ lowered s

-- `s.capitalize()`.
unfoldable pub capitalize : Text → Text
capitalize [] = []
capitalize (c ∷ s) = upper c ∷ lowered s

-- `s.title()`; `after_letter` tells whether the character before `s` is a letter.
abbrev titled : Bool → Text → Text
titled after_letter [] = []
titled true (c ∷ s) = lower c ∷ titled (is_lower (lower c)) s
titled false (c ∷ s) = upper c ∷ titled (is_upper (upper c)) s

unfoldable pub title : Text → Text
title s = titled false s

abbrev onto_first : ℕ → List Text → List Text
onto_first c [] = (c ∷ []) ∷ []
onto_first c (s ∷ p) = (c ∷ s) ∷ p

-- `s.split(sep)` at one character.
unfoldable pub split : ℕ → Text → List Text
split sep [] = [] ∷ []
split sep (c ∷ s) = let p = split sep s in if c == sep then [] ∷ p else onto_first c p
