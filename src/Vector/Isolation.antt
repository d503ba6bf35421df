-- ===== src/Vector/Isolation.antt =====
-- Which Qdrant collections can have one name, and which characters a name has.
use ai_developer_copilot_pla.Prelude.{
  ℕ, ◌≡◌, sym, ◌∙◌, ◌⊎◌, ◌≤◌, [], ◌∷◌, All, All-append, ◌≢◌, arith, length,
}
use ai_developer_copilot_pla.Text.{Text, codes, Lacks, replace, replace_char}
use ai_developer_copilot_pla.Text.Join.{append-inj_length, append-inj_left}
use ai_developer_copilot_pla.Text.Replace.{length-replace, replace-inj, replace-Lacks}
use ai_developer_copilot_pla.Vector.Names.{collection_name}

-- A hexadecimal digit or a hyphen.
abbrev pub UuidChar : ℕ → Type 0
UuidChar c =
    ((b'0' ≤ c) × (c ≤ b'9')) ⊎ ((b'a' ≤ c) × (c ≤ b'f')) ⊎ ((b'A' ≤ c) × (c ≤ b'F')) ⊎ (c ≡ b'-')

-- The texts of 36 hexadecimal digits and hyphens; those of UUIDs are among them.
pub record IsUuid (s : Text) : Type 0 where
  pub long : length s ≡ 36
  pub chars : All UuidChar s

-- What Qdrant allows in a name, `[a-zA-Z0-9_-]`.
abbrev pub NameChar : ℕ → Type 0
NameChar c =
    ((b'0' ≤ c) × (c ≤ b'9'))
    ⊎ ((b'a' ≤ c) × (c ≤ b'z'))
    ⊎ ((b'A' ≤ c) × (c ≤ b'Z'))
    ⊎ (c ≡ b'_')
    ⊎ (c ≡ b'-')

UuidChar-ne : (c : ℕ) → UuidChar c → c ≢ b'_'
UuidChar-ne c h e = omega arith

UuidChars-Lacks : (s : Text) → All UuidChar s → Lacks b'_' s
UuidChars-Lacks [] h = tt
UuidChars-Lacks (c ∷ s) h = (UuidChar-ne c h.0, UuidChars-Lacks s h.1)

-- For texts of 36 hexadecimal digits and hyphens, as UUIDs are, two pairs of tenant and repository
-- have the same collection name only if they are the same pair.
pub collection_name-inj :
    (t u r s : Text)
    → IsUuid t
    → IsUuid u
    → IsUuid r
    → IsUuid s
    → collection_name t r ≡ collection_name u s
    → (t ≡ u) × (r ≡ s)
unfolding collection_name
collection_name-inj t u r s ht hu hr hs e =
    let swap : Text → Text = replace b'-' b'_' in
    let same_length : length (swap t) ≡ length (swap u) =
      length-replace b'-' b'_' t ∙ ht.long ∙ sym hu.long ∙ sym (length-replace b'-' b'_' u) in
    let halves =
      append-inj_length (swap t) (swap u) same_length (append-inj_left (codes "tenant_") e) in
    (
      replace-inj b'-' b'_' t u (UuidChars-Lacks t ht.chars) (UuidChars-Lacks u hu.chars) halves.0,
      replace-inj b'-' b'_' r s (UuidChars-Lacks r hr.chars) (UuidChars-Lacks s hs.chars)
          (append-inj_left (codes "_repo_") halves.1),
    )

replace_char-NameChar : (c : ℕ) → UuidChar c → NameChar (replace_char b'-' b'_' c)
replace_char-NameChar c h = ground arith

replace-NameChars : (s : Text) → All UuidChar s → All NameChar (replace b'-' b'_' s)
unfolding replace
replace-NameChars [] h = tt
replace-NameChars (c ∷ s) h = (replace_char-NameChar c h.0, replace-NameChars s h.1)

prefix-NameChars : All NameChar (codes "tenant_")
prefix-NameChars = omega arith

infix-NameChars : All NameChar (codes "_repo_")
infix-NameChars = omega arith

-- Of ids of hexadecimal digits and hyphens the collection name consists of characters that Qdrant
-- allows, and no hyphen is among them.
collection_name-NameChars :
    (t r : Text)
    → All UuidChar t
    → All UuidChar r
    → All NameChar (collection_name t r) × Lacks b'-' (collection_name t r)
unfolding collection_name
collection_name-NameChars t r ht hr = (
  All-append NameChar (codes "tenant_") _ prefix-NameChars (
      All-append NameChar (replace b'-' b'_' t) _ (replace-NameChars t ht)
        (All-append NameChar (codes "_repo_") _ infix-NameChars (replace-NameChars r hr))),
  All-append (λ c. c ≢ b'-') (codes "tenant_") _ (omega arith)
      (All-append (λ c. c ≢ b'-') (replace b'-' b'_' t) _ (replace-Lacks b'-' b'_' t (omega arith))
        (All-append (λ c. c ≢ b'-') (codes "_repo_") _ (omega arith)
          (replace-Lacks b'-' b'_' r (omega arith)))),
)
