-- ===== src/Scaffold/Tidy.antt =====
-- Trees that the generator can write to, and what its steps do to the texts of their files.
use ai_developer_copilot_pla.Prelude.{
  ◌≡◌, refl, ap, List, [], ◌∷◌, ◌++◌, Bool, true, false, ◌||◌, Option, none, some, inl, inr,
  Bool-cases, arith, if◌then◌else◌,
}
use ai_developer_copilot_pla.Text.{Text}
use ai_developer_copilot_pla.Scaffold.Files.{
  FilePath, Node, Files, directory, file, eq_path, eq_path_sound, set,
}
use ai_developer_copilot_pla.Scaffold.Generate.{segments}
use ai_developer_copilot_pla.Scaffold.Directories.{is_prefix, covered}

-- The contents of the files, which forget the directories.
abbrev pub Texts : Type 0
Texts = FilePath → Option Text

abbrev pub text_of : Option Node → Option Text
text_of none = none
text_of (some directory) = none
text_of (some (file content)) = some content

abbrev pub texts : Files → Texts
texts fs p = text_of (fs p)

-- One file has the content, and the others are as they were.
abbrev pub put_text : FilePath → Text → Texts → Texts
put_text path content t p = if eq_path path p then some content else t p

abbrev pub listed : FilePath → List FilePath → Bool
listed p [] = false
listed p (f ∷ files) = eq_path f p || listed p files

-- With `ds` the directories that are wanted and `files` the files: no file stands in the way of a
-- directory, and no directory at the place of a file.
pub record Tidy (ds : List Text) (files : List FilePath) (fs : Files) : Type 0 where
  pub no_directory : (p : FilePath) → fs p ≡ some directory → listed p files ≡ false
  pub no_file : (p : FilePath) (c : Text) → fs p ≡ some (file c) → covered p ds ≡ false

pub texts-set_directory :
    (fs : Files) (path p : FilePath) → fs path ≡ none → texts (set path directory fs) p ≡ texts fs p
texts-set_directory fs path p n = elim (Bool-cases (eq_path path p)) [
  | inl same ↦ rw (same, ← eq_path_sound path p same, n)
  | inr differ ↦ rw differ
]

pub texts-set_file :
    (fs : Files) (path p : FilePath) (content : Text)
    → texts (set path (file content) fs) p ≡ put_text path content (texts fs) p
texts-set_file fs path p content = ground arith

is_prefix-append : (q r p : FilePath) → is_prefix (q ++ r) p ≡ true → is_prefix q p ≡ true
is_prefix-append [] r p h = refl
is_prefix-append (t ∷ q) r [] h = cc
is_prefix-append (t ∷ q) r (s ∷ p) h = ground (arith, is_prefix-append q r p)

pub covered-append :
    (q r : FilePath) (ds : List Text) → covered (q ++ r) ds ≡ true → covered q ds ≡ true
covered-append q r [] h = cc
covered-append q r (d ∷ ds) h =
    ground (arith, is_prefix-append q r (segments d), covered-append q r ds)

pub listed_apart :
    (files : List FilePath) (f q : FilePath)
    → listed f files ≡ true
    → listed q files ≡ false
    → eq_path f q ≡ false
listed_apart files f q hf hq = elim (Bool-cases (eq_path f q)) [
  | inl same ↦ cc (ap (λ p. listed p files) (eq_path_sound f q same))
  | inr differ ↦ differ
]

-- `ds` and `files` as above; the directories `base` are among `ds`.
module _ (ds base : List Text) (files : List FilePath)
    (apart : (p : FilePath) → covered p ds ≡ true → listed p files ≡ false)
    (within : (p : FilePath) → covered p base ≡ true → covered p ds ≡ true) where
  pub set_directory-Tidy :
      (fs : Files) (path : FilePath)
      → Tidy ds files fs
      → covered path ds ≡ true
      → Tidy ds files (set path directory fs)
  set_directory-Tidy fs path t c = record {
    no_directory = λ p h. elim (Bool-cases (eq_path path p)) [
      | inl same ↦ rw (eq_path_sound path p same) at (apart path c)
      | inr differ ↦ t.no_directory p (rw differ at h)
    ];
    no_file = λ p content h. elim (Bool-cases (eq_path path p)) [
      | inl same ↦ cc (rw same at h)
      | inr differ ↦ t.no_file p content (rw differ at h)
    ];
  }

  pub set_file-Tidy :
      (fs : Files) (path : FilePath) (content : Text)
      → Tidy ds files fs
      → listed path files ≡ true
      → Tidy ds files (set path (file content) fs)
  set_file-Tidy fs path content t l = record {
    no_directory = λ p h. elim (Bool-cases (eq_path path p)) [
      | inl same ↦ cc (rw same at h)
      | inr differ ↦ t.no_directory p (rw differ at h)
    ];
    no_file = λ p c h. elim (Bool-cases (eq_path path p)) [
      | inl same ↦ elim (Bool-cases (covered p ds)) [
        | inl inside ↦ cc (apart p inside, rw (eq_path_sound path p same) at l)
        | inr outside ↦ outside
      ]
      | inr differ ↦ t.no_file p c (rw differ at h)
    ];
  }
