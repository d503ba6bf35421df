-- ===== src/Scaffold/Directories.antt =====
-- The directories that a run of `ensure_dirs` makes.
use ai_developer_copilot_pla.Prelude.{
  ◌≡◌, ◌≢◌, refl, List, [], ◌∷◌, ◌++◌, Bool, true, false, ◌&&◌, ◌||◌, some, inl, inr, Bool-cases,
  Option-cases, arith, append_assoc, All,
}
use ai_developer_copilot_pla.Text.{Text, eq_text, eq_text_sound}
use ai_developer_copilot_pla.Exn.{ok}
use ai_developer_copilot_pla.Scaffold.Files.{
  FilePath, Node, Files, directory, file, eq_path_refl, set, node_at, mkdir_below, make_one,
}
use ai_developer_copilot_pla.Scaffold.Layout.{dirs, init_packages}
use ai_developer_copilot_pla.Scaffold.Generate.{segments, init_name, make_dirs}
use ai_developer_copilot_pla.Scaffold.Preserves.{Extends, mkdir_below-Extends, make_dirs-Extends}

abbrev pub HasNoFiles : Files → Type 0
HasNoFiles fs = (p : FilePath) (content : Text) → fs p ≢ some (file content)

abbrev pub is_prefix : FilePath → FilePath → Bool
is_prefix [] p = true
is_prefix (t ∷ q) [] = false
is_prefix (t ∷ q) (s ∷ p) = eq_text t s && is_prefix q p

-- The path is one of the directories, or above one.
abbrev pub covered : FilePath → List Text → Bool
covered q [] = false
covered q (d ∷ ds) = is_prefix q (segments d) || covered q ds

abbrev pub all_covered : List Text → List Text → Bool
all_covered [] ds = true
all_covered (d ∷ names) ds = covered (segments d) ds && all_covered names ds

HasNoFiles-set : (fs : Files) (path : FilePath) → HasNoFiles fs → HasNoFiles (set path directory fs)
HasNoFiles-set fs path h p content = ground (arith, h p content)

make_one_made :
    (path : FilePath) (fs : Files)
    → HasNoFiles fs
    → (gs : Files) × (make_one path (fs path) fs ≡ (ok tt, gs))
      × HasNoFiles gs
      × (gs path ≡ some directory)
make_one_made path fs h = elim (Option-cases (fs path)) [
  | inl n ↦ (set path directory fs, rw n, HasNoFiles-set fs path h, rw (eq_path_refl path))
  | inr (directory, n) ↦ (fs, rw n, h, n)
  | inr (file c, n) ↦ absurd (h path c n)
]

-- The directories of a path below `above`.
abbrev pub AllMade : FilePath → FilePath → Files → Type 0
AllMade above path gs =
    (t : Text) (q : FilePath) → is_prefix (t ∷ q) path ≡ true → gs (above ++ t ∷ q) ≡ some directory

pub AllMade-step :
    (above : FilePath) (s : Text) (rest : FilePath) (gs : Files)
    → gs (above ++ s ∷ []) ≡ some directory
    → AllMade (above ++ s ∷ []) rest gs
    → AllMade above (s ∷ rest) gs
AllMade-step above s rest gs h made t [] e = rw (eq_text_sound t s (ground (arith, e))) h
AllMade-step above s rest gs h made t (u ∷ q) e =
    rw (eq_text_sound t s (ground (arith, e)))
      (rw (append_assoc above (s ∷ []) (u ∷ q)) at (made u q (ground (arith, e))))

mkdir_below_made :
    (above path : FilePath) (fs : Files)
    → HasNoFiles fs
    → (gs : Files) × (mkdir_below above path fs ≡ (ok tt, gs))
      × HasNoFiles gs
      × AllMade above path gs
unfolding mkdir_below
mkdir_below_made above [] fs h = (fs, refl, h, λ t q e. cc)
mkdir_below_made above (s ∷ rest) fs h =
    let (fs₁, e₁, h₁, d₁) = make_one_made (above ++ s ∷ []) fs h in
    let (gs, e₂, h₂, d₂) = mkdir_below_made (above ++ s ∷ []) rest fs₁ h₁ in
    let kept : Extends fs₁ gs = rw e₂ at (mkdir_below-Extends (above ++ s ∷ []) rest fs₁) in
    (gs, rw (e₁, e₂), h₂, AllMade-step above s rest gs (kept (above ++ s ∷ []) directory d₁) d₂)

abbrev pub AllCovered : List Text → Files → Type 0
AllCovered ds gs =
    (t : Text) (q : FilePath) → covered (t ∷ q) ds ≡ true → gs (t ∷ q) ≡ some directory

pub AllCovered-step :
    (d : Text) (ds : List Text) (gs : Files)
    → AllMade [] (segments d) gs
    → AllCovered ds gs
    → AllCovered (d ∷ ds) gs
AllCovered-step d ds gs here there t q e = elim (Bool-cases (is_prefix (t ∷ q) (segments d))) [
  | inl h ↦ here t q h
  | inr h ↦ there t q (rw h at e)
]

pub make_dirs_made :
    (ds : List Text) (fs : Files)
    → HasNoFiles fs
    → (gs : Files) × (make_dirs ds fs ≡ (ok tt, gs)) × AllCovered ds gs
unfolding make_dirs
make_dirs_made [] fs h = (fs, refl, λ t q e. cc)
make_dirs_made (d ∷ ds) fs h =
    let (fs₁, e₁, h₁, d₁) = mkdir_below_made [] (segments d) fs h in
    let (gs, e₂, d₂) = make_dirs_made ds fs₁ h₁ in
    let kept : Extends fs₁ gs = rw e₂ at (make_dirs-Extends ds fs₁) in
    (gs, rw (e₁, e₂), AllCovered-step d ds gs (λ t q e. kept (t ∷ q) directory (d₁ t q e)) d₂)

-- The path of the text is a directory.
abbrev pub IsDir : Files → Text → Type 0
IsDir fs d = node_at fs (segments d) ≡ some directory

abbrev pub HasInit : Files → Text → Type 0
HasInit fs pkg = (node : Node) × (fs (segments pkg ++ init_name ∷ []) ≡ some node)

pub covered-directory :
    (ds : List Text) (gs : Files)
    → AllCovered ds gs
    → (p : FilePath) → covered p ds ≡ true
    → node_at gs p ≡ some directory
covered-directory ds gs h [] e = refl
covered-directory ds gs h (t ∷ q) e = h t q e

pub all_covered-IsDir :
    (ds : List Text) (gs : Files)
    → AllCovered ds gs
    → (names : List Text) → all_covered names ds ≡ true
    → All (IsDir gs) names
all_covered-IsDir ds gs h [] e = tt
all_covered-IsDir ds gs h (d ∷ names) e = (
  covered-directory ds gs h (segments d) (ground (arith, e)),
  all_covered-IsDir ds gs h names (ground (arith, e)),
)

pub dirs_covered : all_covered dirs dirs ≡ true
unfolding dirs segments
dirs_covered = refl

pub packages_covered : all_covered init_packages dirs ≡ true
unfolding dirs init_packages segments
packages_covered = refl
