-- ===== src/Scaffold/Files.antt =====
-- The operations of `pathlib` that scripts/generate_scaffold.py uses on the tree under its `ROOT`:
-- `mkdir(parents=True, exist_ok=True)`, `exists` and `write_text`. A path is the list of its
-- segments below the root.
use ai_developer_copilot_pla.Prelude.{
  ◌≡◌, refl, Bool, true, false, ◌&&◌, List, [], ◌∷◌, ◌++◌, Option, none, some, if◌then◌else◌, arith,
}
use ai_developer_copilot_pla.Text.{Text, codes, eq_text, eq_text_refl, eq_text_sound}
use ai_developer_copilot_pla.Exn.{Exn, ok, other}
use ai_developer_copilot_pla.Exec.{Exec, pure, raise, modify, ◌>>◌}

abbrev pub FilePath : Type 0
FilePath = List Text

pub data Node : Type 0 where
  directory : Node
  file : Text → Node

-- What stands at each path but the root.
abbrev pub Files : Type 0
Files = FilePath → Option Node

abbrev pub eq_path : FilePath → FilePath → Bool
eq_path [] [] = true
eq_path [] (t ∷ q) = false
eq_path (s ∷ p) [] = false
eq_path (s ∷ p) (t ∷ q) = eq_text s t && eq_path p q

pub eq_path_refl : (p : FilePath) → eq_path p p ≡ true
eq_path_refl [] = refl
eq_path_refl (s ∷ p) = rw (eq_text_refl s) (eq_path_refl p)

pub eq_path_sound : (p q : FilePath) → eq_path p q ≡ true → p ≡ q
eq_path_sound [] [] h = refl
eq_path_sound [] (t ∷ q) h = cc
eq_path_sound (s ∷ p) [] h = cc
eq_path_sound (s ∷ p) (t ∷ q) h = ground (arith, eq_text_sound s t, eq_path_sound p q)

abbrev pub set : FilePath → Node → Files → Files
set path node fs p = if eq_path path p then some node else fs p

-- The root is a directory.
abbrev pub node_at : Files → FilePath → Option Node
node_at fs [] = some directory
node_at fs (s ∷ p) = fs (s ∷ p)

-- The subclasses of `OSError` that the calls raise are not told apart.
abbrev pub os_error : Exn
os_error = other (codes "OSError")

-- `mkdir` of a directory whose parent is there.
abbrev pub make_one : FilePath → Option Node → Exec Files (Unit {0})
make_one path none = modify (set path directory)
make_one path (some directory) = pure tt
make_one path (some (file content)) = raise os_error

-- `mkdir` of the directories below `above`, from the top.
unfoldable pub mkdir_below : FilePath → FilePath → Exec Files (Unit {0})
mkdir_below above [] fs = (ok tt, fs)
mkdir_below above (s ∷ rest) fs =
    (do make_one (above ++ s ∷ []) (fs (above ++ s ∷ [])); mkdir_below (above ++ s ∷ []) rest) fs

abbrev pub mkdir : FilePath → Exec Files (Unit {0})
mkdir path = mkdir_below [] path

-- The parent has to be a directory, and the path none.
abbrev pub put : FilePath → Text → Option Node → Option Node → Exec Files (Unit {0})
put path content (some directory) none = modify (set path (file content))
put path content (some directory) (some (file before)) = modify (set path (file content))
put path content above here = raise os_error

-- `(directory / name).write_text(content)`.
unfoldable pub write_text : FilePath → Text → Text → Exec Files (Unit {0})
write_text above name content fs =
    put (above ++ name ∷ []) content (node_at fs above) (fs (above ++ name ∷ [])) fs
