-- ===== src/Scaffold/Generate.antt =====
-- `py_module`, `ensure_dirs` and `write` of scripts/generate_scaffold.py.
use ai_developer_copilot_pla.Prelude.{
  ℕ, zero, suc, ◌-◌, List, [], ◌∷◌, ◌++◌, Option, none, some, length,
}
use ai_developer_copilot_pla.Text.{Text, codes, strip_prefix}
use ai_developer_copilot_pla.Exec.{Exec, pure, ◌>>◌}
use ai_developer_copilot_pla.Scaffold.Files.{FilePath, Node, Files, mkdir, write_text}
use ai_developer_copilot_pla.Scaffold.Source.{quotes, newline, split}
use ai_developer_copilot_pla.Scaffold.Layout.{dirs, init_packages}

-- The segments of a path with slashes.
unfoldable pub segments : Text → FilePath
unfolding split
segments s = split b'/' s

-- `s.replace(old, '')`, from the left; `skip` characters are still those of an `old`.
unfoldable pub without : Text → ℕ → Text → Text
without old skip [] = []
without old (suc skip) (c ∷ s) = without old skip s
without old zero (c ∷ s) = elim (strip_prefix old (c ∷ s)) [
  | none ↦ c ∷ without old zero s
  | some rest ↦ without old (length old - 1) s
]

unfoldable pub init_text : Text → Text
unfolding without
init_text pkg =
    quotes
    ++ (codes "Package: "
        ++ (without (codes "backend/app/") 0 pkg ++ (codes "." ++ (quotes ++ newline ∷ []))))

abbrev pub init_name : Text
init_name = codes "__init__.py"

-- `if not init.exists(): init.write_text(...)`.
abbrev pub unless_there : Option Node → Exec Files (Unit {0}) → Exec Files (Unit {0})
unless_there none m = m
unless_there (some node) m = pure tt

unfoldable pub ensure_init : Text → Exec Files (Unit {0})
ensure_init pkg fs =
    unless_there (fs (segments pkg ++ init_name ∷ []))
      (write_text (segments pkg) init_name (init_text pkg)) fs

-- The two loops of `ensure_dirs`.
unfoldable pub make_dirs : List Text → Exec Files (Unit {0})
make_dirs [] = pure tt
make_dirs (d ∷ ds) = do mkdir (segments d); make_dirs ds

unfoldable pub ensure_inits : List Text → Exec Files (Unit {0})
ensure_inits [] = pure tt
ensure_inits (pkg ∷ pkgs) = do ensure_init pkg; ensure_inits pkgs

unfoldable pub ensure_dirs : Exec Files (Unit {0})
ensure_dirs = do make_dirs dirs; ensure_inits init_packages

abbrev pub parent : FilePath → FilePath
parent [] = []
parent (s ∷ []) = []
parent (s ∷ t ∷ p) = s ∷ parent (t ∷ p)

abbrev pub name_of : FilePath → Text
name_of [] = []
name_of (s ∷ []) = s
name_of (s ∷ t ∷ p) = name_of (t ∷ p)

unfoldable pub write : Text → Text → Exec Files (Unit {0})
write relative content = do
  mkdir (parent (segments relative))
  write_text (parent (segments relative)) (name_of (segments relative)) content
