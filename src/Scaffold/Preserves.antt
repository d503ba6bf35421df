-- ===== src/Scaffold/Preserves.antt =====
-- What a run of `ensure_dirs` leaves as it was.
use ai_developer_copilot_pla.Prelude.{
  ◌≡◌, ap, List, [], ◌∷◌, ◌++◌, Option, none, some, inl, inr, Bool-cases, Option-cases,
}
use ai_developer_copilot_pla.Text.{Text}
use ai_developer_copilot_pla.Exn.{Result, ok, raised}
use ai_developer_copilot_pla.Exec.{Exec, resume}
use ai_developer_copilot_pla.Scaffold.Files.{
  FilePath, Node, Files, directory, file, eq_path, eq_path_sound, set, node_at, mkdir_below,
  make_one, put, write_text,
}
use ai_developer_copilot_pla.Scaffold.Layout.{dirs, init_packages}
use ai_developer_copilot_pla.Scaffold.Generate.{
  segments, init_name, init_text, ensure_init, make_dirs, ensure_inits, ensure_dirs,
}

-- Whatever stands somewhere in `fs` stands there in `gs` too.
abbrev pub Extends : Files → Files → Type 0
Extends fs gs = (p : FilePath) (node : Node) → fs p ≡ some node → gs p ≡ some node

pub set-Extends :
    (fs : Files) (path : FilePath) (node : Node) → fs path ≡ none → Extends fs (set path node fs)
set-Extends fs path node h p old there = elim (Bool-cases (eq_path path p)) [
  | inl same ↦ cc (ap fs (eq_path_sound path p same))
  | inr differ ↦ rw differ there
]

Extends-then :
    (r : Result (Unit {0})) (fs gs : Files) (m : Exec Files (Unit {0}))
    → Extends fs gs
    → ((hs : Files) → Extends hs (m hs).1)
    → Extends fs (resume r gs (λ _. m)).1
Extends-then (ok done) fs gs m e h p node there = h gs p node (e p node there)
Extends-then (raised x) fs gs m e h p node there = e p node there

make_one-Extends : (path : FilePath) (fs : Files) → Extends fs (make_one path (fs path) fs).1
make_one-Extends path fs = elim (Option-cases (fs path)) [
  | inl h ↦ rw h (set-Extends fs path directory h)
  | inr (directory, h) ↦ rw h (λ p node there. there)
  | inr (file c, h) ↦ rw h (λ p node there. there)
]

pub mkdir_below-Extends :
    (above path : FilePath) (fs : Files) → Extends fs (mkdir_below above path fs).1
unfolding mkdir_below
mkdir_below-Extends above [] fs = λ p node there. there
mkdir_below-Extends above (s ∷ rest) fs =
    Extends-then (make_one (above ++ s ∷ []) (fs (above ++ s ∷ [])) fs).0 fs
      (make_one (above ++ s ∷ []) (fs (above ++ s ∷ [])) fs).1 (mkdir_below (above ++ s ∷ []) rest)
      (make_one-Extends (above ++ s ∷ []) fs) (mkdir_below-Extends (above ++ s ∷ []) rest)

pub make_dirs-Extends : (ds : List Text) (fs : Files) → Extends fs (make_dirs ds fs).1
unfolding make_dirs
make_dirs-Extends [] fs = λ p node there. there
make_dirs-Extends (d ∷ ds) fs =
    Extends-then (mkdir_below [] (segments d) fs).0 fs (mkdir_below [] (segments d) fs).1
      (make_dirs ds) (mkdir_below-Extends [] (segments d) fs) (make_dirs-Extends ds)

put-Extends :
    (path : FilePath) (content : Text) (above : Option Node) (fs : Files)
    → fs path ≡ none
    → Extends fs (put path content above (fs path) fs).1
put-Extends path content (some directory) fs h = rw h (set-Extends fs path (file content) h)
put-Extends path content (some (file c)) fs h = λ p node there. there
put-Extends path content none fs h = λ p node there. there

write_text-Extends :
    (above : FilePath) (name content : Text) (fs : Files)
    → fs (above ++ name ∷ []) ≡ none
    → Extends fs (write_text above name content fs).1
unfolding write_text
write_text-Extends above name content fs h =
    put-Extends (above ++ name ∷ []) content (node_at fs above) fs h

pub ensure_init-Extends : (pkg : Text) (fs : Files) → Extends fs (ensure_init pkg fs).1
unfolding ensure_init
ensure_init-Extends pkg fs = elim (Option-cases (fs (segments pkg ++ init_name ∷ []))) [
  | inl h ↦ rw h (write_text-Extends (segments pkg) init_name (init_text pkg) fs h)
  | inr (node, h) ↦ rw h (λ p node there. there)
]

pub ensure_inits-Extends : (pkgs : List Text) (fs : Files) → Extends fs (ensure_inits pkgs fs).1
unfolding ensure_inits
ensure_inits-Extends [] fs = λ p node there. there
ensure_inits-Extends (pkg ∷ pkgs) fs =
    Extends-then (ensure_init pkg fs).0 fs (ensure_init pkg fs).1 (ensure_inits pkgs)
      (ensure_init-Extends pkg fs) (ensure_inits-Extends pkgs)

-- Whatever the tree is, and also if the run raises, `ensure_dirs` removes and overwrites nothing:
-- every directory is still there, and every file with its content.
ensure_dirs-Extends : (fs : Files) → Extends fs (ensure_dirs fs).1
unfolding ensure_dirs
ensure_dirs-Extends fs =
    Extends-then (make_dirs dirs fs).0 fs (make_dirs dirs fs).1 (ensure_inits init_packages)
      (make_dirs-Extends dirs fs) (ensure_inits-Extends init_packages)
