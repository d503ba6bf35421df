-- ===== src/Tests/Scaffold.antt =====
-- The generator on an empty tree, and on one in which a source file has been edited.
use mathlib.Core.List.{flatten}
use ai_developer_copilot_pla.Prelude.{
  ◌≡◌, ◌≢◌, refl, [], ◌∷◌, none, some, inl, inr, All, ◌++◌, Bool, true, false, Bool-cases, Option,
}
use ai_developer_copilot_pla.Text.{Text, codes}
use ai_developer_copilot_pla.Exn.{ok}
use ai_developer_copilot_pla.Scaffold.Files.{
  FilePath, Node, Files, directory, file, eq_path, eq_path_sound, mkdir_below, write_text,
}
use ai_developer_copilot_pla.Scaffold.Generate.{segments, init_text, write}
use ai_developer_copilot_pla.Scaffold.Main.{DocsSource, builds, main}
use ai_developer_copilot_pla.Scaffold.Tidy.{texts}
use ai_developer_copilot_pla.Scaffold.Refinement.{wanted, IsReady, generated, main_refines}
use ai_developer_copilot_pla.Scaffold.Written.{Holds, main_overwrites}
use ai_developer_copilot_pla.Scaffold.Twice.{main_again}
use ai_developer_copilot_pla.Scaffold.Directories.{covered, HasNoFiles}

abbrev empty : Files
empty p = none

empty-HasNoFiles : HasNoFiles empty
empty-HasNoFiles p content e = cc

segments_test : segments (codes "backend/app") ≡ codes "backend" ∷ codes "app" ∷ []
unfolding segments
segments_test = refl

init_text_test :
    init_text (codes "backend/app/agents") ≡ codes "\"\"\"Package: agents.\"\"\"" ++ 10 ∷ []
unfolding init_text
init_text_test = refl

write_test :
    (write (codes "a/b.py") (codes "x") empty).1 (codes "a" ∷ codes "b.py" ∷ [])
    ≡ some (file (codes "x"))
unfolding write mkdir_below segments write_text
write_test = refl

-- A document for every name.
abbrev mirror : DocsSource
mirror name = some (file name)

mirror_files : (name : Text) → mirror name ≢ some directory
mirror_files name e = cc

abbrev main_path : FilePath
main_path = codes "backend" ∷ codes "app" ∷ codes "main.py" ∷ []

abbrev node_if : Bool → Option Node
node_if true = some (file (codes "edited"))
node_if false = none

-- `backend/app/main.py` has been edited, and nothing else is there.
abbrev edited : Files
edited p = node_if (eq_path main_path p)

main_path_free : covered main_path wanted ≡ false
unfolding wanted segments
main_path_free = refl

edited-IsReady : IsReady edited
edited-IsReady = record {
  no_directory = λ p h. elim (Bool-cases (eq_path main_path p)) [
    | inl same ↦ cc (rw same at h)
    | inr differ ↦ cc (rw differ at h)
  ];
  no_file = λ p c h. elim (Bool-cases (eq_path main_path p)) [
    | inl same ↦ rw (eq_path_sound main_path p same) at main_path_free
    | inr differ ↦ cc (rw differ at h)
  ];
}

main_refines_example :
    (gs : Files) × (main mirror edited ≡ (ok tt, gs))
    × IsReady gs
    × (texts gs ≡ generated mirror (texts edited))
main_refines_example = main_refines mirror mirror_files edited edited-IsReady

main_overwrites_example :
    (gs : Files) × (main mirror edited ≡ (ok tt, gs)) × All (Holds (texts gs)) (flatten builds)
main_overwrites_example = main_overwrites mirror mirror_files edited edited-IsReady

main_again_example :
    (gs hs : Files) × (main mirror edited ≡ (ok tt, gs))
    × (main mirror gs ≡ (ok tt, hs))
    × (texts hs ≡ texts gs)
main_again_example = main_again mirror mirror_files edited edited-IsReady
