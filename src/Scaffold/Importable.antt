-- ===== src/Scaffold/Importable.antt =====
-- Which generated Python modules lie in a package.
use mathlib.Core.List.{flatten}
use mathlib.Core.Option
use ai_developer_copilot_pla.Prelude.{
  ◌≡◌, ◌≢◌, refl, List, [], ◌∷◌, ◌++◌, map, Bool, true, ◌&&◌, Option, none, some, inl, inr,
  Bool-cases, arith, All, if◌then◌else◌,
}
use ai_developer_copilot_pla.Text.{Text, codes}
use ai_developer_copilot_pla.Exn.{ok}
use ai_developer_copilot_pla.Scaffold.Files.{
  FilePath, Node, Files, directory, file, eq_path, eq_path_refl, eq_path_sound,
}
use ai_developer_copilot_pla.Scaffold.Layout.{init_packages}
use ai_developer_copilot_pla.Scaffold.Generate.{segments, parent, init_name, init_text}
use ai_developer_copilot_pla.Scaffold.Directories.{is_prefix}
use ai_developer_copilot_pla.Scaffold.Main.{DocsSource, doc_names, builds, main}
use ai_developer_copilot_pla.Scaffold.Tidy.{Texts, texts, put_text, listed}
use ai_developer_copilot_pla.Scaffold.Steps.{overlay, overlay_all}
use ai_developer_copilot_pla.Scaffold.Start.{
  put_missing, init_path, doc_path, with_inits, with_docs, with_doc,
}
use ai_developer_copilot_pla.Scaffold.Refinement.{IsReady, main_refines}

-- There is a file at the path.
abbrev pub Has : FilePath → Texts → Type 0
Has p t = (c : Text) × (t p ≡ some c)

put_text-Has :
    (p q : FilePath) (content : Text) (t : Texts) → Has p t → Has p (put_text q content t)
put_text-Has p q content t (c, h) = elim (Bool-cases (eq_path q p)) [
  | inl same ↦ (content, rw same)
  | inr differ ↦ (c, rw differ h)
]

overlay-Has :
    (p : FilePath) (writes : List (Text × Text)) (t : Texts) → Has p t → Has p (overlay writes t)
overlay-Has p [] t h = h
overlay-Has p ((r, content) ∷ writes) t h =
    overlay-Has p writes (put_text (segments r) content t) (put_text-Has p (segments r) content t h)

overlay_all-Has :
    (p : FilePath) (lists : List (List (Text × Text))) (t : Texts)
    → Has p t
    → Has p (overlay_all lists t)
overlay_all-Has p [] t h = h
overlay_all-Has p (writes ∷ lists) t h =
    overlay_all-Has p lists (overlay writes t) (overlay-Has p writes t h)

with_doc-Has :
    (p : FilePath) (name : Text) (node : Option Node) (t : Texts)
    → Has p t
    → Has p (with_doc name node t)
with_doc-Has p name none t h = h
with_doc-Has p name (some directory) t h = h
with_doc-Has p name (some (file content)) t h = put_text-Has p (doc_path name) content t h

with_docs-Has :
    (p : FilePath) (source : DocsSource) (names : List Text) (t : Texts)
    → Has p t
    → Has p (with_docs source names t)
with_docs-Has p source [] t h = h
with_docs-Has p source (name ∷ names) t h =
    with_docs-Has p source names (with_doc name (source name) t)
      (with_doc-Has p name (source name) t h)

put_missing-Has :
    (p q : FilePath) (content : Text) (t : Texts) → Has p t → Has p (put_missing q content t)
put_missing-Has p q content t (c, h) = elim (Bool-cases (eq_path q p)) [
  | inl same ↦ (c, rw (same, h))
  | inr differ ↦ (c, rw differ h)
]

with_inits-Has : (p : FilePath) (pkgs : List Text) (t : Texts) → Has p t → Has p (with_inits pkgs t)
with_inits-Has p [] t h = h
with_inits-Has p (pkg ∷ pkgs) t h =
    with_inits-Has p pkgs (put_missing (init_path pkg) (init_text pkg) t)
      (put_missing-Has p (init_path pkg) (init_text pkg) t h)

with_inits-listed :
    (p : FilePath) (pkgs : List Text) (t : Texts)
    → listed p (map segments pkgs) ≡ true
    → Has (p ++ init_name ∷ []) (with_inits pkgs t)
with_inits-listed p [] t h = cc
with_inits-listed p (pkg ∷ pkgs) t h = elim (Bool-cases (eq_path (segments pkg) p)) [
  | inl same ↦ with_inits-Has (p ++ init_name ∷ []) pkgs _ (
    Option.get_or (t (init_path pkg)) (init_text pkg),
    rw (← eq_path_sound (segments pkg) p same, eq_path_refl (init_path pkg)),
  )
  | inr differ ↦ with_inits-listed p pkgs _ (rw differ at h)
]

-- The writes below `backend/app`.
abbrev pub modules : List (Text × Text) → List (Text × Text)
modules [] = []
modules ((relative, content) ∷ writes) =
    let rest = modules writes in
    if is_prefix (codes "backend" ∷ codes "app" ∷ []) (segments relative)
    then (relative, content) ∷ rest
    else rest

abbrev packaged : List (Text × Text) → Bool
packaged [] = true
packaged ((relative, content) ∷ writes) =
    listed (parent (segments relative)) (map segments init_packages) && packaged writes

-- The directory of the file has an `__init__.py`.
abbrev pub HasPackage : Texts → Text × Text → Type 0
HasPackage t (relative, content) = Has (parent (segments relative) ++ init_name ∷ []) t

all_packaged : packaged (modules (flatten builds)) ≡ true
unfolding builds segments flatten init_packages
all_packaged = refl

HasPackage-packaged :
    (source : DocsSource) (writes : List (Text × Text)) (t : Texts)
    → packaged writes ≡ true
    → All
        (HasPackage (overlay_all builds (with_docs source doc_names (with_inits init_packages t))))
        writes
HasPackage-packaged source [] t h = tt
HasPackage-packaged source ((relative, content) ∷ writes) t h =
    let p : FilePath = parent (segments relative) ++ init_name ∷ [] in
    (
      overlay_all-Has p builds _ (
          with_docs-Has p source doc_names _
            (with_inits-listed (parent (segments relative)) init_packages t (ground (arith, h)))),
      HasPackage-packaged source writes t (ground (arith, h)),
    )

-- If the tree is ready and no document is a directory, `main` does not raise, and afterwards the
-- directory of every file that it writes below `backend/app` has an `__init__.py`.
main_packages :
    (source : DocsSource)
    → ((name : Text) → source name ≢ some directory)
    → (fs : Files) → IsReady fs
    → (gs : Files) × (main source fs ≡ (ok tt, gs))
      × All (HasPackage (texts gs)) (modules (flatten builds))
main_packages source no_directory fs t =
    let (gs, e, _, x) = main_refines source no_directory fs t in
    (gs, e, rw x (HasPackage-packaged source (modules (flatten builds)) (texts fs) all_packaged))
