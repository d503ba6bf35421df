-- ===== src/Scaffold/Refinement.antt =====
-- What a run of the generator's `main` makes of a tree.
use mathlib.Core.List.{flatten}
use ai_developer_copilot_pla.Prelude.{
  ◌≡◌, ◌≢◌, refl, ◌∙◌, ap, List, [], ◌∷◌, ◌++◌, map, Bool, true, false, ◌&&◌, not, some, inl, inr,
  Bool-cases, arith,
}
use ai_developer_copilot_pla.Text.{Text, codes}
use ai_developer_copilot_pla.Exn.{ok}
use ai_developer_copilot_pla.Exec.{Exec, ◌>>◌}
use ai_developer_copilot_pla.Scaffold.Files.{FilePath, Files, directory, eq_path, eq_path_sound}
use ai_developer_copilot_pla.Scaffold.Layout.{dirs, init_packages}
use ai_developer_copilot_pla.Scaffold.Generate.{segments, ensure_inits, ensure_dirs}
use ai_developer_copilot_pla.Scaffold.Directories.{covered, all_covered}
use ai_developer_copilot_pla.Scaffold.Main.{
  DocsSource, docs, doc_names, copy_docs, builds, build_all, main,
}
use ai_developer_copilot_pla.Scaffold.Tidy.{Texts, texts, listed, Tidy}
use ai_developer_copilot_pla.Scaffold.Steps.{
  Laid, Refines, then-Refines, overlay_all, every_may_write, build_all-Refines,
}
use ai_developer_copilot_pla.Scaffold.Start.{
  init_path, doc_path, with_inits, with_docs, make_dirs-Tidy, all_may_init, ensure_inits-Refines,
  all_listed, copy_docs-Refines,
}

-- The directories of a complete tree: `DIRS`, and the one that only a file asks for.
unfoldable pub wanted : List Text
unfolding dirs
wanted = codes "frontend/src/assets" ∷ dirs

abbrev pub paths : List (Text × Text) → List FilePath
paths [] = []
paths ((relative, content) ∷ writes) = segments relative ∷ paths writes

-- Every file of a complete tree.
unfoldable pub planned : List FilePath
unfolding builds flatten init_packages doc_names
planned = paths (flatten builds) ++ (map init_path init_packages ++ map doc_path doc_names)

abbrev none_covered : List FilePath → List Text → Bool
none_covered [] ds = true
none_covered (f ∷ files) ds = not (covered f ds) && none_covered files ds

not_covered :
    (f : FilePath) (files : List FilePath) (ds : List Text)
    → none_covered (f ∷ files) ds ≡ true
    → covered f ds ≡ false
not_covered f files ds h = ground (arith, h)

none_covered-listed :
    (files : List FilePath) (ds : List Text)
    → none_covered files ds ≡ true
    → (p : FilePath) → covered p ds ≡ true
    → listed p files ≡ false
none_covered-listed [] ds h p c = refl
none_covered-listed (f ∷ files) ds h p c = elim (Bool-cases (eq_path f p)) [
  | inl same ↦ cc (ap (λ q. covered q ds) (eq_path_sound f p same), not_covered f files ds h)
  | inr differ ↦ rw differ (none_covered-listed files ds (ground (arith, h)) p c)
]

planned_apart : none_covered planned wanted ≡ true
unfolding planned wanted segments
planned_apart = refl

wanted_all : all_covered dirs wanted ≡ true
unfolding wanted segments
wanted_all = refl

inits_allowed : all_may_init dirs planned init_packages ≡ true
unfolding planned dirs segments
inits_allowed = refl

docs_allowed : all_listed planned doc_names ≡ true
unfolding planned segments
docs_allowed = refl

docs_wanted : covered docs dirs ≡ true
unfolding dirs segments
docs_wanted = refl

builds_allowed : every_may_write wanted planned builds ≡ true
unfolding wanted planned segments
builds_allowed = refl

apart : (p : FilePath) → covered p wanted ≡ true → listed p planned ≡ false
apart = none_covered-listed planned wanted planned_apart

within : (p : FilePath) → covered p dirs ≡ true → covered p wanted ≡ true
unfolding wanted
within p c = ground (arith, c)

-- The generator can write to the tree: no file stands where it wants a directory, and no directory
-- where it writes a file. Anything may stand elsewhere, and any file where it writes one.
abbrev pub IsReady : Files → Type 0
IsReady = Tidy wanted planned

abbrev IsLaid : Files → Type 0
IsLaid = Laid wanted dirs planned apart within

abbrev IsStep : Exec Files (Unit {0}) → (Texts → Texts) → Type 0
IsStep = Refines wanted dirs planned apart within

-- The texts of the files after a run, from those before: an `__init__.py` only where none was, then
-- the documents that are there to be copied, then every file of the seven `build_` functions.
abbrev pub generated : DocsSource → Texts → Texts
generated source t = overlay_all builds (with_docs source doc_names (with_inits init_packages t))

packages-IsStep : IsStep (ensure_inits init_packages) (with_inits init_packages)
packages-IsStep = ensure_inits-Refines wanted dirs planned apart within init_packages inits_allowed

builds-IsStep : IsStep (build_all builds) (overlay_all builds)
builds-IsStep = build_all-Refines wanted dirs planned apart within builds builds_allowed

module _ (source : DocsSource) (no_directory : (name : Text) → source name ≢ some directory) where
  docs-IsStep : IsStep (copy_docs source) (with_docs source doc_names)
  unfolding copy_docs
  docs-IsStep =
      copy_docs-Refines wanted dirs planned apart within source no_directory docs_wanted doc_names
        docs_allowed

  rest-IsStep :
      IsStep (do ensure_inits init_packages; copy_docs source; build_all builds) (generated source)
  rest-IsStep =
      then-Refines wanted dirs planned apart within (ensure_inits init_packages)
        (do copy_docs source; build_all builds) (with_inits init_packages)
        (λ t. overlay_all builds (with_docs source doc_names t)) packages-IsStep
        (then-Refines wanted dirs planned apart within (copy_docs source) (build_all builds)
          (with_docs source doc_names) (overlay_all builds) docs-IsStep builds-IsStep)

  -- If the tree is ready and no document is a directory, `main` does not raise, and the tree is
  -- ready again. The texts of all files of the tree are then those that `generated` tells: the
  -- order of the steps and the making of directories do not matter beyond that.
  pub main_refines :
      (fs : Files)
      → IsReady fs
      → (gs : Files) × (main source fs ≡ (ok tt, gs))
        × IsReady gs
        × (texts gs ≡ generated source (texts fs))
  unfolding main ensure_dirs
  main_refines fs t =
      let (fs₁, e₁, t₁, x₁, d₁) =
        make_dirs-Tidy wanted dirs planned apart within dirs fs t wanted_all in
      let (gs, e₂, l, x₂) = rest-IsStep.at fs₁ (record { tidy = t₁; made = d₁ }) in
      (gs, rw e₁ e₂, l.tidy, x₂ ∙ ap (generated source) x₁)
