-- ===== src/Scaffold/Start.antt =====
-- What `ensure_dirs` and `copy_docs` do to a tree that they can write to.
use mathlib.Core.Path.{fun_ext}
use mathlib.Core.Option
use ai_developer_copilot_pla.Prelude.{
  ◌≡◌, ◌≢◌, refl, ◌∙◌, List, [], ◌∷◌, ◌++◌, Bool, true, false, ◌&&◌, Option, none, some, inl, inr,
  Bool-cases, Option-cases, arith, if◌then◌else◌,
}
use ai_developer_copilot_pla.Text.{Text}
use ai_developer_copilot_pla.Exn.{ok}
use ai_developer_copilot_pla.Scaffold.Files.{
  FilePath, Node, Files, directory, file, eq_path, eq_path_sound, set, node_at,
}
use ai_developer_copilot_pla.Scaffold.Generate.{
  segments, init_name, init_text, ensure_init, make_dirs, ensure_inits,
}
use ai_developer_copilot_pla.Scaffold.Preserves.{Extends, make_dirs-Extends}
use ai_developer_copilot_pla.Scaffold.Directories.{
  covered, all_covered, AllCovered, AllCovered-step, covered-directory,
}
use ai_developer_copilot_pla.Scaffold.Main.{DocsSource, docs, copy_doc, copy_docs_named}
use ai_developer_copilot_pla.Scaffold.Tidy.{Texts, texts, put_text, listed, Tidy, texts-set_file}
use ai_developer_copilot_pla.Scaffold.Steps.{
  Refines, then-Refines, pure-Refines, mkdir_below-Tidy, write_text-Tidy, set_file-Laid,
}

-- The file has the content if it was not there.
abbrev pub put_missing : FilePath → Text → Texts → Texts
put_missing path content t p = if eq_path path p then some (Option.get_or (t p) content) else t p

abbrev pub init_path : Text → FilePath
init_path pkg = segments pkg ++ init_name ∷ []

abbrev pub with_inits : List Text → Texts → Texts
with_inits [] t = t
with_inits (pkg ∷ pkgs) t = with_inits pkgs (put_missing (init_path pkg) (init_text pkg) t)

abbrev pub doc_path : Text → FilePath
doc_path name = docs ++ name ∷ []

abbrev pub with_doc : Text → Option Node → Texts → Texts
with_doc name (some (file content)) t = put_text (doc_path name) content t
with_doc name none t = t
with_doc name (some directory) t = t

abbrev pub with_docs : DocsSource → List Text → Texts → Texts
with_docs source [] t = t
with_docs source (name ∷ names) t = with_docs source names (with_doc name (source name) t)

-- The package is one of the directories `base`, and its `__init__.py` one of `files`.
abbrev pub may_init : List Text → List FilePath → Text → Bool
may_init base files pkg = covered (segments pkg) base && listed (init_path pkg) files

abbrev pub all_may_init : List Text → List FilePath → List Text → Bool
all_may_init base files [] = true
all_may_init base files (pkg ∷ pkgs) = may_init base files pkg && all_may_init base files pkgs

abbrev pub all_listed : List FilePath → List Text → Bool
all_listed files [] = true
all_listed files (name ∷ names) = listed (doc_path name) files && all_listed files names

module _ (ds base : List Text) (files : List FilePath)
    (apart : (p : FilePath) → covered p ds ≡ true → listed p files ≡ false)
    (within : (p : FilePath) → covered p base ≡ true → covered p ds ≡ true) where
  pub make_dirs-Tidy :
      (names : List Text) (fs : Files)
      → Tidy ds files fs
      → all_covered names ds ≡ true
      → (gs : Files) × (make_dirs names fs ≡ (ok tt, gs))
        × Tidy ds files gs
        × (texts gs ≡ texts fs)
        × AllCovered names gs
  unfolding make_dirs
  make_dirs-Tidy [] fs t c = (fs, refl, t, refl, λ u q e. cc)
  make_dirs-Tidy (d ∷ names) fs t c =
      let (fs₁, e₁, t₁, x₁, d₁) =
        mkdir_below-Tidy ds base files apart within [] (segments d) fs t (ground (arith, c)) in
      let (gs, e₂, t₂, x₂, d₂) = make_dirs-Tidy names fs₁ t₁ (ground (arith, c)) in
      let kept : Extends fs₁ gs = rw e₂ at (make_dirs-Extends names fs₁) in
      (
        gs,
        rw (e₁, e₂),
        t₂,
        x₂ ∙ x₁,
        AllCovered-step d names gs (λ u q e. kept (u ∷ q) directory (d₁ u q e)) d₂,
      )

  texts-put_missing :
      (fs : Files) (path : FilePath) (content : Text)
      → fs path ≡ none
      → texts (set path (file content) fs) ≡ put_missing path content (texts fs)
  texts-put_missing fs path content n = fun_ext λ p. elim (Bool-cases (eq_path path p)) [
    | inl same ↦ rw (same, ← eq_path_sound path p same, n)
    | inr differ ↦ rw differ
  ]

  texts-there :
      (fs : Files) (path : FilePath) (content old : Text)
      → fs path ≡ some (file old)
      → texts fs ≡ put_missing path content (texts fs)
  texts-there fs path content old n = fun_ext λ p. elim (Bool-cases (eq_path path p)) [
    | inl same ↦ rw (same, ← eq_path_sound path p same, n)
    | inr differ ↦ rw differ
  ]

  ensure_init-Refines :
      (pkg : Text)
      → may_init base files pkg ≡ true
      → Refines ds base files apart within
          (ensure_init pkg)
          (put_missing (init_path pkg) (init_text pkg))
  unfolding ensure_init
  ensure_init-Refines pkg h = record {
    at = λ fs l.
        let in_files : listed (init_path pkg) files ≡ true = ground (arith, h) in
        let there : node_at fs (segments pkg) ≡ some directory =
          covered-directory base fs l.made (segments pkg) (ground (arith, h)) in
        elim (Option-cases (fs (init_path pkg))) [
          | inl n ↦ (
            set (init_path pkg) (file (init_text pkg)) fs,
            rw n (
                write_text-Tidy ds base files apart within (segments pkg) init_name (init_text pkg)
                  fs l.tidy there in_files),
            set_file-Laid ds base files apart within fs (init_path pkg) (init_text pkg) l in_files,
            texts-put_missing fs (init_path pkg) (init_text pkg) n,
          )
          | inr (file old, n) ↦ (fs, rw n, l, texts-there fs (init_path pkg) (init_text pkg) old n)
          | inr (directory, n) ↦ cc (l.tidy.no_directory (init_path pkg) n, in_files)
        ];
  }

  pub ensure_inits-Refines :
      (pkgs : List Text)
      → all_may_init base files pkgs ≡ true
      → Refines ds base files apart within (ensure_inits pkgs) (with_inits pkgs)
  unfolding ensure_inits
  ensure_inits-Refines [] h = pure-Refines ds base files apart within
  ensure_inits-Refines (pkg ∷ pkgs) h =
      then-Refines ds base files apart within (ensure_init pkg) (ensure_inits pkgs)
        (put_missing (init_path pkg) (init_text pkg)) (with_inits pkgs)
        (ensure_init-Refines pkg (ground (arith, h)))
        (ensure_inits-Refines pkgs (ground (arith, h)))

  copy_doc-Refines :
      (name : Text) (node : Option Node)
      → node ≢ some directory
      → covered docs base ≡ true
      → listed (doc_path name) files ≡ true
      → Refines ds base files apart within (copy_doc name node) (with_doc name node)
  copy_doc-Refines name none h d l = record { at = λ fs laid. (fs, refl, laid, refl) }
  copy_doc-Refines name (some directory) h d l = absurd (h refl)
  copy_doc-Refines name (some (file content)) h d l = record {
    at = λ fs laid.
        let there : node_at fs docs ≡ some directory = covered-directory base fs laid.made docs d in
        let written =
          write_text-Tidy ds base files apart within docs name content fs laid.tidy there l in
        (
          set (doc_path name) (file content) fs,
          elim (Option-cases (fs (doc_path name))) [
            | inl n ↦ rw n written
            | inr (file old, n) ↦ rw n written
            | inr (directory, n) ↦ cc (laid.tidy.no_directory (doc_path name) n, l)
          ],
          set_file-Laid ds base files apart within fs (doc_path name) content laid l,
          fun_ext (λ p. texts-set_file fs (doc_path name) p content),
        );
  }

  pub copy_docs-Refines :
      (source : DocsSource)
      → ((name : Text) → source name ≢ some directory)
      → covered docs base ≡ true
      → (names : List Text) → all_listed files names ≡ true
      → Refines ds base files apart within (copy_docs_named source names) (with_docs source names)
  unfolding copy_docs_named
  copy_docs-Refines source no_directory d [] h = pure-Refines ds base files apart within
  copy_docs-Refines source no_directory d (name ∷ names) h =
      then-Refines ds base files apart within (copy_doc name (source name))
        (copy_docs_named source names) (with_doc name (source name)) (with_docs source names)
        (copy_doc-Refines name (source name) (no_directory name) d (ground (arith, h)))
        (copy_docs-Refines source no_directory d names (ground (arith, h)))
