-- ===== src/Scaffold/Twice.antt =====
-- A second run of the generator on the tree that it has laid out.
use mathlib.Core.Path.{fun_ext}
use mathlib.Core.Option
use ai_developer_copilot_pla.Prelude.{
  ◌≡◌, ◌≢◌, refl, ◌∙◌, sym, ap, List, [], ◌∷◌, Option, none, some, inl, inr, Bool-cases,
}
use ai_developer_copilot_pla.Text.{Text}
use ai_developer_copilot_pla.Exn.{ok}
use ai_developer_copilot_pla.Scaffold.Files.{FilePath, Node, Files, directory, file, eq_path}
use ai_developer_copilot_pla.Scaffold.Layout.{init_packages}
use ai_developer_copilot_pla.Scaffold.Generate.{segments, init_text}
use ai_developer_copilot_pla.Scaffold.Main.{DocsSource, doc_names, builds, main}
use ai_developer_copilot_pla.Scaffold.Tidy.{Texts, texts, put_text}
use ai_developer_copilot_pla.Scaffold.Steps.{overlay, overlay_all}
use ai_developer_copilot_pla.Scaffold.Start.{
  put_missing, init_path, doc_path, with_inits, with_docs, with_doc,
}
use ai_developer_copilot_pla.Scaffold.Refinement.{IsReady, generated, main_refines}

-- What an operation makes of the text at one path: it keeps it, gives it a fixed content, or gives it
-- a fixed content if there is none.
data Local (f : Texts → Texts) (p : FilePath) : Type 0 where
  keeps : ((t : Texts) → f t p ≡ t p) → Local f p
  puts : (c : Text) → ((t : Texts) → f t p ≡ some c) → Local f p
  fills : (c : Text) → ((t : Texts) → f t p ≡ some (Option.get_or (t p) c)) → Local f p

module _ (f g : Texts → Texts) (p : FilePath) where
  Local-then : Local f p → Local g p → Local (λ t. g (f t)) p
  Local-then (keeps h) (keeps k) = keeps (λ t. k (f t) ∙ h t)
  Local-then (puts c h) (keeps k) = puts c (λ t. k (f t) ∙ h t)
  Local-then (fills c h) (keeps k) = fills c (λ t. k (f t) ∙ h t)
  Local-then l (puts c k) = puts c (λ t. k (f t))
  Local-then (keeps h) (fills c k) = fills c (λ t. rw (k (f t), h t))
  Local-then (puts x h) (fills c k) = puts x (λ t. rw (k (f t), h t))
  Local-then (fills x h) (fills c k) = fills x (λ t. rw (k (f t), h t))

Local-twice : (f : Texts → Texts) (p : FilePath) (t : Texts) → Local f p → f (f t) p ≡ f t p
Local-twice f p t (keeps h) = h (f t)
Local-twice f p t (puts c h) = h (f t) ∙ sym (h t)
Local-twice f p t (fills c h) = rw (h (f t), h t)

put_text-Local : (path p : FilePath) (content : Text) → Local (put_text path content) p
put_text-Local path p content = elim (Bool-cases (eq_path path p)) [
  | inl same ↦ puts content (λ t. rw same)
  | inr differ ↦ keeps (λ t. rw differ)
]

put_missing-Local : (path p : FilePath) (content : Text) → Local (put_missing path content) p
put_missing-Local path p content = elim (Bool-cases (eq_path path p)) [
  | inl same ↦ fills content (λ t. rw same)
  | inr differ ↦ keeps (λ t. rw differ)
]

overlay-Local : (writes : List (Text × Text)) (p : FilePath) → Local (overlay writes) p
overlay-Local [] p = keeps (λ t. refl)
overlay-Local ((r, c) ∷ writes) p =
    Local-then (put_text (segments r) c) (overlay writes) p (put_text-Local (segments r) p c)
      (overlay-Local writes p)

overlay_all-Local : (lists : List (List (Text × Text))) (p : FilePath) → Local (overlay_all lists) p
overlay_all-Local [] p = keeps (λ t. refl)
overlay_all-Local (writes ∷ lists) p =
    Local-then (overlay writes) (overlay_all lists) p (overlay-Local writes p)
      (overlay_all-Local lists p)

with_inits-Local : (pkgs : List Text) (p : FilePath) → Local (with_inits pkgs) p
with_inits-Local [] p = keeps (λ t. refl)
with_inits-Local (pkg ∷ pkgs) p =
    Local-then (put_missing (init_path pkg) (init_text pkg)) (with_inits pkgs) p
      (put_missing-Local (init_path pkg) p (init_text pkg)) (with_inits-Local pkgs p)

with_doc-Local : (name : Text) (node : Option Node) (p : FilePath) → Local (with_doc name node) p
with_doc-Local name none p = keeps (λ t. refl)
with_doc-Local name (some directory) p = keeps (λ t. refl)
with_doc-Local name (some (file content)) p = put_text-Local (doc_path name) p content

module _ (source : DocsSource) where
  with_docs-Local : (names : List Text) (p : FilePath) → Local (with_docs source names) p
  with_docs-Local [] p = keeps (λ t. refl)
  with_docs-Local (name ∷ names) p =
      Local-then (with_doc name (source name)) (with_docs source names) p
        (with_doc-Local name (source name) p) (with_docs-Local names p)

  generated-Local : (p : FilePath) → Local (generated source) p
  generated-Local p =
      Local-then (with_inits init_packages) (λ t. overlay_all builds (with_docs source doc_names t))
        p (with_inits-Local init_packages p)
        (Local-then (with_docs source doc_names) (overlay_all builds) p
          (with_docs-Local doc_names p) (overlay_all-Local builds p))

  generated_twice : (t : Texts) → generated source (generated source t) ≡ generated source t
  generated_twice t = fun_ext (λ p. Local-twice (generated source) p t (generated-Local p))

  -- If the tree is ready and no document is a directory, a second run of `main` with the same
  -- documents does not raise either, and leaves the text of every file as the first run made it.
  pub main_again :
      ((name : Text) → source name ≢ some directory)
      → (fs : Files) → IsReady fs
      → (gs hs : Files) × (main source fs ≡ (ok tt, gs))
        × (main source gs ≡ (ok tt, hs))
        × (texts hs ≡ texts gs)
  main_again no_directory fs t =
      let (gs, e, ready, x) = main_refines source no_directory fs t in
      let (hs, f, _, y) = main_refines source no_directory gs ready in
      (gs, hs, e, f, y ∙ ap (generated source) x ∙ generated_twice (texts fs) ∙ sym x)
