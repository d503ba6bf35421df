-- ===== src/Scaffold/Written.antt =====
-- What stands in the files of a tree behind a run of the generator.
use mathlib.Core.List.{flatten}
use ai_developer_copilot_pla.Prelude.{
  ◌≡◌, ◌≢◌, refl, ◌∙◌, sym, List, [], ◌∷◌, ◌++◌, Bool, true, ◌&&◌, not, some, arith, All,
}
use ai_developer_copilot_pla.Text.{Text}
use ai_developer_copilot_pla.Exn.{ok}
use ai_developer_copilot_pla.Scaffold.Files.{FilePath, Files, directory, eq_path, eq_path_refl}
use ai_developer_copilot_pla.Scaffold.Generate.{segments}
use ai_developer_copilot_pla.Scaffold.Main.{DocsSource, builds, main}
use ai_developer_copilot_pla.Scaffold.Tidy.{Texts, texts, put_text}
use ai_developer_copilot_pla.Scaffold.Steps.{overlay, overlay_all}
use ai_developer_copilot_pla.Scaffold.Refinement.{IsReady, main_refines}

overlay-append :
    (xs ys : List (Text × Text)) (t : Texts) → overlay (xs ++ ys) t ≡ overlay ys (overlay xs t)
overlay-append [] ys t = refl
overlay-append ((r, c) ∷ xs) ys t = overlay-append xs ys (put_text (segments r) c t)

overlay_all-flatten :
    (lists : List (List (Text × Text))) (t : Texts)
    → overlay_all lists t ≡ overlay (flatten lists) t
unfolding flatten
overlay_all-flatten [] t = refl
overlay_all-flatten (xs ∷ lists) t =
    overlay_all-flatten lists (overlay xs t) ∙ sym (overlay-append xs (flatten lists) t)

-- No write of the list goes to the path.
abbrev spares : FilePath → List (Text × Text) → Bool
spares p [] = true
spares p ((r, c) ∷ writes) = not (eq_path (segments r) p) && spares p writes

-- No two writes of the list go to one path.
abbrev distinct : List (Text × Text) → Bool
distinct [] = true
distinct ((r, c) ∷ writes) = spares (segments r) writes && distinct writes

overlay-spares :
    (p : FilePath) (writes : List (Text × Text)) (t : Texts)
    → spares p writes ≡ true
    → overlay writes t p ≡ t p
overlay-spares p [] t h = refl
overlay-spares p ((r, c) ∷ writes) t h =
    overlay-spares p writes (put_text (segments r) c t) (ground (arith, h)) ∙ ground (arith, h)

-- The tree has the content at the path.
abbrev pub Holds : Texts → Text × Text → Type 0
Holds t (relative, content) = t (segments relative) ≡ some content

overlay-Holds :
    (writes : List (Text × Text)) (t : Texts)
    → distinct writes ≡ true
    → All (Holds (overlay writes t)) writes
overlay-Holds [] t h = tt
overlay-Holds ((r, c) ∷ writes) t h = (
  overlay-spares (segments r) writes (put_text (segments r) c t) (ground (arith, h))
      ∙ rw (eq_path_refl (segments r)),
  overlay-Holds writes (put_text (segments r) c t) (ground (arith, h)),
)

builds-distinct : distinct (flatten builds) ≡ true
unfolding builds segments flatten
builds-distinct = refl

-- If the tree is ready and no document is a directory, `main` does not raise, and afterwards every
-- file of the seven `build_` functions has the text of the script, whatever it held before.
pub main_overwrites :
    (source : DocsSource)
    → ((name : Text) → source name ≢ some directory)
    → (fs : Files) → IsReady fs
    → (gs : Files) × (main source fs ≡ (ok tt, gs)) × All (Holds (texts gs)) (flatten builds)
main_overwrites source no_directory fs t =
    let (gs, e, _, x) = main_refines source no_directory fs t in
    (gs, e, rw (x, overlay_all-flatten builds) (overlay-Holds (flatten builds) _ builds-distinct))
