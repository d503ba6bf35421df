-- ===== src/Scaffold/Again.antt =====
-- A second run of `ensure_dirs`.
use ai_developer_copilot_pla.Prelude.{◌≡◌, refl, List, [], ◌∷◌, ◌++◌, arith, append_assoc, All}
use ai_developer_copilot_pla.Text.{Text, eq_text_refl}
use ai_developer_copilot_pla.Exn.{ok}
use ai_developer_copilot_pla.Scaffold.Files.{FilePath, Files, mkdir_below}
use ai_developer_copilot_pla.Scaffold.Layout.{dirs, init_packages}
use ai_developer_copilot_pla.Scaffold.Generate.{
  segments, ensure_init, make_dirs, ensure_inits, ensure_dirs,
}
use ai_developer_copilot_pla.Scaffold.Directories.{HasNoFiles, AllMade, AllCovered, HasInit}
use ai_developer_copilot_pla.Scaffold.Complete.{ensure_dirs-IsLaidOut}

AllMade-below :
    (above : FilePath) (s : Text) (rest : FilePath) (gs : Files)
    → AllMade above (s ∷ rest) gs
    → AllMade (above ++ s ∷ []) rest gs
AllMade-below above s rest gs h t q e =
    rw (append_assoc above (s ∷ []) (t ∷ q)) (h s (t ∷ q) (rw (eq_text_refl s) e))

mkdir_below_again :
    (above path : FilePath) (gs : Files)
    → AllMade above path gs
    → mkdir_below above path gs ≡ (ok tt, gs)
unfolding mkdir_below
mkdir_below_again above [] gs h = refl
mkdir_below_again above (s ∷ rest) gs h =
    rw (h s [] (rw (eq_text_refl s)))
      (mkdir_below_again (above ++ s ∷ []) rest gs (AllMade-below above s rest gs h))

make_dirs_again : (ds : List Text) (gs : Files) → AllCovered ds gs → make_dirs ds gs ≡ (ok tt, gs)
unfolding make_dirs
make_dirs_again [] gs h = refl
make_dirs_again (d ∷ ds) gs h =
    rw (mkdir_below_again [] (segments d) gs (λ t q e. h t q (ground (arith, e))))
      (make_dirs_again ds gs (λ t q e. h t q (ground (arith, e))))

ensure_inits_again :
    (pkgs : List Text) (gs : Files) → All (HasInit gs) pkgs → ensure_inits pkgs gs ≡ (ok tt, gs)
unfolding ensure_inits ensure_init
ensure_inits_again [] gs h = refl
ensure_inits_again (pkg ∷ pkgs) gs h = rw h.0.1 (ensure_inits_again pkgs gs h.1)

-- After a run of `ensure_dirs` on a tree without files, a further run changes nothing and does not
-- raise.
ensure_dirs_again :
    (fs : Files) → HasNoFiles fs → let gs = (ensure_dirs fs).1 in ensure_dirs gs ≡ (ok tt, gs)
unfolding ensure_dirs
ensure_dirs_again fs h =
    let (gs, e, out) = ensure_dirs-IsLaidOut fs h in
    rw e
      (rw (make_dirs_again dirs gs out.directories) (ensure_inits_again init_packages gs out.inits))
