-- ===== src/Scaffold/Complete.antt =====
-- What a run of `ensure_dirs` creates.
use ai_developer_copilot_pla.Prelude.{
  ◌≡◌, refl, List, [], ◌∷◌, ◌++◌, none, some, inl, inr, Option-cases, All,
}
use ai_developer_copilot_pla.Text.{Text}
use ai_developer_copilot_pla.Exn.{ok}
use ai_developer_copilot_pla.Scaffold.Files.{
  FilePath, Files, directory, file, eq_path_refl, set, node_at, write_text,
}
use ai_developer_copilot_pla.Scaffold.Layout.{dirs, init_packages}
use ai_developer_copilot_pla.Scaffold.Generate.{
  segments, init_name, init_text, ensure_init, ensure_inits, ensure_dirs,
}
use ai_developer_copilot_pla.Scaffold.Preserves.{Extends, ensure_init-Extends, ensure_inits-Extends}
use ai_developer_copilot_pla.Scaffold.Directories.{
  HasNoFiles, AllCovered, IsDir, HasInit, make_dirs_made, all_covered-IsDir, dirs_covered,
  packages_covered,
}

node_at-IsDir :
    (fs gs : Files) (p : FilePath)
    → Extends fs gs
    → node_at fs p ≡ some directory
    → node_at gs p ≡ some directory
node_at-IsDir fs gs [] e h = refl
node_at-IsDir fs gs (s ∷ p) e h = e (s ∷ p) directory h

All-IsDir :
    (fs gs : Files) (names : List Text)
    → Extends fs gs
    → All (IsDir fs) names
    → All (IsDir gs) names
All-IsDir fs gs [] e h = tt
All-IsDir fs gs (d ∷ names) e h =
    (node_at-IsDir fs gs (segments d) e h.0, All-IsDir fs gs names e h.1)

write_text_made :
    (above : FilePath) (name content : Text) (fs : Files)
    → node_at fs above ≡ some directory
    → fs (above ++ name ∷ []) ≡ none
    → write_text above name content fs ≡ (ok tt, set (above ++ name ∷ []) (file content) fs)
unfolding write_text
write_text_made above name content fs d n = rw (d, n)

ensure_init_made :
    (pkg : Text) (fs : Files)
    → IsDir fs pkg
    → (gs : Files) × (ensure_init pkg fs ≡ (ok tt, gs)) × HasInit gs pkg
unfolding ensure_init
ensure_init_made pkg fs d = elim (Option-cases (fs (segments pkg ++ init_name ∷ []))) [
  | inl n ↦ (
    set (segments pkg ++ init_name ∷ []) (file (init_text pkg)) fs,
    rw n (write_text_made (segments pkg) init_name (init_text pkg) fs d n),
    (file (init_text pkg), rw (eq_path_refl (segments pkg ++ init_name ∷ []))),
  )
  | inr (node, n) ↦ (fs, rw n, (node, n))
]

ensure_inits_made :
    (pkgs : List Text) (fs : Files)
    → All (IsDir fs) pkgs
    → (gs : Files) × (ensure_inits pkgs fs ≡ (ok tt, gs)) × All (HasInit gs) pkgs
unfolding ensure_inits
ensure_inits_made [] fs h = (fs, refl, tt)
ensure_inits_made (pkg ∷ pkgs) fs h =
    let (fs₁, e₁, (node, n)) = ensure_init_made pkg fs h.0 in
    let grown : Extends fs fs₁ = rw e₁ at (ensure_init-Extends pkg fs) in
    let (gs, e₂, rest) = ensure_inits_made pkgs fs₁ (All-IsDir fs fs₁ pkgs grown h.1) in
    let kept : Extends fs₁ gs = rw e₂ at (ensure_inits-Extends pkgs fs₁) in
    (gs, rw (e₁, e₂), ((node, kept _ node n), rest))

AllCovered-Extends :
    (ds : List Text) (fs gs : Files) → Extends fs gs → AllCovered ds fs → AllCovered ds gs
AllCovered-Extends ds fs gs e h t q c = e (t ∷ q) directory (h t q c)

-- A tree with every directory and an `__init__.py` in every package.
pub record IsLaidOut (gs : Files) : Type 0 where
  pub directories : AllCovered dirs gs
  pub inits : All (HasInit gs) init_packages

pub ensure_dirs-IsLaidOut :
    (fs : Files) → HasNoFiles fs → (gs : Files) × (ensure_dirs fs ≡ (ok tt, gs)) × IsLaidOut gs
unfolding ensure_dirs
ensure_dirs-IsLaidOut fs h =
    let (fs₁, e₁, made) = make_dirs_made dirs fs h in
    let (gs, e₂, inits) =
      ensure_inits_made init_packages fs₁
        (all_covered-IsDir dirs fs₁ made init_packages packages_covered) in
    let kept : Extends fs₁ gs = rw e₂ at (ensure_inits-Extends init_packages fs₁) in
    (
      gs,
      rw (e₁, e₂),
      record { directories = AllCovered-Extends dirs fs₁ gs kept made; inits = inits },
    )

-- On a tree without files `ensure_dirs` does not raise: afterwards every path of `DIRS` and every
-- package of `INIT_PACKAGES` is a directory, and something stands at the `__init__.py` of each
-- package.
ensure_dirs_complete :
    (fs : Files)
    → HasNoFiles fs
    → (gs : Files) × (ensure_dirs fs ≡ (ok tt, gs))
      × All (IsDir gs) dirs
      × All (IsDir gs) init_packages
      × All (HasInit gs) init_packages
ensure_dirs_complete fs h =
    let (gs, e, out) = ensure_dirs-IsLaidOut fs h in
    (
      gs,
      e,
      all_covered-IsDir dirs gs out.directories dirs dirs_covered,
      all_covered-IsDir dirs gs out.directories init_packages packages_covered,
      out.inits,
    )
