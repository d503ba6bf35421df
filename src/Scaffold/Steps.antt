-- ===== src/Scaffold/Steps.antt =====
-- What the steps of the generator do to a tree that they can write to: a run of a step is the same
-- as a change of the texts.
use mathlib.Core.Path.{fun_ext}
use ai_developer_copilot_pla.Prelude.{
  ◌≡◌, refl, ◌∙◌, ap, List, [], ◌∷◌, ◌++◌, Bool, true, false, ◌&&◌, some, inl, inr, Option-cases,
  arith, append_assoc,
}
use ai_developer_copilot_pla.Text.{Text, eq_text_refl}
use ai_developer_copilot_pla.Exn.{ok}
use ai_developer_copilot_pla.Exec.{Exec, ◌>>◌, pure}
use ai_developer_copilot_pla.Scaffold.Files.{
  FilePath, Files, directory, file, eq_path, eq_path_refl, eq_path_sound, set, node_at, mkdir_below,
  make_one, write_text,
}
use ai_developer_copilot_pla.Scaffold.Generate.{segments, parent, name_of, write}
use ai_developer_copilot_pla.Scaffold.Preserves.{Extends, mkdir_below-Extends}
use ai_developer_copilot_pla.Scaffold.Directories.{
  is_prefix, covered, AllMade, AllMade-step, AllCovered,
}
use ai_developer_copilot_pla.Scaffold.Main.{write_all, build_all}
use ai_developer_copilot_pla.Scaffold.Tidy.{
  Texts, texts, put_text, listed, Tidy, texts-set_directory, texts-set_file, covered-append,
  listed_apart, set_directory-Tidy, set_file-Tidy,
}

is_prefix_refl : (p : FilePath) → is_prefix p p ≡ true
is_prefix_refl [] = refl
is_prefix_refl (s ∷ p) = rw (eq_text_refl s) (is_prefix_refl p)

AllMade-node_at :
    (path : FilePath) (gs : Files) → AllMade [] path gs → node_at gs path ≡ some directory
AllMade-node_at [] gs h = refl
AllMade-node_at (t ∷ q) gs h = h t q (is_prefix_refl (t ∷ q))

-- What the writes of a list leave at a path: the content that was written there last.
abbrev pub overlay : List (Text × Text) → Texts → Texts
overlay [] t = t
overlay ((relative, content) ∷ files) t = overlay files (put_text (segments relative) content t)

abbrev pub overlay_all : List (List (Text × Text)) → Texts → Texts
overlay_all [] t = t
overlay_all (files ∷ rest) t = overlay_all rest (overlay files t)

-- The path has its directory among `ds` and is one of `files`.
abbrev pub may_write : List Text → List FilePath → FilePath → Bool
may_write ds files path =
    covered (parent path) ds
    && (listed path files && eq_path (parent path ++ name_of path ∷ []) path)

abbrev pub all_may_write : List Text → List FilePath → List (Text × Text) → Bool
all_may_write ds files [] = true
all_may_write ds files ((relative, content) ∷ writes) =
    may_write ds files (segments relative) && all_may_write ds files writes

abbrev pub every_may_write : List Text → List FilePath → List (List (Text × Text)) → Bool
every_may_write ds files [] = true
every_may_write ds files (writes ∷ rest) =
    all_may_write ds files writes && every_may_write ds files rest

module _ (ds base : List Text) (files : List FilePath)
    (apart : (p : FilePath) → covered p ds ≡ true → listed p files ≡ false)
    (within : (p : FilePath) → covered p base ≡ true → covered p ds ≡ true) where
  -- A tree that can be written to, with the directories `base`.
  pub record Laid (fs : Files) : Type 0 where
    pub tidy : Tidy ds files fs
    pub made : AllCovered base fs

  make_one-Tidy :
      (path : FilePath) (fs : Files)
      → Tidy ds files fs
      → covered path ds ≡ true
      → (gs : Files) × (make_one path (fs path) fs ≡ (ok tt, gs))
        × Tidy ds files gs
        × (texts gs ≡ texts fs)
        × (gs path ≡ some directory)
  make_one-Tidy path fs t c = elim (Option-cases (fs path)) [
    | inl n ↦ (
      set path directory fs,
      rw n,
      set_directory-Tidy ds base files apart within fs path t c,
      fun_ext (λ p. texts-set_directory fs path p n),
      rw (eq_path_refl path),
    )
    | inr (directory, n) ↦ (fs, rw n, t, refl, n)
    | inr (file content, n) ↦ cc (t.no_file path content n)
  ]

  pub mkdir_below-Tidy :
      (above path : FilePath) (fs : Files)
      → Tidy ds files fs
      → covered (above ++ path) ds ≡ true
      → (gs : Files) × (mkdir_below above path fs ≡ (ok tt, gs))
        × Tidy ds files gs
        × (texts gs ≡ texts fs)
        × AllMade above path gs
  unfolding mkdir_below
  mkdir_below-Tidy above [] fs t c = (fs, refl, t, refl, λ u q e. cc)
  mkdir_below-Tidy above (s ∷ rest) fs t c =
      let c' : covered ((above ++ s ∷ []) ++ rest) ds ≡ true = rw append_assoc c in
      let (fs₁, e₁, t₁, x₁, d₁) =
        make_one-Tidy (above ++ s ∷ []) fs t (covered-append (above ++ s ∷ []) rest ds c') in
      let (gs, e₂, t₂, x₂, d₂) = mkdir_below-Tidy (above ++ s ∷ []) rest fs₁ t₁ c' in
      let kept : Extends fs₁ gs = rw e₂ at (mkdir_below-Extends (above ++ s ∷ []) rest fs₁) in
      (
        gs,
        rw (e₁, e₂),
        t₂,
        x₂ ∙ x₁,
        AllMade-step above s rest gs (kept (above ++ s ∷ []) directory d₁) d₂,
      )

  pub write_text-Tidy :
      (above : FilePath) (name content : Text) (fs : Files)
      → Tidy ds files fs
      → node_at fs above ≡ some directory
      → listed (above ++ name ∷ []) files ≡ true
      → write_text above name content fs ≡ (ok tt, set (above ++ name ∷ []) (file content) fs)
  unfolding write_text
  write_text-Tidy above name content fs t d l = elim (Option-cases (fs (above ++ name ∷ []))) [
    | inl n ↦ rw (d, n)
    | inr (file before, n) ↦ rw (d, n)
    | inr (directory, n) ↦ cc (t.no_directory (above ++ name ∷ []) n, l)
  ]

  pub set_file-Laid :
      (fs : Files) (path : FilePath) (content : Text)
      → Laid fs
      → listed path files ≡ true
      → Laid (set path (file content) fs)
  set_file-Laid fs path content l h = record {
    tidy = set_file-Tidy ds base files apart within fs path content l.tidy h;
    made = λ t q c.
        rw (listed_apart files path (t ∷ q) h (apart (t ∷ q) (within (t ∷ q) c))) (l.made t q c);
  }

  -- On such a tree `m` does not raise, leaves such a tree, and changes the texts by `f`.
  pub record Refines (m : Exec Files (Unit {0})) (f : Texts → Texts) : Type 0 where
    pub at :
        (fs : Files)
        → Laid fs
        → (gs : Files) × (m fs ≡ (ok tt, gs)) × Laid gs × (texts gs ≡ f (texts fs))

  pub then-Refines :
      (m n : Exec Files (Unit {0})) (f g : Texts → Texts)
      → Refines m f
      → Refines n g
      → Refines (m >> n) (λ t. g (f t))
  then-Refines m n f g hm hn = record {
    at = λ fs l.
        let (gs, e₁, l₁, x₁) = hm.at fs l in
        let (hs, e₂, l₂, x₂) = hn.at gs l₁ in (hs, rw (e₁, e₂), l₂, x₂ ∙ ap g x₁);
  }

  pub pure-Refines : Refines (pure tt) (λ t. t)
  pure-Refines = record { at = λ fs l. (fs, refl, l, refl) }

  AllCovered-kept : (fs gs : Files) → Extends fs gs → AllCovered base fs → AllCovered base gs
  AllCovered-kept fs gs kept made t q c = kept (t ∷ q) directory (made t q c)

  pub write-Refines :
      (relative content : Text)
      → may_write ds files (segments relative) ≡ true
      → Refines (write relative content) (put_text (segments relative) content)
  unfolding write
  write-Refines relative content h = record {
    at = λ fs l.
        let path : FilePath = segments relative in
        let within_ds : covered (parent path) ds ≡ true = ground (arith, h) in
        let in_files : listed path files ≡ true = ground (arith, h) in
        let whole : parent path ++ name_of path ∷ [] ≡ path =
          eq_path_sound (parent path ++ name_of path ∷ []) path (ground (arith, h)) in
        let (gs, e₁, t₁, x₁, d₁) = mkdir_below-Tidy [] (parent path) fs l.tidy within_ds in
        let kept : Extends fs gs = rw e₁ at (mkdir_below-Extends [] (parent path) fs) in
        let laid : Laid gs = record { tidy = t₁; made = AllCovered-kept fs gs kept l.made } in
        let e₂ =
          write_text-Tidy (parent path) (name_of path) content gs t₁
            (AllMade-node_at (parent path) gs d₁) (rw whole in_files) in
        (
          set path (file content) gs,
          rw (e₁, e₂, whole),
          set_file-Laid gs path content laid in_files,
          fun_ext (λ p. texts-set_file gs path p content) ∙ ap (put_text path content) x₁,
        );
  }

  pub write_all-Refines :
      (writes : List (Text × Text))
      → all_may_write ds files writes ≡ true
      → Refines (write_all writes) (overlay writes)
  unfolding write_all
  write_all-Refines [] h = pure-Refines
  write_all-Refines ((relative, content) ∷ writes) h =
      then-Refines (write relative content) (write_all writes)
        (put_text (segments relative) content) (overlay writes)
        (write-Refines relative content (ground (arith, h)))
        (write_all-Refines writes (ground (arith, h)))

  pub build_all-Refines :
      (lists : List (List (Text × Text)))
      → every_may_write ds files lists ≡ true
      → Refines (build_all lists) (overlay_all lists)
  unfolding build_all
  build_all-Refines [] h = pure-Refines
  build_all-Refines (writes ∷ rest) h =
      then-Refines (write_all writes) (build_all rest) (overlay writes) (overlay_all rest)
        (write_all-Refines writes (ground (arith, h))) (build_all-Refines rest (ground (arith, h)))
