-- ===== src/Scaffold/Main.antt =====
-- `copy_docs` and `main` of scripts/generate_scaffold.py. The directory `DOCS_SRC` that the
-- documents are copied from is a parameter.
use ai_developer_copilot_pla.Prelude.{List, [], ◌∷◌, ◌++◌, Option, none, some}
use ai_developer_copilot_pla.Text.{Text, codes}
use ai_developer_copilot_pla.Exec.{Exec, pure, raise, ◌>>◌}
use ai_developer_copilot_pla.Scaffold.Files.{
  FilePath, Node, directory, file, Files, os_error, write_text,
}
use ai_developer_copilot_pla.Scaffold.Generate.{ensure_dirs, write}
use ai_developer_copilot_pla.Scaffold.Root.{root_files}
use ai_developer_copilot_pla.Scaffold.Python.Stubs.{python_stubs}
use ai_developer_copilot_pla.Scaffold.Backend.{backend_config}
use ai_developer_copilot_pla.Scaffold.Frontend.List.{frontend_files}
use ai_developer_copilot_pla.Scaffold.Docker.List.{docker_files}
use ai_developer_copilot_pla.Scaffold.Workflows.List.{github_workflows}
use ai_developer_copilot_pla.Scaffold.Infrastructure.List.{infrastructure_files}

-- What stands in `DOCS_SRC` under a name.
abbrev pub DocsSource : Type 0
DocsSource = Text → Option Node

unfoldable pub doc_names : List Text
doc_names =
    codes "constitution.md"
    ∷ codes "llm_contract.md"
    ∷ codes "scaffold.md"
    ∷ codes "architecture.md"
    ∷ codes "roadmap.md"
    ∷ codes "api.md"
    ∷ codes "database.md"
    ∷ codes "prd.md"
    ∷ []

abbrev pub docs : FilePath
docs = codes "docs" ∷ []

-- `shutil.copy2` of a file with the given content: into the target if that is a directory.
abbrev pub copy_to : Text → Text → Option Node → Exec Files (Unit {0})
copy_to name content (some directory) = write_text (docs ++ name ∷ []) name content
copy_to name content target = write_text docs name content

-- A document that is missing is left out; to copy a directory is an error.
abbrev pub copy_doc : Text → Option Node → Exec Files (Unit {0})
copy_doc name none fs = pure tt fs
copy_doc name (some directory) fs = raise os_error fs
copy_doc name (some (file content)) fs = copy_to name content (fs (docs ++ name ∷ [])) fs

unfoldable pub copy_docs_named : DocsSource → List Text → Exec Files (Unit {0})
copy_docs_named source [] = pure tt
copy_docs_named source (name ∷ names) = do copy_doc name (source name); copy_docs_named source names

unfoldable pub copy_docs : DocsSource → Exec Files (Unit {0})
copy_docs source = copy_docs_named source doc_names

-- The writes of one `build_` function.
unfoldable pub write_all : List (Text × Text) → Exec Files (Unit {0})
write_all [] = pure tt
write_all ((relative, content) ∷ files) = do write relative content; write_all files

-- The lists of the seven `build_` functions, in the order of their calls.
unfoldable pub builds : List (List (Text × Text))
unfolding root_files python_stubs backend_config frontend_files docker_files github_workflows
    infrastructure_files
builds =
    root_files ∷ python_stubs ∷ backend_config ∷ frontend_files ∷ docker_files ∷ github_workflows
    ∷ infrastructure_files ∷ []

unfoldable pub build_all : List (List (Text × Text)) → Exec Files (Unit {0})
build_all [] = pure tt
build_all (files ∷ rest) = do write_all files; build_all rest

unfoldable pub main : DocsSource → Exec Files (Unit {0})
main source = do ensure_dirs; copy_docs source; build_all builds
