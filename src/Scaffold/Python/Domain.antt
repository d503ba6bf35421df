-- ===== src/Scaffold/Python/Domain.antt =====
-- The domain modules that `build_python_stubs` of scripts/generate_scaffold.py writes.
use ai_developer_copilot_pla.Prelude.{List, [], ◌∷◌, ◌++◌}
use ai_developer_copilot_pla.Text.{Text, codes, replace}
use ai_developer_copilot_pla.Scaffold.Source.{concat, py_module, capitalize, split}

unfoldable pub domain_entities : List Text
domain_entities =
    codes "tenant"
    ∷ codes "user"
    ∷ codes "repository"
    ∷ codes "analysis_job"
    ∷ codes "agent_finding"
    ∷ codes "agent_run"
    ∷ codes "chat_session"
    ∷ codes "chat_message"
    ∷ codes "rag_chunk"
    ∷ []

unfoldable pub entity_stub : Text → Text × Text
entity_stub name = (
  codes "backend/app/domain/entities/" ++ (name ++ codes ".py"),
  py_module (codes "Domain entity: " ++ (replace b'_' b' ' name ++ codes ".")) [],
)

unfoldable pub value_objects : List Text
value_objects =
    codes "tenant_id"
    ∷ codes "repository_id"
    ∷ codes "severity"
    ∷ codes "analysis_scope"
    ∷ codes "agent_type"
    ∷ codes "index_status"
    ∷ codes "job_status"
    ∷ codes "confidence_score"
    ∷ []

unfoldable pub value_stub : Text → Text × Text
value_stub name = (
  codes "backend/app/domain/value_objects/" ++ (name ++ codes ".py"),
  py_module (codes "Value object: " ++ (replace b'_' b' ' name ++ codes ".")) [],
)

unfoldable pub events : List (Text × Text)
events =
    (codes "base_event.py", codes "Base domain event.")
    ∷ (codes "repository_events.py", codes "Repository domain events.")
    ∷ (codes "analysis_events.py", codes "Analysis domain events.")
    ∷ (codes "github_events.py", codes "GitHub domain events.")
    ∷ []

unfoldable pub event_stub : Text × Text → Text × Text
event_stub (path, doc) = (codes "backend/app/domain/events/" ++ path, py_module doc [])

unfoldable pub interfaces : List Text
interfaces =
    codes "tenant_repository"
    ∷ codes "user_repository"
    ∷ codes "repository_repository"
    ∷ codes "analysis_repository"
    ∷ codes "agent_run_repository"
    ∷ codes "finding_repository"
    ∷ codes "chat_repository"
    ∷ codes "rag_chunk_repository"
    ∷ codes "audit_repository"
    ∷ codes "event_outbox_repository"
    ∷ []

-- `"".join(p.capitalize() for p in parts)`.
abbrev capitalized : List Text → Text
capitalized [] = []
capitalized (p ∷ parts) = capitalize p ++ capitalized parts

unfoldable pub interface_stub : Text → Text × Text
interface_stub name =
    let cls = codes "I" ++ capitalized (split b'_' name) in
    (
      codes "backend/app/domain/interfaces/" ++ (name ++ codes ".py"),
      py_module (codes "Repository interface: " ++ (cls ++ codes ".")) (
          concat (
            codes "from abc import ABC, abstractmethod\n\n\n"
            ∷ codes "class "
            ∷ cls
            ∷ codes "(ABC):\n"
            ∷ codes "    \"\"\"Abstract repository contract.\"\"\"\n"
            ∷ [])),
    )
