-- ===== src/Scaffold/Python/Agents.antt =====
-- The agent modules that `build_python_stubs` of scripts/generate_scaffold.py writes.
use ai_developer_copilot_pla.Prelude.{List, [], ◌∷◌, ◌++◌, map}
use ai_developer_copilot_pla.Text.{Text, codes, replace}
use ai_developer_copilot_pla.Scaffold.Source.{concat, py_module, title}

unfoldable pub agent_base : List (Text × Text)
agent_base =
    (codes "base/base_agent.py", codes "Abstract LangGraph agent base class.")
    ∷ (codes "base/agent_state.py", codes "Shared AgentState TypedDict.")
    ∷ (codes "base/agent_config.py", codes "AgentConfig dataclass.")
    ∷ (codes "base/agent_nodes.py", codes "Shared LangGraph nodes.")
    ∷ (codes "base/agent_output.py", codes "AgentOutput Pydantic model.")
    ∷ (codes "base/agent_exceptions.py", codes "Agent-specific exceptions.")
    ∷ (codes "shared/prompt_library.py", codes "Agent system prompts.")
    ∷ (codes "shared/retrieval_profiles.py", codes "Per-agent retrieval profiles.")
    ∷ (codes "shared/finding_schema.py", codes "Canonical AgentFinding schema.")
    ∷ (codes "shared/severity_classifier.py", codes "Severity scoring.")
    ∷ (codes "shared/output_formatter.py", codes "Finding serialization.")
    ∷ (codes "orchestration/orchestrator.py", codes "Celery group dispatch.")
    ∷ (codes "orchestration/scope_resolver.py", codes "Analysis scope resolution.")
    ∷ (codes "orchestration/result_aggregator.py", codes "Finding aggregation.")
    ∷ []

unfoldable pub agent_base_stub : Text × Text → Text × Text
agent_base_stub (path, doc) = (codes "backend/app/agents/" ++ path, py_module doc [])

unfoldable pub agents : List Text
agents =
    codes "architecture"
    ∷ codes "code_review"
    ∷ codes "bug_detection"
    ∷ codes "security"
    ∷ codes "documentation"
    ∷ codes "test_generation"
    ∷ codes "issue_generation"
    ∷ codes "refactoring"
    ∷ []

unfoldable pub agent_suffixes : List Text
agent_suffixes = codes "agent" ∷ codes "planner" ∷ codes "reasoner" ∷ codes "output" ∷ []

unfoldable pub agent_stub : Text → Text → Text × Text
unfolding concat
agent_stub agent suffix = (
  concat (
      codes "backend/app/agents/"
      ∷ agent
      ∷ codes "/"
      ∷ agent
      ∷ codes "_"
      ∷ suffix
      ∷ codes ".py"
      ∷ []),
  py_module
      (title (replace b'_' b' ' agent) ++ (codes " " ++ (replace b'_' b' ' suffix ++ codes ".")))
      [],
)

-- The inner loop.
unfoldable pub agent_stubs : Text → List (Text × Text)
unfolding agent_stub agent_suffixes
agent_stubs agent = map (agent_stub agent) agent_suffixes
