-- ===== src/Tests/Generator.antt =====
-- A stream that is asked for one fragment more than it has, and one that is abandoned.
use ai_developer_copilot_pla.Prelude.{◌≡◌, refl, [], ◌∷◌, some, none, here, next}
use ai_developer_copilot_pla.Text.{codes}
use ai_developer_copilot_pla.Exn.{Exn, Result, ok, llm, http_timeout}
use ai_developer_copilot_pla.Json.{str}
use ai_developer_copilot_pla.Http.{Request, Sent}
use ai_developer_copilot_pla.Llm.Reply.{fragment}
use ai_developer_copilot_pla.Llm.Adapter.{StreamResponse, broken, wrap_failure}
use ai_developer_copilot_pla.Llm.Generator.{Generator, created, Wire, ask, aclose, pull}
use ai_developer_copilot_pla.Llm.Asking.{asks}
use ai_developer_copilot_pla.Llm.Asked.{times_out, asks-Reads}
use ai_developer_copilot_pla.Llm.Abandoned.{asks_next, closes, behind, IsTidy, calls-IsTidy}
use ai_developer_copilot_pla.Tests.Llm.{
  rt, adapter, options, messages, answer, interrupted, chunk_line, blank_line, two_lines-Reads,
}

abbrev breaking : Sent → Request → Result StreamResponse
breaking sent request = ok (answer interrupted)

abbrev unused : Wire
unused = record { sent = []; opened = 0; closed = 0 }

abbrev timeout_failure : Exn
timeout_failure =
    llm (record { message = codes "LLM streaming request timed out"; status_code = none })

asks_test : (asks rt breaking adapter messages options 2 created unused).0 ≡ record {
  fragments = str (codes "Hi") ∷ [];
  ending = some (some (wrap_failure (http_timeout (codes "slow"))));
}
unfolding asks ask pull fragment
asks_test = refl

asks-Reads_example :
    (asks rt breaking adapter messages options 2 created unused).0
    ≡ record { fragments = str (codes "Hi") ∷ []; ending = some (some timeout_failure) }
asks-Reads_example =
    asks-Reads rt refl breaking adapter messages options unused (answer interrupted)
      (chunk_line ∷ blank_line ∷ []) (broken (http_timeout (codes "slow")) ∷ chunk_line ∷ [])
      (codes "Hi" ∷ [] ∷ []) (some timeout_failure) refl refl refl two_lines-Reads
      (times_out (codes "slow") (chunk_line ∷ [])) 2

abbrev first_asked : Generator × Wire
first_asked = behind (ask rt breaking adapter messages options created unused)

abbrev abandoned : Generator × Wire
abandoned = aclose first_asked.0 first_asked.1

calls-IsTidy_example : IsTidy rt breaking adapter messages options [] abandoned
calls-IsTidy_example =
    calls-IsTidy rt breaking adapter messages options [] abandoned
      (next (next here (asks_next refl)) (closes refl))
