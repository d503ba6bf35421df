-- ===== src/Tests/Db.antt =====
-- Write and read sessions over a database that is one number.
use ai_developer_copilot_pla.Prelude.{ℕ, suc, ◌+◌, ◌≡◌, refl, some, List, [], ◌∷◌, arith}
use ai_developer_copilot_pla.Exn.{value_error, ok, raised, cancelled}
use ai_developer_copilot_pla.Exec.{Exec}
use ai_developer_copilot_pla.Process.{SessionMaker}
use ai_developer_copilot_pla.Db.Engines.{session_maker}
use ai_developer_copilot_pla.Db.Session.{SessionCalls, get_write_session}
use ai_developer_copilot_pla.Db.Atomicity.{IsTransactional, write_session_atomic}
use ai_developer_copilot_pla.Db.Serial.{Serial, sessions, sessions-Serial}

-- The committed number and that of the open transaction.
abbrev Rows : Type 0
Rows = ℕ × ℕ

abbrev calls : SessionCalls Rows
calls = record {
  commit = λ s. (ok tt, (s.1, s.1));
  rollback = λ s. (ok tt, (s.0, s.0));
  close = λ s. (ok tt, (s.0, s.0));
}

abbrev committed : Rows → ℕ
committed s = s.0

abbrev pending : Rows → ℕ
pending s = s.1

calls-IsTransactional : IsTransactional calls committed pending
calls-IsTransactional = record {
  commit_ok = λ s h. refl;
  commit_raised = λ s e h. cc;
  rollback_keeps = λ s. refl;
  close_keeps = λ s. refl;
}

abbrev increase : Exec Rows (Unit {0})
increase s = (ok tt, (s.0, s.1 + 1))

abbrev abandoned : Exec Rows (Unit {0})
abandoned s = (raised cancelled, (s.0, s.1 + 1))

abbrev maker : SessionMaker
maker = session_maker 0

-- A commit that the server refuses.
abbrev refused : SessionCalls Rows
refused = record calls { commit = λ s. (raised value_error, s) }

write_session_atomic_example :
    committed (get_write_session calls (some maker) increase (3, 3)).1 ≡ 4
write_session_atomic_example =
    write_session_atomic calls committed pending calls-IsTransactional maker increase (3, 3) refl

-- A block that reads the committed number.
abbrev add_one : Exec Rows (Unit {0})
add_one s = (ok tt, (s.0, s.0 + 1))

abbrev three_blocks : List (Exec Rows (Unit {0}))
three_blocks = add_one ∷ abandoned ∷ add_one ∷ []

sessions_test :
    sessions calls maker three_blocks (3, 3) ≡ (ok tt ∷ raised cancelled ∷ ok tt ∷ [], (5, 5))
unfolding sessions get_write_session
sessions_test = refl

sessions-Serial_example :
    Serial 3
      (suc ∷ suc ∷ suc ∷ [])
      (sessions calls maker three_blocks (3, 3)).0
      (committed (sessions calls maker three_blocks (3, 3)).1)
sessions-Serial_example =
    sessions-Serial calls maker committed pending calls-IsTransactional three_blocks
      (suc ∷ suc ∷ suc ∷ []) (3, 3)
      (
        record { commits_nothing = λ s. refl; work = λ s h. omega arith },
        (
          record { commits_nothing = λ s. refl; work = λ s h. cc },
          (record { commits_nothing = λ s. refl; work = λ s h. omega arith }, tt),
        ),
      )
