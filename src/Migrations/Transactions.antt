-- ===== src/Migrations/Transactions.antt =====
-- Which migrations run, and that a transaction encloses them.
use ai_developer_copilot_pla.Prelude.{
  ℕ, ◌+◌, ◌≤◌, ◌≡◌, refl, List, [], ◌∷◌, ◌++◌, true, if◌then◌else◌, arith, inl, inr, Option-cases,
  Bool-cases,
}
use ai_developer_copilot_pla.Text.{codes}
use ai_developer_copilot_pla.Exn.{Result-cases}
use ai_developer_copilot_pla.Migrations.Env.{
  AlembicCall, file_config, configure, begin_transaction, run_migrations, end_transaction, Alembic,
  is_raised, call, in_transaction, run_migrations_offline, run_migrations_online, env,
}

-- How often the migrations were run.
unfoldable pub runs : List AlembicCall → ℕ
runs [] = 0
runs (run_migrations ∷ calls) = 1 + runs calls
runs (file_config name ∷ calls) = runs calls
runs (configure url literal_binds ∷ calls) = runs calls
runs (begin_transaction ∷ calls) = runs calls
runs (end_transaction failed ∷ calls) = runs calls

-- How often a transaction was ended.
unfoldable pub ends : List AlembicCall → ℕ
ends [] = 0
ends (end_transaction failed ∷ calls) = 1 + ends calls
ends (run_migrations ∷ calls) = ends calls
ends (file_config name ∷ calls) = ends calls
ends (configure url literal_binds ∷ calls) = ends calls
ends (begin_transaction ∷ calls) = ends calls

-- One run at most, and an end of its transaction for each.
abbrev pub IsEnclosed : List AlembicCall → Type 0
IsEnclosed calls = (runs calls ≤ 1) × (ends calls ≡ runs calls)

runs-append : (xs ys : List AlembicCall) → runs (xs ++ ys) ≡ runs xs + runs ys
unfolding runs
runs-append [] ys = omega arith
runs-append (run_migrations ∷ xs) ys = omega (arith, runs-append xs ys)
runs-append (file_config name ∷ xs) ys = runs-append xs ys
runs-append (configure url literal_binds ∷ xs) ys = runs-append xs ys
runs-append (begin_transaction ∷ xs) ys = runs-append xs ys
runs-append (end_transaction failed ∷ xs) ys = runs-append xs ys

ends-append : (xs ys : List AlembicCall) → ends (xs ++ ys) ≡ ends xs + ends ys
unfolding ends
ends-append [] ys = omega arith
ends-append (end_transaction failed ∷ xs) ys = omega (arith, ends-append xs ys)
ends-append (run_migrations ∷ xs) ys = ends-append xs ys
ends-append (file_config name ∷ xs) ys = ends-append xs ys
ends-append (configure url literal_binds ∷ xs) ys = ends-append xs ys
ends-append (begin_transaction ∷ xs) ys = ends-append xs ys

-- The counts of a trace that ends in one call more.
counts-then :
    (calls : List AlembicCall) (c : AlembicCall)
    → (runs (calls ++ c ∷ []) ≡ runs calls + runs (c ∷ []))
      × (ends (calls ++ c ∷ []) ≡ ends calls + ends (c ∷ []))
counts-then calls c = (runs-append calls (c ∷ []), ends-append calls (c ∷ []))

module _ (a : Alembic) where
  transaction-IsEnclosed :
      (calls : List AlembicCall)
      → (runs calls ≡ 0) × (ends calls ≡ 0)
      → IsEnclosed (in_transaction a (call a run_migrations) calls).1
  unfolding runs ends
  transaction-IsEnclosed calls h =
      let begun : List AlembicCall = calls ++ begin_transaction ∷ [] in
      elim (Result-cases (a.answer calls begin_transaction)) [
        | inl (done, k) ↦ rw k (
            let ran : List AlembicCall = begun ++ run_migrations ∷ [] in
            omega (
              arith,
              counts-then calls begin_transaction,
              counts-then begun run_migrations,
              counts-then ran (end_transaction (is_raised (a.answer begun run_migrations))),
              h,
            ))
        | inr (e, k) ↦ rw k (omega (arith, counts-then calls begin_transaction, h))
      ]

  offline-IsEnclosed :
      (calls : List AlembicCall)
      → (runs calls ≡ 0) × (ends calls ≡ 0)
      → IsEnclosed (run_migrations_offline a calls).1
  unfolding run_migrations_offline runs ends
  offline-IsEnclosed calls h =
      let c : AlembicCall = configure (a.main_option (codes "sqlalchemy.url")) true in
      elim (Result-cases (a.answer calls c)) [
        | inl (done, k) ↦
            rw k (transaction-IsEnclosed (calls ++ c ∷ []) (omega (arith, counts-then calls c, h)))
        | inr (e, k) ↦ rw k (omega (arith, counts-then calls c, h))
      ]

  abbrev IsCounted : List AlembicCall → Type 0
  IsCounted calls = (runs calls ≤ (if a.is_offline_mode then 1 else 0)) × (ends calls ≡ runs calls)

  behind_logging-IsCounted :
      (calls : List AlembicCall)
      → (runs calls ≡ 0) × (ends calls ≡ 0)
      → IsCounted
          ((if a.is_offline_mode then run_migrations_offline a else run_migrations_online a)
            calls).1
  unfolding run_migrations_online run_migrations_offline
  behind_logging-IsCounted calls h = elim (Bool-cases a.is_offline_mode) [
    | inl offline ↦ rw offline (offline-IsEnclosed calls h)
    | inr online ↦ rw online (omega (arith, h))
  ]

  -- Whatever Alembic answers, and whichever call raises: in offline mode the migrations are run once
  -- at most, in online mode never, and the transaction of a run is always ended.
  pub env-runs :
      (runs (env a []).1 ≤ (if a.is_offline_mode then 1 else 0))
      × (ends (env a []).1 ≡ runs (env a []).1)
  unfolding env runs ends
  env-runs = elim (Option-cases a.config_file_name) [
    | inl no_file ↦ rw no_file (behind_logging-IsCounted [] (refl, refl))
    | inr (name, h) ↦ elim (Result-cases (a.answer [] (file_config name))) [
      | inl (done, k) ↦ rw (h, k) (behind_logging-IsCounted (file_config name ∷ []) (refl, refl))
      | inr (e, k) ↦ rw (h, k) (ground arith)
    ]
  ]
