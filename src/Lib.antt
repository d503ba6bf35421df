-- ===== src/Lib.antt =====
-- Verification library of the backend of the AI developer copilot platform. Paths are those of the
-- repository.
--
-- The program. Of the backend, the infrastructure layer and the health endpoint are written; the
-- domain, application and agent packages are still empty modules. At startup the lifespan of
-- backend/app/main.py constructs one client for each service from the settings of
-- backend/app/config.py and keeps it in a module-level `_state`; getters hand it out, and the
-- shutdown disposes of it. The adapters talk to the LLM, the embedding API and the object storage;
-- the helpers for names keep the tenants apart; the health endpoint probes three services.
--
-- The files.
--   Prelude, Text        numbers, lists, and Python's `str` as a list of code points
--   Exn, Exec            exceptions with `except Exception`, and methods that change a state and
--                        may raise
--   Json, Http           decoded JSON with Python's operations on it; requests and answers
--   Cache, Vector        backend/app/infrastructure/cache/redis_client.py and
--                        backend/app/infrastructure/vector/qdrant_client.py
--   Storage              backend/app/infrastructure/storage/object_storage_adapter.py: Keys and
--                        Adapter have the code, Store the abstract store of objects, Calls the
--                        methods over a bucket, Sharing the tenants that share one
--   Llm, Embedding       backend/app/infrastructure/llm/llm_adapter.py and
--                        backend/app/infrastructure/llm/embedding_adapter.py; Llm.Adapter has
--                        `stream` as a whole, Llm.Generator as a generator that a caller drives,
--                        Llm.Asked has what such a caller gets, Llm.Reference `complete` as a
--                        search through answers; Embedding.Short has the answers without entries
--   Config, Process      backend/app/config.py; the cached settings, every `_state`, and the
--                        clients constructed and closed so far
--   Db                   backend/app/infrastructure/db/session.py; Serial has write sessions one
--                        after the other
--   Tasks                backend/app/infrastructure/tasks/celery_app.py, with the queues that the
--                        workers of docker/docker-compose.yml read
--   Api                  backend/app/interfaces/api/v1/router.py: Fastapi has the calls of FastAPI,
--                        Router the routers, Routes the paths of the application, Serving a
--                        request from `create_app` to the end of the shutdown
--   App                  the lifespan and `create_app` of backend/app/main.py; Slots, Changes, Ledger
--                        and Leaks have the initializers and disposals in any order, as a step
--                        relation; Refinement has an abstract initializer and disposal, Orderly
--                        the lifespan as such a sequence, Release the shutdown from any state,
--                        Invariant a principle for invariants over the effects that Effects
--                        lists, and Sources with Made where the clients and adapters come from
--   Health               backend/app/interfaces/api/v1/health.py and the three checks; Loop and Gather
--                        have the probes in every order over a clock, Availability and Absent the
--                        report over the states of a process
--   Scaffold             scripts/generate_scaffold.py: Files has the tree, Layout the directories,
--                        Generate `ensure_dirs` and `write`, Main `copy_docs` and `main`; Root,
--                        Python, Backend, Frontend, Docker, Workflows and Infrastructure have one
--                        list of writes for each `build_` function; Tidy, Steps, Start and
--                        Refinement say what a run makes of the texts of the files
--   Migrations           backend/alembic/env.py
--   Tests                runs on concrete inputs
-- A function keeps its name from the source. A method takes the fields of its object as a record, a
-- name with a leading underscore loses it (`_probe` is `probe`), and the text of the bodies of
-- `complete`, `stream` and `_embed_chunk` that handles one answer is a function of its own (`reply`,
-- `fragment`).
--
-- Parameters. Code that is not part of the repository is an argument: what the HTTP server answers
-- may depend on all requests sent before; what the bytes of a body decode to; `json.loads` and the
-- text of floats and lists; the calls of boto3, of a SQLAlchemy session, of Alembic, of Celery's
-- router and of FastAPI; constructing and closing clients, which may fail at any time; the
-- environment that the settings are read from; the documents in the directory `DOCS_SRC`. What a
-- theorem needs of them is a hypothesis or a record of hypotheses beside it (IsConsistent, IsStore,
-- IsTransactional, IsRouter, IsFastapi, Works, Closes, Answering, AnswersAll), with a concrete
-- instance among the tests.
--
-- Bounds. The retry loop runs over the rounds that are left, `max_retries` of them if that is
-- positive and none otherwise. The batch loop runs over the starts that `range` lists. `show_ℕ`
-- takes one round more than the value of its number, which has no more digits than that. No other
-- recursion has fuel. Python's integers are unbounded, and so are those of the model. The clock of
-- the health probes counts milliseconds up to their timeout, and the event loop has no delay of its
-- own.
--
-- Not modelled: times and permissions of the generator's files, log lines, exceptions
-- that a caller throws into a stream, the identity of objects other than the clients, and the
-- interleaving of tasks of the event loop beyond the three probes.
pub mod Prelude
pub mod Text
pub mod Exn
pub mod Exec
pub mod Cache
pub mod Vector
pub mod Storage
pub mod Json
pub mod Http
pub mod Llm
pub mod Embedding
pub mod Config
pub mod Process
pub mod Db
pub mod Tasks
pub mod Api
pub mod App
pub mod Health
pub mod Scaffold
pub mod Migrations
pub mod Tests
