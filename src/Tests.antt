-- ===== src/Tests.antt =====
-- Runs of the model on concrete inputs.
mod Keys
mod Storage
mod Db
mod Llm
mod Generator
mod Embedding
mod Api
mod App
mod Health
mod Tasks
mod Ledger
mod Migrations
mod Scaffold
