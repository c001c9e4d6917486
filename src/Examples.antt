-- ===== src/Examples.antt =====
-- The theorems at concrete inputs, with the data that they are run on.
mod Accounts
mod Admissions
mod Deadlines
mod Histories
mod Requests
mod Streams
mod Translations
mod Operations
mod Pages
use gateway.Prelude.{ℕ, String}
use gateway.Engine.{EngineConfig, EngineCache, reload_engine_cache}
