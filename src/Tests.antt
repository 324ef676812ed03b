-- ===== src/Tests.antt =====
-- Runs of the theorems at concrete inputs.
pub mod Fixtures
mod Ranking
mod Badges
mod Resolution
mod Limits
mod Board
mod Dna
mod Ai
mod Quotes
mod Ingestion
mod Sweeps
mod Texts
mod Backlog
