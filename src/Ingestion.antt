-- ===== src/Ingestion.antt =====
-- backend/app/ingestion/pipeline.py and backend/app/workers/ingestion_tasks.py: what the adapters
-- fetch is resolved, kept once, and stored. The children hold the rows and the session (`Model`),
-- the slugs (`Slugs`), mentions in prose (`Mentions`), places and reviews (`Places`, `Evidence`) and
-- the worker's runs (`Jobs`).
pub mod Model
pub mod Slugs
pub mod Mentions
pub mod Places
pub mod Evidence
pub mod Jobs
