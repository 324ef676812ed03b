-- ===== src/RankingService.antt =====
-- backend/app/services/ranking_service.py: the ranking tables, kept from the published evidence.
pub mod Evidence
pub mod Upsert
pub mod Snapshots
pub mod Rollup
pub mod Recompute
