-- ===== src/Ranking.antt =====
-- backend/app/services/ranking.py: scores, explanations and badges of (dish, restaurant) pairs.
pub mod Model
pub mod Evidence
pub mod Why
pub mod Attributes
pub mod Score
pub mod Badges
