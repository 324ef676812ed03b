-- ===== src/Reviews.antt =====
-- backend/app/services/review_service.py: submission, moderation and engagement.
pub mod Rows
pub mod Queue
pub mod Submission
pub mod Engagement
pub mod Moderation
