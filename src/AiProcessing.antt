-- ===== src/AiProcessing.antt =====
-- backend/app/services/ai_processing.py: a stored review becomes mentions of dishes.
-- The provider's answer, with the grounding that is enforced on it, is a parameter: it raises, or
-- gives an analysis. Every change that a later query could read is flushed before that query, so one
-- state of the tables serves. `Names` holds backend/app/utils/text.py and Python's string methods.
pub mod Model
pub mod Dishes
pub mod Persist
pub mod Batch
pub mod Others
pub mod Abandoned
pub mod Replaced
pub mod Replayed
pub mod Budget
pub mod Drained
