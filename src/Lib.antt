-- ===== src/Lib.antt =====
-- Khaabo: a verification library for the backend of the food ranking service.
--
-- The program takes reviews of dishes, decides which of them are shown, scores each pair of a dish
-- and a restaurant from the mentions that reviews hold, and explains the scores. The parts that are
-- modelled, and where:
--
-- - backend/app/services/ranking.py, the scoring core: Ranking. `Model` has the dataclasses,
--   `Evidence` the weight of one observation, `Score` is `compute_dish_score`, with a function for
--   each component, `Why` is `build_why`, `Attributes` is `top_attributes`, `Badges` is
--   `assign_badges` and `aggregate_dish_score`. The weights and the time are arguments.
-- - backend/app/services/trends.py: Trends, where `detect_trend` compares two windows of the same
--   observations.
-- - backend/app/services/review_service.py: Reviews. `Submission` is `create_review`, `Queue` is
--   `_queue_moderation`, `Engagement` has `report_review` and `toggle_like`, `Moderation` has
--   `decide_moderation`, `_sync_author_counters` and `delete_review`.
-- - backend/app/services/gamification.py: Gamification, with `award_for_review`, which a published
--   submission calls, and `refresh_badges`.
-- - backend/app/services/entity_resolution.py: EntityResolution, `resolve_candidate`.
-- - backend/app/core/rate_limit.py: RateLimit, with the Redis client as a parameter.
-- - backend/app/services/ranking_service.py: RankingService. `Evidence` reads the mentions of
--   published reviews, `Upsert` writes the rows of a pair, `Snapshots` is `_refresh_dish_aggregate`
--   with the history, `Rollup` is `recompute_restaurant_score`, and `Recompute` has
--   `recompute_pairs` and `recompute_trends`. The tables that it writes are the `Board`; it flushes
--   every change before it reads that table again, so one board stands for both views of a session.
-- - backend/app/services/food_dna.py: FoodDna, the chips of a restaurant.
-- - backend/app/services/dedup.py: Dedup, near duplicates, with `Spam` for the spam score; texts are
--   split into tokens by a parameter.
-- - backend/app/ingestion/pipeline.py and base.py: Ingestion. `Model` has the rows, the worker's
--   session and the constraints that a flush checks, `Slugs` is `_unique_slug`, `Places` with `Upsert`
--   is `upsert_place`, and `Evidence` is `store_review`, which resolves a review's restaurant by
--   EntityResolution and by backend/app/services/mention_extraction.py, which is `Mentions`.
-- - backend/app/workers/ingestion_tasks.py: Ingestion/Jobs, the claim and the end of a job and the
--   sweeps. `Runs` has `discover_places`, `discover_google_places` and `fetch_reviews`, and
--   `Comments` is `fetch_youtube_comments`. What an adapter returns or raises is a parameter.
-- - backend/app/services/query_parser.py: QueryParser, where each paragraph of `parse_query` is a
--   step on the working text and the parsed query.
-- - backend/app/services/dish_extraction.py: DishExtraction, the heuristic provider's dishes.
-- - backend/app/services/ai_processing.py, backend/app/workers/ai_tasks.py, and `reset_stuck_reviews`
--   of backend/app/workers/ingestion_tasks.py: AiProcessing. `Dishes` is `_resolve_dish`, `Persist`
--   is `_persist_analysis`, which writes the mentions that RankingService reads, or raises where a
--   dish is named twice, and `Batch` claims reviews, processes them and rolls back what raises. What the provider gives, after grounding, is a parameter.
-- - backend/app/ai/base.py: Grounding, the `enforce_grounding` that every provider's answer passes.
-- - backend/app/models and backend/app/db/session.py: Enums and Store, the rows and the session.
--
-- Conventions. A floating point number is a value of a type `F` with the record `Float` of the
-- operations that the services use; a theorem that orders such numbers takes the laws `IsFloat`,
-- which hold of doubles other than NaN: no sum or product is taken to be exact. Float/Fixed shows
-- that the laws can be met, and the tests compute with its numbers. Integers are not bounded, as in
-- Python. A time is a count of microseconds.
--
-- The session of a request keeps two stores. `work` holds the objects as the code has changed them and `rows`
-- what the database holds, since both session makers say `autoflush=False`: a query reads `rows`,
-- until a flush or the commit makes them equal. An `UPDATE` statement changes both. A service call
-- returns a result, an error or a value with the session after it, and `get_db` commits or rolls
-- back. Requests run one after the other: what two requests at once may do is not modelled.
--
-- The session of an ingestion run keeps a third, what the last commit saved, since a failed claim of
-- a job rolls back to it; a flush there ends in `violates` where a UNIQUE constraint breaks.
--
-- Loops are structural recursion on lists, but for two. The loop of `_unique_slug` has as many rounds
-- as there are restaurants, and the sequence of batches (`drain`) as many as there are attempts left.
-- A theorem below says for each that this is enough.
--
-- Parameters: the fingerprint, the spam score and (in Reviews) the simhash of a text
-- (backend/app/services/dedup.py), the name folding of backend/app/utils/text.py, and the functions
-- of Python's libraries (`math`, `difflib`, `statistics.pstdev`). A UUID is a number. A request's
-- body comes as its schema (backend/app/schemas/review.py) has accepted it. Logging is left out.
--
-- Not modelled: the clients of external services (the adapters of backend/app/ingestion, the providers
-- of backend/app/ai), the routes (backend/app/api), the schedule and the ranking tasks of
-- backend/app/workers, the cache, the queries for display and for search, and the detection of a
-- text's language. The regular expressions are parameters. A numeric column keeps the number that it
-- is given: the rounding to its scale is the database's. After an `IntegrityError` in a run the tables
-- are not followed, and neither is what the ORM keeps of a collection that it has loaded.
pub mod Prelude
pub mod Float
pub mod Enums
pub mod Ranking
pub mod Trends
pub mod Store
pub mod Gamification
pub mod Reviews
pub mod DishExtraction
pub mod EntityResolution
pub mod Tests
pub mod RateLimit
pub mod FoodDna
pub mod Board
pub mod QueryParser
pub mod RankingService
pub mod Dedup
pub mod AiProcessing
pub mod Grounding
pub mod Ingestion
