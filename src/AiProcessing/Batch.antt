-- ===== src/AiProcessing/Batch.antt =====
-- backend/app/services/ai_processing.py, `claim_pending_reviews`; backend/app/workers/ai_tasks.py; and
-- `reset_stuck_reviews` of backend/app/workers/ingestion_tasks.py: who works on which review.
-- A test says which rows other workers have locked, and one which were not updated for long.
use khaabo.Prelude.{
  ℕ, suc, Bool, true, false, not, ◌&&◌, Option, none, some, List, [], ◌∷◌, ◌++◌, map, ltb, leb,
  ◌==◌, if◌then◌else◌, filter, find, any, take, sort_by, and_then,
}
use khaabo.Float.{Float}
use khaabo.Enums.{AiState}
use khaabo.Store.{Review, update_where}
use khaabo.RankingService.Evidence.{Pair, same_pair, set_of}
use khaabo.AiProcessing.Model.{
  World, Config, ReviewAnalysis, ProcessResult, max_attempts, change_review,
}
use khaabo.AiProcessing.Persist.{process_review, mark_failed}

abbrev pub is_pending : AiState → Bool
is_pending AiState.pending = true
is_pending _ = false

abbrev pub is_processing : AiState → Bool
is_processing AiState.processing = true
is_processing _ = false

abbrev is_done : AiState → Bool
is_done AiState.done = true
is_done _ = false

module _ {F : Type 0} where
  abbrev pub is_claimable : Review F → Bool
  is_claimable r = is_pending r.ai_state && ltb r.ai_attempts max_attempts

  -- `ORDER BY ingested_at NULLS LAST, created_at`; the table is in the order of creation.
  abbrev pub oldest_first : Review F → Review F → Bool
  oldest_first a b = elim a.ingested_at [
    | none ↦ elim b.ingested_at [ none ↦ true | some u ↦ false ]
    | some t ↦ elim b.ingested_at [ none ↦ true | some u ↦ leb t u ]
  ]

  abbrev pub start_attempt : Review F → Review F
  start_attempt r = record r { ai_state = AiState.processing; ai_attempts = suc (r.ai_attempts) }

  -- The rows that the query selects.
  unfoldable pub selected : (Review F → Bool) → ℕ → List (Review F) → List (Review F)
  selected is_locked limit reviews =
      take limit (sort_by oldest_first (filter (λ r. is_claimable r && not (is_locked r)) reviews))

  abbrev pub is_selected : List (Review F) → Review F → Bool
  is_selected chosen r = is_claimable r && any (λ c. c.id == r.id) chosen

  unfoldable pub claim_pending_reviews : (Review F → Bool) → ℕ → World F → List (Review F) × World F
  claim_pending_reviews is_locked limit w =
      let chosen = selected is_locked limit w.store.reviews in
      (
        map start_attempt chosen,
        record w {
          store = record (w.store) {
            reviews = update_where (is_selected chosen) start_attempt w.store.reviews;
          };
        },
      )

  unfoldable pub reset_stuck_reviews : (Review F → Bool) → World F → World F
  reset_stuck_reviews is_stale w = record w {
    store = record (w.store) {
      reviews =
          update_where (λ r. is_processing r.ai_state && is_stale r)
            (λ r. record r { ai_state = AiState.pending }) w.store.reviews;
    };
  }

-- The provider with its grounding: it raises, or gives an analysis. Where it or the storing raises,
-- the session is rolled back.
abbrev pub Analyze : Type 0 → Type 0
Analyze F = Review F → World F → Option (ReviewAnalysis F)

module _ {F : Type 0} ⦃f : Float F⦄ where
  -- `process_review` on the committed tables.
  unfoldable pub attempted :
      Config F → Analyze F → ℕ → Review F → World F → Option (ProcessResult × World F)
  attempted cfg analyze now r w =
      and_then (analyze r w) (λ analysis. process_review cfg now r analysis w)

  -- The loop of `process_pending`: each review is committed by itself.
  unfoldable pub process_claimed :
      Config F → Analyze F → ℕ → List (Review F) → List Pair × World F → List Pair × World F
  process_claimed cfg analyze now [] s = s
  process_claimed cfg analyze now (r ∷ rs) (dirty, w) = elim (attempted cfg analyze now r w) [
    | none ↦ process_claimed cfg analyze now rs (dirty, mark_failed r w)
    | some (result, stored) ↦ process_claimed cfg analyze now rs (dirty ++ result.pairs, stored)
  ]

  -- The dirty pairs go to `recompute_pairs`.
  unfoldable pub process_pending :
      Config F → Analyze F → (Review F → Bool) → ℕ → ℕ → World F → List Pair × World F
  process_pending cfg analyze is_locked now limit w =
      let claimed = claim_pending_reviews is_locked limit w in
      let done = process_claimed cfg analyze now claimed.0 ([], claimed.1) in
      (set_of same_pair (done.0), done.1)

  -- `process_review_task`: the pairs to recompute, or nothing where there is no review to process or
  -- the processing raises.
  unfoldable pub process_review_task :
      Config F → Analyze F → ℕ → ℕ → World F → Option (List Pair) × World F
  process_review_task cfg analyze now id w = elim (find (λ r. r.id == id) w.store.reviews) [
    | none ↦ (none, w)
    | some r ↦
        let started = change_review id start_attempt w in
        let failed = mark_failed (start_attempt r) started in
        if is_done r.ai_state
        then (none, w)
        else elim (attempted cfg analyze now (start_attempt r) started) [
          | none ↦ (none, failed)
          | some (result, stored) ↦ (some (set_of same_pair result.pairs), stored)
        ]
  ]
