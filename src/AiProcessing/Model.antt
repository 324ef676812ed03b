-- ===== src/AiProcessing/Model.antt =====
-- backend/app/services/ai_processing.py, backend/app/ai/schemas.py: the data.
use khaabo.Prelude.{ℕ, Bool, Option, List, String, ◌==◌}
use khaabo.Store.{Review, Store, update_where}
use khaabo.Board.{Dish}
use khaabo.Dedup.{Words}
use khaabo.RankingService.Evidence.{Pair}

pub record Names : Type 0 where
  pub normalize_name : String → String
  pub slugify : String → String
  pub strip : String → String
  pub title : String → String
  pub length : String → ℕ

-- `MAX_ATTEMPTS` and `NEAR_DUPE_CANDIDATE_LIMIT`
abbrev pub max_attempts : ℕ
max_attempts = 5

abbrev pub candidate_limit : ℕ
candidate_limit = 40

pub record AspectOut (F : Type 0) : Type 0 where
  pub aspect : String
  pub sentiment : F
  pub confidence : F
  pub snippet : Option String

pub record DishMentionOut (F : Type 0) : Type 0 where
  pub dish_name : String
  pub matched_alias : Option String
  pub snippet : Option String
  pub sentiment : F
  pub confidence : F
  pub attributes : List String
  pub price_mentioned : Option F
  pub is_recommended : Option Bool
  pub aspects : List (AspectOut F)

pub record ReviewAnalysis (F : Type 0) : Type 0 where
  pub is_spam : Bool
  pub spam_score : F
  pub dish_mentions : List (DishMentionOut F)
  pub aspects : List (AspectOut F)
  pub provider : String

-- A row of `ai_processing_jobs`: the review, whether it succeeded, and the attempt.
pub record AiJob : Type 0 where
  pub review_id : ℕ
  pub success : Bool
  pub attempt : ℕ

-- The tables: an alias is its normalized text and the id of its dish.
pub record World (F : Type 0) : Type 0 where
  pub store : Store F
  pub dishes : List Dish
  pub aliases : List (String × ℕ)
  pub jobs : List AiJob

pub record Config (F : Type 0) : Type 0 where
  pub names : Names
  pub words : Words
  pub allow_dish_creation : Bool
  pub hamming_threshold : ℕ
  pub jaccard_threshold : F

pub record ProcessResult : Type 0 where
  pub pairs : List Pair
  pub duplicate : Bool

module _ {F : Type 0} where
  abbrev pub change_review : ℕ → (Review F → Review F) → World F → World F
  change_review id change w = record w {
    store = record (w.store) { reviews = update_where (λ r. r.id == id) change w.store.reviews };
  }
