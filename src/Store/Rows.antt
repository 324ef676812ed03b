-- ===== src/Store/Rows.antt =====
-- The rows that the services read and write (backend/app/models/review.py, user.py, ops.py,
-- restaurant.py, dish.py). Ids are numbers; a new row takes the next one. The timestamps that the
-- database fills in, and the columns that no modelled operation reads or writes, are left out.
use khaabo.Prelude.{ℕ, Bool, Option, List, String}
use khaabo.Prelude.Int.{ℤ}
use khaabo.Enums.{
  SourceType, ReviewStatus, AiState, UserRole, ModerationReason, ModerationStatus, ExtractionMethod,
}

pub record User : Type 0 where
  pub id : ℕ
  pub role : UserRole
  pub is_banned : Bool

pub record Profile : Type 0 where
  pub user_id : ℕ
  pub review_count : ℕ
  pub published_review_count : ℕ
  pub like_received_count : ℕ
  pub contribution_score : ℕ

-- The columns of a restaurant that a source may leave out.
pub record PlaceDetails : Type 0 where
  pub address : Option String
  pub area : Option String
  pub cuisines : List String
  pub price_level : Option ℕ
  pub phone : Option String
  pub website : Option String
  pub opening_hours : Option String

pub record Restaurant (F : Type 0) : Type 0 where
  pub id : ℕ
  pub city_id : ℕ
  pub name : String
  pub slug : String
  pub normalized_name : String
  pub lat : F
  pub lng : F
  pub details : PlaceDetails
  pub data_confidence : F
  pub review_count : ℕ
  pub google_rating : Option F
  pub google_rating_count : Option ℕ
  pub last_ingested_at : Option ℕ

pub record Review (F : Type 0) : Type 0 where
  pub id : ℕ
  pub restaurant_id : ℕ
  pub city_id : ℕ
  pub user_id : Option ℕ
  pub source : SourceType
  pub title : Option String
  pub body : String
  pub rating : Option F
  pub rating_scale : Option ℕ
  pub source_quality : F
  pub published_at : ℕ
  pub ingested_at : Option ℕ
  pub content_hash : String
  pub simhash : Option ℤ
  pub status : ReviewStatus
  pub ai_state : AiState
  pub ai_attempts : ℕ
  pub is_duplicate : Bool
  pub engagement_score : ℤ
  pub spam_score : F
  pub like_count : ℕ
  pub report_count : ℕ

pub record Like : Type 0 where
  pub user_id : ℕ
  pub review_id : ℕ

-- An entry of a moderation item's history: that it was queued, or a decision.
pub data HistoryEntry : Type 0 where
  queued : ℕ → Option ℕ → ModerationReason → Option String → HistoryEntry
  decided : ℕ → ℕ → ReviewStatus → ReviewStatus → String → Option String → HistoryEntry

pub record ModerationItem : Type 0 where
  pub id : ℕ
  pub review_id : ℕ
  pub reason : ModerationReason
  pub status : ModerationStatus
  pub severity : ℕ
  pub reporter_user_id : Option ℕ
  pub notes : Option String
  pub decided_by : Option ℕ
  pub decided_at : Option ℕ
  pub history : List HistoryEntry

pub record GamificationEvent : Type 0 where
  pub user_id : ℕ
  pub event_type : String
  pub points : ℕ
  pub restaurant_id : ℕ
  pub review_id : ℕ

pub data BadgeCode : Type 0 where
  food_explorer momo_hunter biryani_scout hidden_gem_hunter top_contributor : BadgeCode

pub record UserBadge : Type 0 where
  pub user_id : ℕ
  pub badge_code : BadgeCode
  pub level : ℕ
  pub progress : ℕ

-- A row of `review_dish_mentions` joined with the slug of its dish.
pub record DishMention (F : Type 0) : Type 0 where
  pub review_id : ℕ
  pub dish_id : ℕ
  pub dish_slug : String
  pub restaurant_id : ℕ
  pub snippet : Option String
  pub sentiment : F
  pub confidence : F
  pub attributes : List String
  pub price_mentioned : Option F
  pub is_recommended : Option Bool
  pub extraction_method : ExtractionMethod

-- A row of `review_aspects`; `dish_id` is that of the mention it belongs to, if any.
pub record ReviewAspect (F : Type 0) : Type 0 where
  pub review_id : ℕ
  pub dish_id : Option ℕ
  pub aspect : String
  pub sentiment : F
  pub confidence : F

pub record Store (F : Type 0) : Type 0 where
  pub next_id : ℕ
  pub reviews : List (Review F)
  pub restaurants : List (Restaurant F)
  pub profiles : List Profile
  pub items : List ModerationItem
  pub likes : List Like
  pub events : List GamificationEvent
  pub badges : List UserBadge
  pub mentions : List (DishMention F)
  pub aspects : List (ReviewAspect F)
