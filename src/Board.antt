-- ===== src/Board.antt =====
-- The tables that the ranking service writes (backend/app/models/score.py, and the bridge of
-- backend/app/models/dish.py). A numeric column keeps the number that it is given.
use khaabo.Prelude.{ℕ, Bool, Option, List, String}
use khaabo.Enums.{ScoreStatus, TrendDirection}
use khaabo.Ranking.Model.{Timestamp, ScoreComponents, Reason}
use khaabo.FoodDna.{DnaChip}

pub record DishScore (F : Type 0) : Type 0 where
  pub dish_id : ℕ
  pub restaurant_id : ℕ
  pub city_id : ℕ
  pub score : Option F
  pub raw_score : Option F
  pub components : ScoreComponents F
  pub positive_ratio : F
  pub observed_positivity : F
  pub mention_count : ℕ
  pub evidence_weight : F
  pub consistency : F
  pub recency_days : Option F
  pub bayesian_score : Option F
  pub price_avg : Option F
  pub value_score : Option F
  pub is_hidden_gem : Bool
  pub is_best_value : Bool
  pub is_most_consistent : Bool
  pub trend : Option TrendDirection
  pub trend_delta : Option F
  pub why : List (Reason F)
  pub top_attributes : List String
  pub status : ScoreStatus
  pub weights_version : String
  pub computed_at : ℕ

pub record RestaurantDish (F : Type 0) : Type 0 where
  pub dish_id : ℕ
  pub restaurant_id : ℕ
  pub mention_count : ℕ
  pub positive_count : ℕ
  pub negative_count : ℕ
  pub neutral_count : ℕ
  pub price_min : Option F
  pub price_max : Option F
  pub price_avg : Option F
  pub first_mentioned_at : Option Timestamp
  pub last_mentioned_at : Option Timestamp
  pub is_signature : Bool

pub record Dish : Type 0 where
  pub id : ℕ
  pub name : String
  pub slug : String
  pub normalized_name : String
  pub is_active : Bool
  pub mention_count : ℕ
  pub restaurant_count : ℕ

pub record RankingSnapshot (F : Type 0) : Type 0 where
  pub dish_id : ℕ
  pub restaurant_id : ℕ
  pub city_id : ℕ
  pub score : Option F
  pub mention_count : ℕ
  pub weights_version : String

pub record RestaurantScore (F : Type 0) : Type 0 where
  pub restaurant_id : ℕ
  pub city_id : ℕ
  pub overall_score : Option F
  pub sentiment : F
  pub consistency : F
  pub value_score : Option F
  pub price_level : Option ℕ
  pub trend : Option TrendDirection
  pub trend_delta : Option F
  pub dna : List (DnaChip F)
  pub top_dish_ids : List ℕ
  pub evidence_count : ℕ
  pub status : ScoreStatus
  pub computed_at : ℕ

pub data TrendSubject : Type 0 where
  dish restaurant dish_restaurant : TrendSubject

pub record TrendMetric (F : Type 0) : Type 0 where
  pub subject_type : TrendSubject
  pub dish_id : Option ℕ
  pub restaurant_id : Option ℕ
  pub city_id : ℕ
  pub window_days : ℕ
  pub recent_sentiment : Option F
  pub historical_sentiment : Option F
  pub recent_count : ℕ
  pub historical_count : ℕ
  pub delta : Option F
  pub direction : Option TrendDirection
  pub significant : Bool
  pub computed_at : ℕ

-- Snapshots stand newest first, as `ORDER BY taken_at DESC` reads them.
pub record Board (F : Type 0) : Type 0 where
  pub scores : List (DishScore F)
  pub restaurant_dishes : List (RestaurantDish F)
  pub dishes : List Dish
  pub snapshots : List (RankingSnapshot F)
  pub restaurant_scores : List (RestaurantScore F)
  pub trends : List (TrendMetric F)
