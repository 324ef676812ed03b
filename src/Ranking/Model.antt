-- ===== src/Ranking/Model.antt =====
-- backend/app/services/ranking.py: the dataclasses of the scoring core.
-- A `datetime` is its count of microseconds, with whether it carries a time zone; one that carries
-- none is read as UTC. An integer that may be negative is a ℤ.
use khaabo.Prelude.{ℕ, String, Bool, List, [], ◌∷◌, Option}
use khaabo.Prelude.Int.{ℤ}
use khaabo.Enums.{SourceType, ScoreStatus, TrendDirection, ExtractionMethod}

pub record Timestamp : Type 0 where
  pub micros : ℕ
  pub aware : Bool

pub record RankingWeights (F : Type 0) : Type 0 where
  pub sentiment : F
  pub recency : F
  pub consistency : F
  pub volume : F
  pub source_quality : F
  pub engagement : F
  pub confidence : F
  pub version : String
  pub halflife_days : F
  pub bayes_m : F
  pub bayes_prior : F
  pub volume_saturation : F
  pub engagement_saturation : F
  pub min_mentions : ℕ
  pub min_weight : F

pub record Observation (F : Type 0) : Type 0 where
  pub sentiment : F
  pub confidence : F
  pub source : SourceType
  pub engagement : ℤ
  pub observed_at : Option Timestamp
  pub price : Option F
  pub attributes : List String
  pub verified_author : Bool
  pub extraction_method : ExtractionMethod

pub record ScoreComponents (F : Type 0) : Type 0 where
  pub sentiment : F
  pub recency : F
  pub consistency : F
  pub volume : F
  pub source_quality : F
  pub engagement : F
  pub confidence : F

-- `as_dict` of the components and of the weights, in the order of the keys.
abbrev pub components_as_list : {F : Type 0} → ScoreComponents F → List F
components_as_list c =
    c.sentiment ∷ c.recency ∷ c.consistency ∷ c.volume ∷ c.source_quality ∷ c.engagement
    ∷ c.confidence ∷ []

abbrev pub weights_as_list : {F : Type 0} → RankingWeights F → List F
weights_as_list w =
    w.sentiment ∷ w.recency ∷ w.consistency ∷ w.volume ∷ w.source_quality ∷ w.engagement
    ∷ w.confidence ∷ []

pub data ReasonCode : Type 0 where
  positive_ratio recent stale consistency inconsistent source_quality mentions : ReasonCode

-- A label is its words, or a number that stands in front of them: `91%`, or a count.
pub data Label (F : Type 0) : Type 0 where
  words : String → Label F
  percent : F → String → Label F
  counted : ℕ → String → Label F

pub data Value (F : Type 0) : Type 0 where
  number : F → Value F
  whole : ℕ → Value F

pub record Reason (F : Type 0) : Type 0 where
  pub code : ReasonCode
  pub label : Label F
  pub value : Value F

pub record DishScoreResult (F : Type 0) : Type 0 where
  pub status : ScoreStatus
  pub score : Option F
  pub raw_score : Option F
  pub components : ScoreComponents F
  pub positive_ratio : F
  pub mention_count : ℕ
  pub evidence_weight : F
  pub consistency : F
  pub recency_days : Option F
  pub bayesian_score : Option F
  pub price_avg : Option F
  pub value_score : Option F
  pub why : List (Reason F)
  pub top_attributes : List String
  pub weights_version : String
  pub observed_positivity : F
  pub is_best_value : Bool
  pub is_hidden_gem : Bool
  pub is_most_consistent : Bool
  pub trend : Option TrendDirection
  pub trend_delta : Option F

pub record RankedEntry (F : Type 0) : Type 0 where
  pub restaurant_id : String
  pub result : DishScoreResult F
