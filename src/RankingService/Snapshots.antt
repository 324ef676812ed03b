-- ===== src/RankingService/Snapshots.antt =====
-- backend/app/services/ranking_service.py: the counters, badges and history of one dish.
-- `text` is Python's `str` of an id.
pub mod Badged
pub mod History
use khaabo.Prelude.{
  ℕ, ◌+◌, ◌-◌, Bool, true, false, ◌&&◌, ◌||◌, Option, none, some, List, [], ◌∷◌, map, String, leb,
  ◌==◌, if◌then◌else◌, count, filter, find, zip_with,
}
use khaabo.Float.{Float, nought, lt}
use khaabo.Enums.{is_ranked_status}
use khaabo.Ranking.Model.{RankedEntry, DishScoreResult}
use khaabo.Ranking.Badges.{assign_badges}
use khaabo.Board.{DishScore, Dish, RankingSnapshot, Board}

-- `settings.snapshot_score_delta` and `settings.snapshot_mention_delta`
pub record SnapshotDeltas (F : Type 0) : Type 0 where
  pub score : F
  pub mentions : ℕ

-- `abs(m - n)`
abbrev pub distance : ℕ → ℕ → ℕ
distance m n = (m - n) + (n - m)

module _ {F : Type 0} where
  abbrev pub is_ranked_row : DishScore F → Bool
  is_ranked_row s = is_ranked_status s.status

  abbrev pub is_snapshot_of : DishScore F → RankingSnapshot F → Bool
  is_snapshot_of row s = s.dish_id == row.dish_id && s.restaurant_id == row.restaurant_id

  -- The newest snapshot of a row's pair.
  abbrev pub last_snapshot : List (RankingSnapshot F) → DishScore F → Option (RankingSnapshot F)
  last_snapshot snapshots row = find (is_snapshot_of row) snapshots

  abbrev pub snapshot_of : DishScore F → RankingSnapshot F
  snapshot_of row = record {
    dish_id = row.dish_id;
    restaurant_id = row.restaurant_id;
    city_id = row.city_id;
    score = row.score;
    mention_count = row.mention_count;
    weights_version = row.weights_version;
  }

module _ {F : Type 0} ⦃f : Float F⦄ where
  open f use {neg, sub, le}

  abbrev pub fabs : F → F
  fabs x = if lt x nought then neg x else x

  abbrev pub score_changed : F → Option F → Option F → Bool
  score_changed delta none none = false
  score_changed delta none (some b) = true
  score_changed delta (some a) none = true
  score_changed delta (some a) (some b) = le delta (fabs (sub a b))

  -- Whether a row is written into the history: the first time, or when it moved far enough.
  unfoldable pub is_due : SnapshotDeltas F → List (RankingSnapshot F) → DishScore F → Bool
  is_due deltas snapshots row = elim (last_snapshot snapshots row) [
    | none ↦ true
    | some last ↦
        score_changed deltas.score row.score last.score
        || leb deltas.mentions (distance row.mention_count last.mention_count)
  ]

  -- The new snapshots are added in turn, each in front of the older ones.
  unfoldable pub add_snapshots :
      List (DishScore F) → List (RankingSnapshot F) → List (RankingSnapshot F)
  add_snapshots [] snapshots = snapshots
  add_snapshots (row ∷ rows) snapshots = add_snapshots rows (snapshot_of row ∷ snapshots)

  -- Every last snapshot is read before the first new one is added.
  unfoldable pub persist_ranking_snapshots :
      SnapshotDeltas F → List (DishScore F) → List (RankingSnapshot F) → List (RankingSnapshot F)
  persist_ranking_snapshots deltas rows snapshots =
      add_snapshots (filter (is_due deltas snapshots) (filter is_ranked_row rows)) snapshots

  -- `_as_result`; `assign_badges` reads no field but those of `_R`.
  unfoldable pub as_result : DishScore F → DishScoreResult F
  as_result row = record {
    status = row.status;
    score = row.score;
    raw_score = row.raw_score;
    components = row.components;
    positive_ratio = row.positive_ratio;
    mention_count = row.mention_count;
    evidence_weight = row.evidence_weight;
    consistency = row.consistency;
    recency_days = row.recency_days;
    bayesian_score = row.bayesian_score;
    price_avg = row.price_avg;
    value_score = row.value_score;
    why = row.why;
    top_attributes = row.top_attributes;
    weights_version = row.weights_version;
    observed_positivity = row.observed_positivity;
    is_best_value = false;
    is_hidden_gem = false;
    is_most_consistent = false;
    trend = none;
    trend_delta = none;
  }

  abbrev pub copy_badges : DishScore F → RankedEntry F → DishScore F
  copy_badges row entry = record row {
    is_best_value = entry.result.is_best_value;
    is_hidden_gem = entry.result.is_hidden_gem;
    is_most_consistent = entry.result.is_most_consistent;
  }

  abbrev entry_of : (ℕ → String) → DishScore F → RankedEntry F
  entry_of text row = record { restaurant_id = text row.restaurant_id; result = as_result row }

  -- The rows of a dish with their badges.
  unfoldable pub badged_rows : (ℕ → String) → List (DishScore F) → List (DishScore F)
  badged_rows text rows = zip_with copy_badges rows (assign_badges (map (entry_of text) rows))

  abbrev pub is_of_dish : ℕ → DishScore F → Bool
  is_of_dish dish row = row.dish_id == dish

  -- The rows of a table that pass a test, replaced in turn by others.
  unfoldable pub put_back :
      (DishScore F → Bool) → List (DishScore F) → List (DishScore F) → List (DishScore F)
  put_back test [] news = []
  put_back test (x ∷ xs) [] = x ∷ xs
  put_back test (x ∷ xs) (n ∷ news) =
      let kept = put_back test xs (n ∷ news) in
      let rest = put_back test xs news in if test x then n ∷ rest else x ∷ kept

  abbrev total_mentions : List (DishScore F) → ℕ
  total_mentions [] = 0
  total_mentions (row ∷ rows) = row.mention_count + total_mentions rows

  abbrev pub set_counters : List (DishScore F) → Dish → Dish
  set_counters rows d = record d {
    mention_count = total_mentions rows;
    restaurant_count = count is_ranked_row rows;
  }

  unfoldable pub refresh_dish_aggregate : (ℕ → String) → SnapshotDeltas F → ℕ → Board F → Board F
  refresh_dish_aggregate text deltas dish board =
      let rows = badged_rows text (filter (is_of_dish dish) board.scores) in
      record board {
        scores = put_back (is_of_dish dish) board.scores rows;
        dishes = map (λ d. if d.id == dish then set_counters rows d else d) board.dishes;
        snapshots = persist_ranking_snapshots deltas rows board.snapshots;
      }
