-- ===== src/RankingService/Recompute.antt =====
-- backend/app/services/ranking_service.py: the incremental recomputation and the trends.
pub mod Entry
pub mod Fresh
pub mod Keys
pub mod Reach
pub mod RestaurantTrend
pub mod Hidden
use khaabo.Prelude.{
  ℕ, suc, ◌*◌, Bool, ◌&&◌, Option, none, some, List, [], ◌∷◌, map, String, leb, ◌==◌, true, false,
  if◌then◌else◌, filter, find, count,
}
use khaabo.Float.{Float}
use khaabo.Enums.{is_ranked_status, is_published}
use khaabo.Ranking.Model.{RankingWeights, DishScoreResult}
use khaabo.Ranking.Score.{compute_dish_score}
use khaabo.Trends.{TrendConfig, TrendResult, detect_trend}
use khaabo.Store.{Restaurant, Store}
use khaabo.Board.{TrendSubject, TrendMetric, Board}
use khaabo.RankingService.Evidence.{
  Pair, Row, same_pair, set_of, rows_of, of_dish_city, load_observations, city_dish_prior,
  city_median_price, load_dish_city_observations,
}
use khaabo.RankingService.Upsert.{upsert, upsert_dish_score, upsert_restaurant_dish}
use khaabo.RankingService.Snapshots.{SnapshotDeltas, refresh_dish_aggregate}
use khaabo.RankingService.Rollup.{recompute_restaurant_score}

-- The settings that the service reads, Python's `str` of an id, and the default of `build_food_dna`.
pub record Settings (F : Type 0) : Type 0 where
  pub weights : RankingWeights F
  pub trends : TrendConfig F
  pub deltas : SnapshotDeltas F
  pub dna_limit : ℕ
  pub text : ℕ → String

pub record RecomputeSummary : Type 0 where
  pub pairs : ℕ
  pub ranked : ℕ
  pub insufficient : ℕ
  pub dishes : ℕ
  pub restaurants : ℕ

-- The loop's variables: the summary and the two sets.
pub record Progress : Type 0 where
  pub summary : RecomputeSummary
  pub touched_dishes : List ℕ
  pub touched_restaurants : List ℕ

abbrev pub start : Progress
start = record {
  summary = record { pairs = 0; ranked = 0; insufficient = 0; dishes = 0; restaurants = 0 };
  touched_dishes = [];
  touched_restaurants = [];
}

abbrev pub find_restaurant : {F : Type 0} → Store F → ℕ → Option (Restaurant F)
find_restaurant db id = find (λ r. r.id == id) db.restaurants

abbrev pub same_subject : TrendSubject → TrendSubject → Bool
same_subject TrendSubject.dish TrendSubject.dish = true
same_subject TrendSubject.restaurant TrendSubject.restaurant = true
same_subject TrendSubject.dish_restaurant TrendSubject.dish_restaurant = true
same_subject _ _ = false

-- A comparison of columns, which is `IS NULL` for `None`.
abbrev pub same_id : Option ℕ → Option ℕ → Bool
same_id none none = true
same_id (some a) (some b) = a == b
same_id _ _ = false

abbrev tally : Bool → RecomputeSummary → RecomputeSummary
tally ranked s =
    if ranked
    then record s { pairs = suc (s.pairs); ranked = suc (s.ranked) }
    else record s { pairs = suc (s.pairs); insufficient = suc (s.insufficient) }

module _ {F : Type 0} ⦃f : Float F⦄ where
  -- The result and the trend of a pair, from the evidence in the database.
  abbrev pub result_of : Settings F → ℕ → Store F → ℕ → Pair → DishScoreResult F
  result_of cfg now db city p =
      compute_dish_score cfg.weights (city_dish_prior db p.0 city) now
        (city_median_price db p.0 city) (load_observations db p)

  abbrev pub trend_of : Settings F → ℕ → Store F → Pair → TrendResult F
  trend_of cfg now db p = detect_trend cfg.trends now (load_observations db p)

  unfoldable pub recompute_pair :
      Settings F → ℕ → Store F → Pair → Progress × Board F → Progress × Board F
  recompute_pair cfg now db p (progress, board) = elim (find_restaurant db p.1) [
    | none ↦ (progress, board)
    | some restaurant ↦
        let city = restaurant.city_id in
        let result = result_of cfg now db city p in
        (
          record {
            summary = tally (is_ranked_status result.status) progress.summary;
            touched_dishes = p.0 ∷ progress.touched_dishes;
            touched_restaurants = p.1 ∷ progress.touched_restaurants;
          },
          upsert_restaurant_dish p (load_observations db p) result
              (upsert_dish_score now p city result (trend_of cfg now db p) board),
        )
  ]

  unfoldable pub recompute_all :
      Settings F → ℕ → Store F → List Pair → Progress × Board F → Progress × Board F
  recompute_all cfg now db [] state = state
  recompute_all cfg now db (p ∷ ps) state =
      recompute_all cfg now db ps (recompute_pair cfg now db p state)

  unfoldable pub refresh_dishes : Settings F → List ℕ → Progress × Board F → Progress × Board F
  refresh_dishes cfg [] state = state
  refresh_dishes cfg (d ∷ ds) (progress, board) = refresh_dishes cfg ds (
    record progress {
      summary = record (progress.summary) { dishes = suc (progress.summary.dishes) };
    },
    refresh_dish_aggregate cfg.text cfg.deltas d board,
  )

  unfoldable pub refresh_restaurants :
      Settings F → ℕ → Store F → List ℕ → Progress × Board F → Progress × Board F
  refresh_restaurants cfg now db [] state = state
  refresh_restaurants cfg now db (r ∷ rs) (progress, board) = refresh_restaurants cfg now db rs (
    record progress {
      summary = record (progress.summary) { restaurants = suc (progress.summary.restaurants) };
    },
    recompute_restaurant_score cfg.dna_limit now db r board,
  )

  unfoldable pub recompute_pairs :
      Settings F → ℕ → Store F → List Pair → Board F → RecomputeSummary × Board F
  recompute_pairs cfg now db pairs board =
      let scored = recompute_all cfg now db (set_of same_pair pairs) (start, board) in
      let dishes = set_of ◌==◌ scored.0.touched_dishes in
      let restaurants = set_of ◌==◌ scored.0.touched_restaurants in
      let final = refresh_restaurants cfg now db restaurants (refresh_dishes cfg dishes scored) in
      (final.0.summary, final.1)

  abbrev pub trend_key : TrendSubject → Option ℕ → Option ℕ → ℕ → ℕ → TrendMetric F → Bool
  trend_key subject dish restaurant city window t =
      same_subject t.subject_type subject
      && (same_id t.dish_id dish
          && (same_id t.restaurant_id restaurant && (t.city_id == city && t.window_days == window)))

  abbrev pub set_trend : ℕ → TrendResult F → TrendMetric F → TrendMetric F
  set_trend now trend row = record row {
    recent_sentiment = trend.recent_sentiment;
    historical_sentiment = trend.historical_sentiment;
    recent_count = trend.recent_count;
    historical_count = trend.historical_count;
    delta = trend.delta;
    direction = trend.direction;
    significant = trend.significant;
    computed_at = now;
  }

  abbrev pub new_trend : TrendSubject → Option ℕ → Option ℕ → ℕ → ℕ → TrendMetric F
  new_trend subject dish restaurant city window = record {
    subject_type = subject;
    dish_id = dish;
    restaurant_id = restaurant;
    city_id = city;
    window_days = window;
    recent_sentiment = none;
    historical_sentiment = none;
    recent_count = 0;
    historical_count = 0;
    delta = none;
    direction = none;
    significant = false;
    computed_at = 0;
  }

  unfoldable pub upsert_trend :
      ℕ → TrendSubject → Option ℕ → Option ℕ → ℕ → TrendResult F → ℕ → Board F → Board F
  upsert_trend now subject dish restaurant city trend window board = record board {
    trends =
        upsert (trend_key subject dish restaurant city window) (set_trend now trend)
          (new_trend subject dish restaurant city window) board.trends;
  }

  abbrev is_wanted : Option ℕ → Row F → Bool
  is_wanted city (m, r) =
      is_published r.status && elim city [ none ↦ true | some c ↦ r.city_id == c ]

  abbrev dish_city_of : Row F → Pair
  dish_city_of (m, r) = (m.dish_id, r.city_id)

  -- `GROUP BY dish_id, city_id HAVING count(*) >= least`
  unfoldable pub trending_pairs : ℕ → Option ℕ → Store F → List Pair
  trending_pairs least city db =
      let rows = filter (is_wanted city) (rows_of db) in
      filter (λ (p : Pair). leb least (count (of_dish_city p.0 p.1) rows))
        (set_of same_pair (map dish_city_of rows))

  unfoldable pub write_trends : Settings F → ℕ → Store F → List Pair → Board F → ℕ × Board F
  write_trends cfg now db [] board = (0, board)
  write_trends cfg now db (p ∷ ps) board =
      let trend = detect_trend cfg.trends now (load_dish_city_observations db p.0 p.1) in
      let rest = write_trends cfg now db ps (
        upsert_trend now TrendSubject.dish (some (p.0)) none p.1 trend cfg.trends.recent_days
          board) in
      (suc (rest.0), rest.1)

  unfoldable pub recompute_trends : Settings F → ℕ → Option ℕ → Store F → Board F → ℕ × Board F
  recompute_trends cfg now city db board =
      write_trends cfg now db (trending_pairs (cfg.trends.min_observations * 2) city db) board
