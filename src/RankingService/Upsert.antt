-- ===== src/RankingService/Upsert.antt =====
-- backend/app/services/ranking_service.py: the rows of one (dish, restaurant) pair. A key has at
-- most one row, so the row that `scalar_one_or_none` returns is the only one that is changed.
pub mod Found
use khaabo.Prelude.{
  ℕ, ◌-◌, Bool, ◌&&◌, Option, none, some, List, [], ◌∷◌, ◌++◌, map, leb, ◌==◌, if◌then◌else◌, any,
  count, length, false,
}
use khaabo.Float.{Float, lt, fmin, fmax}
use khaabo.Ranking.Model.{Timestamp, Observation, DishScoreResult}
use khaabo.Trends.{TrendResult}
use khaabo.Board.{DishScore, RestaurantDish, Board}
use khaabo.RankingService.Evidence.{Pair, given_prices}

-- Change the row of a key, or add one.
unfoldable pub upsert {ℓ} : {A : Type ℓ} → (A → Bool) → (A → A) → A → List A → List A
upsert test set new rows =
    if any test rows then map (λ x. if test x then set x else x) rows else rows ++ (set new ∷ [])

module _ {F : Type 0} where
  abbrev pub score_key : Pair → ℕ → DishScore F → Bool
  score_key p city s = s.dish_id == p.0 && (s.restaurant_id == p.1 && s.city_id == city)

  abbrev pub bridge_key : Pair → RestaurantDish F → Bool
  bridge_key p r = r.dish_id == p.0 && r.restaurant_id == p.1

  -- The fields that a result and a trend give.
  abbrev pub set_score : ℕ → DishScoreResult F → TrendResult F → DishScore F → DishScore F
  set_score now result trend row = record row {
    score = result.score;
    raw_score = result.raw_score;
    components = result.components;
    positive_ratio = result.positive_ratio;
    observed_positivity = result.observed_positivity;
    mention_count = result.mention_count;
    evidence_weight = result.evidence_weight;
    consistency = result.consistency;
    recency_days = result.recency_days;
    bayesian_score = result.bayesian_score;
    price_avg = result.price_avg;
    value_score = result.value_score;
    why = result.why;
    top_attributes = result.top_attributes;
    status = result.status;
    weights_version = result.weights_version;
    computed_at = now;
    trend = trend.direction;
    trend_delta = trend.delta;
  }

  -- `DishScore(dish_id=..., restaurant_id=..., city_id=...)`, with its fields set.
  abbrev pub new_score : Pair → ℕ → ℕ → DishScoreResult F → TrendResult F → DishScore F
  new_score p city now result trend = record {
    dish_id = p.0;
    restaurant_id = p.1;
    city_id = city;
    score = result.score;
    raw_score = result.raw_score;
    components = result.components;
    positive_ratio = result.positive_ratio;
    observed_positivity = result.observed_positivity;
    mention_count = result.mention_count;
    evidence_weight = result.evidence_weight;
    consistency = result.consistency;
    recency_days = result.recency_days;
    bayesian_score = result.bayesian_score;
    price_avg = result.price_avg;
    value_score = result.value_score;
    is_hidden_gem = false;
    is_best_value = false;
    is_most_consistent = false;
    trend = trend.direction;
    trend_delta = trend.delta;
    why = result.why;
    top_attributes = result.top_attributes;
    status = result.status;
    weights_version = result.weights_version;
    computed_at = now;
  }

  unfoldable pub upsert_dish_score :
      ℕ → Pair → ℕ → DishScoreResult F → TrendResult F → Board F → Board F
  upsert_dish_score now p city result trend board = record board {
    scores =
        upsert (score_key p city) (set_score now result trend) (new_score p city now result trend)
          board.scores;
  }

abbrev earlier : Timestamp → Timestamp → Timestamp
earlier a b = if leb a.micros b.micros then a else b

abbrev later : Timestamp → Timestamp → Timestamp
later a b = if leb b.micros a.micros then a else b

abbrev first_date : List Timestamp → Option Timestamp
first_date [] = none
first_date (t ∷ ts) = elim (first_date ts) [ none ↦ some t | some u ↦ some (earlier t u) ]

abbrev last_date : List Timestamp → Option Timestamp
last_date [] = none
last_date (t ∷ ts) = elim (last_date ts) [ none ↦ some t | some u ↦ some (later t u) ]

module _ {F : Type 0} ⦃f : Float F⦄ where
  open f use {lit, neg}

  abbrev least : List F → Option F
  least [] = none
  least (x ∷ []) = some x
  least (x ∷ xs) = elim (least xs) [ none ↦ some x | some y ↦ some (fmin x y) ]

  abbrev greatest : List F → Option F
  greatest [] = none
  greatest (x ∷ []) = some x
  greatest (x ∷ xs) = elim (greatest xs) [ none ↦ some x | some y ↦ some (fmax x y) ]

  abbrev dates_of : List (Observation F) → List Timestamp
  dates_of [] = []
  dates_of (o ∷ os) = elim o.observed_at [ none ↦ dates_of os | some t ↦ t ∷ dates_of os ]

  abbrev pub is_positive : Observation F → Bool
  is_positive o = lt (lit 15 100) o.sentiment

  abbrev pub is_negative : Observation F → Bool
  is_negative o = lt o.sentiment (neg (lit 15 100))

  abbrev pub set_bridge :
      List (Observation F) → DishScoreResult F → RestaurantDish F → RestaurantDish F
  set_bridge observations result row =
      let prices = given_prices (map (λ (o : Observation F). o.price) observations) in
      let dates = dates_of observations in
      let positive = count is_positive observations in
      let negative = count is_negative observations in
      record row {
        mention_count = length observations;
        positive_count = positive;
        negative_count = negative;
        neutral_count = length observations - positive - negative;
        price_min = least prices;
        price_max = greatest prices;
        price_avg = result.price_avg;
        first_mentioned_at = first_date dates;
        last_mentioned_at = last_date dates;
      }

  abbrev pub new_bridge : Pair → RestaurantDish F
  new_bridge p = record {
    dish_id = p.0;
    restaurant_id = p.1;
    mention_count = 0;
    positive_count = 0;
    negative_count = 0;
    neutral_count = 0;
    price_min = none;
    price_max = none;
    price_avg = none;
    first_mentioned_at = none;
    last_mentioned_at = none;
    is_signature = false;
  }

  unfoldable pub upsert_restaurant_dish :
      Pair → List (Observation F) → DishScoreResult F → Board F → Board F
  upsert_restaurant_dish p observations result board = record board {
    restaurant_dishes =
        upsert (bridge_key p) (set_bridge observations result) (new_bridge p)
          board.restaurant_dishes;
  }
