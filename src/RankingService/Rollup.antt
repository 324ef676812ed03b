-- ===== src/RankingService/Rollup.antt =====
-- backend/app/services/ranking_service.py: the score and the Food DNA of one restaurant.
use khaabo.Prelude.{
  ℕ, ◌+◌, Bool, true, false, not, ◌&&◌, Option, none, some, List, [], ◌∷◌, map, String, leb, ◌==◌,
  if◌then◌else◌, filter, find, sort_by, take, str_eq,
}
use khaabo.Float.{Float, nought, fmean}
use khaabo.Enums.{ScoreStatus, is_published}
use khaabo.Ranking.Attributes.{Tally}
use khaabo.FoodDna.{DnaInput, build_food_dna, aggregate_aspect_sentiment}
use khaabo.Store.{Restaurant, ReviewAspect, Store}
use khaabo.Board.{DishScore, RestaurantDish, RestaurantScore, TrendSubject, TrendMetric, Board}
use khaabo.RankingService.Evidence.{given_prices, median_of_at_least}
use khaabo.RankingService.Upsert.{upsert}

-- `attribute_counts[attribute] = attribute_counts.get(attribute, 0) + 1`
abbrev add_one : String → Tally → Tally
add_one a [] = (a, 1) ∷ []
add_one a ((b, n) ∷ t) =
    let rest = add_one a t in if str_eq b a then (b, n + 1) ∷ t else (b, n) ∷ rest

abbrev count_all : List String → Tally → Tally
count_all [] t = t
count_all (a ∷ rest) t = count_all rest (add_one a t)

abbrev pub is_restaurant : TrendSubject → Bool
is_restaurant TrendSubject.restaurant = true
is_restaurant _ = false

module _ {F : Type 0} where
  -- The scores of a restaurant, with the names of their dishes.
  unfoldable pub dish_rows : Board F → ℕ → List (DishScore F) → List (DishScore F × String)
  dish_rows board restaurant [] = []
  dish_rows board restaurant (s ∷ ss) =
      let rest = dish_rows board restaurant ss in
      elim (find (λ d. d.id == s.dish_id) board.dishes) [
        | none ↦ rest
        | some d ↦ if s.restaurant_id == restaurant then (s, d.name) ∷ rest else rest
      ]

  abbrev attribute_counts_from : List (DishScore F × String) → Tally → Tally
  attribute_counts_from [] t = t
  attribute_counts_from ((s, name) ∷ rows) t =
      attribute_counts_from rows (count_all s.top_attributes t)

  abbrev pub total_of : List (DishScore F × String) → ℕ
  total_of [] = 0
  total_of ((s, name) ∷ rows) = s.mention_count + total_of rows

  abbrev given : List (Option F) → List F
  given [] = []
  given (none ∷ xs) = given xs
  given (some x ∷ xs) = x ∷ given xs

  abbrev pub is_restaurant_trend : ℕ → TrendMetric F → Bool
  is_restaurant_trend restaurant t =
      is_restaurant t.subject_type
      && elim t.restaurant_id [ none ↦ false | some r ↦ r == restaurant ]

  abbrev pub newest_first : TrendMetric F → TrendMetric F → Bool
  newest_first a b = leb b.computed_at a.computed_at

  unfoldable pub restaurant_trend : Board F → ℕ → Option (TrendMetric F)
  restaurant_trend board restaurant =
      elim (sort_by newest_first (filter (is_restaurant_trend restaurant) board.trends)) [
        | [] ↦ none
        | t ∷ ts ↦ some t
      ]

  abbrev is_public_aspect : Store F → ℕ → ReviewAspect F → Bool
  is_public_aspect db restaurant a = elim (find (λ r. r.id == a.review_id) db.reviews) [
    | none ↦ false
    | some r ↦ r.restaurant_id == restaurant && is_published r.status
  ]

  unfoldable pub aspect_rows : Store F → ℕ → List (String × F)
  aspect_rows db restaurant =
      map (λ (a : ReviewAspect F). (a.aspect, a.sentiment))
        (filter (is_public_aspect db restaurant) db.aspects)

  abbrev is_in_city : Store F → ℕ → RestaurantDish F → Bool
  is_in_city db city r = elim (find (λ x. x.id == r.restaurant_id) db.restaurants) [
    | none ↦ false
    | some x ↦ x.city_id == city
  ]

module _ {F : Type 0} ⦃f : Float F⦄ where
  open f use {lit, of_nat, div, le, round}

  abbrev mean_or_none : List F → Option F
  mean_or_none [] = none
  mean_or_none (x ∷ xs) = some (round (fmean (x ∷ xs)) 4)

  -- `round(fmean(xs), digits) if xs else 0.0`
  abbrev mean_or_nought : List F → F
  mean_or_nought [] = nought
  mean_or_nought (x ∷ xs) = round (fmean (x ∷ xs)) 4

  unfoldable pub city_price_level_median : Store F → Board F → ℕ → Option F
  city_price_level_median db board city = median_of_at_least 5 (
      given_prices (
        map (λ (r : RestaurantDish F). r.price_avg)
          (filter (is_in_city db city) board.restaurant_dishes)))

  abbrev pub scores_of : List (DishScore F × String) → List F
  scores_of rows = given (map (λ (row : DishScore F × String). row.0.score) rows)

  abbrev sentiments_of : List (DishScore F × String) → List F
  sentiments_of rows =
      map (λ (row : DishScore F × String). row.0.components.sentiment)
        (filter (λ row. not (row.0.mention_count == 0)) rows)

  abbrev consistencies_of : List (DishScore F × String) → List F
  consistencies_of rows =
      map (λ (row : DishScore F × String). row.0.consistency)
        (filter (λ row. leb 3 row.0.mention_count) rows)

  abbrev plain_mean : List F → F
  plain_mean [] = nought
  plain_mean (x ∷ xs) = fmean (x ∷ xs)

  abbrev mean_price : List (DishScore F × String) → Option F
  mean_price rows =
      mean_or_none (given_prices (map (λ (row : DishScore F × String). row.0.price_avg) rows))

  unfoldable pub dna_input :
      Store F → Board F → Restaurant F → List (DishScore F × String) → DnaInput F
  dna_input db board restaurant rows = record {
    dish_labels =
        map
          (λ (row : DishScore F × String). (row.1, row.0.components.sentiment, row.0.mention_count))
          rows;
    attribute_counts = attribute_counts_from rows [];
    aspect_sentiment = aggregate_aspect_sentiment (aspect_rows db restaurant.id);
    price_avg = mean_price rows;
    city_median_price = city_price_level_median db board restaurant.city_id;
    consistency = plain_mean (consistencies_of rows);
    trend = elim (restaurant_trend board restaurant.id) [ none ↦ none | some t ↦ t.direction ];
    total_mentions = total_of rows;
    cuisines = restaurant.details.cuisines;
  }

  abbrev score_or_nought : DishScore F → F
  score_or_nought s = elim s.score [ none ↦ nought | some x ↦ x ]

  abbrev better : DishScore F × String → DishScore F × String → Bool
  better a b = le (score_or_nought b.0) (score_or_nought a.0)

  abbrev status_of : List F → ScoreStatus
  status_of [] = ScoreStatus.insufficient_data
  status_of (x ∷ xs) = ScoreStatus.ranked

  abbrev overall_of : List F → Option F
  overall_of [] = none
  overall_of (x ∷ xs) = some (round (fmean (x ∷ xs)) 3)

  -- The row of a restaurant, computed from the other tables; `dna_limit` is the default of
  -- `build_food_dna`.
  unfoldable pub rollup : ℕ → ℕ → Store F → Board F → Restaurant F → RestaurantScore F
  rollup dna_limit now db board restaurant =
      let rows = dish_rows board restaurant.id board.scores in
      let trend = restaurant_trend board restaurant.id in
      record {
        restaurant_id = restaurant.id;
        city_id = restaurant.city_id;
        overall_score = overall_of (scores_of rows);
        sentiment = mean_or_nought (sentiments_of rows);
        consistency = mean_or_nought (consistencies_of rows);
        value_score =
            mean_or_none (given (map (λ (row : DishScore F × String). row.0.value_score) rows));
        price_level = restaurant.details.price_level;
        trend = elim trend [ none ↦ none | some t ↦ t.direction ];
        trend_delta = elim trend [ none ↦ none | some t ↦ t.delta ];
        dna = build_food_dna dna_limit (dna_input db board restaurant rows);
        top_dish_ids =
            map (λ (row : DishScore F × String). row.0.dish_id) (take 5 (sort_by better rows));
        evidence_count = total_of rows;
        status = status_of (scores_of rows);
        computed_at = now;
      }

  abbrev pub is_of_restaurant : ℕ → RestaurantScore F → Bool
  is_of_restaurant restaurant row = row.restaurant_id == restaurant

  -- The fields are set on the row that stands there, which keeps its city.
  abbrev pub set_rollup : RestaurantScore F → RestaurantScore F → RestaurantScore F
  set_rollup new row = record new { restaurant_id = row.restaurant_id; city_id = row.city_id }

  unfoldable pub mark_signatures :
      ℕ → ℕ → List (DishScore F × String) → List (RestaurantDish F) → List (RestaurantDish F)
  mark_signatures restaurant total [] bridge = bridge
  mark_signatures restaurant total ((s, name) ∷ rows) bridge =
      mark_signatures restaurant total rows (
        map
          (λ (r : RestaurantDish F).
            if r.restaurant_id == restaurant && r.dish_id == s.dish_id
            then record r {
              is_signature =
                  (le (lit 25 100) (div (of_nat s.mention_count) (of_nat total))
                    && leb 3 s.mention_count);
            }
            else r)
          bridge)

  unfoldable pub recompute_restaurant_score : ℕ → ℕ → Store F → ℕ → Board F → Board F
  recompute_restaurant_score dna_limit now db restaurant_id board =
      elim (find (λ r. r.id == restaurant_id) db.restaurants) [
        | none ↦ board
        | some restaurant ↦
            let rows = dish_rows board restaurant_id board.scores in
            let new = rollup dna_limit now db board restaurant in
            record board {
              restaurant_scores =
                  upsert (is_of_restaurant restaurant_id) (set_rollup new) new
                    board.restaurant_scores;
              restaurant_dishes =
                  if total_of rows == 0
                  then board.restaurant_dishes
                  else mark_signatures restaurant_id (total_of rows) rows board.restaurant_dishes;
            }
      ]
