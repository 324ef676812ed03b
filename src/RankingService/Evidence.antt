-- ===== src/RankingService/Evidence.antt =====
-- backend/app/services/ranking_service.py: what the ranking service reads of the reviews and their
-- mentions. A join finds the review of each mention; ids are unique.
use khaabo.Prelude.{
  ℕ, ◌-◌, ◌*◌, ◌/◌, ◌%◌, Bool, true, not, ◌&&◌, Option, none, some, List, [], ◌∷◌, map, ◌++◌, ltb,
  leb, ◌==◌, if◌then◌else◌, length, filter, find, any, take, sort_by, get_or,
}
use khaabo.Float.{Float, nought, one, eqf, fmean}
use khaabo.Enums.{is_published, ExtractionMethod}
use khaabo.Ranking.Model.{Observation}
use khaabo.Store.{Review, DishMention, Store}
use khaabo.Board.{DishScore, Board}

-- (dish_id, restaurant_id)
abbrev pub Pair : Type 0
Pair = ℕ × ℕ

abbrev pub same_pair : Pair → Pair → Bool
same_pair a b = a.0 == b.0 && a.1 == b.1

-- `set(pairs)`; the order in which Python runs through a set is that of the first occurrences.
unfoldable pub set_of {ℓ} : {A : Type ℓ} → (A → A → Bool) → List A → List A
set_of same [] = []
set_of same (x ∷ xs) = x ∷ filter (λ y. not (same x y)) (set_of same xs)

abbrev pub Row : Type 0 → Type 0
Row F = DishMention F × Review F

module _ {F : Type 0} where
  -- The mentions joined with their reviews.
  unfoldable pub join_reviews : List (Review F) → List (DishMention F) → List (Row F)
  join_reviews reviews [] = []
  join_reviews reviews (m ∷ ms) =
      let rest = join_reviews reviews ms in
      elim (find (λ r. r.id == m.review_id) reviews) [ none ↦ rest | some r ↦ (m, r) ∷ rest ]

  abbrev pub rows_of : Store F → List (Row F)
  rows_of db = join_reviews db.reviews db.mentions

  -- The tests of the queries.
  abbrev pub of_pair : Pair → Row F → Bool
  of_pair p (m, r) = m.dish_id == p.0 && m.restaurant_id == p.1

  abbrev pub of_dish_city : ℕ → ℕ → Row F → Bool
  of_dish_city dish city (m, r) = m.dish_id == dish && r.city_id == city

  abbrev pub is_counted : Row F → Bool
  is_counted (m, r) = is_published r.status && not r.is_duplicate

  unfoldable pub pairs_for_review : Store F → ℕ → List Pair
  pairs_for_review db review =
      map (λ (m : DishMention F). (m.dish_id, m.restaurant_id))
        (filter (λ m. m.review_id == review) db.mentions)

  abbrev oldest_first : DishScore F → DishScore F → Bool
  oldest_first a b = leb a.computed_at b.computed_at

  abbrev pair_of_score : DishScore F → Pair
  pair_of_score s = (s.dish_id, s.restaurant_id)

  abbrev pair_of_mention : DishMention F → Pair
  pair_of_mention m = (m.dish_id, m.restaurant_id)

  abbrev is_scored : Board F → Pair → Bool
  is_scored board p = any (λ s. same_pair (pair_of_score s) p) board.scores

  -- Scores computed before the cutoff, and pairs of mentions without a score. An hour has
  -- 3,600,000,000 microseconds.
  unfoldable pub stale_pairs : ℕ → ℕ → ℕ → Store F → Board F → List Pair
  stale_pairs now older_than_hours limit db board =
      let cutoff = now - older_than_hours * 3_600_000_000 in
      let rows =
        take limit (sort_by oldest_first (filter (λ s. ltb s.computed_at cutoff) board.scores)) in
      let missing = take limit (
        set_of same_pair
          (filter (λ p. not (is_scored board p)) (map pair_of_mention db.mentions))) in
      set_of same_pair (map pair_of_score rows ++ missing)

module _ {F : Type 0} ⦃f : Float F⦄ where
  open f use {lit, add, div, le}

  abbrev truthy : Option F → Option F
  truthy none = none
  truthy (some p) = if eqf p nought then none else some p

  unfoldable pub observation_of : Row F → Observation F
  observation_of (m, r) = record {
    sentiment = m.sentiment;
    confidence = m.confidence;
    source = r.source;
    engagement = r.engagement_score;
    observed_at = some (record { micros = r.published_at; aware = true });
    price = truthy m.price_mentioned;
    attributes = m.attributes;
    verified_author = true;
    extraction_method = m.extraction_method;
  }

  -- The method of extraction, the price and the attributes keep their defaults.
  unfoldable pub bare_observation_of : Row F → Observation F
  bare_observation_of (m, r) = record {
    sentiment = m.sentiment;
    confidence = m.confidence;
    source = r.source;
    engagement = r.engagement_score;
    observed_at = some (record { micros = r.published_at; aware = true });
    price = none;
    attributes = [];
    verified_author = true;
    extraction_method = ExtractionMethod.alias;
  }

  unfoldable pub load_observations : Store F → Pair → List (Observation F)
  load_observations db p =
      map observation_of (filter (λ row. of_pair p row && is_counted row) (rows_of db))

  unfoldable pub load_dish_city_observations : Store F → ℕ → ℕ → List (Observation F)
  load_dish_city_observations db dish city =
      map bare_observation_of
        (filter (λ row. of_dish_city dish city row && is_counted row) (rows_of db))

  -- Sentiment from [-1, 1] on [0, 1].
  abbrev share_of : Row F → F
  share_of (m, r) = div (add m.sentiment one) (lit 2 1)

  unfoldable pub city_dish_prior : Store F → ℕ → ℕ → Option F
  city_dish_prior db dish city =
      let rows = filter (λ row. of_dish_city dish city row && is_counted row) (rows_of db) in
      if ltb (length rows) 10 then none else some (fmean (map share_of rows))

  -- `statistics.median` of a list with an element.
  unfoldable pub median : List F → F
  median xs =
      let sorted = sort_by le xs in
      let half = length xs / 2 in
      if length xs % 2 == 1
      then get_or sorted half nought
      else div (add (get_or sorted (half - 1) nought) (get_or sorted half nought)) (lit 2 1)

  -- `[float(p) for p in rows if p]`
  abbrev pub given_prices : List (Option F) → List F
  given_prices [] = []
  given_prices (none ∷ ps) = given_prices ps
  given_prices (some p ∷ ps) = let rest = given_prices ps in if eqf p nought then rest else p ∷ rest

  abbrev pub median_of_at_least : ℕ → List F → Option F
  median_of_at_least least prices = if leb least (length prices) then some (median prices) else none

  abbrev pub is_public : Row F → Bool
  is_public (m, r) = is_published r.status

  unfoldable pub city_median_price : Store F → ℕ → ℕ → Option F
  city_median_price db dish city = median_of_at_least 3 (
      given_prices (
        map (λ (row : Row F). row.0.price_mentioned)
          (filter (λ row. of_dish_city dish city row && is_public row) (rows_of db))))
