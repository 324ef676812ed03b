-- ===== src/RankingService/Recompute/Reach.antt =====
-- The boards that recomputations reach from an empty one, whatever the reviews, the settings and the
-- clock are at each step.
use khaabo.Prelude.{
  ℕ, ◌≤◌, ◌≡◌, refl, ap, sym, ◌∙◌, Bool, true, false, ◌==◌, Option, List, [], ◌∷◌, if◌then◌else◌,
  count, String, arith, inl, inr, Option-cases, none, some, count-map, find_found,
}
use khaabo.Float.{Float}
use khaabo.Store.{Store}
use khaabo.Board.{DishScore, RestaurantDish, RestaurantScore, TrendSubject, TrendMetric, Board}
use khaabo.RankingService.Evidence.{Pair}
use khaabo.RankingService.Upsert.{
  score_key, bridge_key, new_score, new_bridge, upsert_dish_score, upsert_restaurant_dish,
}
use khaabo.RankingService.Upsert.Found.{count-upsert-le_one}
use khaabo.RankingService.Snapshots.{SnapshotDeltas, refresh_dish_aggregate}
use khaabo.RankingService.Snapshots.Badged.{without_badges, refresh_dish_aggregate-same}
use khaabo.RankingService.Rollup.{
  recompute_restaurant_score, mark_signatures, is_of_restaurant, dish_rows, total_of, rollup,
}
use khaabo.RankingService.Recompute.{
  Settings, Progress, result_of, trend_of, find_restaurant, recompute_pair, recompute_all,
  refresh_dishes, refresh_restaurants, recompute_pairs, upsert_trend, write_trends,
  recompute_trends, trend_key, new_trend,
}
use khaabo.RankingService.Recompute.Keys.{score_apart, bridge_apart, restaurant_apart, trend_apart}

abbrev pub empty_board : {F : Type 0} → List khaabo.Board.Dish → Board F
empty_board dishes = record {
  scores = [];
  restaurant_dishes = [];
  dishes = dishes;
  snapshots = [];
  restaurant_scores = [];
  trends = [];
}

module _ {F : Type 0} ⦃f : Float F⦄ where
  -- One call of the service.
  pub data Step : Board F → Board F → Type 0 where
    pairs :
        (cfg : Settings F) (now : ℕ) (db : Store F) (ps : List Pair) {board : Board F}
        → Step board (recompute_pairs cfg now db ps board).1
    trends :
        (cfg : Settings F) (now : ℕ) (city : Option ℕ) (db : Store F) {board : Board F}
        → Step board (recompute_trends cfg now city db board).1

  pub data Reach : Board F → Type 0 where
    start : {dishes : List khaabo.Board.Dish} → Reach (empty_board dishes)
    next : {a b : Board F} → Reach a → Step a b → Reach b

  -- Each key has at most one row.
  abbrev pub UniqueKeys : Board F → Type 0
  UniqueKeys board =
      ((p : Pair) (city : ℕ) → count (score_key p city) board.scores ≤ 1)
      × ((p : Pair) → count (bridge_key p) board.restaurant_dishes ≤ 1)
      × ((r : ℕ) → count (is_of_restaurant r) board.restaurant_scores ≤ 1)
      × ((subject : TrendSubject) (dish restaurant : Option ℕ) (city window : ℕ)
          → count (trend_key subject dish restaurant city window) board.trends ≤ 1)

  module _ (P : Board F → Type 0) (cfg : Settings F) (now : ℕ) (db : Store F)
      (of_pair : (p : Pair) (s : Progress × Board F) → P s.1 → P (recompute_pair cfg now db p s).1)
      (of_dish : (d : ℕ) (b : Board F) → P b → P (refresh_dish_aggregate cfg.text cfg.deltas d b))
      (of_restaurant : (r : ℕ) (b : Board F)
        → P b
        → P (recompute_restaurant_score cfg.dna_limit now db r b)) where
    pairs_keep :
        (ps : List Pair) (s : Progress × Board F) → P s.1 → P (recompute_all cfg now db ps s).1
    unfolding recompute_all
    pairs_keep [] s h = h
    pairs_keep (p ∷ ps) s h = pairs_keep ps (recompute_pair cfg now db p s) (of_pair p s h)

    dishes_keep : (ds : List ℕ) (s : Progress × Board F) → P s.1 → P (refresh_dishes cfg ds s).1
    unfolding refresh_dishes
    dishes_keep [] s h = h
    dishes_keep (d ∷ ds) (progress, board) h = dishes_keep ds _ (of_dish d board h)

    restaurants_keep :
        (rs : List ℕ) (s : Progress × Board F) → P s.1 → P (refresh_restaurants cfg now db rs s).1
    unfolding refresh_restaurants
    restaurants_keep [] s h = h
    restaurants_keep (r ∷ rs) (progress, board) h = restaurants_keep rs _ (of_restaurant r board h)

    -- What the three kinds of steps keep, `recompute_pairs` keeps.
    pub recompute_pairs-keep :
        (ps : List Pair) (board : Board F) → P board → P (recompute_pairs cfg now db ps board).1
    unfolding recompute_pairs
    recompute_pairs-keep ps board h = restaurants_keep _ _ (dishes_keep _ _ (pairs_keep _ _ h))

  pair-UniqueKeys :
      (cfg : Settings F) (now : ℕ) (db : Store F) (q : Pair) (s : Progress × Board F)
      → UniqueKeys s.1
      → UniqueKeys (recompute_pair cfg now db q s).1
  unfolding recompute_pair upsert_dish_score upsert_restaurant_dish
  pair-UniqueKeys cfg now db q (progress, board) h = elim (Option-cases (find_restaurant db q.1)) [
    | inl missing ↦ rw (recompute_pair, missing) h
    | inr (x, known) ↦
        rw (recompute_pair, known)
          (
            λ p city.
                count-upsert-le_one (score_key p city) (score_key q x.city_id) _
                  (new_score q x.city_id now (result_of cfg now db x.city_id q)
                    (trend_of cfg now db q))
                  board.scores (λ s. refl)
                  (score_apart p q city x.city_id now (result_of cfg now db x.city_id q)
                    (trend_of cfg now db q))
                  (h.0 p city),
            λ p.
                count-upsert-le_one (bridge_key p) (bridge_key q) _ (new_bridge q)
                  board.restaurant_dishes (λ s. refl) (bridge_apart p q) (h.1 p),
            h.2,
            h.3,
          )
  ]

  dish-UniqueKeys :
      (text : ℕ → String) (deltas : SnapshotDeltas F) (d : ℕ) (board : Board F)
      → UniqueKeys board
      → UniqueKeys (refresh_dish_aggregate text deltas d board)
  unfolding refresh_dish_aggregate
  dish-UniqueKeys text deltas d board h = (
    λ p city.
        let after = (refresh_dish_aggregate text deltas d board).scores in
        let same : count (score_key p city) after ≡ count (score_key p city) board.scores =
          sym (count-map (score_key p city) without_badges (λ s. refl) after)
          ∙ ap (count (score_key p city)) (refresh_dish_aggregate-same text deltas d board)
          ∙ count-map (score_key p city) without_badges (λ s. refl) board.scores in
        rw same (h.0 p city),
    h.1,
    h.2,
    h.3,
  )

  mark_signatures-count :
      (p : Pair) (r total : ℕ) (rows : List (DishScore F × String))
      (bridge : List (RestaurantDish F))
      → count (bridge_key p) (mark_signatures r total rows bridge) ≡ count (bridge_key p) bridge
  unfolding mark_signatures
  mark_signatures-count p r total [] bridge = refl
  mark_signatures-count p r total ((s, name) ∷ rows) bridge =
      mark_signatures-count p r total rows _ ∙ count-map (bridge_key p) _ (λ x. ground arith) bridge

  signatures_kept :
      (p : Pair) (b : Bool) (r total : ℕ) (rows : List (DishScore F × String))
      (bridge : List (RestaurantDish F))
      → count (bridge_key p) bridge ≤ 1
      → count (bridge_key p) (if b then bridge else mark_signatures r total rows bridge) ≤ 1
  signatures_kept p true r total rows bridge h = h
  signatures_kept p false r total rows bridge h = rw (mark_signatures-count p r total rows bridge) h

  restaurant-UniqueKeys :
      (limit now : ℕ) (db : Store F) (r : ℕ) (board : Board F)
      → UniqueKeys board
      → UniqueKeys (recompute_restaurant_score limit now db r board)
  unfolding recompute_restaurant_score rollup
  restaurant-UniqueKeys limit now db r board h = elim (Option-cases (find_restaurant db r)) [
    | inl missing ↦ rw (recompute_restaurant_score, missing) h
    | inr (x, known) ↦
        rw (recompute_restaurant_score, known)
          (
            h.0,
            λ p.
                signatures_kept p (total_of (dish_rows board r board.scores) == 0) r _ _
                  board.restaurant_dishes (h.1 p),
            λ q.
                count-upsert-le_one (is_of_restaurant q) (is_of_restaurant r) _
                  (rollup limit now db board x) board.restaurant_scores (λ s. refl)
                  (restaurant_apart q r (rollup limit now db board x)
                    (find_found (λ y. y.id == r) db.restaurants x known))
                  (h.2 q),
            h.3,
          )
  ]

  trends-same :
      (cfg : Settings F) (now : ℕ) (db : Store F) (ps : List Pair) (board : Board F)
      → UniqueKeys board
      → UniqueKeys (write_trends cfg now db ps board).1
  unfolding write_trends upsert_trend
  trends-same cfg now db [] board h = h
  trends-same cfg now db (p ∷ ps) board h = trends-same cfg now db ps _ (
    h.0,
    h.1,
    h.2,
    λ subject dish restaurant city window.
        count-upsert-le_one (trend_key subject dish restaurant city window)
          (trend_key TrendSubject.dish (some (p.0)) none p.1 cfg.trends.recent_days) _
          (new_trend TrendSubject.dish (some (p.0)) none p.1 cfg.trends.recent_days) board.trends
          (λ t. refl)
          (trend_apart subject TrendSubject.dish dish restaurant (some (p.0)) none city window p.1
            cfg.trends.recent_days)
          (h.3 subject dish restaurant city window),
  )

  -- On every board that calls of the service reach from one without scores: a pair has at most one
  -- score in a city, a pair has at most one row in the bridge, a restaurant has at most one score, and
  -- a subject with its dish, restaurant, city and window, given or not, has at most one trend.
  pub Reach-UniqueKeys : (board : Board F) → Reach board → UniqueKeys board
  unfolding recompute_trends
  Reach-UniqueKeys board Reach.start =
      (λ p city. omega arith, λ p. omega arith, λ r. omega arith, λ s d r c w. omega arith)
  Reach-UniqueKeys board (Reach.next {a = a} h (Step.pairs cfg now db ps)) =
      recompute_pairs-keep UniqueKeys cfg now db (pair-UniqueKeys cfg now db)
        (dish-UniqueKeys cfg.text cfg.deltas) (restaurant-UniqueKeys cfg.dna_limit now db) ps a
        (Reach-UniqueKeys a h)
  Reach-UniqueKeys board (Reach.next {a = a} h (Step.trends cfg now city db)) =
      trends-same cfg now db _ a (Reach-UniqueKeys a h)
