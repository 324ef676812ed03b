-- ===== src/RankingService/Recompute/RestaurantTrend.antt =====
-- The trends of restaurants, which the scores and the Food DNA of restaurants read.
use khaabo.Prelude.{
  String, ℕ, ◌≡◌, refl, Bool, true, false, none, some, List, [], ◌∷◌, if◌then◌else◌, any, filter,
  inl, inr, Bool-cases, Option-cases, All, All-map, All-of_map, All-append,
}
use khaabo.Float.{Float}
use khaabo.Store.{Store}
use khaabo.Trends.{detect_trend}
use khaabo.Board.{TrendSubject, RestaurantScore, TrendMetric, Board}
use khaabo.RankingService.Evidence.{Pair, load_dish_city_observations}
use khaabo.RankingService.Upsert.{upsert, upsert_dish_score, upsert_restaurant_dish}
use khaabo.RankingService.Snapshots.{SnapshotDeltas, refresh_dish_aggregate}
use khaabo.RankingService.Rollup.{
  is_of_restaurant, set_rollup, is_restaurant, is_restaurant_trend, restaurant_trend, rollup,
  recompute_restaurant_score,
}
use khaabo.RankingService.Recompute.{
  trend_key, set_trend, new_trend, Settings, Progress, find_restaurant, recompute_pair,
  upsert_trend, write_trends, recompute_trends,
}
use khaabo.RankingService.Recompute.Reach.{Step, Reach, recompute_pairs-keep}

filter-none {ℓ} :
    {A : Type ℓ} (p : A → Bool) (xs : List A) → All (λ x. p x ≡ false) xs → filter p xs ≡ []
filter-none p [] h = refl
filter-none p (x ∷ xs) h = rw (h.0, filter-none p xs h.1) refl

module _ {ℓ κ} {A : Type ℓ} (P : A → Type κ) (test : A → Bool) (set : A → A) (new : A)
    (set_has : (x : A) → P x → P (set x)) (new_has : P (set new)) where
  changed : (x : A) (b : Bool) → P x → P (if b then set x else x)
  changed x true p = set_has x p
  changed x false p = p

  -- Where the fields that are set give the property.
  All-upsert : (rows : List A) → All P rows → All P (upsert test set new rows)
  unfolding upsert
  All-upsert rows h = elim (Bool-cases (any test rows)) [
    | inl e ↦ rw e (
        All-of_map P (λ x. if test x then set x else x) rows
          (All-map P (λ x. P (if test x then set x else x)) (λ x p. changed x (test x) p) rows h))
    | inr e ↦ rw e (All-append P rows (set new ∷ []) h (new_has, tt))
  ]

module _ {F : Type 0} ⦃f : Float F⦄ where
  -- No trend is one of a restaurant, and no restaurant's score has a trend.
  abbrev pub NoRestaurantTrend : Board F → Type 0
  NoRestaurantTrend board =
      All (λ (t : TrendMetric F). is_restaurant t.subject_type ≡ false) board.trends
      × All (λ (s : RestaurantScore F). (s.trend ≡ none) × (s.trend_delta ≡ none))
          board.restaurant_scores

  restaurant_trend-none :
      (board : Board F) (r : ℕ)
      → All (λ (t : TrendMetric F). is_restaurant t.subject_type ≡ false) board.trends
      → restaurant_trend board r ≡ none
  unfolding restaurant_trend
  restaurant_trend-none board r h =
      rw
        (
          restaurant_trend,
          filter-none (is_restaurant_trend r) board.trends (
              All-map (λ t. is_restaurant t.subject_type ≡ false)
                (λ t. is_restaurant_trend r t ≡ false) (λ t e. rw e refl) board.trends h),
        )
        refl

  pair-NoRestaurantTrend :
      (cfg : Settings F) (now : ℕ) (db : Store F) (q : Pair) (s : Progress × Board F)
      → NoRestaurantTrend s.1
      → NoRestaurantTrend (recompute_pair cfg now db q s).1
  unfolding recompute_pair upsert_dish_score upsert_restaurant_dish
  pair-NoRestaurantTrend cfg now db q (progress, board) h =
      elim (Option-cases (find_restaurant db q.1)) [
        | inl missing ↦ rw (recompute_pair, missing) h
        | inr (x, known) ↦ rw (recompute_pair, known) h
      ]

  dish-NoRestaurantTrend :
      (text : ℕ → String) (deltas : SnapshotDeltas F) (d : ℕ) (board : Board F)
      → NoRestaurantTrend board
      → NoRestaurantTrend (refresh_dish_aggregate text deltas d board)
  unfolding refresh_dish_aggregate
  dish-NoRestaurantTrend text deltas d board h = h

  restaurant-NoRestaurantTrend :
      (limit now : ℕ) (db : Store F) (r : ℕ) (board : Board F)
      → NoRestaurantTrend board
      → NoRestaurantTrend (recompute_restaurant_score limit now db r board)
  unfolding recompute_restaurant_score rollup
  restaurant-NoRestaurantTrend limit now db r board h = elim (Option-cases (find_restaurant db r)) [
    | inl missing ↦ rw (recompute_restaurant_score, missing) h
    | inr (x, known) ↦
        let absent = restaurant_trend-none board x.id h.0 in
        let set_fields : ((rollup limit now db board x).trend ≡ none)
            × ((rollup limit now db board x).trend_delta ≡ none) =
          rw (rollup, absent) (refl, refl) in
        rw (recompute_restaurant_score, known)
          (
            h.0,
            All-upsert (λ (s : RestaurantScore F). (s.trend ≡ none) × (s.trend_delta ≡ none))
                (is_of_restaurant r) (set_rollup (rollup limit now db board x))
                (rollup limit now db board x) (λ s p. set_fields) set_fields board.restaurant_scores
                h.1,
          )
  ]

  trends-NoRestaurantTrend :
      (cfg : Settings F) (now : ℕ) (db : Store F) (ps : List Pair) (board : Board F)
      → NoRestaurantTrend board
      → NoRestaurantTrend (write_trends cfg now db ps board).1
  unfolding write_trends upsert_trend
  trends-NoRestaurantTrend cfg now db [] board h = h
  trends-NoRestaurantTrend cfg now db (p ∷ ps) board h = trends-NoRestaurantTrend cfg now db ps _ (
    All-upsert (λ (t : TrendMetric F). is_restaurant t.subject_type ≡ false)
        (trend_key TrendSubject.dish (some (p.0)) none p.1 cfg.trends.recent_days)
        (set_trend now (detect_trend cfg.trends now (load_dish_city_observations db p.0 p.1)))
        (new_trend TrendSubject.dish (some (p.0)) none p.1 cfg.trends.recent_days) (λ t e. e) refl
        board.trends h.0,
    h.1,
  )

  -- On every board that calls of the service reach from one without scores: no trend has a restaurant
  -- for its subject, and every score of a restaurant has neither a trend nor a change.
  pub Reach-NoRestaurantTrend : (board : Board F) → Reach board → NoRestaurantTrend board
  unfolding recompute_trends
  Reach-NoRestaurantTrend board Reach.start = (tt, tt)
  Reach-NoRestaurantTrend board (Reach.next {a = a} h (Step.pairs cfg now db ps)) =
      recompute_pairs-keep NoRestaurantTrend cfg now db (pair-NoRestaurantTrend cfg now db)
        (dish-NoRestaurantTrend cfg.text cfg.deltas)
        (restaurant-NoRestaurantTrend cfg.dna_limit now db) ps a (Reach-NoRestaurantTrend a h)
  Reach-NoRestaurantTrend board (Reach.next {a = a} h (Step.trends cfg now city db)) =
      trends-NoRestaurantTrend cfg now db _ a (Reach-NoRestaurantTrend a h)
