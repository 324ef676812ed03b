-- ===== src/RankingService/Recompute/Keys.antt =====
-- When two keys of the board's tables cannot be one row's.
use khaabo.Prelude.{ℕ, ◌≡◌, refl, Bool, true, false, ◌==◌, Option, arith, none, some, ◌&&◌}
use khaabo.Float.{Float}
use khaabo.Ranking.Model.{DishScoreResult}
use khaabo.Trends.{TrendResult}
use khaabo.Board.{DishScore, RestaurantDish, RestaurantScore, TrendSubject, TrendMetric}
use khaabo.RankingService.Evidence.{Pair}
use khaabo.RankingService.Upsert.{score_key, bridge_key, new_score, new_bridge}
use khaabo.RankingService.Rollup.{is_of_restaurant}
use khaabo.RankingService.Recompute.{trend_key, new_trend, same_id, same_subject}

subject_same : (a b : TrendSubject) → same_subject a b ≡ true → a ≡ b
subject_same TrendSubject.dish TrendSubject.dish h = refl
subject_same TrendSubject.restaurant TrendSubject.restaurant h = refl
subject_same TrendSubject.dish_restaurant TrendSubject.dish_restaurant h = refl
subject_same _ _ h = cc

id_same : (a b : Option ℕ) → same_id a b ≡ true → a ≡ b
id_same none none h = refl
id_same none (some b) h = cc
id_same (some a) none h = cc
id_same (some a) (some b) h = ground arith

five_hold :
    (a b c d e : Bool)
    → a && (b && (c && (d && e))) ≡ true
    → (a ≡ true) × (b ≡ true) × (c ≡ true) × (d ≡ true) × (e ≡ true)
five_hold a b c d e h = (ground arith, ground arith, ground arith, ground arith, ground arith)

module _ {F : Type 0} ⦃f : Float F⦄ where
  pub score_apart :
      (p q : Pair) (city town now : ℕ) (result : DishScoreResult F) (trend : TrendResult F)
      → score_key p city (new_score q town now result trend) ≡ true
      → (s : DishScore F) → score_key q town s ≡ false
      → score_key p city s ≡ false
  score_apart p q city town now result trend k s e = ground arith

  pub bridge_apart :
      (p q : Pair)
      → bridge_key p (new_bridge {F = F} q) ≡ true
      → (s : RestaurantDish F) → bridge_key q s ≡ false
      → bridge_key p s ≡ false
  bridge_apart p q k s e = ground arith

  pub trend_apart :
      (subject other : TrendSubject) (dish restaurant e r : Option ℕ) (city window c w : ℕ)
      → trend_key subject dish restaurant city window (new_trend {F = F} other e r c w) ≡ true
      → (t : TrendMetric F) → trend_key other e r c w t ≡ false
      → trend_key subject dish restaurant city window t ≡ false
  trend_apart subject other dish restaurant e r city window c w k t h =
      let (a, b, d, g, i) =
        five_hold (same_subject other subject) (same_id e dish) (same_id r restaurant) (c == city)
          (w == window) k in
      let same_city : c ≡ city = ground arith in
      let same_window : w ≡ window = ground arith in
      rw
        (
          ← subject_same other subject a,
          ← id_same e dish b,
          ← id_same r restaurant d,
          ← same_city,
          ← same_window,
        )
        h

  pub restaurant_apart :
      (q r : ℕ) (new : RestaurantScore F)
      → (new.restaurant_id == r) ≡ true
      → is_of_restaurant q new ≡ true
      → (s : RestaurantScore F) → is_of_restaurant r s ≡ false
      → is_of_restaurant q s ≡ false
  restaurant_apart q r new h k s e = ground arith
