-- ===== src/RankingService/Recompute/Entry.antt =====
-- The score that a search finds for a pair, and what one step of a recomputation makes of it.
use khaabo.Prelude.{
  ℕ, ◌≡◌, refl, ap, sym, ◌∙◌, Bool, true, false, not, Option, none, some, List, [], ◌∷◌, map, any,
  filter, find, map_option, arith, inl, inr, Bool-cases,
}
use khaabo.Float.{Float}
use khaabo.Ranking.Model.{DishScoreResult}
use khaabo.Trends.{TrendResult}
use khaabo.Store.{Restaurant, Store}
use khaabo.Board.{DishScore, Board}
use khaabo.RankingService.Evidence.{Pair, same_pair, set_of}
use khaabo.RankingService.Upsert.{
  upsert, score_key, set_score, new_score, upsert_dish_score, upsert_restaurant_dish,
}
use khaabo.RankingService.Upsert.Found.{find-upsert_self, find-upsert_other}
use khaabo.RankingService.Snapshots.Badged.{without_badges}
use khaabo.RankingService.Recompute.{
  Settings, Progress, find_restaurant, result_of, trend_of, recompute_pair,
}

find-map_same {ℓ} :
    {A : Type ℓ} (p : A → Bool) (g : A → A)
    → ((x : A) → p (g x) ≡ p x)
    → (xs : List A) → find p (map g xs) ≡ map_option g (find p xs)
find-map_same p g h [] = refl
find-map_same p g h (x ∷ xs) = ground (arith, h x, find-map_same p g h xs)

any-filter_other {ℓ} :
    {A : Type ℓ} (p drop : A → Bool)
    → ((x : A) → drop x ≡ true → p x ≡ false)
    → (xs : List A) → any p (filter (λ x. not (drop x)) xs) ≡ any p xs
any-filter_other p drop h [] = refl
any-filter_other p drop h (x ∷ xs) = ground (arith, h x, any-filter_other p drop h xs)

pub same_pair_refl : (p q : Pair) → same_pair p q ≡ true → p ≡ q
same_pair_refl p q h = ground arith

apart :
    (p x : Pair) → same_pair p x ≡ false → (y : Pair) → same_pair x y ≡ true → same_pair p y ≡ false
apart p x h y k = ground arith

pub any-set_of :
    (p : Pair) (ps : List Pair) → any (same_pair p) (set_of same_pair ps) ≡ any (same_pair p) ps
unfolding set_of
any-set_of p [] = refl
any-set_of p (x ∷ ps) = elim (Bool-cases (same_pair p x)) [
  | inl e ↦ rw e refl
  | inr e ↦
      rw (e, any-filter_other (same_pair p) (same_pair x) (apart p x e) (set_of same_pair ps))
        (any-set_of p ps)
]

module _ {F : Type 0} ⦃f : Float F⦄ where
  -- The score of a pair in a city, less its badges.
  abbrev pub entry : Pair → ℕ → Board F → Option (DishScore F)
  entry p city board = find (score_key p city) (map without_badges board.scores)

  keys :
      (p : Pair) (city : ℕ) (s : DishScore F)
      → score_key p city s ≡ true
      → (s.dish_id ≡ p.0) × (s.restaurant_id ≡ p.1) × (s.city_id ≡ city)
  keys p city s h = (ground arith, ground arith, ground arith)

  pub new_key :
      (q : Pair) (city now : ℕ) (result : DishScoreResult F) (trend : TrendResult F)
      → score_key q city (new_score q city now result trend) ≡ true
  new_key q city now result trend = ground arith

  other_key :
      (p q : Pair) (city town : ℕ)
      → same_pair p q ≡ false
      → (s : DishScore F) → score_key q town s ≡ true
      → score_key p city s ≡ false
  other_key p q city town h s k = ground arith

  pub scores_missing :
      (cfg : Settings F) (now : ℕ) (db : Store F) (q : Pair) (s : Progress × Board F)
      → find_restaurant db q.1 ≡ none
      → (recompute_pair cfg now db q s).1.scores ≡ s.1.scores
  unfolding recompute_pair
  scores_missing cfg now db q (progress, board) h = rw (recompute_pair, h) refl

  pub scores_found :
      (cfg : Settings F) (now : ℕ) (db : Store F) (q : Pair) (s : Progress × Board F)
      (x : Restaurant F)
      → find_restaurant db q.1 ≡ some x
      → (recompute_pair cfg now db q s).1.scores
        ≡ upsert
            (score_key q x.city_id)
            (set_score now (result_of cfg now db x.city_id q) (trend_of cfg now db q))
            (new_score q x.city_id now (result_of cfg now db x.city_id q) (trend_of cfg now db q))
            s.1.scores
  unfolding recompute_pair upsert_dish_score upsert_restaurant_dish
  scores_found cfg now db q (progress, board) x h = rw (recompute_pair, h) refl

  pub entry-upsert_self :
      (p : Pair) (city now : ℕ) (result : DishScoreResult F) (trend : TrendResult F)
      (rows : List (DishScore F))
      → find (score_key p city) (
          map without_badges (
            upsert
              (score_key p city)
              (set_score now result trend)
              (new_score p city now result trend)
              rows))
        ≡ some (new_score p city now result trend)
  entry-upsert_self p city now result trend rows =
      let key = score_key {F = F} p city in
      let found_row =
        find-upsert_self key (set_score now result trend) (new_score p city now result trend) rows
          (λ s. refl) (new_key p city now result trend) in
      let ids = keys p city found_row.0 found_row.1 in
      rw
        (
          find-map_same key without_badges (λ s. refl)
              (upsert key (set_score now result trend) (new_score p city now result trend) rows),
          found_row.2,
          ids.0,
          ids.1,
          ids.2,
        )
        refl

  pub entry-upsert_other :
      (p q : Pair) (city town now : ℕ) (result : DishScoreResult F) (trend : TrendResult F)
      (rows : List (DishScore F))
      → same_pair p q ≡ false
      → find (score_key p city) (
          map without_badges (
            upsert
              (score_key q town)
              (set_score now result trend)
              (new_score q town now result trend)
              rows))
        ≡ find (score_key p city) (map without_badges rows)
  entry-upsert_other p q city town now result trend rows h =
      let key = score_key {F = F} p city in
      find-map_same key without_badges (λ s. refl) _
      ∙ ap (map_option without_badges) (
          find-upsert_other key (score_key q town) (set_score now result trend)
            (new_score q town now result trend) rows (λ s. refl) (other_key p q city town h)
            (new_key q town now result trend))
      ∙ sym (find-map_same key without_badges (λ s. refl) rows)
