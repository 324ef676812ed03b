-- ===== src/RankingService/Recompute/Fresh.antt =====
-- After a recomputation the score of a pair is a function of the published evidence.
use khaabo.Prelude.{
  ℕ, ◌≡◌, refl, ap, ◌∙◌, Bool, true, false, ◌||◌, Option, some, List, [], ◌∷◌, map, if◌then◌else◌,
  any, find, inl, inr, Bool-cases, Option-cases,
}
use khaabo.Float.{Float}
use khaabo.Store.{Restaurant, Store}
use khaabo.Board.{DishScore, Board}
use khaabo.RankingService.Evidence.{Pair, same_pair, set_of}
use khaabo.RankingService.Upsert.{score_key, new_score}
use khaabo.RankingService.Snapshots.Badged.{without_badges, refresh_dish_aggregate-same}
use khaabo.RankingService.Rollup.{recompute_restaurant_score}
use khaabo.RankingService.Recompute.{
  start, Settings, Progress, find_restaurant, result_of, trend_of, recompute_pair, recompute_all,
  refresh_dishes, refresh_restaurants, recompute_pairs,
}
use khaabo.RankingService.Recompute.Entry.{
  entry, any-set_of, same_pair_refl, scores_missing, scores_found, entry-upsert_self,
  entry-upsert_other,
}

module _ {F : Type 0} ⦃f : Float F⦄ where
  module _ (cfg : Settings F) (now : ℕ) (db : Store F) (p : Pair) (r : Restaurant F)
      (found : find_restaurant db p.1 ≡ some r) where
    -- What the evidence says of the pair.
    abbrev fresh : Option (DishScore F)
    fresh =
        some (new_score p r.city_id now (result_of cfg now db r.city_id p) (trend_of cfg now db p))

    step_self :
        (s : Progress × Board F) → entry p r.city_id (recompute_pair cfg now db p s).1 ≡ fresh
    step_self s = rw (scores_found cfg now db p s r found) (
        entry-upsert_self p r.city_id now (result_of cfg now db r.city_id p) (trend_of cfg now db p)
          s.1.scores)

    step_other :
        (q : Pair) (s : Progress × Board F)
        → same_pair p q ≡ false
        → entry p r.city_id (recompute_pair cfg now db q s).1 ≡ entry p r.city_id s.1
    step_other q s e = elim (Option-cases (find_restaurant db q.1)) [
      | inl missing ↦ rw (scores_missing cfg now db q s missing) refl
      | inr (x, known) ↦ rw (scores_found cfg now db q s x known) (
          entry-upsert_other p q r.city_id x.city_id now (result_of cfg now db x.city_id q)
            (trend_of cfg now db q) s.1.scores e)
    ]

    step :
        (q : Pair) (s : Progress × Board F)
        → entry p r.city_id (recompute_pair cfg now db q s).1
          ≡ (if same_pair p q then fresh else entry p r.city_id s.1)
    step q s = elim (Bool-cases (same_pair p q)) [
      | inl e ↦ rw (e, ← same_pair_refl p q e) (step_self s)
      | inr e ↦ rw e (step_other q s e)
    ]

    steps :
        (ps : List Pair) (s : Progress × Board F)
        → entry p r.city_id (recompute_all cfg now db ps s).1
          ≡ (if any (same_pair p) ps then fresh else entry p r.city_id s.1)
    unfolding recompute_all
    steps [] s = refl
    steps (q ∷ ps) s =
        rw (steps ps (recompute_pair cfg now db q s), step q s)
          (merge (same_pair p q) (any (same_pair p) ps))
      where
        merge :
            (a b : Bool)
            → (if b then fresh else (if a then fresh else entry p r.city_id s.1))
              ≡ (if a || b then fresh else entry p r.city_id s.1)
        merge true true = refl
        merge true false = refl
        merge false b = refl

  refresh_dishes-same :
      (cfg : Settings F) (ds : List ℕ) (s : Progress × Board F)
      → map without_badges (refresh_dishes cfg ds s).1.scores ≡ map without_badges s.1.scores
  unfolding refresh_dishes
  refresh_dishes-same cfg [] s = refl
  refresh_dishes-same cfg (d ∷ ds) (progress, board) =
      refresh_dishes-same cfg ds _ ∙ refresh_dish_aggregate-same cfg.text cfg.deltas d board

  recompute_restaurant_score-same :
      (limit now : ℕ) (db : Store F) (r : ℕ) (board : Board F)
      → (recompute_restaurant_score limit now db r board).scores ≡ board.scores
  unfolding recompute_restaurant_score
  recompute_restaurant_score-same limit now db r board =
      elim (Option-cases (find_restaurant db r)) [
        | inl missing ↦ rw (recompute_restaurant_score, missing) refl
        | inr (x, known) ↦ rw (recompute_restaurant_score, known) refl
      ]

  refresh_restaurants-same :
      (cfg : Settings F) (now : ℕ) (db : Store F) (rs : List ℕ) (s : Progress × Board F)
      → (refresh_restaurants cfg now db rs s).1.scores ≡ s.1.scores
  unfolding refresh_restaurants
  refresh_restaurants-same cfg now db [] s = refl
  refresh_restaurants-same cfg now db (r ∷ rs) (progress, board) =
      refresh_restaurants-same cfg now db rs _
      ∙ recompute_restaurant_score-same cfg.dna_limit now db r board

  -- For a pair whose restaurant exists: after `recompute_pairs`, the pair's score in the city of the
  -- restaurant, less the badges, is the one that the published evidence gives, if the pair was among
  -- those to recompute, and it is what it was before, otherwise.
  pub recompute_pairs_refines :
      (cfg : Settings F) (now : ℕ) (db : Store F) (pairs : List Pair) (board : Board F) (p : Pair)
      (r : Restaurant F)
      → find_restaurant db p.1 ≡ some r
      → entry p r.city_id (recompute_pairs cfg now db pairs board).1 ≡ (
          if any (same_pair p) pairs
          then some
              (new_score p r.city_id now (result_of cfg now db r.city_id p) (trend_of cfg now db p))
          else entry p r.city_id board)
  unfolding recompute_pairs
  recompute_pairs_refines cfg now db pairs board p r found =
      ap (λ rows. find (score_key p r.city_id) (map without_badges rows))
        (refresh_restaurants-same cfg now db _ _)
      ∙ ap (find (score_key p r.city_id)) (refresh_dishes-same cfg _ _)
      ∙ steps cfg now db p r found (set_of same_pair pairs) (start, board)
      ∙ ap (λ b. if b then fresh cfg now db p r found else entry p r.city_id board)
          (any-set_of p pairs)
