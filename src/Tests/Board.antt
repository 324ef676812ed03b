-- ===== src/Tests/Board.antt =====
-- The theorems on the ranking service, at a store with a restaurant, two reviews and three mentions.
use khaabo.Prelude.{ℕ, ◌≡◌, refl, arith, true, none, some, [], ◌∷◌}
use khaabo.Prelude.Int.{ℤ, pos}
use khaabo.Float.Fixed.{fixed_float, Fixed-IsFloat}
use khaabo.Enums.{ReviewStatus, ExtractionMethod, ScoreStatus}
use khaabo.Store.{DishMention, Store}
use khaabo.Board.{DishScore, Dish, Board}
use khaabo.RankingService.Snapshots.{SnapshotDeltas, persist_ranking_snapshots}
use khaabo.RankingService.Snapshots.History.{persist_ranking_snapshots_idem}
use khaabo.RankingService.Upsert.{new_score}
use khaabo.RankingService.Recompute.{
  Settings, recompute_pairs, recompute_trends, result_of, trend_of,
}
use khaabo.RankingService.Recompute.Entry.{entry}
use khaabo.RankingService.Recompute.Fresh.{recompute_pairs_refines}
use khaabo.RankingService.Recompute.Reach.{empty_board, Step, Reach, UniqueKeys, Reach-UniqueKeys}
use khaabo.RankingService.Recompute.RestaurantTrend.{NoRestaurantTrend, Reach-NoRestaurantTrend}
use khaabo.RankingService.Recompute.Hidden.{hide, without_mentions, result_of-hide}
use khaabo.Tests.Fixtures.{weights, now, trend_config, store}

abbrev deltas : SnapshotDeltas ℤ
deltas = record { score = pos 5000; mentions = 2 }

abbrev settings : Settings ℤ
settings = record {
  weights = weights;
  trends = trend_config;
  deltas = deltas;
  dna_limit = 6;
  text = λ id. "id";
}

abbrev spoken : ℕ → ℤ → DishMention ℤ
spoken review sentiment = record {
  review_id = review;
  dish_id = 1;
  dish_slug = "momo";
  restaurant_id = 7;
  snippet = none;
  sentiment = sentiment;
  confidence = pos 9000;
  attributes = "juicy" ∷ [];
  price_mentioned = some (pos 1_200_000);
  is_recommended = none;
  extraction_method = ExtractionMethod.ai;
}

abbrev spoken_store : Store ℤ
spoken_store = record store {
  mentions = spoken 10 (pos 8000) ∷ spoken 10 (pos 6000) ∷ spoken 11 (pos 9000) ∷ [];
}

abbrev dish : Dish
dish = record {
  id = 1;
  name = "momo";
  slug = "momo";
  normalized_name = "momo";
  is_active = true;
  mention_count = 0;
  restaurant_count = 0;
}

abbrev board : Board ℤ
board = empty_board (dish ∷ [])

abbrev scored : Board ℤ
scored = (recompute_pairs settings now spoken_store ((1, 7) ∷ []) board).1

recompute_pairs_refines_example :
    entry (1, 7) 3 scored
    ≡ some (
        new_score
          (1, 7)
          3
          now
          (result_of settings now spoken_store 3 (1, 7))
          (trend_of settings now spoken_store (1, 7)))
recompute_pairs_refines_example =
    recompute_pairs_refines settings now spoken_store ((1, 7) ∷ []) board (1, 7) _ refl

Reach-UniqueKeys_example : UniqueKeys scored
Reach-UniqueKeys_example =
    Reach-UniqueKeys scored
      (Reach.next Reach.start (Step.pairs settings now spoken_store ((1, 7) ∷ [])))

Reach-NoRestaurantTrend_example :
    NoRestaurantTrend (recompute_trends settings now none spoken_store scored).1
Reach-NoRestaurantTrend_example =
    Reach-NoRestaurantTrend (recompute_trends settings now none spoken_store scored).1 (
      Reach.next (Reach.next Reach.start (Step.pairs settings now spoken_store ((1, 7) ∷ [])))
        (Step.trends settings now none spoken_store))

result_of-hide_example :
    (result_of settings now (hide 10 ReviewStatus.rejected spoken_store) 3 (1, 7)
      ≡ result_of settings now (without_mentions 10 spoken_store) 3 (1, 7))
    × (trend_of settings now (hide 10 ReviewStatus.rejected spoken_store) (1, 7)
        ≡ trend_of settings now (without_mentions 10 spoken_store) (1, 7))
result_of-hide_example =
    result_of-hide spoken_store 10 ReviewStatus.rejected refl settings now 3 (1, 7)

less_itself : (a : ℤ) → fixed_float.sub a a ≡ pos 0
less_itself a = ground arith

-- A score that is ranked.
abbrev row : ℕ → DishScore ℤ
row restaurant =
    record (new_score (1, restaurant) 3 now (result_of settings now spoken_store 3 (1, 7))
      (trend_of settings now spoken_store (1, 7))) {
        status = ScoreStatus.ranked;
        score = some (pos 700_000);
      }

persist_ranking_snapshots_idem_example :
    persist_ranking_snapshots deltas
      (row 7 ∷ row 8 ∷ [])
      (persist_ranking_snapshots deltas (row 7 ∷ row 8 ∷ []) [])
    ≡ persist_ranking_snapshots deltas (row 7 ∷ row 8 ∷ []) []
persist_ranking_snapshots_idem_example =
    persist_ranking_snapshots_idem Fixed-IsFloat deltas refl (omega arith) less_itself
      (row 7 ∷ row 8 ∷ []) [] ((refl, tt), (tt, tt))
