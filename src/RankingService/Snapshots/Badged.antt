-- ===== src/RankingService/Snapshots/Badged.antt =====
-- A refresh of a dish writes the badges of its scores and nothing else of them.
use khaabo.Prelude.{
  ℕ, ◌≡◌, refl, ap, ◌∙◌, Bool, false, List, [], ◌∷◌, map, String, arith, length, length-map, filter,
  inl, inr, Bool-cases, zip_with,
}
use khaabo.Float.{Float}
use khaabo.Ranking.Model.{RankedEntry}
use khaabo.Ranking.Badges.Lengths.{length-assign_badges}
use khaabo.Board.{DishScore, Board}
use khaabo.RankingService.Snapshots.{
  SnapshotDeltas, copy_badges, badged_rows, put_back, is_of_dish, refresh_dish_aggregate,
}

-- A score row, less its badges.
abbrev pub without_badges : {F : Type 0} → DishScore F → DishScore F
without_badges s = record s {
  is_best_value = false;
  is_hidden_gem = false;
  is_most_consistent = false;
}

module _ {F : Type 0} ⦃f : Float F⦄ where
  put_back-none : (test : DishScore F → Bool) (xs : List (DishScore F)) → put_back test xs [] ≡ xs
  unfolding put_back
  put_back-none test [] = refl
  put_back-none test (x ∷ xs) = refl

  put_back-passed :
      (test : DishScore F → Bool) (x : DishScore F) (xs news : List (DishScore F))
      → test x ≡ false
      → put_back test (x ∷ xs) news ≡ x ∷ put_back test xs news
  unfolding put_back
  put_back-passed test x xs [] e = rw (put_back-none test xs) refl
  put_back-passed test x xs (n ∷ news) e = rw e refl

  zip_with-none : (xs : List (DishScore F)) → zip_with (copy_badges {F = F}) xs [] ≡ []
  zip_with-none [] = refl
  zip_with-none (x ∷ xs) = refl

  put_back-same :
      (test : DishScore F → Bool) (xs : List (DishScore F)) (es : List (RankedEntry F))
      → length es ≡ length (filter test xs)
      → map without_badges (put_back test xs (zip_with copy_badges (filter test xs) es))
        ≡ map without_badges xs
  unfolding put_back
  put_back-same test [] es h = refl
  put_back-same test (x ∷ xs) [] h = rw (zip_with-none (filter test (x ∷ xs))) refl
  put_back-same test (x ∷ xs) (n ∷ es) h = elim (Bool-cases (test x)) [
    | inl e ↦
        let same : length es ≡ length (filter test xs) = omega (arith, rw e at h) in
        rw (e, e) (ap (λ rows. without_badges x ∷ rows) (put_back-same test xs es same))
    | inr e ↦
        rw (e, put_back-passed test x xs (zip_with copy_badges (filter test xs) (n ∷ es)) e)
          (ap (λ rows. without_badges x ∷ rows) (put_back-same test xs (n ∷ es) (rw e at h)))
  ]

  pub refresh_dish_aggregate-same :
      (text : ℕ → String) (deltas : SnapshotDeltas F) (dish : ℕ) (board : Board F)
      → map without_badges (refresh_dish_aggregate text deltas dish board).scores
        ≡ map without_badges board.scores
  unfolding refresh_dish_aggregate badged_rows
  refresh_dish_aggregate-same text deltas dish board =
      put_back-same (is_of_dish dish) board.scores _
        (length-assign_badges _ ∙ length-map _ (filter (is_of_dish dish) board.scores))
