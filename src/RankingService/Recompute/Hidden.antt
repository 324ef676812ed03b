-- ===== src/RankingService/Recompute/Hidden.antt =====
-- A review that is not published counts for nothing.
use khaabo.Prelude.{
  ℕ, ◌≡◌, refl, ap, ◌&&◌, not, ◌==◌, Bool, true, false, Option, none, some, List, [], ◌∷◌, map,
  if◌then◌else◌, filter, find, find-map_if, find_found, map_option, arith,
}
use khaabo.Float.{Float}
use khaabo.Enums.{ReviewStatus, is_published}
use khaabo.Store.{Review, DishMention, Store, update_where}
use khaabo.RankingService.Evidence.{
  observation_of, Pair, Row, join_reviews, rows_of, of_pair, of_dish_city, is_counted, is_public,
  load_observations, city_dish_prior, city_median_price,
}
use khaabo.RankingService.Recompute.{Settings, result_of, trend_of}

through : (a b c : ℕ) {t : Bool} → (a == b) ≡ true → (b == c) ≡ t → (a == c) ≡ t
through a b c h k = ground arith

module _ {F : Type 0} where
  -- The reviews, with the status of one of them changed.
  abbrev with_status : ℕ → ReviewStatus → List (Review F) → List (Review F)
  with_status i status reviews =
      update_where (λ r. r.id == i) (λ r. record r { status = status }) reviews

  abbrev pub hide : ℕ → ReviewStatus → Store F → Store F
  hide i status db = record db { reviews = with_status i status db.reviews }

  abbrev not_of : ℕ → DishMention F → Bool
  not_of i m = not (m.review_id == i)

  abbrev pub without_mentions : ℕ → Store F → Store F
  without_mentions i db = record db { mentions = filter (not_of i) db.mentions }

  with_row : DishMention F → Option (Review F) → List (Row F) → List (Row F)
  with_row m none rest = rest
  with_row m (some r) rest = (m, r) ∷ rest

  join_row :
      (reviews : List (Review F)) (m : DishMention F) (ms : List (DishMention F))
      {o : Option (Review F)}
      → find (λ r. r.id == m.review_id) reviews ≡ o
      → join_reviews reviews (m ∷ ms) ≡ with_row m o (join_reviews reviews ms)
  unfolding join_reviews with_row
  join_row reviews m ms {o = none} h = rw (join_reviews, h) refl
  join_row reviews m ms {o = some r} h = rw (join_reviews, h) refl

  module _ (keep : Row F → Bool)
      (only_published : (row : Row F) → is_published row.1.status ≡ false → keep row ≡ false)
      (i : ℕ) (status : ReviewStatus) (hidden : is_published status ≡ false)
      (reviews : List (Review F)) where
    changed : Review F → Review F
    changed r = if r.id == i then record r { status = status } else r

    found_after :
        (m : DishMention F)
        → find (λ r. r.id == m.review_id) (with_status i status reviews)
          ≡ map_option changed (find (λ r. r.id == m.review_id) reviews)
    unfolding changed
    found_after m =
        find-map_if (λ r. r.id == m.review_id) (λ r. r.id == i) (λ r. record r { status = status })
          (λ r. refl) reviews

    -- The rows of the changed reviews that a query keeps, and those without the mentions of the one.
    Same : List (DishMention F) → Type 0
    Same ms =
        filter keep (join_reviews (with_status i status reviews) ms)
        ≡ filter keep (join_reviews reviews (filter (not_of i) ms))

    -- One mention, by whether its review is there and whether it is the changed one.
    hidden_row :
        (m : DishMention F) (ms : List (DishMention F)) (found : Option (Review F)) (same : Bool)
        → find (λ r. r.id == m.review_id) reviews ≡ found
        → (m.review_id == i) ≡ same
        → Same ms
        → Same (m ∷ ms)
    unfolding changed Same with_row
    hidden_row m ms none true h e ih =
        rw (join_row (with_status i status reviews) m ms (rw h at (found_after m)), e) ih
    hidden_row m ms none false h e ih =
        rw
          (
            join_row (with_status i status reviews) m ms (rw h at (found_after m)),
            e,
            join_row reviews m (filter (not_of i) ms) h,
          )
          ih
    hidden_row m ms (some r) true h e ih =
        let same : (r.id == i) ≡ true = through r.id m.review_id i (find_found _ reviews r h) e in
        let gone = only_published (m, record r { status = status }) hidden in
        rw (join_row (with_status i status reviews) m ms (rw (h, same) at (found_after m)), e, gone)
          ih
    hidden_row m ms (some r) false h e ih =
        let other : (r.id == i) ≡ false = through r.id m.review_id i (find_found _ reviews r h) e in
        rw
          (
            join_row (with_status i status reviews) m ms (rw (h, other) at (found_after m)),
            e,
            join_row reviews m (filter (not_of i) ms) h,
          )
          (ap (λ rest. if keep (m, r) then (m, r) ∷ rest else rest) ih)

    hidden_rows : (ms : List (DishMention F)) → Same ms
    unfolding join_reviews Same
    hidden_rows [] = refl
    hidden_rows (m ∷ ms) = hidden_row m ms _ _ refl refl (hidden_rows ms)

module _ {F : Type 0} ⦃f : Float F⦄ (db : Store F) (i : ℕ) (status : ReviewStatus)
    (hidden : is_published status ≡ false) where
  same_rows :
      (keep : Row F → Bool)
      → ((row : Row F) → is_published row.1.status ≡ false → keep row ≡ false)
      → filter keep (rows_of (hide i status db)) ≡ filter keep (rows_of (without_mentions i db))
  unfolding Same
  same_rows keep h = hidden_rows keep h i status hidden db.reviews db.mentions

  load_observations-hide :
      (p : Pair)
      → load_observations (hide i status db) p ≡ load_observations (without_mentions i db) p
  unfolding load_observations
  load_observations-hide p =
      ap (map observation_of)
        (same_rows (λ row. of_pair p row && is_counted row) (λ row h. ground arith))

  city_dish_prior-hide :
      (dish city : ℕ)
      → city_dish_prior (hide i status db) dish city
        ≡ city_dish_prior (without_mentions i db) dish city
  unfolding city_dish_prior
  city_dish_prior-hide dish city =
      rw
        (
          city_dish_prior,
          same_rows (λ row. of_dish_city dish city row && is_counted row) (λ row h. ground arith),
        )
        refl

  city_median_price-hide :
      (dish city : ℕ)
      → city_median_price (hide i status db) dish city
        ≡ city_median_price (without_mentions i db) dish city
  unfolding city_median_price
  city_median_price-hide dish city =
      rw
        (
          city_median_price,
          same_rows (λ row. of_dish_city dish city row && is_public row) (λ row h. ground arith),
        )
        refl

  -- A review that gets a status other than published counts for nothing: every pair then has the
  -- result, and the trend, that it has where the mentions of that review are not there.
  pub result_of-hide :
      (cfg : Settings F) (now city : ℕ) (p : Pair)
      → (result_of cfg now (hide i status db) city p
          ≡ result_of cfg now (without_mentions i db) city p)
        × (trend_of cfg now (hide i status db) p ≡ trend_of cfg now (without_mentions i db) p)
  result_of-hide cfg now city p = (
    rw (load_observations-hide p, city_dish_prior-hide p.0 city, city_median_price-hide p.0 city)
        refl,
    rw (load_observations-hide p) refl,
  )
