-- ===== src/Gamification/Points.antt =====
-- The contribution score that `award_for_review` writes (backend/app/services/gamification.py).
use khaabo.Prelude.{
  ℕ, ◌+◌, ◌≡◌, refl, true, inl, inr, Bool-cases, filter, List, [], ◌∷◌, ◌++◌, arith, ◌==◌, All,
}
use khaabo.Enums.{is_published}
use khaabo.Store.{Profile, GamificationEvent, Session, Review, update_where}
use khaabo.Gamification.{
  award_for_review, refresh_badges, recompute_contribution_score, points_of, sum_points,
}

sum_points-++ :
    (user : ℕ) (xs ys : List GamificationEvent)
    → sum_points user (xs ++ ys) ≡ sum_points user xs + sum_points user ys
sum_points-++ user [] ys = omega arith
sum_points-++ user (x ∷ xs) ys = ground (arith, sum_points-++ user xs ys)

abbrev pub profiles_of : ℕ → List Profile → List Profile
profiles_of user rows = filter (λ p. p.user_id == user) rows

All-written :
    (user total last : ℕ)
    → total + 10 ≡ last
    → (rows : List Profile)
    → All
        (λ p. p.contribution_score + 10 ≡ last)
        (profiles_of user (
          update_where
            (λ p. p.user_id == user)
            (λ p. record p { contribution_score = total })
            rows))
All-written user total last h [] = tt
All-written user total last h (p ∷ ps) = elim (Bool-cases (p.user_id == user)) [
  | inl e ↦ rw (e, e) (h, All-written user total last h ps)
  | inr e ↦ rw (e, e) (All-written user total last h ps)
]

module _ {F : Type 0} (user : ℕ) (review : Review F) (s : Session F)
    (published : is_published review.status ≡ true) where
  -- Afterwards the points of the user's events are ten more, and the score that each of the
  -- user's profiles holds is the points from before the award.
  award_for_review_lags :
      s.rows.events ≡ s.work.events
      → let t = award_for_review user review s in
        (points_of user t.work ≡ points_of user s.work + 10)
        × All
            (λ p. p.contribution_score + 10 ≡ points_of user t.work)
            (profiles_of user t.work.profiles)
  unfolding award_for_review refresh_badges recompute_contribution_score
  award_for_review_lags clean =
      let more = sum_points-++ user s.work.events in
      rw published (
        grind (arith, more),
        All-written user (points_of user s.rows) _ (grind (arith, clean, more)) s.work.profiles,
      )

module _ {F : Type 0} (user : ℕ) (review : Review F) (s : Session F) where
  -- The rows of reviews, items and likes stay as they are.
  pub award_for_review_rows :
      let t = award_for_review user review s in
      (t.work.reviews ≡ s.work.reviews)
      × (t.work.items ≡ s.work.items)
      × (t.work.likes ≡ s.work.likes)
      × (t.work.next_id ≡ s.work.next_id)
  unfolding award_for_review refresh_badges recompute_contribution_score
  award_for_review_rows = elim (Bool-cases (is_published review.status)) [
    | inl e ↦ rw e (refl, refl, refl, refl)
    | inr e ↦ rw e (refl, refl, refl, refl)
  ]
