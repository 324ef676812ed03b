-- ===== src/Reviews/Engagement/Reports.antt =====
-- `report_review`: what a report does to the queue, and what three of them do to a review.
use khaabo.Prelude.{
  ℕ, ◌≡◌, refl, sym, ap, ◌∙◌, inl, inr, false, ◌&&◌, Option, some, List, [], ◌∷◌, String, find, any,
  arith, Bool-cases,
}
use mathlib.Core.Option.{some-injective}
use khaabo.Enums.{ModerationReason, is_published}
use khaabo.Store.{
  User, Review, Session, ok, IdText, update_where, >>=-eq-ok, or_raise-eq-ok, ok-injective,
  not_found,
}
use khaabo.Reviews.Rows.{has_id, set_reviews, get_review_or_404}
use khaabo.Reviews.Queue.{queue_moderation}
use khaabo.Reviews.Queue.Single.{IsTidy, queue_moderation-IsTidy, reviews-queue_moderation}
use khaabo.Reviews.Engagement.{report_change, report_review}

find_id :
    {F : Type 0} (i : ℕ) (rows : List (Review F)) (r : Review F)
    → find (has_id i) rows ≡ some r
    → r.id ≡ i
find_id i [] r h = cc
find_id i (x ∷ xs) r h = elim (Bool-cases (has_id i x)) [
  | inl e ↦ let same : x ≡ r = some-injective x r (rw (e, find) at h) in rw (← same) (ground arith)
  | inr e ↦ find_id i xs r (rw (e, find) at h)
]

module _ {F : Type 0} (now : ℕ) (i : ℕ) (user : User) (reason : ModerationReason)
    (note : Option String) (s : Session F) (id : ℕ) (t : Session F)
    (accepted : report_review now (IdText.uuid i) user reason note s ≡ ok (id, t)) where
  report_review_cases :
      (review : Review F) × (get_review_or_404 (IdText.uuid i) s ≡ ok review)
      × ◌≡◌ {A = ℕ × Session F}
          (
            review.id,
            queue_moderation now review.id reason 2
                (some user.id)
                note
                (set_reviews (update_where (has_id review.id) report_change) s),
          )
          (id, t)
  unfolding report_review
  report_review_cases =
      let (review, found, same) = >>=-eq-ok (get_review_or_404 (IdText.uuid i) s) _ accepted in
      (review, found, ok-injective same)

  -- In a session with no pending change of the queue, a report keeps one item at most for each
  -- review and reason, and every severity at five or less.
  pub report_review-IsTidy : s.rows.items ≡ s.work.items → IsTidy s.work → IsTidy t.work
  report_review-IsTidy clean tidy =
      let (review, found, same) = report_review_cases in
      rw (← ap (λ (x : ℕ × Session F). x.1) same) (
        queue_moderation-IsTidy now review.id reason 2 (some user.id) note
          (set_reviews (update_where (has_id review.id) report_change) s) clean (omega arith)
          (record { single = tidy.single; mild = tidy.mild }))

  report_review_rows : t.work.reviews ≡ update_where (has_id i) report_change s.work.reviews
  unfolding get_review_or_404
  report_review_rows =
      let (review, found, same) = report_review_cases in
      let at_i : review.id ≡ i =
        find_id i s.work.reviews review
          (or_raise-eq-ok (find (has_id i) s.work.reviews) not_found found) in
      sym (ap (λ (x : ℕ × Session F). x.1.work.reviews) same)
      ∙ reviews-queue_moderation now review.id reason 2 (some user.id) note
          (set_reviews (update_where (has_id review.id) report_change) s)
      ∙ ap (λ k. update_where (has_id k) report_change s.work.reviews) at_i

thrice_hidden :
    {F : Type 0} (i : ℕ) (rows : List (Review F))
    → any
        (λ r. has_id i r && is_published r.status)
        (update_where
          (has_id i)
          report_change
          (update_where (has_id i) report_change (update_where (has_id i) report_change rows)))
      ≡ false
thrice_hidden i [] = refl
thrice_hidden i (r ∷ rs) = ground (arith, thrice_hidden i rs)

module _ {F : Type 0} (now : ℕ) (i : ℕ) (user : User) (reason : ModerationReason)
    (note : Option String) (s : Session F) (a b c : ℕ) (t u v : Session F) where
  -- Three reports that are accepted hide a review, and one user may make all of them.
  report_review_thrice :
      report_review now (IdText.uuid i) user reason note s ≡ ok (a, t)
      → report_review now (IdText.uuid i) user reason note t ≡ ok (b, u)
      → report_review now (IdText.uuid i) user reason note u ≡ ok (c, v)
      → any (λ r. has_id i r && is_published r.status) v.work.reviews ≡ false
  report_review_thrice first second third =
      let h1 = report_review_rows now i user reason note s a t first in
      let h2 = report_review_rows now i user reason note t b u second in
      let h3 = report_review_rows now i user reason note u c v third in
      rw (h3, h2, h1) (thrice_hidden i s.work.reviews)
