-- ===== src/Reviews/Engagement/Tests.antt =====
-- A like that is taken back, and three reports of one review.
use khaabo.Prelude.{none, some, ◌≡◌, refl, ℕ, ◌≤◌, arith, count, false}
use khaabo.Prelude.Int.{ℤ}
use khaabo.Enums.{ModerationReason, ReviewStatus, UserRole}
use khaabo.Store.{update_where, User, Session, ok, IdText}
use khaabo.Reviews.Rows.{get_review_or_404, set_reviews, has_id}
use khaabo.Reviews.Engagement.{
  report_change, report_review, is_like, toggle_like, toggle_review, toggle_row,
}
use khaabo.Reviews.Engagement.Likes.{IsCounted, toggle_like-IsCounted}
use khaabo.Reviews.Queue.{queue_moderation, queue_found}
use khaabo.Reviews.Queue.Single.{IsTidy}
use khaabo.Reviews.Engagement.Reports.{report_review-IsTidy}
use khaabo.Tests.Fixtures.{review, store, session}

abbrev reader : User
reader = record { id = 5; role = UserRole.user; is_banned = false }

abbrev unliked : Session ℤ
unliked = toggle_row 5 (review 10 ReviewStatus.published) session

toggle_like-run : toggle_like reader (IdText.uuid 10) session ≡ ok (false, unliked)
unfolding toggle_like toggle_review get_review_or_404
toggle_like-run = refl

once_one : (u r : ℕ) → count (is_like u r) store.likes ≤ 1
once_one u r = ground arith

store-IsCounted : IsCounted store
store-IsCounted = record { counted = (refl, (refl, tt)); once = λ u r. once_one u r }

toggle_like-IsCounted_example : IsCounted unliked.work
toggle_like-IsCounted_example =
    toggle_like-IsCounted reader (IdText.uuid 10) session false unliked toggle_like-run refl
      store-IsCounted

abbrev reported : Session ℤ → Session ℤ
reported s =
    queue_moderation 0 10 ModerationReason.abuse 2 (some 5) none
      (set_reviews (update_where (has_id 10) report_change) s)

report_review-first :
    report_review 0 (IdText.uuid 10) reader ModerationReason.abuse none session
    ≡ ok (10, reported session)
unfolding report_review get_review_or_404
report_review-first = refl

report_review-second :
    report_review 0 (IdText.uuid 10) reader ModerationReason.abuse none (reported session)
    ≡ ok (10, reported (reported session))
unfolding report_review get_review_or_404 queue_moderation queue_found
report_review-second = refl

report_review-third :
    report_review 0
      (IdText.uuid 10)
      reader
      ModerationReason.abuse
      none
      (reported (reported session))
    ≡ ok (10, reported (reported (reported session)))
unfolding report_review get_review_or_404 queue_moderation queue_found
report_review-third = refl

store-IsTidy : IsTidy store
store-IsTidy = record { single = λ r q. ground arith; mild = (ground arith, tt) }

report_review-IsTidy_example : IsTidy (reported session).work
report_review-IsTidy_example =
    report_review-IsTidy 0 10 reader ModerationReason.abuse none session 10 (reported session)
      report_review-first refl store-IsTidy
