-- ===== src/Reviews/Submission/Tests.antt =====
-- A submission that is accepted.
use khaabo.Prelude.{◌≡◌, refl, true, false, not, ◌&&◌, any, ◌∷◌, ◌==◌}
use khaabo.Prelude.Int.{ℤ}
use khaabo.Float.Fixed.{fixed_float}
use khaabo.Enums.{is_published}
use khaabo.Store.{Restaurant, Session, ok}
use khaabo.Reviews.Submission.{
  ReviewCreatedOut, create_review, find_restaurant, accept, submit, is_known, is_flagged,
  is_trusted, new_review,
}
use khaabo.Reviews.Submission.Publication.{create_review_lem}
use khaabo.Tests.Fixtures.{restaurant, now, author, content, payload, session}

abbrev place : Restaurant ℤ
place = restaurant

abbrev answer : ReviewCreatedOut
answer = (submit content now author payload place session).0

abbrev after : Session ℤ
after = (submit content now author payload place session).1

create_review-run : create_review content now author payload session ≡ ok (answer, after)
unfolding create_review find_restaurant accept is_known
create_review-run = refl

create_review_lem_example :
    (restaurant : Restaurant ℤ) × (author.is_banned ≡ false)
    × (is_known content payload.body author.id session ≡ false)
    × (is_published answer.status
        ≡ (not (is_flagged content payload.body) && is_trusted author.id session.work))
    × (answer.queued ≡ not (is_published answer.status))
    × (is_published answer.status ≡ false
        → any (λ i. i.review_id == answer.id) after.work.items ≡ true)
    × (after.work.reviews
        ≡ new_review content session.work.next_id now author payload restaurant
            (is_trusted author.id session.work)
            answer.status
          ∷ session.work.reviews)
create_review_lem_example =
    create_review_lem content now author payload session answer after create_review-run
