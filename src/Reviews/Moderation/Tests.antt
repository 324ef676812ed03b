-- ===== src/Reviews/Moderation/Tests.antt =====
-- A decision that publishes a review, and a deletion by the author.
use khaabo.Prelude.{◌+◌, ◌≡◌, refl, ◌==◌, true, ◌||◌, some, none, find, map, if◌then◌else◌}
use khaabo.Prelude.Int.{ℤ}
use khaabo.Enums.{ReviewStatus, ModerationStatus, is_moderator}
use khaabo.Store.{Review, ModerationItem, Profile, Session, ok, IdText, update_where, owned_by}
use khaabo.Gamification.{published_total}
use khaabo.Reviews.Rows.{has_id, set_reviews, get_review_or_404}
use khaabo.Reviews.Moderation.{
  decide_moderation, decide_item, decide, find_item, find_review, apply_action, record_decision,
  sync_author_counters, delete_review, reject, sync_if_owned,
}
use khaabo.Reviews.Moderation.Decision.{IsDecision}
use khaabo.Reviews.Moderation.Counters.{
  decide_moderation_lem, decide_moderation_stale, delete_review_lem,
}
use khaabo.Tests.Fixtures.{now, author, moderator, review, waiting, item, session}

abbrev decided_session : Session ℤ
decided_session =
    record_decision now moderator.id item waiting "publish" none
      (ReviewStatus.published, ModerationStatus.resolved) session

decide_moderation-run :
    decide_moderation now (IdText.uuid 12) moderator "publish" none session
    ≡ ok ((11, ReviewStatus.published), decided_session)
unfolding decide_moderation decide_item decide find_item find_review apply_action
decide_moderation-run = refl

decide_moderation_lem_example :
    (i : ModerationItem) × (r : Review ℤ) × (item_status : ModerationStatus) × (is_moderator
        moderator.role
      ≡ true)
    × (IdText.uuid 12 ≡ IdText.uuid i.id)
    × (find (λ x. x.id == i.id) session.rows.items ≡ some i)
    × (i.review_id ≡ 11)
    × (find (has_id 11) session.work.reviews ≡ some r)
    × IsDecision "publish" r.status ReviewStatus.published item_status
    × (map (λ (x : ModerationItem). x.status) decided_session.work.items
        ≡ map (λ x. if x.id == i.id then item_status else x.status) session.work.items)
    × (decided_session.work.reviews
        ≡ update_where
            (has_id 11)
            (λ r. record r { status = ReviewStatus.published })
            session.work.reviews)
decide_moderation_lem_example =
    decide_moderation_lem now (IdText.uuid 12) moderator "publish" none session 11
      ReviewStatus.published decided_session decide_moderation-run

abbrev counted_profile : Profile
counted_profile = record {
  user_id = 1;
  review_count = 2;
  published_review_count = 1;
  like_received_count = 1;
  contribution_score = 10;
}

profile-run : find (λ p. p.user_id == 1) decided_session.work.profiles ≡ some counted_profile
unfolding record_decision sync_author_counters published_total
profile-run = refl

decide_moderation_stale_example :
    counted_profile.published_review_count + 1 ≡ published_total 1 decided_session.work
decide_moderation_stale_example =
    decide_moderation_stale now (IdText.uuid 12) moderator "publish" none session 11
      ReviewStatus.published decided_session decide_moderation-run waiting 1 counted_profile refl
      refl refl refl refl refl profile-run

abbrev deleted_session : Session ℤ
deleted_session = sync_if_owned (review 10 ReviewStatus.published) (
    set_reviews (update_where (has_id 10) (λ r. record r { status = ReviewStatus.rejected }))
      session)

delete_review-run : delete_review (IdText.uuid 10) author session ≡ ok (10, deleted_session)
unfolding delete_review reject get_review_or_404
delete_review-run = refl

delete_review_lem_example :
    (r : Review ℤ) × (get_review_or_404 (IdText.uuid 10) session ≡ ok r)
    × ((owned_by author.id r || is_moderator author.role) ≡ true)
    × (deleted_session.work.reviews
        ≡ update_where
            (has_id r.id)
            (λ r. record r { status = ReviewStatus.rejected })
            session.work.reviews)
delete_review_lem_example =
    delete_review_lem (IdText.uuid 10) author session 10 deleted_session delete_review-run
