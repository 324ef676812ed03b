-- ===== src/Reviews/Moderation.antt =====
-- backend/app/services/review_service.py: decisions, deletion and the author's counters.
pub mod Decision
pub mod Counters
mod Tests
use khaabo.Prelude.{
  ℕ, ◌||◌, Option, none, some, [], ◌∷◌, ◌++◌, String, str_eq, find, count, if◌then◌else◌, ◌==◌,
}
use khaabo.Enums.{ReviewStatus, ModerationStatus, is_moderator}
use khaabo.Store.{
  User, Review, ModerationItem, decided, Session, forbidden, not_found, validation_error,
  value_error, Result, ok, err, ◌>>=◌, ◌>>◌, guard, or_raise, IdText, parse_uuid, update_where,
  owned_by,
}
use khaabo.Gamification.{published_total}
use khaabo.Reviews.Rows.{is_profile_of, has_id, set_reviews, update_profiles, get_review_or_404}

-- The status of the review and of the item after an action.
pub apply_action : String → ReviewStatus → Result (ReviewStatus × ModerationStatus)
apply_action action status =
    if str_eq action "publish"
    then ok (ReviewStatus.published, ModerationStatus.resolved)
    else if str_eq action "reject"
    then ok (ReviewStatus.rejected, ModerationStatus.resolved)
    else if str_eq action "flag"
    then ok (ReviewStatus.flagged, ModerationStatus.opened)
    else if str_eq action "dismiss"
    then ok (status, ModerationStatus.dismissed)
    else err validation_error

abbrev note_or : Option String → Option String → Option String
note_or none notes = notes
note_or (some note) notes = if str_eq note "" then notes else some note

abbrev pub decide_change :
    ℕ
    → ℕ
    → ReviewStatus
    → ReviewStatus
    → ModerationStatus
    → String
    → Option String
    → ModerationItem
    → ModerationItem
decide_change now moderator previous next item_status action note i = record i {
  status = item_status;
  decided_by = some moderator;
  decided_at = some now;
  notes = note_or note i.notes;
  history = i.history ++ (decided now moderator previous next action note ∷ []);
}

module _ {F : Type 0} where
  -- `_sync_author_counters`: the counts are those of the database.
  pub sync_author_counters : ℕ → Session F → Session F
  sync_author_counters user s =
      let published = published_total user s.rows in
      let total = count (owned_by user) s.rows.reviews in
      update_profiles
        (update_where (is_profile_of user)
          (λ p. record p { published_review_count = published; review_count = total }))
        s

  abbrev sync_if_owned : Review F → Session F → Session F
  sync_if_owned review s = elim review.user_id [
    | none ↦ s
    | some author ↦ sync_author_counters author s
  ]

  record_decision :
      ℕ
      → ℕ
      → ModerationItem
      → Review F
      → String
      → Option String
      → ReviewStatus × ModerationStatus
      → Session F
      → Session F
  record_decision now moderator item review action note (next, item_status) s =
      sync_if_owned review (record s {
        work = record (s.work) {
          reviews =
              update_where (has_id review.id) (λ r. record r { status = next }) s.work.reviews;
          items =
              update_where (λ i. i.id == item.id)
                (decide_change now moderator review.status next item_status action note)
                s.work.items;
        };
      })

  find_item : IdText → Session F → Result ModerationItem
  find_item text s = do
    item_id ← parse_uuid text value_error
    or_raise (find (λ i. i.id == item_id) s.rows.items) not_found

  -- `session.get(Review, item.review_id)`
  find_review : ModerationItem → Session F → Result (Review F)
  find_review item s = or_raise (find (has_id item.review_id) s.work.reviews) not_found

  -- The rest of the call, once the item and its review are there.
  decide :
      ℕ
      → ℕ
      → String
      → Option String
      → Session F
      → ModerationItem
      → Review F
      → Result ((ℕ × ReviewStatus) × Session F)
  decide now moderator action note s item review = do
    statuses ← apply_action action review.status
    ok ((review.id, statuses.0), record_decision now moderator item review action note statuses s)

  decide_item :
      ℕ
      → ℕ
      → String
      → Option String
      → Session F
      → ModerationItem
      → Result ((ℕ × ReviewStatus) × Session F)
  decide_item now moderator action note s item = do
    review ← find_review item s
    decide now moderator action note s item review

  pub decide_moderation :
      ℕ
      → IdText
      → User
      → String
      → Option String
      → Session F
      → Result ((ℕ × ReviewStatus) × Session F)
  decide_moderation now text moderator action note s = do
    guard (is_moderator moderator.role) forbidden
    item ← find_item text s
    decide_item now moderator.id action note s item

  reject : User → Session F → Review F → Result (ℕ × Session F)
  reject user s review = do
    guard (owned_by user.id review || is_moderator user.role) forbidden
    ok (
      review.id,
      sync_if_owned review (
          set_reviews
            (update_where (has_id review.id) (λ r. record r { status = ReviewStatus.rejected })) s),
    )

  pub delete_review : IdText → User → Session F → Result (ℕ × Session F)
  delete_review text user s = do review ← get_review_or_404 text s; reject user s review
