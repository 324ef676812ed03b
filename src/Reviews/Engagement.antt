-- ===== src/Reviews/Engagement.antt =====
-- backend/app/services/review_service.py: reports and likes.
pub mod Likes
pub mod Reports
mod Tests
use khaabo.Prelude.{
  ℕ, ◌+◌, ◌-◌, Bool, ◌&&◌, not, Option, none, some, List, ◌∷◌, String, filter, any, leb,
  if◌then◌else◌, ◌==◌,
}
use khaabo.Enums.{ReviewStatus, ModerationReason, is_published}
use khaabo.Store.{
  User, Review, Like, Session, forbidden, Result, ok, ◌>>=◌, ◌>>◌, guard, IdText, update_where,
}
use khaabo.Reviews.Rows.{is_profile_of, has_id, set_reviews, update_profiles, get_review_or_404}
use khaabo.Reviews.Queue.{queue_moderation}

abbrev pub is_like : ℕ → ℕ → Like → Bool
is_like user review l = l.user_id == user && l.review_id == review

-- A new like, or none of the user's for the review: the query finds a like among the database's rows.
abbrev pub toggled : ℕ → ℕ → List Like → List Like → List Like
toggled user review saved likes =
    if any (is_like user review) saved
    then filter (λ l. not (is_like user review l)) likes
    else record { user_id = user; review_id = review } ∷ likes

module _ {F : Type 0} where
  abbrev report_change : Review F → Review F
  report_change r = record r {
    report_count = r.report_count + 1;
    status =
        if leb 3 (r.report_count + 1) && is_published r.status
        then ReviewStatus.flagged
        else r.status;
  }

  pub report_review :
      ℕ → IdText → User → ModerationReason → Option String → Session F → Result (ℕ × Session F)
  report_review now text user reason note s = do
    review ← get_review_or_404 text s
    ok (
      review.id,
      queue_moderation now review.id reason 2 (some user.id) note
          (set_reviews (update_where (has_id review.id) report_change) s),
    )

  abbrev like_change : Bool → Review F → Review F
  like_change liked r = record r {
    like_count = if liked then r.like_count + 1 else r.like_count - 1;
  }

  -- `func.greatest(0, like_received_count ± 1)`, for another author's profile.
  credit_author : ℕ → Bool → Review F → Session F → Session F
  credit_author user liked review s = elim review.user_id [
    | none ↦ s
    | some author ↦
        if author == user
        then s
        else update_profiles
            (update_where (is_profile_of author) (λ p. record p {
              like_received_count =
                  if liked then p.like_received_count + 1 else p.like_received_count - 1;
            }))
            s
  ]

  toggle_row : ℕ → Review F → Session F → Session F
  toggle_row user review s =
      let liked = not (any (is_like user review.id) s.rows.likes) in
      credit_author user liked review (record s {
        work = record (s.work) {
          likes = toggled user review.id s.rows.likes s.work.likes;
          reviews = update_where (has_id review.id) (like_change liked) s.work.reviews;
        };
      })

  -- The rest of the call, once the review is there.
  toggle_review : User → Session F → Review F → Result (Bool × Session F)
  toggle_review user s review = do
    guard (is_published review.status) forbidden
    ok (not (any (is_like user.id review.id) s.rows.likes), toggle_row user.id review s)

  pub toggle_like : User → IdText → Session F → Result (Bool × Session F)
  toggle_like user text s = do review ← get_review_or_404 text s; toggle_review user s review
