-- ===== src/Reviews/Submission.antt =====
-- backend/app/services/review_service.py, `create_review`: validate, refuse duplicates, store, and
-- queue for moderation. The analysis of a text is an interface: `Dedup` has the signature and the
-- spam score.
pub mod Publication
mod Tests
use khaabo.Prelude.{
  ℕ, ◌+◌, Bool, true, false, not, Option, none, some, ◌∷◌, String, str_eq, find, any, leb,
  if◌then◌else◌, ◌==◌,
}
use khaabo.Prelude.Int.{ℤ, pos}
use khaabo.Float.{Float}
use khaabo.Enums.{SourceType, ReviewStatus, AiState, ModerationReason, is_published}
use khaabo.Store.{
  User, Restaurant, Review, Store, Session, forbidden, not_found, duplicate_review,
  validation_error, Result, ok, ◌>>=◌, ◌>>◌, guard, or_raise, flush, IdText, parse_uuid,
  update_where,
}
use khaabo.Gamification.{award_for_review}
use khaabo.Ranking.Evidence.{source_quality_for}
use khaabo.Reviews.Rows.{is_profile_of, set_profiles}
use khaabo.Reviews.Queue.{queue_moderation}

-- `review_fingerprint`, `spam_score` and the signed `simhash` of a body.
pub record Content (F : Type 0) : Type 0 where
  pub fingerprint : String → ℕ → String
  pub spam_score : String → F
  pub simhash : String → ℤ

-- `ReviewCreate`, without the dish hints, which are not used.
pub record ReviewCreate (F : Type 0) : Type 0 where
  pub restaurant_id : IdText
  pub title : Option String
  pub body : String
  pub rating : Option F

pub record ReviewCreatedOut : Type 0 where
  pub id : ℕ
  pub status : ReviewStatus
  pub ai_state : AiState
  pub queued : Bool
  pub eta_seconds : Option ℕ

abbrev pub auto_publish_min_published : ℕ
auto_publish_min_published = 3

abbrev pub status_for : Bool → Bool → ReviewStatus
status_for flagged trusted =
    if flagged
    then ReviewStatus.flagged
    else if trusted
    then ReviewStatus.published
    else ReviewStatus.pending

abbrev is_pending : ReviewStatus → Bool
is_pending ReviewStatus.pending = true
is_pending _ = false

module _ {F : Type 0} where
  -- `bool(profile and profile.published_review_count >= AUTO_PUBLISH_MIN_PUBLISHED)`
  pub is_trusted : ℕ → Store F → Bool
  is_trusted user db = elim (find (is_profile_of user) db.profiles) [
    | none ↦ false
    | some p ↦ leb auto_publish_min_published p.published_review_count
  ]

module _ {F : Type 0} ⦃f : Float F⦄ (content : Content F) where
  open f use {lit, le}

  -- `spam >= AUTO_FLAG_SPAM_THRESHOLD`
  pub is_flagged : String → Bool
  is_flagged body = le (lit 6 10) (content.spam_score body)

  pub new_review : ℕ → ℕ → User → ReviewCreate F → Restaurant F → Bool → ReviewStatus → Review F
  new_review id now user payload restaurant trusted status = record {
    id = id;
    restaurant_id = restaurant.id;
    city_id = restaurant.city_id;
    user_id = some user.id;
    source = SourceType.user;
    title = payload.title;
    body = payload.body;
    rating = payload.rating;
    rating_scale = elim payload.rating [ none ↦ none | some r ↦ some 5 ];
    source_quality = source_quality_for SourceType.user trusted;
    published_at = now;
    ingested_at = some now;
    content_hash = content.fingerprint payload.body user.id;
    simhash = some (content.simhash payload.body);
    status = status;
    ai_state = AiState.pending;
    ai_attempts = 0;
    is_duplicate = false;
    engagement_score = pos 0;
    spam_score = content.spam_score payload.body;
    like_count = 0;
    report_count = 0;
  }

  -- `session.add(review)` and `session.flush()`. A table has no order: a new row comes first.
  add_review : Review F → Session F → Session F
  add_review review s = flush (record s {
    work = record (s.work) { next_id = s.work.next_id + 1; reviews = review ∷ s.work.reviews };
  })

  count_submission : ℕ → ReviewStatus → Session F → Session F
  count_submission user status = set_profiles (
      update_where (is_profile_of user) (λ p. record p {
        review_count = p.review_count + 1;
        published_review_count = p.published_review_count + (if is_published status then 1 else 0);
      }))

  count_publication : User → Review F → Session F → Session F
  count_publication user review s =
      if is_published review.status
      then award_for_review user.id review (record s {
        work = record (s.work) {
          restaurants =
              update_where (λ r. r.id == review.restaurant_id)
                (λ r. record r { review_count = r.review_count + 1 }) s.work.restaurants;
        };
      })
      else s

  queue_submission : ℕ → Review F → Session F → Session F
  queue_submission now review s =
      if is_flagged review.body
      then queue_moderation now review.id ModerationReason.spam 2 none none s
      else if is_pending review.status
      then queue_moderation now review.id ModerationReason.manual 1 none none s
      else s

  submit : ℕ → User → ReviewCreate F → Restaurant F → Session F → ReviewCreatedOut × Session F
  submit now user payload restaurant s =
      let trusted = is_trusted user.id s.work in
      let status = status_for (is_flagged payload.body) trusted in
      let review : Review F =
        new_review s.work.next_id now user payload restaurant trusted status in
      (
        record {
          id = review.id;
          status = status;
          ai_state = review.ai_state;
          queued = not (is_published status);
          eta_seconds = if is_published status then some 120 else none;
        },
        count_publication user review
            (count_submission user.id status (queue_submission now review (add_review review s))),
      )

  -- The row that the request names.
  find_restaurant : ReviewCreate F → Session F → Result (Restaurant F)
  find_restaurant payload s = do
    restaurant_id ← parse_uuid payload.restaurant_id validation_error
    or_raise (find (λ r. r.id == restaurant_id) s.rows.restaurants) not_found

  -- `existing`: a review with the same content hash.
  pub is_known : String → ℕ → Session F → Bool
  is_known body user s =
      any (λ r. str_eq r.content_hash (content.fingerprint body user)) s.rows.reviews

  -- The rest of the call, once the restaurant is there.
  accept :
      ℕ → User → ReviewCreate F → Session F → Restaurant F → Result (ReviewCreatedOut × Session F)
  accept now user payload s restaurant = do
    guard (not (is_known payload.body user.id s)) duplicate_review
    ok (submit now user payload restaurant s)

  pub create_review : ℕ → User → ReviewCreate F → Session F → Result (ReviewCreatedOut × Session F)
  create_review now user payload s = do
    guard (not user.is_banned) forbidden
    restaurant ← find_restaurant payload s
    accept now user payload s restaurant
