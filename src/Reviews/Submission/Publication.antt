-- ===== src/Reviews/Submission/Publication.antt =====
-- What `create_review` publishes, stores and queues.
use khaabo.Prelude.{
  ℕ, ◌≡◌, refl, ap, ◌∙◌, ◌⊎◌, Bool, true, false, ◌&&◌, not, Option, none, ◌∷◌, String, arith, any,
  find, any-of_find, any-map, any_mono, ◌==◌, Option-cases, Bool-cases, inl, inr,
}
use khaabo.Float.{Float}
use khaabo.Enums.{ReviewStatus, ModerationReason, is_published, same_reason_refl}
use khaabo.Store.{
  User, Restaurant, Review, Session, ok, >>=-eq-ok, guard-eq-ok, ok-injective, duplicate_review,
  forbidden, ◌>>=◌,
}
use khaabo.Gamification.Points.{award_for_review_rows}
use khaabo.Reviews.Queue.{queue_moderation, is_item_of}
use khaabo.Reviews.Submission.{
  Content, ReviewCreate, ReviewCreatedOut, is_trusted, is_flagged, status_for, new_review,
  add_review, count_submission, count_publication, queue_submission, submit, create_review,
  find_restaurant, is_known, accept,
}

module _ {F : Type 0} (now review : ℕ) (reason : ModerationReason) (severity : ℕ)
    (reporter : Option ℕ) (note : Option String) where
  -- Once queued, an item for the review and the reason is there.
  queue_moderation_item :
      (s : Session F)
      → s.rows.items ≡ s.work.items
      → any
          (is_item_of review reason)
          (queue_moderation now review reason severity reporter note s).work.items
        ≡ true
  unfolding queue_moderation
  queue_moderation_item s h = elim (Option-cases (find (is_item_of review reason) s.rows.items)) [
    | inl e ↦ rw e (ground (arith, same_reason_refl reason))
    | inr (item, e) ↦ rw e (
        any-map (is_item_of review reason) _ (λ i. ground arith) s.work.items
        ∙ any-of_find (is_item_of review reason) s.work.items item (rw h at e))
  ]

module _ {F : Type 0} ⦃f : Float F⦄ (content : Content F) where
  rows-count_publication :
      (user : User) (review : Review F) (s : Session F)
      → ((count_publication content user review s).work.reviews ≡ s.work.reviews)
        × ((count_publication content user review s).work.items ≡ s.work.items)
  unfolding count_publication
  rows-count_publication user review s = elim (Bool-cases (is_published review.status)) [
    | inl e ↦
        rw e
          ((award_for_review_rows user.id review _).0, (award_for_review_rows user.id review _).1)
    | inr e ↦ rw e (refl, refl)
  ]

  reviews-queue_moderation :
      (now review : ℕ) (reason : ModerationReason) (severity : ℕ) (s : Session F)
      → (queue_moderation now review reason severity none none s).work.reviews ≡ s.work.reviews
  unfolding queue_moderation
  reviews-queue_moderation now review reason severity s =
      elim (Option-cases (find (is_item_of review reason) s.rows.items)) [
        | inl e ↦ rw e refl
        | inr (item, e) ↦ rw e refl
      ]

  reviews-queue_submission :
      (now : ℕ) (review : Review F) (s : Session F)
      → (queue_submission content now review s).work.reviews ≡ s.work.reviews
  unfolding queue_submission
  reviews-queue_submission now review s = ground (
    arith,
    reviews-queue_moderation now review.id ModerationReason.spam 2 s,
    reviews-queue_moderation now review.id ModerationReason.manual 1 s,
  )

  abbrev has_item : ℕ → Session F → Bool
  has_item review s = any (λ i. i.review_id == review) s.work.items

  has_item_of :
      (now review : ℕ) (reason : ModerationReason) (severity : ℕ) (s : Session F)
      → s.rows.items ≡ s.work.items
      → has_item review (queue_moderation now review reason severity none none s) ≡ true
  has_item_of now review reason severity s h =
      any_mono (is_item_of review reason) (λ i. i.review_id == review) (λ i k. ground arith) _
        (queue_moderation_item now review reason severity none none s h)

  has_item-queue_submission :
      (now : ℕ) (review : Review F) (s : Session F)
      → s.rows.items ≡ s.work.items
      → (is_flagged content review.body ≡ true) ⊎ (review.status ≡ ReviewStatus.pending)
      → has_item review.id (queue_submission content now review s) ≡ true
  unfolding queue_submission
  has_item-queue_submission now review s h k = ground (
    arith,
    k,
    has_item_of now review.id ModerationReason.spam 2 s h,
    has_item_of now review.id ModerationReason.manual 1 s h,
  )

  module _ (now : ℕ) (user : User) (payload : ReviewCreate F) (s : Session F) where
    status_for_cases :
        (flagged trusted : Bool)
        → is_published (status_for flagged trusted) ≡ false
        → (flagged ≡ true) ⊎ (status_for flagged trusted ≡ ReviewStatus.pending)
    status_for_cases flagged trusted h = ground arith

    create_review_submits :
        (x : ReviewCreatedOut × Session F)
        → create_review content now user payload s ≡ ok x
        → (restaurant : Restaurant F) × (user.is_banned ≡ false)
          × (is_known content payload.body user.id s ≡ false)
          × (submit content now user payload restaurant s ≡ x)
    unfolding create_review accept
    create_review_submits x h =
        let (allowed, h1) =
          guard-eq-ok (not user.is_banned) forbidden
            (find_restaurant content payload s >>= accept content now user payload s) h in
        let (restaurant, _, h2) =
          >>=-eq-ok (find_restaurant content payload s) (accept content now user payload s) h1 in
        let (fresh, h3) =
          guard-eq-ok (not (is_known content payload.body user.id s)) duplicate_review
            (ok (submit content now user payload restaurant s)) h2 in
        (restaurant, ground arith, ground arith, ok-injective h3)

    -- What `submit` returns and stores.
    submit_lem :
        (restaurant : Restaurant F)
        → let (out, t) = submit content now user payload restaurant s in
          (out.status ≡ status_for (is_flagged content payload.body) (is_trusted user.id s.work))
          × (out.queued ≡ not (is_published out.status))
          × (is_published out.status ≡ false → has_item out.id t ≡ true)
          × (t.work.reviews
              ≡ new_review content s.work.next_id now user payload restaurant
                  (is_trusted user.id s.work)
                  out.status
                ∷ s.work.reviews)
    unfolding submit count_submission add_review new_review
    submit_lem restaurant =
        let trusted = is_trusted user.id s.work in
        let status = status_for (is_flagged content payload.body) trusted in
        let review = new_review content s.work.next_id now user payload restaurant trusted status in
        let added = add_review content review s in
        let waiting = queue_submission content now review added in
        let counted = count_submission content user.id status waiting in
        let (same_reviews, same_items) = rows-count_publication user review counted in
        (
          refl,
          refl,
          λ hidden.
              ap (any (λ i. i.review_id == review.id)) same_items
              ∙ has_item-queue_submission now review added refl
                  (status_for_cases (is_flagged content payload.body) trusted hidden),
          same_reviews ∙ reviews-queue_submission now review added,
        )

    -- An accepted submission comes from a user who is not banned, of a body that they have not
    -- submitted before. It is published at once exactly if the text is not flagged as spam and the
    -- author has the least number of published reviews; otherwise it waits in the moderation queue.
    -- The one review that is added has that status.
    pub create_review_lem :
        (out : ReviewCreatedOut) (t : Session F)
        → create_review content now user payload s ≡ ok (out, t)
        → (restaurant : Restaurant F) × (user.is_banned ≡ false)
          × (is_known content payload.body user.id s ≡ false)
          × (is_published out.status
              ≡ (not (is_flagged content payload.body) && is_trusted user.id s.work))
          × (out.queued ≡ not (is_published out.status))
          × (is_published out.status ≡ false → any (λ i. i.review_id == out.id) t.work.items ≡ true)
          × (t.work.reviews
              ≡ new_review content s.work.next_id now user payload restaurant
                  (is_trusted user.id s.work)
                  out.status
                ∷ s.work.reviews)
    create_review_lem out t h =
        let (restaurant, allowed, fresh, same) = create_review_submits (out, t) h in
        let (status, queued, waits, stored) = submit_lem restaurant in
        let at_out = ap (λ (x : ReviewCreatedOut × Session F). x.0) same in
        let at_t = ap (λ (x : ReviewCreatedOut × Session F). x.1) same in
        (
          restaurant,
          allowed,
          fresh,
          rw (← at_out) (ap is_published status ∙ decided_by _ _),
          rw (← at_out) queued,
          rw (← at_out, ← at_t) waits,
          rw (← at_out, ← at_t) stored,
        )
      where
        decided_by :
            (flagged trusted : Bool)
            → is_published (status_for flagged trusted) ≡ (not flagged && trusted)
        decided_by flagged trusted = ground arith
