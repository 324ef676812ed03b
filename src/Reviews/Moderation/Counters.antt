-- ===== src/Reviews/Moderation/Counters.antt =====
-- Decisions and deletions: who may make them, what they change, and the author's counters after
-- them, which are those of the rows before the change.
use khaabo.Prelude.{
  ℕ, ◌+◌, ◌≡◌, refl, sym, ap, ◌∙◌, inl, inr, true, false, ◌||◌, Option, none, some, List, String,
  find, count, map, ◌==◌, [], ◌∷◌, arith, if◌then◌else◌, Option-cases, find_found, find-map_if,
  map_option, count-change_one,
}
use mathlib.Core.Path.{subst}
use mathlib.Core.Option.{some-injective}
use khaabo.Enums.{ReviewStatus, ModerationStatus, is_published, is_moderator}
use khaabo.Store.{
  User, Profile, Review, ModerationItem, Session, ok, not_found, forbidden, ◌>>=◌, IdText,
  update_where, owned_by, >>=-eq-ok, guard-eq-ok, or_raise-eq-ok, ok-injective,
}
use khaabo.Gamification.{published_total, published_by}
use khaabo.Reviews.Rows.{is_profile_of, has_id, get_review_or_404}
use khaabo.Reviews.Moderation.Decision.{IsDecision, apply_action-IsDecision}
use khaabo.Reviews.Moderation.{
  sync_author_counters, sync_if_owned, apply_action, record_decision, find_item, find_review,
  decide_change, decide, decide_item, decide_moderation, reject, delete_review,
}

abbrev synced : ℕ → ℕ → Profile → Profile
synced published total p = record p { published_review_count = published; review_count = total }

module _ {F : Type 0} where
  -- After a synchronisation the profile has the count of the database's rows.
  sync_author_counters_lem :
      (author : ℕ) (s : Session F) (p : Profile)
      → find (is_profile_of author) (sync_author_counters author s).work.profiles ≡ some p
      → p.published_review_count ≡ published_total author s.rows
  unfolding sync_author_counters
  sync_author_counters_lem author s p h =
      fields (find (is_profile_of author) s.work.profiles)
        (λ q k. find_found (is_profile_of author) s.work.profiles q k)
        (rw
          (find-map_if (is_profile_of author) (is_profile_of author)
            (synced (published_total author s.rows) (count (owned_by author) s.rows.reviews))
            (λ q. refl) s.work.profiles)
          at h)
    where
      fields :
          (o : Option Profile)
          → ((q : Profile) → o ≡ some q → is_profile_of author q ≡ true)
          → map_option
              (λ q.
                if is_profile_of author q
                then synced
                    (published_total author s.rows)
                    (count (owned_by author) s.rows.reviews)
                    q
                else q)
              o
            ≡ some p
          → p.published_review_count ≡ published_total author s.rows
      fields none k e = cc
      fields (some q) k e = ground (arith, k q refl)

  abbrev with_status : ReviewStatus → Review F → Review F
  with_status next r = record r { status = next }

  -- What a decision leaves in the session, for a review with an author.
  module _ (now moderator : ℕ) (item : ModerationItem) (review : Review F) (action : String)
      (note : Option String) (next : ReviewStatus) (item_status : ModerationStatus)
      (s : Session F) where
    abbrev decided_session : Session F
    decided_session = record_decision now moderator item review action note (next, item_status) s

    reviews-record_decision :
        decided_session.work.reviews
        ≡ update_where (has_id review.id) (with_status next) s.work.reviews
    unfolding record_decision sync_author_counters
    reviews-record_decision = elim (Option-cases review.user_id) [
      | inl e ↦ rw e refl
      | inr (author, e) ↦ rw e refl
    ]

    profile-record_decision :
        (author : ℕ) (p : Profile)
        → review.user_id ≡ some author
        → find (is_profile_of author) decided_session.work.profiles ≡ some p
        → p.published_review_count ≡ published_total author s.rows
    unfolding record_decision
    profile-record_decision author p e h = sync_author_counters_lem author _ p (rw e at h)

  items-record_decision :
      (now moderator : ℕ) (item : ModerationItem) (review : Review F) (action : String)
      (note : Option String) (next : ReviewStatus) (item_status : ModerationStatus) (s : Session F)
      → map
          (λ (i : ModerationItem). i.status)
          (record_decision now moderator item review action note (next, item_status) s).work.items
        ≡ map (λ i. if i.id == item.id then item_status else i.status) s.work.items
  unfolding record_decision sync_author_counters
  items-record_decision now moderator item review action note next item_status s =
      elim (Option-cases review.user_id) [
        | inl e ↦ rw e (changed s.work.items)
        | inr (author, e) ↦ rw e (changed s.work.items)
      ]
    where
      changed :
          (items : List ModerationItem)
          → map
              (λ (i : ModerationItem). i.status)
              (update_where
                (λ i. i.id == item.id)
                (decide_change now moderator review.status next item_status action note)
                items)
            ≡ map (λ i. if i.id == item.id then item_status else i.status) items
      changed [] = refl
      changed (i ∷ is) = ground (arith, changed is)

  -- The item that is asked for.
  find_item-eq-ok :
      (text : IdText) (s : Session F) (item : ModerationItem)
      → find_item text s ≡ ok item
      → (text ≡ IdText.uuid item.id) × (find (λ i. i.id == item.id) s.rows.items ≡ some item)
  unfolding find_item
  find_item-eq-ok (IdText.malformed t) s item h = cc
  find_item-eq-ok (IdText.uuid k) s item h =
      let found = or_raise-eq-ok (find (λ i. i.id == k) s.rows.items) not_found h in
      let same : item.id ≡ k =
        ground (arith, find_found (λ (i : ModerationItem). i.id == k) s.rows.items item found) in
      (
        ap IdText.uuid (sym same),
        subst (λ (n : ℕ). find (λ (i : ModerationItem). i.id == n) s.rows.items ≡ some item)
            (sym same) found,
      )

  -- Inversion of a decision that was accepted.
  decide_moderation_cases :
      (now : ℕ) (text : IdText) (moderator : User) (action : String) (note : Option String)
      (s : Session F) (x : (ℕ × ReviewStatus) × Session F)
      → decide_moderation now text moderator action note s ≡ ok x
      → (item : ModerationItem) × (review : Review F) × (statuses : ReviewStatus × ModerationStatus)
        × (is_moderator moderator.role ≡ true)
        × (find_item text s ≡ ok item)
        × (find (has_id item.review_id) s.work.reviews ≡ some review)
        × (apply_action action review.status ≡ ok statuses)
        × ((
          (review.id, statuses.0),
          record_decision now moderator.id item review action note statuses s,
        )
            ≡ x)
  unfolding decide_moderation decide_item decide find_review
  decide_moderation_cases now text moderator action note s x h =
      let (allowed, h1) =
        guard-eq-ok (is_moderator moderator.role) forbidden
          (find_item text s >>= decide_item now moderator.id action note s) h in
      let (item, asked, h2) =
        >>=-eq-ok (find_item text s) (decide_item now moderator.id action note s) h1 in
      let (review, found, h3) =
        >>=-eq-ok (find_review item s) (decide now moderator.id action note s item) h2 in
      let (statuses, applied, h4) =
        >>=-eq-ok (apply_action action review.status)
          (λ st.
            ok ((review.id, st.0), record_decision now moderator.id item review action note st s))
          h3 in
      (
        item,
        review,
        statuses,
        allowed,
        asked,
        or_raise-eq-ok (find (has_id item.review_id) s.work.reviews) not_found found,
        applied,
        ok-injective h4,
      )

  same_id :
      (k : ℕ) (reviews : List (Review F)) (review : Review F)
      → find (has_id k) reviews ≡ some review
      → k ≡ review.id
  same_id k reviews review h = ground (arith, find_found (has_id k) reviews review h)

  module _ (now : ℕ) (text : IdText) (moderator : User) (action : String) (note : Option String)
      (s : Session F) (id : ℕ) (status : ReviewStatus) (t : Session F)
      (accepted : decide_moderation now text moderator action note s ≡ ok ((id, status), t)) where
    -- Only a moderator or an administrator decides. The text is the id of an item in the database, and
    -- the review that is answered for is that item's. To publish, reject or flag gives the review the
    -- status published, rejected or flagged, and to dismiss leaves it its own; the item is then
    -- resolved, resolved, open or dismissed, and there is no other action. No other review changes,
    -- and no other item's status.
    pub decide_moderation_lem :
        (item : ModerationItem) × (review : Review F) × (item_status : ModerationStatus)
        × (is_moderator moderator.role ≡ true)
        × (text ≡ IdText.uuid item.id)
        × (find (λ i. i.id == item.id) s.rows.items ≡ some item)
        × (item.review_id ≡ id)
        × (find (has_id id) s.work.reviews ≡ some review)
        × IsDecision action review.status status item_status
        × (map (λ (i : ModerationItem). i.status) t.work.items
            ≡ map (λ i. if i.id == item.id then item_status else i.status) s.work.items)
        × (t.work.reviews
            ≡ update_where (has_id id) (λ r. record r { status = status }) s.work.reviews)
    decide_moderation_lem =
        let (item, review, statuses, allowed, asked, found, applied, same) =
          decide_moderation_cases now text moderator action note s ((id, status), t) accepted in
        let at_id = ap (λ (x : (ℕ × ReviewStatus) × Session F). x.0.0) same in
        let at_status = ap (λ (x : (ℕ × ReviewStatus) × Session F). x.0.1) same in
        let at_t = ap (λ (x : (ℕ × ReviewStatus) × Session F). x.1) same in
        let here = same_id item.review_id s.work.reviews review found ∙ at_id in
        let (named, listed) = find_item-eq-ok text s item asked in
        (
          item,
          review,
          statuses.1,
          allowed,
          named,
          listed,
          here,
          rw here at found,
          apply_action-IsDecision action review.status status statuses.1
              (applied ∙ ap (λ (st : ReviewStatus). ok (st, statuses.1)) at_status),
          rw (← at_t) (
              items-record_decision now moderator.id item review action note statuses.0 statuses.1
                s),
          rw (← at_t, ← at_id, ← at_status)
              (reviews-record_decision now moderator.id item review action note statuses.0
                statuses.1 s),
        )

    -- The author's counter is that of the rows before the decision: when a decision publishes a
    -- review that was not published, the counter that is written is one short of the author's
    -- published reviews.
    pub decide_moderation_stale :
        (review : Review F) (author : ℕ) (p : Profile)
        → s.rows.reviews ≡ s.work.reviews
        → find (has_id id) s.work.reviews ≡ some review
        → count (has_id id) s.work.reviews ≡ 1
        → review.user_id ≡ some author
        → is_published review.status ≡ false
        → is_published status ≡ true
        → find (is_profile_of author) t.work.profiles ≡ some p
        → p.published_review_count + 1 ≡ published_total author t.work
    unfolding published_total
    decide_moderation_stale review author p clean found once owner before after profile =
        let (item, review', statuses, _, _, found', applied, same) =
          decide_moderation_cases now text moderator action note s ((id, status), t) accepted in
        let at_id = ap (λ (x : (ℕ × ReviewStatus) × Session F). x.0.0) same in
        let at_t = ap (λ (x : (ℕ × ReviewStatus) × Session F). x.1) same in
        let here = same_id item.review_id s.work.reviews review' found' ∙ at_id in
        let review_same : review' ≡ review = some-injective _ _ (sym (rw here at found') ∙ found) in
        let (_, _, _, _, _, _, _, _, _, _, stored) = decide_moderation_lem in
        let counter : p.published_review_count ≡ published_total author s.rows =
          profile-record_decision now moderator.id item review' action note statuses.0 statuses.1 s
            author p (ap (λ (r : Review F). r.user_id) review_same ∙ owner)
            (rw (← at_t) at profile) in
        let grown =
          count-change_one (published_by author) (has_id id) (with_status status) s.work.reviews
            review once found (ground arith) (ground arith) in
        omega (
          arith,
          counter,
          ap (λ (rs : List (Review F)). count (published_by author) rs) clean,
          ap (λ (rs : List (Review F)). count (published_by author) rs) stored,
          grown,
        )

  reviews-sync :
      (review : Review F) (s : Session F) → (sync_if_owned review s).work.reviews ≡ s.work.reviews
  unfolding sync_author_counters
  reviews-sync review s = elim (Option-cases review.user_id) [
    | inl e ↦ rw e refl
    | inr (author, e) ↦ rw e refl
  ]

  -- Only the author or a moderator deletes a review, which is then rejected; no other review changes.
  pub delete_review_lem :
      (text : IdText) (user : User) (s : Session F) (id : ℕ) (t : Session F)
      → delete_review text user s ≡ ok (id, t)
      → (review : Review F) × (get_review_or_404 text s ≡ ok review)
        × ((owned_by user.id review || is_moderator user.role) ≡ true)
        × (t.work.reviews
            ≡ update_where
                (has_id review.id)
                (λ r. record r { status = ReviewStatus.rejected })
                s.work.reviews)
  unfolding delete_review reject
  delete_review_lem text user s id t h =
      let (review, found, h1) = >>=-eq-ok (get_review_or_404 text s) (reject user s) h in
      let (allowed, h2) =
        guard-eq-ok (owned_by user.id review || is_moderator user.role) forbidden _ h1 in
      let at_t = ap (λ (x : ℕ × Session F). x.1) (ok-injective h2) in
      (
        review,
        found,
        allowed,
        ap (λ (x : Session F). x.work.reviews) (sym at_t) ∙ reviews-sync review _,
      )
