-- ===== src/Ingestion/Evidence/Stored.antt =====
-- What `store_review` adds, and that it does so once.
use mathlib.Core.Path.{subst}
use khaabo.Prelude.{
  ℕ, ◌≡◌, refl, sym, ap, ◌∙◌, inl, inr, Bool, true, false, Option, none, some, List, [], ◌∷◌, ◌++◌,
  String, find, any, str_eq, Bool-cases, Option-cases, find-append_one, eq_refl, ◌+◌, ◌==◌,
}
use khaabo.Float.{Float}
use khaabo.Store.{Restaurant, Review, update_where}
use khaabo.EntityResolution.{CandidateRestaurant}
use khaabo.Ingestion.Model.{RawReview, City, Ingest, Outcome, done, Texts, has_review_key, flush}
use khaabo.Ingestion.Model.Flush.{flush-eq, >>=-eq-done, done-injective}
use khaabo.Ingestion.Places.{Action}
use khaabo.Ingestion.Evidence.{
  new_review, insert_review, insert_resolved, store_unknown, known_review, store_review,
  resolve_review_restaurant,
}
use khaabo.Ingestion.Evidence.Resolved.{IsResolved, resolve_review_restaurant-IsResolved}

some-ne-none : {i : ℕ} → some i ≡ none → ⊥
some-ne-none h = cc

module _ {F : Type 0} ⦃f : Float F⦄ (texts : Texts F) where
  not_created :
      {P : Type 0} {r q : Option ℕ} {s t : Ingest F}
      → ◌≡◌ {A = Outcome (Option ℕ × Action × Ingest F)}
          (done (r, Action.skipped, s))
          (done (q, Action.created, t))
      → P
  not_created h = cc

  -- The review's row is added and flushed, and its source and the restaurant's count wait.
  abbrev IsInserted :
      ℕ → City → RawReview F → Restaurant F → Ingest F → Option ℕ × Action × Ingest F → Type 0
  IsInserted now city raw target s q =
      (q.0 ≡ some s.work.next_id)
      × (q.2.work.reviews
          ≡ s.work.reviews ++ (new_review texts now city raw target s.work.next_id ∷ []))
      × (q.2.rows.reviews
          ≡ s.work.reviews ++ (new_review texts now city raw target s.work.next_id ∷ []))
      × (q.2.rows.review_sources ≡ s.work.review_sources)
      × (q.2.work.restaurants
          ≡ update_where (λ r. r.id == target.id)
              (λ r. record r { review_count = r.review_count + 1 }) s.work.restaurants)

  insert_review-IsInserted :
      (now : ℕ) (city : City) (raw : RawReview F) (target : Restaurant F) (s : Ingest F)
      (q : Option ℕ × Action × Ingest F)
      → insert_review texts now city raw target s ≡ done q
      → IsInserted now city raw target s q
  unfolding insert_review
  insert_review-IsInserted now city raw target s q h =
      let (t, flushed, last) = >>=-eq-done (flush _) _ h in
      let e = flush-eq _ t flushed in
      subst (IsInserted now city raw target s) (done-injective last) (
        refl,
        ap (λ (u : Ingest F). u.work.reviews) e,
        ap (λ (u : Ingest F). u.rows.reviews) e,
        ap (λ (u : Ingest F). u.rows.review_sources) e,
        ap
            (λ (u : Ingest F).
              update_where (λ r. r.id == target.id)
                (λ r. record r { review_count = r.review_count + 1 }) u.work.restaurants)
            e,
      )

  -- What a new review rests on: no row with its source or its content, and a restaurant.
  abbrev IsEarned : ℕ → City → RawReview F → Ingest F → Option ℕ × Action × Ingest F → Type 0
  IsEarned now city raw s q =
      (known_review texts raw s ≡ none)
      × (target : Restaurant F) × (any (λ x. x.id == target.id) s.work.restaurants ≡ true)
      × IsInserted now city raw target s q

  insert_resolved-IsEarned :
      (now : ℕ) (city : City) (raw : RawReview F) (s : Ingest F) (id : Option ℕ) (t : Ingest F)
      (p : Option (Restaurant F) × Ingest F)
      → known_review texts raw s ≡ none
      → IsResolved s p
      → insert_resolved texts now city raw p ≡ done (id, Action.created, t)
      → IsEarned now city raw s (id, Action.created, t)
  unfolding insert_resolved
  insert_resolved-IsEarned now city raw s id t (none, u) fresh h e = not_created e
  insert_resolved-IsEarned now city raw s id t (some target, u) fresh (same, there) e =
      let inserted = insert_review-IsInserted now city raw target u (id, Action.created, t) e in
      (
        fresh,
        target,
        there target refl,
        (
          inserted.0 ∙ ap some same.3,
          inserted.1
              ∙ ap (λ v. v ++ (new_review texts now city raw target u.work.next_id ∷ [])) same.0
              ∙ ap (λ n. s.work.reviews ++ (new_review texts now city raw target n ∷ [])) same.3,
          inserted.2
              ∙ ap (λ v. v ++ (new_review texts now city raw target u.work.next_id ∷ [])) same.0
              ∙ ap (λ n. s.work.reviews ++ (new_review texts now city raw target n ∷ [])) same.3,
          inserted.3 ∙ same.1,
          inserted.4
              ∙ ap
                  (update_where (λ r. r.id == target.id)
                    (λ r. record r { review_count = r.review_count + 1 }))
                  same.2,
        ),
      )

  store_review-IsEarned :
      (now : ℕ) (city : City) (candidates : List (CandidateRestaurant F)) (raw : RawReview F)
      (s : Ingest F) (id : Option ℕ) (t : Ingest F)
      → store_review texts now city none candidates raw s ≡ done (id, Action.created, t)
      → (str_eq (texts.clean_text raw.text) "" ≡ false)
        × IsEarned now city raw s (id, Action.created, t)
  unfolding store_review store_unknown
  store_review-IsEarned now city candidates raw s id t h =
      elim (Bool-cases (str_eq (texts.clean_text raw.text) "")) [
        | inl e ↦ not_created (rw (e, store_review) at h)
        | inr e ↦ elim (Option-cases (known_review texts raw s)) [
          | inr (known, d) ↦ not_created (rw (e, d, store_review) at h)
          | inl d ↦ (
            e,
            insert_resolved-IsEarned now city raw s id t
                (resolve_review_restaurant texts city raw candidates (texts.clean_text raw.text) s)
                d
                (resolve_review_restaurant-IsResolved texts city raw candidates
                  (texts.clean_text raw.text) s)
                (rw (e, d, store_review) at h),
          )
        ]
      ]

  -- A review that a source without a restaurant gives, and that `store_review` creates, has a body;
  -- no row had its source's key or its content's hash; its restaurant is one of the session's, and
  -- counts one review more. Of the reviews the row itself is the only one that is added, and the
  -- restaurants change in that count alone.
  pub store_review_earned :
      (now : ℕ) (city : City) (candidates : List (CandidateRestaurant F)) (raw : RawReview F)
      (s : Ingest F) (id : Option ℕ) (t : Ingest F)
      → store_review texts now city none candidates raw s ≡ done (id, Action.created, t)
      → (str_eq (texts.clean_text raw.text) "" ≡ false)
        × (known_review texts raw s ≡ none)
        × (target : Restaurant F) × (any (λ x. x.id == target.id) s.work.restaurants ≡ true)
        × (t.work.reviews
            ≡ s.work.reviews ++ (new_review texts now city raw target s.work.next_id ∷ []))
        × (t.work.restaurants
            ≡ update_where
                (λ r. r.id == target.id)
                (λ r. record r { review_count = r.review_count + 1 })
                s.work.restaurants)
  store_review_earned now city candidates raw s id t h =
      let (text, earned) = store_review-IsEarned now city candidates raw s id t h in
      let (fresh, target, there, inserted) = earned in
      (text, fresh, target, there, inserted.1, inserted.4)

  abbrev print_of : RawReview F → String
  print_of raw = texts.review_fingerprint (texts.clean_text raw.text) raw.author raw.published_at

  abbrev has_content : RawReview F → Review F → Bool
  has_content raw r = str_eq r.content_hash (print_of raw)

  known_by_content :
      (raw : RawReview F) (s : Ingest F) (r : Review F)
      → find (has_review_key raw.source raw.external_id) s.rows.review_sources ≡ none
      → find (has_content raw) s.rows.reviews ≡ some r
      → known_review texts raw s ≡ some r.id
  unfolding known_review
  known_by_content raw s r h k = rw (h, k, known_review) refl

  unknown :
      (raw : RawReview F) (s : Ingest F)
      → known_review texts raw s ≡ none
      → (find (has_review_key raw.source raw.external_id) s.rows.review_sources ≡ none)
        × (find (has_content raw) s.rows.reviews ≡ none)
  unfolding known_review
  unknown raw s h =
      elim (Option-cases (find (has_review_key raw.source raw.external_id) s.rows.review_sources)) [
        | inr (k, e) ↦ absurd (some-ne-none (rw (e, known_review) at h))
        | inl e ↦ elim (Option-cases (find (has_content raw) s.rows.reviews)) [
          | inr (r, d) ↦ absurd (some-ne-none (rw (e, d, known_review) at h))
          | inl d ↦ (e, d)
        ]
      ]

  -- A review that `store_review` has created from a source without a restaurant is skipped when it
  -- is met again in the same session, as the first call left it: the answer is the same row, whatever the clock,
  -- the city, the restaurant and the candidates, and nothing is changed. The session had no review
  -- and no review's source before that is not in the database.
  pub store_review_repeat :
      (now later : ℕ) (city other : City) (candidates others : List (CandidateRestaurant F))
      (restaurant : Option (Restaurant F)) (raw : RawReview F) (s : Ingest F) (id : Option ℕ)
      (t : Ingest F)
      → s.rows.reviews ≡ s.work.reviews
      → s.rows.review_sources ≡ s.work.review_sources
      → store_review texts now city none candidates raw s ≡ done (id, Action.created, t)
      → store_review texts later other restaurant others raw t ≡ done (id, Action.skipped, t)
  unfolding store_review known_review
  store_review_repeat now later city other candidates others restaurant raw s id t clean settled h =
      let (text, earned) = store_review-IsEarned now city candidates raw s id t h in
      let (fresh, target, there, inserted) = earned in
      let (no_source, no_content) = unknown raw s fresh in
      let source : find (has_review_key raw.source raw.external_id) t.rows.review_sources ≡ none =
        rw (inserted.3, ← settled) no_source in
      let content : find (has_content raw) t.rows.reviews
          ≡ some (new_review texts now city raw target s.work.next_id) =
        rw
          (
            inserted.2,
            ← clean,
            find-append_one (has_content raw) s.rows.reviews
                (new_review texts now city raw target s.work.next_id),
            no_content,
            eq_refl (print_of raw),
          )
          refl in
      rw (text, known_by_content raw t _ source content, store_review)
        (ap (λ i. done (i, Action.skipped, t)) (sym inserted.0))
