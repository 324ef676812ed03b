-- ===== src/Ingestion/Evidence/Saved.antt =====
-- Storing a review commits nothing.
use khaabo.Prelude.{
  ℕ, ◌≡◌, refl, sym, ap, ◌∙◌, inl, inr, Option, none, some, List, String, arith, Bool-cases,
  Option-cases, str_eq,
}
use khaabo.Float.{Float}
use khaabo.Store.{Restaurant}
use khaabo.EntityResolution.{CandidateRestaurant, non_empty, ResolutionResult}
use khaabo.Ingestion.Model.{RawReview, City, Ingest, done, Texts, flush}
use khaabo.Ingestion.Model.Flush.{flush-eq, >>=-eq-done, done-injective}
use khaabo.Ingestion.Places.{Action, add_alias}
use khaabo.Ingestion.Places.Upsert.{record_conflict}
use khaabo.Ingestion.Evidence.{
  insert_review, insert_resolved, store_unknown, known_review, store_review, hint_resolved,
  resolve_review_restaurant, hint_matched, named_in_text, certain_id, needs_review,
}

module _ {F : Type 0} ⦃f : Float F⦄ (texts : Texts F) where
  saved-hint_matched :
      (raw : RawReview F) (hint : String) (id : ℕ) (s : Ingest F)
      → (hint_matched texts raw hint id s).1.saved ≡ s.saved
  unfolding hint_matched add_alias
  saved-hint_matched raw hint id s = ground arith

  saved-named_in_text :
      (candidates : List (CandidateRestaurant F)) (body : String) (s : Ingest F)
      → (named_in_text texts candidates body s).1.saved ≡ s.saved
  unfolding named_in_text
  saved-named_in_text candidates body s = ground arith

  saved-hint_resolved :
      (city : City) (raw : RawReview F) (hint : String) (candidates : List (CandidateRestaurant F))
      (body : String) (r : ResolutionResult F) (s : Ingest F)
      → (hint_resolved texts city raw hint candidates body r s).1.saved ≡ s.saved
  unfolding hint_resolved record_conflict
  saved-hint_resolved city raw hint candidates body r s = elim (Option-cases (certain_id r)) [
    | inr (id, e) ↦ rw (e, hint_resolved) (saved-hint_matched raw hint (texts.id_of id) s)
    | inl e ↦ elim (Bool-cases (needs_review r)) [
      | inl d ↦ rw (e, d, hint_resolved) refl
      | inr d ↦ rw (e, d, hint_resolved) (saved-named_in_text candidates body s)
    ]
  ]

  saved-resolve_review_restaurant :
      (city : City) (raw : RawReview F) (candidates : List (CandidateRestaurant F)) (body : String)
      (s : Ingest F)
      → (resolve_review_restaurant texts city raw candidates body s).1.saved ≡ s.saved
  unfolding resolve_review_restaurant
  saved-resolve_review_restaurant city raw candidates body s =
      elim (Option-cases (non_empty raw.restaurant_hint)) [
        | inl e ↦ rw (e, resolve_review_restaurant) (saved-named_in_text candidates body s)
        | inr (hint, e) ↦
            rw (e, resolve_review_restaurant)
              (saved-hint_resolved city raw hint candidates body _ s)
      ]

  saved-insert_review :
      (now : ℕ) (city : City) (raw : RawReview F) (target : Restaurant F) (s : Ingest F)
      (q : Option ℕ × Action × Ingest F)
      → insert_review texts now city raw target s ≡ done q
      → q.2.saved ≡ s.saved
  unfolding insert_review
  saved-insert_review now city raw target s q h =
      let (t, flushed, last) = >>=-eq-done (flush _) _ h in
      ap (λ (p : Option ℕ × Action × Ingest F). p.2.saved) (sym (done-injective last))
      ∙ ap (λ (u : Ingest F). u.saved) (flush-eq _ t flushed)

  saved-insert_resolved :
      (now : ℕ) (city : City) (raw : RawReview F) (p : Option (Restaurant F) × Ingest F)
      (q : Option ℕ × Action × Ingest F)
      → insert_resolved texts now city raw p ≡ done q
      → q.2.saved ≡ p.1.saved
  unfolding insert_resolved
  saved-insert_resolved now city raw (none, s) q h =
      ap (λ (p : Option ℕ × Action × Ingest F). p.2.saved) (sym (done-injective h))
  saved-insert_resolved now city raw (some target, s) q h =
      saved-insert_review now city raw target s q h

  pub saved-store_review :
      (now : ℕ) (city : City) (candidates : List (CandidateRestaurant F)) (raw : RawReview F)
      (s : Ingest F) (q : Option ℕ × Action × Ingest F)
      → store_review texts now city none candidates raw s ≡ done q
      → q.2.saved ≡ s.saved
  unfolding store_review store_unknown
  saved-store_review now city candidates raw s q h =
      let same : done (none, Action.skipped, s) ≡ done q → q.2.saved ≡ s.saved =
        λ k. ap (λ (p : Option ℕ × Action × Ingest F). p.2.saved) (sym (done-injective k)) in
      elim (Bool-cases (str_eq (texts.clean_text raw.text) "")) [
        | inl e ↦ same (rw (e, store_review) at h)
        | inr e ↦ elim (Option-cases (known_review texts raw s)) [
          | inr (known, d) ↦
              ap (λ (p : Option ℕ × Action × Ingest F). p.2.saved)
                (sym (done-injective (rw (e, d, store_review) at h)))
          | inl d ↦
              let body = texts.clean_text raw.text in
              saved-insert_resolved now city raw
                (resolve_review_restaurant texts city raw candidates body s) q
                (rw (e, d, store_review) at h)
              ∙ saved-resolve_review_restaurant city raw candidates body s
        ]
      ]
