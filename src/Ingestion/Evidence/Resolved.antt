-- ===== src/Ingestion/Evidence/Resolved.antt =====
-- The restaurant that a review is resolved to.
use mathlib.Core.Option.{some-injective}
use khaabo.Prelude.{
  ℕ, ◌≡◌, refl, inl, inr, true, Option, some, List, String, any, arith, str_eq, Bool-cases,
  Option-cases, ◌==◌, find_found, any-of_find,
}
use khaabo.Float.{Float}
use khaabo.Store.{Restaurant}
use khaabo.EntityResolution.{CandidateRestaurant, ResolutionResult, non_empty}
use khaabo.Ingestion.Model.{RawReview, City, Ingest, Texts}
use khaabo.Ingestion.Mentions.{resolve_mention}
use khaabo.Ingestion.Places.{find_restaurant, add_alias}
use khaabo.Ingestion.Places.Upsert.{record_conflict}
use khaabo.Ingestion.Evidence.{
  resolve_review_restaurant, hint_resolved, hint_matched, named_in_text, certain_id, needs_review,
}

module _ {F : Type 0} where
  -- The reviews, their sources and the restaurants.
  abbrev pub SameEvidence : Ingest F → Ingest F → Type 0
  SameEvidence s t =
      (t.work.reviews ≡ s.work.reviews)
      × (t.work.review_sources ≡ s.work.review_sources)
      × (t.work.restaurants ≡ s.work.restaurants)
      × (t.work.next_id ≡ s.work.next_id)

  -- A restaurant that is resolved is one of the session's, and nothing but aliases and conflicts is
  -- added on the way.
  abbrev pub IsResolved : Ingest F → Option (Restaurant F) × Ingest F → Type 0
  IsResolved s q =
      SameEvidence s q.1
      × ((r : Restaurant F) → q.0 ≡ some r → any (λ x. x.id == r.id) s.work.restaurants ≡ true)

module _ {F : Type 0} ⦃f : Float F⦄ (texts : Texts F) where
  add_alias-SameEvidence :
      (id : ℕ) (name : String) (raw : RawReview F) (s : Ingest F)
      → SameEvidence s (add_alias texts id name raw.source s)
  unfolding add_alias
  add_alias-SameEvidence id name raw s = ground arith

  found_there :
      (id : ℕ) (s : Ingest F) (r : Restaurant F)
      → find_restaurant id s.work ≡ some r
      → any (λ x. x.id == r.id) s.work.restaurants ≡ true
  found_there id s r h =
      let same : r.id ≡ id = ground (arith, find_found (λ x. x.id == id) s.work.restaurants r h) in
      rw same (any-of_find (λ x. x.id == id) s.work.restaurants r h)

  named_in_text-IsResolved :
      (candidates : List (CandidateRestaurant F)) (body : String) (s : Ingest F)
      → IsResolved s (named_in_text texts candidates body s)
  unfolding named_in_text
  named_in_text-IsResolved candidates body s =
      elim (Option-cases (resolve_mention texts body candidates)) [
        | inl e ↦ rw (e, named_in_text) ((refl, refl, refl, refl), λ r h. cc)
        | inr (m, e) ↦
            rw (e, named_in_text)
              ((refl, refl, refl, refl), λ r h. found_there (texts.id_of m.0) s r h)
      ]

  hint_matched-IsResolved :
      (raw : RawReview F) (hint : String) (id : ℕ) (s : Ingest F)
      → IsResolved s (hint_matched texts raw hint id s)
  unfolding hint_matched
  hint_matched-IsResolved raw hint id s = elim (Option-cases (find_restaurant id s.work)) [
    | inl e ↦ rw (e, hint_matched) ((refl, refl, refl, refl), λ r h. cc)
    | inr (x, e) ↦
        let there = found_there id s x e in
        elim (Bool-cases (str_eq (texts.resolver.normalize_name hint) x.normalized_name)) [
          | inl d ↦
              rw (e, d, hint_matched)
                ((refl, refl, refl, refl), λ r h. rw (← some-injective _ _ h) there)
          | inr d ↦
              rw (e, d, hint_matched)
                (add_alias-SameEvidence x.id hint raw s, λ r h. rw (← some-injective _ _ h) there)
        ]
  ]

  hint_resolved-IsResolved :
      (city : City) (raw : RawReview F) (hint : String) (candidates : List (CandidateRestaurant F))
      (body : String) (r : ResolutionResult F) (s : Ingest F)
      → IsResolved s (hint_resolved texts city raw hint candidates body r s)
  unfolding hint_resolved record_conflict
  hint_resolved-IsResolved city raw hint candidates body r s = elim (Option-cases (certain_id r)) [
    | inr (id, e) ↦ rw (e, hint_resolved) (hint_matched-IsResolved raw hint (texts.id_of id) s)
    | inl e ↦ elim (Bool-cases (needs_review r)) [
      | inl d ↦ rw (e, d, hint_resolved) ((refl, refl, refl, refl), λ x h. cc)
      | inr d ↦ rw (e, d, hint_resolved) (named_in_text-IsResolved candidates body s)
    ]
  ]

  pub resolve_review_restaurant-IsResolved :
      (city : City) (raw : RawReview F) (candidates : List (CandidateRestaurant F)) (body : String)
      (s : Ingest F)
      → IsResolved s (resolve_review_restaurant texts city raw candidates body s)
  unfolding resolve_review_restaurant
  resolve_review_restaurant-IsResolved city raw candidates body s =
      elim (Option-cases (non_empty raw.restaurant_hint)) [
        | inl e ↦ rw (e, resolve_review_restaurant) (named_in_text-IsResolved candidates body s)
        | inr (hint, e) ↦
            rw (e, resolve_review_restaurant)
              (hint_resolved-IsResolved city raw hint candidates body _ s)
      ]
