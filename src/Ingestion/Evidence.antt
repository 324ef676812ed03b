-- ===== src/Ingestion/Evidence.antt =====
-- backend/app/ingestion/pipeline.py: `store_review` and `_resolve_review_restaurant`.
pub mod Resolved
pub mod Saved
pub mod Stored
use khaabo.Prelude.{
  ℕ, suc, ◌+◌, Bool, true, false, ◌||◌, Option, none, some, List, [], ◌∷◌, ◌++◌, String, find,
  str_eq, if◌then◌else◌,
}
use khaabo.Enums.{ReviewStatus, AiState}
use khaabo.Float.{Float, nought}
use khaabo.Store.{Restaurant, Review}
use khaabo.Ranking.Evidence.{source_quality_for}
use khaabo.EntityResolution.{
  CandidateRestaurant, IncomingPlace, ResolutionResult, non_empty, resolve_candidate,
}
use khaabo.Ingestion.Model.{
  RawReview, City, Ingest, Outcome, done, Texts, source_value, has_review_key, flush, ◌>>=◌,
}
use khaabo.Ingestion.Mentions.{resolve_mention}
use khaabo.Ingestion.Places.{
  Action, is_ambiguous_match, change_restaurant, find_restaurant, add_alias,
}
use khaabo.Ingestion.Places.Upsert.{record_conflict}

module _ {F : Type 0} ⦃f : Float F⦄ where
  open f use {lit, le}

  -- `ResolutionResult.needs_review`
  abbrev pub needs_review : ResolutionResult F → Bool
  needs_review r = r.is_ambiguous || is_ambiguous_match r.method

  abbrev hint_place : RawReview F → String → IncomingPlace F
  hint_place raw hint = record {
    name = hint;
    lat = raw.lat;
    lng = raw.lng;
    source = some (source_value raw.source);
    external_id = none;
  }

  -- The match of a hint, its text remembered as an alias where it differs.
  unfoldable pub hint_matched :
      Texts F → RawReview F → String → ℕ → Ingest F → Option (Restaurant F) × Ingest F
  hint_matched texts raw hint id s = elim (find_restaurant id s.work) [
    | none ↦ (none, s)
    | some r ↦ (
      some r,
      if str_eq (texts.resolver.normalize_name hint) r.normalized_name
          then s
          else add_alias texts r.id hint raw.source s,
    )
  ]

  -- The prose itself.
  unfoldable pub named_in_text :
      Texts F → List (CandidateRestaurant F) → String → Ingest F → Option (Restaurant F) × Ingest F
  named_in_text texts candidates body s = elim (resolve_mention texts body candidates) [
    | none ↦ (none, s)
    | some (id, label) ↦ (find_restaurant (texts.id_of id) s.work, s)
  ]

  -- The id of a resolution that reaches the bar.
  unfoldable pub certain_id : ResolutionResult F → Option String
  certain_id r = elim (non_empty r.matched_id) [
    | none ↦ none
    | some id ↦ if le (lit 9 10) r.confidence then some id else none
  ]

  unfoldable pub hint_resolved :
      Texts F
      → City
      → RawReview F
      → String
      → List (CandidateRestaurant F)
      → String
      → ResolutionResult F
      → Ingest F
      → Option (Restaurant F) × Ingest F
  hint_resolved texts city raw hint candidates body r s = elim (certain_id r) [
    | some id ↦ hint_matched texts raw hint (texts.id_of id) s
    | none ↦
        if needs_review r
        then (none, record_conflict texts city hint "unresolved_review_mention" r s)
        else named_in_text texts candidates body s
  ]

  -- `_resolve_review_restaurant`
  unfoldable pub resolve_review_restaurant :
      Texts F
      → City
      → RawReview F
      → List (CandidateRestaurant F)
      → String
      → Ingest F
      → Option (Restaurant F) × Ingest F
  resolve_review_restaurant texts city raw candidates body s =
      elim (non_empty raw.restaurant_hint) [
        | none ↦ named_in_text texts candidates body s
        | some hint ↦
            hint_resolved texts city raw hint candidates body
              (resolve_candidate texts.resolver (hint_place raw hint) candidates) s
      ]

  abbrev pub new_review : Texts F → ℕ → City → RawReview F → Restaurant F → ℕ → Review F
  new_review texts now city raw target id =
      let body = texts.clean_text raw.text in
      record {
        id = id;
        restaurant_id = target.id;
        city_id = city.id;
        user_id = none;
        source = raw.source;
        title = raw.title;
        body = body;
        rating = raw.rating;
        rating_scale = raw.rating_scale;
        source_quality = source_quality_for raw.source true;
        published_at = raw.published_at;
        ingested_at = some now;
        content_hash = texts.review_fingerprint body raw.author raw.published_at;
        simhash = some (texts.signed_simhash body);
        status = ReviewStatus.published;
        ai_state = AiState.pending;
        ai_attempts = 0;
        is_duplicate = false;
        engagement_score = raw.engagement;
        spam_score = nought;
        like_count = 0;
        report_count = 0;
      }

  -- The new row, with its flush, then its source and the restaurant's count.
  unfoldable pub insert_review :
      Texts F
      → ℕ
      → City
      → RawReview F
      → Restaurant F
      → Ingest F
      → Outcome (Option ℕ × Action × Ingest F)
  insert_review texts now city raw target s =
      let id = s.work.next_id in
      flush (record s {
        work = record (s.work) {
          next_id = suc id;
          reviews = s.work.reviews ++ (new_review texts now city raw target id ∷ []);
        };
      })
      >>= λ t. done (
        some id,
        Action.created,
        record t {
          work =
              record (change_restaurant target.id
                (λ r. record r { review_count = r.review_count + 1 }) t.work) {
                  review_sources =
                      t.work.review_sources
                      ++ (record {
                        review_id = id;
                        source = raw.source;
                        external_id = raw.external_id;
                      }
                          ∷ []);
                };
        },
      )

  unfoldable pub insert_resolved :
      Texts F
      → ℕ
      → City
      → RawReview F
      → Option (Restaurant F) × Ingest F
      → Outcome (Option ℕ × Action × Ingest F)
  insert_resolved texts now city raw (none, s) = done (none, Action.skipped, s)
  insert_resolved texts now city raw (some target, s) = insert_review texts now city raw target s

  -- A review that is not known yet, by its source or by its content.
  unfoldable pub store_unknown :
      Texts F
      → ℕ
      → City
      → Option (Restaurant F)
      → List (CandidateRestaurant F)
      → RawReview F
      → Ingest F
      → Outcome (Option ℕ × Action × Ingest F)
  store_unknown texts now city restaurant candidates raw s = elim restaurant [
    | some target ↦ insert_resolved texts now city raw (some target, s)
    | none ↦
        insert_resolved texts now city raw
          (resolve_review_restaurant texts city raw candidates (texts.clean_text raw.text) s)
  ]

  -- The review that is stored already: by its source, else by its content.
  unfoldable pub known_review : Texts F → RawReview F → Ingest F → Option ℕ
  known_review texts raw s =
      elim (find (has_review_key raw.source raw.external_id) s.rows.review_sources) [
        | some k ↦ some k.review_id
        | none ↦
            let print =
              texts.review_fingerprint (texts.clean_text raw.text) raw.author raw.published_at in
            elim (find (λ r. str_eq r.content_hash print) s.rows.reviews) [
              | some r ↦ some r.id
              | none ↦ none
            ]
      ]

  unfoldable pub store_review :
      Texts F
      → ℕ
      → City
      → Option (Restaurant F)
      → List (CandidateRestaurant F)
      → RawReview F
      → Ingest F
      → Outcome (Option ℕ × Action × Ingest F)
  store_review texts now city restaurant candidates raw s =
      let fresh : Outcome (Option ℕ × Action × Ingest F) = elim (known_review texts raw s) [
        | some id ↦ done (some id, Action.skipped, s)
        | none ↦ store_unknown texts now city restaurant candidates raw s
      ] in
      if str_eq (texts.clean_text raw.text) "" then done (none, Action.skipped, s) else fresh
