-- ===== src/Ingestion/Places/Upsert.antt =====
-- backend/app/ingestion/pipeline.py: `upsert_place`.
pub mod Repeat
use khaabo.Prelude.{
  ℕ, suc, Option, none, some, List, [], ◌∷◌, ◌++◌, String, find, str_eq, if◌then◌else◌,
}
use khaabo.Float.{Float, fmax}
use khaabo.Store.{Restaurant}
use khaabo.EntityResolution.{CandidateRestaurant, ResolutionResult, non_empty, resolve_candidate}
use khaabo.Ingestion.Model.{
  RawPlace, City, RestaurantSource, Ingest, Outcome, done, Texts, has_key, flush, ◌>>=◌,
}
use khaabo.Ingestion.Slugs.{unique_slug}
use khaabo.Ingestion.Places.{
  Action, is_ambiguous_match, change_restaurant, find_restaurant, google_aggregates, conflict_id,
  add_alias, incoming_of, add_source, refresh_place,
}

module _ {F : Type 0} ⦃f : Float F⦄ where
  unfoldable pub record_conflict :
      Texts F → City → String → String → ResolutionResult F → Ingest F → Ingest F
  record_conflict texts city incoming reason r s = record s {
    work = record (s.work) {
      conflicts =
          s.work.conflicts
          ++ (record {
            city_id = city.id;
            candidate_a = conflict_id texts r.matched_id;
            candidate_b = conflict_id texts r.runner_up_id;
            similarity = r.similarity;
            incoming = incoming;
            reason = reason;
          }
              ∷ []);
    };
  }

  abbrev new_restaurant : Texts F → ℕ → City → RawPlace F → F → Ingest F → Restaurant F
  new_restaurant texts now city place confidence s = google_aggregates place (record {
    id = s.work.next_id;
    city_id = city.id;
    name = place.name;
    slug = unique_slug texts city.id place.name s.rows.restaurants;
    normalized_name = texts.resolver.normalize_name place.name;
    lat = place.lat;
    lng = place.lng;
    details = place.details;
    data_confidence = confidence;
    review_count = 0;
    google_rating = none;
    google_rating_count = none;
    last_ingested_at = some now;
  })

  -- `session.add(restaurant)`, and its flush
  unfoldable pub create_restaurant :
      Texts F → ℕ → City → RawPlace F → F → Ingest F → Outcome (Ingest F)
  create_restaurant texts now city place confidence s = flush (record s {
    work = record (s.work) {
      next_id = suc (s.work.next_id);
      restaurants = s.work.restaurants ++ (new_restaurant texts now city place confidence s ∷ []);
    };
  })

  -- The branch of a resolution that names a restaurant.
  unfoldable pub match_restaurant :
      Texts F → ℕ → RawPlace F → F → Restaurant F → Ingest F → Ingest F
  match_restaurant texts now place confidence r s =
      let seen = record s {
        work =
            change_restaurant r.id
              (λ x. record (google_aggregates place x) {
                last_ingested_at = some now;
                data_confidence = fmax x.data_confidence confidence;
              })
              s.work;
      } in
      if str_eq (texts.resolver.normalize_name place.name) r.normalized_name
      then seen
      else add_alias texts r.id place.name place.source seen

  unfoldable pub place_made :
      Texts F → ℕ → City → RawPlace F → F → Ingest F → Outcome (Option ℕ × Action × Ingest F)
  place_made texts now city place confidence s =
      create_restaurant texts now city place confidence s >>= λ t.
      done (some s.work.next_id, Action.created, add_source texts place s.work.next_id t)

  unfoldable pub place_matched :
      Texts F → ℕ → RawPlace F → F → ℕ → Ingest F → Option ℕ × Action × Ingest F
  place_matched texts now place confidence id s = elim (find_restaurant id s.work) [
    | none ↦ (none, Action.skipped, s)
    | some r ↦ (
      some r.id,
      Action.updated,
      add_source texts place r.id (match_restaurant texts now place confidence r s),
    )
  ]

  unfoldable pub place_unambiguous :
      Texts F
      → ℕ
      → City
      → RawPlace F
      → ResolutionResult F
      → Ingest F
      → Outcome (Option ℕ × Action × Ingest F)
  place_unambiguous texts now city place r s = elim (non_empty r.matched_id) [
    | none ↦ place_made texts now city place r.confidence s
    | some id ↦ done (place_matched texts now place r.confidence (texts.id_of id) s)
  ]

  unfoldable pub place_resolved :
      Texts F
      → ℕ
      → City
      → RawPlace F
      → ResolutionResult F
      → Ingest F
      → Outcome (Option ℕ × Action × Ingest F)
  place_resolved texts now city place r s =
      let resolved = place_unambiguous texts now city place r s in
      if is_ambiguous_match r.method
      then done (none, Action.conflict, record_conflict texts city place.name "ambiguous_match" r s)
      else resolved

  -- The object that a query returns is the session's own, with its changes.
  abbrev pub loaded : RawPlace F → RestaurantSource → Ingest F → RestaurantSource
  loaded place row s = elim (find (has_key place.source place.external_id) s.work.sources) [
    | none ↦ row
    | some k ↦ k
  ]

  unfoldable pub upsert_place :
      Texts F
      → ℕ
      → City
      → List (CandidateRestaurant F)
      → RawPlace F
      → Ingest F
      → Outcome (Option ℕ × Action × Ingest F)
  upsert_place texts now city candidates place s =
      elim (find (has_key place.source place.external_id) s.rows.sources) [
        | some row ↦ done (refresh_place texts now place (loaded place row s) s)
        | none ↦
            place_resolved texts now city place
              (resolve_candidate texts.resolver (incoming_of place) candidates) s
      ]
