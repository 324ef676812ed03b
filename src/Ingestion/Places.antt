-- ===== src/Ingestion/Places.antt =====
-- backend/app/ingestion/pipeline.py: `load_candidates`, `candidate_from_place`,
-- `_add_alias`, and the branch of `upsert_place` for a source that is known.
pub mod Upsert
use khaabo.Prelude.{
  ℕ, suc, Bool, true, false, Option, none, some, List, [], ◌∷◌, ◌++◌, map, String, any, find,
  filter, ◌==◌, str_eq, if◌then◌else◌, sort_by, compare_str, is_le,
}
use khaabo.Enums.{SourceType, is_google}
use khaabo.Float.{Float, fmax}
use khaabo.Store.{Restaurant, PlaceDetails, update_where}
use khaabo.EntityResolution.{
  MatchMethod, CandidateRestaurant, IncomingPlace, ResolutionResult, non_empty, resolve_candidate,
}
use khaabo.Ingestion.Model.{
  RawPlace, City, RestaurantSource, RestaurantAlias, EntityConflict, Catalog, Ingest, Outcome, done,
  violates, Texts, source_value, has_key, has_alias, flush, ◌>>=◌,
}
use khaabo.Ingestion.Slugs.{unique_slug}

pub data Action : Type 0 where
  created updated skipped conflict : Action

abbrev pub is_ambiguous_match : MatchMethod → Bool
is_ambiguous_match MatchMethod.ambiguous = true
is_ambiguous_match _ = false

-- `new or old`: an empty text or list, and a zero, count as missing.
abbrev or_text : Option String → Option String → Option String
or_text new old = elim (non_empty new) [ none ↦ old | some t ↦ some t ]

abbrev or_number : Option ℕ → Option ℕ → Option ℕ
or_number none old = old
or_number (some n) old = if n == 0 then old else some n

abbrev or_list : List String → List String → List String
or_list [] old = old
or_list (t ∷ ts) old = t ∷ ts

abbrev renewed_details : PlaceDetails → PlaceDetails → PlaceDetails
renewed_details new old = record {
  address = or_text new.address old.address;
  area = or_text new.area old.area;
  cuisines = or_list new.cuisines old.cuisines;
  price_level = or_number new.price_level old.price_level;
  phone = or_text new.phone old.phone;
  website = or_text new.website old.website;
  opening_hours = or_text new.opening_hours old.opening_hours;
}

module _ {F : Type 0} where
  abbrev pub change_restaurant : ℕ → (Restaurant F → Restaurant F) → Catalog F → Catalog F
  change_restaurant id change c = record c {
    restaurants = update_where (λ r. r.id == id) change c.restaurants;
  }

  abbrev pub find_restaurant : ℕ → Catalog F → Option (Restaurant F)
  find_restaurant id c = find (λ r. r.id == id) c.restaurants

  abbrev pub google_aggregates : RawPlace F → Restaurant F → Restaurant F
  google_aggregates place r =
      if is_google place.source
      then record r { google_rating = place.rating; google_rating_count = place.rating_count }
      else r

  -- `uuid.UUID(id) if id else None`
  abbrev pub conflict_id : Texts F → Option String → Option ℕ
  conflict_id texts id = elim (non_empty id) [ none ↦ none | some t ↦ some (texts.id_of t) ]

  -- On a new session: the collections of a restaurant that is loaded already are not read again.
  unfoldable pub load_candidates : Texts F → ℕ → Ingest F → List (CandidateRestaurant F)
  load_candidates texts city s =
      map
        (λ r. record {
          id = texts.id_text r.id;
          name = r.name;
          normalized_name = r.normalized_name;
          lat = r.lat;
          lng = r.lng;
          aliases =
              map (λ a. a.normalized_alias) (filter (λ a. a.restaurant_id == r.id) s.rows.aliases);
          source_keys =
              map (λ k. (source_value k.source, k.external_id))
                (filter (λ k. k.restaurant_id == r.id) s.rows.sources);
        })
        (filter (λ r. r.city_id == city) s.rows.restaurants)

  unfoldable pub candidate_from_place : Texts F → Restaurant F → RawPlace F → CandidateRestaurant F
  candidate_from_place texts r place = record {
    id = texts.id_text r.id;
    name = r.name;
    normalized_name = r.normalized_name;
    lat = r.lat;
    lng = r.lng;
    aliases = [];
    source_keys = (source_value place.source, place.external_id) ∷ [];
  }

  -- `_add_alias`
  unfoldable pub add_alias : Texts F → ℕ → String → SourceType → Ingest F → Ingest F
  add_alias texts restaurant_id name source s =
      let normalized = texts.resolver.normalize_name name in
      let added = record s {
        work = record (s.work) {
          aliases =
              s.work.aliases
              ++ (record {
                restaurant_id = restaurant_id;
                alias = name;
                normalized_alias = normalized;
                source = source;
              }
                  ∷ []);
        };
      } in
      if str_eq normalized ""
      then s
      else if any (has_alias restaurant_id normalized) s.rows.aliases
      then s
      else added

  abbrev pub payload_hash : Texts F → RawPlace F → String
  payload_hash texts place =
      texts.place_hash place.name place.lat place.lng place.details.address
        (sort_by (λ a b. is_le (compare_str a b)) place.details.cuisines) place.rating
        place.rating_count

  abbrev pub incoming_of : RawPlace F → IncomingPlace F
  incoming_of place = record {
    name = place.name;
    lat = some place.lat;
    lng = some place.lng;
    source = some (source_value place.source);
    external_id = some place.external_id;
  }

  abbrev pub source_of : Texts F → RawPlace F → ℕ → RestaurantSource
  source_of texts place restaurant_id = record {
    restaurant_id = restaurant_id;
    source = place.source;
    external_id = place.external_id;
    content_hash = payload_hash texts place;
  }

  -- The last step: the row that remembers where the restaurant came from.
  unfoldable pub add_source : Texts F → RawPlace F → ℕ → Ingest F → Ingest F
  add_source texts place restaurant_id s = record s {
    work = record (s.work) {
      sources = s.work.sources ++ (source_of texts place restaurant_id ∷ []);
    };
  }

  abbrev renewed : Texts F → ℕ → RawPlace F → Restaurant F → Restaurant F
  renewed texts now place r = record (google_aggregates place r) {
    name = place.name;
    normalized_name = texts.resolver.normalize_name place.name;
    lat = place.lat;
    lng = place.lng;
    details = renewed_details place.details r.details;
    last_ingested_at = some now;
  }

  -- The branch of a source that is known: unchanged, or a change of the restaurant and the source.
  unfoldable pub refresh_place :
      Texts F → ℕ → RawPlace F → RestaurantSource → Ingest F → Option ℕ × Action × Ingest F
  refresh_place texts now place existing s =
      let hash = payload_hash texts place in
      let changed = record s {
        work = record (change_restaurant existing.restaurant_id (renewed texts now place) s.work) {
          sources =
              update_where (has_key place.source place.external_id)
                (λ k. record k { content_hash = hash }) s.work.sources;
        };
      } in
      if str_eq existing.content_hash hash
      then (some existing.restaurant_id, Action.skipped, s)
      else (some existing.restaurant_id, Action.updated, changed)
