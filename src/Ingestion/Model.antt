-- ===== src/Ingestion/Model.antt =====
-- The data of backend/app/ingestion/base.py and pipeline.py, and the rows that ingestion writes
-- (backend/app/models/restaurant.py, review.py, ops.py). The provider's payload (`raw`), URLs,
-- licences and the ids of OpenStreetMap are left out: nothing here reads them again.
pub mod Flush
use khaabo.Prelude.{
  ℕ, Bool, true, not, ◌&&◌, Option, List, [], ◌∷◌, String, any, ◌==◌, str_eq, if◌then◌else◌,
}
use khaabo.Prelude.Int.{ℤ}
use khaabo.Enums.{SourceType, same_source}
use khaabo.Store.{Restaurant, PlaceDetails, Review}
use khaabo.EntityResolution.{Library}

pub record RawPlace (F : Type 0) : Type 0 where
  pub source : SourceType
  pub external_id : String
  pub name : String
  pub lat : F
  pub lng : F
  pub details : PlaceDetails
  pub rating : Option F
  pub rating_count : Option ℕ

-- `rating_scale` is a whole number here.
pub record RawReview (F : Type 0) : Type 0 where
  pub source : SourceType
  pub external_id : String
  pub text : String
  pub published_at : ℕ
  pub title : Option String
  pub author : Option String
  pub rating : Option F
  pub rating_scale : Option ℕ
  pub engagement : ℤ
  pub restaurant_hint : Option String
  pub lat : Option F
  pub lng : Option F

pub record City : Type 0 where
  pub id : ℕ
  pub slug : String
  pub active : Bool

pub record RestaurantSource : Type 0 where
  pub restaurant_id : ℕ
  pub source : SourceType
  pub external_id : String
  pub content_hash : String

pub record RestaurantAlias : Type 0 where
  pub restaurant_id : ℕ
  pub alias : String
  pub normalized_alias : String
  pub source : SourceType

pub record EntityConflict (F : Type 0) : Type 0 where
  pub city_id : ℕ
  pub candidate_a : Option ℕ
  pub candidate_b : Option ℕ
  pub similarity : F
  pub incoming : String
  pub reason : String

pub record ReviewSource : Type 0 where
  pub review_id : ℕ
  pub source : SourceType
  pub external_id : String

pub data JobStatus : Type 0 where
  queued running success failed skipped : JobStatus

pub record IngestCounters : Type 0 where
  pub seen : ℕ
  pub created : ℕ
  pub updated : ℕ
  pub skipped : ℕ
  pub conflicts : ℕ
  pub review_ids : List ℕ

pub record IngestionJob : Type 0 where
  pub source : SourceType
  pub city_id : ℕ
  pub job_key : String
  pub status : JobStatus
  pub items : IngestCounters
  pub error : Option String
  pub finished_at : Option ℕ

pub record Catalog (F : Type 0) : Type 0 where
  pub next_id : ℕ
  pub restaurants : List (Restaurant F)
  pub sources : List RestaurantSource
  pub aliases : List RestaurantAlias
  pub conflicts : List (EntityConflict F)
  pub reviews : List (Review F)
  pub review_sources : List ReviewSource
  pub jobs : List IngestionJob

-- A worker's session (`sync_session`, with `autoflush=False`): the objects as the code has changed
-- them, the rows that queries see, and what the last commit saved.
pub record Ingest (F : Type 0) : Type 0 where
  pub work : Catalog F
  pub rows : Catalog F
  pub saved : Catalog F

-- The UNIQUE constraints of the tables.
pub data Constraint : Type 0 where
  city_slug source_key alias_key content_key review_key job_key : Constraint

-- A step ends, or a flush in it raises `IntegrityError`.
pub data Outcome {ℓ} (A : Type ℓ) : Type ℓ where
  done : A → Outcome A
  violates : Constraint → Outcome A

infixl 5 ◌>>=◌
abbrev pub ◌>>=◌ {ℓ κ} : {A : Type ℓ} {B : Type κ} → Outcome A → (A → Outcome B) → Outcome B
done a >>= g = g a
violates c >>= g = violates c

-- What the code takes from Python's libraries and from backend/app/utils/text.py: the folding of
-- names and texts, SHA-256 over some fields, f-strings, regular expressions, and `uuid`.
pub record Texts (F : Type 0) : Type 0 where
  pub resolver : Library F
  pub slugify : String → String
  -- `f"{base}-{suffix}"`
  pub numbered : String → ℕ → String
  pub clean_text : String → String
  -- `content_hash` of a place's fields, the cuisines sorted
  pub place_hash : String → F → F → Option String → List String → Option F → Option ℕ → String
  pub review_fingerprint : String → Option String → ℕ → String
  pub signed_simhash : String → ℤ
  -- a search for a key between two word boundaries
  pub has_word : String → String → Bool
  -- `str(id)` and `uuid.UUID(text)`
  pub id_text : ℕ → String
  pub id_of : String → ℕ
  -- `f"{source}:{city_slug}:{day}T{hour:02d}"`, and `f"{key}:{kind}"`
  pub key_text : String → String → String → ℕ → Option String → String

abbrev pub source_value : SourceType → String
source_value SourceType.osm = "osm"
source_value SourceType.reddit = "reddit"
source_value SourceType.youtube = "youtube"
source_value SourceType.google = "google"
source_value SourceType.user = "user"
source_value SourceType.manual = "manual"

abbrev pub has_key : SourceType → String → RestaurantSource → Bool
has_key source external_id s = same_source s.source source && str_eq s.external_id external_id

abbrev pub has_review_key : SourceType → String → ReviewSource → Bool
has_review_key source external_id s =
    same_source s.source source && str_eq s.external_id external_id

abbrev pub has_alias : ℕ → String → RestaurantAlias → Bool
has_alias restaurant_id normalized a =
    a.restaurant_id == restaurant_id && str_eq a.normalized_alias normalized

abbrev pub has_slug : {F : Type 0} → ℕ → String → Restaurant F → Bool
has_slug city slug r = r.city_id == city && str_eq r.slug slug

-- No element is like a later one.
abbrev pub no_repeat {ℓ} : {A : Type ℓ} → (A → A → Bool) → List A → Bool
no_repeat like [] = true
no_repeat like (x ∷ xs) = not (any (like x) xs) && no_repeat like xs

module _ {F : Type 0} where
  unfoldable pub slugs_unique : Catalog F → Bool
  slugs_unique c = no_repeat (λ r. has_slug r.city_id r.slug) c.restaurants

  unfoldable pub sources_unique : Catalog F → Bool
  sources_unique c = no_repeat (λ s. has_key s.source s.external_id) c.sources

  unfoldable pub aliases_unique : Catalog F → Bool
  aliases_unique c = no_repeat (λ a. has_alias a.restaurant_id a.normalized_alias) c.aliases

  unfoldable pub contents_unique : Catalog F → Bool
  contents_unique c = no_repeat (λ r s. str_eq s.content_hash r.content_hash) c.reviews

  unfoldable pub review_sources_unique : Catalog F → Bool
  review_sources_unique c = no_repeat (λ s. has_review_key s.source s.external_id) c.review_sources

  unfoldable pub jobs_unique : Catalog F → Bool
  jobs_unique c = no_repeat (λ j k. str_eq k.job_key j.job_key) c.jobs

  -- The changes go to the database, which refuses what breaks a constraint.
  unfoldable pub flush : Ingest F → Outcome (Ingest F)
  flush s =
      if not (slugs_unique s.work)
      then violates city_slug
      else if not (sources_unique s.work)
      then violates source_key
      else if not (aliases_unique s.work)
      then violates alias_key
      else if not (contents_unique s.work)
      then violates content_key
      else if not (review_sources_unique s.work)
      then violates review_key
      else if not (jobs_unique s.work)
      then violates Constraint.job_key
      else done (record s { rows = s.work })

  unfoldable pub commit : Ingest F → Outcome (Ingest F)
  commit s = flush s >>= λ t. done (record t { saved = t.work })

  abbrev pub rollback : Ingest F → Ingest F
  rollback s = record { work = s.saved; rows = s.saved; saved = s.saved }
