-- ===== src/Ingestion/Jobs/Runs.antt =====
-- backend/app/workers/ingestion_tasks.py: the tasks `discover_places`, `discover_google_places` and
-- `fetch_reviews`. The adapters are parameters: what they return or raise for a city.
pub mod Retries
pub mod Lost
use khaabo.Prelude.{
  ℕ, ◌-◌, Bool, true, false, Option, none, some, List, [], ◌∷◌, ◌++◌, String, any, filter, ltb,
  length, str_eq, if◌then◌else◌,
}
use khaabo.Enums.{SourceType}
use khaabo.Float.{Float}
use khaabo.Trends.{days}
use khaabo.EntityResolution.{CandidateRestaurant}
use khaabo.Ingestion.Model.{
  RawPlace, RawReview, City, IngestCounters, JobStatus, Ingest, Catalog, Outcome, done, violates,
  Constraint, Texts, commit,
}
use khaabo.Ingestion.Places.{load_candidates}
use khaabo.Ingestion.Jobs.{
  Clock, Sweep, Follow, no_counters, job_key, claim_job, finish_job, last_success_at, follow_osm,
  follow_google, sweep_places, store_reviews,
}

-- An adapter returns its items, or raises `PermanentSourceError` or `TransientSourceError`.
pub data Fetched (A : Type 0) : Type 0 where
  items : List A → Fetched A
  permanent transient : String → Fetched A

-- An entry of `totals`.
pub data CityReport : Type 0 where
  skipped_duplicate : CityReport
  finished : IngestCounters → CityReport

-- A city's part of a task: it goes on to the next city, or leaves by `retry` or an `IntegrityError`.
pub data CityEnd (F : Type 0) : Type 0 where
  next : Option CityReport → Ingest F → CityEnd F
  retried : Ingest F → CityEnd F
  broken : Constraint → CityEnd F

-- A task's end, with the tables that it leaves. After an `IntegrityError` they are what the last
-- commit saved, which is not followed here.
pub data TaskEnd (F : Type 0) : Type 0 where
  disabled : TaskEnd F
  returned : List (String × CityReport) → Catalog F → TaskEnd F
  retry : Catalog F → TaskEnd F
  integrity_error : Constraint → TaskEnd F

abbrev pub chosen_cities : Option String → List City → List City
chosen_cities slug cities = elim slug [
  | none ↦ filter (λ c. c.active) cities
  | some t ↦ filter (λ c. str_eq c.slug t) (filter (λ c. c.active) cities)
]

abbrev pub report : City → Option CityReport → List (String × CityReport)
report city none = []
report city (some r) = (city.slug, r) ∷ []

-- `any(v.get("created") for v in totals.values())`
abbrev has_created : String × CityReport → Bool
has_created (slug, skipped_duplicate) = false
has_created (slug, finished c) = ltb 0 c.created

module _ {F : Type 0} where
  unfoldable pub wakes_processing : TaskEnd F → Bool
  wakes_processing (returned totals c) = any has_created totals
  wakes_processing _ = false

  -- `sync_session`: a new session, a commit at the end, and a rollback on an exception.
  abbrev pub open_ingest : Catalog F → Ingest F
  open_ingest c = record { work = c; rows = c; saved = c }

  unfoldable pub close_ingest : List (String × CityReport) → Ingest F → TaskEnd F
  close_ingest totals s = elim (commit s) [
    | done t ↦ returned totals t.saved
    | violates c ↦ integrity_error c
  ]

  -- The loop over the cities.
  unfoldable pub run_cities :
      (City → Ingest F → CityEnd F) → List City → List (String × CityReport) → Ingest F → TaskEnd F
  run_cities step [] totals s = close_ingest totals s
  run_cities step (city ∷ cities) totals s = elim (step city s) [
    | next r t ↦ run_cities step cities (totals ++ report city r) t
    | retried t ↦ retry t.saved
    | broken c ↦ integrity_error c
  ]

  -- Where the adapter raised, before anything was counted, the job has failed.
  abbrev pub failed_job : ℕ → String → String → Ingest F → Ingest F
  failed_job now key message s = finish_job now key no_counters JobStatus.failed (some message) s

  abbrev pub ended : (Ingest F → CityEnd F) → Outcome (Ingest F) → CityEnd F
  ended k (done s) = k s
  ended k (violates c) = broken c

  abbrev pub on_transient : ℕ → String → String → Ingest F → CityEnd F
  on_transient now key message s = ended (λ t. retried t) (commit (failed_job now key message s))

  -- A job that is claimed runs; one that is claimed already does not.
  unfoldable pub proceed : (Ingest F → CityEnd F) → Bool × Ingest F → CityEnd F
  proceed body (true, t) = body t
  proceed body (false, t) = next (some skipped_duplicate) t

  unfoldable pub claimed_city :
      Texts F → SourceType → City → String → (Ingest F → CityEnd F) → Ingest F → CityEnd F
  claimed_city texts source city key body s = proceed body (claim_job texts source city key s)

module _ {F : Type 0} ⦃f : Float F⦄ (texts : Texts F) (clock : Clock) where
  -- The end of a sweep: its commit, and the job's success, which waits for the next commit.
  abbrev pub sweep_ended : String → Outcome (Sweep F) → CityEnd F
  sweep_ended key (violates c) = broken c
  sweep_ended key (done w) =
      ended
        (λ t.
          next (some (finished w.counters))
            (finish_job clock.now key w.counters JobStatus.success none t))
        (commit w.session)

  abbrev swept : Follow F → City → String → List (RawPlace F) → Ingest F → CityEnd F
  swept follow city key places s = sweep_ended key (
      sweep_places texts follow clock.now city 1 places (record {
        counters = record no_counters { seen = length places };
        candidates = load_candidates texts city.id s;
        session = s;
      }))

  abbrev pub osm_key : ℕ → City → String
  osm_key interval city = job_key texts clock SourceType.osm city interval none

  module _ (interval : ℕ) (reload : City → Ingest F → List (CandidateRestaurant F)) where
    abbrev pub osm_body : City → Fetched (RawPlace F) → Ingest F → CityEnd F
    osm_body city (items places) s =
        swept (follow_osm texts (reload city)) city (osm_key interval city) places s
    osm_body city (permanent e) s = next none (failed_job clock.now (osm_key interval city) e s)
    osm_body city (transient e) s = on_transient clock.now (osm_key interval city) e s

  module _ (interval : ℕ) (fetch : City → Fetched (RawPlace F))
      (reload : City → Ingest F → List (CandidateRestaurant F)) where
    unfoldable pub discover_city : City → Ingest F → CityEnd F
    discover_city city =
        claimed_city texts SourceType.osm city (osm_key interval city)
          (osm_body interval reload city (fetch city))

    unfoldable pub discover_places : Bool → List City → Option String → Catalog F → TaskEnd F
    discover_places enabled cities slug c =
        let chosen = chosen_cities slug cities in
        run_cities discover_city (if enabled then chosen else []) [] (open_ingest c)

  module _ (interval : ℕ) (offset : Bool) (fetch : City → Bool → Fetched (RawPlace F))
      (reload : City → Ingest F → List (CandidateRestaurant F)) where
    abbrev pub google_key : City → String
    google_key city =
        job_key texts clock SourceType.google city interval
          (some (if offset then "discover_places_offset" else "discover_places"))

    unfoldable pub discover_google_city : City → Ingest F → CityEnd F
    discover_google_city city = claimed_city texts SourceType.google city (google_key city) λ s.
        elim (fetch city offset) [
          | items places ↦ swept (follow_google texts (reload city)) city (google_key city) places s
          | permanent e ↦
              ended (λ t. next none t) (commit (failed_job clock.now (google_key city) e s))
          | transient e ↦ on_transient clock.now (google_key city) e s
        ]

    unfoldable pub discover_google_places : Bool → List City → Option String → Catalog F → TaskEnd F
    discover_google_places enabled cities slug c =
        let ran = run_cities discover_google_city (chosen_cities slug cities) [] (open_ingest c) in
        if enabled then ran else disabled

  abbrev pub fetch_key : SourceType → ℕ → City → String
  fetch_key source interval city = job_key texts clock source city interval none

  module _ (source : SourceType) (interval : ℕ) where
    abbrev pub stored : City → Outcome (IngestCounters × Ingest F) → CityEnd F
    stored city (violates c) = broken c
    stored city (done (c, s)) =
        next (some (finished c))
          (finish_job clock.now (fetch_key source interval city) c JobStatus.success none s)

    abbrev pub fetch_body : City → Fetched (RawReview F) → Ingest F → CityEnd F
    fetch_body city (items raws) s = stored city (
        store_reviews texts clock.now city (load_candidates texts city.id s) raws
          (record no_counters { seen = length raws }) s)
    fetch_body city (permanent e) s =
        next none (failed_job clock.now (fetch_key source interval city) e s)
    fetch_body city (transient e) s = on_transient clock.now (fetch_key source interval city) e s

  module _ (source : SourceType) (interval : ℕ) (lookback_days : Option ℕ)
      (fetch : City → ℕ → Fetched (RawReview F)) where
    abbrev since_of : City → Ingest F → ℕ
    since_of city s = elim lookback_days [
      | none ↦ last_success_at clock.now source city s
      | some n ↦ clock.now - days n
    ]

    unfoldable pub fetch_city : City → Ingest F → CityEnd F
    fetch_city city =
        claimed_city texts source city (fetch_key source interval city)
          (λ s. fetch_body source interval city (fetch city (since_of city s)) s)

    unfoldable pub fetch_reviews : Bool → List City → Option String → Catalog F → TaskEnd F
    fetch_reviews enabled cities slug c =
        let ran = run_cities fetch_city (chosen_cities slug cities) [] (open_ingest c) in
        if enabled then ran else disabled
