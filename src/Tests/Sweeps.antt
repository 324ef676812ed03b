-- ===== src/Tests/Sweeps.antt =====
-- The worker's runs on the small catalog.
use khaabo.Prelude.{ℕ, ◌≡◌, refl, true, none, some, List, [], ◌∷◌}
use khaabo.Prelude.Int.{ℤ}
use khaabo.Float.Fixed.{fixed_float}
use khaabo.Enums.{SourceType}
use khaabo.EntityResolution.{CandidateRestaurant}
use khaabo.Ingestion.Model.{
  RawPlace, RawReview, City, Catalog, Ingest, flush, commit, slugs_unique, sources_unique,
  aliases_unique, contents_unique, review_sources_unique, jobs_unique,
}
use khaabo.Ingestion.Mentions.{single_hit, hits_from, mention_hits, resolve_mention}
use khaabo.Ingestion.Places.{load_candidates}
use khaabo.Ingestion.Evidence.{
  known_review, named_in_text, resolve_review_restaurant, insert_review, insert_resolved,
  store_unknown, store_review,
}
use khaabo.Ingestion.Jobs.{
  Clock, no_counters, running_job, bucket_hour, job_key, claim_job, finish_job, last_success_at,
  store_reviews,
}
use khaabo.Ingestion.Jobs.Claims.{holds_job}
use khaabo.Ingestion.Jobs.Runs.{
  Fetched, items, transient, CityReport, finished, CityEnd, next, retried, broken,
  skipped_duplicate, osm_key, open_ingest, close_ingest, run_cities, proceed, claimed_city,
  fetch_key, fetch_city, discover_city,
}
use khaabo.Ingestion.Jobs.Runs.Retries.{discover_city_retry}
use khaabo.Ingestion.Jobs.Runs.Lost.{fetch_reviews_lost}
use khaabo.Tests.Ingestion.{texts, city, catalog, session, place, comment}

abbrev no_reload : Ingest ℤ → List (CandidateRestaurant ℤ)
no_reload s = []

abbrev clock : Clock
clock = record { day = "2026-01-01"; hour = 9; now = 5 }

abbrev outage : City → Fetched (RawPlace ℤ)
outage c = transient "timeout"

abbrev end_of : CityEnd ℤ → Ingest ℤ
end_of (next r s) = s
end_of (retried s) = s
end_of (broken c) = session

abbrev after_outage : Ingest ℤ
after_outage = end_of (discover_city texts clock 24 outage (λ c. no_reload) city session)

discover_city-run :
    discover_city texts clock 24 outage (λ c. no_reload) city session ≡ retried after_outage
unfolding discover_city claimed_city proceed claim_job finish_job commit flush slugs_unique
    sources_unique aliases_unique contents_unique review_sources_unique jobs_unique job_key
    bucket_hour
discover_city-run = refl

-- Nine hours later, and in the same day's bucket of 24 hours.
abbrev evening : Clock
evening = record { day = "2026-01-01"; hour = 18; now = 50 }

same_key : osm_key texts evening 24 city ≡ osm_key texts clock 24 city
unfolding job_key bucket_hour
same_key = refl

discover_city_retry_example :
    discover_city texts evening 24
      (λ c. items (place ∷ []))
      (λ c. no_reload)
      city
      (open_ingest after_outage.saved)
    ≡ next (some skipped_duplicate) (open_ingest after_outage.saved)
discover_city_retry_example =
    discover_city_retry texts clock 24 outage (λ c. no_reload) evening (λ c. items (place ∷ []))
      city session after_outage same_key discover_city-run

-- A comment that names the restaurant, and another city whose job runs.
abbrev fetch : City → ℕ → Fetched (RawReview ℤ)
fetch c since = items (record comment { text = "Wow Momo" } ∷ [])

abbrev other : City
other = record { id = 4; slug = "mumbai"; active = true }

abbrev busy : Catalog ℤ
busy = record catalog { jobs = running_job texts SourceType.youtube other "mumbai" ∷ [] }

abbrev fetched : Ingest ℤ
fetched = end_of (fetch_city texts clock SourceType.youtube 6 none fetch city (open_ingest busy))

abbrev fetched_report : CityReport
fetched_report = finished (record no_counters { seen = 1; created = 1; review_ids = 20 ∷ [] })

fetch_city-run :
    fetch_city texts clock SourceType.youtube 6 none fetch city (open_ingest busy)
    ≡ next (some fetched_report) fetched
unfolding fetch_city claimed_city proceed claim_job finish_job flush slugs_unique sources_unique
    aliases_unique contents_unique review_sources_unique jobs_unique job_key bucket_hour
    store_reviews store_review last_success_at known_review store_unknown insert_resolved
    resolve_review_restaurant named_in_text resolve_mention load_candidates single_hit mention_hits
    hits_from insert_review
fetch_city-run = refl

taken : holds_job (fetch_key texts clock SourceType.youtube 6 other) fetched.work ≡ true
unfolding fetch_city claimed_city proceed claim_job finish_job flush slugs_unique sources_unique
    aliases_unique contents_unique review_sources_unique jobs_unique job_key bucket_hour
    store_reviews store_review last_success_at known_review store_unknown insert_resolved
    resolve_review_restaurant named_in_text resolve_mention load_candidates single_hit mention_hits
    hits_from insert_review
taken = refl

fetch_reviews_lost_example :
    run_cities
      (fetch_city texts clock SourceType.youtube 6 none fetch)
      (city ∷ other ∷ [])
      []
      (open_ingest busy)
    ≡ close_ingest
        (("kolkata", fetched_report) ∷ ("mumbai", skipped_duplicate) ∷ [])
        (open_ingest busy)
fetch_reviews_lost_example =
    fetch_reviews_lost texts clock SourceType.youtube 6 none fetch city other fetched_report busy
      fetched fetch_city-run taken
