-- ===== src/Ingestion/Jobs.antt =====
-- backend/app/workers/ingestion_tasks.py: the claim of a job, its end, and the loop over places.
pub mod Runs
pub mod Claims
pub mod Counts
pub mod Comments
use khaabo.Prelude.{
  ℕ, zero, suc, ◌+◌, ◌-◌, ◌*◌, ◌/◌, ◌%◌, max, Bool, true, false, not, ◌&&◌, Option, none, some,
  List, [], ◌∷◌, ◌++◌, String, any, filter, ◌==◌, str_eq, if◌then◌else◌,
}
use khaabo.Enums.{SourceType, same_source}
use khaabo.Float.{Float}
use khaabo.Trends.{days}
use khaabo.Store.{Restaurant, update_where}
use khaabo.EntityResolution.{CandidateRestaurant}
use khaabo.Ingestion.Model.{
  RawPlace, RawReview, City, IngestCounters, IngestionJob, JobStatus, Catalog, Ingest, Outcome,
  done, violates, Texts, source_value, flush, commit, rollback, ◌>>=◌,
}
use khaabo.Ingestion.Places.{Action, find_restaurant, load_candidates, candidate_from_place}
use khaabo.Ingestion.Places.Upsert.{upsert_place}
use khaabo.Ingestion.Evidence.{store_review}

-- The date as text, the hour, and the clock.
pub record Clock : Type 0 where
  pub day : String
  pub hour : ℕ
  pub now : ℕ

abbrev pub no_counters : IngestCounters
no_counters = record {
  seen = 0;
  created = 0;
  updated = 0;
  skipped = 0;
  conflicts = 0;
  review_ids = [];
}

unfoldable pub bucket_hour : ℕ → ℕ → ℕ
bucket_hour hour interval = hour / max 1 interval * max 1 interval

abbrev pub is_success : JobStatus → Bool
is_success JobStatus.success = true
is_success _ = false

abbrev latest : List IngestionJob → Option ℕ
latest [] = none
latest (j ∷ js) = elim (latest js) [
  | none ↦ j.finished_at
  | some t ↦ elim j.finished_at [ none ↦ some t | some u ↦ some (max t u) ]
]

module _ {F : Type 0} where
  -- `_job_key`
  unfoldable pub job_key : Texts F → Clock → SourceType → City → ℕ → Option String → String
  job_key texts clock source city interval kind =
      texts.key_text (source_value source) city.slug clock.day (bucket_hour clock.hour interval)
        kind

  abbrev pub running_job : Texts F → SourceType → City → String → IngestionJob
  running_job texts source city key = record {
    source = source;
    city_id = city.id;
    job_key = key;
    status = JobStatus.running;
    items = no_counters;
    error = none;
    finished_at = none;
  }

  abbrev pub claim_end : Ingest F → Outcome (Ingest F) → Bool × Ingest F
  claim_end s (done t) = (true, t)
  claim_end s (violates c) = (false, rollback s)

  -- `_claim_job`: whether the job is claimed.
  unfoldable pub claim_job : Texts F → SourceType → City → String → Ingest F → Bool × Ingest F
  claim_job texts source city key s = claim_end s (
      flush (record s {
        work = record (s.work) { jobs = s.work.jobs ++ (running_job texts source city key ∷ []) };
      }))

  -- `_finish_job`
  unfoldable pub finish_job :
      ℕ → String → IngestCounters → JobStatus → Option String → Ingest F → Ingest F
  finish_job now key counters status error s = record s {
    work = record (s.work) {
      jobs =
          update_where (λ j. str_eq j.job_key key)
            (λ j. record j {
              status = status;
              items = counters;
              error = error;
              finished_at = some now;
            })
            s.work.jobs;
    };
  }

  abbrev successes : SourceType → City → Ingest F → List IngestionJob
  successes source city s =
      filter (λ j. same_source j.source source && j.city_id == city.id && is_success j.status)
        s.rows.jobs

  -- `_last_success_at`, of jobs that have all ended.
  unfoldable pub last_success_at : ℕ → SourceType → City → Ingest F → ℕ
  last_success_at now source city s = elim (latest (successes source city s)) [
    | none ↦ now - days 90
    | some t ↦ t - 2 * (days 1 / 24)
  ]

  -- `prune_jobs`: the successful jobs that were created before the cutoff go.
  unfoldable pub prune_jobs : (IngestionJob → Bool) → Ingest F → Ingest F
  prune_jobs is_old s =
      let keep : IngestionJob → Bool = λ j. if is_success j.status then not (is_old j) else true in
      record s {
        work = record (s.work) { jobs = filter keep s.work.jobs };
        rows = record (s.rows) { jobs = filter keep s.rows.jobs };
      }

abbrev pub count_action : Action → IngestCounters → IngestCounters
count_action Action.created c = record c { created = c.created + 1 }
count_action Action.updated c = record c { updated = c.updated + 1 }
count_action Action.conflict c = record c { conflicts = c.conflicts + 1; skipped = c.skipped + 1 }
count_action Action.skipped c = record c { skipped = c.skipped + 1 }

abbrev pub is_created : Action → Bool
is_created Action.created = true
is_created _ = false

abbrev pub count_review : Action → Option ℕ → IngestCounters → IngestCounters
count_review Action.created none c = record c { created = c.created + 1 }
count_review Action.created (some id) c = record c {
  created = c.created + 1;
  review_ids = c.review_ids ++ (id ∷ []);
}
count_review _ id c = record c { skipped = c.skipped + 1 }

-- What a sweep carries from place to place.
pub record Sweep (F : Type 0) : Type 0 where
  pub counters : IngestCounters
  pub candidates : List (CandidateRestaurant F)
  pub session : Ingest F

-- How the candidates follow the creation of a restaurant.
abbrev pub Follow : Type 0 → Type 0
Follow F = RawPlace F → Option ℕ → Sweep F → Outcome (Sweep F)

module _ {F : Type 0} ⦃f : Float F⦄ (texts : Texts F) where
  -- The ORM's answer to a second `load_candidates`, which may hold what it loaded before.
  module _ (reload : Ingest F → List (CandidateRestaurant F)) where
    unfoldable pub follow_osm : Follow F
    follow_osm place id w = done (record w { candidates = reload w.session })

    abbrev pub appended : RawPlace F → Option ℕ → Sweep F → Sweep F
    appended place none w = w
    appended place (some id) w = elim (find_restaurant id w.session.work) [
      | none ↦ w
      | some r ↦ record w { candidates = w.candidates ++ (candidate_from_place texts r place ∷ []) }
    ]

    -- `_GOOGLE_CANDIDATE_RELOAD_EVERY` is 2000.
    unfoldable pub follow_google : Follow F
    follow_google place id w =
        let renewed =
          flush w.session >>= λ t. done (record w { candidates = reload t; session = t }) in
        if w.counters.created % 2000 == 0 then renewed else done (appended place id w)

  -- One place: `i` counts from 1, and each hundredth commits.
  unfoldable pub sweep_place : Follow F → ℕ → City → ℕ → RawPlace F → Sweep F → Outcome (Sweep F)
  sweep_place follow now city i place w =
      upsert_place texts now city w.candidates place w.session >>= λ q.
      let counted : Sweep F = record w { counters = count_action q.1 w.counters; session = q.2 } in
      (if is_created q.1 then follow place q.0 counted else done counted) >>= λ v.
      (if i % 100 == 0 then commit v.session else done v.session) >>= λ t.
      done (record v { session = t })

  unfoldable pub sweep_places :
      Follow F → ℕ → City → ℕ → List (RawPlace F) → Sweep F → Outcome (Sweep F)
  sweep_places follow now city i [] w = done w
  sweep_places follow now city i (p ∷ ps) w =
      sweep_place follow now city i p w >>= λ v. sweep_places follow now city (suc i) ps v

  -- The loop of `fetch_reviews`.
  unfoldable pub store_reviews :
      ℕ
      → City
      → List (CandidateRestaurant F)
      → List (RawReview F)
      → IngestCounters
      → Ingest F
      → Outcome (IngestCounters × Ingest F)
  store_reviews now city candidates [] c s = done (c, s)
  store_reviews now city candidates (raw ∷ raws) c s =
      store_review texts now city none candidates raw s >>= λ q.
      store_reviews now city candidates raws (count_review q.1 q.0 c) q.2
