-- ===== src/Ingestion/Jobs/Runs/Retries.antt =====
-- What a task leaves for the run after it.
use khaabo.Prelude.{ℕ, ◌≡◌, refl, sym, ap, ◌∙◌, Bool, true, false, Option, none, some, List, String}
use khaabo.Enums.{SourceType}
use khaabo.Float.{Float}
use khaabo.EntityResolution.{CandidateRestaurant}
use khaabo.Ingestion.Model.{
  RawPlace, City, JobStatus, Ingest, Outcome, done, violates, Texts, commit, rollback,
}
use khaabo.Ingestion.Model.Flush.{commit-eq}
use khaabo.Ingestion.Jobs.{Clock, Sweep, no_counters, claim_job, finish_job}
use khaabo.Ingestion.Jobs.Claims.{
  holds_job, claim_job_taken, claim_job_won, holds_job-with_job, holds_job-finish_job,
}
use khaabo.Ingestion.Jobs.Runs.{
  Fetched, items, permanent, transient, CityReport, CityEnd, next, retried, skipped_duplicate,
  open_ingest, ended, failed_job, on_transient, proceed, claimed_city, osm_key, osm_body,
  sweep_ended, discover_city, finished,
}

module _ {F : Type 0} (texts : Texts F) (source : SourceType) (city : City) (key : String) where
  -- A job whose key is taken does not run.
  pub claimed_city_taken :
      (body : Ingest F → CityEnd F) (s : Ingest F)
      → holds_job key s.work ≡ true
      → claimed_city texts source city key body s ≡ next (some skipped_duplicate) (rollback s)
  unfolding claimed_city proceed
  claimed_city_taken body s h = ap (proceed body) (claim_job_taken texts source city key s h)

  won_body :
      (body : Ingest F → CityEnd F) (q : Bool × Ingest F) (t : Ingest F)
      → proceed body q ≡ retried t
      → (q ≡ (true, q.1)) × (body q.1 ≡ retried t)
  unfolding proceed
  won_body body (true, u) t h = (refl, h)
  won_body body (false, u) t h = cc

  pub claimed_city_retried :
      (body : Ingest F → CityEnd F) (s t : Ingest F)
      → claimed_city texts source city key body s ≡ retried t
      → (u : Ingest F) × (body u ≡ retried t) × (holds_job key u.work ≡ true)
  unfolding claimed_city proceed
  claimed_city_retried body s t h =
      let (won, ran) = won_body body (claim_job texts source city key s) t h in
      let u = (claim_job texts source city key s).1 in
      let e = claim_job_won texts source city key s u won in
      (u, ran, ap (λ v. holds_job key v.work) e ∙ holds_job-with_job texts source city key s)

module _ {F : Type 0} (now : ℕ) (key message : String) (u t : Ingest F) where
  committed :
      (o : Outcome (Ingest F))
      → commit (failed_job now key message u) ≡ o
      → ended (λ v. retried v) o ≡ retried t
      → holds_job key u.work ≡ true
      → holds_job key t.saved ≡ true
  committed (done v) e k had =
      let same : v ≡ t = cc in
      ap (λ (w : Ingest F). holds_job key w.saved)
        (sym same ∙ commit-eq (failed_job now key message u) v e)
      ∙ holds_job-finish_job now key key no_counters JobStatus.failed (some message) u
      ∙ had
  committed (violates c) e k had = cc

  holds_job-on_transient :
      on_transient now key message u ≡ retried t
      → holds_job key u.work ≡ true
      → holds_job key t.saved ≡ true
  holds_job-on_transient h had = committed (commit (failed_job now key message u)) refl h had

module _ {F : Type 0} ⦃f : Float F⦄ (texts : Texts F) (clock : Clock) (interval : ℕ)
    (fetch : City → Fetched (RawPlace F))
    (reload : City → Ingest F → List (CandidateRestaurant F)) where
  not_retried :
      {P : Type 0} {r : Option CityReport} {u t : Ingest F}
      → ◌≡◌ {A = CityEnd F} (next r u) (retried t)
      → P
  not_retried h = cc

  sweep_ended-ne-retried :
      {P : Type 0} (key : String) (o : Outcome (Sweep F)) (t : Ingest F)
      → sweep_ended texts clock key o ≡ retried t
      → P
  sweep_ended-ne-retried {P = P} key (violates c) t h = cc
  sweep_ended-ne-retried {P = P} key (done w) t h =
      elim (commit w.session)
          as (λ o.
            ended
                (λ v.
                  next (some (finished w.counters))
                    (finish_job clock.now key w.counters JobStatus.success none v))
                o
              ≡ retried t
            → P) [ done v ↦ λ k. cc | violates c ↦ λ k. cc ]
        h

  holds_job-osm_body :
      (city : City) (o : Fetched (RawPlace F)) (u t : Ingest F)
      → osm_body texts clock interval reload city o u ≡ retried t
      → holds_job (osm_key texts clock interval city) u.work ≡ true
      → holds_job (osm_key texts clock interval city) t.saved ≡ true
  holds_job-osm_body city (items places) u t h had = sweep_ended-ne-retried _ _ t h
  holds_job-osm_body city (permanent e) u t h had = not_retried h
  holds_job-osm_body city (transient e) u t h had = holds_job-on_transient clock.now _ e u t h had

  -- Where `discover_places` leaves a city by `retry`, because the adapter raised a transient error,
  -- the run that Celery starts again on the tables as they are, at any later time that gives the same
  -- key, finds the key of the failed job taken: it reports `skipped_duplicate`, whatever the adapter
  -- would return.
  pub discover_city_retry :
      (later : Clock) (again : City → Fetched (RawPlace F)) (city : City) (s t : Ingest F)
      → osm_key texts later interval city ≡ osm_key texts clock interval city
      → discover_city texts clock interval fetch reload city s ≡ retried t
      → discover_city texts later interval again reload city (open_ingest t.saved)
        ≡ next (some skipped_duplicate) (open_ingest t.saved)
  unfolding discover_city
  discover_city_retry later again city s t same h =
      let (u, ran, had) =
        claimed_city_retried texts SourceType.osm city (osm_key texts clock interval city) _ s t
          h in
      claimed_city_taken texts SourceType.osm city (osm_key texts later interval city) _
        (open_ingest t.saved)
        (ap (λ (key : String). holds_job key t.saved) same
          ∙ holds_job-osm_body city (fetch city) u t ran had)
