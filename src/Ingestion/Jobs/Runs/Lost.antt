-- ===== src/Ingestion/Jobs/Runs/Lost.antt =====
-- `fetch_reviews` commits nothing before its end, so a claim that fails takes back all of it.
use khaabo.Prelude.{
  ℕ, ◌≡◌, refl, sym, ap, ◌∙◌, Bool, true, false, Option, none, some, List, [], ◌∷◌, ◌++◌, String,
}
use khaabo.Enums.{SourceType}
use khaabo.Float.{Float}
use khaabo.EntityResolution.{CandidateRestaurant}
use khaabo.Ingestion.Model.{
  RawReview, City, IngestCounters, Catalog, Ingest, Outcome, done, violates, Texts, commit,
  rollback,
}
use khaabo.Ingestion.Model.Flush.{>>=-eq-done, done-injective}
use khaabo.Ingestion.Evidence.{store_review}
use khaabo.Ingestion.Jobs.{Clock, claim_job, finish_job, store_reviews}
use khaabo.Ingestion.Jobs.Claims.{holds_job, saved-claim_job}
use khaabo.Ingestion.Jobs.Runs.{
  Fetched, items, permanent, transient, CityReport, CityEnd, next, retried, skipped_duplicate,
  report, open_ingest, close_ingest, run_cities, ended, proceed, claimed_city, fetch_key,
  fetch_body, stored, fetch_city,
}
use khaabo.Ingestion.Jobs.Runs.Retries.{claimed_city_taken}
use khaabo.Ingestion.Evidence.Saved.{saved-store_review}

next_session :
    {F : Type 0} {r q : Option CityReport} {s t : Ingest F}
    → ◌≡◌ {A = CityEnd F} (next r s) (next q t)
    → s ≡ t
next_session h = cc

run_cities_next :
    {F : Type 0} (step : City → Ingest F → CityEnd F) (city : City) (cities : List City)
    (totals : List (String × CityReport)) (s : Ingest F) (r : Option CityReport) (t : Ingest F)
    → step city s ≡ next r t
    → run_cities step (city ∷ cities) totals s ≡ run_cities step cities (totals ++ report city r) t
unfolding run_cities
run_cities_next step city cities totals s r t h = rw (h, run_cities) refl

module _ {F : Type 0} ⦃f : Float F⦄ (texts : Texts F) where
  saved-store_reviews :
      (now : ℕ) (city : City) (candidates : List (CandidateRestaurant F))
      (raws : List (RawReview F)) (c : IngestCounters) (s : Ingest F)
      (q : IngestCounters × Ingest F)
      → store_reviews texts now city candidates raws c s ≡ done q
      → q.1.saved ≡ s.saved
  unfolding store_reviews
  saved-store_reviews now city candidates [] c s q h =
      ap (λ (p : IngestCounters × Ingest F). p.1.saved) (sym (done-injective h))
  saved-store_reviews now city candidates (raw ∷ raws) c s q h =
      let (p, first, rest) = >>=-eq-done (store_review texts now city none candidates raw s) _ h in
      saved-store_reviews now city candidates raws _ p.2 q rest
      ∙ saved-store_review texts now city candidates raw s p first

module _ {F : Type 0} ⦃f : Float F⦄ (texts : Texts F) (clock : Clock) (source : SourceType)
    (interval : ℕ) where
  saved-stored :
      (city : City) (o : Outcome (IngestCounters × Ingest F)) (r : Option CityReport)
      (s t : Ingest F)
      → ((q : IngestCounters × Ingest F) → o ≡ done q → q.1.saved ≡ s.saved)
      → stored texts clock source interval city o ≡ next r t
      → t.saved ≡ s.saved
  unfolding finish_job
  saved-stored city (violates c) r s t keeps h = cc
  saved-stored city (done q) r s t keeps h =
      let k = keeps q refl in let e = next_session h in ap (λ (u : Ingest F). u.saved) (sym e) ∙ k

  saved-ended :
      {P : Type 0} (o : Outcome (Ingest F)) (r : Option CityReport) (t : Ingest F)
      → ended (λ v. retried v) o ≡ next r t
      → P
  saved-ended (violates c) r t h = cc
  saved-ended (done v) r t h = cc

  saved-fetch_body :
      (city : City) (o : Fetched (RawReview F)) (r : Option CityReport) (s t : Ingest F)
      → fetch_body texts clock source interval city o s ≡ next r t
      → t.saved ≡ s.saved
  unfolding finish_job
  saved-fetch_body city (items raws) r s t h =
      saved-stored city _ r s t (λ q. saved-store_reviews texts clock.now city _ raws _ s q) h
  saved-fetch_body city (permanent e) r s t h =
      ap (λ (u : Ingest F). u.saved) (sym (next_session h))
  saved-fetch_body city (transient e) r s t h = saved-ended (commit _) r t h

  saved-proceed :
      (body : Ingest F → CityEnd F) (s : Ingest F) (won : Bool) (u : Ingest F)
      (r : Option CityReport) (t : Ingest F)
      → ((v : Ingest F) → body u ≡ next r v → v.saved ≡ u.saved)
      → u.saved ≡ s.saved
      → proceed body (won, u) ≡ next r t
      → t.saved ≡ s.saved
  unfolding proceed
  saved-proceed body s true u r t keeps same h = keeps t h ∙ same
  saved-proceed body s false u r t keeps same h =
      ap (λ (v : Ingest F). v.saved) (sym (next_session h)) ∙ same

  saved-fetch_city :
      (lookback_days : Option ℕ) (fetch : City → ℕ → Fetched (RawReview F)) (city : City)
      (r : Option CityReport) (s t : Ingest F)
      → fetch_city texts clock source interval lookback_days fetch city s ≡ next r t
      → t.saved ≡ s.saved
  unfolding fetch_city claimed_city
  saved-fetch_city lookback_days fetch city r s t h =
      let (won, u) = claim_job texts source city (fetch_key texts clock source interval city) s in
      saved-proceed _ s won u r t (λ v. saved-fetch_body city _ r u v)
        (saved-claim_job texts source city (fetch_key texts clock source interval city) s) h

  -- Where a city of `fetch_reviews` has ended, and the key of the next and last city's job is taken,
  -- the task reports what the first city created, and closes the session as it was opened: none of it
  -- is in the tables.
  pub fetch_reviews_lost :
      (lookback_days : Option ℕ) (fetch : City → ℕ → Fetched (RawReview F)) (first second : City)
      (r : CityReport) (c : Catalog F) (t : Ingest F)
      → fetch_city texts clock source interval lookback_days fetch first (open_ingest c)
        ≡ next (some r) t
      → holds_job (fetch_key texts clock source interval second) t.work ≡ true
      → run_cities
          (fetch_city texts clock source interval lookback_days fetch)
          (first ∷ second ∷ [])
          []
          (open_ingest c)
        ≡ close_ingest ((first.slug, r) ∷ (second.slug, skipped_duplicate) ∷ []) (open_ingest c)
  unfolding run_cities fetch_city
  fetch_reviews_lost lookback_days fetch first second r c t h taken =
      let key = fetch_key texts clock source interval second in
      let kept = saved-fetch_city lookback_days fetch first (some r) (open_ingest c) t h in
      let skip = claimed_city_taken texts source second key _ t taken in
      run_cities_next (fetch_city texts clock source interval lookback_days fetch) first
        (second ∷ []) [] (open_ingest c) (some r) t h
      ∙ run_cities_next (fetch_city texts clock source interval lookback_days fetch) second []
          ((first.slug, r) ∷ []) t (some skipped_duplicate) (rollback t) skip
      ∙ ap
          (λ (x : Catalog F).
            close_ingest ((first.slug, r) ∷ (second.slug, skipped_duplicate) ∷ []) (open_ingest x))
          kept
