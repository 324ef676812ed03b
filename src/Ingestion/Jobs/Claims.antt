-- ===== src/Ingestion/Jobs/Claims.antt =====
-- A job key is claimed once, and a claim that fails rolls the session back.
use khaabo.Prelude.{
  ℕ, Option, ◌≡◌, refl, ap, ◌∙◌, inl, inr, Bool, true, false, List, [], ◌∷◌, ◌++◌, String, any,
  any-map, arith, str_eq, if◌then◌else◌, Bool-cases, eq_refl, eq_iff,
}
use khaabo.Enums.{SourceType}
use khaabo.Ingestion.Model.{
  City, IngestionJob, IngestCounters, JobStatus, Catalog, Ingest, Outcome, done, violates,
  Constraint, Texts, no_repeat, jobs_unique, flush, rollback,
}
use khaabo.Ingestion.Model.Flush.{flush-jobs_unique, flush-eq}
use khaabo.Ingestion.Jobs.{running_job, claim_end, claim_job, finish_job}

abbrev has_job : String → IngestionJob → Bool
has_job key j = str_eq j.job_key key

abbrev same_job : IngestionJob → IngestionJob → Bool
same_job j k = str_eq k.job_key j.job_key

abbrev pub holds_job : {F : Type 0} → String → Catalog F → Bool
holds_job key c = any (has_job key) c.jobs

any_same-append :
    (j k : IngestionJob) (js : List IngestionJob)
    → str_eq k.job_key j.job_key ≡ true
    → any (same_job j) (js ++ (k ∷ [])) ≡ true
any_same-append j k [] h = rw h refl
any_same-append j k (i ∷ js) h = ground (arith, any_same-append j k js h)

-- A list to which a job of a key in it is added repeats that key.
repeated :
    (js : List IngestionJob) (k : IngestionJob)
    → any (has_job k.job_key) js ≡ true
    → no_repeat same_job (js ++ (k ∷ [])) ≡ false
repeated [] k h = cc
repeated (j ∷ js) k h = elim (Bool-cases (has_job k.job_key j)) [
  | inl e ↦
      let same : str_eq k.job_key j.job_key ≡ true =
        rw ((eq_iff j.job_key k.job_key).0 e) (eq_refl k.job_key) in
      rw (any_same-append j k js same) refl
  | inr e ↦ (let rest = repeated js k (rw e at h) in rw rest (ground arith))
]

module _ {F : Type 0} (texts : Texts F) (source : SourceType) (city : City) (key : String) where
  abbrev pub with_job : Ingest F → Ingest F
  with_job s = record s {
    work = record (s.work) { jobs = s.work.jobs ++ (running_job texts source city key ∷ []) };
  }

  refused :
      (s : Ingest F) (o : Outcome (Ingest F))
      → holds_job key s.work ≡ true
      → flush (with_job s) ≡ o
      → (c : Constraint) × (o ≡ violates c)
  unfolding jobs_unique
  refused s (violates c) h e = (c, refl)
  refused s (done t) h e =
      let twice = repeated s.work.jobs (running_job texts source city key) h in
      let once : no_repeat same_job (s.work.jobs ++ (running_job texts source city key ∷ []))
          ≡ true =
        flush-jobs_unique (with_job s) t e in
      cc

  claimed :
      (s : Ingest F) (o : Outcome (Ingest F))
      → flush (with_job s) ≡ o
      → (t : Ingest F) → claim_end s o ≡ (true, t)
      → flush (with_job s) ≡ done t
  claimed s (done u) e t h = e ∙ ap done (ap (λ (q : Bool × Ingest F). q.1) h)
  claimed s (violates c) e t h = cc

  -- A claim of a key that a job of the session has already fails, and it takes back all that the
  -- session did since its last commit.
  pub claim_job_taken :
      (s : Ingest F)
      → holds_job key s.work ≡ true
      → claim_job texts source city key s ≡ (false, rollback s)
  unfolding claim_job
  claim_job_taken s h = let (c, e) = refused s (flush (with_job s)) h refl in rw (e, claim_job) refl

  -- A claim that succeeds adds the running job to the session and its rows.
  pub claim_job_won :
      (s t : Ingest F)
      → claim_job texts source city key s ≡ (true, t)
      → t ≡ record { work = (with_job s).work; rows = (with_job s).work; saved = s.saved }
  unfolding claim_job
  claim_job_won s t h = flush-eq (with_job s) t (claimed s (flush (with_job s)) refl t h)

  saved-claimed :
      (s : Ingest F) (o : Outcome (Ingest F))
      → flush (with_job s) ≡ o
      → (claim_end s o).1.saved ≡ s.saved
  saved-claimed s (done u) e = ap (λ (t : Ingest F). t.saved) (flush-eq (with_job s) u e)
  saved-claimed s (violates c) e = refl

  pub saved-claim_job : (s : Ingest F) → (claim_job texts source city key s).1.saved ≡ s.saved
  unfolding claim_job
  saved-claim_job s = saved-claimed s (flush (with_job s)) refl

any-append_last :
    (key : String) (js : List IngestionJob) (j : IngestionJob)
    → has_job key j ≡ true
    → any (has_job key) (js ++ (j ∷ [])) ≡ true
any-append_last key [] j h = rw h refl
any-append_last key (k ∷ js) j h = ground (arith, any-append_last key js j h)

pub holds_job-with_job :
    {F : Type 0} (texts : Texts F) (source : SourceType) (city : City) (key : String) (s : Ingest F)
    → holds_job key (with_job texts source city key s).work ≡ true
holds_job-with_job texts source city key s =
    any-append_last key s.work.jobs (running_job texts source city key) (eq_refl key)

pub holds_job-finish_job :
    {F : Type 0} (now : ℕ) (key other : String) (counters : IngestCounters) (status : JobStatus)
    (error : Option String) (s : Ingest F)
    → holds_job key (finish_job now other counters status error s).work ≡ holds_job key s.work
unfolding finish_job
holds_job-finish_job now key other counters status error s =
    any-map (has_job key) _ (λ j. if_same j (str_eq j.job_key other) _ refl) s.work.jobs
  where
    if_same :
        (j : IngestionJob) (b : Bool) (k : IngestionJob)
        → has_job key k ≡ has_job key j
        → has_job key (if b then k else j) ≡ has_job key j
    if_same j true k e = e
    if_same j false k e = refl
