-- ===== src/Ingestion/Model/Flush.antt =====
-- What a flush that returns has done, and what it refuses.
use khaabo.Prelude.{◌≡◌, refl, sym, ap, ◌∙◌, Bool, true, false, not, if◌then◌else◌}
use khaabo.Ingestion.Model.{
  Catalog, Ingest, Outcome, done, violates, Constraint, slugs_unique, sources_unique,
  aliases_unique, contents_unique, review_sources_unique, jobs_unique, flush, commit, ◌>>=◌,
}

pub >>=-eq-done {ℓ κ} :
    {A : Type ℓ} {B : Type κ} (m : Outcome A) (g : A → Outcome B) {b : B}
    → (m >>= g) ≡ done b
    → (a : A) × (m ≡ done a) × (g a ≡ done b)
>>=-eq-done (done a) g h = (a, refl, h)
>>=-eq-done (violates c) g h = cc

pub done-injective {ℓ} : {A : Type ℓ} {a b : A} → done a ≡ done b → a ≡ b
done-injective h = cc

-- A check of `flush`.
passed {ℓ} :
    {A : Type ℓ} (b : Bool) (c : Constraint) (rest : Outcome A) {a : A}
    → (if not b then violates c else rest) ≡ done a
    → (b ≡ true) × (rest ≡ done a)
passed true c rest h = (refl, h)
passed false c rest h = cc

module _ {F : Type 0} where
  unfoldable pub IsSound : Catalog F → Type 0
  IsSound c =
      (slugs_unique c ≡ true)
      × (sources_unique c ≡ true)
      × (aliases_unique c ≡ true)
      × (contents_unique c ≡ true)
      × (review_sources_unique c ≡ true)
      × (jobs_unique c ≡ true)

  pub flush-done :
      (s t : Ingest F) → flush s ≡ done t → (t ≡ record s { rows = s.work }) × IsSound s.work
  unfolding flush IsSound
  flush-done s t h =
      let (slugs, h1) = passed (slugs_unique s.work) _ _ h in
      let (sources, h2) = passed (sources_unique s.work) _ _ h1 in
      let (aliases, h3) = passed (aliases_unique s.work) _ _ h2 in
      let (contents, h4) = passed (contents_unique s.work) _ _ h3 in
      let (review_sources, h5) = passed (review_sources_unique s.work) _ _ h4 in
      let (jobs, h6) = passed (jobs_unique s.work) _ _ h5 in
      (sym (done-injective h6), (slugs, sources, aliases, contents, review_sources, jobs))

  pub flush-eq : (s t : Ingest F) → flush s ≡ done t → t ≡ record s { rows = s.work }
  flush-eq s t h = (flush-done s t h).0

  pub flush-jobs_unique : (s t : Ingest F) → flush s ≡ done t → jobs_unique s.work ≡ true
  unfolding IsSound
  flush-jobs_unique s t h = (flush-done s t h).1.5

  pub commit-eq :
      (s t : Ingest F)
      → commit s ≡ done t
      → t ≡ record { work = s.work; rows = s.work; saved = s.work }
  unfolding commit
  commit-eq s t h =
      let (u, flushed, rest) = >>=-eq-done (flush s) _ h in
      sym (done-injective rest)
      ∙ ap (λ (v : Ingest F). record v { saved = v.work }) (flush-eq s u flushed)
