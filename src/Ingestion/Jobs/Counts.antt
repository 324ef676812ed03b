-- ===== src/Ingestion/Jobs/Counts.antt =====
-- The counters of a sweep.
use mathlib.Core.Path.{subst}
use khaabo.Prelude.{
  ℕ, suc, ◌+◌, ◌≤◌, ◌%◌, ◌≡◌, refl, sym, ap, ◌∙◌, Bool, true, false, Option, none, some, List, [],
  ◌∷◌, length, arith, ◌==◌, if◌then◌else◌, inl, inr, Bool-cases, Option-cases,
}
use khaabo.Float.{Float}
use khaabo.EntityResolution.{CandidateRestaurant}
use khaabo.Ingestion.Model.{RawPlace, City, IngestCounters, Ingest, done, Texts, flush, commit}
use khaabo.Ingestion.Model.Flush.{>>=-eq-done, done-injective}
use khaabo.Ingestion.Places.{Action, find_restaurant}
use khaabo.Ingestion.Places.Upsert.{upsert_place}
use khaabo.Ingestion.Jobs.{
  Sweep, Follow, no_counters, appended, count_action, is_created, follow_google, sweep_place,
  sweep_places,
}

-- Every place that was seen is counted once, and the conflicts are among the skipped.
abbrev pub IsTally : ℕ → ℕ → IngestCounters → Type 0
IsTally seen n c =
    (c.seen ≡ seen) × (c.created + c.updated + c.skipped ≡ n) × (c.conflicts ≤ c.skipped)

count_action-IsTally :
    (a : Action) (m n : ℕ) (c : IngestCounters)
    → IsTally m n c
    → IsTally m (suc n) (count_action a c)
count_action-IsTally Action.created m n c h = ground arith
count_action-IsTally Action.updated m n c h = ground arith
count_action-IsTally Action.skipped m n c h = ground arith
count_action-IsTally Action.conflict m n c h = ground arith

module _ {F : Type 0} ⦃f : Float F⦄ (texts : Texts F) (follow : Follow F) (now : ℕ) (city : City)
    (quiet : (p : RawPlace F) (id : Option ℕ) (w v : Sweep F)
      → follow p id w ≡ done v
      → v.counters ≡ w.counters) where
  followed :
      (b : Bool) (p : RawPlace F) (id : Option ℕ) (w v : Sweep F)
      → (if b then follow p id w else done w) ≡ done v
      → v.counters ≡ w.counters
  followed true p id w v h = quiet p id w v h
  followed false p id w v h = ap (λ (x : Sweep F). x.counters) (sym (done-injective h))

  counters-sweep_place :
      (i : ℕ) (p : RawPlace F) (w v : Sweep F)
      → sweep_place texts follow now city i p w ≡ done v
      → (a : Action) × (v.counters ≡ count_action a w.counters)
  unfolding sweep_place
  counters-sweep_place i p w v h =
      let (q, upserted, rest) =
        >>=-eq-done (upsert_place texts now city w.candidates p w.session) _ h in
      let counted : Sweep F = record w { counters = count_action q.1 w.counters; session = q.2 } in
      let (x, follows, rest') =
        >>=-eq-done (if is_created q.1 then follow p q.0 counted else done counted) _ rest in
      let (t, committed, last) =
        >>=-eq-done (if i % 100 == 0 then commit x.session else done x.session) _ rest' in
      (
        q.1,
        ap (λ (y : Sweep F). y.counters) (sym (done-injective last))
            ∙ followed (is_created q.1) p q.0 counted x follows,
      )

  sweep_places-IsTally :
      (ps : List (RawPlace F)) (i m n : ℕ) (w v : Sweep F)
      → IsTally m n w.counters
      → sweep_places texts follow now city i ps w ≡ done v
      → IsTally m (n + length ps) v.counters
  unfolding sweep_places
  sweep_places-IsTally [] i m n w v h e =
      let same : w ≡ v = done-injective e in
      subst (λ (x : Sweep F). IsTally m (n + 0) x.counters) same (ground arith)
  sweep_places-IsTally (p ∷ ps) i m n w v h e =
      let (x, first, rest) = >>=-eq-done (sweep_place texts follow now city i p w) _ e in
      let (a, counted) = counters-sweep_place i p w x first in
      let next : IsTally m (suc n) x.counters =
        subst (IsTally m (suc n)) (sym counted) (count_action-IsTally a m n w.counters h) in
      let all = sweep_places-IsTally ps (suc i) m (suc n) x v next rest in
      (all.0, omega (arith, all.1), all.2)

module _ {F : Type 0} ⦃f : Float F⦄ (texts : Texts F)
    (reload : Ingest F → List (CandidateRestaurant F)) where
  counters-appended :
      (p : RawPlace F) (id : Option ℕ) (w : Sweep F)
      → (appended texts reload p id w).counters ≡ w.counters
  counters-appended p none w = refl
  counters-appended p (some id) w = elim (Option-cases (find_restaurant id w.session.work)) [
    | inl e ↦ rw (e, appended) refl
    | inr (r, e) ↦ rw (e, appended) refl
  ]

  follow_google_quiet :
      (p : RawPlace F) (id : Option ℕ) (w v : Sweep F)
      → follow_google texts reload p id w ≡ done v
      → v.counters ≡ w.counters
  unfolding follow_google
  follow_google_quiet p id w v h = elim (Bool-cases (w.counters.created % 2000 == 0)) [
    | inl e ↦
        let (t, flushed, last) = >>=-eq-done (flush w.session) _ (rw (e, follow_google) at h) in
        ap (λ (y : Sweep F). y.counters) (sym (done-injective last))
    | inr e ↦
        ap (λ (y : Sweep F). y.counters) (sym (done-injective (rw (e, follow_google) at h)))
        ∙ counters-appended p id w
  ]

  -- A Google sweep that starts with the number of its places in `seen`, and nothing else counted, and
  -- that no constraint ends, has counted each place once: as created, as updated or as skipped. The
  -- conflicts are among those skipped.
  pub sweep_places_tally :
      (now : ℕ) (city : City) (ps : List (RawPlace F)) (candidates : List (CandidateRestaurant F))
      (s : Ingest F) (v : Sweep F)
      → sweep_places texts (follow_google texts reload) now city 1 ps (record {
        counters = record no_counters { seen = length ps };
        candidates = candidates;
        session = s;
      })
        ≡ done v
      → (v.counters.seen ≡ length ps)
        × (v.counters.created + v.counters.updated + v.counters.skipped ≡ length ps)
        × (v.counters.conflicts ≤ v.counters.skipped)
  sweep_places_tally now city ps candidates s v h =
      let all =
        sweep_places-IsTally texts (follow_google texts reload) now city follow_google_quiet ps 1
          (length ps) 0 _ v (refl, refl, omega arith) h in
      (all.0, omega (arith, all.1), all.2)
