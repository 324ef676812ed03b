-- ===== src/Ingestion/Places/Upsert/Repeat.antt =====
-- A place that is ingested again, unchanged, is skipped.
use mathlib.Core.Path.{subst}
use khaabo.Prelude.{
  ℕ, ◌≡◌, refl, ap, ◌∙◌, inl, inr, Bool, true, Option, none, some, List, String, find, arith,
  str_eq, if◌then◌else◌, Bool-cases, Option-cases, map_option, find-map_if, find-append_one,
  find_found, eq_iff, eq_refl,
}
use khaabo.Enums.{same_source_refl}
use khaabo.Float.{Float}
use khaabo.Store.{Restaurant}
use khaabo.EntityResolution.{CandidateRestaurant, ResolutionResult, non_empty}
use khaabo.Ingestion.Model.{
  RawPlace, City, RestaurantSource, Catalog, Ingest, Outcome, done, Texts, has_key, flush,
}
use khaabo.Ingestion.Model.Flush.{flush-done, >>=-eq-done, done-injective}
use khaabo.Ingestion.Places.{
  Action, is_ambiguous_match, find_restaurant, payload_hash, source_of, add_alias, add_source,
  refresh_place,
}
use khaabo.Ingestion.Places.Upsert.{
  create_restaurant, match_restaurant, place_made, place_matched, place_unambiguous, place_resolved,
  loaded, upsert_place,
}

module _ {F : Type 0} ⦃f : Float F⦄ (texts : Texts F) where
  abbrev of_place : RawPlace F → RestaurantSource → Bool
  of_place place = has_key place.source place.external_id

  -- The first source of the place's key has the place's hash and the restaurant's id.
  abbrev IsKnown : RawPlace F → Option ℕ → Catalog F → Type 0
  IsKnown place r c =
      (k : RestaurantSource) × (find (of_place place) c.sources ≡ some k)
      × (k.content_hash ≡ payload_hash texts place)
      × (some k.restaurant_id ≡ r)

  pub sources-add_alias :
      (id : ℕ) (name : String) (place : RawPlace F) (s : Ingest F)
      → (add_alias texts id name place.source s).work.sources ≡ s.work.sources
  unfolding add_alias
  sources-add_alias id name place s = ground arith

  pub sources-match_restaurant :
      (now : ℕ) (place : RawPlace F) (confidence : F) (r : Restaurant F) (s : Ingest F)
      → (match_restaurant texts now place confidence r s).work.sources ≡ s.work.sources
  unfolding match_restaurant
  sources-match_restaurant now place confidence r s =
      elim (Bool-cases (str_eq (texts.resolver.normalize_name place.name) r.normalized_name)) [
        | inl e ↦ rw e refl
        | inr e ↦ rw e (sources-add_alias r.id place.name place _)
      ]

  pub sources-create_restaurant :
      (now : ℕ) (city : City) (place : RawPlace F) (confidence : F) (s t : Ingest F)
      → create_restaurant texts now city place confidence s ≡ done t
      → (t.work.sources ≡ s.work.sources) × (t.rows.sources ≡ s.work.sources)
  unfolding create_restaurant
  sources-create_restaurant now city place confidence s t h =
      let (e, _) = flush-done _ t h in (ap (λ u. u.work.sources) e, ap (λ u. u.rows.sources) e)

  of_place-source_of :
      (place : RawPlace F) (r : ℕ) → of_place place (source_of texts place r) ≡ true
  of_place-source_of place r = rw (same_source_refl place.source, eq_refl place.external_id) refl

  add_source-IsKnown :
      (place : RawPlace F) (r : ℕ) (s : Ingest F)
      → find (of_place place) s.work.sources ≡ none
      → IsKnown place (some r) (add_source texts place r s).work
  unfolding add_source
  add_source-IsKnown place r s h = (
    source_of texts place r,
    rw
        (
          find-append_one (of_place place) s.work.sources (source_of texts place r),
          h,
          of_place-source_of place r,
        )
        refl,
    refl,
    refl,
  )

  abbrev IsKnownAt : RawPlace F → Option ℕ × Action × Ingest F → Type 0
  IsKnownAt place q = IsKnown place q.0 q.2.work

  refresh_place-IsKnown :
      (now : ℕ) (place : RawPlace F) (row : RestaurantSource) (s : Ingest F)
      → find (of_place place) s.work.sources ≡ some row
      → IsKnownAt place (refresh_place texts now place row s)
  unfolding refresh_place
  refresh_place-IsKnown now place row s h =
      elim (Bool-cases (str_eq row.content_hash (payload_hash texts place))) [
        | inl e ↦ rw e (row, h, (eq_iff row.content_hash (payload_hash texts place)).0 e, refl)
        | inr e ↦
            let set : RestaurantSource → RestaurantSource =
              λ k. record k { content_hash = payload_hash texts place } in
            rw e (
              set row,
              find-map_if (of_place place) (of_place place) set (λ x. refl) s.work.sources
                  ∙ ap (map_option (λ x. if of_place place x then set x else x)) h
                  ∙ ap some (rw (find_found (of_place place) s.work.sources row h) refl),
              refl,
              refl,
            )
      ]

  no_restaurant :
      {P : Type 0} {a b : Action} {s t : Ingest F} {i : ℕ}
      → ◌≡◌ {A = Outcome (Option ℕ × Action × Ingest F)} (done (none, a, s)) (done (some i, b, t))
      → P
  no_restaurant h = cc

  place_matched-IsKnown :
      (now : ℕ) (place : RawPlace F) (confidence : F) (id : ℕ) (s : Ingest F) (i : ℕ) (a : Action)
      (t : Ingest F)
      → find (of_place place) s.work.sources ≡ none
      → done (place_matched texts now place confidence id s) ≡ done (some i, a, t)
      → IsKnown place (some i) t.work
  unfolding place_matched
  place_matched-IsKnown now place confidence id s i a t fresh h =
      elim (Option-cases (find_restaurant id s.work)) [
        | inl e ↦ no_restaurant (rw (e, place_matched) at h)
        | inr (r, e) ↦
            let m = match_restaurant texts now place confidence r s in
            subst (IsKnownAt place) (done-injective (rw (e, place_matched) at h)) (
              add_source-IsKnown place r.id m
                (rw (sources-match_restaurant now place confidence r s) fresh))
      ]

  place_made-IsKnown :
      (now : ℕ) (city : City) (place : RawPlace F) (confidence : F) (s : Ingest F) (i : ℕ)
      (a : Action) (t : Ingest F)
      → find (of_place place) s.work.sources ≡ none
      → place_made texts now city place confidence s ≡ done (some i, a, t)
      → IsKnown place (some i) t.work
  unfolding place_made
  place_made-IsKnown now city place confidence s i a t fresh h =
      let (u, made, rest) = >>=-eq-done (create_restaurant texts now city place confidence s) _ h in
      subst (IsKnownAt place) (done-injective rest) (
        add_source-IsKnown place s.work.next_id u
          (rw (sources-create_restaurant now city place confidence s u made).0 fresh))

  place_resolved-IsKnown :
      (now : ℕ) (city : City) (place : RawPlace F) (r : ResolutionResult F) (s : Ingest F) (i : ℕ)
      (a : Action) (t : Ingest F)
      → find (of_place place) s.work.sources ≡ none
      → place_resolved texts now city place r s ≡ done (some i, a, t)
      → IsKnown place (some i) t.work
  unfolding place_resolved place_unambiguous
  place_resolved-IsKnown now city place r s i a t fresh h =
      elim (Bool-cases (is_ambiguous_match r.method)) [
        | inl e ↦ no_restaurant (rw (e, place_resolved) at h)
        | inr e ↦ elim (Option-cases (non_empty r.matched_id)) [
          | inl d ↦
              place_made-IsKnown now city place r.confidence s i a t fresh
                (rw (d, place_unambiguous) at (rw (e, place_resolved) at h))
          | inr (id, d) ↦
              place_matched-IsKnown now place r.confidence (texts.id_of id) s i a t fresh
                (rw (d, place_unambiguous) at (rw (e, place_resolved) at h))
        ]
      ]

  loaded_found :
      (place : RawPlace F) (row k : RestaurantSource) (s : Ingest F)
      → find (of_place place) s.work.sources ≡ some k
      → loaded place row s ≡ k
  loaded_found place row k s h = rw (h, loaded) refl

  refresh_place_same :
      (now : ℕ) (place : RawPlace F) (k : RestaurantSource) (s : Ingest F) (i : ℕ)
      → k.content_hash ≡ payload_hash texts place
      → some k.restaurant_id ≡ some i
      → done (refresh_place texts now place k s) ≡ done (some i, Action.skipped, s)
  unfolding refresh_place
  refresh_place_same now place k s i same id =
      rw (same, eq_refl (payload_hash texts place), refresh_place)
        (ap (λ r. done (r, Action.skipped, s)) id)

  pub upsert_place-IsKnown :
      (now : ℕ) (city : City) (candidates : List (CandidateRestaurant F)) (place : RawPlace F)
      (s : Ingest F) (i : ℕ) (a : Action) (t : Ingest F)
      → s.rows.sources ≡ s.work.sources
      → upsert_place texts now city candidates place s ≡ done (some i, a, t)
      → IsKnown place (some i) t.work
  unfolding upsert_place
  upsert_place-IsKnown now city candidates place s i a t clean h =
      elim (Option-cases (find (of_place place) s.rows.sources)) [
        | inl e ↦
            place_resolved-IsKnown now city place _ s i a t (rw (← clean) e)
              (rw (e, upsert_place) at h)
        | inr (row, e) ↦
            let found : find (of_place place) s.work.sources ≡ some row = rw (← clean) e in
            let known = refresh_place-IsKnown now place row s found in
            subst (IsKnownAt place)
              (done-injective (rw (e, loaded_found place row row s found, upsert_place) at h)) known
      ]

  -- Where the session has no change of a source that is not in the database, a place whose ingestion
  -- ended with a restaurant, and whose changes the database took, is skipped when it is ingested
  -- again: the same restaurant is the answer, whatever the candidates, and nothing is changed.
  pub upsert_place_repeat :
      (now later : ℕ) (city : City) (candidates others : List (CandidateRestaurant F))
      (place : RawPlace F) (s t u : Ingest F) (i : ℕ) (a : Action)
      → s.rows.sources ≡ s.work.sources
      → upsert_place texts now city candidates place s ≡ done (some i, a, t)
      → flush t ≡ done u
      → upsert_place texts later city others place u ≡ done (some i, Action.skipped, u)
  unfolding upsert_place refresh_place
  upsert_place_repeat now later city candidates others place s t u i a clean h kept =
      let (k, found, same, id) = upsert_place-IsKnown now city candidates place s i a t clean h in
      let (e, _) = flush-done t u kept in
      let in_rows : find (of_place place) u.rows.sources ≡ some k = rw e found in
      let in_work : find (of_place place) u.work.sources ≡ some k = rw e found in
      rw (in_rows, loaded_found place k k u in_work, upsert_place)
        (refresh_place_same later place k u i same id)
