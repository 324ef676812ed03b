-- ===== src/Ingestion/Jobs/Comments.antt =====
-- backend/app/workers/ingestion_tasks.py: `fetch_youtube_comments` and `_pending_comment_videos`.
pub mod Pending
use khaabo.Prelude.{
  ℕ, Bool, true, false, not, ◌&&◌, Option, none, some, List, [], ◌∷◌, ◌++◌, map, String, any, find,
  filter, take, length, is_empty, ◌==◌, str_eq, if◌then◌else◌,
}
use khaabo.Enums.{SourceType, same_source}
use khaabo.Float.{Float}
use khaabo.Store.{Review}
use khaabo.EntityResolution.{CandidateRestaurant}
use khaabo.Ingestion.Model.{
  RawReview, City, IngestCounters, JobStatus, ReviewSource, Catalog, Ingest, Outcome, done,
  violates, Texts, commit, ◌>>=◌,
}
use khaabo.Ingestion.Places.{load_candidates}
use khaabo.Ingestion.Jobs.{Clock, no_counters, job_key, finish_job, store_reviews}
use khaabo.Ingestion.Jobs.Runs.{
  Fetched, items, permanent, transient, CityReport, finished, CityEnd, TaskEnd, next, disabled,
  broken, ended, failed_job, on_transient, claimed_city, run_cities, chosen_cities, open_ingest,
}

-- The ids of YouTube's rows, as texts: `yt:<video>` and `yt:<video>#c:<comment>`.
pub record VideoIds : Type 0 where
  -- the two `LIKE` tests of the query for videos, and the one for comments
  pub is_video : String → Bool
  pub is_comment : String → Bool
  -- `eid.removeprefix("yt:")`, `eid.split("#c:", 1)[0]` and `f"yt:{vid}"`
  pub video_of : String → String
  pub head_of : String → String
  pub key_of : String → String

abbrev pub is_listed : String → List String → Bool
is_listed v vs = any (λ w. str_eq w v) vs

-- The loop that keeps the first of equal ids.
unfoldable pub add_new : List String → List String → List String
add_new seen [] = seen
add_new seen (v ∷ vs) =
    add_new (if str_eq v "" then seen else if is_listed v seen then seen else seen ++ (v ∷ [])) vs

-- `MAX_COMMENT_VIDEOS_PER_RUN`
abbrev pub max_comment_videos : ℕ
max_comment_videos = 25

module _ {F : Type 0} (ids : VideoIds) where
  abbrev of_city : ℕ → Catalog F → ReviewSource → Bool
  of_city city c s = elim (find (λ r. r.id == s.review_id) c.reviews) [
    | none ↦ false
    | some r ↦ r.city_id == city
  ]

  -- The videos with evidence, oldest first, and the keys of those with comments.
  abbrev pub video_ids : ℕ → Catalog F → List String
  video_ids city c = add_new [] (
      map (λ s. ids.video_of s.external_id)
        (filter
          (λ s.
            of_city city c s
            && (same_source s.source SourceType.youtube && ids.is_video s.external_id))
          c.review_sources))

  abbrev pub commented : Catalog F → List String
  commented c =
      map (λ s. ids.head_of s.external_id)
        (filter (λ s. same_source s.source SourceType.youtube && ids.is_comment s.external_id)
          c.review_sources)

  unfoldable pub pending_comment_videos : ℕ → Catalog F → List String
  pending_comment_videos city c =
      take max_comment_videos
        (filter (λ v. not (is_listed (ids.key_of v) (commented c))) (video_ids city c))

module _ {F : Type 0} ⦃f : Float F⦄ (texts : Texts F) (clock : Clock) (ids : VideoIds)
    (video_of_review : RawReview F → Option String) where
  abbrev is_of : String → RawReview F → Bool
  is_of video raw = elim (video_of_review raw) [ none ↦ false | some v ↦ str_eq v video ]

  -- Video by video, each with its commit.
  unfoldable pub store_videos :
      City
      → List (CandidateRestaurant F)
      → List (RawReview F)
      → List String
      → IngestCounters
      → Ingest F
      → Outcome (IngestCounters × Ingest F)
  store_videos city candidates raws [] c s = done (c, s)
  store_videos city candidates raws (v ∷ vs) c s =
      store_reviews texts clock.now city candidates (filter (is_of v) raws) c s >>= λ q.
      commit q.1 >>= λ t. store_videos city candidates raws vs q.0 t

  abbrev comments_key : City → String
  comments_key city = job_key texts clock SourceType.youtube city 6 (some "comments")

  abbrev videos_ended : City → Outcome (IngestCounters × Ingest F) → CityEnd F
  videos_ended city (violates c) = broken c
  videos_ended city (done (c, s)) =
      ended (λ t. next (some (finished c)) t)
        (commit (finish_job clock.now (comments_key city) c JobStatus.success none s))

  abbrev comments_body : City → List String → Fetched (RawReview F) → Ingest F → CityEnd F
  comments_body city videos (items raws) s = videos_ended city (
      store_videos city (load_candidates texts city.id s) raws videos
        (record no_counters { seen = length raws }) s)
  comments_body city videos (permanent e) s =
      next none (failed_job clock.now (comments_key city) e s)
  comments_body city videos (transient e) s = on_transient clock.now (comments_key city) e s

  module _ (fetch : City → List String → Fetched (RawReview F)) where
    unfoldable pub comments_city : City → Ingest F → CityEnd F
    comments_city city s =
        let videos = pending_comment_videos ids city.id s.rows in
        let claimed =
          claimed_city texts SourceType.youtube city (comments_key city)
            (comments_body city videos (fetch city videos)) s in
        if is_empty videos then next none s else claimed

    unfoldable pub fetch_youtube_comments : Bool → List City → Option String → Catalog F → TaskEnd F
    fetch_youtube_comments enabled cities slug c =
        let ran = run_cities comments_city (chosen_cities slug cities) [] (open_ingest c) in
        if enabled then ran else disabled
