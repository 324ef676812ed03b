-- ===== src/Tests/Backlog.antt =====
-- What the workers have left to do.
use khaabo.Prelude.{◌≤◌, ◌≡◌, false, none, [], ◌∷◌, str_eq, length, All, if◌then◌else◌}
use khaabo.Prelude.Int.{ℤ}
use khaabo.Float.Fixed.{fixed_float}
use khaabo.Enums.{SourceType, AiState, ReviewStatus}
use khaabo.AiProcessing.Model.{World}
use khaabo.AiProcessing.Batch.{is_claimable}
use khaabo.AiProcessing.Budget.{left}
use khaabo.AiProcessing.Drained.{drain, drain_ends}
use khaabo.Ingestion.Model.{Catalog}
use khaabo.Ingestion.Jobs.Comments.{
  VideoIds, is_listed, max_comment_videos, commented, pending_comment_videos,
}
use khaabo.Ingestion.Jobs.Comments.Pending.{NoRepeat, pending_comment_videos_lem}
use khaabo.Tests.Fixtures.{review, store}
use khaabo.Tests.Ai.{config, world}
use khaabo.Tests.Ingestion.{catalog}

-- A review that waits for a provider that never answers.
abbrev waiting : World ℤ
waiting = record world {
  store = record store {
    reviews = record (review 10 ReviewStatus.published) { ai_state = AiState.pending } ∷ [];
  };
}

drain_ends_example :
    All
      (λ r. is_claimable r ≡ false)
      (drain config 7 (λ n r w. none) (λ n. n) (left waiting.store.reviews) waiting).store.reviews
drain_ends_example = drain_ends config 7 (λ n r w. none) (λ n. n) waiting

abbrev ids : VideoIds
ids = record {
  is_video = λ eid. str_eq eid "yt:a";
  is_comment = λ eid. str_eq eid "yt:b#c:1";
  video_of = λ eid. if str_eq eid "yt:a" then "a" else "b";
  head_of = λ eid. "yt:b";
  key_of = λ vid. if str_eq vid "a" then "yt:a" else "yt:b";
}

abbrev videos : Catalog ℤ
videos = record catalog {
  reviews = review 10 ReviewStatus.published ∷ [];
  review_sources =
      record { review_id = 10; source = SourceType.youtube; external_id = "yt:a" }
      ∷ record { review_id = 10; source = SourceType.youtube; external_id = "yt:b#c:1" }
      ∷ [];
}

pending_comment_videos_lem_example :
    (length (pending_comment_videos ids 3 videos) ≤ max_comment_videos)
    × NoRepeat (pending_comment_videos ids 3 videos)
    × All
        (λ v. is_listed (ids.key_of v) (commented ids videos) ≡ false)
        (pending_comment_videos ids 3 videos)
pending_comment_videos_lem_example = pending_comment_videos_lem ids 3 videos
