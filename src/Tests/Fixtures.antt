-- ===== src/Tests/Fixtures.antt =====
-- Data for the tests: doubles are fixed-point numbers, with four decimals.
use khaabo.Prelude.{ℕ, ◌-◌, true, false, none, some, List, [], ◌∷◌}
use khaabo.Prelude.Int.{ℤ, pos, negsuc}
use khaabo.Enums.{
  SourceType, ReviewStatus, AiState, UserRole, ScoreStatus, ExtractionMethod, ModerationReason,
  ModerationStatus,
}
use khaabo.Ranking.Model.{
  RankingWeights, Observation, ScoreComponents, DishScoreResult, RankedEntry,
}
use khaabo.Trends.{TrendConfig, days}
use khaabo.Store.{User, Restaurant, Review, ModerationItem, Store, Session, open_session, IdText}
use khaabo.Reviews.Submission.{Content, ReviewCreate}

-- The defaults of `RankingWeights`.
abbrev pub weights : RankingWeights ℤ
weights = record {
  sentiment = pos 3500;
  recency = pos 2000;
  consistency = pos 1500;
  volume = pos 1000;
  source_quality = pos 1000;
  engagement = pos 500;
  confidence = pos 500;
  version = "v1";
  halflife_days = pos 1_800_000;
  bayes_m = pos 60_000;
  bayes_prior = pos 6200;
  volume_saturation = pos 500_000;
  engagement_saturation = pos 5_000_000;
  min_mentions = 3;
  min_weight = pos 15_000;
}

abbrev pub now : ℕ
now = days 1000

-- A mention, so many days ago.
abbrev pub mention : ℤ → ℕ → Observation ℤ
mention sentiment age = record {
  sentiment = sentiment;
  confidence = pos 9000;
  source = SourceType.google;
  engagement = pos 4;
  observed_at = some (record { micros = now - days age; aware = true });
  price = some (pos 1_200_000);
  attributes = "smoky" ∷ "juicy" ∷ [];
  verified_author = true;
  extraction_method = ExtractionMethod.ai;
}

abbrev pub mentions : List (Observation ℤ)
mentions =
    mention (pos 8000) 3
    ∷ mention (pos 9000) 5
    ∷ mention (pos 5000) 20
    ∷ mention (pos 6000) 10
    ∷ mention (negsuc 1999) 200
    ∷ []

abbrev pub low_components : ScoreComponents ℤ
low_components = record {
  sentiment = pos 5000;
  recency = pos 5000;
  consistency = pos 5000;
  volume = pos 2000;
  source_quality = pos 5000;
  engagement = pos 1000;
  confidence = pos 5000;
}

abbrev pub high_components : ScoreComponents ℤ
high_components = record low_components { recency = pos 9000; volume = pos 4000 }

abbrev pub result : ℤ → ℤ → DishScoreResult ℤ
result score value = record {
  status = ScoreStatus.ranked;
  score = some score;
  raw_score = some score;
  components = low_components;
  positive_ratio = pos 8000;
  mention_count = 5;
  evidence_weight = pos 40_000;
  consistency = pos 7000;
  recency_days = some (pos 100_000);
  bayesian_score = some (pos 7000);
  price_avg = none;
  value_score = some value;
  why = [];
  top_attributes = [];
  weights_version = "v1";
  observed_positivity = pos 8000;
  is_best_value = false;
  is_hidden_gem = false;
  is_most_consistent = false;
  trend = none;
  trend_delta = none;
}

abbrev pub entries : List (RankedEntry ℤ)
entries =
    record { restaurant_id = "a"; result = result (pos 800_000) (pos 6000) }
    ∷ record { restaurant_id = "b"; result = result (pos 700_000) (pos 9000) }
    ∷ []

abbrev pub trend_config : TrendConfig ℤ
trend_config = record {
  recent_days = 30;
  historical_days = 120;
  delta_threshold = pos 1000;
  min_observations = 1;
  volume_surge_ratio = pos 20_000;
  volume_surge_min_recent = 5;
}

abbrev pub narrow_config : TrendConfig ℤ
narrow_config = record trend_config { historical_days = 30 }

abbrev pub author : User
author = record { id = 1; role = UserRole.user; is_banned = false }

abbrev pub moderator : User
moderator = record { id = 2; role = UserRole.moderator; is_banned = false }

abbrev pub restaurant : Restaurant ℤ
restaurant = record {
  id = 7;
  city_id = 3;
  name = "Wow Momo";
  slug = "wow-momo";
  normalized_name = "wow momo";
  lat = pos 0;
  lng = pos 0;
  details = record {
    address = none;
    area = none;
    cuisines = "tibetan" ∷ [];
    price_level = some 2;
    phone = none;
    website = none;
    opening_hours = none;
  };
  data_confidence = pos 5000;
  review_count = 1;
  google_rating = none;
  google_rating_count = none;
  last_ingested_at = none;
}

abbrev pub review : ℕ → ReviewStatus → Review ℤ
review id status = record {
  id = id;
  restaurant_id = 7;
  city_id = 3;
  user_id = some 1;
  source = SourceType.user;
  title = none;
  body = "crisp and juicy momos";
  rating = none;
  rating_scale = none;
  source_quality = pos 6000;
  published_at = 0;
  ingested_at = none;
  content_hash = "h";
  simhash = some (pos 0);
  status = status;
  ai_state = AiState.done;
  ai_attempts = 0;
  is_duplicate = false;
  engagement_score = pos 0;
  spam_score = pos 0;
  like_count = 1;
  report_count = 0;
}

abbrev pub waiting : Review ℤ
waiting = record (review 11 ReviewStatus.pending) { like_count = 0 }

abbrev pub item : ModerationItem
item = record {
  id = 12;
  review_id = 11;
  reason = ModerationReason.low_quality;
  status = ModerationStatus.opened;
  severity = 1;
  reporter_user_id = none;
  notes = none;
  decided_by = none;
  decided_at = none;
  history = [];
}

-- A published review with a like, and one that waits for a decision.
abbrev pub store : Store ℤ
store = record {
  next_id = 20;
  reviews = review 10 ReviewStatus.published ∷ waiting ∷ [];
  restaurants = restaurant ∷ [];
  profiles =
      record {
        user_id = 1;
        review_count = 2;
        published_review_count = 1;
        like_received_count = 1;
        contribution_score = 10;
      }
      ∷ [];
  items = item ∷ [];
  likes = record { user_id = 5; review_id = 10 } ∷ [];
  events = [];
  badges = [];
  mentions = [];
  aspects = [];
}

abbrev pub session : Session ℤ
session = open_session store

abbrev pub content : Content ℤ
content = record {
  fingerprint = λ body user. body;
  spam_score = λ body. pos 0;
  simhash = λ body. pos 0;
}

abbrev pub payload : ReviewCreate ℤ
payload = record {
  restaurant_id = IdText.uuid 7;
  title = none;
  body = "soft and smoky kebab";
  rating = some (pos 40_000);
}
