-- ===== src/Enums.antt =====
-- backend/app/models/enums.py: the enumerations that the modelled services use. Each member is a
-- constructor; the text values serve the database and the API alone.
use khaabo.Prelude.{Bool, true, false, ◌≡◌, refl, arith}

pub data SourceType : Type 0 where
  osm reddit youtube google user manual : SourceType

pub data ReviewStatus : Type 0 where
  pending published rejected flagged : ReviewStatus

pub data AiState : Type 0 where
  pending processing done failed : AiState

pub data ScoreStatus : Type 0 where
  ranked insufficient_data : ScoreStatus

pub data TrendDirection : Type 0 where
  rising stable declining : TrendDirection

pub data ExtractionMethod : Type 0 where
  ai alias user : ExtractionMethod

pub data UserRole : Type 0 where
  user moderator admin : UserRole

pub data ModerationReason : Type 0 where
  spam duplicate abuse user_report low_quality manual : ModerationReason

pub data ModerationStatus : Type 0 where
  opened resolved dismissed : ModerationStatus

abbrev pub is_published : ReviewStatus → Bool
is_published ReviewStatus.published = true
is_published _ = false

abbrev pub is_ranked_status : ScoreStatus → Bool
is_ranked_status ranked = true
is_ranked_status insufficient_data = false

-- `UserRole.MODERATOR` or `UserRole.ADMIN`.
abbrev pub is_moderator : UserRole → Bool
is_moderator UserRole.user = false
is_moderator _ = true

abbrev pub same_reason : ModerationReason → ModerationReason → Bool
same_reason ModerationReason.spam ModerationReason.spam = true
same_reason ModerationReason.duplicate ModerationReason.duplicate = true
same_reason ModerationReason.abuse ModerationReason.abuse = true
same_reason ModerationReason.user_report ModerationReason.user_report = true
same_reason ModerationReason.low_quality ModerationReason.low_quality = true
same_reason ModerationReason.manual ModerationReason.manual = true
same_reason _ _ = false

abbrev pub same_source : SourceType → SourceType → Bool
same_source SourceType.osm SourceType.osm = true
same_source SourceType.reddit SourceType.reddit = true
same_source SourceType.youtube SourceType.youtube = true
same_source SourceType.google SourceType.google = true
same_source SourceType.user SourceType.user = true
same_source SourceType.manual SourceType.manual = true
same_source _ _ = false

abbrev pub is_google : SourceType → Bool
is_google SourceType.google = true
is_google _ = false

abbrev pub is_user : SourceType → Bool
is_user SourceType.user = true
is_user _ = false

abbrev pub is_ai : ExtractionMethod → Bool
is_ai ai = true
is_ai _ = false

pub same_reason_refl : (r : ModerationReason) → same_reason r r ≡ true
same_reason_refl ModerationReason.spam = refl
same_reason_refl _ = refl

pub same_reason→eq : (a b : ModerationReason) → same_reason a b ≡ true → a ≡ b
same_reason→eq a b h = ground arith

pub same_source_refl : (s : SourceType) → same_source s s ≡ true
same_source_refl SourceType.osm = refl
same_source_refl _ = refl

pub same_source→eq : (a b : SourceType) → same_source a b ≡ true → a ≡ b
same_source→eq a b h = ground arith
