-- ===== src/Ranking/Why.antt =====
-- backend/app/services/ranking.py, `build_why`: the reason codes behind a score.
use khaabo.Prelude.{
  ℕ, ◌≤◌, ◌≡◌, Bool, true, false, not, ◌&&◌, ◌||◌, List, [], ◌∷◌, ◌++◌, arith, ◌==◌, if◌then◌else◌,
  length, take, any, All, All-append, All-take, length-append, length-take-le, is_empty,
  is_empty-append,
}
use khaabo.Float.{Float, lt, ◌≼◌}
use khaabo.Ranking.Model.{
  ScoreComponents, Reason, ReasonCode, positive_ratio, recent, stale, consistency, inconsistent,
  source_quality, mentions, Label, words, percent, counted, number, whole,
}

abbrev pub same_code : ReasonCode → ReasonCode → Bool
same_code positive_ratio positive_ratio = true
same_code recent recent = true
same_code stale stale = true
same_code consistency consistency = true
same_code inconsistent inconsistent = true
same_code source_quality source_quality = true
same_code mentions mentions = true
same_code _ _ = false

module _ {F : Type 0} ⦃f : Float F⦄ where
  open f use {lit, mul, le, round}

  -- `WHY_THRESHOLDS`
  abbrev pub positive_ratio_threshold : F
  positive_ratio_threshold = lit 70 100

  abbrev pub recent_threshold : F
  recent_threshold = lit 60 100

  abbrev pub consistency_threshold : F
  consistency_threshold = lit 65 100

  abbrev pub source_quality_threshold : F
  source_quality_threshold = lit 70 100

  abbrev pub mixed_limit : F
  mixed_limit = lit 35 100

  abbrev one_reason : ReasonCode → Label F → F → List (Reason F)
  one_reason c l v = record { code = c; label = l; value = number v } ∷ []

  positive_reason : F → List (Reason F)
  positive_reason ratio =
      if le positive_ratio_threshold ratio
      then one_reason positive_ratio
          (percent (round (mul ratio (lit 100 1)) 0) "% positive dish sentiment") (round ratio 4)
      else []

  recency_reason : F → F → List (Reason F)
  recency_reason recency recency_days =
      if le recent_threshold recency
      then one_reason recent (words "strong recent reviews") (round recency 4)
      else if lt (lit 365 1) recency_days
      then one_reason stale (words "no recent mentions") (round recency_days 1)
      else []

  consistency_reason : F → List (Reason F)
  consistency_reason value =
      if le consistency_threshold value
      then one_reason consistency (words "consistent quality") (round value 4)
      else if lt value mixed_limit
      then one_reason inconsistent (words "mixed reports") (round value 4)
      else []

  source_reason : F → List (Reason F)
  source_reason value =
      if le source_quality_threshold value
      then one_reason source_quality (words "trusted sources") (round value 4)
      else []

  mentions_reason : ℕ → Reason F
  mentions_reason n = record {
    code = mentions;
    label = counted n (if n == 1 then " dish mention" else " dish mentions");
    value = whole n;
  }

  collected : ScoreComponents F → F → F → List (Reason F)
  collected components ratio recency_days =
      positive_reason ratio
      ++ (recency_reason components.recency recency_days
          ++ (consistency_reason components.consistency ++ source_reason components.source_quality))

  pub build_why : ScoreComponents F → F → ℕ → F → List (Reason F)
  build_why components ratio mention_count recency_days =
      take 3 (collected components ratio recency_days) ++ (mentions_reason mention_count ∷ [])

  pub build_why_reasons :
      (c : ScoreComponents F) (ratio : F) (n : ℕ) (days : F)
      → is_empty (build_why c ratio n days) ≡ false
  unfolding build_why
  build_why_reasons c ratio n days =
      is_empty-append (take 3 (collected c ratio days)) (mentions_reason n)

  -- What each reason code says of the numbers behind the score.
  abbrev pub Earned : ScoreComponents F → F → ℕ → F → ReasonCode → Type 0
  Earned c ratio n days positive_ratio = positive_ratio_threshold ≼ ratio
  Earned c ratio n days recent = recent_threshold ≼ c.recency
  Earned c ratio n days stale =
      (le recent_threshold c.recency ≡ false) × (le days (lit 365 1) ≡ false)
  Earned c ratio n days consistency = consistency_threshold ≼ c.consistency
  Earned c ratio n days inconsistent =
      (le consistency_threshold c.consistency ≡ false) × (le mixed_limit c.consistency ≡ false)
  Earned c ratio n days source_quality = source_quality_threshold ≼ c.source_quality
  Earned c ratio n days mentions = Unit

  module _ (c : ScoreComponents F) (ratio : F) (n : ℕ) (days : F) where
    abbrev Holds : Reason F → Type 0
    Holds r = Earned c ratio n days r.code

    positive_reason-Holds : All Holds (positive_reason ratio)
    unfolding positive_reason
    positive_reason-Holds = ground arith

    recency_reason-Holds : All Holds (recency_reason c.recency days)
    unfolding recency_reason
    recency_reason-Holds = ground arith

    consistency_reason-Holds : All Holds (consistency_reason c.consistency)
    unfolding consistency_reason
    consistency_reason-Holds = ground arith

    source_reason-Holds : All Holds (source_reason c.source_quality)
    unfolding source_reason
    source_reason-Holds = ground arith

    -- Every reason that is given cleared its own test, and at most four are given.
    build_why-Earned :
        All (λ r. Earned c ratio n days r.code) (build_why c ratio n days)
        × (length (build_why c ratio n days) ≤ 4)
    unfolding build_why collected mentions_reason
    build_why-Earned = (
      All-append Holds (take 3 (collected c ratio days)) _
          (All-take Holds 3 (collected c ratio days) (
            All-append Holds (positive_reason ratio) _ positive_reason-Holds (
              All-append Holds (recency_reason c.recency days) _ recency_reason-Holds (
                All-append Holds (consistency_reason c.consistency) _ consistency_reason-Holds
                  source_reason-Holds))))
          (tt, tt),
      omega (
        arith,
        length-append (take 3 (collected c ratio days)) (mentions_reason n ∷ []),
        length-take-le 3 (collected c ratio days),
      ),
    )

    abbrev speaks_of_recency : Bool
    speaks_of_recency = le recent_threshold c.recency || lt (lit 365 1) days

    abbrev speaks_of_consistency : Bool
    speaks_of_consistency = le consistency_threshold c.consistency || lt c.consistency mixed_limit

    -- When a code is due: the praise and both caveats by their own tests alone, trusted sources only
    -- where the other three left room, and the number of mentions always.
    abbrev pub due : ReasonCode → Bool
    due positive_ratio = le positive_ratio_threshold ratio
    due recent = le recent_threshold c.recency
    due stale = not (le recent_threshold c.recency) && lt (lit 365 1) days
    due consistency = le consistency_threshold c.consistency
    due inconsistent = not (le consistency_threshold c.consistency) && lt c.consistency mixed_limit
    due source_quality =
        le source_quality_threshold c.source_quality
        && not (le positive_ratio_threshold ratio && (speaks_of_recency && speaks_of_consistency))
    due mentions = true

    -- A code is given exactly when its own fixed threshold is met, the one of the source quality only
    -- where fewer than three others are given, and the mention count always. So the cap of three never
    -- hides a caveat.
    pub build_why_complete :
        (code : ReasonCode) → any (λ r. same_code code r.code) (build_why c ratio n days) ≡ due code
    unfolding build_why collected mentions_reason positive_reason recency_reason consistency_reason
        source_reason
    build_why_complete positive_ratio = ground arith
    build_why_complete _ = ground arith
