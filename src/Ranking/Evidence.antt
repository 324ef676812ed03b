-- ===== src/Ranking/Evidence.antt =====
-- backend/app/services/ranking.py: the weight of one observation, and the helpers of the score.
use khaabo.Prelude.{
  ℕ, ◌-◌, ◌≡◌, Bool, true, false, not, ◌&&◌, Option, none, some, List, map, ltb, if◌then◌else◌,
  arith,
}
use khaabo.Float.{Float, IsFloat, nought, one, fmax, fmin, fsum, ◌≼◌, InUnit}
use khaabo.Enums.{SourceType, is_user}
use khaabo.Ranking.Model.{Timestamp, RankingWeights, Observation}

module _ {F : Type 0} ⦃f : Float F⦄ where
  open f use {lit, of_nat, add, mul, div, le, half_pow}

  -- `SOURCE_QUALITY.get(source, DEFAULT_SOURCE_QUALITY)`: Google has no entry.
  unfoldable pub source_quality : SourceType → F
  source_quality SourceType.user = lit 90 100
  source_quality SourceType.manual = lit 85 100
  source_quality SourceType.reddit = lit 75 100
  source_quality SourceType.youtube = lit 60 100
  source_quality SourceType.osm = lit 40 100
  source_quality SourceType.google = lit 5 10

  unfoldable pub unverified_user_quality : F
  unverified_user_quality = lit 60 100

  unfoldable pub source_quality_for : SourceType → Bool → F
  unfolding source_quality unverified_user_quality
  source_quality_for source verified =
      if is_user source && not verified then unverified_user_quality else source_quality source

  -- `max(low, min(high, value))`
  unfoldable pub clamp : F → F → F → F
  clamp value low high = fmax low (fmin high value)

  abbrev pub clamp_unit : F → F
  clamp_unit value = clamp value nought one

  unfoldable pub positivity : Observation F → F
  positivity o = div (add (clamp o.sentiment (f.neg one) one) one) (lit 2 1)

  unfoldable pub time_decay : F → F → F
  time_decay age_days halflife_days =
      if le age_days nought
      then one
      else if le halflife_days nought
      then one
      else half_pow (div age_days halflife_days)

  -- The days from `t` to `now`, 0 if `t` lies ahead; 365 for a mention with no date.
  unfoldable pub age_days : Option Timestamp → ℕ → F
  age_days none now = lit 365 1
  age_days (some t) now =
      if ltb now t.micros
      then nought
      else fmax nought (div (div (of_nat (now - t.micros)) (of_nat 1_000_000)) (lit 86_400 1))

  unfoldable pub bayesian_shrink : F → F → F → F → F
  bayesian_shrink observed weight prior m =
      if le weight nought
      then prior
      else div (add (mul observed weight) (mul prior m)) (add weight m)

  -- `decays`, `quals` and `obs_weights`, at one observation.
  unfoldable pub decay_of : RankingWeights F → ℕ → Observation F → F
  decay_of w now o = time_decay (age_days o.observed_at now) w.halflife_days

  unfoldable pub quality_of : Observation F → F
  quality_of o = source_quality_for o.source o.verified_author

  unfoldable pub gate_weight_of : Observation F → F
  gate_weight_of o = mul (fmax nought (clamp_unit o.confidence)) (quality_of o)

  unfoldable pub weight_of : RankingWeights F → ℕ → Observation F → F
  weight_of w now o =
      mul (mul (fmax nought (clamp_unit o.confidence)) (decay_of w now o)) (quality_of o)

  unfoldable pub gate_weight : List (Observation F) → F
  gate_weight observations = fsum (map gate_weight_of observations)

  unfoldable pub total_weight : RankingWeights F → ℕ → List (Observation F) → F
  total_weight w now observations = fsum (map (weight_of w now) observations)

  module _ (laws : IsFloat F) where
    open laws use {le_refl, le_trans, le_total, lit_InUnit, mul_nonneg}

    le_of_not-le : (a b : F) → le b a ≡ false → a ≼ b
    le_of_not-le a b h = ground (arith, le_total a b)

    pub clamp_bounds :
        (value low high : F)
        → low ≼ high
        → (low ≼ clamp value low high) × (clamp value low high ≼ high)
    unfolding clamp
    clamp_bounds value low high h = ground (
      arith,
      le_refl low,
      le_refl high,
      le_of_not-le value high,
      le_of_not-le low high,
      le_of_not-le low value,
    )

    pub clamp_mono : (a b low high : F) → a ≼ b → clamp a low high ≼ clamp b low high
    unfolding clamp
    clamp_mono a b low high h = ground (
      arith,
      le_refl low,
      le_refl high,
      le_refl b,
      le_of_not-le a high,
      le_of_not-le b high,
      le_of_not-le low high,
      le_of_not-le low a,
      le_of_not-le low b,
      le_trans a b high h,
      le_trans a b low h,
      le_trans high b low,
      le_trans a high low,
      le_trans high a b,
    )

    nought_le_one : nought {F = F} ≼ one
    nought_le_one = (lit_InUnit 0 1 (omega arith) (omega arith)).1

    pub clamp_InUnit : (value : F) → InUnit (clamp_unit value)
    clamp_InUnit value = clamp_bounds value nought one nought_le_one

    pub InUnit-if : (b : Bool) (x y : F) → InUnit x → InUnit y → InUnit (if b then x else y)
    InUnit-if true x y h k = h
    InUnit-if false x y h k = k

    -- Every observation's quality is in the unit interval, and an unverified user's is the lower.
    pub source_quality_for-InUnit : (s : SourceType) (v : Bool) → InUnit (source_quality_for s v)
    unfolding source_quality_for
    source_quality_for-InUnit SourceType.user true = lit_InUnit 90 100 (omega arith) (omega arith)
    source_quality_for-InUnit SourceType.user false = lit_InUnit 60 100 (omega arith) (omega arith)
    source_quality_for-InUnit SourceType.manual v = lit_InUnit 85 100 (omega arith) (omega arith)
    source_quality_for-InUnit SourceType.reddit v = lit_InUnit 75 100 (omega arith) (omega arith)
    source_quality_for-InUnit SourceType.youtube v = lit_InUnit 60 100 (omega arith) (omega arith)
    source_quality_for-InUnit SourceType.osm v = lit_InUnit 40 100 (omega arith) (omega arith)
    source_quality_for-InUnit SourceType.google v = lit_InUnit 5 10 (omega arith) (omega arith)
