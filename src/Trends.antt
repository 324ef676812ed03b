-- ===== src/Trends.antt =====
-- backend/app/services/trends.py: the recent window of observations against the one before it.
pub mod Windows
pub mod Direction
use khaabo.Prelude.{
  ℕ, ◌+◌, ◌-◌, ◌*◌, Bool, true, false, ◌&&◌, ◌||◌, not, Option, none, some, List, [], ◌∷◌, map, ltb,
  leb, max, if◌then◌else◌, length, filter,
}
use khaabo.Float.{Float, nought, lt, fmean}
use khaabo.Enums.{TrendDirection, rising, stable, declining}
use khaabo.Ranking.Model.{Timestamp, Observation}
use khaabo.Ranking.Evidence.{positivity}

pub record TrendConfig (F : Type 0) : Type 0 where
  pub recent_days : ℕ
  pub historical_days : ℕ
  pub delta_threshold : F
  pub min_observations : ℕ
  pub volume_surge_ratio : F
  pub volume_surge_min_recent : ℕ

pub data TrendReason : Type 0 where
  insufficient_data sentiment_up sentiment_down volume_surge flat : TrendReason

-- The direction, its significance and the reason.
abbrev pub Verdict : Type 0
Verdict = TrendDirection × Bool × TrendReason

pub record TrendResult (F : Type 0) : Type 0 where
  pub direction : Option TrendDirection
  pub delta : Option F
  pub recent_sentiment : Option F
  pub historical_sentiment : Option F
  pub recent_count : ℕ
  pub historical_count : ℕ
  pub significant : Bool
  pub reason : TrendReason

-- `timedelta(days=n)`
abbrev pub days : ℕ → ℕ
days n = n * 86_400_000_000

-- `ts >= now - timedelta(days=n)`, with the days on the other side.
abbrev pub since : ℕ → ℕ → Timestamp → Bool
since now n ts = leb now (ts.micros + days n)

-- The tests of the loop, in its order: a date, not in the future, and then one window or the other.
abbrev pub in_recent : {F : Type 0} → TrendConfig F → ℕ → Observation F → Bool
in_recent cfg now o = elim o.observed_at [
  | none ↦ false
  | some ts ↦ not (ltb now ts.micros) && since now cfg.recent_days ts
]

abbrev pub in_historical : {F : Type 0} → TrendConfig F → ℕ → Observation F → Bool
in_historical cfg now o = elim o.observed_at [
  | none ↦ false
  | some ts ↦
      not (ltb now ts.micros)
      && (not (since now cfg.recent_days ts) && since now cfg.historical_days ts)
]

pub recent_window : {F : Type 0} → TrendConfig F → ℕ → List (Observation F) → List (Observation F)
recent_window cfg now observations = filter (in_recent cfg now) observations

pub historical_window :
    {F : Type 0} → TrendConfig F → ℕ → List (Observation F) → List (Observation F)
historical_window cfg now observations = filter (in_historical cfg now) observations

module _ {F : Type 0} ⦃f : Float F⦄ where
  open f use {of_nat, sub, div, le, neg, round}

  pub mean_positivity : List (Observation F) → F
  mean_positivity observations = fmean (map positivity observations)

  abbrev mean_if_any : List (Observation F) → Option F
  mean_if_any [] = none
  mean_if_any (o ∷ os) = some (mean_positivity (o ∷ os))

  -- The ratio of the two daily rates.
  pub volume_ratio : TrendConfig F → ℕ → ℕ → F
  volume_ratio cfg recent historical =
      let recent_rate = div (of_nat recent) (of_nat (max 1 cfg.recent_days)) in
      let historical_rate =
        div (of_nat historical) (of_nat (max 1 (cfg.historical_days - cfg.recent_days))) in
      if lt nought historical_rate then div recent_rate historical_rate else nought

  pub judge : TrendConfig F → F → ℕ → ℕ → Verdict
  judge cfg delta recent historical =
      if le cfg.delta_threshold delta
      then (rising, true, sentiment_up)
      else if le delta (neg cfg.delta_threshold)
      then (declining, true, sentiment_down)
      else if le cfg.volume_surge_ratio (volume_ratio cfg recent historical)
          && leb cfg.volume_surge_min_recent recent
      then (rising, false, volume_surge)
      else (stable, false, flat)

  pub is_thin : TrendConfig F → ℕ → ℕ → Bool
  is_thin cfg recent historical =
      ltb recent cfg.min_observations || ltb historical cfg.min_observations

  pub compare_windows : TrendConfig F → List (Observation F) → List (Observation F) → TrendResult F
  compare_windows cfg recent historical =
      let recent_p = mean_positivity recent in
      let historical_p = mean_positivity historical in
      let delta = sub recent_p historical_p in
      let verdict : Verdict = judge cfg delta (length recent) (length historical) in
      if is_thin cfg (length recent) (length historical)
      then record {
        direction = none;
        delta = none;
        recent_sentiment = mean_if_any recent;
        historical_sentiment = mean_if_any historical;
        recent_count = length recent;
        historical_count = length historical;
        significant = false;
        reason = insufficient_data;
      }
      else record {
        direction = some verdict.0;
        delta = some (round delta 4);
        recent_sentiment = some (round recent_p 4);
        historical_sentiment = some (round historical_p 4);
        recent_count = length recent;
        historical_count = length historical;
        significant = verdict.1;
        reason = verdict.2;
      }

  pub detect_trend : TrendConfig F → ℕ → List (Observation F) → TrendResult F
  detect_trend cfg now observations =
      compare_windows cfg (recent_window cfg now observations)
        (historical_window cfg now observations)
