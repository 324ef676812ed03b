-- ===== src/Trends/Direction.antt =====
-- When `detect_trend` gives a direction, and what the direction means.
use khaabo.Prelude.{
  ℕ, ◌-◌, Bool, true, false, ◌&&◌, Option, none, some, List, leb, max, count, if◌then◌else◌,
}
use khaabo.Float.{Float, nought, lt}
use khaabo.Enums.{TrendDirection, rising, declining}
use khaabo.Ranking.Model.{Observation}
use khaabo.Trends.{
  TrendConfig, in_recent, in_historical, recent_window, historical_window, mean_positivity,
}

abbrev pub is_given : {A : Type 0} → Option A → Bool
is_given none = false
is_given (some a) = true

abbrev pub is_rising : Option TrendDirection → Bool
is_rising (some rising) = true
is_rising _ = false

abbrev pub is_declining : Option TrendDirection → Bool
is_declining (some declining) = true
is_declining _ = false

module _ {F : Type 0} ⦃f : Float F⦄ (cfg : TrendConfig F) (now : ℕ)
    (os : List (Observation F)) where
  open f use {le, sub, neg, div, of_nat}

  abbrev pub delta_of : F
  delta_of =
      sub (mean_positivity (recent_window cfg now os))
        (mean_positivity (historical_window cfg now os))

  abbrev recent_count : ℕ
  recent_count = count (in_recent cfg now) os

  abbrev historical_count : ℕ
  historical_count = count (in_historical cfg now) os

  -- Both windows have the least number of observations.
  abbrev pub enough : Bool
  enough = leb cfg.min_observations recent_count && leb cfg.min_observations historical_count

  abbrev pub went_up : Bool
  went_up = le cfg.delta_threshold delta_of

  abbrev pub went_down : Bool
  went_down = le delta_of (neg cfg.delta_threshold)

  -- Observations a day, of a window of at least a day.
  abbrev daily : ℕ → ℕ → F
  daily n days = div (of_nat n) (of_nat (max 1 days))

  -- Enough recent observations, at the least ratio of the daily rates or above.
  abbrev pub surges : Bool
  surges =
      let recent_rate = daily recent_count cfg.recent_days in
      let historical_rate = daily historical_count (cfg.historical_days - cfg.recent_days) in
      leb cfg.volume_surge_min_recent recent_count
      && le cfg.volume_surge_ratio
          (if lt nought historical_rate then div recent_rate historical_rate else nought)
