-- ===== src/Trends/Windows.antt =====
-- The two windows of `detect_trend` do not overlap, and leave out what has no place in either.
use khaabo.Prelude.{
  ℕ, ◌+◌, ◌≤◌, ◌<◌, ◌≡◌, refl, Bool, true, false, Option, none, some, List, [], ◌∷◌, arith, length,
  count, length-filter, filter,
}
use khaabo.Float.{Float}
use khaabo.Ranking.Model.{Observation}
use khaabo.Trends.{
  TrendConfig, in_recent, in_historical, recent_window, historical_window, is_thin, compare_windows,
  detect_trend,
}

module _ {F : Type 0} (cfg : TrendConfig F) (now : ℕ) where
  -- An observation stands in no window unless it has a date that is not ahead.
  abbrev pub is_placed : Observation F → Bool
  is_placed o = elim o.observed_at [ none ↦ false | some ts ↦ khaabo.Prelude.leb ts.micros now ]

  windows-le :
      (os : List (Observation F))
      → count (in_recent cfg now) os + count (in_historical cfg now) os ≤ count is_placed os
  windows-le [] = omega arith
  windows-le (o ∷ os) = ground (arith, windows-le os)

  historical_none :
      (os : List (Observation F))
      → cfg.historical_days ≤ cfg.recent_days
      → count (in_historical cfg now) os ≡ 0
  historical_none [] h = refl
  historical_none (o ∷ os) h = ground (arith, historical_none os h)

module _ {F : Type 0} ⦃f : Float F⦄ (cfg : TrendConfig F) (now : ℕ) where
  counts-eq :
      (os : List (Observation F))
      → ((detect_trend cfg now os).recent_count ≡ count (in_recent cfg now) os)
        × ((detect_trend cfg now os).historical_count ≡ count (in_historical cfg now) os)
  unfolding detect_trend compare_windows recent_window historical_window
  counts-eq os =
      ground (arith, length-filter (in_recent cfg now) os, length-filter (in_historical cfg now) os)

  -- No observation is counted in both windows, nor one without a date or with a date ahead.
  pub detect_trend_counts :
      (os : List (Observation F))
      → (detect_trend cfg now os).recent_count + (detect_trend cfg now os).historical_count
        ≤ count (is_placed cfg now) os
  detect_trend_counts os = omega (arith, counts-eq os, windows-le cfg now os)

  -- Where the historical window reaches no further back than the recent one, no trend is given,
  -- provided that at least one observation is asked for.
  detect_trend_degenerate :
      (os : List (Observation F))
      → cfg.historical_days ≤ cfg.recent_days
      → 0 < cfg.min_observations
      → (detect_trend cfg now os).direction ≡ none
  unfolding detect_trend compare_windows recent_window historical_window is_thin
  detect_trend_degenerate os h k =
      ground (arith, length-filter (in_historical cfg now) os, historical_none cfg now os h)
