-- ===== src/Ranking/Score/Tests.antt =====
-- A run of `compute_dish_score` that gives a score.
use khaabo.Prelude.{◌≡◌, refl, none, some}
use khaabo.Prelude.Int.{ℤ, pos}
use khaabo.Float.{◌≼◌, nought, fmean}
use khaabo.Float.Fixed.{fixed_float, Fixed-IsFloat}
use khaabo.Ranking.Score.{
  compute_dish_score, components_of, is_insufficient, result_with, raw_score_of, youngest,
  weighted_positivity, sentiment_component, recency_component, consistency_component,
  volume_component, source_component, engagement_total, engagement_component, confidence_component,
}
use khaabo.Ranking.Score.Range.{compute_dish_score_range}
use khaabo.Ranking.Evidence.{
  source_quality_for, clamp, positivity, time_decay, age_days, bayesian_shrink, decay_of,
  quality_of, gate_weight_of, weight_of, gate_weight, total_weight, source_quality,
  unverified_user_quality,
}
use khaabo.Tests.Fixtures.{weights, now, mentions}

abbrev scored : ℤ
scored = pos 607_300

compute_dish_score-run : (compute_dish_score weights none now none mentions).score ≡ some scored
unfolding compute_dish_score components_of is_insufficient result_with raw_score_of youngest
    weighted_positivity sentiment_component recency_component consistency_component volume_component
    source_component engagement_total engagement_component confidence_component source_quality_for
    clamp positivity time_decay age_days bayesian_shrink decay_of quality_of gate_weight_of
    weight_of gate_weight total_weight source_quality unverified_user_quality fmean
compute_dish_score-run = refl

compute_dish_score_range_example : (nought ≼ scored) × (scored ≼ pos 1_000_000)
compute_dish_score_range_example =
    compute_dish_score_range Fixed-IsFloat weights none now none mentions scored
      compute_dish_score-run
