-- ===== src/Tests/Ranking.antt =====
-- The theorems on ranking and trends, at small lists of observations.
use khaabo.Prelude.{
  ◌+◌, ◌≤◌, ◌≡◌, refl, ◌⊎◌, true, not, none, length, is_empty, arith, count, any, All, str_eq,
  if◌then◌else◌,
}
use khaabo.Prelude.Int.{pos}
use khaabo.Float.{◌≼◌}
use khaabo.Float.Fixed.{fixed_float, Fixed-IsFloat}
use khaabo.Enums.{is_ranked_status}
use khaabo.Ranking.Model.{stale}
use khaabo.Ranking.Why.{build_why, build_why_complete, due, same_code}
use khaabo.Ranking.Attributes.{top_attributes, occurrences}
use khaabo.Ranking.Attributes.Frequent.{top_attributes_dominant}
use khaabo.Ranking.Score.{compute_dish_score}
use khaabo.Ranking.Score.Gate.{compute_dish_score_gate, is_enough, is_none}
use khaabo.Ranking.Badges.{assign_badges, is_valued, value_key}
use khaabo.Ranking.Badges.BestValue.{best_value_lem}
use khaabo.Trends.{detect_trend}
use khaabo.Trends.Direction.{enough}
use khaabo.Trends.Windows.{detect_trend_counts, is_placed}
use khaabo.Tests.Fixtures.{weights, now, mentions, low_components, entries, trend_config}

compute_dish_score_gate_example :
    let r = compute_dish_score weights none now none mentions in
    let enough = is_enough weights mentions in
    (is_ranked_status r.status ≡ enough)
    × (is_none r.score ≡ not enough)
    × (is_empty r.why ≡ not enough)
    × (r.mention_count ≡ length mentions)
compute_dish_score_gate_example = compute_dish_score_gate weights none now none mentions

best_value_lem_example :
    (count (λ e. e.result.is_best_value) (assign_badges entries)
      ≡ (if any is_valued entries then 1 else 0))
    × All
        (λ e.
          e.result.is_best_value ≡ true
          → All (λ o. is_valued o ≡ true → value_key o ≼ value_key e) entries)
        (assign_badges entries)
best_value_lem_example = best_value_lem Fixed-IsFloat entries (refl, (refl, tt))

detect_trend_counts_example :
    (detect_trend trend_config now mentions).recent_count
      + (detect_trend trend_config now mentions).historical_count
    ≤ count (is_placed trend_config now) mentions
detect_trend_counts_example = detect_trend_counts trend_config now mentions

build_why_complete_example :
    any (λ r. same_code stale r.code) (build_why low_components (pos 8000) 5 (pos 100_000))
    ≡ due low_components (pos 8000) 5 (pos 100_000) stale
build_why_complete_example = build_why_complete low_components (pos 8000) 5 (pos 100_000) stale

top_attributes_dominant_example :
    (any (λ a. str_eq a "smoky") (top_attributes 1 mentions) ≡ true)
    ⊎ All (λ a. occurrences "smoky" mentions ≤ occurrences a mentions) (top_attributes 1 mentions)
top_attributes_dominant_example = top_attributes_dominant 1 mentions "smoky" (ground arith)
