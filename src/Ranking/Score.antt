-- ===== src/Ranking/Score.antt =====
-- backend/app/services/ranking.py, `compute_dish_score`: the score of one (dish, restaurant) pair.
-- The weights and the time are arguments: where the caller leaves them out, the code takes those of
-- the settings and of the clock. Each component is a function of its own.
pub mod Range
pub mod Gate
mod Tests
use khaabo.Prelude.{
  ℕ, ◌+◌, Bool, true, false, ◌&&◌, ◌||◌, not, Option, none, some, List, [], ◌∷◌, map, String,
  if◌then◌else◌, length, count, all, ltb, leb, zip_with,
}
use khaabo.Prelude.Int.{pos_part}
use khaabo.Float.{Float, nought, one, lt, eqf, fmin, fsum, fmean}
use khaabo.Enums.{ScoreStatus, ranked, insufficient_data, is_ai}
use khaabo.Ranking.Model.{
  RankingWeights, Observation, ScoreComponents, DishScoreResult, Reason, components_as_list,
  weights_as_list,
}
use khaabo.Ranking.Evidence.{
  clamp, clamp_unit, positivity, time_decay, age_days, bayesian_shrink, decay_of, quality_of,
  gate_weight, weight_of, total_weight,
}
use khaabo.Ranking.Why.{build_why}
use khaabo.Ranking.Attributes.{top_attributes}

module _ {F : Type 0} ⦃f : Float F⦄ where
  open f use {lit, of_nat, add, sub, mul, div, le, round, log1p, pstdev}

  abbrev youngest_from : ℕ → F → List (Observation F) → F
  youngest_from now m [] = m
  youngest_from now m (o ∷ os) = youngest_from now (fmin m (age_days o.observed_at now)) os

  -- `min(ages)`; the list is not empty where the code calls it.
  pub youngest : ℕ → List (Observation F) → F
  youngest now [] = nought
  youngest now (o ∷ os) = youngest_from now (age_days o.observed_at now) os

  -- `weighted_p`
  pub weighted_positivity : RankingWeights F → ℕ → List (Observation F) → F
  weighted_positivity w now observations =
      let total = total_weight w now observations in
      if lt nought total
      then div (fsum (map (λ o. mul (positivity o) (weight_of w now o)) observations)) total
      else fmean (map positivity observations)

  pub sentiment_component : RankingWeights F → Option F → ℕ → List (Observation F) → F
  sentiment_component w prior now observations =
      let prior_value : F = elim prior [ none ↦ w.bayes_prior | some p ↦ p ] in
      clamp_unit (
        bayesian_shrink (weighted_positivity w now observations) (total_weight w now observations)
          prior_value w.bayes_m)

  pub recency_component : RankingWeights F → ℕ → List (Observation F) → F
  recency_component w now observations =
      clamp_unit (time_decay (youngest now observations) w.halflife_days)

  pub consistency_component : List (Observation F) → F
  consistency_component observations =
      if leb 3 (length observations)
      then clamp_unit (sub one (fmin one (div (pstdev (map positivity observations)) (lit 5 10))))
      else lit 5 10

  pub volume_component : RankingWeights F → List (Observation F) → F
  volume_component w observations =
      clamp_unit (div (log1p (of_nat (length observations))) (log1p w.volume_saturation))

  pub source_component : RankingWeights F → ℕ → List (Observation F) → F
  source_component w now observations =
      let decay_sum = fsum (map (decay_of w now) observations) in
      let decay_total : F = if eqf decay_sum nought then one else decay_sum in
      clamp_unit
        (div (fsum (map (λ o. mul (quality_of o) (decay_of w now o)) observations)) decay_total)

  pub engagement_total : List (Observation F) → ℕ
  engagement_total [] = 0
  engagement_total (o ∷ os) = pos_part o.engagement + engagement_total os

  pub engagement_component : RankingWeights F → List (Observation F) → F
  engagement_component w observations =
      clamp_unit
        (div (log1p (of_nat (engagement_total observations))) (log1p w.engagement_saturation))

  pub confidence_component : List (Observation F) → F
  confidence_component observations =
      let mean_conf = fmean (map (λ o. clamp_unit o.confidence) observations) in
      let alias_only = all (λ o. not (is_ai o.extraction_method)) observations in
      clamp_unit (
        mul (mul mean_conf (if alias_only then lit 85 100 else one))
          (if leb 3 (length observations) then one else lit 8 10))

  pub components_of : RankingWeights F → Option F → ℕ → List (Observation F) → ScoreComponents F
  components_of w prior now observations = record {
    sentiment = sentiment_component w prior now observations;
    recency = recency_component w now observations;
    consistency = consistency_component observations;
    volume = volume_component w observations;
    source_quality = source_component w now observations;
    engagement = engagement_component w observations;
    confidence = confidence_component observations;
  }

  -- `sum(components.as_dict()[k] * v for k, v in w.as_dict().items())`
  pub raw_score_of : RankingWeights F → ScoreComponents F → F
  raw_score_of w c = clamp_unit (fsum (zip_with mul (components_as_list c) (weights_as_list w)))

  pub positive_ratio_of : List (Observation F) → F
  positive_ratio_of observations =
      div (of_nat (count (λ o. lt (lit 15 100) o.sentiment) observations))
        (of_nat (length observations))

  -- `[o.price for o in observations if o.price and o.price > 0]`
  pub prices_of : List (Observation F) → List F
  prices_of [] = []
  prices_of (o ∷ os) =
      let rest = prices_of os in
      elim o.price [ none ↦ rest | some p ↦ if lt nought p then p ∷ rest else rest ]

  pub price_avg_of : List (Observation F) → Option F
  price_avg_of observations = elim (prices_of observations) [
    | [] ↦ none
    | p ∷ ps ↦ some (fmean (p ∷ ps))
  ]

  -- `not x` of a float that may be missing.
  abbrev pub is_falsy : Option F → Bool
  is_falsy none = true
  is_falsy (some x) = eqf x nought

  value_of : F → F → F → F
  value_of sentiment price median =
      round (clamp_unit (mul sentiment (clamp (div median price) (lit 5 10) (lit 16 10)))) 4

  -- `_value_score`
  pub value_score_of : F → Option F → Option F → Option F
  value_score_of sentiment (some price) (some median) =
      if eqf price nought || (eqf median nought || le median nought)
      then none
      else some (value_of sentiment price median)
  value_score_of sentiment _ _ = none

  abbrev rounded : Option F → Option F
  rounded none = none
  rounded (some p) = if eqf p nought then none else some (round p 2)

  no_components : ScoreComponents F
  no_components = record {
    sentiment = nought;
    recency = nought;
    consistency = nought;
    volume = nought;
    source_quality = nought;
    engagement = nought;
    confidence = nought;
  }

  -- The result of an empty list of observations.
  no_evidence : RankingWeights F → DishScoreResult F
  no_evidence w = record {
    status = insufficient_data;
    score = none;
    raw_score = none;
    components = no_components;
    positive_ratio = nought;
    mention_count = 0;
    evidence_weight = nought;
    consistency = nought;
    recency_days = none;
    bayesian_score = none;
    price_avg = none;
    value_score = none;
    why = [];
    top_attributes = [];
    weights_version = w.version;
    observed_positivity = nought;
    is_best_value = false;
    is_hidden_gem = false;
    is_most_consistent = false;
    trend = none;
    trend_delta = none;
  }

  -- What the two other results share, and where they differ.
  result_with :
      RankingWeights F
      → Option F
      → ℕ
      → Option F
      → List (Observation F)
      → ScoreStatus
      → Option F
      → List (Reason F)
      → DishScoreResult F
  result_with w prior now median observations status score why =
      let c = components_of w prior now observations in
      let price = price_avg_of observations in
      record {
        status = status;
        score = score;
        raw_score = some (round (raw_score_of w c) 5);
        components = c;
        positive_ratio = round (positive_ratio_of observations) 4;
        mention_count = length observations;
        evidence_weight = round (total_weight w now observations) 4;
        consistency = round c.consistency 4;
        recency_days = some (round (youngest now observations) 2);
        bayesian_score = some (round c.sentiment 4);
        price_avg = rounded price;
        value_score = value_score_of c.sentiment price median;
        why = why;
        top_attributes = top_attributes 6 observations;
        weights_version = w.version;
        observed_positivity = round (weighted_positivity w now observations) 4;
        is_best_value = false;
        is_hidden_gem = false;
        is_most_consistent = false;
        trend = none;
        trend_delta = none;
      }

  -- `insufficient`
  pub is_insufficient : RankingWeights F → List (Observation F) → Bool
  is_insufficient w observations =
      ltb (length observations) w.min_mentions || lt (gate_weight observations) w.min_weight

  pub compute_dish_score :
      RankingWeights F → Option F → ℕ → Option F → List (Observation F) → DishScoreResult F
  compute_dish_score w prior now median [] = no_evidence w
  compute_dish_score w prior now median (o ∷ os) =
      let observations : List (Observation F) = o ∷ os in
      let c = components_of w prior now observations in
      if is_insufficient w observations
      then result_with w prior now median observations insufficient_data none []
      else result_with w prior now median observations ranked
          (some (round (mul (raw_score_of w c) (lit 100 1)) 3))
          (build_why c (positive_ratio_of observations) (length observations)
            (youngest now observations))
