-- ===== src/Ranking/Score/Gate.antt =====
-- The honesty gate of `compute_dish_score`: a pair is ranked on enough mentions of enough weight,
-- and the result says nothing more where it is not.
use khaabo.Prelude.{
  ℕ, ◌≡◌, refl, Bool, true, false, not, ◌&&◌, Option, none, some, List, [], ◌∷◌, arith, leb, length,
  is_empty, Bool-cases, inl, inr,
}
use khaabo.Float.{Float}
use khaabo.Enums.{is_ranked_status}
use khaabo.Ranking.Model.{RankingWeights, Observation}
use khaabo.Ranking.Evidence.{gate_weight}
use khaabo.Ranking.Why.{build_why_reasons}
use khaabo.Ranking.Score.{is_insufficient, compute_dish_score, no_evidence, result_with}

abbrev pub is_none : {A : Type 0} → Option A → Bool
is_none none = true
is_none (some x) = false

module _ {F : Type 0} ⦃f : Float F⦄ where
  open f use {le}

  -- Enough mentions, of enough weight.
  abbrev pub is_enough : RankingWeights F → List (Observation F) → Bool
  is_enough w os =
      not (is_empty os) && (leb w.min_mentions (length os) && le w.min_weight (gate_weight os))

  is_insufficient-eq-not :
      (w : RankingWeights F) (o : Observation F) (os : List (Observation F))
      → is_insufficient w (o ∷ os) ≡ not (is_enough w (o ∷ os))
  unfolding is_insufficient
  is_insufficient-eq-not w o os = ground arith

  module _ (w : RankingWeights F) (prior : Option F) (now : ℕ) (median : Option F) where
    -- A pair is ranked, with a score and reasons, exactly if it has the least number of mentions and
    -- the least undecayed weight; the prior, the time and the prices do not matter. Otherwise the
    -- score is `None` and no reason is given. The mentions are counted in each case.
    pub compute_dish_score_gate :
        (observations : List (Observation F))
        → let r = compute_dish_score w prior now median observations in
          let enough = is_enough w observations in
          (is_ranked_status r.status ≡ enough)
          × (is_none r.score ≡ not enough)
          × (is_empty r.why ≡ not enough)
          × (r.mention_count ≡ length observations)
    unfolding compute_dish_score no_evidence result_with
    compute_dish_score_gate [] = (refl, refl, refl, refl)
    compute_dish_score_gate (o ∷ os) =
        let bridge = is_insufficient-eq-not w o os in
        elim (Bool-cases (is_enough w (o ∷ os))) [
          | inl e ↦ rw (bridge, e) (refl, refl, build_why_reasons _ _ _ _, refl)
          | inr e ↦ rw (bridge, e) (refl, refl, refl, refl)
        ]
