-- ===== src/Ranking/Score/Range.antt =====
-- The ranges of the components, the raw score and the score of `compute_dish_score`.
use khaabo.Prelude.{
  ℕ, ◌≡◌, Option, none, some, List, [], ◌∷◌, arith, Bool-cases, inl, inr, zip_with, All,
}
use mathlib.Core.Option.{some-injective}
use khaabo.Float.{Float, IsFloat, nought, one, fsum_from, ◌≼◌, InUnit}
use khaabo.Ranking.Model.{
  RankingWeights, Observation, ScoreComponents, components_as_list, weights_as_list,
}
use khaabo.Ranking.Evidence.{clamp_InUnit, clamp_mono, InUnit-if}
use khaabo.Ranking.Score.{
  sentiment_component, recency_component, consistency_component, volume_component, source_component,
  engagement_component, confidence_component, components_of, raw_score_of, is_insufficient,
  compute_dish_score, no_evidence, result_with,
}

module _ {F : Type 0} ⦃f : Float F⦄ (laws : IsFloat F) where
  open f use {lit, mul, le, round}
  open laws use {
    le_refl, le_trans, lit_InUnit, mul_nonneg, mul_mono, one_mul, nought_le_lit, round_mono,
    round-lit, add_mono,
  }

  consistency_component-InUnit :
      (observations : List (Observation F)) → InUnit (consistency_component observations)
  unfolding consistency_component
  consistency_component-InUnit observations =
      InUnit-if laws _ _ _ (clamp_InUnit laws _) (lit_InUnit 5 10 (omega arith) (omega arith))

  -- Every component of every result lies between 0 and 1, whatever the observations and the weights.
  components_of-InUnit :
      (w : RankingWeights F) (prior : Option F) (now : ℕ) (observations : List (Observation F))
      → All InUnit (components_as_list (components_of w prior now observations))
  unfolding components_of sentiment_component recency_component volume_component source_component
      engagement_component confidence_component
  components_of-InUnit w prior now observations = (
    clamp_InUnit laws _,
    (
      clamp_InUnit laws _,
      (
        consistency_component-InUnit observations,
        (
          clamp_InUnit laws _,
          (clamp_InUnit laws _, (clamp_InUnit laws _, (clamp_InUnit laws _, tt))),
        ),
      ),
    ),
  )

  absurd_score : {P : Type 0} {s : F} → ◌≡◌ {A = Option F} none (some s) → P
  absurd_score h = cc

  percent_range :
      (raw : F)
      → InUnit raw
      → (nought ≼ round (mul raw (lit 100 1)) 3) × (round (mul raw (lit 100 1)) 3 ≼ lit 100 1)
  percent_range raw (low, high) =
      let hundred : nought ≼ lit 100 1 = nought_le_lit 100 1 in
      let below : mul raw (lit 100 1) ≼ lit 100 1 =
        rw one_mul at (mul_mono raw one (lit 100 1) (lit 100 1) low high hundred (le_refl _)) in
      (
        rw round-lit at (round_mono nought (mul raw (lit 100 1)) 3 (mul_nonneg _ _ low hundred)),
        rw round-lit at (round_mono (mul raw (lit 100 1)) (lit 100 1) 3 below),
      )

  -- A score that is given lies between 0 and 100.
  pub compute_dish_score_range :
      (w : RankingWeights F) (prior : Option F) (now : ℕ) (median : Option F)
      (observations : List (Observation F)) (s : F)
      → (compute_dish_score w prior now median observations).score ≡ some s
      → (nought ≼ s) × (s ≼ lit 100 1)
  unfolding compute_dish_score no_evidence result_with raw_score_of
  compute_dish_score_range w prior now median [] s h = cc
  compute_dish_score_range w prior now median (o ∷ os) s h =
      elim (Bool-cases (is_insufficient w (o ∷ os))) [
        | inl e ↦ absurd_score (rw e at h)
        | inr e ↦
            let given = some-injective _ _ (rw e at h) in
            rw (← given) (percent_range _ (clamp_InUnit laws _))
      ]

  -- One vector of components lies below another, both with no negative entry.
  abbrev AllBelow : List F → List F → Type 0
  AllBelow [] [] = Unit
  AllBelow (x ∷ xs) (y ∷ ys) = (nought ≼ x) × (x ≼ y) × AllBelow xs ys
  AllBelow _ _ = ⊥

  fsum_from_mono :
      (a b : F) (xs ys ws : List F)
      → a ≼ b
      → AllBelow xs ys
      → All (λ w. nought ≼ w) ws
      → fsum_from a (zip_with mul xs ws) ≼ fsum_from b (zip_with mul ys ws)
  fsum_from_mono a b [] [] ws h k n = h
  fsum_from_mono a b [] (y ∷ ys) ws h k n = elim k [ ]
  fsum_from_mono a b (x ∷ xs) [] ws h k n = elim k [ ]
  fsum_from_mono a b (x ∷ xs) (y ∷ ys) [] h k n = h
  fsum_from_mono a b (x ∷ xs) (y ∷ ys) (w ∷ ws) h k n =
      fsum_from_mono (f.add a (mul x w)) (f.add b (mul y w)) xs ys ws
        (add_mono a b (mul x w) (mul y w) h (mul_mono x y w w k.0 k.1 n.0 (le_refl w))) k.2 n.1

  -- With weights and components that are not negative, raising components never lowers the raw
  -- score.
  raw_score_of_mono :
      (w : RankingWeights F) (c d : ScoreComponents F)
      → All (λ x. nought ≼ x) (weights_as_list w)
      → AllBelow (components_as_list c) (components_as_list d)
      → raw_score_of w c ≼ raw_score_of w d
  unfolding raw_score_of
  raw_score_of_mono w c d n k = clamp_mono laws _ _ _ _ (
      fsum_from_mono nought nought (components_as_list c) (components_as_list d) (weights_as_list w)
        (le_refl _) k n)
