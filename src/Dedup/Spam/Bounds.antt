-- ===== src/Dedup/Spam/Bounds.antt =====
-- The spam score is a share of one.
use khaabo.Prelude.{ℕ, inl, inr, Bool, true, false, List, String, arith, str_eq, Bool-cases}
use khaabo.Float.{Float, IsFloat, ◌≼◌, InUnit, nought, one, lt, fmin}
use khaabo.Dedup.Spam.{Reader, add_if, repetition, spam_total, spam_score}

module _ {F : Type 0} ⦃f : Float F⦄ (laws : IsFloat F) (r : Reader) where
  open f use {lit, of_nat, add, mul, round}
  open laws use {
    le_refl, le_total, lit_InUnit, mul_nonneg, add_nonneg, nought_le_lit, of_nat-eq-lit, round_mono,
    round-lit,
  }

  add_if_nonneg :
      (test : Bool) (amount score : F)
      → nought ≼ amount
      → nought ≼ score
      → nought ≼ add_if r test amount score
  add_if_nonneg true amount score h k = add_nonneg score amount k h
  add_if_nonneg false amount score h k = k

  fmin_nonneg : (a b : F) → nought ≼ a → nought ≼ b → nought ≼ fmin a b
  fmin_nonneg a b h k = elim (Bool-cases (lt b a)) [ inl e ↦ rw e k | inr e ↦ rw e h ]

  -- A number of hits, each so much, up to a limit.
  counted_nonneg : (p n q : ℕ) → nought ≼ fmin (lit p 100) (mul (of_nat n) (lit q 100))
  counted_nonneg p n q =
      fmin_nonneg _ _ (nought_le_lit p 100)
        (mul_nonneg _ _ (rw (of_nat-eq-lit n) (nought_le_lit n 1)) (nought_le_lit q 100))

  repetition_nonneg : (tokens : List String) → ◌≼◌ {F = F} nought (repetition r tokens)
  repetition_nonneg tokens =
      ground (arith, nought_le_lit 45 100, nought_le_lit 25 100, le_refl nought)

  spam_total_nonneg : (body : String) (links : ℕ) → ◌≼◌ {F = F} nought (spam_total r body links)
  unfolding spam_total
  spam_total_nonneg body links = add_if_nonneg _ _ _ (nought_le_lit 15 100) (
      add_if_nonneg _ _ _ (nought_le_lit 15 100) (
        add_nonneg _ _
          (add_nonneg _ _
            (add_nonneg _ _
              (add_nonneg _ _ (add_if_nonneg _ _ _ (nought_le_lit 35 100) (le_refl nought))
                (repetition_nonneg (r.tokenize body)))
              (counted_nonneg 40 _ 20))
            (counted_nonneg 45 _ 18))
          (counted_nonneg 20 links 10)))

  fmin-le_one : (a : F) → fmin one a ≼ one
  fmin-le_one a = elim (Bool-cases (lt a one)) [
    | inl e ↦ elim (le_total a one) [ inl k ↦ rw e k | inr k ↦ ground (arith, e, k) ]
    | inr e ↦ rw e (le_refl one)
  ]

  -- The spam score of every text lies between 0 and 1, whatever its words, marks and links.
  pub spam_score-InUnit : (text : String) (links : ℕ) → InUnit {F = F} (spam_score r text links)
  unfolding spam_score
  spam_score-InUnit text links = elim (Bool-cases (str_eq (r.strip text) "")) [
    | inl e ↦ rw e (lit_InUnit 1 1 (omega arith) (omega arith))
    | inr e ↦
        let total = fmin one (spam_total r (r.strip text) links) in
        rw e (
          rw round-lit at (
              round_mono nought total 4
                (fmin_nonneg one _ (nought_le_lit 1 1) (spam_total_nonneg (r.strip text) links))),
          rw round-lit at
              (round_mono total one 4 (fmin-le_one (spam_total r (r.strip text) links))),
        )
  ]
