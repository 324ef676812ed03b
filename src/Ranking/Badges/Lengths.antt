-- ===== src/Ranking/Badges/Lengths.antt =====
-- `assign_badges` marks entries and keeps their number.
use khaabo.Prelude.{
  ℕ, zero, suc, ◌≡◌, refl, ◌∙◌, Bool, true, false, Option, none, some, List, [], ◌∷◌, arith,
  if◌then◌else◌, length, length-map, modify_at,
}
use khaabo.Float.{Float}
use khaabo.Ranking.Model.{RankedEntry}
use khaabo.Ranking.Badges.{
  assign_badges, mark_at, mark_best_value, mark_most_consistent, mark_hidden_gems,
}

length-modify_at {ℓ} :
    {A : Type ℓ} (i : ℕ) (g : A → A) (xs : List A) → length (modify_at i g xs) ≡ length xs
length-modify_at i g [] = refl
length-modify_at zero g (x ∷ xs) = refl
length-modify_at (suc i) g (x ∷ xs) = omega (arith, length-modify_at i g xs)

length-if {ℓ} :
    {A : Type ℓ} (b : Bool) (xs ys : List A) (n : ℕ)
    → length xs ≡ n
    → length ys ≡ n
    → length (if b then xs else ys) ≡ n
length-if true xs ys n h k = h
length-if false xs ys n h k = k

module _ {F : Type 0} ⦃f : Float F⦄ where
  length-mark_at :
      (set : RankedEntry F → RankedEntry F) (at : Option (ℕ × F)) (es : List (RankedEntry F))
      → length (mark_at set at es) ≡ length es
  length-mark_at set none es = refl
  length-mark_at set (some (i, key)) es = length-modify_at i set es

  length-mark_best_value : (es : List (RankedEntry F)) → length (mark_best_value es) ≡ length es
  unfolding mark_best_value
  length-mark_best_value es = length-mark_at _ _ es

  length-mark_most_consistent :
      (es : List (RankedEntry F)) → length (mark_most_consistent es) ≡ length es
  unfolding mark_most_consistent
  length-mark_most_consistent es = length-mark_at _ _ es

  length-mark_hidden_gems : (es : List (RankedEntry F)) → length (mark_hidden_gems es) ≡ length es
  unfolding mark_hidden_gems
  length-mark_hidden_gems es = length-if _ _ _ _ (length-map _ es) refl

  pub length-assign_badges : (es : List (RankedEntry F)) → length (assign_badges es) ≡ length es
  unfolding assign_badges
  length-assign_badges es =
      length-if _ _ _ _
        (length-mark_hidden_gems _ ∙ length-mark_most_consistent _ ∙ length-mark_best_value es) refl
