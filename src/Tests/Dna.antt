-- ===== src/Tests/Dna.antt =====
-- The Food DNA of a small restaurant.
use khaabo.Prelude.{◌≤◌, ◌≡◌, ◌⊎◌, none, some, [], ◌∷◌, All, length}
use khaabo.Prelude.Int.{ℤ, pos}
use khaabo.FoodDna.{DnaInput, build_food_dna}
use khaabo.FoodDna.Earned.{Claim, build_food_dna-Earned}
use khaabo.Float.Fixed.{fixed_float}

abbrev dna : DnaInput ℤ
dna = record {
  dish_labels = ("momo", pos 8000, 6) ∷ ("thukpa", pos 3000, 4) ∷ [];
  attribute_counts = ("spicy", 3) ∷ [];
  aspect_sentiment = ("service", pos 6000) ∷ [];
  price_avg = some (pos 1_000_000);
  city_median_price = some (pos 2_000_000);
  consistency = pos 8000;
  trend = none;
  total_mentions = 10;
  cuisines = "tibetan" ∷ [];
}

build_food_dna-Earned_example :
    All (λ c. Claim dna c.kind) (build_food_dna 6 dna)
    × (length (build_food_dna 6 dna) ≤ 6)
    × ((3 ≤ dna.total_mentions) ⊎ (build_food_dna 6 dna ≡ []))
build_food_dna-Earned_example = build_food_dna-Earned dna 6
