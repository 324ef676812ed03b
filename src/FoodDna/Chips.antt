-- ===== src/FoodDna/Chips.antt =====
-- The kinds of chips, with their texts (backend/app/services/food_dna.py). An emoji stands without
-- its variation selector.
use khaabo.Prelude.{ℕ, Bool, true, false, List, [], ◌∷◌, String, if◌then◌else◌, ◌==◌}
use Prim.Native.String.{◌++◌}

pub data ChipKind : Type 0 where
  strong cuisine : String → ChipKind
  spicy generous small_portions oily late_night authentic affordable premium mid_range consistent
        hit_or_miss great_service slow_service hygiene_concerns good_ambience rising declining :
      ChipKind

pub data Group : Type 0 where
  signature_dish spice price portion consistency ambience timing hygiene trend : Group

-- The place in `CHIP_ORDER`.
unfoldable pub group_rank : Group → ℕ
group_rank Group.signature_dish = 0
group_rank Group.spice = 1
group_rank Group.price = 2
group_rank Group.portion = 3
group_rank Group.consistency = 4
group_rank Group.ambience = 5
group_rank Group.timing = 6
group_rank Group.hygiene = 7
group_rank Group.trend = 8

abbrev pub same_group : Group → Group → Bool
unfolding group_rank
same_group a b = group_rank a == group_rank b

-- `{"price", "consistency", "trend"}`
abbrev pub is_exclusive : Group → Bool
is_exclusive Group.price = true
is_exclusive Group.consistency = true
is_exclusive Group.trend = true
is_exclusive _ = false

unfoldable pub group_of : ChipKind → Group
group_of (ChipKind.strong name) = Group.signature_dish
group_of (ChipKind.cuisine name) = Group.signature_dish
group_of ChipKind.spicy = Group.spice
group_of ChipKind.generous = Group.portion
group_of ChipKind.small_portions = Group.portion
group_of ChipKind.oily = Group.portion
group_of ChipKind.late_night = Group.timing
group_of ChipKind.authentic = Group.ambience
group_of ChipKind.affordable = Group.price
group_of ChipKind.premium = Group.price
group_of ChipKind.mid_range = Group.price
group_of ChipKind.consistent = Group.consistency
group_of ChipKind.hit_or_miss = Group.consistency
group_of ChipKind.great_service = Group.ambience
group_of ChipKind.slow_service = Group.ambience
group_of ChipKind.hygiene_concerns = Group.hygiene
group_of ChipKind.good_ambience = Group.ambience
group_of ChipKind.rising = Group.trend
group_of ChipKind.declining = Group.trend

-- Python's string methods.
pub record Text : Type 0 where
  pub lower : String → String
  pub title : String → String
  pub underscored : String → String
  pub contains : String → String → Bool

module _ (t : Text) where
  pub code_of : ChipKind → String
  code_of (ChipKind.strong name) = "strong_" ++ t.underscored (t.lower name)
  code_of (ChipKind.cuisine name) = "cuisine_" ++ t.underscored (t.lower name)
  code_of ChipKind.spicy = "spicy"
  code_of ChipKind.generous = "generous"
  code_of ChipKind.small_portions = "small_portions"
  code_of ChipKind.oily = "oily"
  code_of ChipKind.late_night = "late_night"
  code_of ChipKind.authentic = "authentic"
  code_of ChipKind.affordable = "affordable"
  code_of ChipKind.premium = "premium"
  code_of ChipKind.mid_range = "mid_range"
  code_of ChipKind.consistent = "consistent"
  code_of ChipKind.hit_or_miss = "hit_or_miss"
  code_of ChipKind.great_service = "great_service"
  code_of ChipKind.slow_service = "slow_service"
  code_of ChipKind.hygiene_concerns = "hygiene_concerns"
  code_of ChipKind.good_ambience = "good_ambience"
  code_of ChipKind.rising = "rising"
  code_of ChipKind.declining = "declining"

  pub label_of : ChipKind → String
  label_of (ChipKind.strong name) = "Strong " ++ t.title name
  label_of (ChipKind.cuisine name) = t.title name
  label_of ChipKind.spicy = "Spicy"
  label_of ChipKind.generous = "Generous Portions"
  label_of ChipKind.small_portions = "Small Portions"
  label_of ChipKind.oily = "On the Oily Side"
  label_of ChipKind.late_night = "Late Night"
  label_of ChipKind.authentic = "Authentic"
  label_of ChipKind.affordable = "Affordable"
  label_of ChipKind.premium = "Premium"
  label_of ChipKind.mid_range = "Mid Range"
  label_of ChipKind.consistent = "Consistent"
  label_of ChipKind.hit_or_miss = "Hit or Miss"
  label_of ChipKind.great_service = "Great Service"
  label_of ChipKind.slow_service = "Slow Service"
  label_of ChipKind.hygiene_concerns = "Hygiene Concerns"
  label_of ChipKind.good_ambience = "Good Ambience"
  label_of ChipKind.rising = "On the Rise"
  label_of ChipKind.declining = "Slipping"

abbrev dish_emojis : List (String × String)
dish_emojis =
    ("momo", "🥟")
    ∷ ("dumpling", "🥟")
    ∷ ("dimsum", "🥟")
    ∷ ("biryani", "🍛")
    ∷ ("pulao", "🍛")
    ∷ ("rice", "🍚")
    ∷ ("ramen", "🍜")
    ∷ ("noodle", "🍜")
    ∷ ("chowmein", "🍜")
    ∷ ("thukpa", "🍜")
    ∷ ("roll", "🌯")
    ∷ ("shawarma", "🌯")
    ∷ ("wrap", "🌯")
    ∷ ("pizza", "🍕")
    ∷ ("burger", "🍔")
    ∷ ("sandwich", "🥪")
    ∷ ("chicken", "🍗")
    ∷ ("kebab", "🍢")
    ∷ ("fish", "🐟")
    ∷ ("prawn", "🍤")
    ∷ ("mishti", "🍮")
    ∷ ("sweet", "🍮")
    ∷ ("rasgulla", "🍮")
    ∷ ("ice cream", "🍨")
    ∷ ("coffee", "☕")
    ∷ ("tea", "🍵")
    ∷ ("chai", "🍵")
    ∷ ("lassi", "🥤")
    ∷ ("paratha", "🫓")
    ∷ ("luchi", "🫓")
    ∷ ("naan", "🫓")
    ∷ ("dosa", "🥞")
    ∷ ("puchka", "🥔")
    ∷ ("chaat", "🥔")
    ∷ ("cutlet", "🍤")
    ∷ []

module _ (t : Text) where
  abbrev first_emoji : String → List (String × String) → String
  first_emoji lowered [] = "🍽"
  first_emoji lowered ((key, emoji) ∷ rest) =
      if t.contains key lowered then emoji else first_emoji lowered rest

  -- `_dish_emoji`
  pub dish_emoji : String → String
  dish_emoji name = first_emoji (t.lower name) dish_emojis

  pub emoji_of : ChipKind → String
  emoji_of (ChipKind.strong name) = dish_emoji name
  emoji_of (ChipKind.cuisine name) = "🍴"
  emoji_of ChipKind.spicy = "🌶"
  emoji_of ChipKind.generous = "🍽"
  emoji_of ChipKind.small_portions = "🤏"
  emoji_of ChipKind.oily = "🛢"
  emoji_of ChipKind.late_night = "🌙"
  emoji_of ChipKind.authentic = "📜"
  emoji_of ChipKind.affordable = "💰"
  emoji_of ChipKind.premium = "💎"
  emoji_of ChipKind.mid_range = "💵"
  emoji_of ChipKind.consistent = "🎯"
  emoji_of ChipKind.hit_or_miss = "🎲"
  emoji_of ChipKind.great_service = "🤝"
  emoji_of ChipKind.slow_service = "🐢"
  emoji_of ChipKind.hygiene_concerns = "⚠"
  emoji_of ChipKind.good_ambience = "✨"
  emoji_of ChipKind.rising = "📈"
  emoji_of ChipKind.declining = "📉"
