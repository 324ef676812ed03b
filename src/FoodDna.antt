-- ===== src/FoodDna.antt =====
-- backend/app/services/food_dna.py: the chips that describe a restaurant.
-- A chip is its kind and its value: the code, the label, the emoji and the group go with the kind.
-- `Text` holds Python's string methods.
pub mod Chips
pub mod Earned
use khaabo.Prelude.{
  ℕ, ◌*◌, ◌/◌, Bool, true, false, not, ◌&&◌, ◌||◌, Option, none, some, List, [], ◌∷◌, ◌++◌, map,
  String, ltb, leb, ◌==◌, max, if◌then◌else◌, any, filter, take, sort_by, str_eq,
}
use khaabo.Float.{Float, nought, lt, fmean}
use khaabo.Enums.{TrendDirection, rising, stable, declining}
use khaabo.Ranking.Attributes.{Tally}
use khaabo.Ranking.Score.{is_falsy}
use khaabo.FoodDna.Chips.{ChipKind, Group, group_of, group_rank, same_group, is_exclusive}

pub record DnaInput (F : Type 0) : Type 0 where
  pub dish_labels : List (String × F × ℕ)
  pub attribute_counts : Tally
  pub aspect_sentiment : List (String × F)
  pub price_avg : Option F
  pub city_median_price : Option F
  pub consistency : F
  pub trend : Option TrendDirection
  pub total_mentions : ℕ
  pub cuisines : List String

pub record DnaChip (F : Type 0) : Type 0 where
  pub kind : ChipKind
  pub value : Option F

-- `counts.get(attr, 0)`
abbrev pub get_count : Tally → String → ℕ
get_count [] attr = 0
get_count ((a, n) ∷ t) attr = if str_eq a attr then n else get_count t attr

-- `aspect_sentiment.get(aspect)`
abbrev pub get_sentiment : {F : Type 0} → List (String × F) → String → Option F
get_sentiment [] aspect = none
get_sentiment ((a, x) ∷ rest) aspect = if str_eq a aspect then some x else get_sentiment rest aspect

-- `max(2, int(total * 0.15))`: the product of doubles rounds to no other whole part.
abbrev pub threshold_of : ℕ → ℕ
threshold_of total = max 2 (total * 15 / 100)

abbrev in_group : {F : Type 0} → Group → DnaChip F → Bool
in_group g c = same_group (group_of c.kind) g

-- The loop with `seen`: a second chip of an exclusive group is left out.
unfoldable pub unique_from : {F : Type 0} → List Group → List (DnaChip F) → List (DnaChip F)
unique_from seen [] = []
unique_from seen (c ∷ cs) =
    let rest = unique_from (group_of c.kind ∷ seen) cs in
    let skipped = unique_from seen cs in
    if is_exclusive (group_of c.kind) && any (same_group (group_of c.kind)) seen
    then skipped
    else c ∷ rest

module _ {F : Type 0} ⦃f : Float F⦄ where
  open f use {lit, of_nat, div, le, round}

  abbrev chip : ChipKind → Option F → List (DnaChip F)
  chip kind value = record { kind = kind; value = value } ∷ []

  abbrev pub share_of : ℕ → ℕ → F
  share_of mentions total = div (of_nat mentions) (of_nat total)

  abbrev pub is_signature : ℕ → (String × F × ℕ) → Bool
  is_signature total (name, sentiment, mentions) =
      le (lit 25 100) (share_of mentions total) && (le (lit 7 10) sentiment && leb 3 mentions)

  -- `key=lambda row: (-row[2], -row[1])`
  abbrev label_before : (String × F × ℕ) → (String × F × ℕ) → Bool
  label_before a b = ltb b.2 a.2 || (a.2 == b.2 && le b.1 a.1)

  abbrev signature_chip : ℕ → (String × F × ℕ) → List (DnaChip F)
  signature_chip total row =
      if is_signature total row then chip (ChipKind.strong row.0) (some (round row.1 3)) else []

  abbrev signatures_from : ℕ → List (String × F × ℕ) → List (DnaChip F)
  signatures_from total [] = []
  signatures_from total (row ∷ rows) = signature_chip total row ++ signatures_from total rows

  unfoldable pub signature_chips : DnaInput F → List (DnaChip F)
  signature_chips d = signatures_from d.total_mentions (take 3 (sort_by label_before d.dish_labels))

  -- A chip for an attribute that is counted often enough.
  abbrev count_chip : DnaInput F → String → ℕ → ChipKind → List (DnaChip F)
  count_chip d attr least kind =
      let n = get_count d.attribute_counts attr in
      if leb least n then chip kind (some (of_nat n)) else []

  unfoldable pub attribute_chips : DnaInput F → List (DnaChip F)
  attribute_chips d =
      let threshold = threshold_of d.total_mentions in
      count_chip d "spicy" threshold ChipKind.spicy
      ++ (count_chip d "generous_portion" threshold ChipKind.generous
          ++ (count_chip d "small_portion" threshold ChipKind.small_portions
              ++ (count_chip d "oily" threshold ChipKind.oily
                  ++ (count_chip d "late_night" 2 ChipKind.late_night
                      ++ count_chip d "authentic" threshold ChipKind.authentic))))

  abbrev pub or_nought : Option F → F
  or_nought none = nought
  or_nought (some x) = x

  -- The price against the city's median.
  abbrev pub price_ratio : DnaInput F → F
  price_ratio d = div (or_nought d.price_avg) (or_nought d.city_median_price)

  abbrev pub has_prices : DnaInput F → Bool
  has_prices d = not (is_falsy d.price_avg) && not (is_falsy d.city_median_price)

  unfoldable pub price_chips : DnaInput F → List (DnaChip F)
  price_chips d =
      let ratio = price_ratio d in
      if has_prices d
      then (if le ratio (lit 75 100)
          then chip ChipKind.affordable (some (round ratio 3))
          else if le (lit 14 10) ratio
          then chip ChipKind.premium (some (round ratio 3))
          else chip ChipKind.mid_range (some (round ratio 3)))
      else []

  unfoldable pub consistency_chips : DnaInput F → List (DnaChip F)
  consistency_chips d =
      if leb 8 d.total_mentions
      then (if le (lit 75 100) d.consistency
          then chip ChipKind.consistent (some (round d.consistency 3))
          else if le d.consistency (lit 35 100)
          then chip ChipKind.hit_or_miss (some (round d.consistency 3))
          else [])
      else []

  -- A chip for an aspect whose mean sentiment is high, or low.
  abbrev high_chip : Option F → F → ChipKind → List (DnaChip F)
  high_chip none least kind = []
  high_chip (some x) least kind = if le least x then chip kind (some x) else []

  abbrev low_chip : Option F → F → ChipKind → List (DnaChip F)
  low_chip none most kind = []
  low_chip (some x) most kind = if le x most then chip kind (some x) else []

  abbrev service_of : Option F → List (DnaChip F)
  service_of none = []
  service_of (some x) =
      if le (lit 5 10) x
      then chip ChipKind.great_service (some x)
      else if le x (f.neg (lit 4 10))
      then chip ChipKind.slow_service (some x)
      else []

  unfoldable pub aspect_chips : DnaInput F → List (DnaChip F)
  aspect_chips d =
      (if leb 5 d.total_mentions
        then service_of (get_sentiment d.aspect_sentiment "service")
        else [])
      ++ (low_chip (get_sentiment d.aspect_sentiment "hygiene") (f.neg (lit 4 10))
            ChipKind.hygiene_concerns
          ++ high_chip (get_sentiment d.aspect_sentiment "ambience") (lit 5 10)
              ChipKind.good_ambience)

  abbrev trend_chip : Option TrendDirection → List (DnaChip F)
  trend_chip (some rising) = chip ChipKind.rising none
  trend_chip (some declining) = chip ChipKind.declining none
  trend_chip (some stable) = []
  trend_chip none = []

  unfoldable pub trend_chips : DnaInput F → List (DnaChip F)
  trend_chips d = trend_chip d.trend

  abbrev cuisine_chip : List String → List (DnaChip F)
  cuisine_chip [] = []
  cuisine_chip (c ∷ cs) = chip (ChipKind.cuisine c) none

  -- A cuisine stands in where no chip is a signature dish.
  unfoldable pub with_cuisine : DnaInput F → List (DnaChip F) → List (DnaChip F)
  with_cuisine d chips =
      if any (in_group Group.signature_dish) chips then chips else chips ++ cuisine_chip d.cuisines

  abbrev pub evidence_chips : DnaInput F → List (DnaChip F)
  evidence_chips d =
      signature_chips d
      ++ (attribute_chips d
          ++ (price_chips d ++ (consistency_chips d ++ (aspect_chips d ++ trend_chips d))))

  -- `key=lambda c: (order.get(c.group, 99), -(c.value or 0))`
  abbrev pub chip_before : DnaChip F → DnaChip F → Bool
  chip_before a b =
      let m = group_rank (group_of a.kind) in
      let n = group_rank (group_of b.kind) in
      ltb m n || (m == n && le (or_nought b.value) (or_nought a.value))

  pub build_food_dna : ℕ → DnaInput F → List (DnaChip F)
  build_food_dna limit d =
      if ltb d.total_mentions 3
      then []
      else take limit (unique_from [] (sort_by chip_before (with_cuisine d (evidence_chips d))))

  -- `aggregate_aspect_sentiment`: the dict of lists, and the mean of each.
  abbrev put_sentiment : String → F → List (String × List F) → List (String × List F)
  put_sentiment a x [] = (a, x ∷ []) ∷ []
  put_sentiment a x ((b, xs) ∷ rest) =
      let more = put_sentiment a x rest in
      if str_eq b a then (b, xs ++ (x ∷ [])) ∷ rest else (b, xs) ∷ more

  abbrev grouped_from : List (String × F) → List (String × List F) → List (String × List F)
  grouped_from [] groups = groups
  grouped_from ((a, x) ∷ rows) groups = grouped_from rows (put_sentiment a x groups)

  pub aggregate_aspect_sentiment : List (String × F) → List (String × F)
  aggregate_aspect_sentiment rows =
      map (λ (g : String × List F). (g.0, round (fmean g.1) 4)) (grouped_from rows [])
