-- ===== src/FoodDna/Earned.antt =====
-- Every chip of `build_food_dna` is earned by the evidence.
use khaabo.Prelude.{
  ℕ, ◌≤◌, ◌≡◌, refl, ◌⊎◌, inl, inr, Bool, true, false, Option, none, some, List, [], ◌∷◌, String,
  leb, ltb, if◌then◌else◌, take, length, arith, All, All-append, All-if, All-take, Bool-cases,
  sort_by, All-sort_by, length-take-le, IsIn, All-IsIn,
}
use khaabo.Float.{Float, ◌≼◌}
use khaabo.Enums.{TrendDirection, rising, stable, declining}
use khaabo.FoodDna.Chips.{ChipKind, Group, group_of}
use khaabo.FoodDna.{
  DnaInput, DnaChip, get_count, get_sentiment, threshold_of, unique_from, is_signature, share_of,
  signatures_from, signature_chips, attribute_chips, price_ratio, has_prices, price_chips,
  consistency_chips, aspect_chips, trend_chips, with_cuisine, evidence_chips, chip_before,
  build_food_dna, service_of, low_chip, high_chip, trend_chip, cuisine_chip, label_before,
}

module _ {F : Type 0} ⦃f : Float F⦄ (d : DnaInput F) where
  open f use {lit, le, neg}

  -- What a chip claims: the test that its evidence passes.
  abbrev pub Claim : ChipKind → Type 0
  Claim (ChipKind.strong name) =
      (sentiment : F) × (mentions : ℕ) × IsIn d.dish_labels (name, sentiment, mentions)
      × (3 ≤ mentions)
      × (lit 7 10 ≼ sentiment)
      × (lit 25 100 ≼ share_of mentions d.total_mentions)
  Claim (ChipKind.cuisine name) = (rest : List String) × (d.cuisines ≡ name ∷ rest)
  Claim ChipKind.spicy = threshold_of d.total_mentions ≤ get_count d.attribute_counts "spicy"
  Claim ChipKind.generous =
      threshold_of d.total_mentions ≤ get_count d.attribute_counts "generous_portion"
  Claim ChipKind.small_portions =
      threshold_of d.total_mentions ≤ get_count d.attribute_counts "small_portion"
  Claim ChipKind.oily = threshold_of d.total_mentions ≤ get_count d.attribute_counts "oily"
  Claim ChipKind.late_night = 2 ≤ get_count d.attribute_counts "late_night"
  Claim ChipKind.authentic =
      threshold_of d.total_mentions ≤ get_count d.attribute_counts "authentic"
  Claim ChipKind.affordable = (has_prices d ≡ true) × (price_ratio d ≼ lit 75 100)
  Claim ChipKind.premium = (has_prices d ≡ true) × (lit 14 10 ≼ price_ratio d)
  Claim ChipKind.mid_range =
      (has_prices d ≡ true)
      × (le (price_ratio d) (lit 75 100) ≡ false)
      × (le (lit 14 10) (price_ratio d) ≡ false)
  Claim ChipKind.consistent = (8 ≤ d.total_mentions) × (lit 75 100 ≼ d.consistency)
  Claim ChipKind.hit_or_miss = (8 ≤ d.total_mentions) × (d.consistency ≼ lit 35 100)
  Claim ChipKind.great_service =
      (5 ≤ d.total_mentions)
      × (x : F) × (get_sentiment d.aspect_sentiment "service" ≡ some x)
      × (lit 5 10 ≼ x)
  Claim ChipKind.slow_service =
      (5 ≤ d.total_mentions)
      × (x : F) × (get_sentiment d.aspect_sentiment "service" ≡ some x)
      × (x ≼ neg (lit 4 10))
  Claim ChipKind.hygiene_concerns =
      (x : F) × (get_sentiment d.aspect_sentiment "hygiene" ≡ some x) × (x ≼ neg (lit 4 10))
  Claim ChipKind.good_ambience =
      (x : F) × (get_sentiment d.aspect_sentiment "ambience" ≡ some x) × (lit 5 10 ≼ x)
  Claim ChipKind.rising = d.trend ≡ some rising
  Claim ChipKind.declining = d.trend ≡ some declining

  abbrev Earned : DnaChip F → Type 0
  Earned c = Claim c.kind

  when :
      (b : Bool) (xs : List (DnaChip F))
      → (b ≡ true → All Earned xs)
      → All Earned (if b then xs else [])
  when true xs h = h refl
  when false xs h = tt

  signature_parts :
      (name : String) (sentiment : F) (mentions : ℕ)
      → is_signature d.total_mentions (name, sentiment, mentions) ≡ true
      → (3 ≤ mentions) × (lit 7 10 ≼ sentiment) × (lit 25 100 ≼ share_of mentions d.total_mentions)
  signature_parts name sentiment mentions e = (ground arith, ground arith, ground arith)

  signatures_from-Earned :
      (rows : List (String × F × ℕ))
      → All (IsIn d.dish_labels) rows
      → All Earned (signatures_from d.total_mentions rows)
  signatures_from-Earned [] h = tt
  signatures_from-Earned ((name, sentiment, mentions) ∷ rows) h =
      All-append Earned _ (signatures_from d.total_mentions rows)
        (when (is_signature d.total_mentions (name, sentiment, mentions)) _ (λ e.
          let (enough, liked, share) = signature_parts name sentiment mentions e in
          ((sentiment, mentions, h.0, enough, liked, share), tt)))
        (signatures_from-Earned rows h.1)

  signature_chips-Earned : All Earned (signature_chips d)
  unfolding signature_chips
  signature_chips-Earned = signatures_from-Earned (take 3 (sort_by label_before d.dish_labels)) (
      All-take (IsIn d.dish_labels) 3 _
        (All-sort_by label_before (IsIn d.dish_labels) d.dish_labels (All-IsIn d.dish_labels)))

  attribute_chips-Earned : All Earned (attribute_chips d)
  unfolding attribute_chips
  attribute_chips-Earned =
      let n = threshold_of d.total_mentions in
      let counts : String → ℕ = λ attr. get_count d.attribute_counts attr in
      All-append Earned _ _ (when (leb n (counts "spicy")) _ (λ e. (ground arith, tt))) (
        All-append Earned _ _ (when (leb n (counts "generous_portion")) _ (λ e. (ground arith, tt)))
          (All-append Earned _ _ (when (leb n (counts "small_portion")) _ (λ e. (ground arith, tt)))
            (All-append Earned _ _ (when (leb n (counts "oily")) _ (λ e. (ground arith, tt))) (
              All-append Earned _ _ (when (leb 2 (counts "late_night")) _ (λ e. (ground arith, tt)))
                (when (leb n (counts "authentic")) _ (λ e. (ground arith, tt)))))))

  price_chips-Earned : All Earned (price_chips d)
  unfolding price_chips
  price_chips-Earned = when (has_prices d) _ (λ e.
      elim (Bool-cases (le (price_ratio d) (lit 75 100))) [
        | inl low ↦ rw low ((e, low), tt)
        | inr low ↦ rw low (elim (Bool-cases (le (lit 14 10) (price_ratio d))) [
          | inl high ↦ rw high ((e, high), tt)
          | inr high ↦ rw high ((e, low, high), tt)
        ])
      ])

  consistency_chips-Earned : All Earned (consistency_chips d)
  unfolding consistency_chips
  consistency_chips-Earned = when (leb 8 d.total_mentions) _ (λ e.
      elim (Bool-cases (le (lit 75 100) d.consistency)) [
        | inl high ↦ rw high ((ground arith, high), tt)
        | inr high ↦
            rw high (when (le d.consistency (lit 35 100)) _ (λ low. ((ground arith, low), tt)))
      ])

  service-Earned :
      5 ≤ d.total_mentions
      → (o : Option F) → get_sentiment d.aspect_sentiment "service" ≡ o
      → All Earned (service_of o)
  service-Earned enough none told = tt
  service-Earned enough (some x) told = elim (Bool-cases (le (lit 5 10) x)) [
    | inl high ↦ rw high ((enough, x, told, high), tt)
    | inr high ↦ rw high (when (le x (neg (lit 4 10))) _ (λ low. ((enough, x, told, low), tt)))
  ]

  hygiene-Earned :
      (o : Option F)
      → get_sentiment d.aspect_sentiment "hygiene" ≡ o
      → All Earned (low_chip o (neg (lit 4 10)) ChipKind.hygiene_concerns)
  hygiene-Earned none told = tt
  hygiene-Earned (some x) told = when (le x (neg (lit 4 10))) _ (λ low. ((x, told, low), tt))

  ambience-Earned :
      (o : Option F)
      → get_sentiment d.aspect_sentiment "ambience" ≡ o
      → All Earned (high_chip o (lit 5 10) ChipKind.good_ambience)
  ambience-Earned none told = tt
  ambience-Earned (some x) told = when (le (lit 5 10) x) _ (λ high. ((x, told, high), tt))

  aspect_chips-Earned : All Earned (aspect_chips d)
  unfolding aspect_chips
  aspect_chips-Earned =
      All-append Earned _ _
        (when (leb 5 d.total_mentions) _ (λ e. service-Earned (ground arith) _ refl))
        (All-append Earned _ _ (hygiene-Earned _ refl) (ambience-Earned _ refl))

  trend-Earned : (o : Option TrendDirection) → d.trend ≡ o → All Earned (trend_chip o)
  trend-Earned none told = tt
  trend-Earned (some rising) told = (told, tt)
  trend-Earned (some stable) told = tt
  trend-Earned (some declining) told = (told, tt)

  cuisine-Earned : (names : List String) → d.cuisines ≡ names → All Earned (cuisine_chip names)
  cuisine-Earned [] told = tt
  cuisine-Earned (c ∷ cs) told = ((cs, told), tt)

  evidence_chips-Earned : All Earned (evidence_chips d)
  unfolding trend_chips
  evidence_chips-Earned = All-append Earned _ _ signature_chips-Earned (
      All-append Earned _ _ attribute_chips-Earned (
        All-append Earned _ _ price_chips-Earned (
          All-append Earned _ _ consistency_chips-Earned
            (All-append Earned _ _ aspect_chips-Earned (trend-Earned d.trend refl)))))

  with_cuisine-Earned :
      (chips : List (DnaChip F)) → All Earned chips → All Earned (with_cuisine d chips)
  unfolding with_cuisine
  with_cuisine-Earned chips h =
      All-if Earned _ chips _ h (All-append Earned chips _ h (cuisine-Earned d.cuisines refl))

  unique_from-Earned :
      (seen : List Group) (chips : List (DnaChip F))
      → All Earned chips
      → All Earned (unique_from seen chips)
  unfolding unique_from
  unique_from-Earned seen [] h = tt
  unique_from-Earned seen (c ∷ cs) h =
      All-if Earned _ (unique_from seen cs) (c ∷ unique_from (group_of c.kind ∷ seen) cs)
        (unique_from-Earned seen cs h.1) (h.0, unique_from-Earned (group_of c.kind ∷ seen) cs h.1)

  nothing_else :
      (b : Bool) (xs : List (DnaChip F)) → All Earned xs → All Earned (if b then [] else xs)
  nothing_else true xs h = tt
  nothing_else false xs h = h

  -- Every chip is earned: what it claims passes its test on the evidence, and the dish of a signature
  -- chip is one of the restaurant's, with its own mentions and sentiment. At most `limit` chips are
  -- given, and none on fewer than three mentions.
  pub build_food_dna-Earned :
      (limit : ℕ)
      → All (λ c. Claim c.kind) (build_food_dna limit d)
        × (length (build_food_dna limit d) ≤ limit)
        × ((3 ≤ d.total_mentions) ⊎ (build_food_dna limit d ≡ []))
  unfolding build_food_dna
  build_food_dna-Earned limit =
      let chips = unique_from [] (sort_by chip_before (with_cuisine d (evidence_chips d))) in
      (
        nothing_else (ltb d.total_mentions 3) (take limit chips) (
            All-take Earned limit chips (
              unique_from-Earned [] _
                (All-sort_by chip_before Earned _ (with_cuisine-Earned _ evidence_chips-Earned)))),
        elim (Bool-cases (ltb d.total_mentions 3)) [
          | inl thin ↦ rw thin (omega arith)
          | inr more ↦ rw more (length-take-le limit chips)
        ],
        elim (Bool-cases (ltb d.total_mentions 3)) [
          | inl thin ↦ inr (rw thin refl)
          | inr more ↦ inl (ground arith)
        ],
      )
