-- ===== src/DishExtraction/Lexicon.antt =====
-- The lexicons of backend/app/services/dish_extraction.py.
use khaabo.Prelude.{List, [], ◌∷◌, String}
use khaabo.Float.{Float}

-- `_NEGATORS`
abbrev pub negators : List String
negators =
    "not" ∷ "no" ∷ "never" ∷ "hardly" ∷ "barely" ∷ "isn't" ∷ "wasn't" ∷ "aren't" ∷ "don't"
    ∷ "didn't" ∷ "doesn't" ∷ "won't" ∷ "can't" ∷ "nahi" ∷ "na" ∷ []

-- `ATTRIBUTE_LEXICON`
abbrev pub attribute_lexicon : List (String × List String)
attribute_lexicon =
    ("spicy", "spicy" ∷ "hot and spicy" ∷ "jhaal" ∷ "fiery" ∷ [])
    ∷ ("juicy", "juicy" ∷ "succulent" ∷ [])
    ∷ ("crispy", "crispy" ∷ "crisp" ∷ "crunchy" ∷ [])
    ∷ ("oily", "oily" ∷ "greasy" ∷ [])
    ∷ (
      "generous_portion",
      "generous" ∷ "huge portion" ∷ "big portion" ∷ "large portion" ∷ "filling" ∷ [],
    )
    ∷ ("small_portion", "small portion" ∷ "tiny portion" ∷ "portion is small" ∷ [])
    ∷ ("fresh", "fresh" ∷ "freshly made" ∷ [])
    ∷ ("soft", "soft" ∷ "fluffy" ∷ "melt in mouth" ∷ [])
    ∷ ("authentic", "authentic" ∷ "traditional" ∷ [])
    ∷ ("sweet", "sweet" ∷ "mishti" ∷ [])
    ∷ ("tangy", "tangy" ∷ "sour" ∷ "tok" ∷ [])
    ∷ ("cheesy", "cheesy" ∷ "loaded with cheese" ∷ [])
    ∷ ("smoky", "smoky" ∷ "charred" ∷ "tandoori" ∷ [])
    ∷ ("value_for_money", "value for money" ∷ "worth the price" ∷ "cheap and" ∷ "affordable" ∷ [])
    ∷ ("late_night", "late night" ∷ "open till" ∷ "after midnight" ∷ [])
    ∷ []

-- `ASPECT_LEXICON`
abbrev pub aspect_lexicon : List (String × List String)
aspect_lexicon =
    ("taste", "taste" ∷ "tastes" ∷ "flavour" ∷ "flavor" ∷ "tasty" ∷ "delicious" ∷ "bland" ∷ [])
    ∷ ("portion", "portion" ∷ "quantity" ∷ "serving" ∷ "filling" ∷ [])
    ∷ ("price", "price" ∷ "cost" ∷ "expensive" ∷ "cheap" ∷ "overpriced" ∷ "value" ∷ "worth" ∷ [])
    ∷ ("service", "service" ∷ "staff" ∷ "waiter" ∷ "rude" ∷ "polite" ∷ "attentive" ∷ [])
    ∷ (
      "ambience",
      "ambience" ∷ "ambiance" ∷ "atmosphere" ∷ "decor" ∷ "vibe" ∷ "seating" ∷ "music" ∷ [],
    )
    ∷ ("hygiene", "hygiene" ∷ "clean" ∷ "dirty" ∷ "unhygienic" ∷ "sanitary" ∷ [])
    ∷ ("wait_time", "wait" ∷ "waiting" ∷ "slow" ∷ "quick" ∷ "fast" ∷ "delay" ∷ "queue" ∷ [])
    ∷ ("consistency", "consistent" ∷ "inconsistent" ∷ "every time" ∷ "used to be" ∷ [])
    ∷ ("spice", "spicy" ∷ "spice" ∷ "jhaal" ∷ "mild" ∷ "hot" ∷ [])
    ∷ []

module _ {F : Type 0} ⦃f : Float F⦄ where
  open f use {lit, neg}

  -- `_POSITIVE`
  abbrev pub positive : List (String × F)
  positive =
      ("amazing", lit 90 100)
      ∷ ("excellent", lit 90 100)
      ∷ ("outstanding", lit 95 100)
      ∷ ("best", lit 85 100)
      ∷ ("perfect", lit 95 100)
      ∷ ("delicious", lit 85 100)
      ∷ ("tasty", lit 70 100)
      ∷ ("great", lit 75 100)
      ∷ ("good", lit 55 100)
      ∷ ("nice", lit 50 100)
      ∷ ("lovely", lit 70 100)
      ∷ ("fantastic", lit 90 100)
      ∷ ("superb", lit 90 100)
      ∷ ("loved", lit 85 100)
      ∷ ("love", lit 80 100)
      ∷ ("fresh", lit 60 100)
      ∷ ("juicy", lit 65 100)
      ∷ ("flavourful", lit 75 100)
      ∷ ("flavorful", lit 75 100)
      ∷ ("authentic", lit 70 100)
      ∷ ("worth", lit 60 100)
      ∷ ("recommend", lit 75 100)
      ∷ ("favourite", lit 80 100)
      ∷ ("favorite", lit 80 100)
      ∷ ("heavenly", lit 95 100)
      ∷ ("soft", lit 45 100)
      ∷ ("crispy", lit 50 100)
      ∷ ("generous", lit 60 100)
      ∷ ("value", lit 55 100)
      ∷ ("cheap", lit 40 100)
      ∷ ("affordable", lit 55 100)
      ∷ ("hot", lit 30 100)
      ∷ ("solid", lit 60 100)
      ∷ ("decent", lit 35 100)
      ∷ ("yum", lit 80 100)
      ∷ ("yummy", lit 80 100)
      ∷ ("top", lit 60 100)
      ∷ ("unbeatable", lit 90 100)
      ∷ ("must", lit 60 100)
      ∷ []

  -- `_NEGATIVE`
  abbrev pub negative : List (String × F)
  negative =
      ("terrible", neg (lit 90 100))
      ∷ ("awful", neg (lit 90 100))
      ∷ ("worst", neg (lit 95 100))
      ∷ ("bad", neg (lit 70 100))
      ∷ ("poor", neg (lit 70 100))
      ∷ ("bland", neg (lit 65 100))
      ∷ ("tasteless", neg (lit 80 100))
      ∷ ("stale", neg (lit 85 100))
      ∷ ("cold", neg (lit 50 100))
      ∷ ("soggy", neg (lit 60 100))
      ∷ ("oily", neg (lit 45 100))
      ∷ ("greasy", neg (lit 50 100))
      ∷ ("overpriced", neg (lit 60 100))
      ∷ ("expensive", neg (lit 35 100))
      ∷ ("disappointing", neg (lit 75 100))
      ∷ ("disappointed", neg (lit 75 100))
      ∷ ("avoid", neg (lit 85 100))
      ∷ ("rubbery", neg (lit 60 100))
      ∷ ("dry", neg (lit 50 100))
      ∷ ("burnt", neg (lit 70 100))
      ∷ ("raw", neg (lit 60 100))
      ∷ ("small", neg (lit 30 100))
      ∷ ("tiny", neg (lit 40 100))
      ∷ ("rude", neg (lit 60 100))
      ∷ ("dirty", neg (lit 80 100))
      ∷ ("unhygienic", neg (lit 90 100))
      ∷ ("slow", neg (lit 40 100))
      ∷ ("average", lit 5 100)
      ∷ ("mediocre", neg (lit 35 100))
      ∷ ("okay", lit 5 100)
      ∷ ("ok", lit 5 100)
      ∷ ("meh", neg (lit 30 100))
      ∷ ("nothing special", neg (lit 30 100))
      ∷ ("not worth", neg (lit 70 100))
      ∷ ("never again", neg (lit 90 100))
      ∷ []

  -- `_INTENSIFIERS`
  abbrev pub intensifiers : List (String × F)
  intensifiers =
      ("very", lit 130 100)
      ∷ ("really", lit 125 100)
      ∷ ("extremely", lit 145 100)
      ∷ ("super", lit 130 100)
      ∷ ("so", lit 115 100)
      ∷ ("absolutely", lit 140 100)
      ∷ ("quite", lit 110 100)
      ∷ ("too", lit 110 100)
      ∷ ("insanely", lit 140 100)
      ∷ ("bit", lit 70 100)
      ∷ ("slightly", lit 60 100)
      ∷ ("somewhat", lit 70 100)
      ∷ ("kinda", lit 75 100)
      ∷ []
