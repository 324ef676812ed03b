-- ===== src/QueryParser/Words.antt =====
-- The words of backend/app/services/query_parser.py.
use khaabo.Prelude.{List, [], ◌∷◌, String}

-- `DEFAULT_AREAS`
abbrev pub default_areas : List String
default_areas =
    "salt lake" ∷ "sector v" ∷ "sector 5" ∷ "park street" ∷ "new town" ∷ "rajarhat" ∷ "gariahat"
    ∷ "ballygunge" ∷ "behala" ∷ "howrah" ∷ "dumdum" ∷ "dum dum" ∷ "esplanade" ∷ "sealdah"
    ∷ "jadavpur" ∷ "tollygunge" ∷ "shyambazar" ∷ "bhowanipore" ∷ "alipore" ∷ "kasba" ∷ "santoshpur"
    ∷ "garia" ∷ "barasat" ∷ "chinar park" ∷ "lake town" ∷ "bidhannagar" ∷ "kankurgachi" ∷ "bowbazar"
    ∷ "burrabazar" ∷ "college street" ∷ "camac street" ∷ "elgin" ∷ "hatibagan" ∷ "ultadanga"
    ∷ "baguiati" ∷ "kestopur" ∷ []

-- `DIETARY_TERMS` and `MOOD_TERMS`, in their order.
abbrev pub dietary_terms : List (String × String)
dietary_terms =
    ("veg", "veg")
    ∷ ("vegetarian", "veg")
    ∷ ("pure veg", "veg")
    ∷ ("vegan", "vegan")
    ∷ ("non veg", "non_veg")
    ∷ ("nonveg", "non_veg")
    ∷ ("non-veg", "non_veg")
    ∷ ("halal", "halal")
    ∷ ("jain", "jain")
    ∷ ("eggetarian", "egg")
    ∷ ("egg", "egg")
    ∷ ("gluten free", "gluten_free")
    ∷ []

abbrev pub mood_terms : List (String × String)
mood_terms =
    ("working", "work")
    ∷ ("work", "work")
    ∷ ("wfh", "work")
    ∷ ("laptop", "work")
    ∷ ("studying", "study")
    ∷ ("study", "study")
    ∷ ("reading", "study")
    ∷ ("date", "date")
    ∷ ("romantic", "date")
    ∷ ("anniversary", "date")
    ∷ ("family", "family")
    ∷ ("kids", "family")
    ∷ ("late night", "late_night")
    ∷ ("midnight", "late_night")
    ∷ ("after party", "late_night")
    ∷ ("breakfast", "breakfast")
    ∷ ("brunch", "brunch")
    ∷ ("quick bite", "quick")
    ∷ ("takeaway", "takeaway")
    ∷ ("delivery", "delivery")
    ∷ ("group", "group")
    ∷ ("party", "group")
    ∷ ("birthday", "group")
    ∷ ("solo", "solo")
    ∷ ("alone", "solo")
    ∷ []

abbrev pub cuisine_terms : List String
cuisine_terms =
    "bengali" ∷ "chinese" ∷ "tibetan" ∷ "japanese" ∷ "korean" ∷ "thai" ∷ "italian" ∷ "mughlai"
    ∷ "north indian" ∷ "south indian" ∷ "continental" ∷ "mexican" ∷ "american" ∷ "lebanese"
    ∷ "awadhi" ∷ "hyderabadi" ∷ "nepali" ∷ "burmese" ∷ "vietnamese" ∷ "tandoori" ∷ "seafood"
    ∷ "bakery" ∷ "cafe" ∷ []

abbrev pub cheap_terms : List String
cheap_terms =
    "cheap" ∷ "budget" ∷ "affordable" ∷ "value for money" ∷ "inexpensive" ∷ "pocket friendly" ∷ []

abbrev pub premium_terms : List String
premium_terms = "premium" ∷ "fine dining" ∷ "luxury" ∷ "upscale" ∷ "expensive" ∷ []

abbrev pub superlative_terms : List String
superlative_terms = "best" ∷ "top" ∷ "greatest" ∷ "finest" ∷ "must try" ∷ "must-try" ∷ "famous" ∷ []

abbrev pub near_me_terms : List String
near_me_terms = "near me" ∷ "nearby" ∷ "near by" ∷ "around me" ∷ "close to me" ∷ "closest" ∷ []

-- `_NOISE`
abbrev pub noise_words : List String
noise_words =
    "best" ∷ "top" ∷ "good" ∷ "great" ∷ "nice" ∷ "the" ∷ "a" ∷ "an" ∷ "in" ∷ "at" ∷ "near" ∷ "me"
    ∷ "my" ∷ "for" ∷ "of" ∷ "with" ∷ "and" ∷ "or" ∷ "to" ∷ "food" ∷ "place" ∷ "places"
    ∷ "restaurant" ∷ "restaurants" ∷ "shop" ∷ "spot" ∷ "spots" ∷ "joint" ∷ "joints" ∷ "cheap"
    ∷ "budget" ∷ "affordable" ∷ "premium" ∷ "expensive" ∷ "under" ∷ "below" ∷ "over" ∷ "above"
    ∷ "within" ∷ "upto" ∷ "around" ∷ "nearby" ∷ "famous" ∷ "must" ∷ "try" ∷ "where" ∷ "which"
    ∷ "what" ∷ "should" ∷ "i" ∷ "eat" ∷ "get" ∷ "find" ∷ "some" ∷ "any" ∷ "kolkata" ∷ "city"
    ∷ "open" ∷ "now" ∷ "today" ∷ "tonight" ∷ []
