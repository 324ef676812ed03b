-- ===== src/QueryParser.antt =====
-- backend/app/services/query_parser.py: a query in words becomes filters and dish terms.
-- `Patterns` holds Python's string methods and regular expressions.
pub mod Words
pub mod Longest
use Prim.Native.String.{count}
use khaabo.Prelude.{
  ℕ, Bool, true, false, not, ◌&&◌, Option, none, some, List, [], ◌∷◌, String, any, find, filter,
  leb, ltb, sort_by, str_eq, if◌then◌else◌,
}
use khaabo.Float.{Float}
use khaabo.QueryParser.Words.{
  dietary_terms, mood_terms, cuisine_terms, cheap_terms, premium_terms, superlative_terms,
  near_me_terms, noise_words,
}

-- A price that a pattern finds comes with the text around the match, joined by a space.
pub record Patterns (F : Type 0) : Type 0 where
  pub strip : String → String
  pub normalize_name : String → String
  pub title : String → String
  pub split : String → List String
  pub join : List String → String
  pub is_digit : String → Bool
  -- `part in text`, and `text.replace(part, " ")`
  pub contains : String → String → Bool
  pub blank : String → String → String
  -- `_BETWEEN`, `_UNDER` and `_OVER`
  pub between : String → Option (F × F × String)
  pub under : String → Option (F × String)
  pub over : String → Option (F × String)
  -- `_NEAR_PLACE`: the stripped place, and the text around the match
  pub near_place : String → Option (String × String)
  -- a phrase between two characters that are no letters: a search for it, and its removal
  pub has_phrase : String → String → Bool
  pub drop_phrase : String → String → String

pub data Intent : Type 0 where
  dish cuisine mood area browse empty : Intent

pub data PriceBand : Type 0 where
  cheap premium : PriceBand

pub record ParsedQuery (F : Type 0) : Type 0 where
  pub raw : String
  pub dish_terms : List String
  pub cuisine : Option String
  pub area : Option String
  pub min_price : Option F
  pub max_price : Option F
  pub dietary : Option String
  pub mood : Option String
  pub near_me : Bool
  pub superlative : Bool
  pub price_band : Option PriceBand
  pub intent : Intent
  pub residual : String

abbrev pub blank_query : {F : Type 0} → String → ParsedQuery F
blank_query raw = record {
  raw = raw;
  dish_terms = [];
  cuisine = none;
  area = none;
  min_price = none;
  max_price = none;
  dietary = none;
  mood = none;
  near_me = false;
  superlative = false;
  price_band = none;
  intent = Intent.dish;
  residual = "";
}

-- `sorted(..., key=len, reverse=True)`, and the first that passes a test.
abbrev pub longer_first {ℓ} : {A : Type ℓ} → (A → String) → A → A → Bool
longer_first text a b = leb (count (text b)) (count (text a))

unfoldable pub first_longest {ℓ} : {A : Type ℓ} → (A → String) → (A → Bool) → List A → Option A
first_longest text test xs = find test (sort_by (longer_first text) xs)

abbrev is_noise : String → Bool
is_noise word = any (λ n. str_eq n word) noise_words

-- `working` and `parsed`, between two steps.
abbrev pub Parse : Type 0 → Type 0
Parse F = String × ParsedQuery F

module _ {F : Type 0} (p : Patterns F) where
  abbrev pub mentions : String → List String → Bool
  mentions working terms = any (λ term. p.contains term working) terms

  abbrev blank_all : List String → String → String
  blank_all [] working = working
  blank_all (term ∷ terms) working = blank_all terms (p.blank term working)

  unfoldable pub note_superlative : Parse F → Parse F
  note_superlative (working, q) =
      if mentions working superlative_terms
      then (working, record q { superlative = true })
      else (working, q)

  unfoldable pub note_near_me : Parse F → Parse F
  note_near_me (working, q) =
      if mentions working near_me_terms
      then (blank_all near_me_terms working, record q { near_me = true })
      else (working, q)

  abbrev take_under : Parse F → Parse F
  take_under (working, q) = elim (p.under working) [
    | none ↦ (working, q)
    | some (limit, rest) ↦ (rest, record q { max_price = some limit })
  ]

  abbrev take_over : Parse F → Parse F
  take_over (working, q) = elim (p.over working) [
    | none ↦ (working, q)
    | some (limit, rest) ↦ (rest, record q { min_price = some limit })
  ]

  unfoldable pub note_prices : Parse F → Parse F
  note_prices (working, q) = elim (p.between working) [
    | some (low, high, rest) ↦ (rest, record q { min_price = some low; max_price = some high })
    | none ↦ take_over (take_under (working, q))
  ]

  -- Areas, by the list and then by the pattern at the query's end.
  abbrev place_tokens : String → List String
  place_tokens place = filter (λ t. not (is_noise t)) (p.split place)

  abbrev note_place : Parse F → Parse F
  note_place (working, q) = elim (p.near_place working) [
    | none ↦ (working, q)
    | some (place, rest) ↦
        if leb 3 (count (p.join (place_tokens place)))
        then (rest, record q { area = some (p.title (p.join (place_tokens place))) })
        else (working, q)
  ]

  abbrev pub area_in : List String → String → Option String
  area_in known_areas working = first_longest (λ a. a) (λ a. p.contains a working) known_areas

  unfoldable pub note_area : List String → Parse F → Parse F
  note_area known_areas (working, q) = elim (area_in known_areas working) [
    | some a ↦ (p.blank a working, record q { area = some (p.title a) })
    | none ↦ note_place (working, q)
  ]

  abbrev pub phrase_in : List (String × String) → String → Option (String × String)
  phrase_in terms working = first_longest (λ kv. kv.0) (λ kv. p.has_phrase kv.0 working) terms

  unfoldable pub note_dietary : Parse F → Parse F
  note_dietary (working, q) = elim (phrase_in dietary_terms working) [
    | none ↦ (working, q)
    | some (phrase, value) ↦ (p.drop_phrase phrase working, record q { dietary = some value })
  ]

  unfoldable pub note_mood : Parse F → Parse F
  note_mood (working, q) = elim (phrase_in mood_terms working) [
    | none ↦ (working, q)
    | some (phrase, value) ↦ (p.drop_phrase phrase working, record q { mood = some value })
  ]

  unfoldable pub note_cuisine : Parse F → Parse F
  note_cuisine (working, q) = elim (area_in cuisine_terms working) [
    | none ↦ (working, q)
    | some c ↦ (p.blank c working, record q { cuisine = some (p.title c) })
  ]

  abbrev pub dish_tokens : String → List String
  dish_tokens working =
      filter (λ t. not (str_eq t "") && (not (is_noise t) && not (p.is_digit t))) (p.split working)

  -- The intent of a query that leaves no dish phrase.
  abbrev pub intent_without_dish : ParsedQuery F → Intent
  intent_without_dish q = elim q.cuisine [
    | some c ↦ Intent.cuisine
    | none ↦ elim q.mood [
      | some m ↦ Intent.mood
      | none ↦ elim q.area [ some a ↦ Intent.area | none ↦ Intent.browse ]
    ]
  ]

  unfoldable pub conclude : Parse F → ParsedQuery F
  conclude (working, q) =
      let residual = p.join (dish_tokens working) in
      if str_eq residual ""
      then record q { residual = residual; intent = intent_without_dish q }
      else record q { residual = residual; dish_terms = residual ∷ []; intent = Intent.dish }

module _ {F : Type 0} ⦃f : Float F⦄ (p : Patterns F) where
  open f use {lit}

  abbrev cheap_limit : Option F → Option F
  cheap_limit none = some (lit 300 1)
  cheap_limit (some limit) = some limit

  unfoldable pub note_band : Parse F → Parse F
  note_band (working, q) =
      if mentions p working cheap_terms
      then (
        working,
        record q { price_band = some PriceBand.cheap; max_price = cheap_limit q.max_price },
      )
      else if mentions p working premium_terms
      then (working, record q { price_band = some PriceBand.premium })
      else (working, q)

  -- What the steps before the areas leave.
  unfoldable pub priced : String → Parse F
  priced raw =
      note_band (
        note_prices p (note_near_me p (note_superlative p (p.normalize_name raw, blank_query raw))))

  unfoldable pub parse_query : List String → String → ParsedQuery F
  parse_query known_areas query =
      let raw = p.strip query in
      let parsed =
        conclude p
          (note_cuisine p (note_mood p (note_dietary p (note_area p known_areas (priced raw))))) in
      if str_eq raw "" then record (blank_query raw) { intent = Intent.empty } else parsed

  unfoldable pub price_band_bounds : String → Option F × Option F
  price_band_bounds band =
      if str_eq band "cheap"
      then (none, some (lit 300 1))
      else if str_eq band "mid"
      then (some (lit 150 1), some (lit 700 1))
      else if str_eq band "premium"
      then (some (lit 700 1), none)
      else (none, none)
