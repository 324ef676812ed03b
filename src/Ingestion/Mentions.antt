-- ===== src/Ingestion/Mentions.antt =====
-- backend/app/services/mention_extraction.py: the one restaurant that a text names.
pub mod Only
use khaabo.Prelude.{
  Bool, true, false, not, ◌&&◌, Option, none, some, List, [], ◌∷◌, String, any, filter, is_empty,
  str_eq, compare_str, is_le, if◌then◌else◌, sort_by,
}
use khaabo.Float.{Float}
use khaabo.EntityResolution.{CandidateRestaurant, token_set}
use khaabo.Ingestion.Model.{Texts}

-- `_GENERIC_TOKENS`
abbrev generic_tokens : List String
generic_tokens =
    "kolkata" ∷ "calcutta" ∷ "india" ∷ "city" ∷ "town" ∷ "best" ∷ "top" ∷ "place" ∷ "places"
    ∷ "restaurant" ∷ "restaurants" ∷ "cafe" ∷ "cafes" ∷ "food" ∷ "foods" ∷ "street" ∷ "streetfood"
    ∷ "tour" ∷ "tours" ∷ "review" ∷ "reviews" ∷ "vlog" ∷ "vlogs" ∷ "experience" ∷ "market"
    ∷ "bazaar" ∷ "dhaba" ∷ "hotel" ∷ "kitchen" ∷ "biryani" ∷ "momo" ∷ "momos" ∷ "kolpara" ∷ "rolls"
    ∷ "phuchka" ∷ "dish" ∷ "dishes" ∷ "menu" ∷ "lunch" ∷ "dinner" ∷ "breakfast" ∷ []

-- A restaurant's id and the labels that name it.
abbrev pub Hit : Type 0
Hit = String × List String

abbrev in_set : String → List String → Bool
in_set x xs = any (λ y. str_eq y x) xs

abbrev dedupe : List String → List String
dedupe [] = []
dedupe (x ∷ xs) = let rest = dedupe xs in if in_set x rest then rest else x ∷ rest

-- `hits[id] = labels`
abbrev pub put_hit : Hit → List Hit → List Hit
put_hit h [] = h ∷ []
put_hit h (k ∷ ks) = let rest = put_hit h ks in if str_eq k.0 h.0 then h ∷ ks else k ∷ rest

abbrev pub sorted : List String → List String
sorted labels = sort_by (λ a b. is_le (compare_str a b)) labels

abbrev pub first_label : List String → Option String
first_label [] = none
first_label (label ∷ rest) = some label

-- The id and the first label of the only hit.
unfoldable pub single_hit : List Hit → Option (String × Option String)
single_hit [] = none
single_hit ((i, labels) ∷ []) = some (i, first_label (sorted labels))
single_hit (h ∷ k ∷ hits) = none

module _ {F : Type 0} ⦃f : Float F⦄ (texts : Texts F) where
  abbrev is_mentionable : String → Bool
  is_mentionable label =
      any (λ token. not (in_set token generic_tokens)) (token_set texts.resolver label)

  abbrev names : String → String → Bool
  names text_norm label =
      let key = texts.resolver.normalize_name label in
      not (str_eq key "") && is_mentionable key && texts.has_word key text_norm

  -- The labels of a candidate that stand in the text.
  abbrev pub labels_in : String → CandidateRestaurant F → List String
  labels_in text_norm cand = filter (names text_norm) (dedupe (cand.name ∷ cand.aliases))

  unfoldable pub hits_from : String → List (CandidateRestaurant F) → List Hit → List Hit
  hits_from text_norm [] hits = hits
  hits_from text_norm (c ∷ cs) hits = hits_from text_norm cs (
      if is_empty (labels_in text_norm c) then hits else put_hit (c.id, labels_in text_norm c) hits)

  unfoldable pub mention_hits : String → List (CandidateRestaurant F) → List Hit
  mention_hits text_norm candidates = hits_from text_norm candidates []

  unfoldable pub resolve_mention :
      String → List (CandidateRestaurant F) → Option (String × Option String)
  resolve_mention text candidates =
      let text_norm = texts.resolver.normalize_name text in
      if str_eq text ""
      then none
      else if is_empty candidates
      then none
      else if str_eq text_norm ""
      then none
      else single_hit (mention_hits text_norm candidates)
