-- ===== src/DishExtraction.antt =====
-- backend/app/services/dish_extraction.py: the dishes of a text, clause by clause, with a sentiment
-- from a lexicon. `Clauses` holds Python's string methods, the regular expressions and
-- backend/app/utils/text.py.
pub mod Lexicon
pub mod Single
use Prim.Native.String.{count}
use khaabo.Prelude.{
  ℕ, zero, suc, ◌+◌, ◌-◌, Bool, true, false, not, ◌&&◌, ◌||◌, Option, none, some, List, [], ◌∷◌,
  ◌++◌, map, String, any, all, find, filter, take, length, is_empty, leb, ltb, ◌==◌, sort_by,
  str_eq, compare_str, is_le, if◌then◌else◌,
}
use khaabo.Float.{Float, nought, one, lt, eqf, fmax, fmin, fsum}
use khaabo.DishExtraction.Lexicon.{
  negators, attribute_lexicon, aspect_lexicon, positive, negative, intensifiers,
}

pub record Clauses (F : Type 0) : Type 0 where
  pub normalize_name : String → String
  pub clean_text : String → String
  pub split : String → List String
  -- `_CLAUSE_SPLIT.split`, each part stripped
  pub parts : String → List String
  -- `phrase in text`, and a search for a cue between characters that are no letters
  pub contains : String → String → Bool
  pub has_cue : String → String → Bool
  -- the span at which the pattern of an alias is found
  pub span_of : String → String → Option (ℕ × ℕ)
  pub extract_prices : String → List F
  -- `clause[:320]`
  pub cut : String → String

pub record DishHit (F : Type 0) : Type 0 where
  pub dish_key : String
  pub matched_alias : String
  pub clause : String
  pub sentiment : F
  pub confidence : F
  pub attributes : List String
  pub price : Option F
  pub aspects : List (String × F)

-- A value of a dictionary.
abbrev pub lookup : {A : Type 0} → String → List (String × A) → Option A
lookup key [] = none
lookup key ((k, v) ∷ entries) =
    let rest = lookup key entries in if str_eq k key then some v else rest

abbrev is_negator : String → Bool
is_negator token = any (λ n. str_eq n token) negators

-- The tokens before a token, the nearest first.
abbrev pub with_before : List String → List String → List (String × List String)
with_before before [] = []
with_before before (t ∷ ts) = (t, before) ∷ with_before (t ∷ before) ts

-- The spans that longer aliases have taken.
abbrev pub is_inside : ℕ × ℕ → List (ℕ × ℕ) → Bool
is_inside (start, end) consumed = any (λ c. leb c.0 start && leb end c.1) consumed

-- `key=lambda kv: (-len(kv[0]), kv[0])`
abbrev pub alias_before : String × String → String × String → Bool
alias_before a b =
    ltb (count b.0) (count a.0) || (count a.0 == count b.0 && is_le (compare_str a.0 b.0))

module _ {F : Type 0} ⦃f : Float F⦄ (c : Clauses F) where
  open f use {lit, of_nat, neg, add, mul, div, le, round}

  unfoldable pub split_clauses : String → List String
  split_clauses text =
      let cleaned = c.clean_text text in
      if str_eq cleaned "" then [] else filter (λ p. not (str_eq p "")) (c.parts cleaned)

  abbrev pub unit_clamp : F → F
  unit_clamp x = fmax (neg one) (fmin one x)

  abbrev fabs : F → F
  fabs x = if lt x nought then neg x else x

  -- `_POSITIVE.get(token) or _NEGATIVE.get(token)`; no value is zero.
  unfoldable pub base_of : String → Option F
  base_of token = elim (lookup token positive) [ some v ↦ some v | none ↦ lookup token negative ]

  abbrev scaled : F → String → F
  scaled multiplier token = elim (lookup token intensifiers) [
    | none ↦ multiplier
    | some k ↦ mul multiplier k
  ]

  abbrev multiplier_of : F → List String → F
  multiplier_of m [] = m
  multiplier_of m (t ∷ ts) = multiplier_of (scaled m t) ts

  -- The score of a token by the three before it.
  unfoldable pub token_score : String × List String → Option F
  token_score (token, before) = elim (base_of token) [
    | none ↦ none
    | some base ↦
        let near = take 3 before in
        let value = mul base (multiplier_of one near) in
        some (unit_clamp (if any is_negator near then mul (neg value) (lit 65 100) else value))
  ]

  abbrev scores_of : List (String × List String) → List F
  scores_of [] = []
  scores_of (t ∷ ts) = elim (token_score t) [ none ↦ scores_of ts | some s ↦ s ∷ scores_of ts ]

  -- Weighted by magnitude.
  abbrev weighted : List F → F
  weighted scores =
      let total = fsum (map fabs scores) in
      div (fsum (map (λ s. mul s (fabs s)) scores)) (if eqf total nought then one else total)

  abbrev set_phrases : List (String × F)
  set_phrases =
      ("nothing special", neg (lit 3 10))
      ∷ ("not worth", neg (lit 7 10))
      ∷ ("never again", neg (lit 9 10))
      ∷ []

  abbrev scored : List F → F × F
  scored [] = (nought, lit 2 10)
  scored (s ∷ ss) = (
    round (unit_clamp (weighted (s ∷ ss))) 3,
    round (fmin (lit 9 10) (add (lit 45 100) (mul (lit 12 100) (of_nat (length (s ∷ ss)))))) 3,
  )

  unfoldable pub score_clause : String → F × F
  score_clause clause =
      let normalized = c.normalize_name clause in
      let by_words = scored (scores_of (with_before [] (c.split normalized))) in
      let answer : F × F = elim (find (λ p. c.contains p.0 normalized) set_phrases) [
        | none ↦ by_words
        | some (phrase, value) ↦ (value, lit 7 10)
      ] in
      if str_eq normalized "" then (nought, nought) else answer

  unfoldable pub detect_attributes : String → List String
  detect_attributes clause =
      let normalized = c.normalize_name clause in
      map (λ entry. entry.0)
        (filter
          (λ (entry : String × List String).
            any (λ phrase. c.contains (c.normalize_name phrase) normalized) entry.1)
          attribute_lexicon)

  unfoldable pub detect_aspects : String → F → List (String × F)
  detect_aspects clause sentiment =
      let normalized = c.normalize_name clause in
      map (λ entry. (entry.0, sentiment))
        (filter (λ (entry : String × List String). any (λ cue. c.has_cue cue normalized) entry.1)
          aspect_lexicon)

  abbrev lowest : List F → Option F
  lowest [] = none
  lowest (p ∷ ps) = elim (lowest ps) [ none ↦ some p | some q ↦ some (fmin p q) ]

  -- `by_dish`: a hit replaces that of its dish only with a higher confidence.
  unfoldable pub keep_hit : DishHit F → List (DishHit F) → List (DishHit F)
  keep_hit hit [] = hit ∷ []
  keep_hit hit (h ∷ hs) =
      let rest = keep_hit hit hs in
      if str_eq h.dish_key hit.dish_key
      then (if lt h.confidence hit.confidence then hit ∷ hs else h ∷ hs)
      else h ∷ rest

  abbrev hit_of : String → String × String → DishHit F
  hit_of clause (alias, dish_key) =
      let score = score_clause clause in
      record {
        dish_key = dish_key;
        matched_alias = alias;
        clause = c.cut clause;
        sentiment = score.0;
        confidence = score.1;
        attributes = detect_attributes clause;
        price = lowest (c.extract_prices clause);
        aspects = detect_aspects clause score.0;
      }

  -- The aliases of a clause, the longest first.
  unfoldable pub match_aliases :
      String → List (String × String) → List (ℕ × ℕ) → List (DishHit F) → List (DishHit F)
  match_aliases clause [] consumed hits = hits
  match_aliases clause (entry ∷ entries) consumed hits =
      let skipped = match_aliases clause entries consumed hits in
      elim (c.span_of entry.0 (c.normalize_name clause)) [
        | none ↦ match_aliases clause entries consumed hits
        | some span ↦
            if is_inside span consumed
            then skipped
            else match_aliases clause entries (span ∷ consumed)
                (keep_hit (hit_of clause entry) hits)
      ]

  unfoldable pub match_clauses :
      List (String × String) → List String → List (DishHit F) → List (DishHit F)
  match_clauses aliases [] hits = hits
  match_clauses aliases (clause ∷ clauses) hits =
      match_clauses aliases clauses
        (if str_eq (c.normalize_name clause) "" then hits else match_aliases clause aliases [] hits)

  unfoldable pub extract_dish_mentions : String → List (String × String) → List (DishHit F)
  extract_dish_mentions text alias_index =
      if is_empty alias_index
      then []
      else match_clauses (sort_by alias_before alias_index) (split_clauses text) []
