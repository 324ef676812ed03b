-- ===== src/Tests/Texts.antt =====
-- Queries, comments and spam, with texts of one word.
use Prim.Native.String.{count as len}
use khaabo.Prelude.{
  ◌≤◌, ◌≡◌, refl, true, false, none, some, [], ◌∷◌, String, str_eq, if◌then◌else◌, All, IsIn,
}
use khaabo.Prelude.Int.{ℤ, pos}
use khaabo.Float.{InUnit}
use khaabo.Float.Fixed.{fixed_float, Fixed-IsFloat}
use khaabo.Dedup.Spam.{Reader, spam_score}
use khaabo.Dedup.Spam.Bounds.{spam_score-InUnit}
use khaabo.QueryParser.{
  Patterns, first_longest, note_superlative, note_near_me, note_prices, note_band, note_area,
  note_dietary, note_mood, note_cuisine, conclude, priced, parse_query,
}
use khaabo.QueryParser.Words.{default_areas, dietary_terms}
use khaabo.QueryParser.Longest.{parse_query_dietary}
use khaabo.DishExtraction.{Clauses, extract_dish_mentions}
use khaabo.DishExtraction.Single.{IsSingle, IsListed, extract_dish_mentions-IsSingle}

abbrev reader : Reader
reader = record {
  strip = λ text. text;
  lower = λ text. text;
  tokenize = λ text. text ∷ [];
  contains = λ part text. str_eq part text;
  letters = λ text. 20;
  capitals = λ text. 18;
  has_run = λ text. true;
}

spam_score-InUnit_example : InUnit {F = ℤ} (spam_score reader "FREE" 7)
spam_score-InUnit_example = spam_score-InUnit Fixed-IsFloat reader "FREE" 7

abbrev patterns : Patterns ℤ
patterns = record {
  strip = λ text. text;
  normalize_name = λ text. text;
  title = λ text. text;
  split = λ text. text ∷ [];
  join = λ tokens. elim tokens [ [] ↦ "" | t ∷ ts ↦ t ];
  is_digit = λ text. false;
  contains = λ part text. str_eq part text;
  blank = λ part text. "";
  between = λ text. none;
  under = λ text. none;
  over = λ text. none;
  near_place = λ text. none;
  has_phrase = λ phrase text. str_eq phrase text;
  drop_phrase = λ phrase text. "";
}

parse_query-run : (parse_query patterns default_areas "pure veg").dietary ≡ some "veg"
unfolding parse_query conclude note_cuisine note_mood note_dietary note_area priced note_band
    note_prices note_near_me note_superlative first_longest
parse_query-run = refl

parse_query_dietary_example :
    let working = (note_area patterns default_areas (priced patterns "pure veg")).0 in
    (kv : String × String) × IsIn dietary_terms kv
    × (kv.1 ≡ "veg")
    × (str_eq kv.0 working ≡ true)
    × All (λ other. str_eq other.0 working ≡ true → len other.0 ≤ len kv.0) dietary_terms
parse_query_dietary_example =
    parse_query_dietary patterns default_areas "pure veg" "veg" parse_query-run

abbrev clauses : Clauses ℤ
clauses = record {
  normalize_name = λ text. text;
  clean_text = λ text. text;
  split = λ text. text ∷ [];
  parts = λ text. text ∷ "tasty" ∷ [];
  contains = λ part text. str_eq part text;
  has_cue = λ cue text. str_eq cue text;
  span_of = λ alias text. if str_eq alias text then some (0, 4) else none;
  extract_prices = λ text. pos 1_200_000 ∷ [];
  cut = λ text. text;
}

extract_dish_mentions-IsSingle_example :
    IsSingle (extract_dish_mentions clauses "momo" (("momo", "momo") ∷ []))
    × All
        (IsListed (("momo", "momo") ∷ []))
        (extract_dish_mentions clauses "momo" (("momo", "momo") ∷ []))
extract_dish_mentions-IsSingle_example =
    extract_dish_mentions-IsSingle clauses "momo" (("momo", "momo") ∷ [])
