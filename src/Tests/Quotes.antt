-- ===== src/Tests/Quotes.antt =====
-- Grounding, on one analysis whose quote stands in no text.
use khaabo.Prelude.{true, none, some, [], ◌∷◌, str_eq}
use khaabo.Prelude.Int.{ℤ, pos}
use khaabo.Float.Fixed.{fixed_float}
use khaabo.AiProcessing.Model.{ReviewAnalysis}
use khaabo.Grounding.{SourceText, ReviewAnalysisRequest, GroundingSettings}
use khaabo.Grounding.Supported.{Supported}

abbrev text : SourceText ℤ
text = record {
  normalize_name = λ name. name;
  extract_prices = λ text. pos 1_200_000 ∷ [];
  contains = λ part whole. str_eq part "momo";
  longest_match = λ part whole. 1;
  length = λ part. 10;
  join = λ title text. text;
}

abbrev request : ReviewAnalysisRequest
request = record {
  title = none;
  text = "the momo is juicy";
  known_dishes = "momo" ∷ [];
  alias_index = [];
}

abbrev settings : GroundingSettings ℤ
settings = record { min_confidence = pos 3500; allow_dish_creation = true }

abbrev analysis : ReviewAnalysis ℤ
analysis = record {
  is_spam = true;
  spam_score = pos 0;
  dish_mentions =
      record {
        dish_name = "momo";
        matched_alias = none;
        snippet = some "best in town";
        sentiment = pos 8000;
        confidence = pos 9000;
        attributes = [];
        price_mentioned = some (pos 900_000);
        is_recommended = some true;
        aspects = [];
      }
      ∷ [];
  aspects = [];
  provider = "model";
}
