-- ===== src/Grounding/Supported.antt =====
-- What an analysis still says, once it is grounded, the text supports.
use khaabo.Prelude.{Bool, true, false, not, ◌||◌, ◌≡◌, Option, none, some, String, str_eq}
use khaabo.Float.{Float, nought, lt}
use khaabo.AiProcessing.Model.{DishMentionOut}
use khaabo.Grounding.{
  SourceText, ReviewAnalysisRequest, GroundingSettings, snippet_is_grounded, source_text,
  is_allowed, is_in_text, is_text_price,
}

module _ {F : Type 0} ⦃f : Float F⦄ (t : SourceText F) (settings : GroundingSettings F)
    (request : ReviewAnalysisRequest) where
  -- A quote that is given stands in the text, or is empty.
  abbrev pub is_fair_quote : Option String → Bool
  is_fair_quote none = true
  is_fair_quote (some s) = str_eq s "" || snippet_is_grounded t s (source_text t settings request)

  abbrev pub is_fair_price : Option F → Bool
  is_fair_price none = true
  is_fair_price (some p) = is_text_price t settings request p

  -- A recommendation does not speak against the sentiment.
  abbrev pub is_fair_advice : F → Option Bool → Bool
  is_fair_advice sentiment none = true
  is_fair_advice sentiment (some true) = not (lt sentiment nought)
  is_fair_advice sentiment (some false) = not (lt (f.lit 3 10) sentiment)

  abbrev pub Supported : DishMentionOut F → Type 0
  Supported m =
      (lt m.confidence settings.min_confidence ≡ false)
      × (is_allowed t settings request m ≡ true)
      × (is_in_text t settings request m ≡ true)
      × (is_fair_quote m.snippet ≡ true)
      × (is_fair_price m.price_mentioned ≡ true)
      × (is_fair_advice m.sentiment m.is_recommended ≡ true)
