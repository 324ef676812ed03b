-- ===== src/Grounding.antt =====
-- backend/app/ai/base.py: what the text of a review does not support is taken from an analysis.
-- `SourceText` holds backend/app/utils/text.py, `in` on strings, and the longest match of difflib.
pub mod Supported
use khaabo.Prelude.{
  ℕ, Bool, true, false, not, ◌&&◌, ◌||◌, Option, none, some, List, [], ◌∷◌, map, String,
  if◌then◌else◌, any, filter, str_eq,
}
use khaabo.Float.{Float, nought, lt, eqf}
use khaabo.AiProcessing.Model.{AspectOut, DishMentionOut, ReviewAnalysis}
use khaabo.AiProcessing.Dishes.{Index}

pub record SourceText (F : Type 0) : Type 0 where
  pub normalize_name : String → String
  pub extract_prices : String → List F
  pub contains : String → String → Bool
  pub longest_match : String → String → ℕ
  pub length : String → ℕ
  -- `f"{title} {text}"`
  pub join : String → String → String

pub record ReviewAnalysisRequest : Type 0 where
  pub title : Option String
  pub text : String
  pub known_dishes : List String
  pub alias_index : Index

-- `settings.ai_min_mention_confidence` and `settings.ai_allow_dish_creation`
pub record GroundingSettings (F : Type 0) : Type 0 where
  pub min_confidence : F
  pub allow_dish_creation : Bool

-- `text or ""`
abbrev pub or_empty : Option String → String
or_empty none = ""
or_empty (some t) = t

module _ {F : Type 0} ⦃f : Float F⦄ (t : SourceText F) where
  open f use {lit, of_nat, div, le}

  unfoldable pub snippet_is_grounded : String → String → Bool
  snippet_is_grounded snippet source =
      let norm_snippet = t.normalize_name snippet in
      let norm_source = t.normalize_name source in
      if str_eq snippet "" || (str_eq norm_snippet "" || str_eq norm_source "")
      then false
      else t.contains norm_snippet norm_source
        || le (lit 90 100) (
            div (of_nat (t.longest_match norm_snippet norm_source))
              (of_nat (t.length norm_snippet)))

  module _ (settings : GroundingSettings F) (request : ReviewAnalysisRequest) where
    abbrev pub source_text : String
    source_text = t.join (or_empty request.title) request.text

    abbrev pub is_known : String → Bool
    is_known norm = any (λ d. str_eq (t.normalize_name d) norm) request.known_dishes

    abbrev pub is_alias : String → Bool
    is_alias norm =
        any (λ (a : String × String). str_eq (t.normalize_name a.0) norm) request.alias_index

    abbrev pub is_resolved : DishMentionOut F → Bool
    is_resolved m =
        let name_norm = t.normalize_name m.dish_name in
        let alias_norm = t.normalize_name (or_empty m.matched_alias) in
        is_known name_norm || (is_alias alias_norm || is_alias name_norm)

    abbrev pub is_allowed : DishMentionOut F → Bool
    is_allowed m = is_resolved m || (settings.allow_dish_creation && le (lit 8 10) m.confidence)

    -- The name, or the alias, stands in the text.
    abbrev pub is_in_text : DishMentionOut F → Bool
    is_in_text m =
        snippet_is_grounded m.dish_name source_text
        || (not (str_eq (t.normalize_name (or_empty m.matched_alias)) "")
            && snippet_is_grounded (or_empty m.matched_alias) source_text)

    -- The loop goes on to `kept.append` past its three tests.
    unfoldable pub is_kept : DishMentionOut F → Bool
    is_kept m = not (lt m.confidence settings.min_confidence) && (is_allowed m && is_in_text m)

    abbrev pub grounded_snippet : Option String → Option String
    grounded_snippet none = none
    grounded_snippet (some s) =
        if not (str_eq s "") && not (snippet_is_grounded s source_text) then none else some s

    abbrev pub is_text_price : F → Bool
    is_text_price p = any (eqf p) (t.extract_prices source_text)

    abbrev pub grounded_price : Option F → Option F
    grounded_price none = none
    grounded_price (some p) = if is_text_price p then some p else none

    abbrev pub agreed : F → Option Bool → Option Bool
    agreed sentiment none = none
    agreed sentiment (some true) = if lt sentiment nought then none else some true
    agreed sentiment (some false) = if lt (lit 3 10) sentiment then none else some false

    unfoldable pub grounded_mention : DishMentionOut F → DishMentionOut F
    grounded_mention m = record m {
      snippet = grounded_snippet m.snippet;
      price_mentioned = grounded_price m.price_mentioned;
      is_recommended = agreed m.sentiment m.is_recommended;
    }

    abbrev pub is_grounded_aspect : AspectOut F → Bool
    is_grounded_aspect a = elim a.snippet [
      | none ↦ true
      | some s ↦ snippet_is_grounded s source_text
    ]

    unfoldable pub enforce_grounding : ReviewAnalysis F → ReviewAnalysis F
    enforce_grounding analysis = record analysis {
      dish_mentions = map grounded_mention (filter is_kept analysis.dish_mentions);
      aspects = filter is_grounded_aspect analysis.aspects;
    }
