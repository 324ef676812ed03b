-- ===== src/Tests/Ai.antt =====
-- Duplicates and the processing of reviews, at a store with one review of two.
use khaabo.Prelude.{
  ℕ, ◌≡◌, ◌⊎◌, refl, arith, true, false, Option, none, some, List, [], ◌∷◌, ◌++◌, filter, any,
  str_eq, if◌then◌else◌,
}
use khaabo.Prelude.Int.{ℤ, pos, negsuc, ◌≤ℤ◌, ◌+ℤ◌}
use khaabo.Float.Fixed.{fixed_float, Fixed-IsFloat}
use khaabo.Enums.{AiState, ReviewStatus}
use khaabo.Store.{Review}
use khaabo.Dedup.{
  Words, low_64, to_signed_64, hamming_distance, is_near_duplicate, Existing, weigh_all, weigh,
  ones_apart, simhash, bits_of, features, add_feature, jaccard,
}
use khaabo.Dedup.Signed.{to_signed_64_roundtrip}
use khaabo.Dedup.Verdict.{is_near_duplicate_lem, is_confirmed, is_confirmed_as}
use khaabo.Board.{Dish}
use khaabo.AiProcessing.Model.{Names, ReviewAnalysis, ProcessResult, World, Config}
use khaabo.AiProcessing.Dishes.{Index, resolve_dish, find_dish}
use khaabo.AiProcessing.Persist.{
  persist_analysis, store_mentions, store_mention, store_found, clear_rows, flag_spam,
  flag_near_duplicate, queue_once, mention_row,
}
use khaabo.AiProcessing.Replayed.{is_other, mention_rows}
use khaabo.AiProcessing.Replaced.{persist_analysis_replaces}
use khaabo.AiProcessing.Batch.{reset_stuck_reviews}
use khaabo.AiProcessing.Others.{row}
use khaabo.AiProcessing.Abandoned.{batches, reset_stuck_reviews_abandons}
use khaabo.Tests.Fixtures.{review, store}

to_signed_64_roundtrip_example :
    (negsuc 9_223_372_036_854_775_807 ≤ℤ to_signed_64 (pos 17_000_000_000_000_000_000))
    × (to_signed_64 (pos 17_000_000_000_000_000_000) ≤ℤ pos 9_223_372_036_854_775_807)
    × (low_64 (to_signed_64 (pos 17_000_000_000_000_000_000))
        ≡ low_64 (pos 17_000_000_000_000_000_000))
    × (hamming_distance (to_signed_64 (pos 17_000_000_000_000_000_000)) (to_signed_64 (pos 5))
        ≡ hamming_distance (pos 17_000_000_000_000_000_000) (pos 5))
to_signed_64_roundtrip_example = to_signed_64_roundtrip (pos 17_000_000_000_000_000_000) (pos 5)

-- A text is its one token.
abbrev words : Words
words = record {
  tokenize = λ text. text ∷ [];
  token_set = λ text. text ∷ [];
  join = λ a b. a;
  digest = λ feature. if str_eq feature "crisp and juicy momos" then 5 else 9;
}

abbrev existing : List Existing
existing = (3, pos 5, "crisp and juicy momos") ∷ (4, pos 1000, "soft rolls") ∷ []

is_near_duplicate_lem_example :
    ((is_near_duplicate words 12 (pos 8200) "crisp and juicy momos" existing).is_duplicate
      ≡ any (is_confirmed words 12 (pos 8200) "crisp and juicy momos") existing)
    × ((((is_near_duplicate words 12 (pos 8200) "crisp and juicy momos" existing).is_duplicate
            ≡ false)
          × ((is_near_duplicate words 12 (pos 8200) "crisp and juicy momos" existing).matched_id
              ≡ none))
        ⊎ ((id : ℕ) × ((is_near_duplicate words 12
                (pos 8200)
                "crisp and juicy momos"
                existing).matched_id
              ≡ some id)
            × (any (is_confirmed_as words 12 (pos 8200) "crisp and juicy momos" id) existing
                ≡ true)))
is_near_duplicate_lem_example =
    is_near_duplicate_lem Fixed-IsFloat words 12 (pos 8200) "crisp and juicy momos" refl existing

abbrev names : Names
names = record {
  normalize_name = λ name. name;
  slugify = λ name. name;
  strip = λ text. text;
  title = λ name. name;
  length = λ text. 4;
}

abbrev pub config : Config ℤ
config = record {
  names = names;
  words = words;
  allow_dish_creation = false;
  hamming_threshold = 12;
  jaccard_threshold = pos 8200;
}

abbrev momo : Dish
momo = record {
  id = 1;
  name = "momo";
  slug = "momo";
  normalized_name = "momo";
  is_active = true;
  mention_count = 0;
  restaurant_count = 0;
}

abbrev pub world : World ℤ
world = record { store = store; dishes = momo ∷ []; aliases = []; jobs = [] }

abbrev analysis : ReviewAnalysis ℤ
analysis = record {
  is_spam = false;
  spam_score = pos 0;
  dish_mentions =
      record {
        dish_name = "momo";
        matched_alias = none;
        snippet = none;
        sentiment = pos 8000;
        confidence = pos 9000;
        attributes = "juicy" ∷ [];
        price_mentioned = none;
        is_recommended = none;
        aspects = [];
      }
      ∷ [];
  aspects = [];
  provider = "heuristic";
}

abbrev index : Index
index = ("momo", "momo") ∷ []

-- What the first run gives.
abbrev given_or : Option (ProcessResult × World ℤ) → ProcessResult × World ℤ
given_or none = (record { pairs = []; duplicate = false }, world)
given_or (some t) = t

abbrev processed : ProcessResult × World ℤ
processed =
    given_or (persist_analysis config 1 index (review 10 ReviewStatus.published) analysis world)

persist_analysis-run :
    persist_analysis config 1 index (review 10 ReviewStatus.published) analysis world
    ≡ some processed
unfolding persist_analysis store_mentions store_mention store_found resolve_dish clear_rows
    find_dish flag_spam flag_near_duplicate is_near_duplicate weigh_all weigh hamming_distance
    ones_apart low_64 simhash bits_of features add_feature ◌+ℤ◌ jaccard queue_once
persist_analysis-run = refl

persist_analysis_replaces_example :
    (processed.1.store.mentions
      ≡ filter (is_other 10) world.store.mentions
        ++ mention_rows config world.dishes index "heuristic"
            (review 10 ReviewStatus.published)
            analysis.dish_mentions)
    × (second : ProcessResult) × (u : World ℤ) × (persist_analysis config 2 index
          (review 10 ReviewStatus.published)
          analysis
          processed.1
        ≡ some (second, u))
    × (u.store.mentions ≡ processed.1.store.mentions)
    × (u.dishes ≡ processed.1.dishes)
persist_analysis_replaces_example =
    persist_analysis_replaces config refl index (review 10 ReviewStatus.published) analysis 1 2
      world processed.0 processed.1 persist_analysis-run

-- An analysis that names a dish twice is not stored.
abbrev twice : ReviewAnalysis ℤ
twice = record analysis { dish_mentions = analysis.dish_mentions ++ analysis.dish_mentions }

persist_analysis-twice :
    persist_analysis config 1 index (review 10 ReviewStatus.published) twice world ≡ none
unfolding persist_analysis store_mentions store_mention store_found resolve_dish clear_rows
    find_dish flag_spam flag_near_duplicate is_near_duplicate weigh_all weigh hamming_distance
    ones_apart low_64 simhash bits_of features add_feature ◌+ℤ◌ jaccard queue_once mention_row
persist_analysis-twice = refl

-- A review on its fifth attempt.
abbrev stuck : Review ℤ
stuck = record (review 10 ReviewStatus.published) { ai_state = AiState.processing; ai_attempts = 5 }

abbrev stuck_world : World ℤ
stuck_world = record world { store = record store { reviews = stuck ∷ [] } }

reset_stuck_reviews_abandons_example :
    row 10 (
      batches 10 config
        (λ r w. some analysis)
        ((5, 8, λ r. false) ∷ (6, 8, λ r. false) ∷ [])
        (reset_stuck_reviews (λ r. true) stuck_world))
    ≡ record stuck { ai_state = AiState.pending } ∷ []
reset_stuck_reviews_abandons_example =
    reset_stuck_reviews_abandons 10 config (λ r w. some analysis) (λ r. true)
      ((5, 8, λ r. false) ∷ (6, 8, λ r. false) ∷ []) stuck_world stuck refl refl (omega arith) refl
