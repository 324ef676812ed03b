-- ===== src/AiProcessing/Persist.antt =====
-- backend/app/services/ai_processing.py, `_persist_analysis` and what it calls. A flush that violates
-- UNIQUE(review_id, dish_id) of backend/app/models/review.py raises, and nothing is given.
use khaabo.Prelude.{
  ℕ, suc, Bool, true, false, not, ◌&&◌, Option, none, some, List, [], ◌∷◌, ◌++◌, map, String, leb,
  ◌==◌, if◌then◌else◌, filter, any, take, sort_by, str_eq, and_then,
}
use khaabo.Prelude.Int.{pos}
use khaabo.Float.{Float}
use khaabo.Enums.{ReviewStatus, AiState, ModerationReason, ExtractionMethod, is_user}
use khaabo.Store.{Review, DishMention, ReviewAspect, queued}
use khaabo.Board.{Dish}
use khaabo.Reviews.Queue.{is_item_of, new_item}
use khaabo.Dedup.{Existing, DuplicateVerdict, simhash, to_signed_64, is_near_duplicate}
use khaabo.RankingService.Evidence.{Pair, same_pair, set_of, pairs_for_review}
use khaabo.AiProcessing.Model.{
  max_attempts, candidate_limit, AspectOut, DishMentionOut, ReviewAnalysis, World, Config,
  ProcessResult, change_review,
}
use khaabo.AiProcessing.Dishes.{Index, load_alias_index, resolve_dish}

abbrev method_of : String → ExtractionMethod
method_of provider =
    if str_eq provider "heuristic" then ExtractionMethod.alias else ExtractionMethod.ai

module _ {F : Type 0} where
  -- `_queue_moderation` of this module: an item that stands is left as it is.
  unfoldable pub queue_once : ℕ → ℕ → ModerationReason → ℕ → World F → World F
  queue_once now review reason severity w =
      if any (is_item_of review reason) w.store.items then w else record w {
        store = record (w.store) {
          next_id = suc (w.store.next_id);
          items =
              new_item w.store.next_id (queued now none reason none) review reason severity none
                none
              ∷ w.store.items;
        };
      }

  abbrev newest_first : Review F → Review F → Bool
  newest_first a b = leb b.published_at a.published_at

  abbrev has_simhash : Review F → Bool
  has_simhash r = elim r.simhash [ none ↦ false | some hash ↦ true ]

  abbrev hashed : List (Review F) → List Existing
  hashed [] = []
  hashed (r ∷ rs) = elim r.simhash [
    | none ↦ hashed rs
    | some hash ↦ (r.id, hash, r.body) ∷ hashed rs
  ]

  -- The other reviews of the restaurant that have a simhash.
  abbrev candidates : Review F → List (Review F) → List Existing
  candidates review reviews = hashed (
      take candidate_limit (
        sort_by newest_first (
          filter
            (λ r.
              r.restaurant_id == review.restaurant_id && (not (r.id == review.id) && has_simhash r))
            reviews)))

  abbrev aspect_row : ℕ → Option ℕ → AspectOut F → ReviewAspect F
  aspect_row review dish a = record {
    review_id = review;
    dish_id = dish;
    aspect = a.aspect;
    sentiment = a.sentiment;
    confidence = a.confidence;
  }

  unfoldable pub mention_row : String → Review F → Dish → DishMentionOut F → DishMention F
  mention_row provider review dish m = record {
    review_id = review.id;
    dish_id = dish.id;
    dish_slug = dish.slug;
    restaurant_id = review.restaurant_id;
    snippet = m.snippet;
    sentiment = m.sentiment;
    confidence = m.confidence;
    attributes = m.attributes;
    price_mentioned = m.price_mentioned;
    is_recommended = m.is_recommended;
    extraction_method = method_of provider;
  }

  abbrev add_rows : List (DishMention F) → List (ReviewAspect F) → World F → World F
  add_rows mentions aspects w = record w {
    store = record (w.store) {
      mentions = w.store.mentions ++ mentions;
      aspects = w.store.aspects ++ aspects;
    };
  }

  -- `uq_review_dish_mentions_review_id_dish_id`
  abbrev pub is_mention_of : ℕ → ℕ → DishMention F → Bool
  is_mention_of review dish m = m.review_id == review && m.dish_id == dish

  -- The rows of a mention whose dish is known; the pair that it touches comes with the state. The
  -- flush raises where the review has a mention of the dish.
  unfoldable pub store_found :
      String
      → Review F
      → DishMentionOut F
      → List Pair
      → Option Dish × World F
      → Option (List Pair × World F)
  store_found provider review m pairs (none, w) = some (pairs, w)
  store_found provider review m pairs (some dish, w) =
      if any (is_mention_of review.id dish.id) w.store.mentions
      then none
      else some (
        (dish.id, review.restaurant_id) ∷ pairs,
        add_rows (mention_row provider review dish m ∷ [])
            (map (aspect_row review.id (some (dish.id))) m.aspects) w,
      )

  -- One mention of the analysis.
  unfoldable pub store_mention :
      Config F
      → Index
      → String
      → Review F
      → DishMentionOut F
      → List Pair × World F
      → Option (List Pair × World F)
  store_mention cfg index provider review m (pairs, w) =
      store_found provider review m pairs (resolve_dish cfg index m w)

  unfoldable pub store_mentions :
      Config F
      → Index
      → String
      → Review F
      → List (DishMentionOut F)
      → List Pair × World F
      → Option (List Pair × World F)
  store_mentions cfg index provider review [] s = some s
  store_mentions cfg index provider review (m ∷ ms) s =
      and_then (store_mention cfg index provider review m s)
        (store_mentions cfg index provider review ms)

  -- The rows of an earlier run go first.
  unfoldable pub clear_rows : ℕ → World F → World F
  clear_rows id w = record w {
    store = record (w.store) {
      mentions = filter (λ m. not (m.review_id == id)) w.store.mentions;
      aspects = filter (λ a. not (a.review_id == id)) w.store.aspects;
    };
  }

module _ {F : Type 0} ⦃f : Float F⦄ where
  unfoldable pub flag_near_duplicate : Config F → ℕ → Review F → World F → Bool × World F
  flag_near_duplicate cfg now review w =
      let verdict : DuplicateVerdict F =
        is_near_duplicate cfg.words cfg.hamming_threshold cfg.jaccard_threshold review.body
          (candidates review w.store.reviews) in
      if verdict.is_duplicate
      then (
        true,
        queue_once now review.id ModerationReason.duplicate 1
            (change_review review.id (λ r. record r { is_duplicate = true }) w),
      )
      else (false, w)

  unfoldable pub flag_spam : ℕ → Bool → Review F → World F → World F
  flag_spam now is_spam review w =
      let queued_world = queue_once now review.id ModerationReason.spam 2 w in
      if not is_spam
      then w
      else if is_user review.source
      then change_review review.id (λ r. record r { status = ReviewStatus.flagged }) queued_world
      else queued_world

  -- The rest of the call, once the mentions are stored.
  abbrev pub finish :
      Review F → ReviewAnalysis F → Bool → List Pair × World F → Option (ProcessResult × World F)
  finish review analysis duplicate (pairs, w) =
      let final = add_rows [] (map (aspect_row review.id none) analysis.aspects) w in
      some (
        record { pairs = pairs; duplicate = duplicate },
        change_review review.id (λ r. record r { ai_state = AiState.done }) final,
      )

  unfoldable pub persist_analysis :
      Config F
      → ℕ
      → Index
      → Review F
      → ReviewAnalysis F
      → World F
      → Option (ProcessResult × World F)
  persist_analysis cfg now index review analysis w =
      let previous = set_of same_pair (pairs_for_review w.store review.id) in
      let cleared =
        change_review review.id
          (λ r. record r {
            spam_score = analysis.spam_score;
            simhash = some (to_signed_64 (pos (simhash cfg.words 64 review.body)));
          })
          (clear_rows review.id w) in
      let flagged = flag_near_duplicate cfg now review cleared in
      let spammed = flag_spam now analysis.is_spam review flagged.1 in
      and_then
        (store_mentions cfg index analysis.provider review analysis.dish_mentions
          (previous, spammed))
        (finish review analysis flagged.0)

  abbrev add_job : ℕ → Bool → ℕ → World F → World F
  add_job review success attempt w = record w {
    jobs = record { review_id = review; success = success; attempt = attempt } ∷ w.jobs;
  }

  -- `review.ai_attempts or 1`
  abbrev attempt_of : Review F → ℕ
  attempt_of r = if r.ai_attempts == 0 then 1 else r.ai_attempts

  abbrev pub record_success : Review F → ProcessResult × World F → Option (ProcessResult × World F)
  record_success review (result, w) = some (result, add_job review.id true (attempt_of review) w)

  unfoldable pub process_review :
      Config F → ℕ → Review F → ReviewAnalysis F → World F → Option (ProcessResult × World F)
  process_review cfg now review analysis w =
      and_then (persist_analysis cfg now (load_alias_index w) review analysis w)
        (record_success review)

  unfoldable pub mark_failed : Review F → World F → World F
  mark_failed review w = add_job review.id false (attempt_of review) (
      change_review review.id
        (λ r. record r {
          ai_state = if leb max_attempts r.ai_attempts then AiState.failed else AiState.pending;
        })
        w)
