-- ===== src/AiProcessing/Replaced.antt =====
-- A review that is processed again: its mentions are replaced.
use mathlib.Core.Path.{subst}
use mathlib.Core.Option.{some-injective}
use khaabo.Prelude.{
  ℕ, ◌≡◌, refl, ap, sym, ◌∙◌, Bool, true, false, not, ◌==◌, Option, none, some, List, [], ◌∷◌, ◌++◌,
  if◌then◌else◌, filter, arith, inl, inr, Option-cases, Given, map_option,
}
use khaabo.Float.{Float}
use khaabo.Enums.{ModerationReason, is_user}
use khaabo.Store.{Review, DishMention}
use khaabo.Board.{Dish}
use khaabo.Prelude.Int.{pos}
use khaabo.Dedup.{simhash, to_signed_64}
use khaabo.RankingService.Evidence.{Pair, same_pair, set_of, pairs_for_review}
use khaabo.AiProcessing.Model.{
  World, Config, DishMentionOut, ReviewAnalysis, ProcessResult, change_review,
}
use khaabo.AiProcessing.Dishes.{Index, find_dish}
use khaabo.AiProcessing.Persist.{
  queue_once, mention_row, store_mentions, clear_rows, flag_near_duplicate, flag_spam,
  persist_analysis, finish,
}
use khaabo.AiProcessing.Replayed.{
  is_other, mention_rows, row_for, view, view_of, alike, replay, queue_once-view,
  store_mentions-view, replay-adds, ++_none, filter-append, filter_idem, and_then_pure,
  some-ne-none,
}

same_id : (n : ℕ) → (n == n) ≡ true
same_id n = ground arith

module _ {F : Type 0} (v : List Dish × List (DishMention F)) where
  view-if : (b : Bool) (x y : World F) → view x ≡ v → view y ≡ v → view (if b then x else y) ≡ v
  view-if true x y h k = h
  view-if false x y h k = k

  view-if_flag :
      (b : Bool) (x y : World F)
      → view x ≡ v
      → view y ≡ v
      → view (if◌then◌else◌ {A = Bool × World F} b (true, x) (false, y)).1 ≡ v
  view-if_flag true x y h k = h
  view-if_flag false x y h k = k

module _ {F : Type 0} ⦃f : Float F⦄ (cfg : Config F) (fixed : cfg.allow_dish_creation ≡ false)
    (index : Index) (review : Review F) (analysis : ReviewAnalysis F) where
  flag_near_duplicate-view :
      (now : ℕ) (w : World F) → view (flag_near_duplicate cfg now review w).1 ≡ view w
  unfolding flag_near_duplicate
  flag_near_duplicate-view now w =
      view-if_flag (view w) _ _ w (queue_once-view now review.id ModerationReason.duplicate 1 _)
        refl

  flag_spam-view : (now : ℕ) (w : World F) → view (flag_spam now analysis.is_spam review w) ≡ view w
  unfolding flag_spam
  flag_spam-view now w =
      let queued_view = queue_once-view now review.id ModerationReason.spam 2 w in
      view-if (view w) (not analysis.is_spam) w _ refl (
        view-if (view w) (is_user review.source) _
          (queue_once now review.id ModerationReason.spam 2 w) queued_view queued_view)

  -- The mentions of the review go, and those of the analysis come, if no two are of one dish.
  replaced : List Dish → List (DishMention F) → Option (List (DishMention F))
  replaced dishes rows =
      replay cfg fixed index analysis.provider review dishes analysis.dish_mentions
        (filter (is_other review.id) rows)

  persist_analysis-view :
      (now : ℕ) (w : World F)
      → map_option view_of (persist_analysis cfg now index review analysis w)
        ≡ map_option (λ l. (w.dishes, l)) (replaced w.dishes w.store.mentions)
  unfolding persist_analysis replaced clear_rows
  persist_analysis-view now w =
      let cleared =
        change_review review.id
          (λ r. record r {
            spam_score = analysis.spam_score;
            simhash = some (to_signed_64 (pos (simhash cfg.words 64 review.body)));
          })
          (clear_rows review.id w) in
      let flagged = flag_near_duplicate cfg now review cleared in
      let spammed = flag_spam now analysis.is_spam review flagged.1 in
      let shown : view spammed ≡ (w.dishes, filter (is_other review.id) w.store.mentions) =
        flag_spam-view now flagged.1 ∙ flag_near_duplicate-view now cleared in
      let start : List Pair × World F =
        (set_of same_pair (pairs_for_review w.store review.id), spammed) in
      alike view_of view_of w.dishes
        (store_mentions cfg index analysis.provider review analysis.dish_mentions start)
        (replaced w.dishes w.store.mentions) (finish review analysis flagged.0) some
        (subst
          (λ (v : List Dish × List (DishMention F)).
            map_option view_of
              (store_mentions cfg index analysis.provider review analysis.dish_mentions start)
            ≡ map_option (λ l. (v.0, l))
                (replay cfg fixed index analysis.provider review v.0 analysis.dish_mentions v.1))
          shown
          (store_mentions-view cfg fixed index analysis.provider review analysis.dish_mentions
            start))
        (λ t l e. ap some (
          ap (λ (v : List Dish × List (DishMention F)). (v.0, v.1 ++ [])) e
          ∙ ap (λ k. (w.dishes, k)) (++_none l)))
      ∙ ap (map_option (λ l. (w.dishes, l))) (and_then_pure (replaced w.dishes w.store.mentions))

  row_for-others :
      (o : Option Dish) (m : DishMentionOut F) (rest : List (DishMention F))
      → filter (is_other review.id) rest ≡ []
      → filter (is_other review.id) (row_for o analysis.provider review m ++ rest) ≡ []
  unfolding mention_row
  row_for-others none m rest h = h
  row_for-others (some d) m rest h = rw (same_id review.id) h

  rows-others :
      (dishes : List Dish) (ms : List (DishMentionOut F))
      → filter (is_other review.id) (mention_rows cfg dishes index analysis.provider review ms) ≡ []
  unfolding mention_rows
  rows-others dishes [] = refl
  rows-others dishes (m ∷ ms) =
      row_for-others (find_dish cfg.names dishes index m) m _ (rows-others dishes ms)

  -- The rows of the other reviews after a run are those before it.
  others_kept :
      (dishes : List Dish) (ms : List (DishMention F))
      → filter (is_other review.id) (
          filter (is_other review.id) ms
          ++ mention_rows cfg dishes index analysis.provider review analysis.dish_mentions)
        ≡ filter (is_other review.id) ms
  others_kept dishes ms =
      let rows = mention_rows cfg dishes index analysis.provider review analysis.dish_mentions in
      filter-append (is_other review.id) (filter (is_other review.id) ms) rows
      ∙ ap (λ l. filter (is_other review.id) (filter (is_other review.id) ms) ++ l)
          (rows-others dishes analysis.dish_mentions)
      ∙ ++_none (filter (is_other review.id) (filter (is_other review.id) ms))
      ∙ filter_idem (is_other review.id) ms

  -- A run that ends, and the mentions that it leaves.
  ended :
      (now : ℕ) (w : World F) (result : ProcessResult) (t : World F)
      → persist_analysis cfg now index review analysis w ≡ some (result, t)
      → (t.dishes ≡ w.dishes)
        × (replaced w.dishes w.store.mentions ≡ some t.store.mentions)
        × (t.store.mentions
            ≡ filter (is_other review.id) w.store.mentions
              ++ mention_rows cfg w.dishes index analysis.provider review analysis.dish_mentions)
  unfolding replaced
  ended now w result t h = elim (Option-cases (replaced w.dishes w.store.mentions)) [
    | inl e ↦ absurd (
        some-ne-none (
          sym (ap (map_option view_of) h)
          ∙ persist_analysis-view now w
          ∙ ap (map_option (λ l. (w.dishes, l))) e))
    | inr (l, e) ↦
        let same : view t ≡ (w.dishes, l) = some-injective _ _ (
          sym (ap (map_option view_of) h)
          ∙ persist_analysis-view now w
          ∙ ap (map_option (λ l. (w.dishes, l))) e) in
        let rows = ap (λ (v : List Dish × List (DishMention F)). v.1) same in
        (
          ap (λ (v : List Dish × List (DishMention F)). v.0) same,
          e ∙ ap some (sym rows),
          rows
              ∙ subst
                  (Given (λ (k : List (DishMention F)).
                    k
                    ≡ filter (is_other review.id) w.store.mentions
                      ++ mention_rows cfg w.dishes index analysis.provider review
                          analysis.dish_mentions))
                  e
                  (replay-adds cfg fixed index analysis.provider review w.dishes
                    analysis.dish_mentions (filter (is_other review.id) w.store.mentions)),
        )
  ]

  again :
      (later : ℕ) (t : World F) (dishes : List Dish) (l : List (DishMention F))
      → map_option view_of (persist_analysis cfg later index review analysis t) ≡ some (dishes, l)
      → (result : ProcessResult) × (u : World F) × (persist_analysis cfg later index review analysis
            t
          ≡ some (result, u))
        × (u.store.mentions ≡ l)
        × (u.dishes ≡ dishes)
  again later t dishes l h =
      elim (Option-cases (persist_analysis cfg later index review analysis t)) [
        | inl e ↦ absurd (some-ne-none (sym h ∙ ap (map_option view_of) e))
        | inr (q, e) ↦
            let same : view q.1 ≡ (dishes, l) =
              some-injective _ _ (sym (ap (map_option view_of) e) ∙ h) in
            (
              q.0,
              q.1,
              e,
              ap (λ (v : List Dish × List (DishMention F)). v.1) same,
              ap (λ (v : List Dish × List (DishMention F)). v.0) same,
            )
      ]

  -- Where no dish may be created, and the storing of a review's analysis does not raise, it leaves
  -- of the review's mentions exactly those that the analysis gives on the dishes that stand, and of
  -- the others every one. A second storing of the same analysis does not raise either, and changes
  -- neither the mentions nor the dishes.
  pub persist_analysis_replaces :
      (now later : ℕ) (w : World F) (result : ProcessResult) (t : World F)
      → persist_analysis cfg now index review analysis w ≡ some (result, t)
      → (t.store.mentions
          ≡ filter (is_other review.id) w.store.mentions
            ++ mention_rows cfg w.dishes index analysis.provider review analysis.dish_mentions)
        × (second : ProcessResult) × (u : World F) × (persist_analysis cfg later index review
              analysis t
            ≡ some (second, u))
        × (u.store.mentions ≡ t.store.mentions)
        × (u.dishes ≡ t.dishes)
  unfolding replaced
  persist_analysis_replaces now later w result t h =
      let (dishes, rows, stands) = ended now w result t h in
      let others : filter (is_other review.id) t.store.mentions
          ≡ filter (is_other review.id) w.store.mentions =
        ap (filter (is_other review.id)) stands ∙ others_kept w.dishes w.store.mentions in
      let (second, u, e, mentions, same) = again later t t.dishes t.store.mentions (
        persist_analysis-view later t
        ∙ ap (map_option (λ l. (t.dishes, l))) (
            ap
              (λ (d : List Dish).
                replay cfg fixed index analysis.provider review d analysis.dish_mentions
                  (filter (is_other review.id) t.store.mentions))
              dishes
            ∙ ap (replay cfg fixed index analysis.provider review w.dishes analysis.dish_mentions)
                others
            ∙ rows)) in
      (stands, second, u, e, mentions, same)
