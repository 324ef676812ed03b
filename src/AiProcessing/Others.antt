-- ===== src/AiProcessing/Others.antt =====
-- Processing a review leaves the rows of other reviews as they are.
use mathlib.Core.Path.{subst}
use khaabo.Prelude.{
  String, ℕ, ◌≡◌, refl, ap, sym, ◌∙◌, Bool, true, false, not, ◌==◌, Option, none, some, List, [],
  ◌∷◌, if◌then◌else◌, filter, any, arith, inl, inr, Bool-cases, Option-cases, All, All-intro, Given,
  Given-and_then,
}
use khaabo.Float.{Float}
use khaabo.Enums.{AiState, ReviewStatus, ModerationReason, is_user}
use khaabo.Store.{Review, update_where}
use khaabo.Board.{Dish}
use khaabo.Prelude.Int.{pos}
use khaabo.Dedup.{simhash, to_signed_64}
use khaabo.RankingService.Evidence.{Pair, same_pair, set_of, pairs_for_review}
use khaabo.AiProcessing.Model.{
  World, Config, DishMentionOut, ReviewAnalysis, ProcessResult, change_review,
}
use khaabo.AiProcessing.Dishes.{Index, load_alias_index, resolve_dish}
use khaabo.AiProcessing.Persist.{
  queue_once, store_found, store_mention, store_mentions, clear_rows, flag_near_duplicate,
  flag_spam, persist_analysis, process_review, mark_failed, is_mention_of, finish, record_success,
}
use khaabo.AiProcessing.Batch.{Analyze, attempted, process_claimed}

module _ {F : Type 0} where
  pub queue_once-row :
      (now id : ℕ) (reason : ModerationReason) (severity : ℕ) (w : World F)
      → (queue_once now id reason severity w).store.reviews ≡ w.store.reviews
  unfolding queue_once
  queue_once-row now id reason severity w = ground arith

  resolve_dish-row :
      (cfg : Config F) (index : Index) (m : DishMentionOut F) (w : World F)
      → (resolve_dish cfg index m w).1.store.reviews ≡ w.store.reviews
  unfolding resolve_dish
  resolve_dish-row cfg index m w = ground arith

  -- The reviews are those of a table.
  abbrev pub HasReviews : List (Review F) → List Pair × World F → Type 0
  HasReviews reviews t = t.1.store.reviews ≡ reviews

  store_found-row :
      (provider : String) (review : Review F) (m : DishMentionOut F) (pairs : List Pair)
      (found : Option Dish × World F)
      → Given (HasReviews found.1.store.reviews) (store_found provider review m pairs found)
  unfolding store_found
  store_found-row provider review m pairs (none, w) = refl
  store_found-row provider review m pairs (some d, w) =
      elim (Bool-cases (any (is_mention_of review.id d.id) w.store.mentions)) [
        | inl e ↦ rw e tt
        | inr e ↦ rw e refl
      ]

  pub store_mentions-row :
      (cfg : Config F) (index : Index) (provider : String) (review : Review F)
      (ms : List (DishMentionOut F)) (reviews : List (Review F)) (s : List Pair × World F)
      → HasReviews reviews s
      → Given (HasReviews reviews) (store_mentions cfg index provider review ms s)
  unfolding store_mentions store_mention
  store_mentions-row cfg index provider review [] reviews s h = h
  store_mentions-row cfg index provider review (m ∷ ms) reviews (pairs, w) h =
      let found = resolve_dish cfg index m w in
      Given-and_then (HasReviews found.1.store.reviews) (HasReviews reviews)
        (store_found provider review m pairs found) (store_mentions cfg index provider review ms)
        (store_found-row provider review m pairs found)
        (λ t e.
          store_mentions-row cfg index provider review ms reviews t
            (e ∙ resolve_dish-row cfg index m w ∙ h))

pub always {ℓ} : {A : Type ℓ} (o : Option A) → Given (λ a. Unit {0}) o
always none = tt
always (some a) = tt

module _ {F : Type 0} (i : ℕ) where
  abbrev pub is_row : Review F → Bool
  is_row r = r.id == i

  abbrev pub row : World F → List (Review F)
  row w = filter is_row w.store.reviews

  filter-passed :
      (r : Review F) (rs : List (Review F))
      → is_row r ≡ false
      → filter is_row (r ∷ rs) ≡ filter is_row rs
  filter-passed r rs h = rw h refl

  if-fails :
      (b : Bool) (r s : Review F)
      → is_row r ≡ false
      → is_row s ≡ false
      → is_row (if b then r else s) ≡ false
  if-fails true r s h k = h
  if-fails false r s h k = k

  -- A change of rows of other ids.
  pub filter-update_other :
      (test : Review F → Bool) (g : Review F → Review F)
      → ((r : Review F) → is_row (g r) ≡ is_row r)
      → (rows : List (Review F)) → All (λ r. is_row r ≡ true → test r ≡ false) rows
      → filter is_row (update_where test g rows) ≡ filter is_row rows
  filter-update_other test g same [] h = refl
  filter-update_other test g same (r ∷ rs) h = elim (Bool-cases (is_row r)) [
    | inl mine ↦ rw (h.0 mine, mine) (ap (λ l. r ∷ l) (filter-update_other test g same rs h.1))
    | inr other ↦
        filter-passed (if test r then g r else r) (update_where test g rs)
          (if-fails (test r) (g r) r (same r ∙ other) other)
        ∙ filter-update_other test g same rs h.1
        ∙ sym (filter-passed r rs other)
  ]

  apart : (id : ℕ) → (id == i) ≡ false → (r : Review F) → is_row r ≡ true → (r.id == id) ≡ false
  apart id h r k = ground arith

  change_review-other :
      (id : ℕ) (g : Review F → Review F) (w : World F)
      → (id == i) ≡ false
      → ((r : Review F) → is_row (g r) ≡ is_row r)
      → row (change_review id g w) ≡ row w
  change_review-other id g w h same =
      filter-update_other (λ r. r.id == id) g same w.store.reviews
        (All-intro (λ r. is_row r ≡ true → (r.id == id) ≡ false) (apart id h) w.store.reviews)

module _ {F : Type 0} (i : ℕ) (v : List (Review F)) where
  row-if : (b : Bool) (x y : World F) → row i x ≡ v → row i y ≡ v → row i (if b then x else y) ≡ v
  row-if true x y h k = h
  row-if false x y h k = k

  row-if_flag :
      (b : Bool) (x y : World F)
      → row i x ≡ v
      → row i y ≡ v
      → row i (if◌then◌else◌ {A = Bool × World F} b (true, x) (false, y)).1 ≡ v
  row-if_flag true x y h k = h
  row-if_flag false x y h k = k

module _ {F : Type 0} ⦃f : Float F⦄ (i : ℕ) where
  mark_failed-other :
      (r : Review F) (w : World F) → (r.id == i) ≡ false → row i (mark_failed r w) ≡ row i w
  unfolding mark_failed
  mark_failed-other r w h = change_review-other i r.id _ w h (λ x. refl)

  flag_near_duplicate-other :
      (cfg : Config F) (now : ℕ) (r : Review F) (w : World F)
      → (r.id == i) ≡ false
      → row i (flag_near_duplicate cfg now r w).1 ≡ row i w
  unfolding flag_near_duplicate
  flag_near_duplicate-other cfg now r w h =
      row-if_flag i (row i w) _ _ w
        (ap (filter (is_row i)) (queue_once-row now r.id ModerationReason.duplicate 1 _)
          ∙ change_review-other i r.id (λ x. record x { is_duplicate = true }) w h (λ x. refl))
        refl

  flag_spam-other :
      (now : ℕ) (spam : Bool) (r : Review F) (w : World F)
      → (r.id == i) ≡ false
      → row i (flag_spam now spam r w) ≡ row i w
  unfolding flag_spam
  flag_spam-other now spam r w h =
      let queued_row = ap (filter (is_row i)) (queue_once-row now r.id ModerationReason.spam 2 w) in
      row-if i (row i w) (not spam) w _ refl (
        row-if i (row i w) (is_user r.source) _ (queue_once now r.id ModerationReason.spam 2 w)
          (change_review-other i r.id (λ x. record x { status = ReviewStatus.flagged })
              (queue_once now r.id ModerationReason.spam 2 w) h (λ x. refl)
            ∙ queued_row)
          queued_row)

  process_review-other :
      (cfg : Config F) (now : ℕ) (r : Review F) (analysis : ReviewAnalysis F) (w : World F)
      → (r.id == i) ≡ false
      → Given (λ t. row i t.1 ≡ row i w) (process_review cfg now r analysis w)
  unfolding process_review persist_analysis clear_rows
  process_review-other cfg now r analysis w h =
      let scored : Review F → Review F = λ x. record x {
        spam_score = analysis.spam_score;
        simhash = some (to_signed_64 (pos (simhash cfg.words 64 r.body)));
      } in
      let cleared = change_review r.id scored (clear_rows r.id w) in
      let flagged = (flag_near_duplicate cfg now r cleared).1 in
      let spammed = flag_spam now analysis.is_spam r flagged in
      let start : List Pair × World F =
        (set_of same_pair (pairs_for_review w.store r.id), spammed) in
      let same : row i spammed ≡ row i w =
        flag_spam-other now analysis.is_spam r flagged h
        ∙ flag_near_duplicate-other cfg now r cleared h
        ∙ change_review-other i r.id scored (clear_rows r.id w) h (λ x. refl) in
      Given-and_then (λ (t : ProcessResult × World F). row i t.1 ≡ row i w)
        (λ (t : ProcessResult × World F). row i t.1 ≡ row i w) _ (record_success r)
        (Given-and_then (HasReviews spammed.store.reviews)
          (λ (t : ProcessResult × World F). row i t.1 ≡ row i w) _
          (finish r analysis (flag_near_duplicate cfg now r cleared).0)
          (store_mentions-row cfg (load_alias_index w) analysis.provider r analysis.dish_mentions
            spammed.store.reviews start refl)
          (λ t e.
            change_review-other i r.id (λ x. record x { ai_state = AiState.done }) t.1 h (λ x. refl)
            ∙ ap (filter (is_row i)) e
            ∙ same))
        (λ t e. e)

  attempted-other :
      (cfg : Config F) (analyze : Analyze F) (now : ℕ) (r : Review F) (w : World F)
      → (r.id == i) ≡ false
      → Given (λ t. row i t.1 ≡ row i w) (attempted cfg analyze now r w)
  unfolding attempted
  attempted-other cfg analyze now r w h =
      Given-and_then (λ (a : ReviewAnalysis F). Unit {0})
        (λ (t : ProcessResult × World F). row i t.1 ≡ row i w) (analyze r w)
        (λ analysis. process_review cfg now r analysis w) (always (analyze r w))
        (λ analysis x. process_review-other cfg now r analysis w h)

  claimed-other :
      (cfg : Config F) (analyze : Analyze F) (now : ℕ) (r : Review F) (w : World F)
      (t : ProcessResult × World F)
      → (r.id == i) ≡ false
      → attempted cfg analyze now r w ≡ some t
      → row i t.1 ≡ row i w
  claimed-other cfg analyze now r w t h e =
      subst (Given (λ (u : ProcessResult × World F). row i u.1 ≡ row i w)) e
        (attempted-other cfg analyze now r w h)

  pub process_claimed-other :
      (cfg : Config F) (analyze : Analyze F) (now : ℕ) (rs : List (Review F))
      (s : List Pair × World F)
      → All (λ r. (r.id == i) ≡ false) rs
      → row i (process_claimed cfg analyze now rs s).1 ≡ row i s.1
  unfolding process_claimed
  process_claimed-other cfg analyze now [] s h = refl
  process_claimed-other cfg analyze now (r ∷ rs) (dirty, w) h =
      elim (Option-cases (attempted cfg analyze now r w)) [
        | inl raised ↦
            rw (process_claimed, raised)
              (process_claimed-other cfg analyze now rs (dirty, mark_failed r w) h.1
                ∙ mark_failed-other r w h.0)
        | inr (t, given) ↦
            rw (process_claimed, given)
              (process_claimed-other cfg analyze now rs _ h.1
                ∙ claimed-other cfg analyze now r w t h.0 given)
      ]
