-- ===== src/AiProcessing/Budget.antt =====
-- The attempts that are left: a claim uses some up, and processing gives none back.
use mathlib.Core.Path.{subst}
use khaabo.Prelude.{
  ℕ, ◌+◌, ◌-◌, ◌≤◌, ◌<◌, ◌≡◌, refl, ap, ◌∙◌, inl, inr, Bool, true, false, ◌==◌, some, List, [], ◌∷◌,
  any, arith, if◌then◌else◌, Bool-cases, Option-cases, Given, Given-and_then,
}
use khaabo.Prelude.Int.{pos}
use khaabo.Float.{Float}
use khaabo.Enums.{AiState, ReviewStatus, ModerationReason, is_user}
use khaabo.Store.{Review, update_where}
use khaabo.Dedup.{simhash, to_signed_64}
use khaabo.RankingService.Evidence.{Pair, same_pair, set_of, pairs_for_review}
use khaabo.AiProcessing.Model.{
  World, Config, ReviewAnalysis, ProcessResult, change_review, max_attempts,
}
use khaabo.AiProcessing.Dishes.{load_alias_index}
use khaabo.AiProcessing.Persist.{
  queue_once, clear_rows, flag_near_duplicate, flag_spam, persist_analysis, process_review,
  mark_failed, finish, record_success,
}
use khaabo.AiProcessing.Batch.{Analyze, is_selected, start_attempt, attempted, process_claimed}
use khaabo.AiProcessing.Others.{HasReviews, queue_once-row, store_mentions-row, always}

module _ {F : Type 0} where
  abbrev pub left : List (Review F) → ℕ
  left [] = 0
  left (r ∷ rs) = (max_attempts - r.ai_attempts) + left rs

  -- A change that keeps the attempts.
  left-update_where :
      (test : Review F → Bool) (g : Review F → Review F)
      → ((r : Review F) → (g r).ai_attempts ≡ r.ai_attempts)
      → (rs : List (Review F)) → left (update_where test g rs) ≡ left rs
  left-update_where test g same [] = refl
  left-update_where test g same (r ∷ rs) = elim (Bool-cases (test r)) [
    | inl e ↦ rw (e, same r) (omega (arith, left-update_where test g same rs))
    | inr e ↦ rw e (omega (arith, left-update_where test g same rs))
  ]

  left-change_review :
      (id : ℕ) (g : Review F → Review F) (w : World F)
      → ((r : Review F) → (g r).ai_attempts ≡ r.ai_attempts)
      → left (change_review id g w).store.reviews ≡ left w.store.reviews
  left-change_review id g w same = left-update_where (λ r. r.id == id) g same w.store.reviews

  -- Each review that is selected could be claimed, and has an attempt less afterwards.
  left-claim-le :
      (chosen rs : List (Review F))
      → left (update_where (is_selected chosen) start_attempt rs) ≤ left rs
  left-claim-le chosen [] = omega arith
  left-claim-le chosen (r ∷ rs) = elim (Bool-cases (is_selected chosen r)) [
    | inl e ↦ rw e (omega (arith, left-claim-le chosen rs))
    | inr e ↦ rw e (omega (arith, left-claim-le chosen rs))
  ]

  pub left-claim :
      (chosen rs : List (Review F))
      → any (is_selected chosen) rs ≡ true
      → left (update_where (is_selected chosen) start_attempt rs) < left rs
  left-claim chosen [] h = cc
  left-claim chosen (r ∷ rs) h = elim (Bool-cases (is_selected chosen r)) [
    | inl e ↦
        let few : r.ai_attempts < max_attempts = ground arith in
        rw e (omega (arith, left-claim-le chosen rs, few))
    | inr e ↦ rw e (omega (arith, left-claim chosen rs (rw e at h)))
  ]

module _ {F : Type 0} ⦃f : Float F⦄ where
  left-mark_failed :
      (r : Review F) (w : World F) → left (mark_failed r w).store.reviews ≡ left w.store.reviews
  unfolding mark_failed
  left-mark_failed r w = left-change_review r.id _ w (λ x. refl)

  left-flag_spam :
      (now : ℕ) (spam : Bool) (r : Review F) (w : World F)
      → left (flag_spam now spam r w).store.reviews ≡ left w.store.reviews
  unfolding flag_spam
  left-flag_spam now true r w = elim (Bool-cases (is_user r.source)) [
    | inl e ↦ rw e (
        left-change_review r.id (λ x. record x { status = ReviewStatus.flagged })
          (queue_once now r.id ModerationReason.spam 2 w) (λ x. refl)
        ∙ ap left (queue_once-row now r.id ModerationReason.spam 2 w))
    | inr e ↦ rw e (ap left (queue_once-row now r.id ModerationReason.spam 2 w))
  ]
  left-flag_spam now false r w = refl

  left-flag_near_duplicate :
      (cfg : Config F) (now : ℕ) (r : Review F) (w : World F)
      → left (flag_near_duplicate cfg now r w).1.store.reviews ≡ left w.store.reviews
  unfolding flag_near_duplicate
  left-flag_near_duplicate cfg now r w = if_flag _ _ w (
      ap left (queue_once-row now r.id ModerationReason.duplicate 1 _)
      ∙ left-change_review r.id (λ x. record x { is_duplicate = true }) w (λ x. refl))
    where
      if_flag :
          (b : Bool) (x y : World F)
          → left x.store.reviews ≡ left y.store.reviews
          → left (if◌then◌else◌ {A = Bool × World F} b (true, x) (false, y)).1.store.reviews
            ≡ left y.store.reviews
      if_flag true x y h = h
      if_flag false x y h = refl

  left-process_review :
      (cfg : Config F) (now : ℕ) (r : Review F) (analysis : ReviewAnalysis F) (w : World F)
      → Given
          (λ t. left t.1.store.reviews ≡ left w.store.reviews)
          (process_review cfg now r analysis w)
  unfolding process_review persist_analysis clear_rows
  left-process_review cfg now r analysis w =
      let scored : Review F → Review F = λ x. record x {
        spam_score = analysis.spam_score;
        simhash = some (to_signed_64 (pos (simhash cfg.words 64 r.body)));
      } in
      let cleared = change_review r.id scored (clear_rows r.id w) in
      let flagged = (flag_near_duplicate cfg now r cleared).1 in
      let spammed = flag_spam now analysis.is_spam r flagged in
      let start : List Pair × World F =
        (set_of same_pair (pairs_for_review w.store r.id), spammed) in
      let same : left spammed.store.reviews ≡ left w.store.reviews =
        left-flag_spam now analysis.is_spam r flagged
        ∙ left-flag_near_duplicate cfg now r cleared
        ∙ left-change_review r.id scored (clear_rows r.id w) (λ x. refl) in
      Given-and_then
        (λ (t : ProcessResult × World F). left t.1.store.reviews ≡ left w.store.reviews)
        (λ (t : ProcessResult × World F). left t.1.store.reviews ≡ left w.store.reviews) _
        (record_success r)
        (Given-and_then (HasReviews spammed.store.reviews)
          (λ (t : ProcessResult × World F). left t.1.store.reviews ≡ left w.store.reviews) _
          (finish r analysis (flag_near_duplicate cfg now r cleared).0)
          (store_mentions-row cfg (load_alias_index w) analysis.provider r analysis.dish_mentions
            spammed.store.reviews start refl)
          (λ t e.
            left-change_review r.id (λ x. record x { ai_state = AiState.done }) t.1 (λ x. refl)
            ∙ ap left e
            ∙ same))
        (λ t e. e)

  left-attempted :
      (cfg : Config F) (analyze : Analyze F) (now : ℕ) (r : Review F) (w : World F)
      (t : ProcessResult × World F)
      → attempted cfg analyze now r w ≡ some t
      → left t.1.store.reviews ≡ left w.store.reviews
  unfolding attempted
  left-attempted cfg analyze now r w t e =
      subst (Given (λ (u : ProcessResult × World F). left u.1.store.reviews ≡ left w.store.reviews))
        e
        (Given-and_then (λ (a : ReviewAnalysis F). Unit {0})
          (λ (u : ProcessResult × World F). left u.1.store.reviews ≡ left w.store.reviews)
          (analyze r w) (λ analysis. process_review cfg now r analysis w) (always (analyze r w))
          (λ analysis x. left-process_review cfg now r analysis w))

  pub left-process_claimed :
      (cfg : Config F) (analyze : Analyze F) (now : ℕ) (rs : List (Review F))
      (s : List Pair × World F)
      → left (process_claimed cfg analyze now rs s).1.store.reviews ≡ left s.1.store.reviews
  unfolding process_claimed
  left-process_claimed cfg analyze now [] s = refl
  left-process_claimed cfg analyze now (r ∷ rs) (dirty, w) =
      elim (Option-cases (attempted cfg analyze now r w)) [
        | inl raised ↦
            rw (process_claimed, raised)
              (left-process_claimed cfg analyze now rs (dirty, mark_failed r w)
                ∙ left-mark_failed r w)
        | inr (t, given) ↦
            rw (process_claimed, given)
              (left-process_claimed cfg analyze now rs _
                ∙ left-attempted cfg analyze now r w t given)
      ]
