-- ===== src/AiProcessing/Abandoned.antt =====
-- A review that a killed worker left behind on its last attempt.
use khaabo.Prelude.{
  ℕ, ◌≤◌, ◌≡◌, refl, ap, ◌∙◌, Bool, true, false, not, ◌&&◌, ◌==◌, List, [], ◌∷◌, if◌then◌else◌,
  filter, arith, inl, inr, Bool-cases, All, All-map, All-take, All-sort_by, All-if, All-of_map,
}
use khaabo.Float.{Float}
use khaabo.Enums.{AiState}
use khaabo.Store.{Review, update_where}
use khaabo.AiProcessing.Model.{World, Config, max_attempts}
use khaabo.AiProcessing.Batch.{
  is_claimable, start_attempt, selected, is_selected, claim_pending_reviews, reset_stuck_reviews,
  Analyze, process_pending, is_processing, oldest_first,
}
use khaabo.AiProcessing.Others.{is_row, row, filter-update_other, process_claimed-other}

module _ {F : Type 0} ⦃f : Float F⦄ (i : ℕ) where
  -- No row of the id may be claimed.
  abbrev Unclaimable : List (Review F) → Type 0
  Unclaimable reviews = All (λ r. is_row i r ≡ true → is_claimable r ≡ false) reviews

  filter-claimable :
      (is_locked : Review F → Bool) (rows : List (Review F))
      → Unclaimable rows
      → All (λ r. (r.id == i) ≡ false) (filter (λ r. is_claimable r && not (is_locked r)) rows)
  filter-claimable is_locked [] h = tt
  filter-claimable is_locked (r ∷ rs) h =
      let rest = filter-claimable is_locked rs h.1 in
      elim (Bool-cases (is_row i r)) [
        | inl mine ↦ rw (h.0 mine) rest
        | inr other ↦
            All-if (λ r. (r.id == i) ≡ false) (is_claimable r && not (is_locked r)) _ _
              (other, rest) rest
      ]

  selected-other :
      (is_locked : Review F → Bool) (limit : ℕ) (reviews : List (Review F))
      → Unclaimable reviews
      → All (λ r. (r.id == i) ≡ false) (selected is_locked limit reviews)
  unfolding selected
  selected-other is_locked limit reviews h =
      All-take (λ (r : Review F). (r.id == i) ≡ false) limit _
        (All-sort_by oldest_first (λ (r : Review F). (r.id == i) ≡ false) _
          (filter-claimable is_locked reviews h))

  claim-other :
      (is_locked : Review F → Bool) (limit : ℕ) (w : World F)
      → Unclaimable w.store.reviews
      → row i (claim_pending_reviews is_locked limit w).1 ≡ row i w
  unfolding claim_pending_reviews
  claim-other is_locked limit w h =
      filter-update_other i (is_selected (selected is_locked limit w.store.reviews)) start_attempt
        (λ r. refl) w.store.reviews (All-map _ _ (λ r k e. rw (k e) refl) w.store.reviews h)

  -- Whether a row may be claimed is a matter of the row alone.
  Unclaimable-rows :
      (rows : List (Review F))
      → All (λ r. is_claimable r ≡ false) (filter (is_row i) rows)
      → Unclaimable rows
  Unclaimable-rows [] h = tt
  Unclaimable-rows (r ∷ rs) h = elim (Bool-cases (is_row i r)) [
    | inl mine ↦ let both = rw mine at h in (λ e. both.0, Unclaimable-rows rs both.1)
    | inr other ↦ (λ e. cc, Unclaimable-rows rs (rw other at h))
  ]

  process_pending-other :
      (cfg : Config F) (analyze : Analyze F) (is_locked : Review F → Bool) (now limit : ℕ)
      (w : World F)
      → All (λ r. is_claimable r ≡ false) (row i w)
      → row i (process_pending cfg analyze is_locked now limit w).1 ≡ row i w
  unfolding process_pending claim_pending_reviews
  process_pending-other cfg analyze is_locked now limit w h =
      let free = Unclaimable-rows w.store.reviews h in
      process_claimed-other i cfg analyze now _ _ (
        All-of_map (λ (r : Review F). (r.id == i) ≡ false) start_attempt
          (selected is_locked limit w.store.reviews)
          (selected-other is_locked limit w.store.reviews free))
      ∙ claim-other is_locked limit w free

  -- Batches one after the other, each with its own time, limit and locks.
  unfoldable pub batches :
      Config F → Analyze F → List (ℕ × ℕ × (Review F → Bool)) → World F → World F
  batches cfg analyze [] w = w
  batches cfg analyze ((now, limit, is_locked) ∷ rest) w =
      batches cfg analyze rest (process_pending cfg analyze is_locked now limit w).1

  batches-other :
      (cfg : Config F) (analyze : Analyze F) (runs : List (ℕ × ℕ × (Review F → Bool))) (w : World F)
      → All (λ r. is_claimable r ≡ false) (row i w)
      → row i (batches cfg analyze runs w) ≡ row i w
  unfolding batches
  batches-other cfg analyze [] w h = refl
  batches-other cfg analyze ((now, limit, is_locked) ∷ rest) w h =
      let same = process_pending-other cfg analyze is_locked now limit w h in
      batches-other cfg analyze rest (process_pending cfg analyze is_locked now limit w).1
        (rw same h)
      ∙ same

  filter-update :
      (test : Review F → Bool) (g : Review F → Review F)
      → ((r : Review F) → is_row i (g r) ≡ is_row i r)
      → (rows : List (Review F))
      → filter (is_row i) (update_where test g rows) ≡ update_where test g (filter (is_row i) rows)
  filter-update test g same [] = refl
  filter-update test g same (r ∷ rs) = ground (arith, same r, filter-update test g same rs)

  reset-row :
      (is_stale : Review F → Bool) (w : World F) (x : Review F)
      → row i w ≡ x ∷ []
      → x.ai_state ≡ AiState.processing
      → is_stale x ≡ true
      → row i (reset_stuck_reviews is_stale w) ≡ record x { ai_state = AiState.pending } ∷ []
  unfolding reset_stuck_reviews
  reset-row is_stale w x one stuck stale =
      let test : Review F → Bool = λ r. is_processing r.ai_state && is_stale r in
      let reset : Review F → Review F = λ r. record r { ai_state = AiState.pending } in
      let hit : test x ≡ true = rw (stale, stuck) refl in
      filter-update test reset (λ r. refl) w.store.reviews
      ∙ ap (update_where test reset) one
      ∙ ap (λ b. (if b then reset x else x) ∷ []) hit

  -- The one review of an id, left in processing on its last attempt and not updated for long: the
  -- reset makes it pending, and then every sequence of batches leaves its row as it is, so that it
  -- is neither processed nor marked as failed.
  pub reset_stuck_reviews_abandons :
      (cfg : Config F) (analyze : Analyze F) (is_stale : Review F → Bool)
      (runs : List (ℕ × ℕ × (Review F → Bool))) (w : World F) (x : Review F)
      → row i w ≡ x ∷ []
      → x.ai_state ≡ AiState.processing
      → max_attempts ≤ x.ai_attempts
      → is_stale x ≡ true
      → row i (batches cfg analyze runs (reset_stuck_reviews is_stale w))
        ≡ record x { ai_state = AiState.pending } ∷ []
  reset_stuck_reviews_abandons cfg analyze is_stale runs w x one stuck last stale =
      let reset = reset-row is_stale w x one stuck stale in
      let spent : is_claimable (record x { ai_state = AiState.pending }) ≡ false = ground arith in
      batches-other cfg analyze runs (reset_stuck_reviews is_stale w) (rw reset (spent, tt)) ∙ reset
