-- ===== src/AiProcessing/Drained.antt =====
-- The batches of `process_pending` come to an end, also where the provider never answers.
use khaabo.Prelude.{
  ℕ, zero, suc, ◌≤◌, ◌<◌, ◌≡◌, refl, inl, inr, Bool, true, false, not, ◌&&◌, List, [], ◌∷◌, any,
  take, filter, sort_by, insert, is_empty, arith, if◌then◌else◌, Bool-cases, All, All-sort_by,
  All-take, All-of_any,
}
use khaabo.Float.{Float}
use khaabo.Store.{Review}
use khaabo.AiProcessing.Model.{World, Config}
use khaabo.AiProcessing.Batch.{
  Analyze, is_claimable, is_selected, oldest_first, selected, claim_pending_reviews,
  process_pending,
}
use khaabo.AiProcessing.Budget.{left, left-claim, left-process_claimed}

-- No row is locked by another worker.
abbrev unlocked : {F : Type 0} → Review F → Bool
unlocked r = false

module _ {F : Type 0} where
  abbrev pub is_idle : ℕ → World F → Bool
  is_idle limit w = is_empty (selected unlocked limit w.store.reviews)

  kept :
      (chosen rs : List (Review F))
      → All (λ r. is_selected chosen r ≡ false) rs
      → All
          (λ r. (is_claimable r ≡ true) × (is_selected chosen r ≡ false))
          (filter (λ r. is_claimable r && not (unlocked r)) rs)
  kept chosen [] h = tt
  kept chosen (r ∷ rs) h = elim (Bool-cases (is_claimable r)) [
    | inl e ↦ rw e ((e, h.0), kept chosen rs h.1)
    | inr e ↦ rw e (kept chosen rs h.1)
  ]

  -- What is selected could be claimed, and fails a test that all rows fail.
  missed :
      (limit : ℕ) (chosen rs : List (Review F))
      → any (is_selected chosen) rs ≡ false
      → All
          (λ r. (is_claimable r ≡ true) × (is_selected chosen r ≡ false))
          (selected unlocked limit rs)
  unfolding selected
  missed limit chosen rs h =
      let P : Review F → Type 0 = λ r. (is_claimable r ≡ true) × (is_selected chosen r ≡ false) in
      All-take P limit _
        (All-sort_by oldest_first P _ (kept chosen rs (All-of_any (is_selected chosen) rs h)))

  contradiction :
      (chosen : List (Review F))
      → is_empty chosen ≡ false
      → All (λ r. (is_claimable r ≡ true) × (is_selected chosen r ≡ false)) chosen
      → ⊥
  contradiction [] h k = cc
  contradiction (r ∷ rs) h k = ground (arith, k.0)

  some_selected :
      (limit : ℕ) (rs : List (Review F))
      → is_empty (selected unlocked limit rs) ≡ false
      → any (is_selected (selected unlocked limit rs)) rs ≡ true
  some_selected limit rs h = elim (Bool-cases (any (is_selected (selected unlocked limit rs)) rs)) [
    | inl e ↦ e
    | inr e ↦ absurd (
        contradiction (selected unlocked limit rs) h
          (missed limit (selected unlocked limit rs) rs e))
  ]

  insert_some : (r : Review F) (rs : List (Review F)) → is_empty (insert oldest_first r rs) ≡ false
  insert_some r [] = refl
  insert_some r (x ∷ rs) = elim (Bool-cases (oldest_first r x)) [
    | inl e ↦ rw e refl
    | inr e ↦ rw e refl
  ]

  take_some :
      (limit : ℕ) (rs : List (Review F))
      → is_empty rs ≡ false
      → is_empty (take (suc limit) rs) ≡ false
  take_some limit [] h = h
  take_some limit (r ∷ rs) h = refl

  none_claimable :
      (limit : ℕ) (rs : List (Review F))
      → is_empty (selected unlocked (suc limit) rs) ≡ true
      → All (λ r. is_claimable r ≡ false) rs
  unfolding selected
  none_claimable limit [] h = tt
  none_claimable limit (r ∷ rs) h = elim (Bool-cases (is_claimable r)) [
    | inl e ↦
        let rest = filter (λ x. is_claimable x && not (unlocked x)) rs in
        let some_row =
          take_some limit (sort_by oldest_first (r ∷ rest))
            (insert_some r (sort_by oldest_first rest)) in
        (let k = rw e at h in cc)
    | inr e ↦ (e, none_claimable limit rs (rw e at h))
  ]

module _ {F : Type 0} ⦃f : Float F⦄ (cfg : Config F) (limit : ℕ) where
  -- Batches, one after the other, until one finds nothing to claim; the provider and the clock may
  -- change from one to the next.
  unfoldable pub drain : (ℕ → Analyze F) → (ℕ → ℕ) → ℕ → World F → World F
  drain analyze clock zero w = w
  drain analyze clock (suc n) w =
      let rest =
        drain analyze clock n
          (process_pending cfg (analyze n) unlocked (clock n) (suc limit) w).1 in
      if is_idle (suc limit) w then w else rest

  batch_lowers :
      (analyze : Analyze F) (now : ℕ) (w : World F)
      → is_idle (suc limit) w ≡ false
      → left (process_pending cfg analyze unlocked now (suc limit) w).1.store.reviews
        < left w.store.reviews
  unfolding process_pending claim_pending_reviews
  batch_lowers analyze now w h =
      let claimed = claim_pending_reviews unlocked (suc limit) w in
      let less =
        left-claim (selected unlocked (suc limit) w.store.reviews) w.store.reviews
          (some_selected (suc limit) w.store.reviews h) in
      rw (left-process_claimed cfg analyze now claimed.0 ([], claimed.1)) less

  drain_idle :
      (analyze : ℕ → Analyze F) (clock : ℕ → ℕ) (n : ℕ) (w : World F)
      → left w.store.reviews ≤ n
      → is_idle (suc limit) (drain analyze clock n w) ≡ true
  unfolding drain
  drain_idle analyze clock zero w h = elim (Bool-cases (is_idle (suc limit) w)) [
    | inl e ↦ e
    | inr e ↦ (let less = batch_lowers (analyze 0) (clock 0) w e in absurd (omega (arith, less)))
  ]
  drain_idle analyze clock (suc n) w h = elim (Bool-cases (is_idle (suc limit) w)) [
    | inl e ↦ rw e e
    | inr e ↦
        let less = batch_lowers (analyze n) (clock n) w e in
        rw e (drain_idle analyze clock n _ (omega (arith, less)))
  ]

  -- As many batches as there are attempts left, of at least one review each, are enough for none to
  -- be claimable: whatever the provider does, the batches end, and every review is done, failed, in
  -- processing, or pending with no attempt left.
  pub drain_ends :
      (analyze : ℕ → Analyze F) (clock : ℕ → ℕ) (w : World F)
      → All
          (λ r. is_claimable r ≡ false)
          (drain analyze clock (left w.store.reviews) w).store.reviews
  drain_ends analyze clock w =
      none_claimable limit _ (drain_idle analyze clock (left w.store.reviews) w (omega arith))
