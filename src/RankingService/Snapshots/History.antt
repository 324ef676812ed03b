-- ===== src/RankingService/Snapshots/History.antt =====
-- The ranking history: what a refresh adds to it, and that a second refresh adds nothing.
use mathlib.Core.Path.{subst}
use khaabo.Prelude.{
  ◌∙◌, ◌<◌, ◌≡◌, refl, Bool, true, false, Option, none, some, List, [], ◌∷◌, if◌then◌else◌, filter,
  arith, inl, inr, Bool-cases, All, All-filter, Ordered,
}
use khaabo.Float.{Float, IsFloat, nought, lt}
use khaabo.Board.{DishScore, RankingSnapshot}
use khaabo.RankingService.Snapshots.{
  SnapshotDeltas, fabs, is_ranked_row, is_snapshot_of, last_snapshot, snapshot_of, score_changed,
  is_due, add_snapshots, persist_ranking_snapshots,
}

filter-none {ℓ} :
    {A : Type ℓ} (p : A → Bool) (xs : List A) → All (λ x. p x ≡ false) xs → filter p xs ≡ []
filter-none p [] h = refl
filter-none p (x ∷ xs) h = rw (h.0, filter-none p xs h.1) refl

module _ {F : Type 0} ⦃f : Float F⦄ where
  -- Two rows are of different pairs.
  abbrev pub Apart : DishScore F → DishScore F → Type 0
  Apart a b = is_snapshot_of a (snapshot_of b) ≡ false

  last_snapshot-add_other :
      (row : DishScore F) (news : List (DishScore F)) (snapshots : List (RankingSnapshot F))
      → All (Apart row) news
      → last_snapshot (add_snapshots news snapshots) row ≡ last_snapshot snapshots row
  unfolding add_snapshots
  last_snapshot-add_other row [] snapshots h = refl
  last_snapshot-add_other row (n ∷ news) snapshots h =
      rw (last_snapshot-add_other row news (snapshot_of n ∷ snapshots) h.1, h.0) refl

  self_snapshot : (row : DishScore F) → is_snapshot_of row (snapshot_of row) ≡ true
  self_snapshot row = ground arith

  Apart-sym : (a b : DishScore F) → Apart a b → Apart b a
  Apart-sym a b h = ground arith

  last_added :
      (row : DishScore F) (snapshots : List (RankingSnapshot F))
      → last_snapshot (snapshot_of row ∷ snapshots) row ≡ some (snapshot_of row)
  last_added row snapshots = rw (self_snapshot row) refl

  -- The last snapshot of a row is its own, if it was due.
  abbrev Last :
      (DishScore F → Bool)
      → List (RankingSnapshot F)
      → List (RankingSnapshot F)
      → DishScore F
      → Type 0
  Last due snapshots after row =
      last_snapshot after row
      ≡ (if due row then some (snapshot_of row) else last_snapshot snapshots row)

  filter-passes :
      (due : DishScore F → Bool) (x : DishScore F) (xs : List (DishScore F))
      → due x ≡ true
      → x ∷ filter due xs ≡ filter due (x ∷ xs)
  filter-passes due x xs e = rw e refl

  filter-fails :
      (due : DishScore F → Bool) (x : DishScore F) (xs : List (DishScore F))
      → due x ≡ false
      → filter due xs ≡ filter due (x ∷ xs)
  filter-fails due x xs e = rw e refl

  carry :
      (due : DishScore F → Bool) (x : DishScore F) (snapshots after : List (RankingSnapshot F))
      (ys : List (DishScore F))
      → All (Apart x) ys
      → All (Last due (snapshot_of x ∷ snapshots) after) ys
      → All (Last due snapshots after) ys
  carry due x snapshots after [] a h = tt
  carry due x snapshots after (y ∷ ys) a h =
      (rw (Apart-sym x y a.0) at h.0, carry due x snapshots after ys a.1 h.1)

  Last-add :
      (due : DishScore F → Bool) (rows : List (DishScore F)) (snapshots : List (RankingSnapshot F))
      → Ordered Apart rows
      → All (Last due snapshots (add_snapshots (filter due rows) snapshots)) rows
  unfolding add_snapshots
  Last-add due [] snapshots s = tt
  Last-add due (x ∷ xs) snapshots s =
      let others : All (Apart x) (filter due xs) = All-filter (Apart x) due xs s.0 in
      let goal : List (DishScore F) → Type 0 =
        λ news. All (Last due snapshots (add_snapshots news snapshots)) (x ∷ xs) in
      elim (Bool-cases (due x)) [
        | inl e ↦ subst goal (filter-passes due x xs e) (
          rw e (
              last_snapshot-add_other x (filter due xs) (snapshot_of x ∷ snapshots) others
              ∙ last_added x snapshots),
          carry due x snapshots _ xs s.0 (Last-add due xs (snapshot_of x ∷ snapshots) s.1),
        )
        | inr e ↦ subst goal (filter-fails due x xs e) (
          rw e (last_snapshot-add_other x (filter due xs) snapshots others),
          Last-add due xs snapshots s.1,
        )
      ]

  same_last :
      (deltas : SnapshotDeltas F) (snapshots after : List (RankingSnapshot F)) (row : DishScore F)
      → last_snapshot after row ≡ last_snapshot snapshots row
      → is_due deltas after row ≡ is_due deltas snapshots row
  unfolding is_due
  same_last deltas snapshots after row h = rw (is_due, h) refl

  Ordered-filter :
      (keep : DishScore F → Bool) (rows : List (DishScore F))
      → Ordered Apart rows
      → Ordered Apart (filter keep rows)
  Ordered-filter keep [] s = tt
  Ordered-filter keep (x ∷ xs) s = elim (Bool-cases (keep x)) [
    | inl e ↦ rw e (All-filter (Apart x) keep xs s.0, Ordered-filter keep xs s.1)
    | inr e ↦ rw e (Ordered-filter keep xs s.1)
  ]

  module _ (laws : IsFloat F) (deltas : SnapshotDeltas F)
      (score_pos : lt nought deltas.score ≡ true) (mentions_pos : 0 < deltas.mentions)
      (sub_self : (a : F) → f.sub a a ≡ nought) where
    small : (a : F) → f.le deltas.score (fabs (f.sub a a)) ≡ false
    small a = rw (sub_self a, laws.le_refl nought) (ground arith)

    unmoved : (score : Option F) → score_changed deltas.score score score ≡ false
    unmoved none = refl
    unmoved (some a) = small a

    not_due_again :
        (snapshots : List (RankingSnapshot F)) (row : DishScore F)
        → last_snapshot snapshots row ≡ some (snapshot_of row)
        → is_due deltas snapshots row ≡ false
    unfolding is_due
    not_due_again snapshots row h = rw (is_due, h, unmoved row.score) (ground arith)

    settled :
        (snapshots after : List (RankingSnapshot F)) (rows : List (DishScore F))
        → All
            (λ row. last_snapshot after row ≡ (
              if is_due deltas snapshots row
              then some (snapshot_of row)
              else last_snapshot snapshots row))
            rows
        → All (λ row. is_due deltas after row ≡ false) rows
    settled snapshots after [] h = tt
    settled snapshots after (row ∷ rows) h = (
      elim (Bool-cases (is_due deltas snapshots row)) [
        | inl e ↦ not_due_again after row (rw e at h.0)
        | inr e ↦ same_last deltas snapshots after row (rw e at h.0) ∙ e
      ],
      settled snapshots after rows h.1,
    )

    -- Where the deltas are positive, a number less itself is nought, and no two of the rows are of one
    -- pair: a second refresh with the same rows adds no snapshot.
    pub persist_ranking_snapshots_idem :
        (rows : List (DishScore F)) (snapshots : List (RankingSnapshot F))
        → Ordered Apart rows
        → persist_ranking_snapshots deltas rows (persist_ranking_snapshots deltas rows snapshots)
          ≡ persist_ranking_snapshots deltas rows snapshots
    unfolding persist_ranking_snapshots add_snapshots
    persist_ranking_snapshots_idem rows snapshots s =
        let ranked = filter is_ranked_row rows in
        let after = add_snapshots (filter (is_due deltas snapshots) ranked) snapshots in
        let none_due = filter-none (is_due deltas after) ranked (
          settled snapshots after ranked (
            Last-add (is_due deltas snapshots) ranked snapshots
              (Ordered-filter is_ranked_row rows s))) in
        rw none_due refl
