-- ===== src/EntityResolution/Best.antt =====
-- Which of the rows that the candidates score `resolve_candidate` answers with.
use khaabo.Prelude.{
  ◌≡◌, refl, inl, inr, true, false, Option, none, some, List, [], ◌∷◌, String, arith, str_eq, All,
  take, Bool-cases, sort_by, Ordered, sort_by-Ordered, All-of_sort_by,
}
use khaabo.Float.{Float, IsFloat, ◌≼◌}
use khaabo.EntityResolution.{
  Library, IncomingPlace, CandidateRestaurant, ResolutionResult, Scored, collect, score_candidate,
  stands_before, is_tie, choose, by_name, keyed, resolve_candidate,
}

absurd_choice : {P : Type 0} {i : String} → ◌≡◌ {A = Option String} none (some i) → P
absurd_choice h = cc

some-injective : {a b : String} → some a ≡ some b → a ≡ b
some-injective h = cc

module _ {F : Type 0} ⦃f : Float F⦄ where
  -- `scored`, before it is sorted.
  abbrev pub rows_of : Library F → IncomingPlace F → List (CandidateRestaurant F) → List (Scored F)
  rows_of lib incoming candidates =
      collect (score_candidate lib incoming (lib.normalize_name incoming.name)) candidates

module _ {F : Type 0} ⦃f : Float F⦄ (laws : IsFloat F) where
  abbrev IsOver : Scored F → Scored F → Type 0
  IsOver a b = b.confidence ≼ a.confidence

  forward : (a b : Scored F) → stands_before a b ≡ true → IsOver a b
  forward a b h = elim (laws.le_total b.confidence a.confidence) [
    | inl k ↦ k
    | inr k ↦ ground (arith, h, k)
  ]

  backward : (a b : Scored F) → stands_before a b ≡ false → IsOver b a
  backward a b h = ground (arith, h)

  sorted : (rows : List (Scored F)) → Ordered IsOver (sort_by stands_before rows)
  sorted rows =
      sort_by-Ordered stands_before IsOver forward backward
        (λ a b c h k. laws.le_trans c.confidence b.confidence a.confidence k h) rows

  module _ (lib : Library F) (incoming : IncomingPlace F)
      (candidates : List (CandidateRestaurant F)) where
    -- The answer's row, the first of the sorted ones, and those after it.
    abbrev pub IsChoice : ResolutionResult F → List (Scored F) → String → Type 0
    IsChoice r rows i =
        (best : Scored F) × (rest : List (Scored F)) × (rows ≡ best ∷ rest)
        × (best.candidate.id ≡ i)
        × (best.method ≡ r.method)
        × All (λ second. is_tie best second ≡ false) (take 1 rest)

    choose-IsChoice :
        (rows : List (Scored F)) (i : String)
        → (choose rows).matched_id ≡ some i
        → IsChoice (choose rows) rows i
    unfolding choose
    choose-IsChoice [] i h = cc
    choose-IsChoice (best ∷ []) i h = (best, [], refl, ground (arith, h), refl, tt)
    choose-IsChoice (best ∷ second ∷ rest) i h = elim (Bool-cases (is_tie best second)) [
      | inl e ↦ absurd_choice (rw (e, choose) at h)
      | inr e ↦ (
        best,
        second ∷ rest,
        refl,
        some-injective (rw (e, choose) at h),
        rw (e, choose) refl,
        (e, tt),
      )
    ]

    by_name-IsChoice :
        (i : String)
        → (by_name lib incoming candidates).matched_id ≡ some i
        → IsChoice
            (by_name lib incoming candidates)
            (sort_by stands_before (rows_of lib incoming candidates))
            i
    unfolding by_name
    by_name-IsChoice i h = elim (Bool-cases (str_eq (lib.normalize_name incoming.name) "")) [
      | inl e ↦ absurd_choice (rw (e, by_name) at h)
      | inr e ↦
          rw (e, by_name)
            (choose-IsChoice (sort_by stands_before (rows_of lib incoming candidates)) i
              (rw (e, by_name) at h))
    ]

    -- Where no candidate has the incoming key, an answer that names a restaurant names that of the
    -- first row of the sorted ones: no row has a higher confidence, and the row after it, if any,
    -- is no tie with it, which is a row of the same method within the margin.
    pub resolve_candidate_best :
        (i : String)
        → keyed incoming candidates ≡ none
        → (resolve_candidate lib incoming candidates).matched_id ≡ some i
        → (best : Scored F) × (rest : List (Scored F)) × (sort_by stands_before
              (rows_of lib incoming candidates)
            ≡ best ∷ rest)
          × (best.candidate.id ≡ i)
          × (best.method ≡ (resolve_candidate lib incoming candidates).method)
          × All (λ second. is_tie best second ≡ false) (take 1 rest)
          × All (λ row. row.confidence ≼ best.confidence) (rows_of lib incoming candidates)
    unfolding resolve_candidate
    resolve_candidate_best i unkeyed h =
        let (best, rest, first, named, how, apart) =
          by_name-IsChoice i (rw (unkeyed, resolve_candidate) at h) in
        let order = sorted (rows_of lib incoming candidates) in
        let top = rw first at order in
        (
          best,
          rest,
          first,
          named,
          rw (unkeyed, resolve_candidate) how,
          apart,
          All-of_sort_by stands_before (IsOver best) (rows_of lib incoming candidates)
              (rw first (laws.le_refl best.confidence, top.0)),
        )
