-- ===== src/Dedup/Verdict.antt =====
-- What makes a text a near duplicate of a stored one.
use khaabo.Prelude.{
  ℕ, ◌==◌, ◌≡◌, refl, sym, ap, ◌∙◌, ◌⊎◌, inl, inr, Bool, true, false, not, ◌&&◌, ◌||◌, none, some,
  List, [], ◌∷◌, String, ltb, if◌then◌else◌, any, arith, Bool-cases,
}
use khaabo.Prelude.Int.{pos}
use khaabo.Float.{Float, IsFloat, nought, lt}
use khaabo.Dedup.{
  Words, simhash, hamming_distance, jaccard, DuplicateVerdict, duplicate_of, Existing, no_duplicate,
  weigh, weigh_all, is_near_duplicate,
}

kept : (b : Bool) → b ≡ b || false
kept true = refl
kept false = refl

found : (b : Bool) → true ≡ b || true
found true = refl
found false = refl

assoc : (a b c : Bool) → (a || b) || c ≡ a || (b || c)
assoc true b c = refl
assoc false b c = refl

either : (b : Bool) → b || true ≡ true
either true = refl
either false = refl

some-ne-none : {i : ℕ} → some i ≡ none → ⊥
some-ne-none h = cc

nat_refl : (n : ℕ) → (n == n) ≡ true
nat_refl n = ground arith

module _ {F : Type 0} ⦃f : Float F⦄ (w : Words) (h : ℕ) (j : F) (text : String) where
  -- Near in the simhash, and confirmed by the shared tokens.
  abbrev pub is_confirmed : Existing → Bool
  is_confirmed (id, hash, body) =
      not (ltb h (hamming_distance (pos (simhash w 64 text)) hash)) && f.le j (jaccard w text body)

  abbrev pub is_confirmed_as : ℕ → Existing → Bool
  is_confirmed_as id row = row.0 == id && is_confirmed row

module _ {F : Type 0} ⦃f : Float F⦄ (laws : IsFloat F) (w : Words) (h : ℕ) (j : F) (text : String)
    (j_pos : lt nought j ≡ true) where
  abbrev confirmed : Existing → Bool
  confirmed = is_confirmed w h j text

  abbrev confirmed_as : ℕ → Existing → Bool
  confirmed_as = is_confirmed_as w h j text

  Begun : DuplicateVerdict F → Type 0
  Begun best =
      ((best.is_duplicate ≡ true) × (id : ℕ) × (best.matched_id ≡ some id))
      ⊎ ((best.similarity ≡ nought) × (best.is_duplicate ≡ false) × (best.matched_id ≡ none))

  above : (s : F) → f.le j s ≡ true → lt nought s ≡ true
  above s e = elim (Bool-cases (f.le s nought)) [
    | inl low ↦ let no = laws.le_trans j s nought e low in ground arith
    | inr high ↦ rw high refl
  ]

  -- What a verdict becomes on one row.
  After : DuplicateVerdict F → Bool → ℕ → DuplicateVerdict F → Type 0
  After best confirmed id new =
      (new.is_duplicate ≡ best.is_duplicate || confirmed)
      × Begun new
      × ((new.matched_id ≡ best.matched_id) ⊎ ((new.matched_id ≡ some id) × (confirmed ≡ true)))

  weighed_lem :
      (best : DuplicateVerdict F) (far near beats : Bool) (id : ℕ) (s : F)
      → Begun best
      → (best.similarity ≡ nought → near ≡ true → beats ≡ true)
      → After best
          (not far && near)
          id
          (if far then best else if near && beats then duplicate_of id s else best)
  unfolding After Begun
  weighed_lem best true near beats id s b up = (kept best.is_duplicate, b, inl refl)
  weighed_lem best false false beats id s b up = (kept best.is_duplicate, b, inl refl)
  weighed_lem best false true true id s b up =
      (found best.is_duplicate, inl (refl, id, refl), inr (refl, refl))
  weighed_lem best false true false id s (inl (e, k, m)) up = (rw e refl, inl (e, k, m), inl refl)
  weighed_lem best false true false id s (inr (e, k, m)) up = (let no = up e refl in cc)

  weigh_lem :
      (best : DuplicateVerdict F) (row : Existing)
      → Begun best
      → After best (confirmed row) row.0 (weigh w h j text best row)
  unfolding weigh
  weigh_lem best (id, hash, body) b =
      let s = jaccard w text body in
      weighed_lem best (ltb h (hamming_distance (pos (simhash w 64 text)) hash)) (f.le j s)
        (lt best.similarity s) id s b (λ e near. rw e (above s near))

  AllRows : DuplicateVerdict F → List Existing → DuplicateVerdict F → Type 0
  AllRows best rows new =
      (new.is_duplicate ≡ best.is_duplicate || any confirmed rows)
      × Begun new
      × ((new.matched_id ≡ best.matched_id)
          ⊎ ((id : ℕ) × (new.matched_id ≡ some id) × (any (confirmed_as id) rows ≡ true)))

  weigh_all_lem :
      (best : DuplicateVerdict F) (rows : List Existing)
      → Begun best
      → AllRows best rows (weigh_all w h j text best rows)
  unfolding weigh_all After AllRows
  weigh_all_lem best [] b = (kept best.is_duplicate, b, inl refl)
  weigh_all_lem best (row ∷ rows) b =
      let one = weigh_lem best row b in
      let rest = weigh_all_lem (weigh w h j text best row) rows one.1 in
      (
        rest.0
            ∙ ap (λ d. d || any confirmed rows) one.0
            ∙ assoc best.is_duplicate (confirmed row) (any confirmed rows),
        rest.1,
        elim rest.2 [
          | inl same ↦ elim one.2 [
            | inl old ↦ inl (same ∙ old)
            | inr (new, ok) ↦ inr (row.0, same ∙ new, rw (ok, nat_refl row.0) refl)
          ]
          | inr (id, new, ok) ↦ inr (id, new, rw ok (either (confirmed_as id row)))
        ],
      )

  -- For a positive threshold of similarity: a text is a near duplicate exactly if some stored row is
  -- near in the simhash and shares enough tokens. Then the verdict names such a row, and otherwise
  -- none.
  pub is_near_duplicate_lem :
      (existing : List Existing)
      → ((is_near_duplicate w h j text existing).is_duplicate
          ≡ any (is_confirmed w h j text) existing)
        × ((((is_near_duplicate w h j text existing).is_duplicate ≡ false)
              × ((is_near_duplicate w h j text existing).matched_id ≡ none))
            ⊎ ((id : ℕ) × ((is_near_duplicate w h j text existing).matched_id ≡ some id)
                × (any (is_confirmed_as w h j text id) existing ≡ true)))
  unfolding is_near_duplicate AllRows Begun
  is_near_duplicate_lem existing =
      let (same, begun, named) = weigh_all_lem no_duplicate existing (inr (refl, refl, refl)) in
      (
        same,
        elim begun [
          | inr (low, fresh, unnamed) ↦ inl (fresh, unnamed)
          | inl (found, id, given) ↦ elim named [
            | inl unnamed ↦ absurd (some-ne-none (sym given ∙ unnamed))
            | inr row ↦ inr row
          ]
        ],
      )
