-- ===== src/Ranking/Badges/Greatest.antt =====
-- `max(pool, key=...)` of `assign_badges` is an entry of the pool whose key is the greatest.
use khaabo.Prelude.{
  ℕ, suc, ◌+◌, ◌≡◌, refl, ◌⊎◌, inl, inr, Bool, true, false, Option, none, some, List, [], ◌∷◌,
  arith, Bool-cases, All, get_elem?,
}
use khaabo.Float.{Float, IsFloat, ◌≼◌}
use khaabo.Ranking.Model.{RankedEntry}
use khaabo.Ranking.Badges.{first_max}

module _ {F : Type 0} ⦃f : Float F⦄ (laws : IsFloat F) (pool : RankedEntry F → Bool)
    (key : RankedEntry F → F) where
  open f use {le}
  open laws use {le_refl, le_trans, le_total}

  abbrev pub IsBelow : Option (ℕ × F) → F → Type 0
  IsBelow none k = Unit
  IsBelow (some (j, b)) k = b ≼ k

  abbrev pub Chosen : ℕ → List (RankedEntry F) → ℕ → F → Type 0
  Chosen i es j k =
      (m : ℕ) × (e : RankedEntry F) × (j ≡ i + m)
      × (get_elem? es m ≡ some e)
      × (pool e ≡ true)
      × (key e ≡ k)

  -- `first_max` returns the place and the key of an entry of the pool whose key is the greatest.
  abbrev pub Greatest : Option (ℕ × F) → ℕ → List (RankedEntry F) → Option (ℕ × F) → Type 0
  Greatest best i es none = (best ≡ none) × All (λ e. pool e ≡ false) es
  Greatest best i es (some (j, k)) =
      All (λ e. pool e ≡ true → key e ≼ k) es
      × IsBelow best k
      × ((best ≡ some (j, k)) ⊎ Chosen i es j k)

  later :
      (i j : ℕ) (k : F) (e : RankedEntry F) (es : List (RankedEntry F))
      → Chosen (suc i) es j k
      → Chosen i (e ∷ es) j k
  later i j k e es (m, x, p, q, r, s) = (suc m, x, omega arith, q, r, s)

  -- One more entry, outside the pool or inside it.
  outside :
      (best : Option (ℕ × F)) (i : ℕ) (e : RankedEntry F) (es : List (RankedEntry F))
      (r : Option (ℕ × F))
      → pool e ≡ false
      → Greatest best (suc i) es r
      → Greatest best i (e ∷ es) r
  outside best i e es none h g = (g.0, (h, g.1))
  outside best i e es (some (j, k)) h (above, below, inl s) = (((λ p. cc), above), below, inl s)
  outside best i e es (some (j, k)) h (above, below, inr c) =
      (((λ p. cc), above), below, inr (later i j k e es c))

  kept :
      (b : ℕ) (m : F) (i : ℕ) (e : RankedEntry F) (es : List (RankedEntry F)) (r : Option (ℕ × F))
      → key e ≼ m
      → Greatest (some (b, m)) (suc i) es r
      → Greatest (some (b, m)) i (e ∷ es) r
  kept b m i e es none h g = cc g.0
  kept b m i e es (some (j, k)) h (above, below, inl s) =
      (((λ p. le_trans (key e) m k h below), above), below, inl s)
  kept b m i e es (some (j, k)) h (above, below, inr c) =
      (((λ p. le_trans (key e) m k h below), above), below, inr (later i j k e es c))

  taken :
      (best : Option (ℕ × F)) (i : ℕ) (e : RankedEntry F) (es : List (RankedEntry F))
      (r : Option (ℕ × F))
      → pool e ≡ true
      → IsBelow best (key e)
      → Greatest (some (i, key e)) (suc i) es r
      → Greatest best i (e ∷ es) r
  taken best i e es none p h g = cc g.0
  taken best i e es (some (j, k)) p h (above, below, c) =
      (((λ _. below), above), under best h, place c)
    where
      under : (o : Option (ℕ × F)) → IsBelow o (key e) → IsBelow o k
      under none _ = tt
      under (some (x, y)) q = le_trans y (key e) k q below

      place :
          (◌≡◌ {A = Option (ℕ × F)} (some (i, key e)) (some (j, k))) ⊎ Chosen (suc i) es j k
          → (best ≡ some (j, k)) ⊎ Chosen i (e ∷ es) j k
      place (inl s) = inr (0, e, ground arith, refl, p, ground arith)
      place (inr d) = inr (later i j k e es d)

  pub first_max-Greatest :
      (i : ℕ) (best : Option (ℕ × F)) (es : List (RankedEntry F))
      → Greatest best i es (first_max pool key i best es)
  unfolding first_max
  first_max-Greatest i none [] = (refl, tt)
  first_max-Greatest i (some (b, m)) [] = (tt, le_refl m, inl refl)
  first_max-Greatest i none (e ∷ es) = elim (Bool-cases (pool e)) [
    | inl p ↦ rw p (taken none i e es _ p tt (first_max-Greatest (suc i) (some (i, key e)) es))
    | inr p ↦ rw p (outside none i e es _ p (first_max-Greatest (suc i) none es))
  ]
  first_max-Greatest i (some (b, m)) (e ∷ es) = elim (Bool-cases (pool e)) [
    | inr p ↦ rw p (outside (some (b, m)) i e es _ p (first_max-Greatest (suc i) (some (b, m)) es))
    | inl p ↦ elim (Bool-cases (le (key e) m)) [
      | inl q ↦ rw (p, q) (kept b m i e es _ q (first_max-Greatest (suc i) (some (b, m)) es))
      | inr q ↦
          rw (p, q)
            (taken (some (b, m)) i e es _ p (ground (arith, le_total m (key e)))
              (first_max-Greatest (suc i) (some (i, key e)) es))
    ]
  ]
