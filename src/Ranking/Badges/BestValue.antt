-- ===== src/Ranking/Badges/BestValue.antt =====
-- The best-value badge of `assign_badges` goes to one entry, of the greatest value.
use khaabo.Prelude.{
  ℕ, ◌≡◌, refl, ◌∙◌, inl, inr, Bool, true, false, Option, none, some, List, arith, if◌then◌else◌,
  Bool-cases, count, All, All-map, any, get_elem?, All-modify_at, count-modify_at, count-map,
  any-of_get, any_none, All-of_any, count_none, count-modify_at_one, All-modify_at_one, get_or, leb,
  length, ◌-◌, ◌/◌, All-of_map,
}
use Prim.Native.Nat.add
use khaabo.Float.{Float, IsFloat, ◌≼◌}
use khaabo.Ranking.Model.{RankedEntry}
use khaabo.Ranking.Badges.{
  is_ranked, is_valued, value_key, set_best_value, set_most_consistent, set_hidden_gem, is_gem,
  mark_at, mark_best_value, mark_most_consistent, mark_hidden_gems, assign_badges, ranked_counts,
}
use khaabo.Ranking.Badges.Greatest.{Greatest, first_max-Greatest}

module _ {F : Type 0} ⦃f : Float F⦄ (laws : IsFloat F) (entries : List (RankedEntry F)) where
  abbrev best : RankedEntry F → Bool
  best e = e.result.is_best_value

  abbrev IsPlain : RankedEntry F → Type 0
  IsPlain e = best e ≡ false

  -- An entry with the badge has the greatest value of all ranked entries that have one.
  abbrev IsTop : RankedEntry F → Type 0
  IsTop e = best e ≡ true → All (λ o. is_valued o ≡ true → value_key o ≼ value_key e) entries

  abbrev Awarded : List (RankedEntry F) → Type 0
  Awarded marked = (count best marked ≡ (if any is_valued entries then 1 else 0)) × All IsTop marked

  plain-IsTop : (e : RankedEntry F) → IsPlain e → IsTop e
  plain-IsTop e h k = cc

  Awarded-none : All IsPlain entries → any is_valued entries ≡ false → Awarded entries
  Awarded-none plain h =
      (rw (h, count_none best entries plain), All-map IsPlain IsTop plain-IsTop entries plain)

  Awarded-mark :
      (r : Option (ℕ × F))
      → All IsPlain entries
      → Greatest laws is_valued value_key none 0 entries r
      → Awarded (mark_at set_best_value r entries)
  Awarded-mark none plain (_, none_valued) =
      Awarded-none plain (any_none is_valued entries none_valued)
  Awarded-mark (some (j, k)) plain (above, _, inl e) = cc
  Awarded-mark (some (j, k)) plain (above, _, inr (m, e, place, found, valued, key)) =
      let at_j : get_elem? entries j ≡ some e = rw (place, add.zero m) found in
      (
        rw (any-of_get is_valued entries j e at_j valued)
            (count-modify_at_one best set_best_value entries j e plain at_j refl),
        All-modify_at_one IsPlain IsTop set_best_value plain-IsTop entries j e plain at_j
            (λ _. rw key above),
      )

  Awarded-most :
      (r : Option (ℕ × F)) (marked : List (RankedEntry F))
      → Awarded marked
      → Awarded (mark_at set_most_consistent r marked)
  Awarded-most none marked h = h
  Awarded-most (some (j, k)) marked (one, top) = (
    count-modify_at best set_most_consistent (λ e. refl) j marked ∙ one,
    All-modify_at IsTop set_most_consistent (λ e h. h) j marked top,
  )

  if_gem : ℕ → RankedEntry F → RankedEntry F
  if_gem cutoff e = if is_gem cutoff e then set_hidden_gem e else e

  if_gem-best : (cutoff : ℕ) (e : RankedEntry F) → best (if_gem cutoff e) ≡ best e
  unfolding if_gem
  if_gem-best cutoff e = ground arith

  if_gem-IsTop : (cutoff : ℕ) (e : RankedEntry F) → IsTop e → IsTop (if_gem cutoff e)
  unfolding if_gem
  if_gem-IsTop cutoff e h = elim (Bool-cases (is_gem cutoff e)) [ inl g ↦ rw g h | inr g ↦ rw g h ]

  Awarded-gems :
      (marked : List (RankedEntry F)) → Awarded marked → Awarded (mark_hidden_gems marked)
  unfolding mark_hidden_gems if_gem
  Awarded-gems marked (one, top) = elim (Bool-cases (leb 3 (length (ranked_counts marked)))) [
    | inl g ↦
        let cutoff : ℕ = get_or (ranked_counts marked) (length (ranked_counts marked) / 3 - 1) 0 in
        rw g (
          count-map best (if_gem cutoff) (if_gem-best cutoff) marked ∙ one,
          All-of_map IsTop (if_gem cutoff) marked
              (All-map IsTop (λ e. IsTop (if_gem cutoff e)) (if_gem-IsTop cutoff) marked top),
        )
    | inr g ↦ rw g (one, top)
  ]

  unranked : (e : RankedEntry F) → is_ranked e ≡ false → is_valued e ≡ false
  unranked e h = ground arith

  -- If no entry has the badge before, exactly one has it afterwards, or none if no ranked entry has
  -- a value score; and its value is the greatest among the ranked entries that have one.
  pub best_value_lem :
      All (λ e. e.result.is_best_value ≡ false) entries
      → (count (λ e. e.result.is_best_value) (assign_badges entries)
          ≡ (if any is_valued entries then 1 else 0))
        × All
            (λ e.
              e.result.is_best_value ≡ true
              → All (λ o. is_valued o ≡ true → value_key o ≼ value_key e) entries)
            (assign_badges entries)
  unfolding assign_badges mark_best_value mark_most_consistent
  best_value_lem plain = elim (Bool-cases (any is_ranked entries)) [
    | inl h ↦ rw h (
        Awarded-gems _ (
          Awarded-most _ _
            (Awarded-mark _ plain (first_max-Greatest laws is_valued value_key 0 none entries))))
    | inr h ↦ rw h (
        Awarded-none plain (
          any_none is_valued entries (
            All-map (λ e. is_ranked e ≡ false) (λ e. is_valued e ≡ false) unranked entries
              (All-of_any is_ranked entries h))))
  ]
