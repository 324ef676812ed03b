-- ===== src/QueryParser/Longest.antt =====
-- Which term of a list `parse_query` takes.
use mathlib.Core.Option.{some-injective}
use Prim.Native.String.{count}
use khaabo.Prelude.{
  ◌≤◌, ◌≡◌, refl, sym, ◌∙◌, inl, inr, Bool, true, Option, none, some, List, String, find_found,
  arith, str_eq, All, Bool-cases, Option-cases, sort_by, sort_by-Ordered, find-Ordered,
  All-of_sort_by, All-sort_by, IsIn, All-IsIn, find-All,
}
use khaabo.Float.{Float}
use khaabo.QueryParser.Words.{dietary_terms, mood_terms, cuisine_terms}
use khaabo.QueryParser.{
  Patterns, Parse, longer_first, first_longest, note_superlative, note_near_me, note_prices,
  note_band, note_area, note_dietary, note_mood, note_cuisine, conclude, priced, parse_query,
  phrase_in, area_in,
}

-- The term that is taken is one of the list and passes the test, and no longer one does.
pub first_longest_lem {ℓ} :
    {A : Type ℓ} (text : A → String) (test : A → Bool) (xs : List A) (x : A)
    → first_longest text test xs ≡ some x
    → IsIn xs x × (test x ≡ true) × All (λ y. test y ≡ true → count (text y) ≤ count (text x)) xs
unfolding first_longest
first_longest_lem {A = A} text test xs x h =
    let IsLonger : A → A → Type 0 = λ a b. count (text b) ≤ count (text a) in
    let stands : IsIn xs x =
      find-All (IsIn xs) test (sort_by (longer_first text) xs) x
        (All-sort_by (longer_first text) (IsIn xs) xs (All-IsIn xs)) h in
    (
      stands,
      find_found test (sort_by (longer_first text) xs) x h,
      All-of_sort_by (longer_first text) (λ y. test y ≡ true → IsLonger x y) xs
          (find-Ordered IsLonger (λ a. omega arith) test (sort_by (longer_first text) xs) x
            (sort_by-Ordered (longer_first text) IsLonger (λ a b k. ground (arith, k))
              (λ a b k. ground (arith, k)) (λ a b c k l. omega (arith, k, l)) xs)
            h),
    )

none-ne-some : {d : String} → ◌≡◌ {A = Option String} none (some d) → ⊥
none-ne-some h = cc

module _ {F : Type 0} ⦃f : Float F⦄ (p : Patterns F) where
  dietary-conclude : (s : Parse F) → (conclude p s).dietary ≡ s.1.dietary
  unfolding conclude
  dietary-conclude s = ground arith

  dietary-note_cuisine : (s : Parse F) → (note_cuisine p s).1.dietary ≡ s.1.dietary
  unfolding note_cuisine
  dietary-note_cuisine (working, q) = elim (Option-cases (area_in p cuisine_terms working)) [
    | inl e ↦ rw (e, note_cuisine) refl
    | inr (c, e) ↦ rw (e, note_cuisine) refl
  ]

  dietary-note_mood : (s : Parse F) → (note_mood p s).1.dietary ≡ s.1.dietary
  unfolding note_mood
  dietary-note_mood (working, q) = elim (Option-cases (phrase_in p mood_terms working)) [
    | inl e ↦ rw (e, note_mood) refl
    | inr (kv, e) ↦ rw (e, note_mood) refl
  ]

  dietary-note_area :
      (known_areas : List String) (s : Parse F)
      → (note_area p known_areas s).1.dietary ≡ s.1.dietary
  unfolding note_area
  dietary-note_area known_areas (working, q) = ground arith

  dietary-note_prices : (s : Parse F) → (note_prices p s).1.dietary ≡ s.1.dietary
  unfolding note_prices
  dietary-note_prices (working, q) = ground arith

  dietary-note_band : (s : Parse F) → (note_band p s).1.dietary ≡ s.1.dietary
  unfolding note_band
  dietary-note_band (working, q) = ground arith

  dietary-note_near_me : (s : Parse F) → (note_near_me p s).1.dietary ≡ s.1.dietary
  unfolding note_near_me
  dietary-note_near_me (working, q) = ground arith

  dietary-note_superlative : (s : Parse F) → (note_superlative p s).1.dietary ≡ s.1.dietary
  unfolding note_superlative
  dietary-note_superlative (working, q) = ground arith

  dietary-priced : (raw : String) → (priced p raw).1.dietary ≡ none
  unfolding priced
  dietary-priced raw =
      dietary-note_band _
      ∙ dietary-note_prices _
      ∙ dietary-note_near_me _
      ∙ dietary-note_superlative _

  dietary-note_dietary :
      (s : Parse F) (d : String)
      → s.1.dietary ≡ none
      → (note_dietary p s).1.dietary ≡ some d
      → (kv : String × String) × (phrase_in p dietary_terms s.0 ≡ some kv) × (kv.1 ≡ d)
  unfolding note_dietary
  dietary-note_dietary (working, q) d h k =
      elim (Option-cases (phrase_in p dietary_terms working)) [
        | inl e ↦ (let m = rw (e, note_dietary) at k in cc)
        | inr (kv, e) ↦ (kv, e, some-injective _ _ (rw (e, note_dietary) at k))
      ]

  -- Where `parse_query` gives a dietary filter, it is the value that the table of dietary terms has
  -- for a phrase that stands in what the steps before it leave of the query, and no longer phrase of
  -- the table stands there.
  pub parse_query_dietary :
      (known_areas : List String) (query d : String)
      → (parse_query p known_areas query).dietary ≡ some d
      → let working = (note_area p known_areas (priced p (p.strip query))).0 in
        (kv : String × String) × IsIn dietary_terms kv
        × (kv.1 ≡ d)
        × (p.has_phrase kv.0 working ≡ true)
        × All
            (λ other. p.has_phrase other.0 working ≡ true → count other.0 ≤ count kv.0)
            dietary_terms
  unfolding parse_query
  parse_query_dietary known_areas query d h = elim (Bool-cases (str_eq (p.strip query) "")) [
    | inl e ↦ absurd (none-ne-some (rw (e, parse_query) at h))
    | inr e ↦
        let before = note_area p known_areas (priced p (p.strip query)) in
        let noted = note_dietary p before in
        let kept = rw (e, parse_query) at h in
        let (kv, found, value) =
          dietary-note_dietary before d
            (dietary-note_area known_areas (priced p (p.strip query))
              ∙ dietary-priced (p.strip query))
            (sym (
                dietary-conclude (note_cuisine p (note_mood p noted))
                ∙ dietary-note_cuisine (note_mood p noted)
                ∙ dietary-note_mood noted)
              ∙ kept) in
        let (stands, there, longest) =
          first_longest_lem (λ x. x.0) (λ x. p.has_phrase x.0 before.0) dietary_terms kv found in
        (kv, stands, value, there, longest)
  ]
