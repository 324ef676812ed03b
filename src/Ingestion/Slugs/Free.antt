-- ===== src/Ingestion/Slugs/Free.antt =====
-- The loop of `_unique_slug` ends at a slug that is free, within as many rounds as there are rows.
use khaabo.Prelude.{
  ℕ, zero, suc, ◌≤◌, ◌<◌, ◌≡◌, ◌≢◌, refl, sym, inl, inr, Bool, true, false, not, List, [], ◌∷◌,
  String, any, filter, length, arith, ◌==◌, str_eq, if◌then◌else◌, Bool-cases, eq_iff, ◌∙◌,
}
use khaabo.Store.{Restaurant}
use khaabo.Ingestion.Model.{Texts}
use khaabo.Ingestion.Slugs.{free_slug, slug_taken, unique_slug}

abbrev is_member : String → List String → Bool
is_member slug slugs = any (λ t. str_eq t slug) slugs

abbrev slugs_of : {F : Type 0} → ℕ → List (Restaurant F) → List String
slugs_of city [] = []
slugs_of city (r ∷ rs) =
    let rest = slugs_of city rs in if r.city_id == city then r.slug ∷ rest else rest

slugs_of-member :
    {F : Type 0} (city : ℕ) (rs : List (Restaurant F)) (slug : String)
    → slug_taken city rs slug ≡ is_member slug (slugs_of city rs)
slugs_of-member city [] slug = refl
slugs_of-member city (r ∷ rs) slug = ground (arith, slugs_of-member city rs slug)

length-slugs_of :
    {F : Type 0} (city : ℕ) (rs : List (Restaurant F)) → length (slugs_of city rs) ≤ length rs
length-slugs_of city [] = omega arith
length-slugs_of city (r ∷ rs) = ground (arith, length-slugs_of city rs)

abbrev without : String → List String → List String
without slug slugs = filter (λ t. not (str_eq t slug)) slugs

length-without-le : (slug : String) (ys : List String) → length (without slug ys) ≤ length ys
length-without-le slug [] = omega arith
length-without-le slug (y ∷ ys) = ground (arith, length-without-le slug ys)

length-without :
    (slug : String) (ys : List String)
    → is_member slug ys ≡ true
    → length (without slug ys) < length ys
length-without slug [] h = cc
length-without slug (y ∷ ys) h = ground (arith, length-without slug ys, length-without-le slug ys)

without-member :
    (slug u : String) (ys : List String)
    → u ≢ slug
    → is_member u ys ≡ true
    → is_member u (without slug ys) ≡ true
without-member slug u [] apart h = cc
without-member slug u (y ∷ ys) apart h = elim (Bool-cases (str_eq y slug)) [
  | inl e ↦ elim (Bool-cases (str_eq y u)) [
    | inl d ↦ absurd (apart (sym ((eq_iff y u).0 d) ∙ (eq_iff y slug).0 e))
    | inr d ↦ rw e (without-member slug u ys apart (rw d at h))
  ]
  | inr e ↦ rw e (ground (arith, without-member slug u ys apart))
]

module _ (numbered : ℕ → String) (taken : String → Bool) where
  free_slug_free :
      (n : ℕ) (slug : String) (suffix : ℕ) (ys : List String)
      → ((i j : ℕ) → numbered i ≡ numbered j → i ≡ j)
      → length ys ≤ n
      → (taken slug ≡ true → is_member slug ys ≡ true)
      → ((j : ℕ) → suffix ≤ j → taken (numbered j) ≡ true → is_member (numbered j) ys ≡ true)
      → ((j : ℕ) → suffix ≤ j → numbered j ≢ slug)
      → taken (free_slug numbered taken n slug suffix) ≡ false
  unfolding free_slug
  free_slug_free zero slug suffix [] inj h now later apart = elim (Bool-cases (taken slug)) [
    | inl e ↦ (let k = now e in cc)
    | inr e ↦ e
  ]
  free_slug_free zero slug suffix (y ∷ ys) inj h now later apart = absurd (omega arith)
  free_slug_free (suc n) slug suffix ys inj h now later apart = elim (Bool-cases (taken slug)) [
    | inr e ↦ rw e e
    | inl e ↦ rw e (
        free_slug_free n (numbered suffix) (suc suffix) (without slug ys) inj
          (let shorter = length-without slug ys (now e) in omega arith)
          (λ t.
            without-member slug (numbered suffix) ys (apart suffix (omega arith))
              (later suffix (omega arith) t))
          (λ j k t.
            without-member slug (numbered j) ys (apart j (omega arith)) (later j (omega arith) t))
          (λ j k same. let equal = inj j suffix same in omega arith))
  ]

-- Where the numbered forms of a base are all different, and none is the base itself, the slug that
-- `unique_slug` returns belongs to no restaurant of the city: as many rounds of the loop as there
-- are restaurants are enough for it to end by its own test.
pub unique_slug_free :
    {F : Type 0} (texts : Texts F) (city : ℕ) (name : String) (rs : List (Restaurant F))
    → ((base : String) (i j : ℕ) → texts.numbered base i ≡ texts.numbered base j → i ≡ j)
    → ((base : String) (i : ℕ) → texts.numbered base i ≢ base)
    → slug_taken city rs (unique_slug texts city name rs) ≡ false
unfolding unique_slug
unique_slug_free texts city name rs inj apart =
    let base = texts.slugify name in
    free_slug_free (texts.numbered base) (slug_taken city rs) (length rs) base 2 (slugs_of city rs)
      (inj base) (length-slugs_of city rs) (λ t. sym (slugs_of-member city rs base) ∙ t)
      (λ j h t. sym (slugs_of-member city rs (texts.numbered base j)) ∙ t) (λ j h. apart base j)
