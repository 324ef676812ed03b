-- ===== src/Ranking/Attributes/Frequent.antt =====
-- The attributes that `top_attributes` returns are the most frequent ones, most frequent first.
use khaabo.Prelude.{
  ℕ, zero, suc, ◌+◌, ◌≤◌, ◌<◌, ◌≡◌, refl, ◌∙◌, ◌⊎◌, inl, inr, Bool, true, false, List, [], ◌∷◌, map,
  String, str_eq, eq_iff, eq_refl, arith, if◌then◌else◌, Bool-cases, length, take, any, count, All,
  All-map, All-take, All-sort_by, sort_by, count-sort_by, Ordered, sort_by-Ordered, Ordered-take,
  Ordered-map, length-take-le, length-map,
}
use khaabo.Ranking.Model.{Observation}
use khaabo.Ranking.Attributes.{
  Tally, bump, bump_all, tally, more_frequent, top_attributes, occurrences_in, occurrences,
}

abbrev count_of : String → Tally → ℕ
count_of a [] = 0
count_of a ((b, n) ∷ t) = if str_eq b a then n else count_of a t

count_of-bump :
    (b a : String) (t : Tally)
    → count_of b (bump a t) ≡ (if str_eq a b then 1 else 0) + count_of b t
unfolding bump
count_of-bump b a [] = ground arith
count_of-bump b a ((c, n) ∷ t) =
    ground (arith, count_of-bump b a t, eq_iff c a, eq_iff c b, eq_iff a b)

count_of-bump_all :
    (b : String) (names : List String) (t : Tally)
    → count_of b (bump_all names t) ≡ occurrences_in b names + count_of b t
unfolding bump_all
count_of-bump_all b [] t = omega arith
count_of-bump_all b (a ∷ names) t =
    omega (arith, count_of-bump_all b names (bump a t), count_of-bump b a t)

count_of-tally :
    {F : Type 0} (b : String) (os : List (Observation F)) (t : Tally)
    → count_of b (tally os t) ≡ occurrences b os + count_of b t
unfolding tally
count_of-tally b [] t = omega arith
count_of-tally b (o ∷ os) t =
    omega (arith, count_of-tally b os (bump_all o.attributes t), count_of-bump_all b o.attributes t)

abbrev Differs : (String × ℕ) → (String × ℕ) → Type 0
Differs x y = str_eq x.0 y.0 ≡ false

abbrev IsPositive : (String × ℕ) → Type 0
IsPositive kv = 0 < kv.1

-- The keys of the dict are distinct, and no count is 0.
abbrev IsDict : Tally → Type 0
IsDict t = Ordered Differs t × All IsPositive t

Differs-bump :
    (x : String × ℕ) (a : String) (t : Tally)
    → str_eq x.0 a ≡ false
    → All (Differs x) t
    → All (Differs x) (bump a t)
unfolding bump
Differs-bump x a [] h d = (h, tt)
Differs-bump x a ((b, n) ∷ t) h d = elim (Bool-cases (str_eq b a)) [
  | inl e ↦ rw e d
  | inr e ↦ rw e (d.0, Differs-bump x a t h d.1)
]

bump-IsDict : (a : String) (t : Tally) → IsDict t → IsDict (bump a t)
unfolding bump
bump-IsDict a [] d = omega arith
bump-IsDict a ((b, n) ∷ t) (d, p) = elim (Bool-cases (str_eq b a)) [
  | inl e ↦ rw e ((d.0, d.1), (omega arith, p.1))
  | inr e ↦
      let rest = bump-IsDict a t (d.1, p.1) in
      rw e ((Differs-bump (b, n) a t e d.0, rest.0), (p.0, rest.1))
]

bump_all-IsDict : (names : List String) (t : Tally) → IsDict t → IsDict (bump_all names t)
unfolding bump_all
bump_all-IsDict [] t d = d
bump_all-IsDict (a ∷ names) t d = bump_all-IsDict names (bump a t) (bump-IsDict a t d)

tally-IsDict : {F : Type 0} (os : List (Observation F)) (t : Tally) → IsDict t → IsDict (tally os t)
unfolding tally
tally-IsDict [] t d = d
tally-IsDict (o ∷ os) t d =
    tally-IsDict os (bump_all o.attributes t) (bump_all-IsDict o.attributes t d)

abbrev IsCounted : (String → ℕ) → (String × ℕ) → Type 0
IsCounted g kv = kv.1 ≡ g kv.0

-- An entry of the dict carries what a lookup of its key returns.
count_of-All : (t : Tally) → IsDict t → All (IsCounted (λ a. count_of a t)) t
count_of-All [] d = tt
count_of-All ((b, n) ∷ t) (d, p) = (rw (eq_refl b), later t d.0 (count_of-All t (d.1, p.1)))
  where
    later :
        (u : Tally)
        → All (Differs (b, n)) u
        → All (IsCounted (λ a. count_of a t)) u
        → All (IsCounted (λ a. count_of a ((b, n) ∷ t))) u
    later [] e k = tt
    later (kv ∷ u) e k = (rw e.0 k.0, later u e.1 k.1)

abbrev has_key : String → (String × ℕ) → Bool
has_key b kv = str_eq kv.0 b

count_of-count : (b : String) (t : Tally) → 0 < count_of b t → 0 < count (has_key b) t
count_of-count b [] h = h
count_of-count b ((c, n) ∷ t) h = ground (arith, count_of-count b t)

-- The left pair is counted at least as often.
abbrev NotRarer : (String × ℕ) → (String × ℕ) → Type 0
NotRarer x y = y.1 ≤ x.1

sorted-Ordered : (t : Tally) → Ordered NotRarer (sort_by more_frequent t)
sorted-Ordered t =
    sort_by-Ordered more_frequent NotRarer (λ x y h. ground arith) (λ x y h. ground arith)
      (λ x y z h k. omega arith) t

module _ (g : String → ℕ) (b : String) where
  bounded :
      (x : String × ℕ) (xs : Tally)
      → All (NotRarer x) xs
      → All (IsCounted g) xs
      → 0 < count (has_key b) xs
      → g b ≤ x.1
  bounded x [] r c h = absurd (omega arith)
  bounded x (y ∷ ys) r c h = ground (arith, eq_iff y.0 b, bounded x ys r.1 c.1)

  abbrev names : Tally → List String
  names t = map (λ (kv : String × ℕ). kv.0) t

  abbrev Found : List String → Type 0
  Found top = any (λ a. str_eq a b) top ≡ true

  abbrev Outranked : List String → Type 0
  Outranked top = All (λ a. g b ≤ g a) top

  extend :
      (x : String × ℕ) (top : List String)
      → g b ≤ g x.0
      → (Found top) ⊎ (Outranked top)
      → (Found (x.0 ∷ top)) ⊎ (Outranked (x.0 ∷ top))
  extend x top h (inl m) = inl (ground arith)
  extend x top h (inr m) = inr (h, m)

  -- An attribute that occurs is among the first `k`, or none of those is rarer.
  dominance :
      (k : ℕ) (xs : Tally)
      → Ordered NotRarer xs
      → All (IsCounted g) xs
      → 0 < count (has_key b) xs
      → (Found (names (take k xs))) ⊎ (Outranked (names (take k xs)))
  dominance zero xs s c h = inr tt
  dominance (suc k) [] s c h = inr tt
  dominance (suc k) (x ∷ xs) s c h = elim (Bool-cases (str_eq x.0 b)) [
    | inl e ↦ inl (rw e refl)
    | inr e ↦
        let more : 0 < count (has_key b) xs = ground arith in
        extend x (names (take k xs)) (rw (← c.0) (bounded x xs s.0 c.1 more))
          (dominance k xs s.1 c.1 more)
  ]

module _ {F : Type 0} (limit : ℕ) (observations : List (Observation F)) where
  abbrev dict : Tally
  dict = tally observations []

  abbrev ranking : Tally
  ranking = sort_by more_frequent dict

  dict-IsDict : IsDict dict
  dict-IsDict = tally-IsDict observations [] (tt, tt)

  abbrev occurs : String → ℕ
  occurs a = occurrences a observations

  count_of-dict : (b : String) → count_of b dict ≡ occurs b
  count_of-dict b = omega (arith, count_of-tally b observations [])

  dict-IsCounted : All (IsCounted occurs) dict
  dict-IsCounted =
      All-map (IsCounted (λ a. count_of a dict)) (IsCounted occurs) (λ kv h. h ∙ count_of-dict kv.0)
        dict (count_of-All dict dict-IsDict)

  ranking-IsCounted : All (IsCounted occurs) ranking
  ranking-IsCounted = All-sort_by more_frequent (IsCounted occurs) dict dict-IsCounted

  -- The attributes come most frequent first, and `limit` of them at most.
  top_attributes-Ordered :
      Ordered
        (λ a b. occurrences b observations ≤ occurrences a observations)
        (top_attributes limit observations)
      × (length (top_attributes limit observations) ≤ limit)
  unfolding top_attributes
  top_attributes-Ordered = (
    Ordered-map NotRarer (IsCounted occurs) (λ a b. occurs b ≤ occurs a) (λ kv. kv.0)
        (λ x y p q r. omega arith) (take limit ranking)
        (All-take (IsCounted occurs) limit ranking ranking-IsCounted)
        (Ordered-take NotRarer limit ranking (sorted-Ordered dict)),
    omega (
      arith,
      length-map (λ (kv : String × ℕ). kv.0) (take limit ranking),
      length-take-le limit ranking,
    ),
  )

  -- An attribute that occurs at all is returned, unless each one that is returned occurs as often.
  pub top_attributes_dominant :
      (b : String)
      → 0 < occurrences b observations
      → (any (λ a. str_eq a b) (top_attributes limit observations) ≡ true)
        ⊎ All
            (λ a. occurrences b observations ≤ occurrences a observations)
            (top_attributes limit observations)
  unfolding top_attributes
  top_attributes_dominant b h =
      dominance occurs b limit ranking (sorted-Ordered dict) ranking-IsCounted (
        omega (
          arith,
          count-sort_by more_frequent (has_key b) dict,
          count_of-count b dict (omega (arith, count_of-dict b)),
        ))
