-- ===== src/Ranking/Attributes.antt =====
-- backend/app/services/ranking.py, `top_attributes`: the most frequent attributes of a dish.
pub mod Frequent
use khaabo.Prelude.{
  ℕ, ◌+◌, Bool, true, false, ◌&&◌, ◌||◌, List, [], ◌∷◌, map, String, str_eq, compare_str, is_le,
  ltb, ◌==◌, if◌then◌else◌, take, count, sort_by,
}
use khaabo.Ranking.Model.{Observation}

-- A dict of counts in the order of insertion.
abbrev pub Tally : Type 0
Tally = List (String × ℕ)

-- `counts[attr] = counts.get(attr, 0) + 1`
unfoldable pub bump : String → Tally → Tally
bump a [] = (a, 1) ∷ []
bump a ((b, n) ∷ t) = if str_eq b a then (b, n + 1) ∷ t else (b, n) ∷ bump a t

pub bump_all : List String → Tally → Tally
bump_all [] t = t
bump_all (a ∷ names) t = bump_all names (bump a t)

pub tally : {F : Type 0} → List (Observation F) → Tally → Tally
tally [] t = t
tally (o ∷ os) t = tally os (bump_all o.attributes t)

-- `key=lambda kv: (-kv[1], kv[0])`
abbrev pub more_frequent : (String × ℕ) → (String × ℕ) → Bool
more_frequent (a, m) (b, n) = ltb n m || (m == n && is_le (compare_str a b))

pub top_attributes : {F : Type 0} → ℕ → List (Observation F) → List String
top_attributes limit observations =
    map (λ kv. kv.0) (take limit (sort_by more_frequent (tally observations [])))

-- How often an attribute stands in the observations.
abbrev pub occurrences_in : String → List String → ℕ
occurrences_in a names = count (λ b. str_eq b a) names

abbrev pub occurrences : {F : Type 0} → String → List (Observation F) → ℕ
occurrences a [] = 0
occurrences a (o ∷ os) = occurrences_in a o.attributes + occurrences a os
