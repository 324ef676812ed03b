-- ===== src/Prelude/Sorting.antt =====
-- `sorted`, which is stable: a list sorted by a Boolean order, `true` where the left value may stand first.
use Prim.Native.Nat.{ℕ, zero, suc}
use mathlib.Core.Path.{◌≡◌, refl, subst}
use mathlib.Core.Logic.{inl, inr}
use mathlib.Core.Option.{some, some-injective}
use mathlib.Core.Bool.{Bool, true, false}
use mathlib.Core.List.{List, [], ◌∷◌, map}
use native.Mathlib.Omega.{arith}
use khaabo.Prelude.Tests.{if◌then◌else◌, Bool-cases}
use khaabo.Prelude.Lists.{length, count, take, find, All, All-if, All-map, All-take}

module _ {ℓ} {A : Type ℓ} (before : A → A → Bool) where
  abbrev pub insert : A → List A → List A
  insert x [] = x ∷ []
  insert x (y ∷ ys) = let rest = insert x ys in if before x y then x ∷ y ∷ ys else y ∷ rest

  abbrev pub sort_by : List A → List A
  sort_by [] = []
  sort_by (x ∷ xs) = insert x (sort_by xs)

-- Each element is related to all that follow it.
abbrev pub Ordered {ℓ κ} : {A : Type ℓ} → (A → A → Type κ) → List A → Type κ
Ordered R [] = Unit
Ordered R (x ∷ xs) = All (R x) xs × Ordered R xs

module _ {ℓ} {A : Type ℓ} (before : A → A → Bool) where
  count-insert :
      (keep : A → Bool) (x : A) (xs : List A)
      → count keep (insert before x xs) ≡ count keep (x ∷ xs)
  count-insert keep x [] = refl
  count-insert keep x (y ∷ ys) = ground (arith, count-insert keep x ys)

  -- Sorting keeps how many elements pass any test.
  pub count-sort_by :
      (keep : A → Bool) (xs : List A) → count keep (sort_by before xs) ≡ count keep xs
  count-sort_by keep [] = refl
  count-sort_by keep (x ∷ xs) =
      omega (arith, count-insert keep x (sort_by before xs), count-sort_by keep xs)

  length-insert : (x : A) (xs : List A) → length (insert before x xs) ≡ suc (length xs)
  length-insert x [] = refl
  length-insert x (y ∷ ys) = ground (arith, length-insert x ys)

  pub length-sort_by : (xs : List A) → length (sort_by before xs) ≡ length xs
  length-sort_by [] = refl
  length-sort_by (x ∷ xs) = omega (arith, length-insert x (sort_by before xs), length-sort_by xs)

module _ {ℓ κ} {A : Type ℓ} (before : A → A → Bool) (P : A → Type κ) where
  All-insert : (x : A) (xs : List A) → P x → All P xs → All P (insert before x xs)
  All-insert x [] p ps = (p, tt)
  All-insert x (y ∷ ys) p ps = All-if P (before x y) _ _ (p, ps) (ps.0, All-insert x ys p ps.1)

  pub All-sort_by : (xs : List A) → All P xs → All P (sort_by before xs)
  All-sort_by [] ps = tt
  All-sort_by (x ∷ xs) ps = All-insert x (sort_by before xs) ps.0 (All-sort_by xs ps.1)

module _ {ℓ κ} {A : Type ℓ} (before : A → A → Bool) (R : A → A → Type κ)
    (forward : (x y : A) → before x y ≡ true → R x y)
    (backward : (x y : A) → before x y ≡ false → R y x)
    (R_trans : (x y z : A) → R x y → R y z → R x z) where
  placed :
      (x y : A) (ys : List A) (b : Bool)
      → before x y ≡ b
      → Ordered R (y ∷ ys)
      → Ordered R (insert before x ys)
      → Ordered R (if b then x ∷ y ∷ ys else y ∷ insert before x ys)
  placed x y ys true h s rest =
      let first = forward x y h in
      ((first, All-map (R y) (R x) (λ z k. R_trans x y z first k) ys s.0), s)
  placed x y ys false h s rest = (All-insert before (R y) x ys (backward x y h) s.0, rest)

  insert-Ordered : (x : A) (xs : List A) → Ordered R xs → Ordered R (insert before x xs)
  insert-Ordered x [] s = (tt, tt)
  insert-Ordered x (y ∷ ys) s = placed x y ys (before x y) refl s (insert-Ordered x ys s.1)

  -- The result is ordered by any transitive relation that the order decides.
  pub sort_by-Ordered : (xs : List A) → Ordered R (sort_by before xs)
  sort_by-Ordered [] = tt
  sort_by-Ordered (x ∷ xs) = insert-Ordered x (sort_by before xs) (sort_by-Ordered xs)

module _ {ℓ κ} {A : Type ℓ} (R : A → A → Type κ) where
  pub Ordered-take : (n : ℕ) (xs : List A) → Ordered R xs → Ordered R (take n xs)
  Ordered-take zero xs s = tt
  Ordered-take (suc n) [] s = tt
  Ordered-take (suc n) (x ∷ xs) s = (All-take (R x) n xs s.0, Ordered-take n xs s.1)

module _ {ℓ κ μ ν ι} {A : Type ℓ} {B : Type κ} (R : A → A → Type μ) (P : A → Type ν)
    (S : B → B → Type ι) (g : A → B) (image : (x y : A) → P x → P y → R x y → S (g x) (g y)) where
  image_All : (x : A) (xs : List A) → P x → All P xs → All (R x) xs → All (S (g x)) (map g xs)
  image_All x [] p ps rs = tt
  image_All x (y ∷ ys) p ps rs = (image x y p ps.0 rs.0, image_All x ys p ps.1 rs.1)

  -- The images of an ordered list, by a map that carries one order into the other.
  pub Ordered-map : (xs : List A) → All P xs → Ordered R xs → Ordered S (map g xs)
  Ordered-map [] ps s = tt
  Ordered-map (x ∷ xs) ps s = (image_All x xs ps.0 ps.1 s.0, Ordered-map xs ps.1 s.1)

-- What holds of a sorted list's elements holds of the list's.
module _ {ℓ κ} {A : Type ℓ} (before : A → A → Bool) (P : A → Type κ) where
  All-of_insert : (x : A) (xs : List A) → All P (insert before x xs) → P x × All P xs
  All-of_insert x [] h = (h.0, tt)
  All-of_insert x (y ∷ ys) h = elim (Bool-cases (before x y)) [
    | inl e ↦ (let k = rw (e, insert) at h in (k.0, k.1))
    | inr e ↦
        let k = rw (e, insert) at h in
        let (first, rest) = All-of_insert x ys k.1 in (first, (k.0, rest))
  ]

  pub All-of_sort_by : (xs : List A) → All P (sort_by before xs) → All P xs
  All-of_sort_by [] h = tt
  All-of_sort_by (x ∷ xs) h =
      let (first, rest) = All-of_insert x (sort_by before xs) h in (first, All-of_sort_by xs rest)

both {ℓ} : {P : Type ℓ} {b : Bool} → b ≡ false → b ≡ true → P
both e k = cc

-- The first that passes a test comes before all that do.
pub find-Ordered {ℓ κ} :
    {A : Type ℓ} (R : A → A → Type κ)
    → ((x : A) → R x x)
    → (test : A → Bool) (xs : List A) (x : A) → Ordered R xs
    → find test xs ≡ some x
    → All (λ y. test y ≡ true → R x y) xs
find-Ordered R R_refl test [] x o h = tt
find-Ordered R R_refl test (y ∷ ys) x o h = elim (Bool-cases (test y)) [
  | inl e ↦
      let same : y ≡ x = some-injective _ _ (rw e at h) in
      subst (λ z. All (λ v. test v ≡ true → R z v) (y ∷ ys)) same
        ((λ k. R_refl y), All-map (R y) (λ v. test v ≡ true → R y v) (λ v r k. r) ys o.0)
  | inr e ↦ ((λ k. both e k), find-Ordered R R_refl test ys x o.1 (rw e at h))
]
