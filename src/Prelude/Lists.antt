-- ===== src/Prelude/Lists.antt =====
-- Lists measured by native numbers, Boolean searches in them, and predicates on all their elements.
use Prim.Native.Nat.{ℕ, zero, suc, ◌+◌, ◌≤◌}
use mathlib.Core.Path.{◌≡◌, refl}
use mathlib.Core.Bool.{Bool, true, false, ◌&&◌, ◌||◌}
use mathlib.Core.List.{List, [], ◌∷◌, ◌++◌, map}
use mathlib.Core.Option.{Option, none, some}
use native.Mathlib.Omega.{arith}
use mathlib.Core.Logic.{inl, inr}
use khaabo.Prelude.Tests.{if◌then◌else◌, Bool-cases}

module _ {ℓ} {A : Type ℓ} where
  abbrev pub length : List A → ℕ
  length [] = 0
  length (x ∷ xs) = suc (length xs)

  abbrev pub take : ℕ → List A → List A
  take zero xs = []
  take (suc n) [] = []
  take (suc n) (x ∷ xs) = x ∷ take n xs

  -- `[x for x in xs if keep(x)]`
  abbrev pub filter : (A → Bool) → List A → List A
  filter keep [] = []
  filter keep (x ∷ xs) = let rest = filter keep xs in if keep x then x ∷ rest else rest

  -- `sum(1 for x in xs if keep(x))`
  abbrev pub count : (A → Bool) → List A → ℕ
  count keep [] = 0
  count keep (x ∷ xs) = (if keep x then 1 else 0) + count keep xs

  abbrev pub all : (A → Bool) → List A → Bool
  all p [] = true
  all p (x ∷ xs) = p x && all p xs

  abbrev pub any : (A → Bool) → List A → Bool
  any p [] = false
  any p (x ∷ xs) = p x || any p xs

  -- The first element that passes the test.
  abbrev pub find : (A → Bool) → List A → Option A
  find p [] = none
  find p (x ∷ xs) = let rest = find p xs in if p x then some x else rest

  -- A predicate by recursion computes to tuples, which the tactics read and build.
  abbrev pub All {κ} : (A → Type κ) → List A → Type κ
  All P [] = Unit
  All P (x ∷ xs) = P x × All P xs

module _ {ℓ} {A : Type ℓ} where
  abbrev pub is_empty : List A → Bool
  is_empty [] = true
  is_empty (x ∷ xs) = false

  pub is_empty-append : (xs : List A) (y : A) → is_empty (xs ++ (y ∷ [])) ≡ false
  is_empty-append [] y = refl
  is_empty-append (x ∷ xs) y = refl

  pub length-append : (xs ys : List A) → length (xs ++ ys) ≡ length xs + length ys
  length-append [] ys = omega arith
  length-append (x ∷ xs) ys = omega (arith, length-append xs ys)

  pub length-take-le : (n : ℕ) (xs : List A) → length (take n xs) ≤ n
  length-take-le zero xs = omega arith
  length-take-le (suc n) [] = omega arith
  length-take-le (suc n) (x ∷ xs) = omega (arith, length-take-le n xs)

  pub length-take-le_length : (n : ℕ) (xs : List A) → length (take n xs) ≤ length xs
  length-take-le_length zero xs = omega arith
  length-take-le_length (suc n) [] = omega arith
  length-take-le_length (suc n) (x ∷ xs) = omega (arith, length-take-le_length n xs)

  pub length-filter : (keep : A → Bool) (xs : List A) → length (filter keep xs) ≡ count keep xs
  length-filter keep [] = refl
  length-filter keep (x ∷ xs) = ground (arith, length-filter keep xs)

  pub count-le-length : (keep : A → Bool) (xs : List A) → count keep xs ≤ length xs
  count-le-length keep [] = omega arith
  count-le-length keep (x ∷ xs) = ground (arith, count-le-length keep xs)

  pub count-append :
      (keep : A → Bool) (xs ys : List A) → count keep (xs ++ ys) ≡ count keep xs + count keep ys
  count-append keep [] ys = omega arith
  count-append keep (x ∷ xs) ys = omega (arith, count-append keep xs ys)

module _ {ℓ κ} {A : Type ℓ} (P : A → Type κ) where
  pub All-append : (xs ys : List A) → All P xs → All P ys → All P (xs ++ ys)
  All-append [] ys p q = q
  All-append (x ∷ xs) ys p q = (p.0, All-append xs ys p.1 q)

  pub All-take : (n : ℕ) (xs : List A) → All P xs → All P (take n xs)
  All-take zero xs p = tt
  All-take (suc n) [] p = tt
  All-take (suc n) (x ∷ xs) p = (p.0, All-take n xs p.1)

  pub All-intro : ((x : A) → P x) → (xs : List A) → All P xs
  All-intro h [] = tt
  All-intro h (x ∷ xs) = (h x, All-intro h xs)

  pub All-if : (b : Bool) (xs ys : List A) → All P xs → All P ys → All P (if b then xs else ys)
  All-if true xs ys p q = p
  All-if false xs ys p q = q

  pub All-filter : (keep : A → Bool) (xs : List A) → All P xs → All P (filter keep xs)
  All-filter keep [] p = tt
  All-filter keep (x ∷ xs) p =
      let rest = All-filter keep xs p.1 in All-if (keep x) _ _ (p.0, rest) rest

  -- What passes the test of a filter has the property, if the test implies it.
  pub All-filter_test :
      (keep : A → Bool) → ((x : A) → keep x ≡ true → P x) → (xs : List A) → All P (filter keep xs)
  All-filter_test keep h [] = tt
  All-filter_test keep h (x ∷ xs) = elim (Bool-cases (keep x)) [
    | inl e ↦ rw e (h x e, All-filter_test keep h xs)
    | inr e ↦ rw e (All-filter_test keep h xs)
  ]

module _ {ℓ κ μ} {A : Type ℓ} (P : A → Type κ) (Q : A → Type μ) where
  pub All-map : ((x : A) → P x → Q x) → (xs : List A) → All P xs → All Q xs
  All-map h [] p = tt
  All-map h (x ∷ xs) p = (h x p.0, All-map h xs p.1)

module _ {ℓ κ} {A : Type ℓ} {B : Type κ} where
  pub length-map : (g : A → B) (xs : List A) → length (map g xs) ≡ length xs
  length-map g [] = refl
  length-map g (x ∷ xs) = omega (arith, length-map g xs)

  -- A property of the images.
  pub All-of_map {μ} :
      (P : B → Type μ) (g : A → B) (xs : List A) → All (λ x. P (g x)) xs → All P (map g xs)
  All-of_map P g [] p = tt
  All-of_map P g (x ∷ xs) p = (p.0, All-of_map P g xs p.1)
