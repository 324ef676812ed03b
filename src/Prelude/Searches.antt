-- ===== src/Prelude/Searches.antt =====
-- Positions in a list, changes of some of its elements, and what a search then finds.
use Prim.Native.Nat.{ℕ, zero, suc, ◌+◌, ◌<◌}
use mathlib.Core.Path.{subst, ◌≡◌, refl}
use mathlib.Core.Bool.{Bool, true, false}
use mathlib.Core.List.{List, [], ◌∷◌, ◌++◌, map}
use mathlib.Core.Option.{Option, none, some, some-injective}
use native.Mathlib.Omega.{arith}
use mathlib.Core.Logic.{inl, inr}
use khaabo.Prelude.Tests.{if◌then◌else◌, Bool-cases}
use khaabo.Prelude.Lists.{count, any, find, All, All-map}

-- The pairs of `zip`, as the arguments of a function.
abbrev pub zip_with {ℓ κ μ} :
    {A : Type ℓ} {B : Type κ} {C : Type μ} → (A → B → C) → List A → List B → List C
zip_with g [] ys = []
zip_with g (x ∷ xs) [] = []
zip_with g (x ∷ xs) (y ∷ ys) = g x y ∷ zip_with g xs ys

module _ {ℓ} {A : Type ℓ} where
  abbrev pub get_or : List A → ℕ → A → A
  get_or [] i d = d
  get_or (x ∷ xs) zero d = x
  get_or (x ∷ xs) (suc i) d = get_or xs i d

  abbrev pub get_elem? : List A → ℕ → Option A
  get_elem? [] i = none
  get_elem? (x ∷ xs) zero = some x
  get_elem? (x ∷ xs) (suc i) = get_elem? xs i

  -- A change of the element at a position; out of bounds nothing changes.
  abbrev pub modify_at : ℕ → (A → A) → List A → List A
  modify_at i g [] = []
  modify_at zero g (x ∷ xs) = g x ∷ xs
  modify_at (suc i) g (x ∷ xs) = x ∷ modify_at i g xs

  -- A change that keeps a property of every element, or a test, keeps it of the list.
  pub All-modify_at {κ} :
      (P : A → Type κ) (g : A → A)
      → ((x : A) → P x → P (g x))
      → (i : ℕ) (xs : List A) → All P xs
      → All P (modify_at i g xs)
  All-modify_at P g h i [] p = tt
  All-modify_at P g h zero (x ∷ xs) p = (h x p.0, p.1)
  All-modify_at P g h (suc i) (x ∷ xs) p = (p.0, All-modify_at P g h i xs p.1)

  pub count-modify_at :
      (keep : A → Bool) (g : A → A)
      → ((x : A) → keep (g x) ≡ keep x)
      → (i : ℕ) (xs : List A) → count keep (modify_at i g xs) ≡ count keep xs
  count-modify_at keep g h i [] = refl
  count-modify_at keep g h zero (x ∷ xs) = rw (h x)
  count-modify_at keep g h (suc i) (x ∷ xs) = omega (arith, count-modify_at keep g h i xs)

  pub count-map :
      (keep : A → Bool) (g : A → A)
      → ((x : A) → keep (g x) ≡ keep x)
      → (xs : List A) → count keep (map g xs) ≡ count keep xs
  count-map keep g h [] = refl
  count-map keep g h (x ∷ xs) = rw (h x) (omega (arith, count-map keep g h xs))

  pub any-of_get :
      (p : A → Bool) (xs : List A) (i : ℕ) (x : A)
      → get_elem? xs i ≡ some x
      → p x ≡ true
      → any p xs ≡ true
  any-of_get p [] i x h k = cc
  any-of_get p (y ∷ ys) zero x h k = ground arith
  any-of_get p (y ∷ ys) (suc i) x h k = ground (arith, any-of_get p ys i x h k)

  pub any_none : (p : A → Bool) (xs : List A) → All (λ x. p x ≡ false) xs → any p xs ≡ false
  any_none p [] h = refl
  any_none p (x ∷ xs) h = ground (arith, any_none p xs h.1)

  pub All-of_any : (p : A → Bool) (xs : List A) → any p xs ≡ false → All (λ x. p x ≡ false) xs
  All-of_any p [] h = tt
  All-of_any p (x ∷ xs) h = (ground arith, All-of_any p xs (ground arith))

  pub count_none : (p : A → Bool) (xs : List A) → All (λ x. p x ≡ false) xs → count p xs ≡ 0
  count_none p [] h = refl
  count_none p (x ∷ xs) h = ground (arith, count_none p xs h.1)

  -- Where no element passes the test but the changed one, one does.
  pub count-modify_at_one :
      (p : A → Bool) (g : A → A) (xs : List A) (i : ℕ) (x : A)
      → All (λ y. p y ≡ false) xs
      → get_elem? xs i ≡ some x
      → p (g x) ≡ true
      → count p (modify_at i g xs) ≡ 1
  count-modify_at_one p g [] i x h k e = cc
  count-modify_at_one p g (y ∷ ys) zero x h k e =
      rw (some-injective _ _ k, e) (omega (arith, count_none p ys h.1))
  count-modify_at_one p g (y ∷ ys) (suc i) x h k e =
      rw h.0 (omega (arith, count-modify_at_one p g ys i x h.1 k e))

  pub All-modify_at_one {κ μ} :
      (Q : A → Type μ) (P : A → Type κ) (g : A → A)
      → ((x : A) → Q x → P x)
      → (xs : List A) (i : ℕ) (x : A) → All Q xs
      → get_elem? xs i ≡ some x
      → P (g x)
      → All P (modify_at i g xs)
  All-modify_at_one Q P g h [] i x q k p = tt
  All-modify_at_one Q P g h (y ∷ ys) zero x q k p =
      (rw (some-injective _ _ k) p, All-map Q P h ys q.1)
  All-modify_at_one Q P g h (y ∷ ys) (suc i) x q k p =
      (h y q.0, All-modify_at_one Q P g h ys i x q.1 k p)

-- A step that may fail, and then the next one.
abbrev pub and_then {ℓ κ} : {A : Type ℓ} {B : Type κ} → Option A → (A → Option B) → Option B
and_then none next = none
and_then (some a) next = next a

-- What is given, if something is, has the property.
abbrev pub Given {ℓ κ} : {A : Type ℓ} → (A → Type κ) → Option A → Type κ
Given P none = Unit {κ}
Given P (some a) = P a

pub Given-and_then {ℓ κ μ ν} :
    {A : Type ℓ} {B : Type κ} (P : A → Type μ) (Q : B → Type ν) (o : Option A) (next : A → Option B)
    → Given P o
    → ((a : A) → P a → Given Q (next a))
    → Given Q (and_then o next)
Given-and_then P Q none next h k = tt
Given-and_then P Q (some a) next h k = k a h

abbrev pub map_option {ℓ κ} : {A : Type ℓ} {B : Type κ} → (A → B) → Option A → Option B
map_option g none = none
map_option g (some x) = some (g x)

module _ {ℓ} {A : Type ℓ} where
  -- A search, after a change of some elements that the test does not notice.
  pub find-map_if :
      (p q : A → Bool) (g : A → A)
      → ((x : A) → p (g x) ≡ p x)
      → (xs : List A)
      → find p (map (λ x. if q x then g x else x) xs)
        ≡ map_option (λ x. if q x then g x else x) (find p xs)
  find-map_if p q g h [] = refl
  find-map_if p q g h (x ∷ xs) = ground (arith, h x, find-map_if p q g h xs)

  -- A search finds an added element only where it found none before.
  pub find-append_one :
      (p : A → Bool) (xs : List A) (y : A)
      → find p (xs ++ (y ∷ []))
        ≡ elim (find p xs) [ none ↦ (if p y then some y else none) | some x ↦ some x ]
  find-append_one p [] y = refl
  find-append_one p (x ∷ xs) y = ground (arith, find-append_one p xs y)

  pub find_found : (p : A → Bool) (xs : List A) (x : A) → find p xs ≡ some x → p x ≡ true
  find_found p [] x h = cc
  find_found p (y ∷ ys) x h = elim (Bool-cases (p y)) [
    | inl e ↦ rw (← some-injective _ _ (rw e at h)) e
    | inr e ↦ find_found p ys x (rw e at h)
  ]

  pub any-eq-count : (p : A → Bool) (xs : List A) → any p xs ≡ false → count p xs ≡ 0
  any-eq-count p [] h = refl
  any-eq-count p (x ∷ xs) h = ground (arith, any-eq-count p xs)

  pub find-none-count : (p : A → Bool) (xs : List A) → find p xs ≡ none → count p xs ≡ 0
  find-none-count p [] h = refl
  find-none-count p (x ∷ xs) h = ground (arith, find-none-count p xs)

  pub count-pos_of_any : (p : A → Bool) (xs : List A) → any p xs ≡ true → 0 < count p xs
  count-pos_of_any p [] h = cc
  count-pos_of_any p (x ∷ xs) h = ground (arith, count-pos_of_any p xs)

  pub any-of_find : (p : A → Bool) (xs : List A) (x : A) → find p xs ≡ some x → any p xs ≡ true
  any-of_find p [] x h = cc
  any-of_find p (y ∷ ys) x h = ground (arith, any-of_find p ys x)

  pub any-map :
      (p : A → Bool) (g : A → A)
      → ((x : A) → p (g x) ≡ p x)
      → (xs : List A) → any p (map g xs) ≡ any p xs
  any-map p g h [] = refl
  any-map p g h (x ∷ xs) = rw (h x, any-map p g h xs) refl

  pub any_mono :
      (p q : A → Bool)
      → ((x : A) → p x ≡ true → q x ≡ true)
      → (xs : List A) → any p xs ≡ true
      → any q xs ≡ true
  any_mono p q h [] k = cc
  any_mono p q h (x ∷ xs) k = ground (arith, h x, any_mono p q h xs)

  pub count-change_none :
      (p q : A → Bool) (g : A → A) (xs : List A)
      → count q xs ≡ 0
      → count p (map (λ x. if q x then g x else x) xs) ≡ count p xs
  count-change_none p q g [] h = refl
  count-change_none p q g (x ∷ xs) h = ground (arith, count-change_none p q g xs)

  -- The one element that is changed comes to pass the test.
  pub count-change_one :
      (p q : A → Bool) (g : A → A) (xs : List A) (x : A)
      → count q xs ≡ 1
      → find q xs ≡ some x
      → p x ≡ false
      → p (g x) ≡ true
      → count p (map (λ x. if q x then g x else x) xs) ≡ count p xs + 1
  count-change_one p q g [] x n h k l = cc
  count-change_one p q g (y ∷ ys) x n h k l = elim (Bool-cases (q y)) [
    | inl e ↦
        let same = some-injective _ _ (rw e at h) in
        let fails : p y ≡ false = rw same k in
        let passes : p (g y) ≡ true = rw same l in
        let none_left : count q ys ≡ 0 = ground arith in
        rw (e, passes, fails) (omega (arith, count-change_none p q g ys none_left))
    | inr e ↦
        let rest : count q ys ≡ 1 = ground arith in
        rw e (omega (arith, count-change_one p q g ys x rest (rw e at h) k l))
  ]

-- What stands in a list, at some index.
abbrev pub IsIn {ℓ} : {A : Type ℓ} → List A → A → Type ℓ
IsIn xs x = (i : ℕ) × (get_elem? xs i ≡ some x)

pub All-IsIn {ℓ} : {A : Type ℓ} (xs : List A) → All (IsIn xs) xs
All-IsIn [] = tt
All-IsIn (x ∷ xs) =
    ((zero, refl), All-map (IsIn xs) (IsIn (x ∷ xs)) (λ y k. (suc k.0, k.1)) xs (All-IsIn xs))

-- What is found has what all have.
pub find-All {ℓ κ} :
    {A : Type ℓ} (P : A → Type κ) (test : A → Bool) (xs : List A) (x : A)
    → All P xs
    → find test xs ≡ some x
    → P x
find-All P test [] x h e = cc
find-All P test (y ∷ ys) x h e = elim (Bool-cases (test y)) [
  | inl k ↦ subst P (some-injective _ _ (rw k at e)) h.0
  | inr k ↦ find-All P test ys x h.1 (rw k at e)
]
