-- ===== src/Float.antt =====
-- Python's `float`, as an interface: the operations that the services use, and the laws of IEEE
-- doubles that their proofs use. The values are those other than NaN. No exact arithmetic is
-- assumed: sums and products may round, and rounding to nearest keeps the order.
-- A clock is a count of microseconds since an epoch before every date that the program stores.
pub mod Fixed
use khaabo.Prelude.{
  ℕ, ◌≤◌, ◌<◌, ◌≡◌, ◌⊎◌, Bool, true, not, ◌&&◌, List, [], ◌∷◌, if◌then◌else◌, length,
}

pub record Float (F : Type 0) : Type 0 where
  -- The literal p / q, and a whole number.
  pub lit : ℕ → ℕ → F
  pub of_nat : ℕ → F
  pub neg : F → F
  pub add : F → F → F
  pub sub : F → F → F
  pub mul : F → F → F
  pub div : F → F → F
  pub le : F → F → Bool
  -- `round(x, digits)`.
  pub round : F → ℕ → F
  -- `0.5 ** x`, `math.log1p(x)` and `statistics.pstdev(xs)`.
  pub half_pow : F → F
  pub log1p : F → F
  pub pstdev : List F → F

module _ {F : Type 0} ⦃f : Float F⦄ where
  open f use {lit, of_nat, add, div, le}

  abbrev pub nought : F
  nought = lit 0 1

  abbrev pub one : F
  one = lit 1 1

  abbrev pub lt : F → F → Bool
  lt a b = not (le b a)

  abbrev pub eqf : F → F → Bool
  eqf a b = le a b && le b a

  infix 4 ◌≼◌
  abbrev pub ◌≼◌ : F → F → Type 0
  a ≼ b = le a b ≡ true

  abbrev pub InUnit : F → Type 0
  InUnit a = (nought ≼ a) × (a ≼ one)

  -- `max(a, b)` and `min(a, b)`: the first argument, unless the second is strictly beyond it.
  abbrev pub fmax : F → F → F
  fmax a b = if lt a b then b else a

  abbrev pub fmin : F → F → F
  fmin a b = if lt b a then b else a

  -- `sum(xs)` from the left; `fmean(xs)` of a list with an element.
  abbrev pub fsum_from : F → List F → F
  fsum_from acc [] = acc
  fsum_from acc (x ∷ xs) = fsum_from (add acc x) xs

  abbrev pub fsum : List F → F
  fsum xs = fsum_from nought xs

  unfoldable pub fmean : List F → F
  fmean xs = div (fsum xs) (of_nat (length xs))

-- What the proofs use of doubles.
pub record IsFloat (F : Type 0) ⦃f : Float F⦄ : Type 0 where
  pub le_refl : (a : F) → a ≼ a
  pub le_trans : (a b c : F) → a ≼ b → b ≼ c → a ≼ c
  pub le_total : (a b : F) → (a ≼ b) ⊎ (b ≼ a)
  pub lit_InUnit : (p q : ℕ) → p ≤ q → 0 < q → InUnit (f.lit p q)
  pub nought_le_lit : (p q : ℕ) → nought ≼ f.lit p q
  pub of_nat-eq-lit : (n : ℕ) → f.of_nat n ≡ f.lit n 1
  pub add_mono : (a b c d : F) → a ≼ b → c ≼ d → f.add a c ≼ f.add b d
  pub mul_mono : (a b c d : F) → nought ≼ a → a ≼ b → nought ≼ c → c ≼ d → f.mul a c ≼ f.mul b d
  pub mul_nonneg : (a b : F) → nought ≼ a → nought ≼ b → nought ≼ f.mul a b
  pub add_nonneg : (a b : F) → nought ≼ a → nought ≼ b → nought ≼ f.add a b
  pub one_mul : (a : F) → f.mul one a ≡ a
  pub round_mono : (a b : F) (digits : ℕ) → a ≼ b → f.round a digits ≼ f.round b digits
  pub round-lit : (n digits : ℕ) → f.round (f.lit n 1) digits ≡ f.lit n 1
