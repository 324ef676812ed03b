-- ===== src/Float/Fixed.antt =====
-- The laws of `Float` can be met: fixed-point numbers with four decimals.
use khaabo.Prelude.{
  ℕ, zero, suc, ◌+◌, ◌*◌, ◌/◌, ◌^◌, ◌≤◌, ◌<◌, ◌≡◌, refl, sym, ap, Bool, true, false, List, [], ◌∷◌,
  arith, leb, if◌then◌else◌,
}
use khaabo.Prelude.Int.{ℤ, pos, negsuc, pos_part, neg_part, sub_ℕ}
use khaabo.Float.{Float, IsFloat}
use native.Mathlib.Nat.{mul-div_cancel_left, div-one}

abbrev pub scale : ℕ
scale = 10_000

abbrev signed : Bool → ℕ → ℤ
signed true n = pos n
signed false zero = pos zero
signed false (suc n) = negsuc n

abbrev opposite : ℤ → ℤ
opposite (pos n) = signed false n
opposite (negsuc n) = pos (suc n)

abbrev plus : ℤ → ℤ → ℤ
plus a b = sub_ℕ (pos_part a + pos_part b) (neg_part a + neg_part b)

abbrev le_ℤ : ℤ → ℤ → Bool
le_ℤ a b = leb (pos_part a + neg_part b) (pos_part b + neg_part a)

abbrev times : ℤ → ℤ → ℤ
times (pos m) (pos n) = pos (m * n / scale)
times (pos m) (negsuc n) = signed false (m * suc n / scale)
times (negsuc m) (pos n) = signed false (suc m * n / scale)
times (negsuc m) (negsuc n) = pos (suc m * suc n / scale)

abbrev over : ℤ → ℤ → ℤ
over (pos m) (pos n) = pos (m * scale / n)
over (pos m) (negsuc n) = signed false (m * scale / suc n)
over (negsuc m) (pos n) = signed false (suc m * scale / n)
over (negsuc m) (negsuc n) = pos (suc m * scale / suc n)

abbrev half_pow_ℤ : ℤ → ℤ
half_pow_ℤ (pos n) = pos (scale / 2 ^ (n / scale))
half_pow_ℤ (negsuc n) = pos (scale * 2 ^ (suc n / scale))

abbrev largest : ℤ → List ℤ → ℤ
largest m [] = m
largest m (x ∷ xs) = largest (if le_ℤ m x then x else m) xs

abbrev smallest : ℤ → List ℤ → ℤ
smallest m [] = m
smallest m (x ∷ xs) = smallest (if le_ℤ x m then x else m) xs

-- Half the range, which is the deviation of two values.
abbrev spread : List ℤ → ℤ
spread [] = pos 0
spread (x ∷ xs) = over (plus (largest x xs) (opposite (smallest x xs))) (pos 20_000)

mul_small : (a b c d : ℕ) → a ≤ b → c ≤ d → a * c / scale ≤ b * d / scale
mul_small a b c d h k = let low : a * c ≤ b * d = grind arith in omega arith

lit_unit : (p q : ℕ) → p ≤ q → 0 < q → p * scale / q ≤ scale
lit_unit p q h k = grind arith

instance abbrev pub fixed_float : Float ℤ
fixed_float = record {
  lit = λ p q. pos (p * scale / q);
  of_nat = λ n. pos (n * scale);
  neg = opposite;
  add = plus;
  sub = λ a b. plus a (opposite b);
  mul = times;
  div = over;
  le = le_ℤ;
  round = λ a _. a;
  half_pow = half_pow_ℤ;
  log1p = λ a. a;
  pstdev = spread;
}

le_trans_ℤ : (a b c : ℤ) → le_ℤ a b ≡ true → le_ℤ b c ≡ true → le_ℤ a c ≡ true
le_trans_ℤ a b c h k = ground arith

plus_mono : (a b c d : ℤ) → le_ℤ a b ≡ true → le_ℤ c d ≡ true → le_ℤ (plus a c) (plus b d) ≡ true
plus_mono a b c d h k = ground arith

times_mono :
    (a b c d : ℤ)
    → le_ℤ (pos 0) a ≡ true
    → le_ℤ a b ≡ true
    → le_ℤ (pos 0) c ≡ true
    → le_ℤ c d ≡ true
    → le_ℤ (times a c) (times b d) ≡ true
times_mono (pos a) (pos b) (pos c) (pos d) ha hb hc hd = ground (arith, mul_small a b c d)
times_mono a b c d ha hb hc hd = ground arith

times_nonneg :
    (a b : ℤ) → le_ℤ (pos 0) a ≡ true → le_ℤ (pos 0) b ≡ true → le_ℤ (pos 0) (times a b) ≡ true
times_nonneg (pos a) (pos b) ha hb = ground arith
times_nonneg a b ha hb = ground arith

one_times : (a : ℤ) → times (pos scale) a ≡ a
one_times (pos n) = ap pos (mul-div_cancel_left n {n = scale} (omega arith))
one_times (negsuc n) = ap (signed false) (mul-div_cancel_left (suc n) {n = scale} (omega arith))

pub Fixed-IsFloat : IsFloat ℤ
Fixed-IsFloat = record {
  le_refl = λ a. ground arith;
  le_trans = le_trans_ℤ;
  le_total = λ a b. ground arith;
  lit_InUnit = λ p q h k. ground (arith, lit_unit p q h k);
  nought_le_lit = λ p q. ground arith;
  of_nat-eq-lit = λ n. ap pos (sym (div-one (n * scale)));
  add_mono = plus_mono;
  mul_mono = times_mono;
  mul_nonneg = times_nonneg;
  add_nonneg = λ a b h k. plus_mono (pos 0) a (pos 0) b h k;
  one_mul = one_times;
  round_mono = λ a b digits h. h;
  round-lit = λ n digits. refl;
}
