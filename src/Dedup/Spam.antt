-- ===== src/Dedup/Spam.antt =====
-- backend/app/services/dedup.py: `spam_score`, `is_spam`.
pub mod Bounds
use khaabo.Prelude.{
  ℕ, Bool, true, false, not, ◌&&◌, List, [], ◌∷◌, String, any, count, length, ltb, leb, is_empty,
  str_eq, if◌then◌else◌,
}
use khaabo.Float.{Float, nought, one, lt, fmin}

-- Python's string methods, and the tokens of backend/app/utils/text.py.
pub record Reader : Type 0 where
  pub strip : String → String
  pub lower : String → String
  pub tokenize : String → List String
  -- `marker in text`
  pub contains : String → String → Bool
  -- how many characters are letters, and how many of them capitals
  pub letters : String → ℕ
  pub capitals : String → ℕ
  -- `ch * 5 in text`, for a letter from a to z
  pub has_run : String → Bool

abbrev contact_markers : List String
contact_markers =
    "whatsapp" ∷ "call now" ∷ "dm me" ∷ "click here" ∷ "http" ∷ "www." ∷ "@gmail" ∷ "+91" ∷ []

abbrev promo_markers : List String
promo_markers =
    "discount" ∷ "offer valid" ∷ "coupon" ∷ "promo code" ∷ "free delivery on" ∷ "subscribe" ∷ []

-- `set(tokens)`
abbrev distinct : List String → List String
distinct [] = []
distinct (t ∷ ts) = let rest = distinct ts in if any (λ u. str_eq u t) ts then rest else t ∷ rest

module _ {F : Type 0} ⦃f : Float F⦄ (r : Reader) where
  open f use {lit, of_nat, add, mul, div, le, round}

  abbrev pub add_if : Bool → F → F → F
  add_if test amount score = if test then add score amount else score

  abbrev unique_ratio : List String → F
  unique_ratio tokens = div (of_nat (length (distinct tokens))) (of_nat (length tokens))

  -- What repetition adds.
  abbrev pub repetition : List String → F
  repetition tokens =
      if is_empty tokens
      then nought
      else if lt (unique_ratio tokens) (lit 30 100)
      then lit 45 100
      else if lt (unique_ratio tokens) (lit 50 100)
      then lit 25 100
      else nought

  abbrev pub hits : List String → String → F
  hits markers lowered = of_nat (count (λ marker. r.contains marker lowered) markers)

  unfoldable pub spam_total : String → ℕ → F
  spam_total body link_count =
      let lowered = r.lower body in
      let tokens = r.tokenize body in
      let short = add_if (ltb (length tokens) 4) (lit 35 100) nought in
      let repeated = add short (repetition tokens) in
      let contacts =
        add repeated (fmin (lit 40 100) (mul (hits contact_markers lowered) (lit 20 100))) in
      let promos =
        add contacts (fmin (lit 45 100) (mul (hits promo_markers lowered) (lit 18 100))) in
      let links = add promos (fmin (lit 20 100) (mul (of_nat link_count) (lit 10 100))) in
      let caps_ratio = div (of_nat (r.capitals body)) (of_nat (r.letters body)) in
      let is_shouted = leb 12 (r.letters body) && lt (lit 70 100) caps_ratio in
      add_if (r.has_run lowered) (lit 15 100) (add_if is_shouted (lit 15 100) links)

  unfoldable pub spam_score : String → ℕ → F
  spam_score text link_count =
      let body = r.strip text in
      if str_eq body "" then one else round (fmin one (spam_total body link_count)) 4

  unfoldable pub is_spam : String → F → ℕ → Bool
  is_spam text threshold link_count = le threshold (spam_score text link_count)
