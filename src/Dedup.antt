-- ===== src/Dedup.antt =====
-- backend/app/services/dedup.py: near-duplicate and spam detection.
-- `Words` holds backend/app/utils/text.py and the hash function; an integer is a ℤ.
pub mod Signed
pub mod Verdict
pub mod Spam
use khaabo.Prelude.{
  ℕ, zero, suc, ◌+◌, ◌-◌, ◌*◌, ◌/◌, ◌%◌, ◌^◌, Bool, true, false, not, ◌&&◌, ◌||◌, Option, none,
  some, List, [], ◌∷◌, ◌++◌, map, String, ltb, leb, ◌==◌, if◌then◌else◌, length, filter, count, any,
  is_empty, str_eq,
}
use khaabo.Prelude.Int.{ℤ, pos, negsuc, ◌+ℤ◌, ltb_ℤ}
use khaabo.Float.{Float, nought, one, lt, fmin}

pub record Words : Type 0 where
  pub tokenize : String → List String
  -- `token_set`, without repetitions.
  pub token_set : String → List String
  -- `" ".join` of two tokens, and the first eight bytes of blake2b as a number.
  pub join : String → String → String
  pub digest : String → ℕ

-- The features of a text: each token counts twice, each pair of neighbours once.
abbrev bigrams : Words → List String → List (String × ℕ)
bigrams w [] = []
bigrams w (a ∷ []) = []
bigrams w (a ∷ b ∷ rest) = (w.join a b, 1) ∷ bigrams w (b ∷ rest)

unfoldable pub features : Words → List String → List (String × ℕ)
features w tokens = map (λ token. (token, 2)) tokens ++ bigrams w tokens

abbrev minus : ℕ → ℤ
minus zero = pos 0
minus (suc n) = negsuc n

-- `vector[i] += weight if (digest >> i) & 1 else -weight`, for each bit.
unfoldable pub add_feature : ℕ → ℕ → List ℤ → List ℤ
add_feature digest weight [] = []
add_feature digest weight (v ∷ vs) =
    (v +ℤ (if digest % 2 == 1 then pos weight else minus weight))
    ∷ add_feature (digest / 2) weight vs

abbrev add_features : Words → List (String × ℕ) → List ℤ → List ℤ
add_features w [] vector = vector
add_features w ((feature, weight) ∷ rest) vector =
    add_features w rest (add_feature (w.digest feature) weight vector)

abbrev noughts : ℕ → List ℤ
noughts zero = []
noughts (suc n) = pos 0 ∷ noughts n

-- `value |= 1 << i` for each positive weight.
unfoldable pub bits_of : List ℤ → ℕ
bits_of [] = 0
bits_of (v ∷ vs) = (if ltb_ℤ (pos 0) v then 1 else 0) + 2 * bits_of vs

unfoldable pub simhash : Words → ℕ → String → ℕ
simhash w bits text =
    let tokens = w.tokenize text in
    if is_empty tokens then 0 else bits_of (add_features w (features w tokens) (noughts bits))

-- `value & ((1 << 64) - 1)`, in two's complement.
unfoldable pub low_64 : ℤ → ℕ
low_64 (pos n) = n % 2 ^ 64
low_64 (negsuc n) = 2 ^ 64 - 1 - n % 2 ^ 64

unfoldable pub to_signed_64 : ℤ → ℤ
to_signed_64 value =
    let low = low_64 value in if leb (2 ^ 63) low then negsuc (2 ^ 64 - 1 - low) else pos low

-- The ones of the exclusive or of the lowest bits.
unfoldable pub ones_apart : ℕ → ℕ → ℕ → ℕ
ones_apart zero a b = 0
ones_apart (suc n) a b = (if a % 2 == b % 2 then 0 else 1) + ones_apart n (a / 2) (b / 2)

unfoldable pub hamming_distance : ℤ → ℤ → ℕ
hamming_distance a b = ones_apart 64 (low_64 a) (low_64 b)

abbrev in_set : List String → String → Bool
in_set xs x = any (str_eq x) xs

pub record DuplicateVerdict (F : Type 0) : Type 0 where
  pub is_duplicate : Bool
  pub similarity : F
  pub matched_id : Option ℕ

-- A stored review: its id, its simhash and its text.
abbrev pub Existing : Type 0
Existing = ℕ × ℤ × String

module _ {F : Type 0} ⦃f : Float F⦄ where
  open f use {lit, of_nat, div, le, round}

  unfoldable pub jaccard : Words → String → String → F
  jaccard w a b =
      let set_a = w.token_set a in
      let set_b = w.token_set b in
      let both = count (in_set set_b) set_a in
      if is_empty set_a || is_empty set_b
      then nought
      else div (of_nat both) (of_nat (length set_a + length set_b - both))

  abbrev pub no_duplicate : DuplicateVerdict F
  no_duplicate = record { is_duplicate = false; similarity = nought; matched_id = none }

  abbrev pub duplicate_of : ℕ → F → DuplicateVerdict F
  duplicate_of id similarity = record {
    is_duplicate = true;
    similarity = round similarity 4;
    matched_id = some id;
  }

  -- One stored row against the best one so far.
  unfoldable pub weigh : Words → ℕ → F → String → DuplicateVerdict F → Existing → DuplicateVerdict F
  weigh w hamming_threshold jaccard_threshold text best (id, hash, body) =
      let similarity = jaccard w text body in
      if ltb hamming_threshold (hamming_distance (pos (simhash w 64 text)) hash)
      then best
      else if le jaccard_threshold similarity && lt best.similarity similarity
      then duplicate_of id similarity
      else best

  unfoldable pub weigh_all :
      Words → ℕ → F → String → DuplicateVerdict F → List Existing → DuplicateVerdict F
  weigh_all w h j text best [] = best
  weigh_all w h j text best (row ∷ rows) = weigh_all w h j text (weigh w h j text best row) rows

  unfoldable pub is_near_duplicate : Words → ℕ → F → String → List Existing → DuplicateVerdict F
  is_near_duplicate w hamming_threshold jaccard_threshold text existing =
      weigh_all w hamming_threshold jaccard_threshold text no_duplicate existing
