-- ===== src/Dedup/Signed.antt =====
-- A simhash in a signed column: nothing of it is lost.
use khaabo.Prelude.{
  ℕ, ◌-◌, ◌^◌, ◌<◌, ◌≡◌, refl, Bool, true, false, leb, if◌then◌else◌, arith, tests,
}
use khaabo.Prelude.Int.{ℤ, pos, negsuc, ◌≤ℤ◌}
use khaabo.Dedup.{low_64, to_signed_64, hamming_distance}

low_64-lt : (v : ℤ) → low_64 v < 2 ^ 64
unfolding low_64
low_64-lt (pos n) = omega arith
low_64-lt (negsuc n) = omega arith

-- The two ranges of a signed column, each folded and read back.
folded :
    (low : ℕ) (high : Bool)
    → leb (2 ^ 63) low ≡ high
    → low < 2 ^ 64
    → (low_64 (if high then negsuc (2 ^ 64 - 1 - low) else pos low) ≡ low)
      × (negsuc (2 ^ 63 - 1) ≤ℤ (if high then negsuc (2 ^ 64 - 1 - low) else pos low))
      × ((if high then negsuc (2 ^ 64 - 1 - low) else pos low) ≤ℤ pos (2 ^ 63 - 1))
unfolding low_64
folded low true h k = (omega (tests), omega (tests), omega (tests))
folded low false h k =
    (omega (tests), omega (tests), let below : low < 2 ^ 63 = ground arith in omega arith)

hamming_of_low :
    (a b c d : ℤ)
    → low_64 a ≡ low_64 b
    → low_64 c ≡ low_64 d
    → hamming_distance a c ≡ hamming_distance b d
unfolding hamming_distance
hamming_of_low a b c d h k = rw (h, k) refl

-- A simhash that is folded into a signed column lies in the column's range, and its lowest 64 bits are
-- those of the simhash; so the distance of two folded ones is that of the two.
pub to_signed_64_roundtrip :
    (a b : ℤ)
    → (negsuc (2 ^ 63 - 1) ≤ℤ to_signed_64 a)
      × (to_signed_64 a ≤ℤ pos (2 ^ 63 - 1))
      × (low_64 (to_signed_64 a) ≡ low_64 a)
      × (hamming_distance (to_signed_64 a) (to_signed_64 b) ≡ hamming_distance a b)
unfolding to_signed_64
to_signed_64_roundtrip a b =
    let x = folded (low_64 a) (leb (2 ^ 63) (low_64 a)) refl (low_64-lt a) in
    let y = folded (low_64 b) (leb (2 ^ 63) (low_64 b)) refl (low_64-lt b) in
    (x.1, x.2, x.0, hamming_of_low (to_signed_64 a) a (to_signed_64 b) b x.0 y.0)
