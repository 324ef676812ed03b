-- ===== src/Ingestion/Jobs/Comments/Pending.antt =====
-- The videos whose comments a run fetches.
use khaabo.Prelude.{
  ℕ, zero, suc, ◌≤◌, ◌≡◌, refl, inl, inr, Bool, true, false, not, ◌||◌, List, [], ◌∷◌, ◌++◌, String,
  any, filter, take, length, length-take-le, arith, str_eq, All, All-take, All-filter_test,
  Bool-cases, eq_iff, eq_refl,
}
use khaabo.Ingestion.Model.{Catalog, no_repeat}
use khaabo.Ingestion.Jobs.Comments.{
  VideoIds, is_listed, add_new, max_comment_videos, video_ids, commented, pending_comment_videos,
}

abbrev same_id : String → String → Bool
same_id a b = str_eq b a

abbrev pub NoRepeat : List String → Type 0
NoRepeat vs = no_repeat same_id vs ≡ true

listed-append :
    (v w : String) (vs : List String)
    → is_listed v (vs ++ (w ∷ [])) ≡ (is_listed v vs || str_eq w v)
listed-append v w [] = ground arith
listed-append v w (x ∷ vs) = ground (arith, listed-append v w vs)

str_eq_sym : (a b : String) → str_eq a b ≡ true → str_eq b a ≡ true
str_eq_sym a b h = (let e = (eq_iff a b).0 h in rw e (eq_refl b))

NoRepeat-append :
    (v : String) (vs : List String)
    → is_listed v vs ≡ false
    → NoRepeat vs
    → NoRepeat (vs ++ (v ∷ []))
NoRepeat-append v [] h k = refl
NoRepeat-append v (x ∷ vs) h k =
    let rest = NoRepeat-append v vs (ground arith) (ground arith) in
    let apart : any (same_id x) vs ≡ false = ground arith in
    elim (Bool-cases (str_eq v x)) [
      | inl e ↦ (let back = str_eq_sym v x e in ground arith)
      | inr e ↦ rw (listed-append x v vs, apart, e, rest) refl
    ]

add_new-NoRepeat : (seen vs : List String) → NoRepeat seen → NoRepeat (add_new seen vs)
unfolding add_new
add_new-NoRepeat seen [] h = h
add_new-NoRepeat seen (v ∷ vs) h = elim (Bool-cases (str_eq v "")) [
  | inl e ↦ rw e (add_new-NoRepeat seen vs h)
  | inr e ↦ elim (Bool-cases (is_listed v seen)) [
    | inl d ↦ rw (e, d) (add_new-NoRepeat seen vs h)
    | inr d ↦ rw (e, d) (add_new-NoRepeat (seen ++ (v ∷ [])) vs (NoRepeat-append v seen d h))
  ]
]

listed-filter :
    (keep : String → Bool) (v : String) (vs : List String)
    → is_listed v vs ≡ false
    → is_listed v (filter keep vs) ≡ false
listed-filter keep v [] h = refl
listed-filter keep v (x ∷ vs) h = ground (arith, listed-filter keep v vs)

listed-take :
    (n : ℕ) (v : String) (vs : List String)
    → is_listed v vs ≡ false
    → is_listed v (take n vs) ≡ false
listed-take zero v vs h = refl
listed-take (suc n) v [] h = refl
listed-take (suc n) v (x ∷ vs) h = ground (arith, listed-take n v vs)

NoRepeat-filter :
    (keep : String → Bool) (vs : List String) → NoRepeat vs → NoRepeat (filter keep vs)
NoRepeat-filter keep [] h = refl
NoRepeat-filter keep (x ∷ vs) h = ground (arith, NoRepeat-filter keep vs, listed-filter keep x vs)

NoRepeat-take : (n : ℕ) (vs : List String) → NoRepeat vs → NoRepeat (take n vs)
NoRepeat-take zero vs h = refl
NoRepeat-take (suc n) [] h = refl
NoRepeat-take (suc n) (x ∷ vs) h = ground (arith, NoRepeat-take n vs, listed-take n x vs)

-- A run takes at most 25 videos, none twice, and none that a stored comment names.
pub pending_comment_videos_lem :
    {F : Type 0} (ids : VideoIds) (city : ℕ) (c : Catalog F)
    → (length (pending_comment_videos ids city c) ≤ max_comment_videos)
      × NoRepeat (pending_comment_videos ids city c)
      × All
          (λ v. is_listed (ids.key_of v) (commented ids c) ≡ false)
          (pending_comment_videos ids city c)
unfolding pending_comment_videos
pending_comment_videos_lem ids city c =
    let fresh : String → Bool = λ v. not (is_listed (ids.key_of v) (commented ids c)) in
    (
      length-take-le max_comment_videos (filter fresh (video_ids ids city c)),
      NoRepeat-take max_comment_videos (filter fresh (video_ids ids city c))
          (NoRepeat-filter fresh (video_ids ids city c) (add_new-NoRepeat [] _ refl)),
      All-take (λ v. is_listed (ids.key_of v) (commented ids c) ≡ false) max_comment_videos _
          (All-filter_test (λ v. is_listed (ids.key_of v) (commented ids c) ≡ false) fresh
            (λ v h. ground (arith, h)) (video_ids ids city c)),
    )
