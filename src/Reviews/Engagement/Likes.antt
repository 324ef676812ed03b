-- ===== src/Reviews/Engagement/Likes.antt =====
-- `toggle_like`: the count of a review stays the number of its likes.
use khaabo.Prelude.{
  ℕ, ◌+◌, ◌-◌, ◌≤◌, ◌≡◌, refl, ap, inl, inr, Bool, true, not, List, [], ◌∷◌, arith, any, filter,
  count, All, All-map, All-of_map, if◌then◌else◌, ◌==◌, Bool-cases, any-eq-count, count-pos_of_any,
  Option-cases,
}
use khaabo.Enums.{is_published}
use khaabo.Store.{
  User, Review, Like, Store, Session, ok, IdText, update_where, >>=-eq-ok, guard-eq-ok,
  ok-injective, forbidden,
}
use khaabo.Reviews.Rows.{has_id, get_review_or_404}
use khaabo.Reviews.Engagement.{
  is_like, toggled, like_change, credit_author, toggle_row, toggle_review, toggle_like,
}

abbrev pub likes_of : ℕ → List Like → ℕ
likes_of review likes = count (λ l. l.review_id == review) likes

-- Every review's count is the number of its likes, and nobody likes a review twice.
pub record IsCounted {F : Type 0} (db : Store F) : Type 0 where
  pub counted : All (λ r. r.like_count ≡ likes_of r.id db.likes) db.reviews
  pub once : (user review : ℕ) → count (is_like user review) db.likes ≤ 1

likes_of-filter :
    (user review i : ℕ) (likes : List Like)
    → likes_of i (filter (λ l. not (is_like user review l)) likes)
        + (if i == review then count (is_like user review) likes else 0)
      ≡ likes_of i likes
likes_of-filter user review i [] = ground arith
likes_of-filter user review i (l ∷ ls) = ground (arith, likes_of-filter user review i ls)

count-filter-le :
    (p keep : Like → Bool) (likes : List Like) → count p (filter keep likes) ≤ count p likes
count-filter-le p keep [] = omega arith
count-filter-le p keep (l ∷ ls) = ground (arith, count-filter-le p keep ls)

toggled_once :
    (user review : ℕ) (likes : List Like)
    → ((u r : ℕ) → count (is_like u r) likes ≤ 1)
    → (u r : ℕ) → count (is_like u r) (toggled user review likes likes) ≤ 1
toggled_once user review likes h u r = elim (Bool-cases (any (is_like user review) likes)) [
  | inl e ↦
      rw e (
        omega
          (arith, h u r, count-filter-le (is_like u r) (λ l. not (is_like user review l)) likes))
  | inr e ↦ rw e (ground (arith, h u r, any-eq-count (is_like user review) likes e))
]

-- What the table's change does to the number of likes of each review.
likes_of-toggled :
    (user review i : ℕ) (likes : List Like)
    → ((u r : ℕ) → count (is_like u r) likes ≤ 1)
    → likes_of i (toggled user review likes likes) ≡ (
        if i == review
        then (if any (is_like user review) likes
            then likes_of i likes - 1
            else likes_of i likes + 1)
        else likes_of i likes)
likes_of-toggled user review i likes h = elim (Bool-cases (any (is_like user review) likes)) [
  | inl e ↦ rw e (
      ground (
        arith,
        h user review,
        count-pos_of_any (is_like user review) likes e,
        likes_of-filter user review i likes,
      ))
  | inr e ↦ rw e (ground arith)
]

module _ {F : Type 0} where
  rows-credit_author :
      (user : ℕ) (liked : Bool) (review : Review F) (s : Session F)
      → ((credit_author user liked review s).work.reviews ≡ s.work.reviews)
        × ((credit_author user liked review s).work.likes ≡ s.work.likes)
  unfolding credit_author
  rows-credit_author user liked review s = elim (Option-cases review.user_id) [
    | inl e ↦ rw e (refl, refl)
    | inr (author, e) ↦ elim (Bool-cases (author == user)) [
      | inl k ↦ rw (e, k) (refl, refl)
      | inr k ↦ rw (e, k) (refl, refl)
    ]
  ]

  abbrev Counts : List Like → Review F → Type 0
  Counts likes r = r.like_count ≡ likes_of r.id likes

  IsCounted-toggle_row :
      (user : ℕ) (review : Review F) (s : Session F)
      → s.rows.likes ≡ s.work.likes
      → IsCounted s.work
      → IsCounted (toggle_row user review s).work
  unfolding toggle_row
  IsCounted-toggle_row user review s clean h =
      let likes = s.work.likes in
      let liked = not (any (is_like user review.id) s.rows.likes) in
      let (same_reviews, same_likes) = rows-credit_author user liked review (record s {
        work = record (s.work) {
          likes = toggled user review.id s.rows.likes likes;
          reviews = update_where (has_id review.id) (like_change liked) s.work.reviews;
        };
      }) in
      record {
        counted =
            rw (same_reviews, same_likes, clean)
              (All-of_map (Counts (toggled user review.id likes likes)) _ s.work.reviews (
                All-map (Counts likes) _
                  (λ r k.
                    ground (arith, k, clean, likes_of-toggled user review.id r.id likes h.once))
                  s.work.reviews h.counted));
        once = λ u r. rw (same_likes, clean) (toggled_once user review.id likes h.once u r);
      }

  module _ (user : User) (text : IdText) (s : Session F) (liked : Bool) (t : Session F)
      (accepted : toggle_like user text s ≡ ok (liked, t)) where
    toggle_like_cases :
        (review : Review F) × (get_review_or_404 text s ≡ ok review)
        × (is_published review.status ≡ true)
        × ◌≡◌ {A = Bool × Session F}
            (not (any (is_like user.id review.id) s.rows.likes), toggle_row user.id review s)
            (liked, t)
    unfolding toggle_like toggle_review
    toggle_like_cases =
        let (review, found, h1) =
          >>=-eq-ok (get_review_or_404 text s) (toggle_review user s) accepted in
        let (published, h2) =
          guard-eq-ok (is_published review.status) forbidden
            (ok (not (any (is_like user.id review.id) s.rows.likes), toggle_row user.id review s))
            h1 in
        (review, found, published, ok-injective h2)

    -- In a session with no pending change of the likes, a toggle keeps every review's count the
    -- number of its likes, and nobody's like twice in the table.
    pub toggle_like-IsCounted : s.rows.likes ≡ s.work.likes → IsCounted s.work → IsCounted t.work
    toggle_like-IsCounted clean h =
        let (review, _, _, same) = toggle_like_cases in
        rw (← ap (λ (x : Bool × Session F). x.1) same)
          (IsCounted-toggle_row user.id review s clean h)
