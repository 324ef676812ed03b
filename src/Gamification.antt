-- ===== src/Gamification.antt =====
-- backend/app/services/gamification.py: points and badges from published reviews.
pub mod Badges
pub mod Points
use khaabo.Prelude.{
  ℕ, ◌+◌, ◌≤◌, ◌≡◌, Bool, true, false, ◌&&◌, ◌||◌, not, Option, none, some, List, [], ◌∷◌, ◌++◌,
  String, str_eq, map, find, count, filter, any, length, leb, ltb, max, if◌then◌else◌, ◌==◌,
}
use khaabo.Enums.{ReviewStatus, is_published}
use khaabo.Store.{
  Store, Session, Review, Profile, UserBadge, BadgeCode, food_explorer, momo_hunter, biryani_scout,
  hidden_gem_hunter, top_contributor, GamificationEvent, update_where, owned_by,
}

-- `thresholds` of `BADGES`
pub thresholds : BadgeCode → List ℕ
thresholds food_explorer = 3 ∷ 10 ∷ 25 ∷ []
thresholds momo_hunter = 3 ∷ 8 ∷ 20 ∷ []
thresholds biryani_scout = 3 ∷ 8 ∷ 20 ∷ []
thresholds hidden_gem_hunter = 2 ∷ 6 ∷ 15 ∷ []
thresholds top_contributor = 10 ∷ 50 ∷ 150 ∷ []

abbrev pub badge_codes : List BadgeCode
badge_codes = food_explorer ∷ momo_hunter ∷ biryani_scout ∷ hidden_gem_hunter ∷ top_contributor ∷ []

abbrev pub same_badge : BadgeCode → BadgeCode → Bool
same_badge food_explorer food_explorer = true
same_badge momo_hunter momo_hunter = true
same_badge biryani_scout biryani_scout = true
same_badge hidden_gem_hunter hidden_gem_hunter = true
same_badge top_contributor top_contributor = true
same_badge _ _ = false

-- `POINTS["review_published"]`
abbrev pub review_published_points : ℕ
review_published_points = 10

-- `count(distinct ...)`
pub count_distinct : List ℕ → ℕ
count_distinct [] = 0
count_distinct (x ∷ xs) = (if any (λ y. y == x) xs then 0 else 1) + count_distinct xs

module _ {F : Type 0} where
  abbrev pub published_by : ℕ → Review F → Bool
  published_by user r = owned_by user r && is_published r.status

  pub distinct_restaurants : ℕ → Store F → ℕ
  distinct_restaurants user db =
      count_distinct (map (λ r. r.restaurant_id) (filter (published_by user) db.reviews))

  unfoldable pub published_total : ℕ → Store F → ℕ
  published_total user db = count (published_by user) db.reviews

  abbrev review_is_published_by : ℕ → Store F → ℕ → Bool
  review_is_published_by user db id = any (λ r. r.id == id && published_by user r) db.reviews

  -- `_distinct_restaurants_for_dish`
  pub distinct_restaurants_for_dish : ℕ → String → Store F → ℕ
  distinct_restaurants_for_dish user slug db = count_distinct (
      map (λ m. m.restaurant_id)
        (filter (λ m. str_eq m.dish_slug slug && review_is_published_by user db m.review_id)
          db.mentions))

  abbrev is_little_known : Store F → ℕ → Bool
  is_little_known db restaurant =
      any (λ p. p.id == restaurant && leb p.review_count 5) db.restaurants

  -- `_hidden_gem_count`
  pub hidden_gem_count : ℕ → Store F → ℕ
  hidden_gem_count user db = count_distinct (
      map (λ r. r.restaurant_id)
        (filter (λ r. published_by user r && is_little_known db r.restaurant_id) db.reviews))

  pub progress_of : ℕ → Store F → BadgeCode → ℕ
  progress_of user db food_explorer = distinct_restaurants user db
  progress_of user db momo_hunter = distinct_restaurants_for_dish user "chicken-momo" db
  progress_of user db biryani_scout = distinct_restaurants_for_dish user "chicken-biryani" db
  progress_of user db hidden_gem_hunter = hidden_gem_count user db
  progress_of user db top_contributor = published_total user db

pub level_for : BadgeCode → ℕ → ℕ
level_for code progress = count (λ threshold. leb threshold progress) (thresholds code)

abbrev pub is_badge : ℕ → BadgeCode → UserBadge → Bool
is_badge user code row = row.user_id == user && same_badge row.badge_code code

abbrev pub find_badge : ℕ → BadgeCode → List UserBadge → Option UserBadge
find_badge user code rows = find (is_badge user code) rows

-- `level > row.level or progress != row.progress`
abbrev pub is_outdated : ℕ → ℕ → UserBadge → Bool
is_outdated level progress row = ltb row.level level || not (progress == row.progress)

abbrev pub new_badge : ℕ → ℕ → BadgeCode → UserBadge
new_badge user progress code = record {
  user_id = user;
  badge_code = code;
  level = level_for code progress;
  progress = progress;
}

abbrev pub raised : ℕ → BadgeCode → UserBadge → UserBadge
raised progress code r = record r {
  level = max r.level (level_for code progress);
  progress = progress;
}

-- What the loop does with the row that it found, or with none: the rows after it, and whether the
-- badge is newly awarded.
pub store_badge : ℕ → ℕ → BadgeCode → Option UserBadge → List UserBadge → List UserBadge × Bool
store_badge user progress code none rows = (rows ++ (new_badge user progress code ∷ []), true)
store_badge user progress code (some row) rows =
    if is_outdated (level_for code progress) progress row
    then (update_where (is_badge user code) (raised progress code) rows, false)
    else (rows, false)

-- What a query of the database gives: a row that is not flushed is not seen, and the session's object
-- stands for the row that is.
abbrev pub seen : Option UserBadge → Option UserBadge → Option UserBadge
seen none loaded = none
seen (some row) loaded = loaded

-- The loop's body for one badge, on the database's rows and the session's.
pub refresh_badge : ℕ → ℕ → BadgeCode → List UserBadge → List UserBadge → List UserBadge × Bool
refresh_badge user progress code saved rows =
    if level_for code progress == 0
    then (rows, false)
    else store_badge user progress code
        (seen (find_badge user code saved) (find_badge user code rows)) rows

-- The loop over `BADGES`, with the awards in its order.
pub refresh_each :
    ℕ
    → (BadgeCode → ℕ)
    → List UserBadge
    → List BadgeCode
    → List UserBadge
    → List UserBadge × List BadgeCode
refresh_each user progress saved [] rows = (rows, [])
refresh_each user progress saved (code ∷ codes) rows =
    let (next, awarded) = refresh_badge user (progress code) code saved rows in
    let (last, more) = refresh_each user progress saved codes next in
    (last, if awarded then code ∷ more else more)

abbrev sum_points : ℕ → List GamificationEvent → ℕ
sum_points user [] = 0
sum_points user (e ∷ es) = (if e.user_id == user then e.points else 0) + sum_points user es

module _ {F : Type 0} where
  -- `func.sum(GamificationEvent.points)` over the user's rows.
  abbrev pub points_of : ℕ → Store F → ℕ
  points_of user db = sum_points user db.events

  -- The sum is the database's, the profile the session's.
  pub recompute_contribution_score : ℕ → Session F → Session F
  recompute_contribution_score user s =
      let total = points_of user s.rows in
      record s {
        work = record (s.work) {
          profiles =
              update_where (λ p. p.user_id == user) (λ p. record p { contribution_score = total })
                s.work.profiles;
        };
      }

  -- Each badge's row is looked up among the database's.
  pub refresh_badges : ℕ → Session F → Session F × List BadgeCode
  refresh_badges user s =
      let (rows, awarded) =
        refresh_each user (progress_of user s.rows) s.rows.badges badge_codes s.work.badges in
      (record s { work = record (s.work) { badges = rows } }, awarded)

  -- Nothing for a review that is not published.
  pub award_for_review : ℕ → Review F → Session F → Session F
  award_for_review user review s =
      if is_published review.status
      then (let event : GamificationEvent = record {
        user_id = user;
        event_type = "review_published";
        points = review_published_points;
        restaurant_id = review.restaurant_id;
        review_id = review.id;
      } in
          let added = record s {
            work = record (s.work) { events = s.work.events ++ (event ∷ []) };
          } in
          (refresh_badges user (recompute_contribution_score user added)).0)
      else s
