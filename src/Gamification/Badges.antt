-- ===== src/Gamification/Badges.antt =====
-- `refresh_badges` settles every badge: a second call changes nothing.
use mathlib.Core.Path.{fun_ext, subst}
use khaabo.Prelude.{
  ℕ, ◌≤◌, ◌≡◌, ◌≢◌, refl, ◌∙◌, sym, ap, ◌⊎◌, inl, inr, Bool, true, false, Option, none, some, List,
  [], ◌∷◌, arith, find_found, find-map_if, All, All-intro, find-append_one, map_option, ◌==◌,
  if◌then◌else◌, Bool-cases,
}
use khaabo.Store.{
  Store, Session, flush, UserBadge, BadgeCode, food_explorer, momo_hunter, biryani_scout,
  hidden_gem_hunter, top_contributor,
}
use khaabo.Gamification.{
  level_for, is_badge, find_badge, same_badge, badge_codes, is_outdated, new_badge, raised,
  store_badge, seen, refresh_badge, refresh_each, progress_of, distinct_restaurants,
  distinct_restaurants_for_dish, hidden_gem_count, published_total, refresh_badges,
}

same_badge_refl : (c : BadgeCode) → same_badge c c ≡ true
same_badge_refl food_explorer = refl
same_badge_refl _ = refl

same_badge→eq : (a b : BadgeCode) → same_badge a b ≡ true → a ≡ b
same_badge→eq a b h = ground arith

-- The loop where the database's rows are the session's.
settle : ℕ → ℕ → BadgeCode → List UserBadge → List UserBadge × Bool
settle user progress code rows =
    if level_for code progress == 0
    then (rows, false)
    else store_badge user progress code (find_badge user code rows) rows

settle_each :
    ℕ → (BadgeCode → ℕ) → List BadgeCode → List UserBadge → List UserBadge × List BadgeCode
settle_each user progress [] rows = (rows, [])
settle_each user progress (code ∷ codes) rows =
    let (next, awarded) = settle user (progress code) code rows in
    let (last, more) = settle_each user progress codes next in
    (last, if awarded then code ∷ more else more)

module _ (user progress : ℕ) (code : BadgeCode) where
  -- The row of the badge afterwards, from the row before.
  abbrev stored : Option UserBadge → Option UserBadge
  stored none = some (new_badge user progress code)
  stored (some row) =
      if is_outdated (level_for code progress) progress row
      then some (raised progress code row)
      else some row

  abbrev refreshed : Option UserBadge → Option UserBadge
  refreshed found = if level_for code progress == 0 then found else stored found

  find_badge-store_self :
      (found : Option UserBadge) (rows : List UserBadge)
      → find_badge user code rows ≡ found
      → find_badge user code (store_badge user progress code found rows).0 ≡ stored found
  unfolding store_badge
  find_badge-store_self none rows e = ground (
    arith,
    same_badge_refl code,
    find-append_one (is_badge user code) rows (new_badge user progress code),
  )
  find_badge-store_self (some row) rows e =
      elim (Bool-cases (is_outdated (level_for code progress) progress row)) [
        | inl c ↦ rw c (
            ground (
              arith,
              find_found (is_badge user code) rows row e,
              find-map_if (is_badge user code) (is_badge user code) (raised progress code)
                  (λ r. refl) rows,
            ))
        | inr c ↦ rw c e
      ]

  find_badge-settle_self :
      (rows : List UserBadge)
      → find_badge user code (settle user progress code rows).0
        ≡ refreshed (find_badge user code rows)
  unfolding settle
  find_badge-settle_self rows = elim (Bool-cases (level_for code progress == 0)) [
    | inl e ↦ rw e refl
    | inr e ↦ rw e (find_badge-store_self (find_badge user code rows) rows refl)
  ]

  -- A row of another badge stays, whether it is there or not.
  other_badge :
      (c : BadgeCode) (o : Option UserBadge)
      → same_badge code c ≡ false
      → ((row : UserBadge) → o ≡ some row → is_badge user c row ≡ true)
      → map_option (λ r. if is_badge user code r then raised progress code r else r) o ≡ o
  other_badge c none h k = refl
  other_badge c (some row) h k = ground (
    arith,
    k row refl,
    same_badge→eq row.badge_code c,
    same_badge→eq row.badge_code code,
    same_badge_refl c,
  )

  find_badge-store_ne :
      (c : BadgeCode) (found : Option UserBadge) (rows : List UserBadge)
      → same_badge code c ≡ false
      → find_badge user c (store_badge user progress code found rows).0 ≡ find_badge user c rows
  unfolding store_badge
  find_badge-store_ne c none rows h =
      ground (arith, find-append_one (is_badge user c) rows (new_badge user progress code))
  find_badge-store_ne c (some row) rows h =
      elim (Bool-cases (is_outdated (level_for code progress) progress row)) [
        | inl e ↦ rw e (
            find-map_if (is_badge user c) (is_badge user code) (raised progress code) (λ r. refl)
              rows
            ∙ other_badge c (find_badge user c rows) h (λ r. find_found (is_badge user c) rows r))
        | inr e ↦ rw e refl
      ]

  find_badge-settle_ne :
      (c : BadgeCode) (rows : List UserBadge)
      → same_badge code c ≡ false
      → find_badge user c (settle user progress code rows).0 ≡ find_badge user c rows
  unfolding settle
  find_badge-settle_ne c rows h = elim (Bool-cases (level_for code progress == 0)) [
    | inl e ↦ rw e refl
    | inr e ↦ rw e (find_badge-store_ne c (find_badge user code rows) rows h)
  ]

-- A badge is settled where its first threshold is not met, or its row has the progress and at least
-- the level that the progress earns.
abbrev SettledRow : ℕ → ℕ → Option UserBadge → Type 0
SettledRow level progress none = level ≡ 0
SettledRow level progress (some row) =
    (level ≡ 0) ⊎ ((level ≤ row.level) × (row.progress ≡ progress))

abbrev level_in : Option UserBadge → ℕ
level_in none = 0
level_in (some row) = row.level

abbrev IsDistinct : List BadgeCode → Type 0
IsDistinct [] = Unit {0}
IsDistinct (b ∷ bs) = All (λ c. same_badge b c ≡ false) bs × IsDistinct bs

All-both {ℓ κ μ ν} :
    {A : Type ℓ} (P : A → Type κ) (Q : A → Type μ) (R : A → Type ν)
    → ((x : A) → P x → Q x → R x)
    → (xs : List A) → All P xs
    → All Q xs
    → All R xs
All-both P Q R h [] p q = tt
All-both P Q R h (x ∷ xs) p q = (h x p.0 q.0, All-both P Q R h xs p.1 q.1)

module _ (user : ℕ) (progress : BadgeCode → ℕ) where
  abbrev IsSettled : List UserBadge → BadgeCode → Type 0
  IsSettled rows c = SettledRow (level_for c (progress c)) (progress c) (find_badge user c rows)

  settle-IsSettled_self :
      (c : BadgeCode) (rows : List UserBadge) → IsSettled (settle user (progress c) c rows).0 c
  settle-IsSettled_self c rows =
      rw (find_badge-settle_self user (progress c) c rows) (settled (find_badge user c rows))
    where
      settled :
          (o : Option UserBadge)
          → SettledRow (level_for c (progress c)) (progress c) (refreshed user (progress c) c o)
      settled none = ground arith
      settled (some row) = ground arith

  settle-IsSettled :
      (b c : BadgeCode) (rows : List UserBadge)
      → IsSettled rows c
      → IsSettled (settle user (progress b) b rows).0 c
  settle-IsSettled b c rows h = elim (Bool-cases (same_badge b c)) [
    | inl e ↦ rw (same_badge→eq b c e) (settle-IsSettled_self c rows)
    | inr e ↦ rw (find_badge-settle_ne user (progress b) b c rows e) h
  ]

  -- A settled badge is left alone.
  store_badge_settled :
      (c : BadgeCode) (o : Option UserBadge) (rows : List UserBadge)
      → level_for c (progress c) ≢ 0
      → SettledRow (level_for c (progress c)) (progress c) o
      → store_badge user (progress c) c o rows ≡ (rows, false)
  unfolding store_badge
  store_badge_settled c none rows n h = absurd (n h)
  store_badge_settled c (some row) rows n h = ground arith

  settle_settled :
      (c : BadgeCode) (rows : List UserBadge)
      → IsSettled rows c
      → settle user (progress c) c rows ≡ (rows, false)
  unfolding settle
  settle_settled c rows h = elim (Bool-cases (level_for c (progress c) == 0)) [
    | inl e ↦ rw e refl
    | inr e ↦ rw e (store_badge_settled c (find_badge user c rows) rows (ground arith) h)
  ]

  settle_each-IsSettled_other :
      (codes : List BadgeCode) (c : BadgeCode) (rows : List UserBadge)
      → IsSettled rows c
      → IsSettled (settle_each user progress codes rows).0 c
  unfolding settle_each
  settle_each-IsSettled_other [] c rows h = h
  settle_each-IsSettled_other (b ∷ bs) c rows h =
      settle_each-IsSettled_other bs c (settle user (progress b) b rows).0
        (settle-IsSettled b c rows h)

  settle_each-IsSettled :
      (codes : List BadgeCode) (rows : List UserBadge)
      → All (IsSettled (settle_each user progress codes rows).0) codes
  unfolding settle_each
  settle_each-IsSettled [] rows = tt
  settle_each-IsSettled (b ∷ bs) rows =
      let next = (settle user (progress b) b rows).0 in
      (
        settle_each-IsSettled_other bs b next (settle-IsSettled_self b rows),
        settle_each-IsSettled bs next,
      )

  settle_each_settled :
      (codes : List BadgeCode) (rows : List UserBadge)
      → All (IsSettled rows) codes
      → settle_each user progress codes rows ≡ (rows, [])
  unfolding settle_each
  settle_each_settled [] rows h = refl
  settle_each_settled (b ∷ bs) rows h =
      rw (settle_settled b rows h.0) (rw (settle_each_settled bs rows h.1) refl)

  -- The query sees the session's row, or there is none.
  abbrev Agrees : List UserBadge → List UserBadge → BadgeCode → Type 0
  Agrees saved rows c =
      seen (find_badge user c saved) (find_badge user c rows) ≡ find_badge user c rows

  refresh_badge-settle :
      (c : BadgeCode) (saved rows : List UserBadge)
      → Agrees saved rows c
      → refresh_badge user (progress c) c saved rows ≡ settle user (progress c) c rows
  unfolding refresh_badge settle
  refresh_badge-settle c saved rows h =
      ap
        (λ found.
          if level_for c (progress c) == 0
          then (rows, false)
          else store_badge user (progress c) c found rows)
        h

  Agrees-settle :
      (b c : BadgeCode) (saved rows : List UserBadge)
      → same_badge b c ≡ false
      → Agrees saved rows c
      → Agrees saved (settle user (progress b) b rows).0 c
  Agrees-settle b c saved rows apart h =
      rw (find_badge-settle_ne user (progress b) b c rows apart) h

  refresh_each-settle :
      (saved : List UserBadge) (codes : List BadgeCode) (rows : List UserBadge)
      → IsDistinct codes
      → All (Agrees saved rows) codes
      → refresh_each user progress saved codes rows ≡ settle_each user progress codes rows
  unfolding refresh_each settle_each
  refresh_each-settle saved [] rows d h = refl
  refresh_each-settle saved (b ∷ bs) rows d h =
      let next = (settle user (progress b) b rows).0 in
      rw (refresh_badge-settle b saved rows h.0) (
        rw
          (refresh_each-settle saved bs next d.1 (
            All-both (λ c. same_badge b c ≡ false) (Agrees saved rows) (Agrees saved next)
              (λ c apart k. Agrees-settle b c saved rows apart k) bs d.0 h.1))
          refl)

  -- A loop on rows that are all flushed, and one on what it leaves, flushed.
  refresh_each_twice :
      (codes : List BadgeCode) (rows : List UserBadge)
      → IsDistinct codes
      → let (next, awarded) = refresh_each user progress rows codes rows in
        refresh_each user progress next codes next ≡ (next, [])
  refresh_each_twice codes rows d =
      let next = (settle_each user progress codes rows).0 in
      rw (same rows) (same next ∙ settle_each_settled codes next (settle_each-IsSettled codes rows))
    where
      twin : (o : Option UserBadge) → seen o o ≡ o
      twin none = refl
      twin (some row) = refl

      agrees : (r : List UserBadge) (c : BadgeCode) → Agrees r r c
      agrees r c = twin (find_badge user c r)

      same :
          (r : List UserBadge)
          → refresh_each user progress r codes r ≡ settle_each user progress codes r
      same r = refresh_each-settle r codes r d (All-intro (Agrees r r) (agrees r) codes)

module _ {F : Type 0} (user : ℕ) where
  -- The progress is a matter of the reviews, the mentions and the restaurants.
  progress_of_badges :
      (db : Store F) (badges : List UserBadge) (c : BadgeCode)
      → progress_of user (record db { badges = badges }) c ≡ progress_of user db c
  unfolding progress_of distinct_restaurants distinct_restaurants_for_dish hidden_gem_count
      published_total
  progress_of_badges db badges food_explorer = refl
  progress_of_badges db badges momo_hunter = refl
  progress_of_badges db badges biryani_scout = refl
  progress_of_badges db badges hidden_gem_hunter = refl
  progress_of_badges db badges top_contributor = refl

  -- In a session without pending changes, and flushed in between, a second refresh of the badges
  -- changes no row and awards nothing.
  pub refresh_badges_idem :
      (s : Session F)
      → s.rows ≡ s.work
      → let t = flush (refresh_badges user s).0 in refresh_badges user t ≡ (t, [])
  unfolding refresh_badges
  refresh_badges_idem s clean =
      let before = progress_of user s.rows in
      let codes = badge_codes in
      let left = (refresh_each user before s.rows.badges codes s.work.badges).0 in
      let t = flush (record s { work = record (s.work) { badges = left } }) in
      let same_progress : progress_of user t.rows ≡ before =
        fun_ext (progress_of_badges s.work left) ∙ ap (progress_of user) (sym clean) in
      let twice : refresh_each user before left codes left ≡ (left, []) =
        subst
          (λ (saved : List UserBadge).
            let n = (refresh_each user before saved codes s.work.badges).0 in
            refresh_each user before n codes n ≡ (n, []))
          (ap (λ (db : Store F). db.badges) (sym clean))
          (refresh_each_twice user before codes s.work.badges (
            (refl, (refl, (refl, (refl, tt)))),
            ((refl, (refl, (refl, tt))), ((refl, (refl, tt)), ((refl, tt), (tt, tt)))),
          )) in
      ap
        (λ (x : List UserBadge × List BadgeCode).
          (record t { work = record (t.work) { badges = x.0 } }, x.1))
        (ap (λ (p : BadgeCode → ℕ). refresh_each user p left codes left) same_progress ∙ twice)
