-- ===== src/AiProcessing/Replayed.antt =====
-- What the loop over the mentions of an analysis leaves of the mentions, on dishes that stand.
use mathlib.Core.Path.{subst}
use mathlib.Core.Option.{some-injective}
use khaabo.Prelude.{
  ℕ, ◌≡◌, refl, ap, sym, ◌∙◌, Bool, true, false, not, ◌==◌, Option, none, some, List, [], ◌∷◌, ◌++◌,
  if◌then◌else◌, String, filter, any, arith, inl, inr, Option-cases, Bool-cases, and_then, Given,
  Given-and_then, map_option,
}
use khaabo.Enums.{ModerationReason}
use khaabo.Store.{Review, DishMention}
use khaabo.Board.{Dish}
use khaabo.RankingService.Evidence.{Pair}
use khaabo.AiProcessing.Model.{World, Config, DishMentionOut}
use khaabo.AiProcessing.Dishes.{Index, find_dish, resolve_dish}
use khaabo.AiProcessing.Persist.{
  queue_once, store_found, mention_row, store_mention, store_mentions, is_mention_of,
}

++_assoc {ℓ} : {A : Type ℓ} (xs ys zs : List A) → (xs ++ ys) ++ zs ≡ xs ++ (ys ++ zs)
++_assoc [] ys zs = refl
++_assoc (x ∷ xs) ys zs = ap (λ l. x ∷ l) (++_assoc xs ys zs)

pub ++_none {ℓ} : {A : Type ℓ} (xs : List A) → xs ++ [] ≡ xs
++_none [] = refl
++_none (x ∷ xs) = ap (λ l. x ∷ l) (++_none xs)

pub filter-append {ℓ} :
    {A : Type ℓ} (p : A → Bool) (xs ys : List A) → filter p (xs ++ ys) ≡ filter p xs ++ filter p ys
filter-append p [] ys = refl
filter-append p (x ∷ xs) ys = ground (arith, filter-append p xs ys)

pub filter_idem {ℓ} :
    {A : Type ℓ} (p : A → Bool) (xs : List A) → filter p (filter p xs) ≡ filter p xs
filter_idem p [] = refl
filter_idem p (x ∷ xs) = ground (arith, filter_idem p xs)

pub and_then_pure {ℓ} : {A : Type ℓ} (o : Option A) → and_then o some ≡ o
and_then_pure none = refl
and_then_pure (some a) = refl

pub some-ne-none {ℓ} : {A : Type ℓ} {a : A} → some a ≡ none → ⊥
some-ne-none h = cc

if_false {ℓ} : {A : Type ℓ} (b : Bool) (x y : A) → b ≡ false → (if b then x else y) ≡ y
if_false true x y h = cc
if_false false x y h = refl

module _ {F : Type 0} where
  abbrev pub is_other : ℕ → DishMention F → Bool
  is_other id m = not (m.review_id == id)

  -- The rows that an analysis gives, on the dishes that stand.
  abbrev pub row_for : Option Dish → String → Review F → DishMentionOut F → List (DishMention F)
  row_for none provider review m = []
  row_for (some d) provider review m = mention_row provider review d m ∷ []

  abbrev row_of :
      Config F → List Dish → Index → String → Review F → DishMentionOut F → List (DishMention F)
  row_of cfg dishes index provider review m =
      row_for (find_dish cfg.names dishes index m) provider review m

  unfoldable pub mention_rows :
      Config F
      → List Dish
      → Index
      → String
      → Review F
      → List (DishMentionOut F)
      → List (DishMention F)
  mention_rows cfg dishes index provider review [] = []
  mention_rows cfg dishes index provider review (m ∷ ms) =
      row_of cfg dishes index provider review m ++ mention_rows cfg dishes index provider review ms

  -- The dishes and the mentions of a state.
  abbrev pub view : World F → List Dish × List (DishMention F)
  view w = (w.dishes, w.store.mentions)

  abbrev pub view_of : {A : Type 0} → A × World F → List Dish × List (DishMention F)
  view_of (a, w) = view w

  -- Two steps that show the same, and then two that do on what shows the same.
  pub alike :
      {A B : Type 0} (u : A → List Dish × List (DishMention F))
      (v : B → List Dish × List (DishMention F)) (dishes : List Dish) (o : Option A)
      (q : Option (List (DishMention F))) (k : A → Option B)
      (j : List (DishMention F) → Option (List (DishMention F)))
      → map_option u o ≡ map_option (λ l. (dishes, l)) q
      → ((a : A) (l : List (DishMention F))
          → u a ≡ (dishes, l)
          → map_option v (k a) ≡ map_option (λ l. (dishes, l)) (j l))
      → map_option v (and_then o k) ≡ map_option (λ l. (dishes, l)) (and_then q j)
  alike u v dishes none none k j e h = refl
  alike u v dishes none (some l) k j e h = cc
  alike u v dishes (some a) none k j e h = cc
  alike u v dishes (some a) (some l) k j e h = h a l (some-injective _ _ e)

  pub queue_once-view :
      (now id : ℕ) (reason : ModerationReason) (severity : ℕ) (w : World F)
      → view (queue_once now id reason severity w) ≡ view w
  unfolding queue_once
  queue_once-view now id reason severity w = ground arith

  module _ (cfg : Config F) (fixed : cfg.allow_dish_creation ≡ false) (index : Index)
      (provider : String) (review : Review F) where
    resolve_fixed :
        (m : DishMentionOut F) (w : World F)
        → resolve_dish cfg index m w ≡ (find_dish cfg.names w.dishes index m, w)
    unfolding resolve_dish
    resolve_fixed m w = elim (Option-cases (find_dish cfg.names w.dishes index m)) [
      | inl missing ↦ rw (resolve_dish, missing) (if_false cfg.allow_dish_creation _ _ fixed)
      | inr (d, known) ↦ rw (resolve_dish, known) refl
    ]

    -- What the flush of one mention leaves of the mentions.
    abbrev stored :
        Option Dish → DishMentionOut F → List (DishMention F) → Option (List (DishMention F))
    stored none m rows = some rows
    stored (some d) m rows =
        if any (is_mention_of review.id d.id) rows
        then none
        else some (rows ++ row_for (some d) provider review m)

    -- The loop on the mentions alone.
    pub replay :
        List Dish → List (DishMentionOut F) → List (DishMention F) → Option (List (DishMention F))
    replay dishes [] rows = some rows
    replay dishes (m ∷ ms) rows =
        and_then (stored (find_dish cfg.names dishes index m) m rows) (replay dishes ms)

    found-view :
        (o : Option Dish) (m : DishMentionOut F) (pairs : List Pair) (w : World F)
        → map_option view_of (store_found provider review m pairs (o, w))
          ≡ map_option (λ l. (w.dishes, l)) (stored o m w.store.mentions)
    unfolding store_found
    found-view none m pairs w = refl
    found-view (some d) m pairs w =
        elim (Bool-cases (any (is_mention_of review.id d.id) w.store.mentions)) [
          | inl e ↦ rw e refl
          | inr e ↦ rw e refl
        ]

    store_mention-view :
        (m : DishMentionOut F) (s : List Pair × World F)
        → map_option view_of (store_mention cfg index provider review m s)
          ≡ map_option
              (λ l. (s.1.dishes, l))
              (stored (find_dish cfg.names s.1.dishes index m) m s.1.store.mentions)
    unfolding store_mention
    store_mention-view m (pairs, w) =
        ap (λ found. map_option view_of (store_found provider review m pairs found))
          (resolve_fixed m w)
        ∙ found-view (find_dish cfg.names w.dishes index m) m pairs w

    pub store_mentions-view :
        (ms : List (DishMentionOut F)) (s : List Pair × World F)
        → map_option view_of (store_mentions cfg index provider review ms s)
          ≡ map_option (λ l. (s.1.dishes, l)) (replay s.1.dishes ms s.1.store.mentions)
    unfolding store_mentions replay
    store_mentions-view [] s = refl
    store_mentions-view (m ∷ ms) s =
        alike view_of view_of s.1.dishes (store_mention cfg index provider review m s) _
          (store_mentions cfg index provider review ms) (replay s.1.dishes ms)
          (store_mention-view m s)
          (λ t l e.
            subst
              (λ (v : List Dish × List (DishMention F)).
                map_option view_of (store_mentions cfg index provider review ms t)
                ≡ map_option (λ k. (v.0, k)) (replay v.0 ms v.1))
              e (store_mentions-view ms t))

    -- Where it ends, the rows of the analysis are added.
    pub replay-adds :
        (dishes : List Dish) (ms : List (DishMentionOut F)) (rows : List (DishMention F))
        → Given
            (λ l. l ≡ rows ++ mention_rows cfg dishes index provider review ms)
            (replay dishes ms rows)
    unfolding replay mention_rows
    replay-adds dishes [] rows = sym (++_none rows)
    replay-adds dishes (m ∷ ms) rows =
        let found = find_dish cfg.names dishes index m in
        Given-and_then (λ (l : List (DishMention F)). l ≡ rows ++ row_for found provider review m)
          (λ (l : List (DishMention F)).
            l
            ≡ rows
              ++ (row_for found provider review m
                  ++ mention_rows cfg dishes index provider review ms))
          (stored found m rows) (replay dishes ms) (stored-adds found m rows)
          (λ l e.
            subst
              (λ (k : List (DishMention F)).
                Given
                  (λ (x : List (DishMention F)).
                    x
                    ≡ rows
                      ++ (row_for found provider review m
                          ++ mention_rows cfg dishes index provider review ms))
                  (replay dishes ms k))
              (sym e)
              (subst
                (λ (k : List (DishMention F)).
                  Given (λ (x : List (DishMention F)). x ≡ k)
                    (replay dishes ms (rows ++ row_for found provider review m)))
                (++_assoc rows (row_for found provider review m)
                  (mention_rows cfg dishes index provider review ms))
                (replay-adds dishes ms (rows ++ row_for found provider review m))))
      where
        stored-adds :
            (o : Option Dish) (m : DishMentionOut F) (rows : List (DishMention F))
            → Given (λ l. l ≡ rows ++ row_for o provider review m) (stored o m rows)
        stored-adds none m rows = sym (++_none rows)
        stored-adds (some d) m rows = elim (Bool-cases (any (is_mention_of review.id d.id) rows)) [
          | inl e ↦ rw e tt
          | inr e ↦ rw e refl
        ]
