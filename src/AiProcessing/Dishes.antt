-- ===== src/AiProcessing/Dishes.antt =====
-- backend/app/services/ai_processing.py: the index of aliases, and the dish that a mention names.
use khaabo.Prelude.{
  ℕ, suc, true, Option, none, some, List, [], ◌∷◌, ◌++◌, String, ltb, ◌==◌, if◌then◌else◌, find,
  str_eq,
}
use khaabo.Board.{Dish}
use khaabo.AiProcessing.Model.{Names, DishMentionOut, World, Config}

-- A dict with its later keys behind, which take the place of earlier ones.
abbrev pub Index : Type 0
Index = List (String × String)

abbrev lookup_from : Option String → Index → String → Option String
lookup_from best [] key = best
lookup_from best ((k, slug) ∷ rest) key =
    lookup_from (if str_eq k key then some slug else best) rest key

abbrev entry_unless_empty : String → String → Index
entry_unless_empty name slug = if str_eq name "" then [] else (name, slug) ∷ []

abbrev names_of : List Dish → Index
names_of [] = []
names_of (d ∷ ds) =
    (if d.is_active then entry_unless_empty d.normalized_name d.slug else []) ++ names_of ds

abbrev aliases_of : List Dish → List (String × ℕ) → Index
aliases_of dishes [] = []
aliases_of dishes ((alias, id) ∷ rest) =
    elim (find (λ d. d.id == id) dishes) [ none ↦ [] | some d ↦ entry_unless_empty alias d.slug ]
    ++ aliases_of dishes rest

unfoldable pub load_alias_index : {F : Type 0} → World F → Index
load_alias_index w = names_of w.dishes ++ aliases_of w.dishes w.aliases

abbrev by_slug : List Dish → String → Option Dish
by_slug dishes slug = find (λ d. str_eq d.slug slug) dishes

-- One candidate of `_resolve_dish`.
abbrev known_dish : Names → List Dish → Index → String → Option Dish
known_dish n dishes index candidate =
    if str_eq candidate ""
    then none
    else elim (lookup_from none index (n.normalize_name candidate)) [
      | none ↦ none
      | some slug ↦ if str_eq slug "" then none else by_slug dishes slug
    ]

unfoldable pub find_dish : {F : Type 0} → Names → List Dish → Index → DishMentionOut F → Option Dish
find_dish n dishes index m =
    let by_name = known_dish n dishes index m.dish_name in
    elim m.matched_alias [
      | none ↦ by_name
      | some alias ↦ elim (known_dish n dishes index alias) [ none ↦ by_name | some d ↦ some d ]
    ]

abbrev new_dish : Names → ℕ → String → Dish
new_dish n id name = record {
  id = id;
  name = n.title name;
  slug = n.slugify name;
  normalized_name = n.normalize_name name;
  is_active = true;
  mention_count = 0;
  restaurant_count = 0;
}

module _ {F : Type 0} where
  -- `Dish(...)` for a name that is no dish yet.
  abbrev create_dish : Names → String → World F → Option Dish × World F
  create_dish n dish_name w =
      let name = n.strip dish_name in
      if ltb (n.length name) 3 then (none, w) else elim (by_slug w.dishes (n.slugify name)) [
        | some d ↦ (some d, w)
        | none ↦
            let d = new_dish n w.store.next_id name in
            (
              some d,
              record w {
                dishes = w.dishes ++ (d ∷ []);
                store = record (w.store) { next_id = suc (w.store.next_id) };
              },
            )
      ]

  unfoldable pub resolve_dish :
      Config F → Index → DishMentionOut F → World F → Option Dish × World F
  resolve_dish cfg index m w = elim (find_dish cfg.names w.dishes index m) [
    | some d ↦ (some d, w)
    | none ↦ if cfg.allow_dish_creation then create_dish cfg.names m.dish_name w else (none, w)
  ]
