-- ===== src/DishExtraction/Single.antt =====
-- A text gives one hit for a dish at most, and only dishes of the index.
use khaabo.Prelude.{
  ℕ, ◌+◌, ◌≤◌, ◌≡◌, refl, sym, ap, ◌∙◌, inl, inr, Bool, true, false, ◌&&◌, List, [], ◌∷◌, String,
  any, any-eq-count, count, is_empty, arith, str_eq, sort_by, if◌then◌else◌, All, All-sort_by,
  Bool-cases, Option-cases, eq_iff, eq_refl,
}
use khaabo.Float.{Float, lt}
use khaabo.DishExtraction.{
  Clauses, DishHit, alias_before, is_inside, keep_hit, hit_of, match_aliases, match_clauses,
  extract_dish_mentions, split_clauses,
}

module _ {F : Type 0} where
  abbrev pub of_dish : String → DishHit F → Bool
  of_dish k h = str_eq h.dish_key k

  -- No dish has two hits.
  abbrev pub IsSingle : List (DishHit F) → Type 0
  IsSingle hits = (k : String) → count (of_dish k) hits ≤ 1

  -- The alias and the dish of the hit are an entry of the index.
  abbrev pub IsListed : List (String × String) → DishHit F → Type 0
  IsListed index h = any (λ e. str_eq e.0 h.matched_alias && str_eq e.1 h.dish_key) index ≡ true

module _ {F : Type 0} ⦃f : Float F⦄ (c : Clauses F) where
  abbrev extra : DishHit F → List (DishHit F) → String → ℕ
  extra hit hits k = if any (of_dish hit.dish_key) hits then 0 else if of_dish k hit then 1 else 0

  chosen_count :
      (b : Bool) (k : String) (hit h : DishHit F) (hs : List (DishHit F))
      → h.dish_key ≡ hit.dish_key
      → count (of_dish k) (if b then hit ∷ hs else h ∷ hs) ≡ count (of_dish k) (h ∷ hs)
  chosen_count true k hit h hs e = rw e refl
  chosen_count false k hit h hs e = refl

  count-keep_hit :
      (hit : DishHit F) (k : String) (hits : List (DishHit F))
      → count (of_dish k) (keep_hit c hit hits) ≡ count (of_dish k) hits + extra hit hits k
  unfolding keep_hit
  count-keep_hit hit k [] = omega arith
  count-keep_hit hit k (h ∷ hs) = elim (Bool-cases (str_eq h.dish_key hit.dish_key)) [
    | inl e ↦
        rw
          (
            e,
            chosen_count (lt h.confidence hit.confidence) k hit h hs
                ((eq_iff h.dish_key hit.dish_key).0 e),
          )
          (omega arith)
    | inr e ↦ rw e (omega (arith, count-keep_hit hit k hs))
  ]

  keep_hit-IsSingle :
      (hit : DishHit F) (hits : List (DishHit F)) → IsSingle hits → IsSingle (keep_hit c hit hits)
  keep_hit-IsSingle hit hits h k = elim (Bool-cases (any (of_dish hit.dish_key) hits)) [
    | inl e ↦ rw (count-keep_hit hit k hits, e) (omega (arith, h k))
    | inr e ↦ elim (Bool-cases (of_dish k hit)) [
      | inr d ↦ rw (count-keep_hit hit k hits, e, d) (omega (arith, h k))
      | inl d ↦
          let same : hit.dish_key ≡ k = (eq_iff hit.dish_key k).0 d in
          let absent : count (of_dish k) hits ≡ 0 =
            ap (λ x. count (of_dish x) hits) (sym same)
            ∙ any-eq-count (of_dish hit.dish_key) hits e in
          rw (count-keep_hit hit k hits, e, d, absent) (omega arith)
    ]
  ]

  module _ (P : DishHit F → Type 0) where
    All-keep_hit :
        (hit : DishHit F) (hits : List (DishHit F))
        → P hit
        → All P hits
        → All P (keep_hit c hit hits)
    unfolding keep_hit
    All-keep_hit hit [] p h = (p, tt)
    All-keep_hit hit (x ∷ xs) p h = elim (Bool-cases (str_eq x.dish_key hit.dish_key)) [
      | inl e ↦ elim (Bool-cases (lt x.confidence hit.confidence)) [
        | inl d ↦ rw (e, d) (p, h.1)
        | inr d ↦ rw (e, d) h
      ]
      | inr e ↦ rw e (h.0, All-keep_hit hit xs p h.1)
    ]

  -- Both, through the aliases of a clause and through the clauses.
  abbrev IsFair : List (String × String) → List (DishHit F) → Type 0
  IsFair index hits = IsSingle hits × All (IsListed index) hits

  abbrev InIndex : List (String × String) → String × String → Type 0
  InIndex index entry = any (λ e. str_eq e.0 entry.0 && str_eq e.1 entry.1) index ≡ true

  match_aliases-IsFair :
      (index : List (String × String)) (clause : String) (entries : List (String × String))
      (consumed : List (ℕ × ℕ)) (hits : List (DishHit F))
      → All (InIndex index) entries
      → IsFair index hits
      → IsFair index (match_aliases c clause entries consumed hits)
  unfolding match_aliases
  match_aliases-IsFair index clause [] consumed hits i h = h
  match_aliases-IsFair index clause (entry ∷ entries) consumed hits i h =
      elim (Option-cases (c.span_of entry.0 (c.normalize_name clause))) [
        | inl e ↦
            rw (e, match_aliases) (match_aliases-IsFair index clause entries consumed hits i.1 h)
        | inr (span, e) ↦ elim (Bool-cases (is_inside span consumed)) [
          | inl d ↦
              rw (e, d, match_aliases)
                (match_aliases-IsFair index clause entries consumed hits i.1 h)
          | inr d ↦
              rw (e, d, match_aliases)
                (match_aliases-IsFair index clause entries (span ∷ consumed)
                  (keep_hit c (hit_of c clause entry) hits) i.1
                  (
                    keep_hit-IsSingle (hit_of c clause entry) hits h.0,
                    All-keep_hit (IsListed index) (hit_of c clause entry) hits i.0 h.1,
                  ))
        ]
      ]

  match_clauses-IsFair :
      (index entries : List (String × String)) (clauses : List String) (hits : List (DishHit F))
      → All (InIndex index) entries
      → IsFair index hits
      → IsFair index (match_clauses c entries clauses hits)
  unfolding match_clauses
  match_clauses-IsFair index entries [] hits i h = h
  match_clauses-IsFair index entries (clause ∷ clauses) hits i h =
      elim (Bool-cases (str_eq (c.normalize_name clause) "")) [
        | inl e ↦ rw e (match_clauses-IsFair index entries clauses hits i h)
        | inr e ↦ rw e (
            match_clauses-IsFair index entries clauses _ i
              (match_aliases-IsFair index clause entries [] hits i h))
      ]

  index-InIndex :
      (index more : List (String × String))
      → ((e : String × String) → InIndex more e → InIndex index e)
      → All (InIndex index) more
  index-InIndex index [] h = tt
  index-InIndex index (e ∷ more) h = (
    h e (rw (eq_refl e.0, eq_refl e.1) refl),
    index-InIndex index more (λ x k. h x (ground (arith, k))),
  )

  -- A text gives at most one hit for a dish, the table's key, and each hit's alias and dish are an
  -- entry of the index that was given.
  pub extract_dish_mentions-IsSingle :
      (text : String) (index : List (String × String))
      → IsSingle (extract_dish_mentions c text index)
        × All (IsListed index) (extract_dish_mentions c text index)
  unfolding extract_dish_mentions
  extract_dish_mentions-IsSingle text index = elim (Bool-cases (is_empty index)) [
    | inl e ↦ rw e ((λ k. omega arith), tt)
    | inr e ↦ rw e (
        match_clauses-IsFair index (sort_by alias_before index) (split_clauses c text) []
          (All-sort_by alias_before (InIndex index) index (index-InIndex index index (λ x k. k)))
          ((λ k. omega arith), tt))
  ]
