-- ===== src/EntityResolution/Earned.antt =====
-- What `resolve_candidate` may answer, and which of the rows it answers with.
use mathlib.Core.List.{Memᴰ}
use khaabo.Prelude.{
  ◌≡◌, refl, sym, ◌⊎◌, inl, inr, Bool, true, false, ◌&&◌, ◌||◌, Option, none, some, List, [], ◌∷◌,
  String, find, arith, if◌then◌else◌, str_eq, All, All-map, Bool-cases, Option-cases, All-sort_by,
}
use khaabo.Float.{Float, ◌≼◌}
use khaabo.EntityResolution.{
  MatchMethod, source_key, exact_name, alias, fuzzy_geo, fuzzy_strict, new, ambiguous, Library,
  CandidateRestaurant, IncomingPlace, ResolutionResult, Scored, collect, key_of, has_key,
  exact_distance_m, chain_distance_m, name_sim_strong, name_sim_moderate, name_similarity,
  distance_of, within, is_absent, alias_hit, score_candidate, stands_before, is_tie, choose,
  by_name, keyed, resolve_candidate,
}

abbrev OnSome {ℓ κ} : {A : Type ℓ} → (A → Type κ) → Option A → Type κ
OnSome P none = Unit
OnSome P (some y) = P y

OnSome-if {ℓ κ} :
    {A : Type ℓ} (P : A → Type κ) (b : Bool) (x y : Option A)
    → (b ≡ true → OnSome P x)
    → OnSome P y
    → OnSome P (if b then x else y)
OnSome-if P true x y h k = h refl
OnSome-if P false x y h k = k

All-add {ℓ κ} :
    {A : Type ℓ} (P : A → Type κ) (o : Option A) (ys : List A)
    → OnSome P o
    → All P ys
    → All P (elim o [ none ↦ ys | some y ↦ y ∷ ys ])
All-add P none ys p ps = ps
All-add P (some y) ys p ps = (p, ps)

All-collect {ℓ κ μ} :
    {A : Type ℓ} {B : Type κ} (P : B → Type μ) (g : A → Option B) (xs : List A)
    → All (λ x. OnSome P (g x)) xs
    → All P (collect g xs)
All-collect P g [] h = tt
All-collect P g (x ∷ xs) h = All-add P (g x) (collect g xs) h.0 (All-collect P g xs h.1)

All-self {ℓ} : {A : Type ℓ} (xs : List A) → All (λ x. Memᴰ x xs) xs
All-self [] = tt
All-self (x ∷ xs) = (
  Memᴰ.head refl,
  All-map (λ y. Memᴰ y xs) (λ y. Memᴰ y (x ∷ xs)) (λ y m. Memᴰ.tail m) xs (All-self xs),
)

find-Memᴰ {ℓ} :
    {A : Type ℓ} (p : A → Bool) (xs : List A) (x : A)
    → find p xs ≡ some x
    → Memᴰ x xs × (p x ≡ true)
find-Memᴰ p [] x h = cc
find-Memᴰ p (y ∷ ys) x h = elim (Bool-cases (p y)) [
  | inl e ↦ let same : y ≡ x = ground (arith, e, h) in (Memᴰ.head (sym same), rw (← same) e)
  | inr e ↦ let (m, k) = find-Memᴰ p ys x (ground (arith, e, h)) in (Memᴰ.tail m, k)
]

and_both : (a b : Bool) → (a && b) ≡ true → (a ≡ true) × (b ≡ true)
and_both true b h = (refl, h)
and_both false b h = cc

or_cases : (a b : Bool) → (a || b) ≡ true → (a ≡ true) ⊎ (b ≡ true)
or_cases true b h = inl refl
or_cases false b h = inr h

module _ {F : Type 0} ⦃f : Float F⦄ (lib : Library F) (incoming : IncomingPlace F) where
  -- What makes a candidate a match by a method.
  abbrev pub Earned : MatchMethod → CandidateRestaurant F → Type 0
  Earned source_key cand =
      (key : String × String) × (key_of incoming ≡ some key) × (has_key key cand ≡ true)
  Earned exact_name cand =
      (str_eq cand.normalized_name (lib.normalize_name incoming.name) ≡ true)
      × (within (distance_of lib incoming cand) exact_distance_m ≡ true)
  Earned alias cand =
      (alias_hit lib (lib.normalize_name incoming.name) cand ≡ true)
      × (within (distance_of lib incoming cand) chain_distance_m ≡ true)
  Earned fuzzy_geo cand =
      (name_sim_moderate
        ≼ name_similarity lib (lib.normalize_name incoming.name) cand.normalized_name)
      × (within (distance_of lib incoming cand) exact_distance_m ≡ true)
  Earned fuzzy_strict cand =
      (name_sim_strong
        ≼ name_similarity lib (lib.normalize_name incoming.name) cand.normalized_name)
      × ((within (distance_of lib incoming cand) chain_distance_m ≡ true)
          ⊎ (is_absent (distance_of lib incoming cand) ≡ true))
  Earned new cand = ⊥
  Earned ambiguous cand = ⊥

  module _ (candidates : List (CandidateRestaurant F)) where
    abbrev IsSound : Scored F → Type 0
    IsSound row = Memᴰ row.candidate candidates × Earned row.method row.candidate

    score_candidate-IsSound :
        (cand : CandidateRestaurant F)
        → Memᴰ cand candidates
        → OnSome IsSound (score_candidate lib incoming (lib.normalize_name incoming.name) cand)
    unfolding score_candidate
    score_candidate-IsSound cand m =
        let norm = lib.normalize_name incoming.name in
        let distance = distance_of lib incoming cand in
        let similarity = name_similarity lib norm cand.normalized_name in
        elim (Bool-cases (str_eq cand.normalized_name norm && within distance exact_distance_m)) [
          | inl e ↦ rw e (m, and_both _ _ e)
          | inr e ↦
              rw e
                (elim (Bool-cases (alias_hit lib norm cand && within distance chain_distance_m)) [
                  | inl e ↦ rw e (m, and_both _ _ e)
                  | inr e ↦
                      rw e
                        (elim (Bool-cases
                          (f.le name_sim_moderate similarity && within distance exact_distance_m)) [
                            | inl e ↦ rw e (m, and_both _ _ e)
                            | inr e ↦
                                rw e
                                  (elim (Bool-cases (
                                    f.le name_sim_strong similarity
                                    && (within distance chain_distance_m || is_absent distance))) [
                                      | inl e ↦
                                          let (close, rest) = and_both _ _ e in
                                          rw e (m, (close, or_cases _ _ rest))
                                      | inr e ↦ rw e tt
                                    ])
                          ])
                ])
        ]

    -- An answer that names a restaurant names one of the candidates, which earned it.
    abbrev IsFounded : ResolutionResult F → Type 0
    IsFounded r =
        (i : String)
        → r.matched_id ≡ some i
        → (cand : CandidateRestaurant F) × Memᴰ cand candidates
          × (cand.id ≡ i)
          × Earned r.method cand

    IsFounded-if :
        (b : Bool) (r t : ResolutionResult F)
        → IsFounded r
        → IsFounded t
        → IsFounded (if b then r else t)
    IsFounded-if true r t h k = h
    IsFounded-if false r t h k = k

    choose-IsFounded : (rows : List (Scored F)) → All IsSound rows → IsFounded (choose rows)
    unfolding choose
    choose-IsFounded [] h i e = cc
    choose-IsFounded (best ∷ []) h i e = (best.candidate, h.0.0, ground (arith, e), h.0.1)
    choose-IsFounded (best ∷ second ∷ rest) h i e =
        IsFounded-if (is_tie best second) _ _ (λ i e. cc)
          (λ i e. (best.candidate, h.0.0, ground (arith, e), h.0.1)) i e

    by_name-IsFounded : IsFounded (by_name lib incoming candidates)
    unfolding by_name
    by_name-IsFounded =
        IsFounded-if (str_eq (lib.normalize_name incoming.name) "") _ _ (λ i e. cc)
          (choose-IsFounded _ (
            All-sort_by stands_before IsSound _ (
              All-collect IsSound _ candidates (
                All-map (λ c. Memᴰ c candidates) _ score_candidate-IsSound candidates
                  (All-self candidates)))))

    keyed_cases :
        {cand : CandidateRestaurant F}
        → keyed incoming candidates ≡ some cand
        → (key : String × String) × (key_of incoming ≡ some key)
          × (find (has_key key) candidates ≡ some cand)
    keyed_cases h = elim (Option-cases (key_of incoming)) [
      | inl e ↦ cc
      | inr (key, e) ↦ (key, e, rw (e, keyed) at h)
    ]

    -- An answer that names a restaurant names one of the candidates, and that candidate fits the
    -- method it names: the incoming key stands among its keys, or its name or an alias is the
    -- incoming one near enough, or its name is similar enough at the method's distance.
    pub resolve_candidate-IsFounded :
        (i : String)
        → (resolve_candidate lib incoming candidates).matched_id ≡ some i
        → (cand : CandidateRestaurant F) × Memᴰ cand candidates
          × (cand.id ≡ i)
          × Earned (resolve_candidate lib incoming candidates).method cand
    unfolding resolve_candidate
    resolve_candidate-IsFounded = elim (Option-cases (keyed incoming candidates)) [
      | inl e ↦ rw (e, resolve_candidate) by_name-IsFounded
      | inr (cand, e) ↦
          rw (e, resolve_candidate)
            (λ i k.
              let (key, told, found) = keyed_cases e in
              let (m, has) = find-Memᴰ (has_key key) candidates cand found in
              (cand, m, ground (arith, k), (key, told, has)))
    ]
