-- ===== src/EntityResolution.antt =====
-- backend/app/services/entity_resolution.py: an incoming place and the canonical restaurant it is.
-- `Library` holds what the code takes from Python's libraries: the name folding of
-- backend/app/utils/text.py (regular expressions and the Unicode tables), `str.split`, difflib's
-- ratio and the functions of `math`. Distances are metres.
pub mod Earned
pub mod Best
use khaabo.Prelude.{
  ℕ, Bool, true, false, not, ◌&&◌, ◌||◌, Option, none, some, List, [], ◌∷◌, ◌++◌, String, any, find,
  filter, length, ltb, if◌then◌else◌, str_eq, compare_str, is_le, sort_by,
}
use khaabo.Float.{Float, ◌≼◌, lt, eqf, nought, one, fmax, fmin}

pub data MatchMethod : Type 0 where
  source_key exact_name alias fuzzy_geo fuzzy_strict new ambiguous : MatchMethod

abbrev same_method : MatchMethod → MatchMethod → Bool
same_method source_key source_key = true
same_method exact_name exact_name = true
same_method alias alias = true
same_method fuzzy_geo fuzzy_geo = true
same_method fuzzy_strict fuzzy_strict = true
same_method new new = true
same_method ambiguous ambiguous = true
same_method m n = false

pub record Library (F : Type 0) : Type 0 where
  pub normalize_name : String → String
  pub split : String → List String
  pub ratio : String → String → F
  pub radians : F → F
  pub sin : F → F
  pub cos : F → F
  pub asin : F → F
  pub sqrt : F → F

pub record CandidateRestaurant (F : Type 0) : Type 0 where
  pub id : String
  pub name : String
  pub normalized_name : String
  pub lat : F
  pub lng : F
  pub aliases : List String
  pub source_keys : List (String × String)

pub record IncomingPlace (F : Type 0) : Type 0 where
  pub name : String
  pub lat : Option F
  pub lng : Option F
  pub source : Option String
  pub external_id : Option String

pub record ResolutionResult (F : Type 0) : Type 0 where
  pub matched_id : Option String
  pub method : MatchMethod
  pub confidence : F
  pub similarity : F
  pub distance_m : Option F
  pub runner_up_id : Option String
  pub is_ambiguous : Bool

-- A row of `scored`.
pub record Scored (F : Type 0) : Type 0 where
  pub confidence : F
  pub method : MatchMethod
  pub candidate : CandidateRestaurant F
  pub similarity : F
  pub distance : Option F

-- Sets of tokens, as lists without a repetition.
abbrev has_token : String → List String → Bool
has_token t set = any (λ u. str_eq u t) set

abbrev set_of : List String → List String
set_of [] = []
set_of (t ∷ ts) = let rest = set_of ts in if has_token t rest then rest else t ∷ rest

abbrev common : List String → List String → List String
common a b = filter (λ t. has_token t b) a

abbrev union : List String → List String → List String
union a b = a ++ filter (λ t. not (has_token t a)) b

-- `if text`
abbrev pub non_empty : Option String → Option String
non_empty none = none
non_empty (some t) = if str_eq t "" then none else some t

abbrev collect {ℓ κ} : {A : Type ℓ} {B : Type κ} → (A → Option B) → List A → List B
collect g [] = []
collect g (x ∷ xs) = let rest = collect g xs in elim (g x) [ none ↦ rest | some y ↦ y ∷ rest ]

-- `(incoming.source, incoming.external_id)`, where both are there.
abbrev key_of : {F : Type 0} → IncomingPlace F → Option (String × String)
key_of incoming = elim (non_empty incoming.source) [
  | none ↦ none
  | some s ↦ elim (non_empty incoming.external_id) [ none ↦ none | some e ↦ some (s, e) ]
]

-- `key in cand.source_keys`
abbrev has_key : {F : Type 0} → String × String → CandidateRestaurant F → Bool
has_key (s, e) cand = any (λ k. str_eq k.0 s && str_eq k.1 e) cand.source_keys

-- The first candidate with the incoming key.
abbrev pub keyed :
    {F : Type 0} → IncomingPlace F → List (CandidateRestaurant F) → Option (CandidateRestaurant F)
keyed incoming candidates = elim (key_of incoming) [
  | none ↦ none
  | some key ↦ find (has_key key) candidates
]

module _ {F : Type 0} ⦃f : Float F⦄ where
  open f use {lit, of_nat, sub, div, neg, le, round}

  abbrev pub exact_distance_m : F
  exact_distance_m = lit 250 1

  abbrev pub chain_distance_m : F
  chain_distance_m = lit 1000 1

  abbrev pub name_sim_strong : F
  name_sim_strong = lit 92 100

  abbrev pub name_sim_moderate : F
  name_sim_moderate = lit 82 100

  abbrev pub ambiguity_margin : F
  ambiguity_margin = lit 5 100

  abbrev fabs : F → F
  fabs x = if lt x nought then neg x else x

  -- `_within`
  abbrev pub within : Option F → F → Bool
  within none limit = false
  within (some d) limit = le d limit

  abbrev pub is_absent : Option F → Bool
  is_absent none = true
  is_absent (some d) = false

  abbrev share : List String → List String → F
  share part whole = div (of_nat (length part)) (of_nat (length whole))

  abbrev overlap_of : List String → List String → F
  overlap_of [] tb = nought
  overlap_of ta [] = nought
  overlap_of ta tb = share (common ta tb) (union ta tb)

  abbrev containment_of : List String → List String → F
  containment_of [] tb = nought
  containment_of ta [] = nought
  containment_of ta tb =
      if ltb (length tb) (length ta) then share (common tb ta) tb else share (common ta tb) ta

  -- `key=lambda row: (-row[0], row[2].id)`
  abbrev pub stands_before : Scored F → Scored F → Bool
  stands_before a b =
      lt b.confidence a.confidence
      || (eqf a.confidence b.confidence && is_le (compare_str a.candidate.id b.candidate.id))

  abbrev pub is_tie : Scored F → Scored F → Bool
  is_tie best second =
      same_method second.method best.method
      && le (fabs (sub best.confidence second.confidence)) ambiguity_margin

  abbrev matched : Scored F → Option String → ResolutionResult F
  matched best runner_up = record {
    matched_id = some best.candidate.id;
    method = best.method;
    confidence = round (fmin one best.confidence) 3;
    similarity = best.similarity;
    distance_m = best.distance;
    runner_up_id = runner_up;
    is_ambiguous = false;
  }

  abbrev refused : Scored F → Option String → ResolutionResult F
  refused best runner_up = record {
    matched_id = none;
    method = ambiguous;
    confidence = round best.confidence 3;
    similarity = best.similarity;
    distance_m = best.distance;
    runner_up_id = runner_up;
    is_ambiguous = true;
  }

  abbrev unmatched : F → ResolutionResult F
  unmatched confidence = record {
    matched_id = none;
    method = new;
    confidence = confidence;
    similarity = nought;
    distance_m = none;
    runner_up_id = none;
    is_ambiguous = false;
  }

  -- The answer for the sorted `scored`.
  unfoldable pub choose : List (Scored F) → ResolutionResult F
  choose [] = unmatched (lit 30 100)
  choose (best ∷ []) = matched best none
  choose (best ∷ second ∷ rest) =
      if is_tie best second
      then refused best (some second.candidate.id)
      else matched best (some second.candidate.id)

module _ {F : Type 0} ⦃f : Float F⦄ (lib : Library F) where
  open f use {lit, add, sub, mul, div, le, round}

  unfoldable pub haversine_m : F → F → F → F → F
  haversine_m lat1 lng1 lat2 lng2 =
      let p1 = lib.radians lat1 in
      let p2 = lib.radians lat2 in
      let dp = sub p2 p1 in
      let dl = lib.radians (sub lng2 lng1) in
      let s = lib.sin (div dp (lit 2 1)) in
      let t = lib.sin (div dl (lit 2 1)) in
      let a = add (mul s s) (mul (mul (lib.cos p1) (lib.cos p2)) (mul t t)) in
      mul (mul (lit 2 1) (lit 6371000 1)) (lib.asin (lib.sqrt a))

  abbrev pub token_set : String → List String
  token_set text = set_of (filter (λ t. not (str_eq t "")) (lib.split (lib.normalize_name text)))

  unfoldable pub name_similarity : String → String → F
  name_similarity a b =
      let na = lib.normalize_name a in
      let nb = lib.normalize_name b in
      if str_eq na "" || str_eq nb ""
      then nought
      else if str_eq na nb
      then one
      else round
          (fmax (fmax (lib.ratio na nb) (overlap_of (token_set na) (token_set nb)))
            (mul (lit 85 100) (containment_of (token_set na) (token_set nb))))
          4

  -- `_distance`
  unfoldable pub distance_of : IncomingPlace F → CandidateRestaurant F → Option F
  distance_of incoming cand = elim incoming.lat [
    | none ↦ none
    | some lat ↦ elim incoming.lng [
      | none ↦ none
      | some lng ↦ some (haversine_m lat lng cand.lat cand.lng)
    ]
  ]

  abbrev pub alias_hit : String → CandidateRestaurant F → Bool
  alias_hit norm cand = any (λ a. str_eq (lib.normalize_name a) norm) cand.aliases

  -- The loop's body: the row that a candidate adds to `scored`, if any.
  unfoldable pub score_candidate :
      IncomingPlace F → String → CandidateRestaurant F → Option (Scored F)
  score_candidate incoming norm cand =
      let distance = distance_of incoming cand in
      let similarity = name_similarity norm cand.normalized_name in
      let row : F → MatchMethod → F → Option (Scored F) = λ c m s. some (record {
        confidence = c;
        method = m;
        candidate = cand;
        similarity = s;
        distance = distance;
      }) in
      if str_eq cand.normalized_name norm && within distance exact_distance_m
      then row (lit 95 100) exact_name one
      else if alias_hit norm cand && within distance chain_distance_m
      then row (lit 90 100) alias one
      else if le name_sim_moderate similarity && within distance exact_distance_m
      then row (add (lit 60 100) (mul (lit 4 10) similarity)) fuzzy_geo similarity
      else if le name_sim_strong similarity
          && (within distance chain_distance_m || is_absent distance)
      then row (add (lit 55 100) (mul (lit 3 10) similarity)) fuzzy_strict similarity
      else none

  unfoldable pub by_name : IncomingPlace F → List (CandidateRestaurant F) → ResolutionResult F
  by_name incoming candidates =
      let norm = lib.normalize_name incoming.name in
      if str_eq norm ""
      then unmatched nought
      else choose (sort_by stands_before (collect (score_candidate incoming norm) candidates))

  unfoldable pub resolve_candidate :
      IncomingPlace F → List (CandidateRestaurant F) → ResolutionResult F
  resolve_candidate incoming candidates = elim (keyed incoming candidates) [
    | none ↦ by_name incoming candidates
    | some cand ↦ record {
      matched_id = some cand.id;
      method = source_key;
      confidence = one;
      similarity = one;
      distance_m = distance_of incoming cand;
      runner_up_id = none;
      is_ambiguous = false;
    }
  ]
