-- ===== src/Tests/Resolution.antt =====
-- An incoming place with the name of one of two candidates, at the same coordinates.
use mathlib.Core.List.{Memᴰ}
use khaabo.Prelude.{◌≡◌, refl, none, some, List, [], ◌∷◌, String, false, All, take, sort_by}
use khaabo.Prelude.Int.{ℤ, pos}
use khaabo.Float.{◌≼◌}
use khaabo.Float.Fixed.{fixed_float, Fixed-IsFloat}
use khaabo.EntityResolution.{
  Library, CandidateRestaurant, IncomingPlace, Scored, stands_before, is_tie, resolve_candidate,
  by_name, choose, score_candidate, name_similarity, distance_of, haversine_m,
}
use khaabo.EntityResolution.Earned.{Earned, resolve_candidate-IsFounded}
use khaabo.EntityResolution.Best.{rows_of, resolve_candidate_best}

-- Names that are folded already, of one word; a flat earth.
abbrev pub library : Library ℤ
library = record {
  normalize_name = λ name. name;
  split = λ name. name ∷ [];
  ratio = λ a b. pos 5000;
  radians = λ x. x;
  sin = λ x. x;
  cos = λ x. pos 10_000;
  asin = λ x. x;
  sqrt = λ x. x;
}

abbrev restaurant : String → String → CandidateRestaurant ℤ
restaurant id name = record {
  id = id;
  name = name;
  normalized_name = name;
  lat = pos 0;
  lng = pos 0;
  aliases = [];
  source_keys = [];
}

abbrev candidates : List (CandidateRestaurant ℤ)
candidates = restaurant "a" "arsalan" ∷ restaurant "b" "nizams" ∷ []

abbrev place : IncomingPlace ℤ
place = record {
  name = "nizams";
  lat = some (pos 0);
  lng = some (pos 0);
  source = none;
  external_id = none;
}

resolve_candidate-run : (resolve_candidate library place candidates).matched_id ≡ some "b"
unfolding resolve_candidate by_name choose score_candidate name_similarity distance_of haversine_m
resolve_candidate-run = refl

resolve_candidate-IsFounded_example :
    (cand : CandidateRestaurant ℤ) × Memᴰ cand candidates
    × (cand.id ≡ "b")
    × Earned library place (resolve_candidate library place candidates).method cand
resolve_candidate-IsFounded_example =
    resolve_candidate-IsFounded library place candidates "b" resolve_candidate-run

resolve_candidate_best_example :
    (best : Scored ℤ) × (rest : List (Scored ℤ)) × (sort_by stands_before
        (rows_of library place candidates)
      ≡ best ∷ rest)
    × (best.candidate.id ≡ "b")
    × (best.method ≡ (resolve_candidate library place candidates).method)
    × All (λ second. is_tie best second ≡ false) (take 1 rest)
    × All (λ row. row.confidence ≼ best.confidence) (rows_of library place candidates)
resolve_candidate_best_example =
    resolve_candidate_best Fixed-IsFloat library place candidates "b" refl resolve_candidate-run
