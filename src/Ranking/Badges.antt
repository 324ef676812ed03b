-- ===== src/Ranking/Badges.antt =====
-- backend/app/services/ranking.py, `assign_badges` and `aggregate_dish_score`. The code marks the
-- entries in place; here the marked list is returned.
pub mod Greatest
pub mod BestValue
pub mod Lengths
use khaabo.Prelude.{
  ℕ, zero, suc, ◌+◌, ◌-◌, ◌/◌, Bool, true, false, ◌&&◌, not, Option, none, some, List, [], ◌∷◌, map,
  leb, if◌then◌else◌, length, take, filter, sort_by, get_or, modify_at, any,
}
use khaabo.Float.{Float, nought, lt, fmean}
use khaabo.Enums.{is_ranked_status}
use khaabo.Ranking.Model.{RankedEntry, DishScoreResult}

module _ {F : Type 0} ⦃f : Float F⦄ where
  open f use {lit, le, round}

  abbrev pub is_ranked : RankedEntry F → Bool
  is_ranked e = is_ranked_status e.result.status

  -- `max(pool, key=key)` over the entries of a pool: the position of the first greatest one. A
  -- later entry takes its place only if its key is strictly greater.
  abbrev challenge : Option (ℕ × F) → ℕ → F → Option (ℕ × F)
  challenge none i key = some (i, key)
  challenge (some (j, best)) i key = if lt best key then some (i, key) else some (j, best)

  unfoldable pub first_max :
      (RankedEntry F → Bool)
      → (RankedEntry F → F)
      → ℕ
      → Option (ℕ × F)
      → List (RankedEntry F)
      → Option (ℕ × F)
  first_max pool key i best [] = best
  first_max pool key i best (e ∷ es) =
      first_max pool key (suc i) (if pool e then challenge best i (key e) else best) es

  abbrev pub value_or_nought : Option F → F
  value_or_nought none = nought
  value_or_nought (some v) = v

  abbrev pub has_value : RankedEntry F → Bool
  has_value e = elim e.result.value_score [ none ↦ false | some v ↦ true ]

  abbrev pub is_valued : RankedEntry F → Bool
  is_valued e = is_ranked e && has_value e

  abbrev pub value_key : RankedEntry F → F
  value_key e = value_or_nought e.result.value_score

  abbrev pub is_sampled : RankedEntry F → Bool
  is_sampled e = is_ranked e && leb 5 e.result.mention_count

  abbrev pub set_best_value : RankedEntry F → RankedEntry F
  set_best_value e = record e { result = record (e.result) { is_best_value = true } }

  abbrev pub set_most_consistent : RankedEntry F → RankedEntry F
  set_most_consistent e = record e { result = record (e.result) { is_most_consistent = true } }

  abbrev pub set_hidden_gem : RankedEntry F → RankedEntry F
  set_hidden_gem e = record e { result = record (e.result) { is_hidden_gem = true } }

  abbrev pub mark_at :
      (RankedEntry F → RankedEntry F) → Option (ℕ × F) → List (RankedEntry F) → List (RankedEntry F)
  mark_at set none entries = entries
  mark_at set (some (i, key)) entries = modify_at i set entries

  pub mark_best_value : List (RankedEntry F) → List (RankedEntry F)
  mark_best_value entries =
      mark_at set_best_value (first_max is_valued value_key 0 none entries) entries

  pub mark_most_consistent : List (RankedEntry F) → List (RankedEntry F)
  mark_most_consistent entries =
      mark_at set_most_consistent (first_max is_sampled (λ e. e.result.consistency) 0 none entries)
        entries

  -- `sorted(e.result.mention_count for e in ranked)`
  abbrev pub ranked_counts : List (RankedEntry F) → List ℕ
  ranked_counts entries = sort_by leb (map (λ e. e.result.mention_count) (filter is_ranked entries))

  abbrev pub is_gem : ℕ → RankedEntry F → Bool
  is_gem cutoff e =
      is_ranked e
      && (le (lit 85 100) e.result.observed_positivity
          && (le (lit 60 100) e.result.consistency && leb e.result.mention_count cutoff))

  pub mark_hidden_gems : List (RankedEntry F) → List (RankedEntry F)
  mark_hidden_gems entries =
      let counts = ranked_counts entries in
      let cutoff = get_or counts (length counts / 3 - 1) 0 in
      if leb 3 (length counts)
      then map (λ e. if is_gem cutoff e then set_hidden_gem e else e) entries
      else entries

  pub assign_badges : List (RankedEntry F) → List (RankedEntry F)
  assign_badges entries =
      if any is_ranked entries
      then mark_hidden_gems (mark_most_consistent (mark_best_value entries))
      else entries

  -- `[s for s in restaurant_scores if s is not None]`
  abbrev given_scores : List (Option F) → List F
  given_scores [] = []
  given_scores (none ∷ ss) = given_scores ss
  given_scores (some s ∷ ss) = s ∷ given_scores ss

  pub aggregate_dish_score : ℕ → List (Option F) → Option F
  aggregate_dish_score limit scores =
      elim (take limit (sort_by (λ a b. le b a) (given_scores scores))) [
        | [] ↦ none
        | s ∷ ss ↦ some (round (fmean (s ∷ ss)) 3)
      ]
