-- ===== src/RateLimit.antt =====
-- backend/app/core/rate_limit.py: the fixed window of requests.
-- The Redis client is a parameter: `run_pipeline` is the `INCR` and the `EXPIRE` of a key, which
-- answers with the new count, or raises.
pub mod Window
use khaabo.Prelude.{
  ℕ, ◌-◌, Bool, true, false, not, ◌||◌, Option, none, some, String, leb, ltb, if◌then◌else◌,
}
use Prim.Native.String.{◌++◌}

pub record Client (R : Type 0) : Type 0 where
  pub run_pipeline : String → ℕ → R → Option (ℕ × R)

pub record Settings : Type 0 where
  pub rate_limit_enabled : Bool
  pub rate_limit_reviews_per_hour : ℕ
  pub rate_limit_reviews_per_day : ℕ

-- The pair that is returned, or `RateLimitedError`.
pub data Outcome : Type 0 where
  answer : Bool → ℕ → Outcome
  rate_limited : Outcome

abbrev pub key_of : String → String → String
key_of bucket identity = "rl:" ++ bucket ++ ":" ++ identity

module _ {R : Type 0} where
  -- What the new count means: `none` is the `except` branch, which fails open.
  abbrev pub outcome_of : ℕ → Bool → Option (ℕ × R) → R → Outcome × R
  outcome_of limit raise_on_exceed none r = (answer true limit, r)
  outcome_of limit raise_on_exceed (some (count, next)) r =
      if ltb limit count
      then (if raise_on_exceed then (rate_limited, next) else (answer false 0, next))
      else (answer true (limit - count), next)

  pub check_rate_limit :
      Settings → Option (Client R) → String → String → ℕ → ℕ → Bool → R → Outcome × R
  check_rate_limit settings client identity bucket limit window_seconds raise_on_exceed r =
      if not settings.rate_limit_enabled || leb limit 0
      then (answer true limit, r)
      else elim client [
        | none ↦ (answer true limit, r)
        | some c ↦
            outcome_of limit raise_on_exceed
              (c.run_pipeline (key_of bucket identity) window_seconds r) r
      ]

  -- The second check runs only if the first one does not raise.
  abbrev then_day : Settings → Option (Client R) → String → Outcome × R → Outcome × R
  then_day settings client user_id (rate_limited, r) = (rate_limited, r)
  then_day settings client user_id (answer b n, r) =
      check_rate_limit settings client user_id "reviews_day" settings.rate_limit_reviews_per_day
        86_400 true r

  pub check_review_limits : Settings → Option (Client R) → String → R → Outcome × R
  check_review_limits settings client user_id r = then_day settings client user_id (
      check_rate_limit settings client user_id "reviews_hour" settings.rate_limit_reviews_per_hour
        3_600 true r)
