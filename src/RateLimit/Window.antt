-- ===== src/RateLimit/Window.antt =====
-- How many requests `check_rate_limit` lets through.
use khaabo.Prelude.{
  ℕ, zero, suc, ◌+◌, ◌-◌, ◌≡◌, ◌<◌, Bool, true, false, some, String, arith, ltb, min, if◌then◌else◌,
}
use khaabo.RateLimit.{Client, Settings, Outcome, answer, rate_limited, key_of, check_rate_limit}

abbrev pub is_allowed : Outcome → Bool
is_allowed (answer b n) = b
is_allowed rate_limited = false

module _ {R : Type 0} (settings : Settings) (c : Client R) (identity bucket : String)
    (limit window_seconds : ℕ) (raise_on_exceed : Bool) where
  abbrev pub check : R → Outcome × R
  check r =
      check_rate_limit settings (some c) identity bucket limit window_seconds raise_on_exceed r

  -- How many of so many requests in a row are let through.
  abbrev pub allowed_of : ℕ → R → ℕ
  allowed_of zero r = 0
  allowed_of (suc n) r =
      let rest = allowed_of n (check r).1 in (if is_allowed (check r).0 then 1 else 0) + rest

  -- `INCR` adds one to the key's count and answers with the sum, while the key does not expire.
  abbrev pub Counts : (R → ℕ) → Type 0
  Counts counted =
      (r : R)
      → (next : R) × (c.run_pipeline (key_of bucket identity) window_seconds r
          ≡ some (counted r + 1, next))
        × (counted next ≡ counted r + 1)

  module _ (enabled : settings.rate_limit_enabled ≡ true) (positive : 0 < limit) (counted : R → ℕ)
      (counts : Counts counted) where
    check_one :
        (r : R)
        → (is_allowed (check r).0 ≡ ltb (counted r) limit) × (counted (check r).1 ≡ counted r + 1)
    unfolding check_rate_limit
    check_one r =
        let (next, told, one_more) = counts r in
        rw (enabled, told) (ground (arith, positive, one_more), ground (arith, positive, one_more))

    -- While the key does not expire, exactly as many of the requests in a row are let through as the
    -- limit has left.
    pub allowed_of_lem : (n : ℕ) (r : R) → allowed_of n r ≡ min n (limit - counted r)
    allowed_of_lem zero r = ground arith
    allowed_of_lem (suc n) r =
        ground (arith, (check_one r).0, (check_one r).1, allowed_of_lem n (check r).1)
