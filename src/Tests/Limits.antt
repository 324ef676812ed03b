-- ===== src/Tests/Limits.antt =====
-- Five requests of one user, of whom one has been counted, with a limit of three.
use khaabo.Prelude.{ℕ, ◌+◌, ◌-◌, ◌≡◌, refl, true, some, arith, min}
use khaabo.RateLimit.{Client, Settings}
use khaabo.RateLimit.Window.{allowed_of, allowed_of_lem}

-- A store with one key.
abbrev client : Client ℕ
client = record { run_pipeline = λ key window_seconds r. some (r + 1, r + 1) }

abbrev settings : Settings
settings = record {
  rate_limit_enabled = true;
  rate_limit_reviews_per_hour = 3;
  rate_limit_reviews_per_day = 20;
}

allowed_of_lem_example :
    allowed_of settings client "u" "reviews_hour" 3 3_600 true 5 1 ≡ min 5 (3 - 1)
allowed_of_lem_example =
    allowed_of_lem settings client "u" "reviews_hour" 3 3_600 true refl (ground arith) (λ r. r)
      (λ r. (r + 1, refl, refl)) 5 1
