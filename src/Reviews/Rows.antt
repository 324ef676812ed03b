-- ===== src/Reviews/Rows.antt =====
-- backend/app/services/review_service.py: how its functions reach rows of the session.
use khaabo.Prelude.{ℕ, Bool, List, find, ◌==◌}
use khaabo.Store.{Profile, Review, Session, not_found, Result, ◌>>=◌, or_raise, IdText, parse_uuid}

abbrev pub is_profile_of : ℕ → Profile → Bool
is_profile_of user p = p.user_id == user

module _ {F : Type 0} where
  abbrev pub has_id : ℕ → Review F → Bool
  has_id id r = r.id == id

  abbrev pub set_reviews : (List (Review F) → List (Review F)) → Session F → Session F
  set_reviews g s = record s { work = record (s.work) { reviews = g s.work.reviews } }

  abbrev pub set_profiles : (List Profile → List Profile) → Session F → Session F
  set_profiles g s = record s { work = record (s.work) { profiles = g s.work.profiles } }

  -- `session.execute(update(Profile)...)`: at once in the database, and in the loaded objects.
  abbrev pub update_profiles : (List Profile → List Profile) → Session F → Session F
  update_profiles g s = record {
    rows = record (s.rows) { profiles = g s.rows.profiles };
    work = record (s.work) { profiles = g s.work.profiles };
  }

  unfoldable pub get_review_or_404 : IdText → Session F → Result (Review F)
  get_review_or_404 text s = do
    id ← parse_uuid text not_found
    or_raise (find (has_id id) s.work.reviews) not_found
