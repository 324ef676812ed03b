-- ===== src/Tests/Badges.antt =====
-- The theorems on badges and points, at a store with one author.
use khaabo.Prelude.{◌≡◌, refl, []}
use khaabo.Store.{flush}
use khaabo.Gamification.{refresh_badges}
use khaabo.Gamification.Badges.{refresh_badges_idem}
use khaabo.Tests.Fixtures.{session}

refresh_badges_idem_example :
    refresh_badges 1 (flush (refresh_badges 1 session).0) ≡ (flush (refresh_badges 1 session).0, [])
refresh_badges_idem_example = refresh_badges_idem 1 session refl
