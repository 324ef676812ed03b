-- ===== src/Ingestion/Slugs.antt =====
-- `_unique_slug`: the first of the numbered slugs that no restaurant of the city has.
pub mod Free
use khaabo.Prelude.{
  ℕ, zero, suc, ◌+◌, ◌≤◌, ◌<◌, ◌≡◌, ◌≢◌, refl, inl, inr, Bool, true, false, not, List, [], ◌∷◌,
  String, any, filter, length, arith, ◌==◌, str_eq, if◌then◌else◌, Bool-cases, eq_iff, eq_refl,
}
use khaabo.Store.{Restaurant}
use khaabo.Ingestion.Model.{Texts, has_slug}

-- The `while` loop, for at most so many rounds: the slug, and the suffix that comes next.
unfoldable pub free_slug : (ℕ → String) → (String → Bool) → ℕ → String → ℕ → String
free_slug numbered taken zero slug suffix = slug
free_slug numbered taken (suc n) slug suffix =
    let next = free_slug numbered taken n (numbered suffix) (suc suffix) in
    if taken slug then next else slug

abbrev pub slug_taken : {F : Type 0} → ℕ → List (Restaurant F) → String → Bool
slug_taken city restaurants slug = any (has_slug city slug) restaurants

unfoldable pub unique_slug : {F : Type 0} → Texts F → ℕ → String → List (Restaurant F) → String
unique_slug texts city name restaurants =
    let base = texts.slugify name in
    free_slug (texts.numbered base) (slug_taken city restaurants) (length restaurants) base 2
