-- ===== src/Tests/Ingestion.antt =====
-- Ingestion on a small catalog: one restaurant, known to Google.
use Prim.Native.String.{len, ◌++◌ as append_text}
use text.Mathlib.TextPositions.{len-append}
use khaabo.Prelude.{
  ℕ, zero, suc, ◌+◌, ◌≡◌, ◌≢◌, refl, ap, true, false, not, ◌&&◌, Option, none, some, [], ◌∷◌,
  String, arith, str_eq, any, All, ◌==◌, is_empty,
}
use khaabo.Prelude.Int.{ℤ, pos}
use khaabo.Float.Fixed.{fixed_float}
use khaabo.Enums.{SourceType}
use khaabo.Store.{Restaurant, update_where}
use khaabo.EntityResolution.{CandidateRestaurant, resolve_candidate, by_name, choose}
use khaabo.Ingestion.Model.{
  RawPlace, RawReview, City, Catalog, Ingest, Outcome, done, violates, Texts, flush, slugs_unique,
  sources_unique, aliases_unique, contents_unique, review_sources_unique, jobs_unique,
}
use khaabo.Ingestion.Slugs.{free_slug, unique_slug, slug_taken}
use khaabo.Ingestion.Slugs.Free.{unique_slug_free}
use khaabo.Ingestion.Mentions.{labels_in, single_hit, hits_from, mention_hits, resolve_mention}
use khaabo.Ingestion.Mentions.Only.{IsNamed, resolve_mention_only}
use khaabo.Ingestion.Places.{Action, add_source}
use khaabo.Ingestion.Places.Upsert.{
  create_restaurant, place_made, place_unambiguous, place_resolved, upsert_place,
}
use khaabo.Ingestion.Places.Upsert.Repeat.{upsert_place_repeat}
use khaabo.Ingestion.Evidence.{
  new_review, known_review, named_in_text, resolve_review_restaurant, insert_review,
  insert_resolved, store_unknown, store_review,
}
use khaabo.Ingestion.Evidence.Stored.{store_review_earned, store_review_repeat}
use khaabo.Tests.Fixtures.{restaurant}
use khaabo.Tests.Resolution.{library}

-- Suffixes in unary.
abbrev marks : ℕ → String
marks zero = "-"
marks (suc n) = append_text "x" (marks n)

abbrev numbered : String → ℕ → String
numbered base n = append_text base (marks n)

len-marks : (n : ℕ) → len (marks n) ≡ n + 1
len-marks zero = refl
len-marks (suc n) = omega (arith, len-append "x" (marks n), len-marks n)

len-numbered : (base : String) (n : ℕ) → len (numbered base n) ≡ len base + (n + 1)
len-numbered base n = omega (arith, len-append base (marks n), len-marks n)

numbered-injective : (base : String) (i j : ℕ) → numbered base i ≡ numbered base j → i ≡ j
numbered-injective base i j h =
    let same : len (numbered base i) ≡ len (numbered base j) = ap len h in
    omega (arith, same, len-numbered base i, len-numbered base j)

numbered-ne : (base : String) (i : ℕ) → numbered base i ≢ base
numbered-ne base i h =
    let same : len (numbered base i) ≡ len base = ap len h in
    omega (arith, same, len-numbered base i)

abbrev pub texts : Texts ℤ
texts = record {
  resolver = library;
  slugify = λ name. name;
  numbered = numbered;
  clean_text = λ text. text;
  place_hash = λ name lat lng address cuisines rating count. name;
  review_fingerprint = λ body author published_at. body;
  signed_simhash = λ body. pos 0;
  has_word = λ key text. str_eq key text;
  id_text = λ id. "7";
  id_of = λ text. 7;
  key_text = λ source slug day hour kind. slug;
}

unique_slug_free_example :
    slug_taken 3 (restaurant ∷ []) (unique_slug texts 3 "wow-momo" (restaurant ∷ [])) ≡ false
unique_slug_free_example =
    unique_slug_free texts 3 "wow-momo" (restaurant ∷ []) numbered-injective numbered-ne

abbrev pub city : City
city = record { id = 3; slug = "kolkata"; active = true }

abbrev pub catalog : Catalog ℤ
catalog = record {
  next_id = 20;
  restaurants = restaurant ∷ [];
  sources = [];
  aliases = [];
  conflicts = [];
  reviews = [];
  review_sources = [];
  jobs = [];
}

abbrev pub session : Ingest ℤ
session = record { work = catalog; rows = catalog; saved = catalog }

-- A new place.
abbrev pub place : RawPlace ℤ
place = record {
  source = SourceType.google;
  external_id = "g1";
  name = "nizams";
  lat = pos 0;
  lng = pos 0;
  details = restaurant.details;
  rating = some (pos 42_000);
  rating_count = some 90;
}

abbrev result_of : {A : Type 0} → Outcome A → A → A
result_of (done a) b = a
result_of (violates c) b = b

abbrev upserted : Option ℕ × Action × Ingest ℤ
upserted = result_of (upsert_place texts 5 city [] place session) (none, Action.skipped, session)

upsert_place-run :
    upsert_place texts 5 city [] place session ≡ done (some 20, Action.created, upserted.2)
unfolding upsert_place resolve_candidate by_name choose place_resolved place_unambiguous place_made
    create_restaurant flush slugs_unique sources_unique aliases_unique contents_unique
    review_sources_unique jobs_unique unique_slug free_slug add_source
upsert_place-run = refl

flush-run : flush upserted.2 ≡ done (record (upserted.2) { rows = upserted.2.work })
unfolding upsert_place resolve_candidate by_name choose place_resolved place_unambiguous place_made
    create_restaurant flush slugs_unique sources_unique aliases_unique contents_unique
    review_sources_unique jobs_unique unique_slug free_slug add_source
flush-run = refl

upsert_place_repeat_example :
    upsert_place texts 6 city [] place (record (upserted.2) { rows = upserted.2.work })
    ≡ done (some 20, Action.skipped, record (upserted.2) { rows = upserted.2.work })
upsert_place_repeat_example =
    upsert_place_repeat texts 5 6 city [] [] place session upserted.2
      (record (upserted.2) { rows = upserted.2.work }) 20 Action.created refl upsert_place-run
      flush-run

abbrev pub candidate : CandidateRestaurant ℤ
candidate = record {
  id = "7";
  name = "arsalan";
  normalized_name = "arsalan";
  lat = pos 0;
  lng = pos 0;
  aliases = [];
  source_keys = [];
}

resolve_mention-run : resolve_mention texts "arsalan" (candidate ∷ []) ≡ some ("7", some "arsalan")
unfolding resolve_mention mention_hits hits_from single_hit
resolve_mention-run = refl

resolve_mention_only_example :
    (any (λ c. str_eq c.id "7" && not (is_empty (labels_in texts "arsalan" c))) (candidate ∷ [])
      ≡ true)
    × All (λ c. IsNamed texts "arsalan" c → c.id ≡ "7") (candidate ∷ [])
resolve_mention_only_example =
    resolve_mention_only texts "arsalan" (candidate ∷ []) "7" (some "arsalan") resolve_mention-run

abbrev pub comment : RawReview ℤ
comment = record {
  source = SourceType.youtube;
  external_id = "y1";
  text = "arsalan";
  published_at = 1;
  title = none;
  author = none;
  rating = none;
  rating_scale = none;
  engagement = pos 0;
  restaurant_hint = none;
  lat = none;
  lng = none;
}

abbrev stored : Option ℕ × Action × Ingest ℤ
stored =
    result_of (store_review texts 5 city none (candidate ∷ []) comment session)
      (none, Action.skipped, session)

store_review-run :
    store_review texts 5 city none (candidate ∷ []) comment session
    ≡ done (some 20, Action.created, stored.2)
unfolding store_review known_review store_unknown resolve_review_restaurant named_in_text
    resolve_mention mention_hits hits_from single_hit insert_resolved insert_review flush
    slugs_unique sources_unique aliases_unique contents_unique review_sources_unique jobs_unique
store_review-run = refl

store_review_earned_example :
    (str_eq "arsalan" "" ≡ false)
    × (known_review texts comment session ≡ none)
    × (target : Restaurant ℤ) × (any (λ x. x.id == target.id) (restaurant ∷ []) ≡ true)
    × (stored.2.work.reviews ≡ new_review texts 5 city comment target 20 ∷ [])
    × (stored.2.work.restaurants
        ≡ update_where
            (λ r. r.id == target.id)
            (λ r. record r { review_count = r.review_count + 1 })
            (restaurant ∷ []))
store_review_earned_example =
    store_review_earned texts 5 city (candidate ∷ []) comment session (some 20) stored.2
      store_review-run

store_review_repeat_example :
    store_review texts 6 city none [] comment stored.2 ≡ done (some 20, Action.skipped, stored.2)
store_review_repeat_example =
    store_review_repeat texts 5 6 city city (candidate ∷ []) [] none comment session (some 20)
      stored.2 refl refl store_review-run
