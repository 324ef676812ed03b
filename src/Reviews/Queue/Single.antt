-- ===== src/Reviews/Queue/Single.antt =====
-- `_queue_moderation`: one item for each review and reason, of a bounded severity.
use khaabo.Prelude.{
  ℕ, ◌≤◌, ◌≡◌, refl, sym, ap, ◌∙◌, inl, inr, Bool, true, false, Option, List, ◌∷◌, String, find,
  count, arith, ◌==◌, if◌then◌else◌, All, All-map, All-of_map, Bool-cases, Option-cases, count-map,
  find-none-count,
}
use khaabo.Enums.{ModerationReason, same_reason→eq}
use khaabo.Store.{queued, HistoryEntry, ModerationItem, Store, Session}
use khaabo.Reviews.Queue.{is_item_of, reopened, new_item, queue_found, queue_moderation}

-- No two items for one review and reason, and no severity above five.
pub record IsTidy {F : Type 0} (db : Store F) : Type 0 where
  pub single :
      (review : ℕ) (reason : ModerationReason) → count (is_item_of review reason) db.items ≤ 1
  pub mild : All (λ i. i.severity ≤ 5) db.items

reopened_same :
    (review : ℕ) (reason : ModerationReason) (b : Bool) (entry : HistoryEntry) (i : ModerationItem)
    → is_item_of review reason (if b then reopened entry i else i) ≡ is_item_of review reason i
reopened_same review reason true entry i = refl
reopened_same review reason false entry i = refl

reopened_mild :
    (b : Bool) (entry : HistoryEntry) (i : ModerationItem)
    → i.severity ≤ 5
    → (if b then reopened entry i else i).severity ≤ 5
reopened_mild true entry i h = omega arith
reopened_mild false entry i h = h

-- An added item for a review and reason that had none.
added_single :
    (items : List ModerationItem) (i : ModerationItem)
    → ((u : ℕ) (q : ModerationReason) → count (is_item_of u q) items ≤ 1)
    → count (is_item_of i.review_id i.reason) items ≡ 0
    → (u : ℕ) (q : ModerationReason) → count (is_item_of u q) (i ∷ items) ≤ 1
added_single items i h fresh u q = elim (Bool-cases (is_item_of u q i)) [
  | inl e ↦
      let same_review : i.review_id ≡ u = ground arith in
      let same = same_reason→eq i.reason q (ground arith) in
      let none_yet : count (is_item_of u q) items ≡ 0 =
        ap (λ v. count (is_item_of v q) items) (sym same_review)
        ∙ ap (λ p. count (is_item_of i.review_id p) items) (sym same)
        ∙ fresh in
      ground (arith, none_yet)
  | inr e ↦ ground (arith, h u q)
]

module _ {F : Type 0} (now review : ℕ) (reason : ModerationReason) (severity : ℕ)
    (reporter : Option ℕ) (note : Option String) (s : Session F) where
  abbrev entry : HistoryEntry
  entry = queued now reporter reason note

  abbrev change : ModerationItem → ModerationItem → ModerationItem
  change item i = if i.id == item.id then reopened entry i else i

  pub reviews-queue_moderation :
      (queue_moderation now review reason severity reporter note s).work.reviews ≡ s.work.reviews
  unfolding queue_moderation queue_found
  reviews-queue_moderation = elim (Option-cases (find (is_item_of review reason) s.rows.items)) [
    | inl e ↦ rw e refl
    | inr (item, e) ↦ rw e refl
  ]

  pub queue_moderation-IsTidy :
      s.rows.items ≡ s.work.items
      → severity ≤ 5
      → IsTidy s.work
      → IsTidy (queue_moderation now review reason severity reporter note s).work
  unfolding queue_moderation queue_found
  queue_moderation-IsTidy clean low tidy =
      elim (Option-cases (find (is_item_of review reason) s.rows.items)) [
        | inl e ↦ rw e (record {
          single =
              added_single s.work.items
                (new_item s.work.next_id entry review reason severity reporter note) tidy.single
                (find-none-count (is_item_of review reason) s.work.items (rw clean at e));
          mild = (low, tidy.mild);
        })
        | inr (item, e) ↦ rw e (record {
          single = λ u q.
              rw
                (count-map (is_item_of u q) (change item)
                  (λ i. reopened_same u q (i.id == item.id) entry i) s.work.items)
                (tidy.single u q);
          mild =
              All-of_map (λ i. i.severity ≤ 5) (change item) s.work.items
                (All-map (λ i. i.severity ≤ 5) (λ i. (change item i).severity ≤ 5)
                  (λ i h. reopened_mild (i.id == item.id) entry i h) s.work.items tidy.mild);
        })
      ]
