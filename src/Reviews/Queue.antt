-- ===== src/Reviews/Queue.antt =====
-- backend/app/services/review_service.py, `_queue_moderation`: one item for each review and reason.
pub mod Single
use khaabo.Prelude.{ℕ, ◌+◌, Bool, ◌&&◌, Option, none, some, [], ◌∷◌, ◌++◌, String, find, min, ◌==◌}
use khaabo.Enums.{ModerationReason, ModerationStatus, same_reason}
use khaabo.Store.{ModerationItem, HistoryEntry, queued, Session, update_where}

abbrev pub is_item_of : ℕ → ModerationReason → ModerationItem → Bool
is_item_of review reason i = i.review_id == review && same_reason i.reason reason

-- A repeated report raises the severity, reopens the item and adds to its history.
abbrev pub reopened : HistoryEntry → ModerationItem → ModerationItem
reopened entry i = record i {
  severity = min 5 (i.severity + 1);
  status = ModerationStatus.opened;
  history = i.history ++ (entry ∷ []);
}

abbrev pub new_item :
    ℕ → HistoryEntry → ℕ → ModerationReason → ℕ → Option ℕ → Option String → ModerationItem
new_item id entry review reason severity reporter note = record {
  id = id;
  review_id = review;
  reason = reason;
  status = ModerationStatus.opened;
  severity = severity;
  reporter_user_id = reporter;
  notes = note;
  decided_by = none;
  decided_at = none;
  history = entry ∷ [];
}

module _ {F : Type 0} where
  unfoldable pub queue_found :
      Option ModerationItem
      → HistoryEntry
      → ℕ
      → ModerationReason
      → ℕ
      → Option ℕ
      → Option String
      → Session F
      → Session F
  queue_found (some item) entry _ _ _ _ _ s = record s {
    work = record (s.work) {
      items = update_where (λ i. i.id == item.id) (reopened entry) s.work.items;
    };
  }
  queue_found none entry review reason severity reporter note s = record s {
    work = record (s.work) {
      next_id = s.work.next_id + 1;
      items = new_item s.work.next_id entry review reason severity reporter note ∷ s.work.items;
    };
  }

  unfoldable pub queue_moderation :
      ℕ → ℕ → ModerationReason → ℕ → Option ℕ → Option String → Session F → Session F
  unfolding queue_found
  queue_moderation now review reason severity reporter note s =
      queue_found (find (is_item_of review reason) s.rows.items) (queued now reporter reason note)
        review reason severity reporter note s
