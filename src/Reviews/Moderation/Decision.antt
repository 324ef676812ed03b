-- ===== src/Reviews/Moderation/Decision.antt =====
-- What the actions of a moderator mean.
use khaabo.Prelude.{◌≡◌, sym, ap, ◌⊎◌, inl, inr, String, str_eq, eq_iff, Bool-cases}
use khaabo.Enums.{ReviewStatus, ModerationStatus}
use khaabo.Store.{Error, Result, ok, err, ok-injective}
use khaabo.Reviews.Moderation.{apply_action}

-- What an action means: the status of the review after it, from the one before, and of the item.
abbrev pub IsDecision : String → ReviewStatus → ReviewStatus → ModerationStatus → Type 0
IsDecision action before after item_status =
    ((action ≡ "publish")
      × (after ≡ ReviewStatus.published)
      × (item_status ≡ ModerationStatus.resolved))
    ⊎ (((action ≡ "reject")
          × (after ≡ ReviewStatus.rejected)
          × (item_status ≡ ModerationStatus.resolved))
        ⊎ (((action ≡ "flag")
              × (after ≡ ReviewStatus.flagged)
              × (item_status ≡ ModerationStatus.opened))
            ⊎ ((action ≡ "dismiss")
                × (after ≡ before)
                × (item_status ≡ ModerationStatus.dismissed))))

ok-ne-err : {P : Type 0} {A : Type 0} {x : A} {e : Error} → err e ≡ ok x → P
ok-ne-err h = cc

statuses_of :
    {P : Type 0} (next after : ReviewStatus) (s item_status : ModerationStatus)
    → P
    → ◌≡◌ {A = Result (ReviewStatus × ModerationStatus)} (ok (next, s)) (ok (after, item_status))
    → P × (after ≡ next) × (item_status ≡ s)
statuses_of next after s item_status p h =
    let same = ok-injective h in
    (
      p,
      sym (ap (λ (x : ReviewStatus × ModerationStatus). x.0) same),
      sym (ap (λ (x : ReviewStatus × ModerationStatus). x.1) same),
    )

pub apply_action-IsDecision :
    (action : String) (before after : ReviewStatus) (item_status : ModerationStatus)
    → apply_action action before ≡ ok (after, item_status)
    → IsDecision action before after item_status
unfolding apply_action
apply_action-IsDecision action before after item_status h =
    elim (Bool-cases (str_eq action "publish")) [
      | inl e ↦ inl (statuses_of _ after _ item_status ((eq_iff action "publish").0 e) (rw e at h))
      | inr e ↦ inr (elim (Bool-cases (str_eq action "reject")) [
        | inl d ↦
            inl (statuses_of _ after _ item_status ((eq_iff action "reject").0 d) (rw (e, d) at h))
        | inr d ↦ inr (elim (Bool-cases (str_eq action "flag")) [
          | inl c ↦
              inl
                (statuses_of _ after _ item_status ((eq_iff action "flag").0 c) (rw (e, d, c) at h))
          | inr c ↦ inr (elim (Bool-cases (str_eq action "dismiss")) [
            | inl b ↦
                statuses_of before after _ item_status ((eq_iff action "dismiss").0 b)
                  (rw (e, d, c, b) at h)
            | inr b ↦ ok-ne-err (rw (e, d, c, b) at h)
          ])
        ])
      ])
    ]
