-- ===== src/Outbox/Acknowledgements.antt =====
-- markPublished, scheduleRetry and markFailed of
-- libs/persistence/src/repositories/mongo-outbox.repository.ts, as a publisher relies on them.
use message_management_api.Prelude.{
  ◌≡◌, refl, ap, ◌∙◌, ◌⊎◌, inl, inr, Bool, true, false, String, Option, none, some, List, [], ◌∷◌,
  ◌++◌, any, All, arith, eq_iff, Bool-cases,
}
use message_management_api.Effects.{Io, ok, err, Exception}
use message_management_api.Runtime.{Runtime}
use message_management_api.Domain.{
  MarkPublishedOutboxEventInput, ScheduleOutboxRetryInput, MarkFailedOutboxEventInput,
  OutboxEventStatus, pending, publishing, published, failed,
}
use message_management_api.Persistence.Collection.{IsModel, Does}
use message_management_api.Persistence.Collection.Updates.{update_first}
use message_management_api.Persistence.Schemas.{OutboxEventEntity}
use message_management_api.Persistence.OutboxRepository.{
  OutboxModel, same_status, text_is, lock_owner_filter, published_update, retry_update,
  failed_update, mark_published, schedule_retry, mark_failed,
}
use message_management_api.Outbox.{apply}
use message_management_api.Outbox.Refinement.{
  mark_published-Does, schedule_retry-Does, mark_failed-Does,
}

-- The document of an id is locked by an owner.
abbrev pub Owns : Runtime → String → String → OutboxEventEntity → Type 0
Owns r id owner d = (d._id ≡ r.object_id id) × (d.locked_by ≡ some owner) × (d.status ≡ publishing)

-- One owned document is replaced, in its place, and no other.
abbrev pub Replaced :
    (OutboxEventEntity → Type 0)
    → (OutboxEventEntity → OutboxEventEntity)
    → List OutboxEventEntity
    → List OutboxEventEntity
    → Type 0
Replaced Owned written before after =
    (xs : List OutboxEventEntity) × (d : OutboxEventEntity) × (ys : List OutboxEventEntity)
    × (before ≡ xs ++ d ∷ ys)
    × Owned d
    × (after ≡ xs ++ written d ∷ ys)

-- What an acknowledgement comes to.
abbrev pub Acknowledged :
    {W : Type 0}
    → (W → List OutboxEventEntity)
    → (OutboxEventEntity → Type 0)
    → (OutboxEventEntity → OutboxEventEntity)
    → Io W Bool
    → W
    → Type 0
Acknowledged docs Owned written m w =
    (((m w).0 ≡ ok true) × Replaced Owned written (docs w) (docs (m w).1))
    ⊎ (((m w).0 ≡ ok false) × All (λ d. Owned d → ⊥) (docs w) × (docs (m w).1 ≡ docs w))
    ⊎ ((e : Exception) × ((m w).0 ≡ err e)
        × (Replaced Owned written (docs w) (docs (m w).1) ⊎ (docs (m w).1 ≡ docs w)))

is_text : (o : Option String) (s : String) → text_is o s ≡ true → o ≡ some s
is_text none s h = cc
is_text (some t) s h = ap some ((eq_iff t s).0 h)

text_is_refl : (o : Option String) (s : String) → o ≡ some s → text_is o s ≡ true
text_is_refl none s h = cc
text_is_refl (some t) s h = (eq_iff t s).1 (ground (arith, h))

is_publishing : (s : OutboxEventStatus) → same_status publishing s ≡ true → s ≡ publishing
is_publishing pending h = cc
is_publishing publishing h = refl
is_publishing published h = cc
is_publishing failed h = cc

module _ (r : Runtime) (id owner : String) (d : OutboxEventEntity) where
  filter-Owns : lock_owner_filter r id owner d ≡ true → Owns r id owner d
  unfolding lock_owner_filter
  filter-Owns h = (
    ground (arith, h),
    is_text d.locked_by owner (ground (arith, h)),
    is_publishing d.status (ground (arith, h)),
  )

  Owns-filter : Owns r id owner d → lock_owner_filter r id owner d ≡ true
  unfolding lock_owner_filter
  Owns-filter (same, locked, status) =
      rw status (ground (arith, text_is_refl d.locked_by owner locked))

module _ (r : Runtime) (id owner : String) (written : OutboxEventEntity → OutboxEventEntity) where
  abbrev p : OutboxEventEntity → Bool
  p = lock_owner_filter r id owner

  -- The update by the filter of the repository.
  update_first-cases :
      (ds : List OutboxEventEntity)
      → ((any p ds ≡ true) × Replaced (Owns r id owner) written ds (update_first p written ds))
        ⊎ ((any p ds ≡ false)
            × All (λ d. Owns r id owner d → ⊥) ds
            × (update_first p written ds ≡ ds))
  update_first-cases [] = inr (refl, tt, refl)
  update_first-cases (d ∷ ds) = elim (Bool-cases (p d)) [
    | inl hit ↦ rw hit (inl (refl, ([], d, ds, refl, filter-Owns r id owner d hit, refl)))
    | inr miss ↦ rw miss (elim (update_first-cases ds) [
      | inl (found, (xs, e, ys, before, owned, after)) ↦
          inl (found, (d ∷ xs, e, ys, ap (◌∷◌ d) before, owned, ap (◌∷◌ d) after))
      | inr (absent, others, same) ↦ inr (
        absent,
        ((λ owned. let hit = Owns-filter r id owner d owned in cc), others),
        ap (◌∷◌ d) same,
      )
    ])
  ]

  Does-Acknowledged :
      {W : Type 0} (docs : W → List OutboxEventEntity) (m : Io W Bool) (w : W)
      → Does docs m w (any p (docs w)) (update_first p written (docs w))
      → Acknowledged docs (Owns r id owner) written m w
  Does-Acknowledged docs m w h = elim (update_first-cases (docs w)) [
    | inl (found, changed) ↦ elim h [
      | inl (answered, after) ↦ inl (answered ∙ ap ok found, rw after changed)
      | inr (e, thrown, inl after) ↦ inr (inr (e, thrown, inl (rw after changed)))
      | inr (e, thrown, inr left) ↦ inr (inr (e, thrown, inr left))
    ]
    | inr (absent, others, same) ↦ elim h [
      | inl (answered, after) ↦ inr (inl (answered ∙ ap ok absent, others, after ∙ same))
      | inr (e, thrown, inl after) ↦ inr (inr (e, thrown, inr (after ∙ same)))
      | inr (e, thrown, inr left) ↦ inr (inr (e, thrown, inr left))
    ]
  ]

module _ {W : Type 0} (r : Runtime) (model : OutboxModel W) (docs : W → List OutboxEventEntity)
    (laws : IsModel model docs) where
  -- Each acknowledgement answers true exactly if the document of its id is publishing under its
  -- owner's lock; then this document alone is replaced, by the published, the postponed or the failed
  -- one, without a lock; and else nothing is changed. So it is for `markPublished`, `scheduleRetry`
  -- and `markFailed`; a call that throws has replaced an owned document so, or changed nothing. The
  -- model behaves as documented.
  pub acknowledgements-Acknowledged :
      (w : W) (p : MarkPublishedOutboxEventInput) (s : ScheduleOutboxRetryInput)
      (f : MarkFailedOutboxEventInput)
      → Acknowledged docs
          (Owns r p.id p.locked_by)
          (λ d. record d {
            status = published;
            published_at = some p.published_at;
            last_error = none;
            locked_at = none;
            locked_by = none;
          })
          (mark_published r model p)
          w
        × Acknowledged docs
            (Owns r s.id s.locked_by)
            (λ d. record d {
              status = pending;
              attempts = s.attempts;
              next_attempt_at = s.next_attempt_at;
              last_error = some s.last_error;
              locked_at = none;
              locked_by = none;
            })
            (schedule_retry r model s)
            w
        × Acknowledged docs
            (Owns r f.id f.locked_by)
            (λ d. record d {
              status = failed;
              attempts = f.attempts;
              next_attempt_at = f.failed_at;
              last_error = some f.last_error;
              locked_at = none;
              locked_by = none;
            })
            (mark_failed r model f)
            w
  unfolding apply published_update retry_update failed_update
  acknowledgements-Acknowledged w p s f = (
    Does-Acknowledged r p.id p.locked_by (published_update p) docs (mark_published r model p) w
        (mark_published-Does r model docs laws w p),
    Does-Acknowledged r s.id s.locked_by (retry_update s) docs (schedule_retry r model s) w
        (schedule_retry-Does r model docs laws w s),
    Does-Acknowledged r f.id f.locked_by (failed_update f) docs (mark_failed r model f) w
        (mark_failed-Does r model docs laws w f),
  )
