-- ===== src/Outbox/Transitions.antt =====
-- The status transitions that the calls on the outbox make.
use message_management_api.Prelude.{
  ℕ, String, ◌≡◌, refl, ◌⊎◌, inl, inr, Bool, true, List, [], ◌∷◌, arith, Bool-cases,
}
use message_management_api.Runtime.{Runtime}
use message_management_api.Domain.{
  ClaimPublishableOutboxEventsInput, MessageCreatedEvent, OutboxEventStatus, pending, publishing,
  published, failed,
}
use message_management_api.Persistence.Collection.Updates.{update_first, update_all}
use message_management_api.Persistence.Schemas.{OutboxEventEntity}
use message_management_api.Persistence.OutboxRepository.{
  has_status, same_status, is_claimable, claim_update, lock_owner_filter, published_update,
  retry_update, failed_update,
}
use message_management_api.Cli.OutboxMaintenance.{still_failed, redrive_update}
use message_management_api.Outbox.{
  Action, creates, claims, publishes, retries, fails, redrives, expires, apply,
}

-- The statuses that one call can lead to, from each status.
pub data Follows : OutboxEventStatus → OutboxEventStatus → Type 0 where
  stays : {s : OutboxEventStatus} → Follows s s
  claimed : Follows pending publishing
  sent : Follows publishing published
  postponed : Follows publishing pending
  exhausted : Follows publishing failed
  revived : Follows failed pending

-- What no call changes: identity, event id, topic, key, payload and creation time.
abbrev pub content : OutboxEventEntity → ℕ × String × String × String × MessageCreatedEvent × ℕ
content d = (d._id, d.event_id, d.topic, d.key, d.payload, d.created_at)

-- The same document before and after a call.
pub record Moves (d e : OutboxEventEntity) : Type 0 where
  pub follows : Follows d.status e.status
  pub same : content e ≡ content d

-- Document by document.
abbrev pub AllMove : List OutboxEventEntity → List OutboxEventEntity → Type 0
AllMove [] [] = Unit {0}
AllMove (d ∷ ds) (e ∷ es) = Moves d e × AllMove ds es
AllMove _ _ = ⊥

-- The calls that neither insert nor remove a document.
abbrev pub IsUpdate : Action → Type 0
IsUpdate (creates id input) = ⊥
IsUpdate (expires cutoff) = ⊥
IsUpdate _ = Unit {0}

stay : (d : OutboxEventEntity) → Moves d d
stay d = record { follows = stays; same = refl }

all_stay : (ds : List OutboxEventEntity) → AllMove ds ds
all_stay [] = tt
all_stay (d ∷ ds) = (stay d, all_stay ds)

module _ (p : OutboxEventEntity → Bool) (f : OutboxEventEntity → OutboxEventEntity)
    (moves : (d : OutboxEventEntity) → p d ≡ true → Moves d (f d)) where
  update_first-AllMove : (ds : List OutboxEventEntity) → AllMove ds (update_first p f ds)
  update_first-AllMove [] = tt
  update_first-AllMove (d ∷ ds) = elim (Bool-cases (p d)) [
    | inl hit ↦ rw hit (moves d hit, all_stay ds)
    | inr miss ↦ rw miss (stay d, update_first-AllMove ds)
  ]

  update_all-AllMove : (ds : List OutboxEventEntity) → AllMove ds (update_all p f ds)
  update_all-AllMove [] = tt
  update_all-AllMove (d ∷ ds) = elim (Bool-cases (p d)) [
    | inl hit ↦ rw hit (moves d hit, update_all-AllMove ds)
    | inr miss ↦ rw miss (stay d, update_all-AllMove ds)
  ]

of_status :
    (from : OutboxEventStatus) (d : OutboxEventEntity) (to : OutboxEventStatus)
    → has_status from d ≡ true
    → Follows from to
    → Follows d.status to
of_status from d to h step = go from d.status h step
  where
    go : (s t : OutboxEventStatus) → same_status s t ≡ true → Follows s to → Follows t to
    go pending pending h step = step
    go publishing publishing h step = step
    go published published h step = step
    go failed failed h step = step
    go _ _ h step = cc

owner-publishing :
    (r : Runtime) (id by : String) (d : OutboxEventEntity)
    → lock_owner_filter r id by d ≡ true
    → has_status publishing d ≡ true
unfolding lock_owner_filter
owner-publishing r id by d h = ground arith

claimable-cases :
    (input : ClaimPublishableOutboxEventsInput) (d : OutboxEventEntity)
    → is_claimable input d ≡ true
    → (has_status pending d ≡ true) ⊎ (has_status publishing d ≡ true)
unfolding is_claimable
claimable-cases input d h = ground arith

claim-Follows :
    (input : ClaimPublishableOutboxEventsInput) (d : OutboxEventEntity)
    → is_claimable input d ≡ true
    → Follows d.status publishing
claim-Follows input d h = elim (claimable-cases input d h) [
  | inl was ↦ of_status pending d publishing was claimed
  | inr was ↦ of_status publishing d publishing was stays
]

-- A call of the repository or of the CLI that updates documents moves each of them along an edge of
-- the lifecycle, or leaves its status: pending to publishing, publishing to published, pending or
-- failed, failed to pending. It changes no identity, topic, key, payload or creation time, and
-- neither adds nor removes a document. So a published event never changes its status again.
pub apply-AllMove :
    (r : Runtime) (a : Action) (ds : List OutboxEventEntity)
    → IsUpdate a
    → AllMove ds (apply r a ds)
unfolding apply claim_update published_update retry_update failed_update redrive_update
apply-AllMove r (creates id input) ds u = absurd u
apply-AllMove r (claims input) ds u =
    update_first-AllMove (is_claimable input) (claim_update input)
      (λ d h. record { follows = claim-Follows input d h; same = refl }) ds
apply-AllMove r (publishes input) ds u =
    update_first-AllMove (lock_owner_filter r input.id input.locked_by) (published_update input)
      (λ d h. record {
        follows = of_status publishing d published (owner-publishing r _ _ d h) sent;
        same = refl;
      })
      ds
apply-AllMove r (retries input) ds u =
    update_first-AllMove (lock_owner_filter r input.id input.locked_by) (retry_update input)
      (λ d h. record {
        follows = of_status publishing d pending (owner-publishing r _ _ d h) postponed;
        same = refl;
      })
      ds
apply-AllMove r (fails input) ds u =
    update_first-AllMove (lock_owner_filter r input.id input.locked_by) (failed_update input)
      (λ d h. record {
        follows = of_status publishing d failed (owner-publishing r _ _ d h) exhausted;
        same = refl;
      })
      ds
apply-AllMove r (redrives events now) ds u =
    update_all-AllMove (still_failed r events) (redrive_update now)
      (λ d h. record { follows = of_status failed d pending (ground arith) revived; same = refl })
      ds
apply-AllMove r (expires cutoff) ds u = absurd u
