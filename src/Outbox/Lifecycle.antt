-- ===== src/Outbox/Lifecycle.antt =====
-- The invariant of the outbox documents, over every history of the processes.
use message_management_api.Prelude.{
  ℕ, ◌≡◌, ◌⊎◌, inl, inr, Bool, true, false, not, List, [], ◌∷◌, All, is_some, arith, Bool-cases,
}
use message_management_api.Runtime.{Runtime}
use message_management_api.Domain.{publishing, published, failed, CreateOutboxEventInput}
use message_management_api.Persistence.Collection.Updates.{
  insert_by, update_first-All, update_all-All, filter-All,
}
use message_management_api.Persistence.Schemas.{OutboxEventEntity}
use message_management_api.Persistence.OutboxRepository.{
  has_status, is_claimable, claim_update, lock_owner_filter, published_update, retry_update,
  failed_update,
}
use message_management_api.Cli.OutboxMaintenance.{still_failed, redrive_update}
use message_management_api.Outbox.{
  Action, creates, claims, publishes, retries, fails, redrives, expires, expires_now, new_document,
  by_id, apply, run,
}

-- A document is locked, with an owner and a time, exactly while it is being published; it has a
-- publication time exactly once it is published; and a failed one says why.
pub record IsValid (d : OutboxEventEntity) : Type 0 where
  pub owner : is_some d.locked_by ≡ has_status publishing d
  pub locked : is_some d.locked_at ≡ has_status publishing d
  pub dated : is_some d.published_at ≡ has_status published d
  pub explained : (has_status failed d ≡ false) ⊎ (is_some d.last_error ≡ true)

insert-All :
    (P : OutboxEventEntity → Type 0) (before : OutboxEventEntity → OutboxEventEntity → Bool)
    (d : OutboxEventEntity) (ds : List OutboxEventEntity)
    → P d
    → All P ds
    → All P (insert_by before d ds)
insert-All P before d [] h hs = (h, tt)
insert-All P before d (e ∷ ds) h (k, hs) = elim (Bool-cases (before d e)) [
  | inl first ↦ rw first (h, (k, hs))
  | inr later ↦ rw later (k, insert-All P before d ds h hs)
]

new_document-IsValid : (id : ℕ) (input : CreateOutboxEventInput) → IsValid (new_document id input)
new_document-IsValid id input = ground arith

apply-IsValid :
    (r : Runtime) (a : Action) (ds : List OutboxEventEntity)
    → All IsValid ds
    → All IsValid (apply r a ds)
unfolding apply is_claimable claim_update published_update retry_update failed_update redrive_update
    lock_owner_filter
apply-IsValid r (creates id input) ds h =
    insert-All IsValid by_id (new_document id input) ds (new_document-IsValid id input) h
apply-IsValid r (claims input) ds h =
    update_first-All IsValid (is_claimable input) (claim_update input) (λ d e v. ground arith) ds h
apply-IsValid r (publishes input) ds h =
    update_first-All IsValid (lock_owner_filter r input.id input.locked_by) (published_update input)
      (λ d e v. ground arith) ds h
apply-IsValid r (retries input) ds h =
    update_first-All IsValid (lock_owner_filter r input.id input.locked_by) (retry_update input)
      (λ d e v. ground arith) ds h
apply-IsValid r (fails input) ds h =
    update_first-All IsValid (lock_owner_filter r input.id input.locked_by) (failed_update input)
      (λ d e v. ground arith) ds h
apply-IsValid r (redrives events now) ds h =
    update_all-All IsValid (still_failed r events) (redrive_update now) (λ d e v. ground arith) ds h
apply-IsValid r (expires cutoff) ds h = filter-All IsValid (λ d. not (expires_now cutoff d)) ds h

run-IsValid_from :
    (r : Runtime) (as' : List Action) (ds : List OutboxEventEntity)
    → All IsValid ds
    → All IsValid (run r as' ds)
unfolding run
run-IsValid_from r [] ds h = h
run-IsValid_from r (a ∷ as') ds h = run-IsValid_from r as' (apply r a ds) (apply-IsValid r a ds h)

-- After any history of creations, claims, acknowledgements, retries, failures, redrives and
-- expiries that begins with an empty collection, every document is locked by an owner at a time
-- exactly while it is publishing, has a publication time exactly if it is published, and has an
-- error text if it failed.
pub run-IsValid : (r : Runtime) (as' : List Action) → All IsValid (run r as' [])
run-IsValid r as' = run-IsValid_from r as' [] tt
