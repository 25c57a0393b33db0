-- ===== src/Outbox/Leases.antt =====
-- Who may change a document while a publisher holds its lock.
use message_management_api.Prelude.{
  ℕ, ◌+◌, ◌<◌, ◌≡◌, ◌≢◌, refl, ◌⊎◌, inl, inr, String, Bool, true, false, not, some, List, [], ◌∷◌,
  filter, All, arith, Bool-cases, eq_iff,
}
use message_management_api.Runtime.{Runtime}
use message_management_api.Domain.{ClaimPublishableOutboxEventsInput, publishing}
use message_management_api.Persistence.Collection.Updates.{insert_by, update_first, update_all}
use message_management_api.Persistence.Schemas.{OutboxEventEntity}
use message_management_api.Persistence.OutboxRepository.{
  is_claimable, claim_update, lock_owner_filter, published_update, retry_update, failed_update,
}
use message_management_api.Cli.OutboxMaintenance.{
  still_failed, redrive_update, OutboxFailedEventSummary,
}
use message_management_api.Outbox.{
  Action, creates, claims, publishes, retries, fails, redrives, expires, expires_now, new_document,
  by_id, apply, run,
}

-- The document, unchanged, is among the documents.
abbrev pub Holds : OutboxEventEntity → List OutboxEventEntity → Type 0
Holds d [] = ⊥
Holds d (e ∷ ds) = (e ≡ d) ⊎ Holds d ds

module _ (d : OutboxEventEntity) where
  Holds-update_first :
      (p : OutboxEventEntity → Bool) (f : OutboxEventEntity → OutboxEventEntity)
      (ds : List OutboxEventEntity)
      → p d ≡ false
      → Holds d ds
      → Holds d (update_first p f ds)
  Holds-update_first p f (e ∷ ds) h (inl same) = rw (same, h) (inl refl)
  Holds-update_first p f (e ∷ ds) h (inr later) = elim (Bool-cases (p e)) [
    | inl hit ↦ rw hit (inr later)
    | inr miss ↦ rw miss (inr (Holds-update_first p f ds h later))
  ]
  Holds-update_first p f [] h held = absurd held

  Holds-update_all :
      (p : OutboxEventEntity → Bool) (f : OutboxEventEntity → OutboxEventEntity)
      (ds : List OutboxEventEntity)
      → p d ≡ false
      → Holds d ds
      → Holds d (update_all p f ds)
  Holds-update_all p f [] h held = absurd held
  Holds-update_all p f (e ∷ ds) h (inl same) = inl (rw (same, h))
  Holds-update_all p f (e ∷ ds) h (inr later) = inr (Holds-update_all p f ds h later)

  Holds-insert :
      (before : OutboxEventEntity → OutboxEventEntity → Bool) (e : OutboxEventEntity)
      (ds : List OutboxEventEntity)
      → Holds d ds
      → Holds d (insert_by before e ds)
  Holds-insert before e [] held = absurd held
  Holds-insert before e (x ∷ ds) held = elim (Bool-cases (before e x)) [
    | inl first ↦ rw first (inr held)
    | inr later ↦
        rw later
          (elim held [ inl same ↦ inl same | inr rest ↦ inr (Holds-insert before e ds rest) ])
  ]

  Holds-filter :
      (p : OutboxEventEntity → Bool) (ds : List OutboxEventEntity)
      → p d ≡ true
      → Holds d ds
      → Holds d (filter p ds)
  Holds-filter p [] h held = absurd held
  Holds-filter p (e ∷ ds) h (inl same) = rw (same, h) (inl refl)
  Holds-filter p (e ∷ ds) h (inr later) = elim (Bool-cases (p e)) [
    | inl hit ↦ rw hit (inr (Holds-filter p ds h later))
    | inr miss ↦ rw miss (Holds-filter p ds h later)
  ]

-- The action is another's: a claim comes before the lock's time-out has passed, by its own clock
-- and setting, and an acknowledgement names another owner or another document.
abbrev pub Respects : Runtime → OutboxEventEntity → String → ℕ → Action → Type 0
Respects r d owner since (claims input) = input.now < since + input.lock_timeout_ms
Respects r d owner since (publishes input) =
    (input.locked_by ≢ owner) ⊎ (r.object_id input.id ≢ d._id)
Respects r d owner since (retries input) =
    (input.locked_by ≢ owner) ⊎ (r.object_id input.id ≢ d._id)
Respects r d owner since (fails input) = (input.locked_by ≢ owner) ⊎ (r.object_id input.id ≢ d._id)
Respects r d owner since _ = Unit {0}

module _ (r : Runtime) (d : OutboxEventEntity) (owner : String) (since : ℕ)
    (locked_by : d.locked_by ≡ some owner) (locked_at : d.locked_at ≡ some since)
    (status : d.status ≡ publishing) where
  not_owner :
      (id by : String)
      → (by ≢ owner) ⊎ (r.object_id id ≢ d._id)
      → lock_owner_filter r id by d ≡ false
  unfolding lock_owner_filter
  not_owner id by h = rw (locked_by) (ground (arith, eq_iff owner by))

  not_claimable :
      (input : ClaimPublishableOutboxEventsInput)
      → input.now < since + input.lock_timeout_ms
      → is_claimable input d ≡ false
  unfolding is_claimable
  not_claimable input h = rw (locked_at, status) (ground arith)

  not_failed : (events : List OutboxFailedEventSummary) → still_failed r events d ≡ false
  not_failed events = rw status (ground arith)

  not_expired : (cutoff : ℕ) → not (expires_now cutoff d) ≡ true
  not_expired cutoff = rw status (ground arith)

  apply-Holds :
      (a : Action) (ds : List OutboxEventEntity)
      → Respects r d owner since a
      → Holds d ds
      → Holds d (apply r a ds)
  unfolding apply
  apply-Holds (creates id input) ds h held = Holds-insert d by_id (new_document id input) ds held
  apply-Holds (claims input) ds h held =
      Holds-update_first d (is_claimable input) (claim_update input) ds (not_claimable input h) held
  apply-Holds (publishes input) ds h held =
      Holds-update_first d (lock_owner_filter r input.id input.locked_by) (published_update input)
        ds (not_owner input.id input.locked_by h) held
  apply-Holds (retries input) ds h held =
      Holds-update_first d (lock_owner_filter r input.id input.locked_by) (retry_update input) ds
        (not_owner input.id input.locked_by h) held
  apply-Holds (fails input) ds h held =
      Holds-update_first d (lock_owner_filter r input.id input.locked_by) (failed_update input) ds
        (not_owner input.id input.locked_by h) held
  apply-Holds (redrives events now) ds h held =
      Holds-update_all d (still_failed r events) (redrive_update now) ds (not_failed events) held
  apply-Holds (expires cutoff) ds h held =
      Holds-filter d (λ e. not (expires_now cutoff e)) ds (not_expired cutoff) held

  -- While a publisher holds the lock of a document, no history of the other processes changes or
  -- removes it: claims before the lock's time-out has passed, acknowledgements by other owners or
  -- of other documents, creations, redrives and expiries leave the document as it is.
  pub run-Holds :
      (as' : List Action) (ds : List OutboxEventEntity)
      → All (Respects r d owner since) as'
      → Holds d ds
      → Holds d (run r as' ds)
  unfolding run
  run-Holds [] ds h held = held
  run-Holds (a ∷ as') ds (h, hs) held = run-Holds as' (apply r a ds) hs (apply-Holds a ds h held)
