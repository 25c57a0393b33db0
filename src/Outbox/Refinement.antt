-- ===== src/Outbox/Refinement.antt =====
-- The calls of the outbox repository, as actions on the shared documents.
use message_management_api.Prelude.{
  ℕ, zero, suc, ◌≡◌, refl, ◌⊎◌, inl, inr, Bool, true, false, List, [], ◌∷◌, any, ◌==◌,
  if◌then◌else◌, none, some, Option-cases, sym, ◌∙◌, ap, ◌<◌,
}
use message_management_api.Effects.{ok, pure, ◌>>=◌}
use message_management_api.Runtime.{Runtime}
use message_management_api.Domain.{
  ClaimPublishableOutboxEventsInput, MarkPublishedOutboxEventInput, ScheduleOutboxRetryInput,
  MarkFailedOutboxEventInput,
}
use message_management_api.Persistence.Collection.{IsModel, Does}
use message_management_api.Persistence.Collection.Updates.{
  first, update_first, update_upto, update_upto-first, first-none, first-none-update_upto,
}
use message_management_api.Persistence.Schemas.{OutboxEventEntity}
use message_management_api.Persistence.OutboxRepository.{
  OutboxModel, is_claimable, claim_update, lock_owner_filter, published_update, retry_update,
  failed_update, mark_published, schedule_retry, mark_failed,
}
use message_management_api.Persistence.OutboxRepository.Claims.{
  claimed_documents, claim_update-not_claimable,
}
use message_management_api.Outbox.{Action, claims, publishes, retries, fails, apply, run}

counted : (b : Bool) → ((if b then 1 else 0) == 1) ≡ b
counted true = refl
counted false = refl

module _ {W : Type 0} (r : Runtime) (model : OutboxModel W) (docs : W → List OutboxEventEntity)
    (laws : IsModel model docs) where
  answer :
      (p : OutboxEventEntity → Bool) (f : OutboxEventEntity → OutboxEventEntity) (w : W)
      → Does docs
          (model.update_one p f >>= λ matched. pure (matched == 1))
          w
          (any p (docs w))
          (update_first p f (docs w))
  answer p f w = elim (laws.update_one p f w) [
    | inl (answered, updated) ↦ rw answered (inl (ap ok (counted (any p (docs w))), updated))
    | inr (e, thrown, left) ↦ rw thrown (inr (e, refl, left))
  ]

  pub mark_published-Does :
      (w : W) (p : MarkPublishedOutboxEventInput)
      → Does docs
          (mark_published r model p)
          w
          (any (lock_owner_filter r p.id p.locked_by) (docs w))
          (apply r (publishes p) (docs w))
  unfolding mark_published apply
  mark_published-Does w p = answer (lock_owner_filter r p.id p.locked_by) (published_update p) w

  pub schedule_retry-Does :
      (w : W) (s : ScheduleOutboxRetryInput)
      → Does docs
          (schedule_retry r model s)
          w
          (any (lock_owner_filter r s.id s.locked_by) (docs w))
          (apply r (retries s) (docs w))
  unfolding schedule_retry apply
  schedule_retry-Does w s = answer (lock_owner_filter r s.id s.locked_by) (retry_update s) w

  pub mark_failed-Does :
      (w : W) (f : MarkFailedOutboxEventInput)
      → Does docs
          (mark_failed r model f)
          w
          (any (lock_owner_filter r f.id f.locked_by) (docs w))
          (apply r (fails f) (docs w))
  unfolding mark_failed apply
  mark_failed-Does w f = answer (lock_owner_filter r f.id f.locked_by) (failed_update f) w

-- The actions of a batch of n claims.
abbrev pub claim_actions : ClaimPublishableOutboxEventsInput → ℕ → List Action
claim_actions input zero = []
claim_actions input (suc n) = claims input ∷ claim_actions input n

-- A batch is that many single claims, one after another.
pub run-claim_actions :
    (r : Runtime) (input : ClaimPublishableOutboxEventsInput) (n : ℕ) (ds : List OutboxEventEntity)
    → 0 < input.lock_timeout_ms
    → run r (claim_actions input n) ds ≡ claimed_documents input n ds
unfolding run apply
run-claim_actions r input zero ds h = refl
run-claim_actions r input (suc n) ds h =
    run-claim_actions r input n _ h ∙ one_more (Option-cases (first p f ds))
  where
    p : OutboxEventEntity → Bool
    p = is_claimable input

    f : OutboxEventEntity → OutboxEventEntity
    f = claim_update input

    one_more :
        (first p f ds ≡ none) ⊎ ((e : OutboxEventEntity) × (first p f ds ≡ some e))
        → update_upto p f n (update_first p f ds) ≡ update_upto p f (suc n) ds
    one_more (inl nothing) =
        ap (update_upto p f n) (first-none p f ds nothing)
        ∙ first-none-update_upto p f n ds nothing
        ∙ sym (first-none-update_upto p f (suc n) ds nothing)
    one_more (inr (e, found)) =
        update_upto-first p f (λ d. claim_update-not_claimable input d h) n ds (rw found)
