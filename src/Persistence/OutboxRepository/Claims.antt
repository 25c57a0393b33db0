-- ===== src/Persistence/OutboxRepository/Claims.antt =====
-- What `claimPublishable` claims, over the documented behaviour of the model.
use message_management_api.Prelude.{
  ℕ, zero, suc, ◌≤◌, ◌<◌, ◌≡◌, refl, sym, ap, ◌∙◌, ◌⊎◌, inl, inr, false, some, List, [], ◌∷◌, ◌++◌,
  take, filter, map, arith, Option-cases,
}
use mathlib.Core.List.{append_assoc, append-nil}
use message_management_api.Effects.{Result, ok, err, Exception}
use message_management_api.Runtime.{Runtime}
use message_management_api.Domain.{OutboxEvent, ClaimPublishableOutboxEventsInput}
use message_management_api.Persistence.Collection.{IsModel}
use message_management_api.Persistence.Collection.Updates.{
  first, update_first, update_upto, first-none, first-none-update_upto, first-none-filter,
  update_upto-first, filter-first,
}
use message_management_api.Persistence.Schemas.{OutboxEventEntity}
use message_management_api.Persistence.OutboxRepository.{
  OutboxModel, map_outbox_event, is_claimable, claim_update, claim_loop, claim_publishable,
}

-- A claimed event cannot be claimed again at the same moment.
pub claim_update-not_claimable :
    (input : ClaimPublishableOutboxEventsInput) (d : OutboxEventEntity)
    → 0 < input.lock_timeout_ms
    → is_claimable input (claim_update input d) ≡ false
unfolding is_claimable claim_update
claim_update-not_claimable input d h = ground arith

-- The events that a batch of at most n claims among the documents.
abbrev pub claimed_events :
    Runtime → ClaimPublishableOutboxEventsInput → ℕ → List OutboxEventEntity → List OutboxEvent
claimed_events r input n ds =
    take n (map (map_outbox_event r) (map (claim_update input) (filter (is_claimable input) ds)))

abbrev pub claimed_documents :
    ClaimPublishableOutboxEventsInput → ℕ → List OutboxEventEntity → List OutboxEventEntity
claimed_documents input = update_upto (is_claimable input) (claim_update input)

-- Either the batch is returned behind the events `before`, or a call threw after k documents had
-- been claimed.
abbrev pub Claimed :
    {W : Type 0}
    → (W → List OutboxEventEntity)
    → Runtime
    → ClaimPublishableOutboxEventsInput
    → ℕ
    → List OutboxEvent
    → List OutboxEventEntity
    → Result (List OutboxEvent) × W
    → Type 0
Claimed docs r input n before ds out =
    ((out.0 ≡ ok (before ++ claimed_events r input n ds))
      × (docs out.1 ≡ claimed_documents input n ds))
    ⊎ ((e : Exception) × (k : ℕ) × (out.0 ≡ err e)
        × (k ≤ n)
        × (docs out.1 ≡ claimed_documents input k ds))

module _ (r : Runtime) (input : ClaimPublishableOutboxEventsInput)
    (positive : 0 < input.lock_timeout_ms) where
  once : (d : OutboxEventEntity) → is_claimable input (claim_update input d) ≡ false
  once d = claim_update-not_claimable input d positive

  claimed_documents-suc :
      (n : ℕ) (ds : List OutboxEventEntity) (e : OutboxEventEntity)
      → first (is_claimable input) (claim_update input) ds ≡ some e
      → claimed_documents input n (update_first (is_claimable input) (claim_update input) ds)
        ≡ claimed_documents input (suc n) ds
  claimed_documents-suc n ds e h =
      update_upto-first (is_claimable input) (claim_update input) once n ds (rw h)

  claimed_events-suc :
      (n : ℕ) (ds : List OutboxEventEntity) (e : OutboxEventEntity)
      → first (is_claimable input) (claim_update input) ds ≡ some e
      → claimed_events r input (suc n) ds
        ≡ map_outbox_event r e
          ∷ claimed_events r input n (update_first (is_claimable input) (claim_update input) ds)
  claimed_events-suc n ds e h =
      rw (filter-first (is_claimable input) (claim_update input) once ds e h)

  -- One event claimed, and a claim of at most n more, are a claim of at most n + 1.
  Claimed-suc :
      {W : Type 0} (docs : W → List OutboxEventEntity) (n : ℕ) (before : List OutboxEvent)
      (ds : List OutboxEventEntity) (e : OutboxEventEntity) (out : Result (List OutboxEvent) × W)
      → first (is_claimable input) (claim_update input) ds ≡ some e
      → Claimed docs r input n
          (before ++ map_outbox_event r e ∷ [])
          (update_first (is_claimable input) (claim_update input) ds)
          out
      → Claimed docs r input (suc n) before ds out
  Claimed-suc docs n before ds e out h (inl (returned, left)) = inl (
    rw (claimed_events-suc n ds e h) (returned ∙ ap ok (append_assoc before _ _)),
    left ∙ claimed_documents-suc n ds e h,
  )
  Claimed-suc docs n before ds e out h (inr (x, k, thrown, bound, left)) =
      inr (x, suc k, thrown, omega arith, left ∙ claimed_documents-suc k ds e h)

  -- A call that throws has claimed one document or none.
  claimed_documents_one :
      (n : ℕ) (ds : List OutboxEventEntity)
      → (k : ℕ) × (k ≤ suc n)
        × (update_first (is_claimable input) (claim_update input) ds ≡ claimed_documents input k ds)
  claimed_documents_one n ds =
      elim (Option-cases (first (is_claimable input) (claim_update input) ds)) [
        | inl nothing ↦ (0, omega arith, first-none _ _ ds nothing)
        | inr (e, found) ↦ (1, omega arith, claimed_documents-suc 0 ds e found)
      ]

module _ {W : Type 0} (r : Runtime) (model : OutboxModel W) (docs : W → List OutboxEventEntity)
    (laws : IsModel model docs) (input : ClaimPublishableOutboxEventsInput)
    (positive : 0 < input.lock_timeout_ms) where
  claim_loop-Claimed :
      (n : ℕ) (before : List OutboxEvent) (w : W)
      → Claimed docs r input n before (docs w) (claim_loop r model input n before w)
  unfolding claim_loop
  claim_loop-Claimed zero before w = inl (ap ok (sym (append-nil before)), refl)
  claim_loop-Claimed (suc n) before w =
      let w' = (model.find_one_and_update (is_claimable input) (claim_update input) w).1 in
      elim (laws.find_one_and_update (is_claimable input) (claim_update input) w) [
        | inl (answered, updated) ↦
            elim (Option-cases (first (is_claimable input) (claim_update input) (docs w))) [
              | inl nothing ↦
                  let stays = first-none _ _ (docs w) nothing in
                  let empty = first-none-filter _ _ (docs w) nothing in
                  let same = first-none-update_upto _ _ (suc n) (docs w) nothing in
                  rw (answered, nothing)
                    (inl (rw empty (ap ok (sym (append-nil before))), updated ∙ stays ∙ sym same))
              | inr (e, found) ↦
                  rw (answered, found)
                    (Claimed-suc r input positive docs n before (docs w) e _ found (
                      rw (← updated)
                        (claim_loop-Claimed n (before ++ map_outbox_event r e ∷ []) w')))
            ]
        | inr (x, thrown, inl updated) ↦
            let (k, bound, same) = claimed_documents_one r input positive n (docs w) in
            rw thrown (inr (x, k, refl, bound, updated ∙ same))
        | inr (x, thrown, inr stays) ↦ rw thrown (inr (x, 0, refl, omega arith, stays))
      ]

  -- `claimPublishable` claims the first `batchSize` claimable documents by `_id` and no other, each
  -- once, although it looks for them one at a time; it returns them as they were written, in that
  -- order. If a call of the model throws, so does it, and some first k of them have been claimed.
  -- The lock time-out is positive, and the model behaves as documented.
  pub claim_publishable-Claimed :
      (w : W)
      → Claimed docs r input input.batch_size [] (docs w) (claim_publishable r model input w)
  unfolding claim_publishable
  claim_publishable-Claimed w = claim_loop-Claimed input.batch_size [] w
