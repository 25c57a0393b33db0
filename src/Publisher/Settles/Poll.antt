-- ===== src/Publisher/Settles/Poll.antt =====
-- A whole poll that finds one due event, and the polls that follow.
use message_management_api.Prelude.{
  ℕ, zero, suc, ◌≤◌, ◌<◌, ◌≡◌, refl, ap, ◌∙◌, true, none, some, List, [], ◌∷◌, ◌++◌, All, arith,
}
use message_management_api.Effects.{Result, ok}
use message_management_api.Runtime.{Runtime}
use message_management_api.Domain.{OutboxEvent, pending, ClaimPublishableOutboxEventsInput}
use message_management_api.Persistence.Collection.{IsModel}
use message_management_api.Persistence.Collection.Updates.{first, update_first, first-none}
use message_management_api.Persistence.Schemas.{OutboxEventEntity}
use message_management_api.Persistence.OutboxRepository.{
  OutboxModel, map_outbox_event, is_claimable, claim_update, claim_loop, claim_publishable,
  get_pending_stats, has_status, earlier_created,
}
use message_management_api.Persistence.OutboxRepository.Claims.{claim_update-not_claimable}
use message_management_api.Publisher.{
  Publisher, publish_event, publish_events, update_pending_metrics, run_once,
}
use message_management_api.Publisher.Refinement.{LeavesOutbox, over}
use message_management_api.Publisher.Polls.{claim_input, get_pending_stats-same}
use message_management_api.Publisher.Settles.Around.{
  update_first-around, first-around, first-around_none, first-none_of, IsSettled,
  settled-not_claimable,
}
use message_management_api.Publisher.Settles.Attempt.{
  Answers, IsReliable, Does-answered, IsBroughtOn, publish_event-Ends,
}

module _ {W : Type 0} (r : Runtime) (model : OutboxModel W) (docs : W → List OutboxEventEntity)
    (laws : IsModel model docs) (p : Publisher W) (leaves : LeavesOutbox p docs)
    (reliable : IsReliable model p) (input : ClaimPublishableOutboxEventsInput)
    (positive : 0 < input.lock_timeout_ms) (front rest : List OutboxEventEntity)
    (settled : All IsSettled front) (settled_rest : All IsSettled rest)
    (d : OutboxEventEntity) where
  -- One round of the claim.
  find :
      (v : W)
      → let m = model.find_one_and_update (is_claimable input) (claim_update input) in
        ((m v).0 ≡ ok (first (is_claimable input) (claim_update input) (docs v)))
        × (docs (m v).1 ≡ update_first (is_claimable input) (claim_update input) (docs v))
  find v =
      let m = model.find_one_and_update (is_claimable input) (claim_update input) in
      Does-answered docs m v _ _
        (reliable.find_one_and_update (is_claimable input) (claim_update input) v)
        (laws.find_one_and_update (is_claimable input) (claim_update input) v)

  nothing_left :
      first (is_claimable input) (claim_update input) (front ++ claim_update input d ∷ rest) ≡ none
  nothing_left =
      first-around_none (is_claimable input) (claim_update input) (claim_update input d) rest front
        (settled-not_claimable input front settled) (claim_update-not_claimable input d positive)
        (first-none_of (is_claimable input) (claim_update input) rest
          (settled-not_claimable input rest settled_rest))

  -- The rounds after the event is claimed find nothing more.
  claim_loop-rest :
      (n : ℕ) (claimed : List OutboxEvent) (v : W)
      → docs v ≡ front ++ claim_update input d ∷ rest
      → ((claim_loop r model input n claimed v).0 ≡ ok claimed)
        × (docs (claim_loop r model input n claimed v).1 ≡ front ++ claim_update input d ∷ rest)
  unfolding claim_loop
  claim_loop-rest zero claimed v at_claimed = (refl, at_claimed)
  claim_loop-rest (suc n) claimed v at_claimed =
      let found = find v in
      let none_found =
        ap (first (is_claimable input) (claim_update input)) at_claimed ∙ nothing_left in
      rw (found.0, none_found)
        (
          refl,
          found.1
              ∙ ap (update_first (is_claimable input) (claim_update input)) at_claimed
              ∙ first-none (is_claimable input) (claim_update input) _ nothing_left,
        )

  claim_publishable-one :
      (v : W)
      → 0 < input.batch_size
      → is_claimable input d ≡ true
      → docs v ≡ front ++ d ∷ rest
      → ((claim_publishable r model input v).0
          ≡ ok (map_outbox_event r (claim_update input d) ∷ []))
        × (docs (claim_publishable r model input v).1 ≡ front ++ claim_update input d ∷ rest)
  unfolding claim_publishable claim_loop
  claim_publishable-one v room due at_d = rounds input.batch_size room
    where
      rounds :
          (n : ℕ)
          → 0 < n
          → ((claim_loop r model input n [] v).0
              ≡ ok (map_outbox_event r (claim_update input d) ∷ []))
            × (docs (claim_loop r model input n [] v).1 ≡ front ++ claim_update input d ∷ rest)
      rounds zero h = ground arith
      rounds (suc n) h =
          let found = find v in
          let unclaimed = settled-not_claimable input front settled in
          let hit =
            ap (first (is_claimable input) (claim_update input)) at_d
            ∙ first-around (is_claimable input) (claim_update input) d rest front unclaimed due in
          let v₁ = (model.find_one_and_update (is_claimable input) (claim_update input) v).1 in
          rw (found.0, hit)
            (claim_loop-rest n (map_outbox_event r (claim_update input d) ∷ []) v₁ (
              found.1
              ∙ ap (update_first (is_claimable input) (claim_update input)) at_d
              ∙ update_first-around (is_claimable input) (claim_update input) d rest front unclaimed
                  due))

is_claimable-due :
    (input : ClaimPublishableOutboxEventsInput) (d : OutboxEventEntity)
    → d.status ≡ pending
    → d.next_attempt_at ≤ input.now
    → is_claimable input d ≡ true
unfolding is_claimable
is_claimable-due input d waits due = ground arith

module _ {W : Type 0} (r : Runtime) (model : OutboxModel W) (docs : W → List OutboxEventEntity)
    (laws : IsModel model docs) (p : Publisher W) (leaves : LeavesOutbox p docs)
    (reliable : IsReliable model p) (ids : (n : ℕ) → r.object_id (r.object_id_text n) ≡ n)
    (positive : 0 < p.lock_timeout_ms) (room : 0 < p.batch_size) where
  get_pending_stats-Answers : (v : W) → Answers (get_pending_stats r model) v
  unfolding get_pending_stats
  get_pending_stats-Answers v =
      let counted = reliable.count_documents (has_status pending) v in
      let v₁ = (model.count_documents (has_status pending) v).1 in
      let looked = reliable.find (has_status pending) earlier_created (some 1) v₁ in
      rw (counted.1, looked.1) (_, refl)

  update_pending_metrics-Ends :
      (now : ℕ) (v : W)
      → ((update_pending_metrics r (over r model p) now v).0 ≡ ok tt)
        × (docs (update_pending_metrics r (over r model p) now v).1 ≡ docs v)
  unfolding update_pending_metrics
  update_pending_metrics-Ends now v =
      let answered = get_pending_stats-Answers v in
      rw answered.1 (refl, leaves.gauges _ _ _ ∙ get_pending_stats-same r model docs laws p v)

  -- What a poll leaves, from a state in which it reads the clock.
  abbrev pub HasPolled :
      List OutboxEventEntity → List OutboxEventEntity → OutboxEventEntity → Result ℕ × W → Type 0
  HasPolled front rest d out =
      (e : OutboxEventEntity) × (out.0 ≡ ok 1)
      × (docs out.1 ≡ front ++ e ∷ rest)
      × IsBroughtOn p.max_attempts d e

  pub run_once-HasPolled :
      (front rest : List OutboxEventEntity) (d : OutboxEventEntity) (now : ℕ) (w : W)
      → All IsSettled front
      → All IsSettled rest
      → d.status ≡ pending
      → d.next_attempt_at ≤ now
      → (p.new_date w).0 ≡ ok now
      → docs w ≡ front ++ d ∷ rest
      → HasPolled front rest d (run_once r (over r model p) w)
  unfolding run_once publish_events claim_update
  run_once-HasPolled front rest d now w settled settled_rest waits due clock at_d =
      let input = claim_input p now in
      let held = claim_update input d in
      let w₁ = (p.new_date w).1 in
      let claimed =
        claim_publishable-one r model docs laws p leaves reliable input positive front rest settled
          settled_rest d w₁ room (is_claimable-due input d waits due) (leaves.new_date w ∙ at_d) in
      let w₂ = (claim_publishable r model input w₁).1 in
      let ended =
        publish_event-Ends r model docs laws p leaves reliable ids front rest settled held refl refl
          w₂ claimed.1 in
      let w₃ = (publish_event r (over r model p) (map_outbox_event r held) w₂).1 in
      let later = reliable.new_date w₃ in
      let w₄ = (p.new_date w₃).1 in
      let updated = update_pending_metrics-Ends later.0 w₄ in
      rw (clock, claimed.0, ended.1, later.1, updated.0)
        (ended.0, refl, updated.1 ∙ leaves.new_date w₃ ∙ ended.2, ended.3)
