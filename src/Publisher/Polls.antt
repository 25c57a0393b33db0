-- ===== src/Publisher/Polls.antt =====
-- A whole poll of the publisher over the MongoDB repository, as actions on the shared outbox.
use message_management_api.Prelude.{
  some, length, ℕ, ◌<◌, ◌≤◌, ◌≡◌, refl, sym, subst, ◌∙◌, ◌⊎◌, inl, inr, List, [], ◌∷◌,
}
use message_management_api.Effects.{Io, Result, ok, err, Exception, Result-cases, ◌>>=◌, ◌>>◌, pure}
use message_management_api.Runtime.{Runtime}
use message_management_api.Domain.{OutboxEvent, ClaimPublishableOutboxEventsInput, pending}
use message_management_api.Persistence.Collection.{IsModel, Does}
use message_management_api.Persistence.Schemas.{OutboxEventEntity}
use message_management_api.Persistence.OutboxRepository.{
  OutboxModel, claim_publishable, get_pending_stats, has_status, earlier_created,
}
use message_management_api.Persistence.OutboxRepository.Claims.{
  claimed_events, claim_publishable-Claimed,
}
use message_management_api.Outbox.{run}
use message_management_api.Outbox.Refinement.{claim_actions, run-claim_actions}
use message_management_api.Outbox.Runs.{Runs}
use message_management_api.Publisher.{
  Publisher, publish_event, publish_events, update_pending_metrics, run_once,
}
use message_management_api.Publisher.Refinement.{LeavesOutbox, IsAttempt, over, publish_event-Runs}

-- What a poll asks the repository for, at a time.
abbrev pub claim_input : {W : Type 0} → Publisher W → ℕ → ClaimPublishableOutboxEventsInput
claim_input p now = record {
  batch_size = p.batch_size;
  locked_by = p.instance_id;
  lock_timeout_ms = p.lock_timeout_ms;
  now = now;
}

Does-same :
    {W A D : Type 0} (docs : W → List D) (m : Io W A) (w : W) (a : A)
    → Does docs m w a (docs w)
    → docs (m w).1 ≡ docs w
Does-same docs m w a (inl (answered, same)) = same
Does-same docs m w a (inr (e, thrown, inl same)) = same
Does-same docs m w a (inr (e, thrown, inr same)) = same

module _ {W : Type 0} (r : Runtime) (model : OutboxModel W) (docs : W → List OutboxEventEntity)
    (laws : IsModel model docs) (p : Publisher W) where
  pub get_pending_stats-same : (w : W) → docs (get_pending_stats r model w).1 ≡ docs w
  unfolding get_pending_stats
  get_pending_stats-same w =
      let count = model.count_documents (has_status pending) in
      let counted = Does-same docs count w _ (laws.count_documents (has_status pending) w) in
      let look = model.find (has_status pending) earlier_created (some 1) in
      elim (Result-cases (count w).0) [
        | inr (e, thrown) ↦ rw thrown counted
        | inl (n, answered) ↦ rw answered (elim (Result-cases (look (count w).1).0) [
          | inr (e, thrown) ↦ rw thrown (found (count w).1 ∙ counted)
          | inl (ds, answered') ↦ rw answered' (found (count w).1 ∙ counted)
        ])
      ]
    where
      found : (v : W) → docs (model.find (has_status pending) earlier_created (some 1) v).1 ≡ docs v
      found v =
          Does-same docs (model.find (has_status pending) earlier_created (some 1)) v _
            (laws.find (has_status pending) earlier_created (some 1) v)

  -- One attempt at an event of the publisher over the repository.
  abbrev pub attempt : OutboxEvent → Io W (Unit {0})
  attempt event = publish_event r (over r model p) event

  -- One attempt at each of the events, in their order, each from the world that the one before left, up
  -- to the first that throws, with the result and the world that they leave.
  abbrev pub Attempted : List OutboxEvent → W → Result (Unit {0}) × W → Type 0
  Attempted [] w out = out ≡ (ok tt, w)
  Attempted (event ∷ events) w out =
      Runs r docs (IsAttempt p w event) (attempt event) w
      × ((((attempt event w).0 ≡ ok tt) × Attempted events (attempt event w).1 out)
          ⊎ ((e : Exception) × ((attempt event w).0 ≡ err e)
              × (out ≡ (err e, (attempt event w).1))))

  -- What a poll answers after attempts at n events: the number, or an error of the statistics; or the
  -- error of an attempt.
  abbrev pub Answers : ℕ → Result (Unit {0}) → Result ℕ → Type 0
  Answers n (ok done) answer = (answer ≡ ok n) ⊎ ((e : Exception) × (answer ≡ err e))
  Answers n (err e) answer = answer ≡ err e

  -- A poll with a claim of the given documents, from the world of its claim: with the documents as
  -- they were before, and what the poll leaves.
  abbrev pub Polled :
      ClaimPublishableOutboxEventsInput
      → List OutboxEventEntity
      → Result (List OutboxEvent) × W
      → Result ℕ × W
      → Type 0
  Polled input ds claim out =
      let events = claimed_events r input input.batch_size ds in
      ((claim.0 ≡ ok events)
        × (docs claim.1 ≡ run r (claim_actions input input.batch_size) ds)
        × (tried : Result (Unit {0}) × W) × Attempted events claim.1 tried
        × (docs out.1 ≡ docs tried.1)
        × Answers (length events) tried.0 out.0)
      ⊎ ((e : Exception) × (k : ℕ) × (claim.0 ≡ err e)
          × (k ≤ input.batch_size)
          × (docs out.1 ≡ run r (claim_actions input k) ds)
          × (out.0 ≡ err e))

  -- What follows the attempts of a poll.
  abbrev finishing : ℕ → Io W ℕ
  finishing n = p.new_date >>= λ later. update_pending_metrics r (over r model p) later >> pure n

  module _ (leaves : LeavesOutbox p docs) where
    publish_events-Attempted :
        (events : List OutboxEvent) (w : W)
        → Attempted events w (publish_events r (over r model p) events w)
    unfolding publish_events
    publish_events-Attempted [] w = refl
    publish_events-Attempted (event ∷ events) w = (
      publish_event-Runs r model docs laws p leaves w event,
      elim (Result-cases (attempt event w).0) [
        | inl (done, answered) ↦
            rw answered (inl (refl, publish_events-Attempted events (attempt event w).1))
        | inr (e, thrown) ↦ rw thrown (inr (e, refl, refl))
      ],
    )

    update_pending_metrics-same :
        (now : ℕ) (w : W) → docs (update_pending_metrics r (over r model p) now w).1 ≡ docs w
    unfolding update_pending_metrics
    update_pending_metrics-same now w = elim (Result-cases (get_pending_stats r model w).0) [
      | inr (e, thrown) ↦ rw thrown (get_pending_stats-same w)
      | inl (stats, answered) ↦ rw answered (leaves.gauges _ _ _ ∙ get_pending_stats-same w)
    ]

    finishing-same :
        (n : ℕ) (w : W) → (docs (finishing n w).1 ≡ docs w) × Answers n (ok tt) (finishing n w).0
    finishing-same n w =
        let update = update_pending_metrics r (over r model p) in
        let v = (p.new_date w).1 in
        elim (Result-cases (p.new_date w).0) [
          | inr (e, thrown) ↦ rw thrown (leaves.new_date w, inr (e, refl))
          | inl (later, read) ↦ rw read (elim (Result-cases (update later v).0) [
            | inr (e, thrown) ↦
                rw thrown (update_pending_metrics-same later v ∙ leaves.new_date w, inr (e, refl))
            | inl (done, updated) ↦
                rw updated (update_pending_metrics-same later v ∙ leaves.new_date w, inl refl)
          ])
        ]

    -- What follows the claims of a poll.
    abbrev after_claims : List OutboxEvent → Io W ℕ
    after_claims events = publish_events r (over r model p) events >> finishing (length events)

    after_claims-Answers :
        (events : List OutboxEvent) (w : W)
        → let tried = publish_events r (over r model p) events w in
          (docs (after_claims events w).1 ≡ docs tried.1)
          × Answers (length events) tried.0 (after_claims events w).0
    after_claims-Answers events w =
        let tried = publish_events r (over r model p) events w in
        elim (Result-cases tried.0) [
          | inl (done, answered) ↦ rw answered (finishing-same (length events) tried.1)
          | inr (e, thrown) ↦ rw thrown (refl, refl)
        ]

    claims-Polled :
        (input : ClaimPublishableOutboxEventsInput) (w : W)
        → 0 < input.lock_timeout_ms
        → Polled input
            (docs w)
            (claim_publishable r model input w)
            ((claim_publishable r model input >>= after_claims) w)
    claims-Polled input w positive =
        elim (claim_publishable-Claimed r model docs laws input positive w) [
          | inl (returned, left) ↦
              (let events = claimed_events r input input.batch_size (docs w) in
                let v = (claim_publishable r model input w).1 in
                rw returned (
                  inl (
                    refl,
                    left ∙ sym (run-claim_actions r input input.batch_size (docs w) positive),
                    publish_events r (over r model p) events v,
                    publish_events-Attempted events v,
                    (after_claims-Answers events v).0,
                    (after_claims-Answers events v).1,
                  )))
          | inr (e, k, thrown, bound, left) ↦ rw thrown (
              inr (
                e,
                k,
                refl,
                bound,
                left ∙ sym (run-claim_actions r input k (docs w) positive),
                refl,
              ))
        ]

    -- A poll that starts at a given time claims the first claimable events, up to its batch size, for
    -- this publisher with its lock time-out, and then makes one attempt at each of them, in their order
    -- and each in the world that the one before left, and changes the outbox by nothing else. An attempt
    -- acknowledges its event, which it does only after Kafka took the message in the attempt's own
    -- world, or postpones it or gives it up with one attempt more. The poll answers the number of the
    -- events, unless a call throws: a claim that throws has claimed a first part of them, and nothing
    -- follows; an attempt that throws is the last. The lock time-out is positive, the model behaves as
    -- documented, and the other parts leave the outbox alone.
    pub run_once-Polled :
        (w : W) (now : ℕ)
        → (p.new_date w).0 ≡ ok now
        → 0 < p.lock_timeout_ms
        → Polled
            (claim_input p now)
            (docs w)
            (claim_publishable r model (claim_input p now) (p.new_date w).1)
            (run_once r (over r model p) w)
    unfolding run_once
    run_once-Polled w now clock positive =
        let input = claim_input p now in
        let v = (p.new_date w).1 in
        rw clock (
          subst
            (λ ds.
              Polled input ds (claim_publishable r model input v)
                ((claim_publishable r model input >>= after_claims) v))
            (leaves.new_date w) (claims-Polled input v positive))
