-- ===== src/Publisher/Settles.antt =====
-- That the publisher of apps/outbox-publisher/src/publisher.service.ts comes to an end with an event.
pub mod Around
pub mod Attempt
pub mod Poll
use message_management_api.Prelude.{
  ℕ, zero, suc, ◌+◌, ◌-◌, ◌≤◌, ◌<◌, ◌≡◌, refl, subst, ◌∙◌, ◌⊎◌, inl, inr, max, List, [], ◌∷◌, ◌++◌,
  All, arith,
}
use message_management_api.Effects.{ok}
use message_management_api.Runtime.{Runtime}
use message_management_api.Domain.{pending}
use message_management_api.Persistence.Collection.{IsModel}
use message_management_api.Persistence.Schemas.{OutboxEventEntity}
use message_management_api.Persistence.OutboxRepository.{OutboxModel}
use message_management_api.Publisher.{Publisher, run_once}
use message_management_api.Publisher.Refinement.{LeavesOutbox, over}
use Around.{IsSettled}
use Attempt.{IsReliable}
use Poll.{run_once-HasPolled}

All-at :
    (P : OutboxEventEntity → Type 0) (front rest : List OutboxEventEntity) (d : OutboxEventEntity)
    → All P (front ++ d ∷ rest)
    → P d
All-at P [] rest d (h, hs) = h
All-at P (e ∷ front) rest d (h, hs) = All-at P front rest d hs

-- The world after a number of polls, with a wait before each.
pub polls : {W : Type 0} → Runtime → OutboxModel W → Publisher W → (W → W) → ℕ → W → W
polls r model p wait zero w = w
polls r model p wait (suc n) w = polls r model p wait n (run_once r (over r model p) (wait w)).1

-- A wait between two polls: nothing happens to the outbox, and the clock then shows a time at which
-- every postponed event is due.
pub record IsWait {W : Type 0} (p : Publisher W) (docs : W → List OutboxEventEntity) (wait : W → W)
    : Type 0 where
  pub same : (w : W) → docs (wait w) ≡ docs w
  pub due :
      (w : W)
      → (now : ℕ) × ((p.new_date (wait w)).0 ≡ ok now) × All (λ d. d.next_attempt_at ≤ now) (docs w)

module _ {W : Type 0} (r : Runtime) (model : OutboxModel W) (docs : W → List OutboxEventEntity)
    (laws : IsModel model docs) (p : Publisher W) (leaves : LeavesOutbox p docs)
    (reliable : IsReliable model p) (ids : (n : ℕ) → r.object_id (r.object_id_text n) ≡ n)
    (positive : 0 < p.lock_timeout_ms) (room : 0 < p.batch_size) (wait : W → W)
    (waiting : IsWait p docs wait) (front rest : List OutboxEventEntity)
    (settled : All IsSettled front) (settled_rest : All IsSettled rest) where
  -- After some polls, at most `n`, the event is settled.
  abbrev SettlesWithin : ℕ → W → Type 0
  SettlesWithin n w =
      (k : ℕ) × (e : OutboxEventEntity) × (k ≤ n)
      × (docs (polls r model p wait k w) ≡ front ++ e ∷ rest)
      × IsSettled e

  settles :
      (n : ℕ) (w : W) (d : OutboxEventEntity)
      → d.status ≡ pending
      → docs w ≡ front ++ d ∷ rest
      → 0 < n
      → p.max_attempts ≤ d.attempts + n
      → SettlesWithin n w
  unfolding polls
  settles zero w d waits at_d h enough = ground arith
  settles (suc n) w d waits at_d h enough =
      let due = waiting.due w in
      let at_due =
        All-at (λ e. e.next_attempt_at ≤ due.0) front rest d
          (subst (All (λ e. e.next_attempt_at ≤ due.0)) at_d due.2) in
      let polled =
        run_once-HasPolled r model docs laws p leaves reliable ids positive room front rest d due.0
          (wait w) settled settled_rest waits at_due due.1 (waiting.same w ∙ at_d) in
      elim polled.3 [
        | inl done ↦ (1, polled.0, omega arith, polled.2, done)
        | inr (again, counted, left) ↦
            let later =
              settles n (run_once r (over r model p) (wait w)).1 polled.0 again polled.2
                (omega arith) (omega arith) in
            (suc later.0, later.1, omega (arith, later.2), later.3, later.4)
      ]

  -- A pending event, the others in the outbox being published or failed, is published or failed after
  -- at most as many polls as it has attempts left, and at most one if it has none, whatever Kafka
  -- does in each of them. MongoDB and the clock do not throw, each poll comes when the event is due,
  -- nobody else changes the outbox meanwhile, and an id is read back from its text.
  pub run_once-settles :
      (w : W) (d : OutboxEventEntity)
      → d.status ≡ pending
      → docs w ≡ front ++ d ∷ rest
      → SettlesWithin (max 1 (p.max_attempts - d.attempts)) w
  run_once-settles w d waits at_d =
      settles (max 1 (p.max_attempts - d.attempts)) w d waits at_d (omega arith) (omega arith)
