-- ===== src/Publisher/Settles/Attempt.antt =====
-- An attempt at an event that the publisher holds always brings it on, whatever Kafka does.
use message_management_api.Prelude.{
  ℕ, String, ◌+◌, ◌<◌, ◌≡◌, refl, sym, subst, ap, ◌∙◌, ◌⊎◌, inl, inr, Bool, true, false, Option,
  some, List, ◌∷◌, ◌++◌, All, leb, arith, if◌then◌else◌, any, eq_refl,
}
use message_management_api.Effects.{Io, Result, ok, Exception, Result-cases, ◌>>=◌}
use message_management_api.Runtime.{Runtime}
use message_management_api.Domain.{
  OutboxEvent, pending, publishing, MarkFailedOutboxEventInput, MarkPublishedOutboxEventInput,
  ScheduleOutboxRetryInput,
}
use message_management_api.Persistence.Collection.{IsModel, Does}
use message_management_api.Persistence.Collection.Updates.{update_first}
use message_management_api.Persistence.Schemas.{OutboxEventEntity}
use message_management_api.Persistence.OutboxRepository.{
  OutboxModel, map_outbox_event, lock_owner_filter, published_update, retry_update, failed_update,
  mark_published, schedule_retry, mark_failed,
}
use message_management_api.Publisher.{
  Publisher, acknowledge, give_up, retry_later, handle_publish_failure, try_publish, publish_event,
}
use message_management_api.Publisher.RetryDelay.{calculate_retry_delay_ms}
use message_management_api.Publisher.Refinement.{LeavesOutbox, over, event_message}
use message_management_api.Publisher.Settles.Around.{
  update_first-around, any-around, IsSettled, settled-not_owned,
}

-- A call that does not throw.
abbrev pub Answers : {W A : Type 0} → Io W A → W → Type 0
Answers {W} {A} m w = (a : A) × ((m w).0 ≡ ok a)

-- MongoDB, the clock and the random numbers do not throw. Kafka may.
pub record IsReliable {W : Type 0} (model : OutboxModel W) (p : Publisher W) : Type 0 where
  pub find_one_and_update :
      (q : OutboxEventEntity → Bool) (f : OutboxEventEntity → OutboxEventEntity) (w : W)
      → Answers (model.find_one_and_update q f) w
  pub update_one :
      (q : OutboxEventEntity → Bool) (f : OutboxEventEntity → OutboxEventEntity) (w : W)
      → Answers (model.update_one q f) w
  pub count_documents : (q : OutboxEventEntity → Bool) (w : W) → Answers (model.count_documents q) w
  pub find :
      (q : OutboxEventEntity → Bool) (before : OutboxEventEntity → OutboxEventEntity → Bool)
      (n : Option ℕ) (w : W)
      → Answers (model.find q before n) w
  pub new_date : (w : W) → Answers p.new_date w
  pub random : (w : W) → Answers p.random w

pub Does-answered :
    {W A D : Type 0} (docs : W → List D) (m : Io W A) (w : W) (a : A) (after : List D)
    → Answers m w
    → Does docs m w a after
    → ((m w).0 ≡ ok a) × (docs (m w).1 ≡ after)
Does-answered docs m w a after (x, e) (inl done) = done
Does-answered docs m w a after (x, e) (inr (y, thrown, rest)) = cc

-- A sequence whose first part answers.
pub answering :
    {W A B : Type 0} (P : Result B × W → Type 0) (m : Io W A) (f : A → Io W B) (w : W) (a : A)
    → (m w).0 ≡ ok a
    → P (f a (m w).1)
    → P ((m >>= f) w)
answering P m f w a e h = rw e h

-- What becomes of a held document: it is settled, or waits for its next attempt, of which some are
-- left.
abbrev pub IsBroughtOn : ℕ → OutboxEventEntity → OutboxEventEntity → Type 0
IsBroughtOn max_attempts held d =
    IsSettled d
    ⊎ ((d.status ≡ pending) × (d.attempts ≡ held.attempts + 1) × (d.attempts < max_attempts))

published_update-IsSettled :
    (input : MarkPublishedOutboxEventInput) (d : OutboxEventEntity)
    → IsSettled (published_update input d)
unfolding published_update
published_update-IsSettled input d = inl refl

failed_update-IsSettled :
    (input : MarkFailedOutboxEventInput) (d : OutboxEventEntity) → IsSettled (failed_update input d)
unfolding failed_update
failed_update-IsSettled input d = inr refl

retry_update-waits :
    (input : ScheduleOutboxRetryInput) (d : OutboxEventEntity)
    → ((retry_update input d).status ≡ pending) × ((retry_update input d).attempts ≡ input.attempts)
unfolding retry_update
retry_update-waits input d = (refl, refl)

module _ {W : Type 0} (r : Runtime) (model : OutboxModel W) (docs : W → List OutboxEventEntity)
    (laws : IsModel model docs) (p : Publisher W) (leaves : LeavesOutbox p docs)
    (reliable : IsReliable model p) (ids : (n : ℕ) → r.object_id (r.object_id_text n) ≡ n)
    (front rest : List OutboxEventEntity) (settled : All IsSettled front) (held : OutboxEventEntity)
    (publishes : held.status ≡ publishing) (owned : held.locked_by ≡ some p.instance_id) where
  abbrev event : OutboxEvent
  event = map_outbox_event r held

  abbrev Ends : Result (Unit {0}) × W → Type 0
  Ends out =
      (d : OutboxEventEntity) × (out.0 ≡ ok tt)
      × (docs out.1 ≡ front ++ d ∷ rest)
      × IsBroughtOn p.max_attempts held d

  owns : lock_owner_filter r event.id p.instance_id held ≡ true
  unfolding lock_owner_filter map_outbox_event
  owns = ground (arith, ids held._id, eq_refl p.instance_id)

  -- Every acknowledgement of the event reaches its document.
  owner : OutboxEventEntity → Bool
  owner = lock_owner_filter r event.id p.instance_id

  write :
      (f : OutboxEventEntity → OutboxEventEntity) (v : W)
      → docs v ≡ front ++ held ∷ rest
      → ((model.update_one owner f v).0 ≡ ok 1)
        × (docs (model.update_one owner f v).1 ≡ front ++ f held ∷ rest)
  unfolding owner
  write f v at_held =
      let done =
        Does-answered docs (model.update_one owner f) v _ _ (reliable.update_one owner f v)
          (laws.update_one owner f v) in
      let hit : any owner (docs v) ≡ true = rw at_held (any-around owner f held rest front owns) in
      (
        done.0 ∙ ap (λ b. ok (if b then 1 else 0)) hit,
        done.1
            ∙ ap (update_first owner f) at_held
            ∙ update_first-around owner f held rest front
                (settled-not_owned r event.id p.instance_id front settled) owns,
      )

  acknowledge-Ends :
      (now : ℕ) (v : W)
      → docs v ≡ front ++ held ∷ rest
      → Ends (acknowledge r (over r model p) event now v)
  unfolding acknowledge mark_published owner
  acknowledge-Ends now v at_held =
      let input : MarkPublishedOutboxEventInput = record {
        id = event.id;
        locked_by = p.instance_id;
        published_at = now;
      } in
      let done = write (published_update input) v at_held in
      let w = (model.update_one owner (published_update input) v).1 in
      rw done.0 (
        published_update input held,
        refl,
        leaves.published _ _ w ∙ done.1,
        inl (published_update-IsSettled input held),
      )

  give_up-Ends :
      (now : ℕ) (last_error : String) (v : W)
      → docs v ≡ front ++ held ∷ rest
      → Ends (give_up r (over r model p) event (event.attempts + 1) now last_error v)
  unfolding give_up mark_failed owner
  give_up-Ends now last_error v at_held =
      let input : MarkFailedOutboxEventInput = record {
        id = event.id;
        locked_by = p.instance_id;
        attempts = event.attempts + 1;
        failed_at = now;
        last_error = last_error;
      } in
      let done = write (failed_update input) v at_held in
      let w = (model.update_one owner (failed_update input) v).1 in
      rw done.0 (
        failed_update input held,
        refl,
        leaves.failed _ _ w ∙ done.1,
        inl (failed_update-IsSettled input held),
      )

  retry_later-Ends :
      (now : ℕ) (last_error : String) (v : W)
      → event.attempts + 1 < p.max_attempts
      → docs v ≡ front ++ held ∷ rest
      → Ends (retry_later r (over r model p) event (event.attempts + 1) now last_error v)
  unfolding retry_later schedule_retry owner map_outbox_event
  retry_later-Ends now last_error v bound at_held =
      let drawn = reliable.random v in
      let input : ScheduleOutboxRetryInput = record {
        id = event.id;
        locked_by = p.instance_id;
        attempts = event.attempts + 1;
        next_attempt_at = now + calculate_retry_delay_ms (event.attempts + 1) drawn.0;
        last_error = last_error;
      } in
      let v₁ = (p.random v).1 in
      let done = write (retry_update input) v₁ (leaves.random v ∙ at_held) in
      let waits = retry_update-waits input held in
      rw (drawn.1, done.0)
        (
          retry_update input held,
          refl,
          done.1,
          inr (waits.0, waits.1, subst (λ n. n < p.max_attempts) (sym waits.1) bound),
        )

  handle_publish_failure-Ends :
      (e : Exception) (v : W)
      → docs v ≡ front ++ held ∷ rest
      → Ends (handle_publish_failure r (over r model p) event e v)
  unfolding handle_publish_failure
  handle_publish_failure-Ends e v at_held =
      let read = reliable.new_date v in
      let v₁ = (p.new_date v).1 in
      let here = leaves.new_date v ∙ at_held in
      rw read.1 (
        ending (leb p.max_attempts (event.attempts + 1)) _ _ v₁ (λ h. give_up-Ends read.0 _ v₁ here)
          (λ h. retry_later-Ends read.0 _ v₁ (ground arith) here))
    where
      ending :
          (b : Bool) (m n : Io W (Unit {0})) (u : W)
          → (b ≡ true → Ends (m u))
          → (b ≡ false → Ends (n u))
          → Ends ((if b then m else n) u)
      ending true m n u h k = h refl
      ending false m n u h k = k refl

  -- An attempt at an event that the publisher holds returns, and leaves its document published or
  -- failed, or waiting for the next attempt with one attempt counted more.
  pub publish_event-Ends :
      (v : W) → docs v ≡ front ++ held ∷ rest → Ends (publish_event r (over r model p) event v)
  unfolding publish_event try_publish
  publish_event-Ends v at_held =
      let message = event_message event in
      let v₁ = (p.publish_json message v).1 in
      let here = leaves.publish_json message v ∙ at_held in
      elim (Result-cases (p.publish_json message v).0) [
        | inr (e, thrown) ↦ rw thrown (handle_publish_failure-Ends e v₁ here)
        | inl (done, sent) ↦
            let v₂ = p.record_outbox_publish_duration event.topic event.event_type v₁ in
            let read = reliable.new_date v₂ in
            let v₃ = (p.new_date v₂).1 in
            let ended =
              acknowledge-Ends read.0 v₃ (leaves.new_date v₂ ∙ leaves.duration _ _ v₁ ∙ here) in
            rw (sent, read.1, ended.1) (ended.0, refl, ended.2, ended.3)
      ]
