-- ===== src/Tests/PollExamples.antt =====
-- The theorems on whole polls of the publisher at concrete outboxes.
use message_management_api.Prelude.{
  ℕ, String, zero, suc, ◌≤◌, ◌≡◌, refl, ap, inl, max, none, List, [], ◌∷◌, All, length, characters,
  arith,
}
use message_management_api.Effects.{ok, err}
use message_management_api.Runtime.{Runtime}
use message_management_api.Domain.{published}
use message_management_api.Persistence.Schemas.{OutboxEventEntity}
use message_management_api.Persistence.OutboxRepository.{
  outbox_repository, OutboxModel, claim_publishable,
}
use message_management_api.Publisher.{Publisher, run_once}
use message_management_api.Publisher.Refinement.{LeavesOutbox, over}
use message_management_api.Publisher.Polls.{Polled, claim_input, run_once-Polled}
use message_management_api.Publisher.Settles.{polls, IsWait, run_once-settles}
use message_management_api.Publisher.Settles.Around.{IsSettled}
use message_management_api.Publisher.Settles.Attempt.{IsReliable}
use message_management_api.Tests.Data.{
  cursors, memory, memory-IsModel, waiting_document, outbox_document, timeout,
}

abbrev outbox : OutboxModel (List OutboxEventEntity)
outbox = memory

abbrev identity : List OutboxEventEntity → List OutboxEventEntity
identity ds = ds

-- A text for every number, of which the number is read back.
abbrev unary : ℕ → String
unary zero = ""
unary (suc n) = String.◌∷◌ "a" (unary n)

abbrev numbered : Runtime
numbered = record cursors { object_id_text = unary; object_id = λ s. length (characters s) }

read_back : (n : ℕ) → length (characters (unary n)) ≡ n
read_back zero = refl
read_back (suc n) = ap suc (read_back n)

-- A clock that always shows the latest time at which an event is due.
abbrev latest : List OutboxEventEntity → ℕ
latest [] = 0
latest (d ∷ ds) = max d.next_attempt_at (latest ds)

latest-All :
    (bound : ℕ) (ds : List OutboxEventEntity)
    → latest ds ≤ bound
    → All (λ d. d.next_attempt_at ≤ bound) ds
latest-All bound [] h = tt
latest-All bound (d ∷ ds) h = (omega (arith, h), latest-All bound ds (omega (arith, h)))

-- Kafka never takes a message.
abbrev publisher : Publisher (List OutboxEventEntity)
publisher = record {
  batch_size = 50;
  lock_timeout_ms = 30_000;
  max_attempts = 2;
  instance_id = "a";
  outbox_repository = outbox_repository numbered outbox;
  publish_json = λ m ds. (err timeout, ds);
  new_date = λ ds. (ok (latest ds), ds);
  random = λ ds. (ok 0, ds);
  record_outbox_publish_duration = λ a b ds. ds;
  record_outbox_published = λ a b ds. ds;
  record_outbox_failed = λ a b ds. ds;
  set_outbox_pending_stats = λ a b ds. ds;
  log_lost_lock = λ e t ds. ds;
}

publisher-LeavesOutbox : LeavesOutbox publisher identity
publisher-LeavesOutbox = record {
  publish_json = λ m w. refl;
  new_date = λ w. refl;
  random = λ w. refl;
  duration = λ a b w. refl;
  published = λ a b w. refl;
  failed = λ a b w. refl;
  gauges = λ a b w. refl;
  lost = λ e t w. refl;
}

publisher-IsReliable : IsReliable outbox publisher
publisher-IsReliable = record {
  find_one_and_update = λ q f w. (_, refl);
  update_one = λ q f w. (_, refl);
  count_documents = λ q w. (_, refl);
  find = λ q before n w. (_, refl);
  new_date = λ w. (_, refl);
  random = λ w. (_, refl);
}

waits : IsWait publisher identity identity
waits = record {
  same = λ w. refl;
  due = λ w. (latest w, refl, latest-All (latest w) w (omega arith));
}

abbrev sent_document : OutboxEventEntity
sent_document = outbox_document 3 published none none none

abbrev documents : List OutboxEventEntity
documents = waiting_document ∷ sent_document ∷ []

run_once-settles_example :
    (k : ℕ) × (e : OutboxEventEntity) × (k ≤ 2)
    × (polls numbered outbox publisher identity k documents ≡ e ∷ sent_document ∷ [])
    × IsSettled e
run_once-settles_example =
    run_once-settles numbered outbox identity memory-IsModel publisher publisher-LeavesOutbox
      publisher-IsReliable read_back (omega arith) (omega arith) identity waits []
      (sent_document ∷ []) tt (inl refl, tt) documents waiting_document refl refl

run_once-Polled_example :
    Polled numbered outbox identity memory-IsModel publisher
      (claim_input publisher 3)
      documents
      (claim_publishable numbered outbox (claim_input publisher 3) documents)
      (run_once numbered (over numbered outbox publisher) documents)
run_once-Polled_example =
    run_once-Polled numbered outbox identity memory-IsModel publisher publisher-LeavesOutbox
      documents 3 refl (omega arith)
