-- ===== src/Application/CreateMessage/Atomicity.antt =====
-- A message and the event about it are written together or not at all.
use message_management_api.Prelude.{◌≡◌, refl, sym, subst, ◌∙◌, ◌⊎◌, ℕ, String}
use message_management_api.Effects.{
  bind-ok, ok_injective, Io, pure, Result, ok, err, Exception, ◌>>=◌,
}
use message_management_api.Runtime.{Runtime}
use message_management_api.Domain.{Message, OutboxEvent}
use message_management_api.Domain.Ports.{MessageRepositoryPort, OutboxRepositoryPort}
use message_management_api.Persistence.Transactions.{Connection, with_transaction, IsAtomic}
use message_management_api.Application.CreateMessage.{
  CreateMessageCommand, build_message_created_event, outbox_input, create_in_transaction, execute,
}

-- A step that succeeded.
abbrev pub Gives : {W A : Type 0} → Io W A → W → A → W → Type 0
Gives m w a w' = ((m w).0 ≡ ok a) × ((m w).1 ≡ w')

module _ {W : Type 0} (r : Runtime) (messages : MessageRepositoryPort W)
    (outbox : OutboxRepositoryPort W) (new_date : Io W ℕ) (random_uuid : Io W String) where
  abbrev store : CreateMessageCommand → ℕ → Io W Message
  store command now = messages.create (record {
    conversation_id = command.conversation_id;
    sender_id = command.sender_id;
    content = command.content;
    timestamp = now;
    metadata = command.metadata;
  })

  abbrev announce : CreateMessageCommand → ℕ → Message → String → Io W OutboxEvent
  announce command now message uuid = outbox.create (
      outbox_input (build_message_created_event r uuid message command.correlation_id now) message
        now)

  -- Both writes of one command at one time, between two worlds: the message is stored, and the
  -- event about it, with a fresh id, goes to the outbox.
  pub record Written (command : CreateMessageCommand) (now : ℕ) (message : Message)
      (before after : W) : Type 0 where
    pub stored : W
    pub identified : W
    pub uuid : String
    pub event : OutboxEvent
    pub message_written : Gives (store command now) before message stored
    pub event_identified : Gives random_uuid stored uuid identified
    pub event_written : Gives (announce command now message uuid) identified event after

  abbrev announce_and_return : CreateMessageCommand → ℕ → Message → String → Io W Message
  announce_and_return command now message uuid =
      announce command now message uuid >>= λ created. pure message

  create_in_transaction-Written :
      (command : CreateMessageCommand) (now : ℕ) (w : W) (message : Message)
      → (create_in_transaction r messages outbox new_date random_uuid command now w).0 ≡ ok message
      → Written command now message w
          (create_in_transaction r messages outbox new_date random_uuid command now w).1
  unfolding create_in_transaction
  create_in_transaction-Written command now w message h =
      let (m, made, h₁, at₁) =
        bind-ok (store command now) (λ m. random_uuid >>= announce_and_return command now m) w
          message h in
      let (uuid, drawn, h₂, at₂) =
        bind-ok random_uuid (announce_and_return command now m) (store command now w).1 message
          h₁ in
      let (event, recorded, h₃, at₃) =
        bind-ok (announce command now m uuid) (λ created. pure m)
          (random_uuid (store command now w).1).1 message h₂ in
      subst
        (λ x.
          Written command now x w
            (create_in_transaction r messages outbox new_date random_uuid command now w).1)
        (ok_injective h₃)
        (record {
          stored = (store command now w).1;
          identified = (random_uuid (store command now w).1).1;
          uuid = uuid;
          event = event;
          message_written = (made, refl);
          event_identified = (drawn, refl);
          event_written = (recorded, sym (at₁ ∙ at₂ ∙ at₃));
        })

  -- The service on a connection whose transactions are atomic on a part of the world, which the
  -- clock leaves alone.
  module _ {V : Type 0} (connection : Connection W Message) (view : W → V)
      (atomic : IsAtomic connection view) (clock : (w : W) → view (new_date w).1 ≡ view w) where
    -- One run of the operation was committed.
    abbrev Committed : Io W Message → W → W → Message → Type 0
    Committed operation before after message =
        (w₀ : W) × (view w₀ ≡ view before)
        × ((operation w₀).0 ≡ ok message)
        × (view after ≡ view (operation w₀).1)

    -- What a transaction of the manager comes to.
    abbrev Outcome : Io W Message → Result Message → W → W → Type 0
    Outcome operation result before after =
        ((message : Message) × (result ≡ ok message) × Committed operation before after message)
        ⊎ ((e : Exception) × (result ≡ err e)
            × ((view after ≡ view before)
                ⊎ ((message : Message) × Committed operation before after message)))

    -- What a request leaves in the database when it has an effect: the message and its event.
    abbrev Recorded : CreateMessageCommand → W → W → Message → Type 0
    Recorded command w final message =
        (now : ℕ) × (before : W) × (after : W) × (view before ≡ view w)
        × Written command now message before after
        × (view final ≡ view after)

    recorded :
        (command : CreateMessageCommand) (now : ℕ) (w v final : W) (message : Message)
        → view v ≡ view w
        → Committed
            (create_in_transaction r messages outbox new_date random_uuid command now)
            v
            final
            message
        → Recorded command w final message
    recorded command now w v final message same (w₀, start, run, left) =
        (now, w₀, _, start ∙ same, create_in_transaction-Written command now w₀ message run, left)

    abbrev result : CreateMessageCommand → W → Result Message × W
    result command w =
        execute r messages outbox new_date random_uuid (with_transaction connection) command w
