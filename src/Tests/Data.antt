-- ===== src/Tests/Data.antt =====
-- The concrete parameters of the examples.
use message_management_api.Prelude.{
  ℕ, refl, inl, String, true, Option, none, some, List, [], filter, length, any, if◌then◌else◌,
  ◌==◌, or_else, str_eq,
}
use message_management_api.Json.{Json, str, obj, field, end, natural, get, as_record, as_string}
use message_management_api.Effects.{ok, Exception, failure}
use message_management_api.Runtime.{Runtime}
use message_management_api.Domain.{
  Message, MessageCreatedEvent, MessageCreatedPayload, OutboxEventStatus, pending, publishing,
  failed,
}
use message_management_api.Persistence.Collection.{Model, IsModel}
use message_management_api.Persistence.Collection.Updates.{
  first, update_first, update_all, sort_by, limited,
}
use message_management_api.Persistence.Schemas.{MessageEntity, OutboxEventEntity}

abbrev first_id : String
first_id = "aaaaaaaaaaaaaaaaaaaaaaaa"

abbrev second_id : String
second_id = "bbbbbbbbbbbbbbbbbbbbbbbb"

abbrev id_property : Option Json → String
id_property json = elim (as_record json) [
  | none ↦ ""
  | some fields ↦ or_else (as_string (get "id" fields)) ""
]

-- A runtime for texts that are parsed as a given value: `json_text` keeps the property `id`.
abbrev pub runtime : (String → Json) → Runtime
runtime parsed = record {
  iso_text = λ t. "2026-01-01T00:00:00.000Z";
  date_of = λ s. some 5;
  json_text = λ json. id_property (some json);
  json_parse = λ s. ok (parsed s);
  base64url = λ s. s;
  from_base64url = λ s. s;
  utf8_bytes = λ s. [];
  utf8_text = λ b. "";
  slice = λ n s. s;
  decimal = λ n. "";
  sort_texts = λ texts. texts;
  text_of_value = λ json. "";
  object_id_text = λ n. if n == 1 then first_id else second_id;
  object_id = λ s. if str_eq s first_id then 1 else 2;
  object_id_is_valid = λ s. true;
}

-- Every text is read as the ascending cursor of the message with that text as its id.
abbrev pub cursors : Runtime
cursors = runtime λ s.
    obj
      (field "o" (str "asc") (field "t" (str "2026-01-01T00:00:00.000Z") (field "id" (str s) end)))

-- A collection in memory, which never fails.
abbrev pub memory : {D I : Type 0} → Model (List D) D I
memory = record {
  create = λ input ds. (ok none, ds);
  find_one_and_update = λ p f ds. (ok (first p f ds), update_first p f ds);
  update_one = λ p f ds. (ok (if any p ds then 1 else 0), update_first p f ds);
  update_many = λ p f ds. (ok (length (filter p ds)), update_all p f ds);
  count_documents = λ p ds. (ok (length (filter p ds)), ds);
  find = λ p before n ds. (ok (limited n (filter p (sort_by before ds))), ds);
}

pub memory-IsModel : {D I : Type 0} → IsModel {W = List D} {I = I} memory (λ ds. ds)
memory-IsModel = record {
  find_one_and_update = λ p f w. inl (refl, refl);
  update_one = λ p f w. inl (refl, refl);
  update_many = λ p f w h. inl (refl, refl);
  count_documents = λ p w. inl (refl, refl);
  find = λ p before n w. inl (refl, refl);
}

abbrev payload : MessageCreatedPayload
payload = record {
  id = first_id;
  conversation_id = "c";
  sender_id = "s";
  content = "hello";
  timestamp = "2026-01-01T00:00:00.000Z";
  metadata = none;
}

abbrev event : MessageCreatedEvent
event = record {
  event_id = "e";
  event_type = "message.created";
  event_version = natural 1;
  occurred_at = "2026-01-01T00:00:00.000Z";
  correlation_id = "r";
  payload = payload;
}

abbrev pub outbox_document :
    ℕ → OutboxEventStatus → Option String → Option ℕ → Option String → OutboxEventEntity
outbox_document id status locked_by locked_at last_error = record {
  _id = id;
  event_id = "e";
  event_type = "message.created";
  event_version = 1;
  topic = "messages.message-created.v1";
  key = "c";
  payload = event;
  status = status;
  attempts = 0;
  next_attempt_at = 3;
  locked_by = locked_by;
  locked_at = locked_at;
  last_error = last_error;
  created_at = 2;
  published_at = none;
}

-- One event that a publisher holds, and one that waits.
abbrev pub held_document : OutboxEventEntity
held_document = outbox_document 1 publishing (some "a") (some 10) none

abbrev pub waiting_document : OutboxEventEntity
waiting_document = outbox_document 2 pending none none none

abbrev pub failed_document : OutboxEventEntity
failed_document = outbox_document 1 failed none none (some "no broker")

abbrev pub message : Option Json → Message
message metadata = record {
  id = first_id;
  conversation_id = "c";
  sender_id = "s";
  content = "hello";
  timestamp = 5;
  metadata = metadata;
}

abbrev pub message_entity : ℕ → MessageEntity
message_entity id = record {
  _id = id;
  conversation_id = "c";
  sender_id = "s";
  content = "hello";
  timestamp = 5;
  metadata = none;
}

-- An error that may pass.
abbrev pub timeout : Exception
timeout = failure "TimeoutError" "timed out" none
