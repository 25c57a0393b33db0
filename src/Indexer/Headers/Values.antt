-- ===== src/Indexer/Headers/Values.antt =====
-- What a reader of a dead letter finds in its headers.
use message_management_api.Prelude.{
  ℕ, String, ◌≡◌, refl, false, Option, none, some, [], ◌∷◌, str_eq, eq_iff, eq_refl, arith, any,
  if◌then◌else◌, or_else, List,
}
use message_management_api.Effects.{Exception, error_name?}
use message_management_api.Runtime.{Runtime, error_text}
use message_management_api.Messaging.Producer.{TextHeaders}
use message_management_api.Indexer.Parse.{ParsedEvent, message_created, unknown_version}
use message_management_api.Indexer.Headers.{
  EachMessagePayload, bytes, text, HeaderValue, undefined, part, parts, decode_header_value,
  decode_entries, with_header, get_header, decode_headers, build_dlq_headers,
}

get_header-with_header :
    (key other value : String) (hs : TextHeaders)
    → get_header key (with_header other value hs)
      ≡ (if str_eq other key then some value else get_header key hs)
unfolding get_header with_header
get_header-with_header key other value [] = ground arith
get_header-with_header key other value ((k, v) ∷ hs) = ground (
  arith,
  get_header-with_header key other value hs,
  eq_iff k key,
  eq_iff k other,
  eq_iff other key,
  eq_refl key,
)

-- The headers that a dead letter gets in any case.
abbrev pub dlq_header_names : List String
dlq_header_names =
    "x-original-topic" ∷ "x-original-partition" ∷ "x-original-offset" ∷ "x-failed-at"
    ∷ "x-error-message" ∷ "x-error-class" ∷ []

-- The header `x-correlation-id`: the event's if it was parsed, else the original message's.
abbrev pub correlation_of : Option ParsedEvent → Option String → Option String
correlation_of (some (message_created event)) original = some event.correlation_id
correlation_of _ original = original

-- What the headers of a message say under a name: the text of the first that has the name and a text.
abbrev pub original_in : Runtime → String → List (String × HeaderValue) → Option String
original_in r name [] = none
original_in r name ((k, part (bytes b)) ∷ hs) =
    if str_eq k name then some (r.utf8_text b) else original_in r name hs
original_in r name ((k, part (text t)) ∷ hs) =
    if str_eq k name then some t else original_in r name hs
original_in r name ((k, parts (bytes b ∷ ps)) ∷ hs) =
    if str_eq k name then some (r.utf8_text b) else original_in r name hs
original_in r name ((k, parts (text t ∷ ps)) ∷ hs) =
    if str_eq k name then some t else original_in r name hs
original_in r name ((k, v) ∷ hs) = original_in r name hs

abbrev pub original : Runtime → String → Option (List (String × HeaderValue)) → Option String
original r name none = none
original r name (some hs) = original_in r name hs

get_header-decode_entries :
    (r : Runtime) (name : String) (hs : List (String × HeaderValue))
    → get_header name (decode_entries r hs) ≡ original_in r name hs
unfolding get_header decode_entries decode_header_value
get_header-decode_entries r name [] = refl
get_header-decode_entries r name ((k, undefined) ∷ hs) = get_header-decode_entries r name hs
get_header-decode_entries r name ((k, part (bytes b)) ∷ hs) =
    rw (get_header-decode_entries r name hs) refl
get_header-decode_entries r name ((k, part (text t)) ∷ hs) =
    rw (get_header-decode_entries r name hs) refl
get_header-decode_entries r name ((k, parts []) ∷ hs) = get_header-decode_entries r name hs
get_header-decode_entries r name ((k, parts (bytes b ∷ ps)) ∷ hs) =
    rw (get_header-decode_entries r name hs) refl
get_header-decode_entries r name ((k, parts (text t ∷ ps)) ∷ hs) =
    rw (get_header-decode_entries r name hs) refl

get_header-decode_headers :
    (r : Runtime) (name : String) (hs : Option (List (String × HeaderValue)))
    → get_header name (decode_headers r hs) ≡ original r name hs
unfolding decode_headers get_header
get_header-decode_headers r name none = refl
get_header-decode_headers r name (some hs) = get_header-decode_entries r name hs

-- The headers of a dead letter say where the message came from, when it failed and with which error;
-- `x-correlation-id` is that of the event if it was parsed, and else the message's own; and every
-- other header is the message's own: its text, the first where there are several, and none where the
-- message has none.
pub build_dlq_headers-values :
    (r : Runtime) (now : ℕ) (payload : EachMessagePayload) (error : Exception)
    (parsed : Option ParsedEvent) (other : String)
    → any (λ name. str_eq name other) dlq_header_names ≡ false
    → str_eq "x-correlation-id" other ≡ false
    → let headers = build_dlq_headers r now payload error parsed in
      (get_header "x-original-topic" headers ≡ some payload.topic)
      × (get_header "x-original-partition" headers ≡ some (r.decimal payload.partition))
      × (get_header "x-original-offset" headers ≡ some payload.offset)
      × (get_header "x-failed-at" headers ≡ some (r.iso_text now))
      × (get_header "x-error-message" headers ≡ some (error_text r error))
      × (get_header "x-error-class" headers ≡ some (or_else (error_name? error) "Error"))
      × (get_header "x-correlation-id" headers
          ≡ correlation_of parsed (original r "x-correlation-id" payload.headers))
      × (get_header other headers ≡ original r other payload.headers)
unfolding build_dlq_headers
build_dlq_headers-values r now payload error none other h k =
    simp (get_header-with_header, get_header-decode_headers) (ground arith)
build_dlq_headers-values r now payload error (some (unknown_version t v)) other h k =
    simp (get_header-with_header, get_header-decode_headers) (ground arith)
build_dlq_headers-values r now payload error (some (message_created event)) other h k =
    simp (get_header-with_header, get_header-decode_headers) (ground arith)
