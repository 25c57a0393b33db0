-- ===== src/Observability/Correlation.antt =====
-- libs/observability/src/correlation and the `genReqId` of libs/observability/src/logger.
use message_management_api.Prelude.{
  String, Option, none, some, List, [], ◌∷◌, if◌then◌else◌, trim, is_empty, or_else,
}
use message_management_api.Effects.{Io}

-- The value of a request header as Node gives it.
pub data HeaderValue : Type 0 where
  absent : HeaderValue
  single : String → HeaderValue
  several : List String → HeaderValue

-- `getHeader` of pino-options.factory.ts.
unfoldable pub get_header : HeaderValue → Option String
get_header absent = none
get_header (single value) = some value
get_header (several []) = none
get_header (several (value ∷ values)) = some value

-- `genReqId`: the id that the logger gives the request, and writes to the response header. `fresh`
-- is the value that `crypto.randomUUID()` would return.
unfoldable pub generate_request_id : HeaderValue → String → String
unfolding get_header
generate_request_id header fresh = or_else (get_header header) fresh

-- `request.id` is a text or another value, and `request.header(name)` a text or undefined.
unfoldable pub resolve_correlation_id : Option String → Option String → String → String
resolve_correlation_id id header fresh =
    let from_header : String = elim header [
      | none ↦ fresh
      | some h ↦ if is_empty (trim h) then fresh else trim h
    ] in
    elim id [ none ↦ from_header | some i ↦ if is_empty (trim i) then from_header else i ]

abbrev pub correlation_id_header : String
correlation_id_header = "x-correlation-id"

-- `CorrelationIdMiddleware.use`: `next` runs with the value that `getCorrelationId` then gives it.
unfoldable pub use_correlation_id :
    {W A : Type 0}
    → (String → String → W → W)
    → Option String
    → Option String
    → String
    → (Option String → Io W A)
    → Io W A
unfolding resolve_correlation_id
use_correlation_id set_header id header fresh next w =
    let correlation_id = resolve_correlation_id id header fresh in
    next (some correlation_id) (set_header correlation_id_header correlation_id w)
