-- ===== src/Api/ErrorFilter.antt =====
-- apps/api/src/filters/all-exceptions.filter.ts.
pub mod Hiding
use message_management_api.Prelude.{
  ℕ, String, Bool, true, false, not, Option, none, some, List, [], ◌∷◌, or_else,
}
use message_management_api.Effects.{Exception, search_unavailable, http, HttpBody, HttpError, plain}
use message_management_api.Runtime.{Runtime}

-- `message` is a text or a list of texts; one text is a list of one.
pub record ErrorBody : Type 0 where
  pub error : String
  pub message : List String
  pub status_code : ℕ

pub record ErrorReply : Type 0 where
  pub body : ErrorBody
  pub correlation_id : Option String
  pub path : String
  pub timestamp : String
  -- The line 'Unhandled exception' is logged.
  pub logged : Bool

unfoldable pub get_status_code : Exception → ℕ
get_status_code (search_unavailable message) = 503
get_status_code (http e) = e.status
get_status_code _ = 500

abbrev http_body : HttpError → HttpBody → ErrorBody
http_body e (plain response) = record {
  error = e.name;
  message = response ∷ [];
  status_code = e.status;
}
http_body e (HttpBody.fields error message) = record {
  error = or_else error e.name;
  message = or_else message (e.message ∷ []);
  status_code = e.status;
}

abbrev internal_body : ℕ → ErrorBody
internal_body status = record {
  error = "Internal Server Error";
  message = "Internal server error" ∷ [];
  status_code = status;
}

unfoldable pub get_error_body : Exception → ℕ → ErrorBody
get_error_body (search_unavailable message) status = record {
  error = "Service Unavailable";
  message = message ∷ [];
  status_code = status;
}
get_error_body (http e) status = record (http_body e e.response) { status_code = status }
get_error_body _ status = internal_body status

abbrev is_expected : Exception → Bool
is_expected (search_unavailable message) = true
is_expected (http e) = true
is_expected _ = false

abbrev first_of : Option String → Option String → Option String
first_of (some id) header = some id
first_of none header = header

-- The reply; `context` is the id of the correlation context and `header` that of the request.
unfoldable pub catch : Runtime → Option String → Option String → String → ℕ → Exception → ErrorReply
unfolding get_status_code get_error_body
catch r context header url now exception = record {
  body = get_error_body exception (get_status_code exception);
  correlation_id = first_of context header;
  path = url;
  timestamp = r.iso_text now;
  logged = not (is_expected exception);
}
