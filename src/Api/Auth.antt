-- ===== src/Api/Auth.antt =====
-- apps/api/src/auth/api-key.guard.ts. The digest and the hexadecimal decoding are Node's.
pub mod Admission
use message_management_api.Prelude.{
  String, Bool, true, false, ◌&&◌, Option, none, some, List, [], ◌∷◌, ◌==◌, length, or_else,
  is_empty, if◌then◌else◌,
}
use message_management_api.Effects.{Result, ok, err, Exception, http, HttpBody}
use message_management_api.Runtime.{Buffer}

pub record ApiKeyConfig : Type 0 where
  pub name : String
  pub hash : String

-- `createHash('sha256').update(key).digest()` through its hexadecimal text, and
-- `Buffer.from(text, 'hex')`.
pub record Crypto : Type 0 where
  pub sha256 : String → Buffer
  pub from_hex : String → Buffer

-- `timingSafeEqual`, which wants buffers of one length.
unfoldable pub same_bytes : Buffer → Buffer → Bool
same_bytes [] [] = true
same_bytes (a ∷ as') (b ∷ bs) = a == b && same_bytes as' bs
same_bytes _ _ = false

-- Nest's `new UnauthorizedException(message)`.
abbrev pub unauthorized : String → Exception
unauthorized message = http (record {
  status = 401;
  name = "UnauthorizedException";
  message = message;
  response = HttpBody.fields (some "Unauthorized") (some (message ∷ []));
})

module _ (crypto : Crypto) where
  abbrev pub accepts : String → ApiKeyConfig → Bool
  accepts api_key configured =
      length (crypto.from_hex configured.hash) == length (crypto.sha256 api_key)
      && same_bytes (crypto.sha256 api_key) (crypto.from_hex configured.hash)

  -- The name of the first configured key that fits, which the guard leaves in the request.
  unfoldable pub authenticate : List ApiKeyConfig → String → Option String
  authenticate [] api_key = none
  authenticate (configured ∷ keys) api_key =
      if accepts api_key configured then some configured.name else authenticate keys api_key

  abbrev admitted : Option String → Result (Option String)
  admitted none = err (unauthorized "Invalid API key")
  admitted (some name) = ok (some name)

  abbrev check_header : List ApiKeyConfig → Option String → Result (Option String)
  check_header keys none = err (unauthorized "Invalid API key")
  check_header keys (some api_key) =
      if is_empty api_key
      then err (unauthorized "Invalid API key")
      else admitted (authenticate keys api_key)

  -- `public` is the metadata of the route, and the header is `x-api-key`. The result is what the
  -- request then holds as `apiKeyName`.
  unfoldable pub can_activate :
      List ApiKeyConfig → Option Bool → Option String → Result (Option String)
  unfolding authenticate
  can_activate keys public header =
      if or_else public false then ok none else check_header keys header
