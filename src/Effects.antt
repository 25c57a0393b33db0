-- ===== src/Effects.antt =====
-- What an awaited call does: it changes the world, and returns a value or throws. The type of the
-- world is a parameter of every definition, as are the calls of the libraries and services.
use message_management_api.Prelude.{
  ℕ, String, ◌≡◌, refl, subst, ◌⊎◌, inl, inr, Option, none, some, List,
}
use message_management_api.Json.{Json}

-- The body of an `HttpException`: a text, or an object with optional `error` and `message`.
pub data HttpBody : Type 0 where
  plain : String → HttpBody
  fields : Option String → Option (List String) → HttpBody

-- Nest's `HttpException`, by its status, name, message and response.
pub record HttpError : Type 0 where
  pub status : ℕ
  pub name : String
  pub message : String
  pub response : HttpBody

-- What can be thrown: an `Error` with a name, a message and perhaps a property `meta`; the
-- program's own error classes; an `HttpException`; or a value that is no `Error`.
pub data Exception : Type 0 where
  failure : String → String → Option Json → Exception
  malformed_message : String → Exception
  search_unavailable : String → Exception
  http : HttpError → Exception
  value : Json → Exception

-- `new Error(message)`.
abbrev pub plain_error : String → Exception
plain_error message = failure "Error" message none

-- `error instanceof Error ? error.message : …`.
abbrev pub error_message? : Exception → Option String
error_message? (failure name message meta) = some message
error_message? (malformed_message message) = some message
error_message? (search_unavailable message) = some message
error_message? (http e) = some e.message
error_message? (value v) = none

-- `error instanceof Error ? error.name : …`.
abbrev pub error_name? : Exception → Option String
error_name? (failure name message meta) = some name
error_name? (malformed_message message) = some "MalformedMessageError"
error_name? (search_unavailable message) = some "SearchUnavailableError"
error_name? (http e) = some e.name
error_name? (value v) = none

pub data Result {ℓ} (A : Type ℓ) : Type ℓ where
  ok : A → Result A
  err : Exception → Result A

abbrev pub Io : Type 0 → Type 0 → Type 0
Io W A = W → Result A × W

module _ {W A : Type 0} where
  abbrev pub pure : A → Io W A
  pure a w = (ok a, w)

  abbrev pub throw : Exception → Io W A
  throw e w = (err e, w)

  -- `try { m } catch (e) { h(e) }`.
  abbrev pub handle : Result A → (Exception → Io W A) → Io W A
  handle (ok a) h w = (ok a, w)
  handle (err e) h w = h e w

  abbrev pub try_catch : Io W A → (Exception → Io W A) → Io W A
  try_catch m h w = handle (m w).0 h (m w).1

-- A call that only changes the world, such as a log line or a metric.
abbrev pub act : {W : Type 0} → (W → W) → Io W (Unit {0})
act f w = (ok tt, f w)

module _ {W A B : Type 0} where
  abbrev pub continue : Result A → (A → Io W B) → Io W B
  continue (ok a) f w = f a w
  continue (err e) f w = (err e, w)

  infixl 10 ◌>>=◌ ◌>>◌
  abbrev pub ◌>>=◌ : Io W A → (A → Io W B) → Io W B
  ◌>>=◌ m f w = continue (m w).0 f (m w).1

  abbrev pub ◌>>◌ : Io W A → Io W B → Io W B
  m >> n = m >>= λ _. n

-- `finally { cleanup }`, where the clean-up throws nothing.
abbrev pub finally : {W A : Type 0} → Io W A → (W → W) → Io W A
finally m cleanup w = ((m w).0, cleanup (m w).1)

-- `finally { await cleanup() }`: an error of the clean-up takes the place of the result.
abbrev pub after_cleanup : {A : Type 0} → Result (Unit {0}) → Result A → Result A
after_cleanup (ok done) result = result
after_cleanup (err e) result = err e

abbrev pub finally_await : {W A : Type 0} → Io W A → Io W (Unit {0}) → Io W A
finally_await m cleanup w = let out = cleanup (m w).1 in (after_cleanup out.0 (m w).0, out.1)

pub Result-cases {ℓ} :
    {A : Type ℓ} (r : Result A) → ((a : A) × (r ≡ ok a)) ⊎ ((e : Exception) × (r ≡ err e))
Result-cases (ok a) = inl (a, refl)
Result-cases (err e) = inr (e, refl)

refused : {B C : Type 0} {b : B} (e : Exception) → err e ≡ ok b → C
refused e h = cc

pub ok_injective : {A : Type 0} {a b : A} → ok a ≡ ok b → a ≡ b
ok_injective h = cc

-- A sequence that succeeds has both its parts succeed.
pub bind-ok :
    {W A B : Type 0} (m : Io W A) (f : A → Io W B) (w : W) (b : B)
    → ((m >>= f) w).0 ≡ ok b
    → (a : A) × ((m w).0 ≡ ok a) × ((f a (m w).1).0 ≡ ok b) × (((m >>= f) w).1 ≡ (f a (m w).1).1)
bind-ok m f w b h = elim (Result-cases (m w).0) [
  | inl (a, e) ↦ (a, e, subst (λ x. (continue x f (m w).1).0 ≡ ok b) e h, rw e refl)
  | inr (e, thrown) ↦ refused e (subst (λ x. (continue x f (m w).1).0 ≡ ok b) thrown h)
]
