-- ===== src/Config/Settings.antt =====
-- The settings of the outbox publisher, once its environment was validated. Joi is a parameter.
use message_management_api.Prelude.{
  ℕ, String, ◌≤◌, ◌≡◌, ◌≢◌, ◌⊎◌, Bool, true, false, Option, none, some, List, [], All, is_some,
}
use message_management_api.Config.{Environment}
use message_management_api.Config.Schema.{Rule, custom, port, integer, required, Entry, has_colon}

-- What the rules say of a value that Joi accepts, as far as the settings depend on it; `number_of` is
-- `Number(text)`.
abbrev pub AtMost : ℕ → Option ℕ → Type 0
AtMost n none = Unit {0}
AtMost n (some maximum) = n ≤ maximum

abbrev pub Accepts : (String → ℕ) → Rule → String → Type 0
Accepts number_of (integer minimum maximum) value =
    (minimum ≤ number_of value) × AtMost (number_of value) maximum
Accepts number_of port value = number_of value ≤ 65535
Accepts number_of (custom f) value = is_some (f value) ≡ true
Accepts number_of _ value = Unit

abbrev pub Fits : (String → ℕ) → Entry → Option String → Type 0
Fits number_of entry (some value) = Accepts number_of entry.rule value
Fits number_of entry none = entry.presence ≢ required

-- Joi accepts an environment only if every entry of the schema fits; `validate` tells whether it does.
pub record IsJoi (number_of : String → ℕ) (validate : List Entry → Environment → Bool)
    : Type 0 where
  pub accepts :
      (schema : List Entry) (env : Environment)
      → (validate schema env ≡ false) ⊎ All (λ e. Fits number_of e (env e.name)) schema

-- What the publisher gets for its brokers.
abbrev pub HasBrokers : Option (List String) → Type 0
HasBrokers found =
    (brokers : List String) × (found ≡ some brokers)
    × (brokers ≢ [])
    × All (λ s. has_colon s ≡ true) brokers
