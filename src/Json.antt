-- ===== src/Json.antt =====
-- The values that `JSON.parse` returns and that the program inspects by `typeof` and by key. An
-- absent key stands for `undefined`.
use message_management_api.Prelude.{
  ℕ, String, Bool, true, false, Option, none, some, ◌&&◌, ◌==◌, leb, str_eq, if◌then◌else◌,
}

-- A JSON number: its sign, its whole part, and the digits of its fraction without trailing zeros.
pub record Number : Type 0 where
  pub negative : Bool
  pub whole : ℕ
  pub fraction : String

mutual
  pub data Json : Type 0 where
    null : Json
    bool : Bool → Json
    num : Number → Json
    str : String → Json
    arr : Items → Json
    obj : Fields → Json

  pub data Items : Type 0 where
    nil : Items
    cons : Json → Items → Items

  pub data Fields : Type 0 where
    end : Fields
    field : String → Json → Fields → Fields

-- The number of a natural.
abbrev pub natural : ℕ → Number
natural n = record { negative = false; whole = n; fraction = "" }

-- `x === n` at a natural n.
abbrev pub is_natural : ℕ → Number → Bool
is_natural n x = elim x.negative [ true ↦ false | false ↦ x.whole == n && str_eq x.fraction "" ]

-- `x >= n` at a natural n above 0.
abbrev pub at_least : ℕ → Number → Bool
at_least n x = elim x.negative [ true ↦ false | false ↦ leb n x.whole ]

-- `fields[key]`.
unfoldable pub get : String → Fields → Option Json
get key end = none
get key (field k v rest) = if str_eq k key then some v else get key rest

-- `typeof value === 'object' && value !== null && !Array.isArray(value)`, with the fields.
abbrev pub as_record : Option Json → Option Fields
as_record (some (obj fields)) = some fields
as_record _ = none

-- `typeof value === 'string'`, with the text.
abbrev pub as_string : Option Json → Option String
as_string (some (str s)) = some s
as_string _ = none

-- `typeof value === 'number'`, with the number.
abbrev pub as_number : Option Json → Option Number
as_number (some (num n)) = some n
as_number _ = none
