-- ===== src/Cli/Options.antt =====
-- apps/cli/src/commands/option-parsers.ts.
use message_management_api.Prelude.{
  ℕ, String, ◌&&◌, not, Option, none, some, List, [], ◌∷◌, filter, map, is_empty, leb, trim,
  split_text, if◌then◌else◌,
}
use message_management_api.Json.{Number}
use message_management_api.Effects.{Result, ok, err, plain_error}
use Prim.Native.String.{◌++◌ as append}

-- `Number.isInteger(parsed) && parsed >= 1`, with the integer.
abbrev positive_integer : Option Number → Option ℕ
positive_integer none = none
positive_integer (some n) =
    if not n.negative && is_empty n.fraction && leb 1 n.whole then some n.whole else none

-- `number_of` is `Number(value)`, none for NaN and the infinities.
unfoldable pub parse_positive_integer : (String → Option Number) → String → String → Result ℕ
parse_positive_integer number_of value option_name = elim (positive_integer (number_of value)) [
  | none ↦ err (plain_error (append option_name " must be a positive integer."))
  | some n ↦ ok n
]

-- `split(',')`, `trim` and `filter(Boolean)`, which the configuration does too.
unfoldable pub csv_entries : String → List String
csv_entries value = filter (λ entry. not (is_empty entry)) (map trim (split_text b',' value))

unfoldable pub parse_csv_option : String → String → Result (List String)
unfolding csv_entries
parse_csv_option value option_name = elim (csv_entries value) [
  | [] ↦ err (plain_error (append option_name " must include at least one value."))
  | entry ∷ entries ↦ ok (entry ∷ entries)
]
