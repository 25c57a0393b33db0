-- ===== src/Cli/EsReindex/Versions.antt =====
-- `normalizeTargetIndex` and `nextIndexVersion` of apps/cli/src/services/es-reindex.service.ts.
-- Versions are natural numbers; above 2 ^ 53 JavaScript would round them.
use Prim.Native.Char.{Char, code}
use Prim.Native.String.{◌++◌ as append}
use message_management_api.Prelude.{
  ℕ, ◌++◌, ◌+◌, ◌-◌, ◌*◌, max, leb, ◌==◌, String, Bool, false, ◌&&◌, Option, none, some, List, [],
  ◌∷◌, all, is_empty, characters, if◌then◌else◌, is_some,
}
use message_management_api.Effects.{Result, ok, err, plain_error}
use message_management_api.Runtime.{Runtime}

abbrev pub is_digit : ℕ → Bool
is_digit c = leb b'0' c && leb c b'9'

-- `[1-9]\d*`.
unfoldable pub is_numeral : List Char → Bool
is_numeral [] = false
is_numeral (c ∷ cs) = leb b'1' (code c) && leb (code c) b'9' && all (λ d. is_digit (code d)) cs

-- `Number(digits)`.
unfoldable pub number_from : ℕ → List Char → ℕ
number_from n [] = n
number_from n (c ∷ cs) = number_from (n * 10 + (code c - b'0')) cs

-- What stands behind a prefix.
unfoldable pub strip_prefix : List Char → List Char → Option (List Char)
strip_prefix [] cs = some cs
strip_prefix (p ∷ ps) [] = none
strip_prefix (p ∷ ps) (c ∷ cs) =
    let rest = strip_prefix ps cs in if code p == code c then rest else none

abbrev pub numeral_after : Option (List Char) → Option (List Char)
numeral_after none = none
numeral_after (some cs) = if is_numeral cs then some cs else none

-- The version of an index `messages-v<n>`.
unfoldable pub index_version : String → Option ℕ
unfolding is_numeral number_from strip_prefix
index_version index =
    elim (numeral_after (strip_prefix (characters "messages-v") (characters index))) [
      | none ↦ none
      | some digits ↦ some (number_from 0 digits)
    ]

abbrev pub or_version : Option ℕ → ℕ → ℕ
or_version none n = n
or_version (some v) n = max v n

unfoldable pub max_version : List String → ℕ
unfolding index_version
max_version [] = 1
max_version (index ∷ indices) = or_version (index_version index) (max_version indices)

-- `Math.max(1, ...versions) + 1`.
unfoldable pub next_index_version : List String → ℕ
unfolding max_version
next_index_version indices = max_version indices + 1

unfoldable pub normalize_target_index : Runtime → Option String → List String → Result String
unfolding is_numeral strip_prefix next_index_version
normalize_target_index r none sources =
    ok (append "messages-v" (r.decimal (next_index_version sources)))
normalize_target_index r (some target) sources =
    if is_empty target
    then ok (append "messages-v" (r.decimal (next_index_version sources)))
    else if is_some (numeral_after (strip_prefix (characters "messages-v") (characters target)))
    then ok target
    else if is_some (numeral_after (strip_prefix (characters "v") (characters target)))
    then ok (append "messages-" target)
    else if is_numeral (characters target)
    then ok (append "messages-v" target)
    else err (plain_error "Target index must look like v2, 2, or messages-v2.")
