-- ===== src/Prelude/Text.antt =====
-- Texts by their code points, for the code that walks or trims them.
use Prim.Native.Char.{Char, code}
use Prim.Native.Nat.{ℕ}
use Prim.Native.String.{String}
use mathlib.Core.Bool.{Bool, false, ◌||◌, ◌&&◌}
use mathlib.Core.List.{List, [], ◌∷◌, reverse}
use text.Mathlib.Text
use package.message_management_api.Prelude.Tests.{leb, if◌then◌else◌, ◌==◌}

abbrev pub str_eq : String → String → Bool
str_eq = Text.◌==◌

abbrev pub characters : String → List Char
characters String.[] = []
characters (String.◌∷◌ c s) = c ∷ characters s

abbrev pub text_of : List Char → String
text_of [] = ""
text_of (c ∷ cs) = String.◌∷◌ c (text_of cs)

abbrev pub is_empty : String → Bool
is_empty s = str_eq s ""

abbrev pub contains_text : String → List String → Bool
contains_text s [] = false
contains_text s (t ∷ ts) = str_eq s t || contains_text s ts

-- What `String.prototype.trim` removes: white space and line terminators.
pub is_space : ℕ → Bool
is_space c =
    (leb 9 c && leb c 13)
    || c == 32
    || c == 160
    || c == 0x1680
    || (leb 0x2000 c && leb c 0x200a)
    || c == 0x2028
    || c == 0x2029
    || c == 0x202f
    || c == 0x205f
    || c == 0x3000
    || c == 0xfeff

pub trim_start : List Char → List Char
trim_start [] = []
trim_start (c ∷ cs) = let rest = trim_start cs in if is_space (code c) then rest else c ∷ cs

unfoldable pub trim_characters : List Char → List Char
unfolding is_space trim_start
trim_characters cs = reverse (trim_start (reverse (trim_start cs)))

unfoldable pub trim : String → String
unfolding trim_characters
trim s = text_of (trim_characters (characters s))

-- `split(separator)` by one character.
pub split_characters : ℕ → List Char → List Char → List (List Char)
split_characters sep current [] = reverse current ∷ []
split_characters sep current (c ∷ cs) =
    let closed = reverse current ∷ split_characters sep [] cs in
    let longer = split_characters sep (c ∷ current) cs in if code c == sep then closed else longer

abbrev pub texts_of : List (List Char) → List String
texts_of [] = []
texts_of (cs ∷ rest) = text_of cs ∷ texts_of rest

unfoldable pub split_text : ℕ → String → List String
unfolding split_characters
split_text sep s = texts_of (split_characters sep [] (characters s))
