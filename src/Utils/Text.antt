-- ===== src/Utils/Text.antt =====
-- cpp/src/utils/common/str.cpp. A std::string is the list of its bytes.
pub mod Search
pub mod Replace
pub mod Url
pub mod Template
use Prim.Native.Char.{code}
use Prim.Native.Nat.{bit_and}
use Prim.Native.String.{String}
use Prim.Native.String
use c_workspace.Common.{
  ℕ, zero, suc, ◌+◌, ◌-◌, ◌/◌, ◌==◌, leb, ◌&&◌, ◌||◌, Bool, true, false, if◌then◌else◌, Option,
  none, some, List, [], ◌∷◌, ◌++◌, length, take, drop, get_or,
}

abbrev pub Text : Type 0
Text = List ℕ

-- The bytes of an ASCII literal.
abbrev pub codes : String → Text
codes String.[] = []
codes (String.◌∷◌ c s) = code c ∷ codes s

-- `compare` gives 0.
abbrev pub same : Text → Text → Bool
same [] [] = true
same [] (y ∷ t) = false
same (x ∷ s) [] = false
same (x ∷ s) (y ∷ t) = (x == y) && same s t

-- `compare (from, len, other)` gives 0.
abbrev pub same_at : ℕ → ℕ → Text → Text → Bool
same_at from len str other = same (take len (drop from str)) other

unfoldable pub str_starts_with : Text → Text → Bool
str_starts_with str prefix =
    leb (length prefix) (length str) && same_at 0 (length prefix) str prefix

unfoldable pub str_ends_with : Text → Text → Bool
str_ends_with str suffix =
    leb (length suffix) (length str)
    && same_at (length str - length suffix) (length suffix) str suffix

abbrev in_range : ℕ → ℕ → ℕ → Bool
in_range low high c = leb low c && leb c high

-- `toupper` and `tolower` in the C locale.
abbrev toupper : ℕ → ℕ
toupper c = if in_range 97 122 c then c - 32 else c

abbrev tolower : ℕ → ℕ
tolower c = if in_range 65 90 c then c + 32 else c

unfoldable pub string_to_upper : Text → Text
string_to_upper [] = []
string_to_upper (c ∷ s) = toupper c ∷ string_to_upper s

unfoldable pub string_to_lower : Text → Text
string_to_lower [] = []
string_to_lower (c ∷ s) = tolower c ∷ string_to_lower s

abbrev pub begins : Text → Text → Bool
begins [] s = true
begins (p ∷ pattern) [] = false
begins (p ∷ pattern) (c ∷ s) = (p == c) && begins pattern s

-- `find`: the first index at which the pattern stands, or npos.
abbrev pub find : Text → Text → Option ℕ
find from [] = if begins from [] then some 0 else none
find from (c ∷ s) =
    let rest = find from s in
    if begins from (c ∷ s) then some 0 else elim rest [ none ↦ none | some i ↦ some (suc i) ]

-- `replace (pos, len, to)`, with `pos` in the text.
abbrev pub replace : ℕ → ℕ → Text → Text → Text
replace pos len to str = take pos str ++ (to ++ drop (pos + len) str)

-- `replaceAll`, with fuel: what it returns, and the text that it leaves.
unfoldable pub replace_all : ℕ → Text → Text → Text → Option (Bool × Text)
replace_all zero str from to = none
replace_all (suc fuel) str from to = elim (find from str) [
  | none ↦ some (false, str)
  | some start_pos ↦ replace_all fuel (replace start_pos (length from) to str) from to
]

abbrev lookup : Text
lookup = codes "0123456789abcdef"

-- Digits, letters and the four signs - _ . ~. A byte from 128 on is a negative char, which is none of them.
unfoldable pub is_plain : ℕ → Bool
is_plain c =
    in_range 48 57 c
    || in_range 65 90 c
    || in_range 97 122 c
    || (c == 45 || c == 95 || c == 46 || c == 126)

-- The two digits. An index is at most 15.
unfoldable pub high_digit : ℕ → ℕ
high_digit c = get_or lookup (bit_and c 0xf0 / 16) 0

unfoldable pub low_digit : ℕ → ℕ
low_digit c = get_or lookup (bit_and c 0x0f) 0

unfoldable pub url_encode : Text → Text
unfolding is_plain high_digit low_digit
url_encode [] = []
url_encode (c ∷ s) =
    let rest = url_encode s in
    if is_plain c then c ∷ rest else 37 ∷ high_digit c ∷ low_digit c ∷ rest
