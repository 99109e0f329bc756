-- ===== src/Stub/Templates.antt =====
-- The templates of cpp/scripts/gene-gtest-stub.cpp. A template is a text with marks, in the order in which
-- they are replaced; behind each mark stands more text. The source is in UTF-8.
pub mod Fill
pub mod Each
pub mod Dollar
use Prim.Native.Char.{code}
use Prim.Native.String.{String}
use Prim.Native.String
use c_workspace.Common.{
  ℕ, ◌+◌, ◌/◌, ◌%◌, ltb, if◌then◌else◌, Option, some, ◌>>=◌, List, [], ◌∷◌, ◌++◌, get_or,
}
use c_workspace.Utils.Text.{Text, replace_all}

-- The bytes of a character below 65536.
abbrev utf8 : ℕ → Text
utf8 c =
    if ltb c 128
    then c ∷ []
    else if ltb c 2048
    then (192 + c / 64) ∷ (128 + c % 64) ∷ []
    else (224 + c / 4096) ∷ (128 + c / 64 % 64) ∷ (128 + c % 64) ∷ []

abbrev pub bytes : String → Text
bytes String.[] = []
bytes (String.◌∷◌ c s) = utf8 (code c) ++ bytes s

-- Lines, with an end of line between each two.
abbrev pub block : List String → Text
block [] = []
block (s ∷ []) = bytes s
block (s ∷ t ∷ lines) = bytes s ++ (10 ∷ block (t ∷ lines))

pub record Template : Type 0 where
  pub marks : List Text
  pub first : Text
  pub rest : List (ℕ × Text)

-- The text with something at each mark.
abbrev pub fill_marks : (ℕ → Text) → Text → List (ℕ × Text) → Text
fill_marks at first [] = first
fill_marks at first ((j, next) ∷ rest) = first ++ (at j ++ fill_marks at next rest)

-- What is at the index `j` of a list of marks or values.
abbrev pub nth : List Text → ℕ → Text
nth values j = get_or values j []

abbrev pub filled : Template → List Text → Text
filled t values = fill_marks (nth values) t.first t.rest

-- Calls of `replaceAll`, one after the other.
unfoldable pub replace_each : ℕ → Text → List Text → List Text → Option Text
replace_each fuel str [] values = some str
replace_each fuel str (from ∷ marks) [] = some str
replace_each fuel str (from ∷ marks) (to ∷ values) = do
  r ← replace_all fuel str from to
  replace_each fuel r.1 marks values

-- A copy of the template, in which each mark is replaced by its value.
unfoldable pub instantiate : ℕ → Template → List Text → Option Text
instantiate fuel t values = replace_each fuel (filled t t.marks) t.marks values
