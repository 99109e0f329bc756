-- ===== src/Stub/Ctags.antt =====
-- cpp/scripts/gene-gtest-stub.cpp: the lines of ctags about a file, and the methods in them. A regular
-- expression is the search for it: a group with `+?` takes as little as it can, so that the first way to
-- go on is tried first.
pub mod Laws
pub mod Symbols
use c_workspace.Common.{
  ℕ, ◌+◌, ◌==◌, ltb, ◌&&◌, ◌||◌, Bool, true, false, if◌then◌else◌, Option, none, some, ◌>>=◌, List,
  [], ◌∷◌, ◌++◌,
}
use c_workspace.Utils.Text.{Text, codes, begins, find}
use c_workspace.Stub.{MethodSymbols, is_dot}

-- The lines of a file, as `getline` gives them: the last may lack its end. `line` is what is read of one.
abbrev pub get_lines : Text → Text → List Text
get_lines [] [] = []
get_lines [] (d ∷ line) = (d ∷ line) ∷ []
get_lines (c ∷ s) line = elim (c == 10) [
  | true ↦ line ∷ get_lines s []
  | false ↦ get_lines s (line ++ (c ∷ []))
]

abbrev pub lines_with : Text → List Text → List Text
lines_with target_file_path [] = []
lines_with target_file_path (line ∷ lines) =
    let rest = lines_with target_file_path lines in
    elim (find target_file_path line) [ none ↦ rest | some i ↦ line ∷ rest ]

-- `file` is what the file of ctags holds, if it can be opened.
unfoldable pub find_symbol_lines_in_ctags : Option Text → Text → List Text
find_symbol_lines_in_ctags none target_file_path = []
find_symbol_lines_in_ctags (some file) target_file_path =
    lines_with target_file_path (get_lines file [])

-- What stands behind a text.
abbrev pub after : Text → Text → Option Text
after [] s = some s
after (p ∷ pattern) [] = none
after (p ∷ pattern) (c ∷ s) = let rest = after pattern s in if p == c then rest else none

abbrev pub begins_dot : Text → Bool
begins_dot [] = false
begins_dot (c ∷ s) = is_dot c

abbrev pub class_mark : Text
class_mark = codes "\tf\tclass:"

-- `\tf\tclass:.+`
abbrev pub is_function_line : Text → Bool
is_function_line [] = false
is_function_line (c ∷ s) =
    elim (after class_mark (c ∷ s)) [ none ↦ false | some rest ↦ begins_dot rest ]
    || is_function_line s

-- `.+?\(\)`, of which something is read.
abbrev pub calls : Bool → Text → Bool
calls seen [] = false
calls seen (c ∷ s) = (seen && begins (codes "()") (c ∷ s)) || (is_dot c && calls true s)

-- `~.+?\(\)`
abbrev pub is_dtor_line : Text → Bool
is_dtor_line [] = false
is_dtor_line (c ∷ s) = (c == 126 && calls false s) || is_dtor_line s

abbrev pub method_lines : List Text → List Text
method_lines [] = []
method_lines (line ∷ lines) =
    let rest = method_lines lines in
    if is_function_line line then (if is_dtor_line line then rest else line ∷ rest) else rest

abbrev pub is_some_text : Text → Bool
is_some_text [] = false
is_some_text (c ∷ s) = true

-- `(.+?)\{.+`, where the group has `group` so far.
abbrev pub match_signature : Text → Text → Option Text
match_signature group [] = none
match_signature group (c ∷ s) =
    let more = match_signature (group ++ (c ∷ [])) s in
    if is_some_text group && (c == 123 && begins_dot s)
    then some group
    else if is_dot c
    then more
    else none

-- `.+?/\^  (.+?)\{.+`
abbrev pub match_address : Bool → Text → Option Text
match_address seen [] = none
match_address seen (c ∷ s) =
    let more = match_address true s in
    let here = after (codes "/^  ") (c ∷ s) >>= λ rest. match_signature [] rest in
    elim (if seen then here else none) [
      | some signature ↦ some signature
      | none ↦ if is_dot c then more else none
    ]

-- `^(.+?)\t.+?/\^  (.+?)\{.+`
abbrev pub match_name : Text → Text → Option (Text × Text)
match_name group [] = none
match_name group (c ∷ s) =
    let more = match_name (group ++ (c ∷ [])) s in
    let here = match_address false s in
    elim (if is_some_text group && c == 9 then here else none) [
      | some signature ↦ some (group, signature)
      | none ↦ if is_dot c then more else none
    ]

-- The groups of a line; they are empty if there is no match.
unfoldable pub symbol_of : Text → Text × Text
symbol_of line = elim (match_name [] line) [ none ↦ ([], []) | some symbol ↦ symbol ]

-- The order of `std::string`.
abbrev pub precedes : Text → Text → Bool
precedes s [] = false
precedes [] (d ∷ t) = true
precedes (c ∷ s) (d ∷ t) = let rest = precedes s t in if c == d then rest else ltb c d

-- `emplace` of a `std::map`: a name that is there keeps its signature.
abbrev pub emplace_symbol : Text → Text → MethodSymbols → MethodSymbols
emplace_symbol name signature [] = (name, signature) ∷ []
emplace_symbol name signature ((other, old) ∷ accu) =
    let rest = emplace_symbol name signature accu in
    if precedes name other
    then (name, signature) ∷ (other, old) ∷ accu
    else if precedes other name
    then (other, old) ∷ rest
    else (other, old) ∷ accu

abbrev pub emplace_all : List Text → MethodSymbols → MethodSymbols
emplace_all [] accu = accu
emplace_all (line ∷ lines) accu =
    emplace_all lines (emplace_symbol (symbol_of line).0 (symbol_of line).1 accu)

-- From the line behind the first: `next` of the end is out of range.
abbrev pub behind_first : List Text → Option MethodSymbols
behind_first [] = none
behind_first (line ∷ lines) = some (emplace_all lines [])

unfoldable pub parse_all_method_symbols_from_ctags : List Text → Option MethodSymbols
parse_all_method_symbols_from_ctags lines = behind_first (method_lines lines)
