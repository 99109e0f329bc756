-- ===== src/Stub/Ctags/Symbols.antt =====
-- cpp/scripts/gene-gtest-stub.cpp: which lines of ctags are about methods, and the map of their symbols.
use c_workspace.Common.{
  ◌≡◌, refl, sym, ap, ◌∙◌, ◌==◌, true, false, Option, none, some, List, [], ◌∷◌, ◌++◌, append_assoc,
  append-nil, All, ◌⊎◌,
}
use c_workspace.Utils.Text.{Text}
use c_workspace.Stub.{MethodSymbols}
use c_workspace.Stub.Ctags.{get_lines, is_function_line, is_dtor_line, precedes}
use c_workspace.Stub.Ctags.Laws.{Tag, line_of, IsTag}

-- A line about a method, or another that is not taken.
pub data Entry : Type 0 where
  tagged : Tag → Entry
  other : Text → Entry

abbrev pub entry_line : Entry → Text
entry_line (tagged t) = line_of t
entry_line (other s) = s

-- A line that is not taken has no method's class, or it is a destructor's.
abbrev pub IsEntry : Entry → Type 0
IsEntry (tagged t) = IsTag t
IsEntry (other s) = (is_function_line s ≡ false) ⊎ (is_dtor_line s ≡ true)

abbrev pub lines_of : List Entry → List Text
lines_of [] = []
lines_of (e ∷ entries) = entry_line e ∷ lines_of entries

abbrev pub tags : List Entry → List Tag
tags [] = []
tags (tagged t ∷ entries) = t ∷ tags entries
tags (other s ∷ entries) = tags entries

abbrev tag_lines : List Tag → List Text
tag_lines [] = []
tag_lines (t ∷ ts) = line_of t ∷ tag_lines ts

abbrev pub tag_symbols : List Tag → MethodSymbols
tag_symbols [] = []
tag_symbols (t ∷ ts) = (t.name, t.signature) ∷ tag_symbols ts

-- Two names in the order of the map.
abbrev Ordered : Text → Text → Type 0
Ordered first second = (precedes first second ≡ true) × (precedes second first ≡ false)

-- Each name is before those behind it, as ctags sorts them.
abbrev pub Ascend : List Tag → Type 0
Ascend [] = Unit
Ascend (t ∷ ts) = All (λ u. Ordered t.name u.name) ts × Ascend ts

-- All names of the map are before those of the lines to come.
abbrev Before : MethodSymbols → List Tag → Type 0
Before accu ts = All (λ u. All (λ p. Ordered p.0 u.name) accu) ts

-- The symbols that are read: all but the first.
abbrev pub all_but_first : List Tag → Option MethodSymbols
all_but_first [] = none
all_but_first (t ∷ ts) = some (tag_symbols ts)

-- A text of lines, each with its end.
abbrev pub unlines : List Text → Text
unlines [] = []
unlines (line ∷ lines) = line ++ (10 ∷ unlines lines)

get_lines-line :
    (read line rest : Text)
    → All (λ c. (c == 10) ≡ false) line
    → get_lines (line ++ (10 ∷ rest)) read ≡ (read ++ line) ∷ get_lines rest []
get_lines-line read [] rest a = ap (λ l. l ∷ get_lines rest []) (sym (append-nil read))
get_lines-line read (c ∷ line) rest a =
    rw (a.0, get_lines)
      (get_lines-line (read ++ (c ∷ [])) line rest a.1
        ∙ ap (λ l. l ∷ get_lines rest []) (append_assoc read (c ∷ []) line))

-- `getline` gives the lines of a text back.
pub get_lines-unlines :
    (lines : List Text)
    → All (All (λ c. (c == 10) ≡ false)) lines
    → get_lines (unlines lines) [] ≡ lines
get_lines-unlines [] a = refl
get_lines-unlines (line ∷ lines) a =
    get_lines-line [] line (unlines lines) a.0 ∙ ap (λ ls. line ∷ ls) (get_lines-unlines lines a.1)
