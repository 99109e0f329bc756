-- ===== src/Stub/Paths.antt =====
-- cpp/scripts/gene-gtest-stub.cpp: the names that it makes of the path of a source file. A group with `+`
-- takes as much as it can.
pub mod Laws
use c_workspace.Common.{
  ℕ, ◌==◌, ◌&&◌, Bool, true, false, if◌then◌else◌, Option, none, some, List, [], ◌∷◌, ◌++◌,
}
use c_workspace.Utils.Text.{Text, codes}
use c_workspace.Stub.{is_dot}
use c_workspace.Stub.Ctags.{begins_dot, is_some_text}

-- `(.+)\..+`, where the group has `group` so far.
abbrev pub match_stem : Text → Text → Option Text
match_stem group [] = none
match_stem group (c ∷ s) =
    let more = match_stem (group ++ (c ∷ [])) s in
    let here = if is_some_text group && (c == 46 && begins_dot s) then some group else none in
    if is_dot c then elim more [ none ↦ here | some stem ↦ some stem ] else none

-- `(.+?)\..+`
abbrev pub match_base : Text → Text → Option Text
match_base group [] = none
match_base group (c ∷ s) =
    let more = match_base (group ++ (c ∷ [])) s in
    if is_some_text group && (c == 46 && begins_dot s)
    then some group
    else if is_dot c
    then more
    else none

-- `.+/(.+?)\..+`, of which something is read.
abbrev pub match_folder : Bool → Text → Option Text
match_folder seen [] = none
match_folder seen (c ∷ s) =
    let more = match_folder true s in
    let here = if seen && c == 47 then match_base [] s else none in
    if is_dot c then elim more [ none ↦ here | some base ↦ some base ] else none

-- The group of the first match, or an empty text.
abbrev pub regex_search : (Text → Option Text) → Text → Text
regex_search regex [] = []
regex_search regex (c ∷ s) =
    let later = regex_search regex s in elim (regex (c ∷ s)) [ none ↦ later | some group ↦ group ]

unfoldable pub gene_gtest_file_path : Text → Text
gene_gtest_file_path orig_src_file_path =
    codes "test/" ++ (regex_search (match_stem []) orig_src_file_path ++ codes "_unittest.cc")

unfoldable pub get_class_name_from_path : Text → Text
get_class_name_from_path orig_src_file_path = regex_search (match_folder false) orig_src_file_path
