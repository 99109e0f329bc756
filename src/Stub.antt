-- ===== src/Stub.antt =====
-- cpp/scripts/gene-gtest-stub.cpp: parts of a generator of test files. Its `replaceAll` is that of
-- cpp/src/utils/common/str.cpp word for word; the fuel of its calls is an argument.
pub mod Laws
pub mod Templates
pub mod Fixture
pub mod Blocks
pub mod Mock
pub mod Method
pub mod Ctags
pub mod Paths
pub mod Main
pub mod Methods
mod Examples
mod MainExamples
use c_workspace.Common.{
  ℕ, zero, suc, ◌+◌, ◌==◌, ltb, ◌&&◌, ◌||◌, Bool, true, false, if◌then◌else◌, Option, none, some,
  ◌>>=◌, List, [], ◌∷◌, ◌++◌,
}
use c_workspace.Utils.Text.{Text, codes, begins, replace_all}

abbrev pub join_from : Text → List Text → Text → Text
join_from accu [] separator = accu
join_from accu (element ∷ v) separator = join_from (accu ++ (separator ++ element)) v separator

-- `none` where `v[0]` is out of range.
unfoldable pub join : List Text → Text → Option Text
join [] separator = none
join (first ∷ v) separator = some (join_from first v separator)

-- How often a byte stands in a text: `std::count`.
abbrev pub count_of : ℕ → Text → ℕ
count_of c [] = 0
count_of c (x ∷ s) = (if x == c then 1 else 0) + count_of c s

-- What `.` stands for: no end of line.
abbrev pub is_dot : ℕ → Bool
is_dot c = if c == 10 || c == 13 then false else true

abbrev pub are_dots : Text → Bool
are_dots [] = true
are_dots (c ∷ s) = is_dot c && are_dots s

-- ` *\\).*`
abbrev closes : Text → Bool
closes [] = false
closes (c ∷ s) = if c == 32 then closes s else (c == 41 && are_dots s)

-- `void *\\).*` where "void" stands before `s`.
abbrev after_void : Text → Text → Bool
after_void [] s = closes s
after_void (v ∷ word) [] = false
after_void (v ∷ word) (c ∷ s) = v == c && after_void word s

-- ` *(void)? *\\).*`
abbrev is_empty_list : Text → Bool
is_empty_list [] = false
is_empty_list (c ∷ s) =
    let spaced = is_empty_list s in
    if c == 32 then spaced else (after_void (codes "void") (c ∷ s) || closes (c ∷ s))

-- `.+\\( *(void)? *\\).*` behind some bytes: whether there is one, and the rest.
abbrev has_no_params : Bool → Text → Bool
has_no_params seen [] = false
has_no_params seen (c ∷ s) =
    let later = has_no_params true s in
    (seen && (c == 40 && is_empty_list s)) || (is_dot c && later)

-- `countMethodParams`
unfoldable pub count_method_params : Text → ℕ
count_method_params method_signature =
    let param_num = count_of 44 method_signature in
    if ltb 0 param_num then param_num + 1 else if has_no_params false method_signature then 0 else 1

-- `pop_back`
abbrev pub pop_back : Text → Text
pop_back [] = []
pop_back (c ∷ []) = []
pop_back (c ∷ d ∷ s) = c ∷ pop_back (d ∷ s)

-- `gene_onCall_method_param_sig`. `padded n` is what `string_format` makes of "%0nc" and '0'.
unfoldable pub gene_on_call_method_param_sig : ℕ → (ℕ → Text) → ℕ → Option Text
gene_on_call_method_param_sig fuel padded param_num =
    if param_num == 0
    then some []
    else (replace_all fuel (padded param_num) (codes "0") (codes "_,") >>= λ r. some (pop_back r.1))

-- The names of methods, ascending, with their signatures.
abbrev pub MethodSymbols : Type 0
MethodSymbols = List (Text × Text)

-- `reduceMethodSymbols`, from what `accu` is at first. The function may run out of fuel.
unfoldable pub reduce_method_symbols :
    MethodSymbols → (Text → Text → Text → Option Text) → Text → Option Text
reduce_method_symbols [] lamda accu = some accu
reduce_method_symbols ((method_name, method_signature) ∷ symbols) lamda accu = do
  accu' ← lamda accu method_name method_signature
  reduce_method_symbols symbols lamda accu'

-- The pieces of the template of `gene_gtest_file_stub`.
abbrev pub file_head : Text
file_head = 10 ∷ codes "    #include \""

abbrev pub file_middle : Text
file_middle =
    codes "\""
    ++ (10 ∷ codes "    #include \"gmock/gmock.h\""
        ++ (10 ∷ codes "    #include \"gtest/gtest.h\""
            ++ (10 ∷ 10 ∷ codes "    using namespace std;"
                ++ (10 ∷ 10 ∷ codes "    namespace {" ++ (10 ∷ 10 ∷ codes "      ")))))

abbrev pub file_tail : Text
file_tail = 10 ∷ 10 ∷ codes "    } // namespace" ++ (10 ∷ codes "  ")

abbrev pub path_mark : Text
path_mark = codes "${origSrcFilePath}"

abbrev pub list_mark : Text
list_mark = codes "${stubBlockList}"

-- `gene_gtest_file_stub`
unfoldable pub gene_gtest_file_stub : ℕ → Text → List Text → Option Text
gene_gtest_file_stub fuel orig_src_file_path sub_block_list = do
  r ←
      replace_all fuel (file_head ++ (path_mark ++ (file_middle ++ (list_mark ++ file_tail))))
        path_mark orig_src_file_path
  blocks ← join sub_block_list (10 ∷ [])
  r' ← replace_all fuel r.1 list_mark blocks
  some r'.1
