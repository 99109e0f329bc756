-- ===== src/Stub/Main.antt =====
-- `main` of cpp/scripts/gene-gtest-stub.cpp. What it writes to the terminal is not modelled.
pub mod Laws
pub mod Unnamed
use c_workspace.Common.{
  ℕ, Bool, true, false, if◌then◌else◌, Option, none, some, ◌>>=◌, List, [], ◌∷◌, ◌++◌,
}
use c_workspace.Utils.Text.{Text, codes}
use c_workspace.Stub.{gene_gtest_file_stub}
use c_workspace.Stub.Ctags.{find_symbol_lines_in_ctags, parse_all_method_symbols_from_ctags}
use c_workspace.Stub.Paths.{gene_gtest_file_path, get_class_name_from_path}
use c_workspace.Stub.Fixture.{gene_gtest_test_fixture_class_stub}
use c_workspace.Stub.Blocks.{gene_assertions_stub, gene_matcher_stub}
use c_workspace.Stub.Mock.{gene_mock_stub}
use c_workspace.Stub.Method.{gene_gtest_method_stub}

-- The files: what one holds, if it can be opened for reading, and whether it can be opened for writing.
pub record Files : Type 0 where
  pub opens : Text → Option Text
  pub writable : Text → Bool

-- How the program ends: with a status, or with a file written and 0.
pub data Outcome : Type 0 where
  exits : ℕ → Outcome
  writes : Text → Text → Outcome

-- The text of the test file, from the lines of ctags.
unfoldable pub gtest_file_stub : ℕ → (ℕ → Text) → Text → List Text → Option Text
gtest_file_stub fuel padded orig_src_file_path lines = do
  let class_name = get_class_name_from_path orig_src_file_path
  let mock_class_name = class_name ++ codes "Mock"
  let test_class_name = class_name ++ codes "Test"
  method_symbols ← parse_all_method_symbols_from_ctags lines
  test_fixture_class_stub ← gene_gtest_test_fixture_class_stub fuel class_name test_class_name
  mock_stub_code ← gene_mock_stub fuel padded class_name mock_class_name method_symbols
  test_methods_stub ← gene_gtest_method_stub fuel test_class_name mock_class_name method_symbols
  gene_gtest_file_stub fuel orig_src_file_path (
      test_fixture_class_stub ∷ gene_assertions_stub ∷ gene_matcher_stub ∷ mock_stub_code
      ∷ test_methods_stub ∷ [])

-- `output_gtest_stub_file_to_path`
unfoldable pub output_gtest_stub_file_to_path : Files → Text → Text → Outcome
output_gtest_stub_file_to_path files gtest_file_path gtest_file_stub' =
    if files.writable gtest_file_path then writes gtest_file_path gtest_file_stub' else exits 1

-- What is done for the lines that are found.
abbrev pub generate : ℕ → (ℕ → Text) → Files → Text → List Text → Option Outcome
generate fuel padded files orig_src_file_path [] = some (exits 1)
generate fuel padded files orig_src_file_path (line ∷ lines) = do
  stub ← gtest_file_stub fuel padded orig_src_file_path (line ∷ lines)
  some (output_gtest_stub_file_to_path files (gene_gtest_file_path orig_src_file_path) stub)

-- `main`: the arguments stand behind the name of the program. `makesure_file_not_exist` is the first test.
unfoldable pub main : ℕ → (ℕ → Text) → Files → List Text → Option Outcome
main fuel padded files [] = some (exits 1)
main fuel padded files (ctags_symbol_file ∷ []) = some (exits 1)
main fuel padded files (ctags_symbol_file ∷ orig_src_file_path ∷ []) =
    elim (files.opens (gene_gtest_file_path orig_src_file_path)) [
      | some old ↦ some (exits 1)
      | none ↦
          generate fuel padded files orig_src_file_path
            (find_symbol_lines_in_ctags (files.opens ctags_symbol_file) orig_src_file_path)
    ]
main fuel padded files (a ∷ b ∷ c ∷ more) = some (exits 1)
