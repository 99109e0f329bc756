-- ===== src/Stub/Main/Laws.antt =====
-- What cpp/scripts/gene-gtest-stub.cpp writes for a file.
use c_workspace.Common.{ℕ, List, [], ◌∷◌, ◌++◌}
use c_workspace.Utils.Text.{Text, codes}
use c_workspace.Utils.Text.Template.{fill}
use c_workspace.Stub.{file_head, file_middle, file_tail}
use c_workspace.Stub.Templates.{filled}
use c_workspace.Stub.Fixture.{fixture_template}
use c_workspace.Stub.Blocks.{gene_assertions_stub, gene_matcher_stub}
use c_workspace.Stub.Mock.Laws.{mock_of}
use c_workspace.Stub.Method.Laws.{tests_of}
use c_workspace.Stub.Methods.{Method}

-- The block with the fixture.
abbrev pub fixture_of : Text → Text → Text
fixture_of orig_class_name test_class_name =
    filled fixture_template (test_class_name ∷ orig_class_name ∷ [])

abbrev pub mock_name : Text → Text
mock_name class_name = class_name ++ codes "Mock"

abbrev pub test_name : Text → Text
test_name class_name = class_name ++ codes "Test"

-- The text of the test file for the methods of the class.
abbrev pub test_file : (ℕ → Text) → Text → Text → List Method → Text
test_file padded path class_name methods =
    file_head
    ++ (path
        ++ (file_middle
            ++ (fill (10 ∷ []) (fixture_of class_name (test_name class_name)) (
                  gene_assertions_stub
                  ∷ gene_matcher_stub
                  ∷ mock_of padded class_name (mock_name class_name) methods
                  ∷ tests_of (test_name class_name) (mock_name class_name) methods
                  ∷ [])
                ++ file_tail)))
