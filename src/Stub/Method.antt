-- ===== src/Stub/Method.antt =====
-- `gene_gtest_method_stub` of cpp/scripts/gene-gtest-stub.cpp.
pub mod Laws
use c_workspace.Common.{ℕ, Option, some, ◌>>=◌, List, [], ◌∷◌, ◌++◌}
use c_workspace.Utils.Text.{Text, replace_all}
use c_workspace.Stub.Templates.{Template, bytes, block, instantiate}
use c_workspace.Stub.{MethodSymbols, reduce_method_symbols}

unfoldable pub method_template : Template
method_template = record {
  marks =
      bytes "__method_name__"
      ∷ bytes "__method_signature__"
      ∷ bytes "${testClassName}"
      ∷ bytes "${mockClassName}"
      ∷ [];
  first = block ("" ∷ "                              // test for: " ∷ []);
  rest =
      (1, block ("" ∷ "                              TEST_P(" ∷ []))
      ∷ (2, bytes ", ")
      ∷ (
        0,
        block (
            ") {" ∷ "                                using namespace std;" ∷ ""
            ∷ "                                const ParamType& testParam = GetParam();" ∷ ""
            ∷ "                                // 默认模式 Mock，没有被 EXPECT_CALL 的方法会打印 warning，请按测试需要修改"
            ∷ "                                " ∷ []),
      )
      ∷ (
        3,
        block (
            " mock;" ∷ "                                // 配置/使用 mock"
            ∷ "                              }" ∷ "                            " ∷ []),
      )
      ∷ [];
}

unfoldable pub method_head : Text
method_head = block (
    "" ∷ "    /////////////////////////" ∷ "    ////// Unit Test  ///////"
    ∷ "    /////////////////////////" ∷ "  " ∷ [])

-- The function that `reduceMethodSymbols` is given.
unfoldable pub test_stub : ℕ → Text → Text → Text → Text → Text → Option Text
test_stub fuel test_class_name mock_class_name accu method_name method_signature = do
  stub ←
      instantiate fuel method_template
        (method_name ∷ method_signature ∷ test_class_name ∷ mock_class_name ∷ [])
  some (accu ++ stub)

unfoldable pub gene_gtest_method_stub : ℕ → Text → Text → MethodSymbols → Option Text
gene_gtest_method_stub fuel test_class_name mock_class_name method_symbols = do
  stubs ← reduce_method_symbols method_symbols (test_stub fuel test_class_name mock_class_name) []
  some (method_head ++ stubs)
