-- ===== src/Stub/Mock.antt =====
-- `gene_mock_stub` of cpp/scripts/gene-gtest-stub.cpp.
pub mod Statements
pub mod Laws
use c_workspace.Common.{
  ℕ, zero, suc, ◌+◌, ◌/◌, ◌%◌, ◌==◌, if◌then◌else◌, Option, some, ◌>>=◌, List, [], ◌∷◌, ◌++◌,
}
use c_workspace.Utils.Text.{Text, replace_all}
use c_workspace.Stub.Templates.{Template, bytes, block, instantiate}
use c_workspace.Stub.{
  MethodSymbols, reduce_method_symbols, count_method_params, gene_on_call_method_param_sig,
}

unfoldable pub on_call_template : Template
on_call_template = record {
  marks =
      bytes "__method_name__" ∷ bytes "__on_call_method_param_sig__" ∷ bytes "$origClassName" ∷ [];
  first = block ("" ∷ "                              ON_CALL(*this, " ∷ []);
  rest =
      (0, bytes "(")
      ∷ (1, block ("))" ∷ "                              .WillByDefault(Invoke(&_real, &" ∷ []))
      ∷ (2, bytes "::")
      ∷ (0, bytes "));")
      ∷ [];
}

unfoldable pub mock_method_template : Template
mock_method_template = record {
  marks =
      bytes "__method_name__" ∷ bytes "__method_signature__" ∷ bytes "__method_param_count__" ∷ [];
  first = block ("" ∷ "          MOCK_METHOD" ∷ []);
  rest = (2, bytes "(") ∷ (0, bytes ", ") ∷ (1, bytes ");") ∷ [];
}

unfoldable pub mock_template : Template
mock_template = record {
  marks =
      bytes "${mockClassName}"
      ∷ bytes "${origClassName}"
      ∷ bytes "${onCallStub}"
      ∷ bytes "${mockMethodStub}"
      ∷ [];
  first = block (
      "" ∷ "    /////////////////////////" ∷ "    /////// Mocking  ////////"
      ∷ "    /////////////////////////" ∷ "" ∷ "    using ::testing::AnyNumber;"
      ∷ "    using ::testing::AtLeast;" ∷ "    using ::testing::AtMost;"
      ∷ "    using ::testing::Between;" ∷ "    using ::testing::Exactly;" ∷ ""
      ∷ "    using ::testing::_;" ∷ "" ∷ "    using ::testing::Invoke;"
      ∷ "    using ::testing::MockFunction;" ∷ "" ∷ "    /**"
      ∷ "     * Mock，行为代理到真正的对象，由此你可以测试 调用时参数/顺序/次数/...，而这个 Mock 的输出却是和生产环境一样！" ∷ "     *"
      ∷ "     * 用法:" ∷ "     *" ∷ "     *   " ∷ []);
  rest =
      (
        0,
        block (
            " mock;" ∷ "     *   EXPECT_CALL(mock, methodXXX()).Times(3);" ∷ "     *   // 使用 mock"
            ∷ "     *   // ..." ∷ "     */" ∷ "" ∷ "    // 请按测试需要修改" ∷ "    class " ∷ []),
      )
      ∷ (0, bytes " : public ")
      ∷ (1, block (" {" ∷ "     public:" ∷ "      " ∷ []))
      ∷ (0, block ("() {" ∷ "        // 需要代理到真正的对象来执行的方法" ∷ "        " ∷ []))
      ∷ (
        2,
        block
            ("" ∷ "      }" ∷ "" ∷ "      // 需要拿 Mock 封装一层的方法，这些方法会被 Mock 检验调用状态" ∷ "      " ∷ []),
      )
      ∷ (3, block ("" ∷ "" ∷ "     private:" ∷ "      // 初始化真正的对象" ∷ "      " ∷ []))
      ∷ (1, block (" _real;" ∷ "    };" ∷ "  " ∷ []))
      ∷ [];
}

abbrev pub digits : ℕ → ℕ → Text
digits zero n = []
digits (suc fuel) n =
    let more = digits fuel (n / 10) in
    if n / 10 == 0 then (48 + n % 10) ∷ [] else more ++ ((48 + n % 10) ∷ [])

-- `std::to_string`
abbrev pub to_string : ℕ → Text
to_string n = digits (n + 1) n

-- The functions that `reduceMethodSymbols` is given. `padded` is as in `gene_onCall_method_param_sig`.
unfoldable pub on_call_stub : ℕ → (ℕ → Text) → Text → Text → Text → Text → Option Text
on_call_stub fuel padded orig_class_name accu method_name method_signature = do
  sig ← gene_on_call_method_param_sig fuel padded (count_method_params method_signature)
  stub ← instantiate fuel on_call_template (method_name ∷ sig ∷ orig_class_name ∷ [])
  some (accu ++ stub)

unfoldable pub mock_method_stub : ℕ → Text → Text → Text → Option Text
mock_method_stub fuel accu method_name method_signature = do
  sig_copy ← replace_all fuel method_signature method_name []
  stub ←
      instantiate fuel mock_method_template
        (method_name ∷ sig_copy.1 ∷ to_string (count_method_params method_signature) ∷ [])
  some (accu ++ stub)

unfoldable pub gene_mock_stub : ℕ → (ℕ → Text) → Text → Text → MethodSymbols → Option Text
gene_mock_stub fuel padded orig_class_name mock_class_name symbols = do
  on_calls ← reduce_method_symbols symbols (on_call_stub fuel padded orig_class_name) []
  mock_methods ← reduce_method_symbols symbols (mock_method_stub fuel) []
  instantiate fuel mock_template (mock_class_name ∷ orig_class_name ∷ on_calls ∷ mock_methods ∷ [])
