-- ===== src/Stub/Fixture.antt =====
-- `gene_gtest_test_fixture_class_stub` of cpp/scripts/gene-gtest-stub.cpp.
use c_workspace.Common.{ℕ, Option, [], ◌∷◌}
use c_workspace.Utils.Text.{Text}
use c_workspace.Stub.Templates.{Template, bytes, block, instantiate}

unfoldable pub fixture_template : Template
fixture_template = record {
  marks = bytes "${testClassName}" ∷ bytes "${origClassName}" ∷ [];
  first = block (
      "" ∷ "    ///////////////////////////" ∷ "    ////// Test Fixture ///////"
      ∷ "    ///////////////////////////" ∷ "" ∷ "    class " ∷ []);
  rest =
      (
        0,
        block (
            " : public ::testing::TestWithParam<std::string> {" ∷ "     public:"
            ∷ "      // Per-test-case set-up. Called before the first test in this test case."
            ∷ "      static void SetUpTestCase() {" ∷ "        using namespace std;"
            ∷ "        // shared_resource_ = new...;" ∷ "      }" ∷ ""
            ∷ "      // Per-test-case tear-down. Called after the last test in this test case."
            ∷ "      static void TearDownTestCase() {" ∷ "        using namespace std;"
            ∷ "        // delete shared_resource_;" ∷ "        // shared_resource_ = NULL;"
            ∷ "      }" ∷ "" ∷ "     protected:" ∷ ""
            ∷ "      // Some expensive resource shared by all tests."
            ∷ "      // static T* shared_resource_;" ∷ "" ∷ "      " ∷ []),
      )
      ∷ (
        0,
        block (
            "() {" ∷ "        using namespace std;"
            ∷ "        const ParamType testParam = GetParam();" ∷ "        //" ∷ "      }" ∷ ""
            ∷ "      ~" ∷ []),
      )
      ∷ (
        0,
        block (
            "() {" ∷ "        //" ∷ "      }" ∷ "" ∷ "      void SetUp() override {"
            ∷ "        using namespace std;" ∷ "        const ParamType testParam = GetParam();"
            ∷ "        // Code here will be called immediately after the constructor (right before each test)."
            ∷ "      }" ∷ "" ∷ "      void TearDown() override {" ∷ "        using namespace std;"
            ∷ "        const ParamType testParam = GetParam();"
            ∷ "        // Code here will be called immediately after each test (right before the destructor)."
            ∷ "      }" ∷ ""
            ∷ "      // Objects declared here can be used by all tests in the test case for Foo."
            ∷ "    };" ∷ "" ∷ "    // T* PipeTest::shared_resource_ = NULL;" ∷ ""
            ∷ "    using ParamType         = std::string;  // 请按测试需要修改 Value-Parameterized 类型"
            ∷ "    ParamType valueParams[] = {\"foo\"};    // 请按测试需要修改 测试参数" ∷ ""
            ∷ "    INSTANTIATE_TEST_CASE_P(" ∷ []),
      )
      ∷ (1, bytes "_UnitTest, ")
      ∷ (0, block (", ::testing::ValuesIn(valueParams));" ∷ "  " ∷ []))
      ∷ [];
}

unfoldable pub gene_gtest_test_fixture_class_stub : ℕ → Text → Text → Option Text
gene_gtest_test_fixture_class_stub fuel orig_class_name test_class_name =
    instantiate fuel fixture_template (test_class_name ∷ orig_class_name ∷ [])
