-- ===== src/Stub/Blocks.antt =====
-- The blocks of cpp/scripts/gene-gtest-stub.cpp that are the same in each file.
use c_workspace.Common.{[], ◌∷◌}
use c_workspace.Utils.Text.{Text}
use c_workspace.Stub.Templates.{block}

unfoldable pub gene_assertions_stub : Text
gene_assertions_stub = block (
    "" ∷ "    ///////////////////////////" ∷ "    /////// Assertions ////////"
    ∷ "    ///////////////////////////" ∷ "" ∷ "    /**" ∷ "     * 请按测试需要修改，输出更有意义的报错信息" ∷ "     *"
    ∷ "     * 用法:" ∷ "     *   EXPECT_TRUE(isEven(3)); // 输出写入 AssertionFailure() 的数据"
    ∷ "     *   EXPECT_FALSE(isEven(4)); // 输出写入 AssertionSuccess() 的数据" ∷ "     */"
    ∷ "    const auto isEven = [](int n) -> ::testing::AssertionResult {"
    ∷ "      if ((n % 2) == 0) {"
    ∷ "        return ::testing::AssertionSuccess() << n << \" is even\";" ∷ "      } else {"
    ∷ "        return ::testing::AssertionFailure() << n << \" is odd\";" ∷ "      }" ∷ "    };"
    ∷ "  " ∷ [])

unfoldable pub gene_matcher_stub : Text
gene_matcher_stub = block (
    "" ∷ "    /////////////////////////" ∷ "    /////// Matchers ////////"
    ∷ "    /////////////////////////" ∷ "" ∷ "    // Equal" ∷ "    using ::testing::AllOf;"
    ∷ "    using ::testing::AnyNumber;" ∷ "    using ::testing::Eq;" ∷ "    using ::testing::Ge;"
    ∷ "    using ::testing::Gt;" ∷ "    using ::testing::IsNull;" ∷ "    using ::testing::Le;"
    ∷ "    using ::testing::Lt;" ∷ "    using ::testing::Ne;" ∷ "    using ::testing::NotNull;"
    ∷ "    using ::testing::Optional;" ∷ "    using ::testing::Ref;"
    ∷ "    using ::testing::TypedEq;" ∷ "    using ::testing::VariantWith;" ∷ "" ∷ "    // float"
    ∷ "    using ::testing::DoubleEq;" ∷ "    using ::testing::DoubleNear;"
    ∷ "    using ::testing::FloatEq;" ∷ "    using ::testing::FloatNear;"
    ∷ "    using ::testing::NanSensitiveDoubleEq;" ∷ "    using ::testing::NanSensitiveDoubleNear;"
    ∷ "    using ::testing::NanSensitiveFloatEq;" ∷ "    using ::testing::NanSensitiveFloatNear;"
    ∷ "" ∷ "    // string" ∷ "    using ::testing::ContainsRegex;"
    ∷ "    using ::testing::EndsWith;" ∷ "    using ::testing::HasSubstr;"
    ∷ "    using ::testing::MatchesRegex;" ∷ "    using ::testing::StartsWith;"
    ∷ "    using ::testing::StrCaseEq;" ∷ "    using ::testing::StrCaseNe;"
    ∷ "    using ::testing::StrEq;" ∷ "    using ::testing::StrNe;" ∷ "" ∷ "    // container"
    ∷ "    using ::testing::ContainerEq;" ∷ "    using ::testing::Contains;"
    ∷ "    using ::testing::Each;" ∷ "    using ::testing::ElementsAre;"
    ∷ "    using ::testing::ElementsAreArray;" ∷ "    using ::testing::IsEmpty;"
    ∷ "    using ::testing::Pointwise;" ∷ "    using ::testing::SizeIs;"
    ∷ "    using ::testing::UnorderedElementsAre;" ∷ "    using ::testing::WhenSorted;"
    ∷ "    using ::testing::WhenSortedBy;" ∷ "" ∷ "    /**"
    ∷ "     * Matcher 用法: 可以用在 ASSERT_THAT / EXPECT_THAT / EXPECT_CALL 中" ∷ "     *" ∷ "     * E.g:"
    ∷ "     *" ∷ "     *   EXPECT_THAT(\"hello_world\", StartsWith(\"hello\"));" ∷ "     *"
    ∷ "     *   // 结合 mock"
    ∷ "     *   EXPECT_CALL(foo, methodXXX( AllOf(Gt(5),Ne(10)) )); // foo.methodXXX() 接收的参数 must be > 5 and != 10."
    ∷ "     *   EXPECT_CALL(foo, InRange( Ne(0), _ )).With(Lt());"
    ∷ "     *   EXPECT_CALL(foo, methodXXX(Lt(5))).WillRepeatedly(Return('a'));" ∷ "     *"
    ∷ "     * 速查文档:" ∷ "     *" ∷ "     * Matcher API:"
    ∷ "     *   https://github.com/abseil/googletest/blob/master/googlemock/docs/CheatSheet.md"
    ∷ "     *" ∷ "     * Matcher UserGuide:"
    ∷ "     *   https://github.com/abseil/googletest/blob/master/googlemock/docs/CookBook.md#using-matchers"
    ∷ "     */" ∷ "  " ∷ [])
