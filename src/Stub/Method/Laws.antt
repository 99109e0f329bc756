-- ===== src/Stub/Method/Laws.antt =====
-- What `gene_gtest_method_stub` of cpp/scripts/gene-gtest-stub.cpp writes.
use c_workspace.Common.{
  ℕ, ◌≤◌, ◌≡◌, refl, ◌==◌, true, false, some, ◌>>=◌, List, [], ◌∷◌, ◌++◌, arith, All, All-append,
}
use c_workspace.Utils.Text.{Text}
use c_workspace.Stub.Templates.{bytes, nth, instantiate}
use c_workspace.Stub.Templates.Fill.{Glued}
use c_workspace.Stub.Templates.Each.{is_template, instantiate_lem, free-Glued}
use c_workspace.Stub.Templates.Dollar.{
  NoDollar, has_no_dollar, has_no_dollar-NoDollar, template_no_dollar, NoDollar-Glued,
  filled-NoDollar,
}
use c_workspace.Stub.Method.{method_template, method_head, test_stub, gene_gtest_method_stub}
use c_workspace.Stub.Methods.{
  Method, signature, symbols_of, IsClear, IsClear-append, IsMethod, test_of, for_each,
  reduce-for_each, for_each-NoDollar,
}

method_is_template : is_template method_template ≡ true
unfolding method_template
method_is_template = refl

method_no_dollar : template_no_dollar method_template ≡ true
unfolding method_template
method_no_dollar = refl

head_no_dollar : has_no_dollar method_head ≡ true
unfolding method_head
head_no_dollar = refl

signature-IsClear : (m : Method) → IsMethod m → IsClear (signature m)
signature-IsClear m a =
    IsClear-append m.before (m.name ++ m.behind) a.before_clear
      (IsClear-append m.name m.behind a.name_clear a.behind_clear)

-- The block with the tests.
abbrev pub tests_of : Text → Text → List Method → Text
tests_of test_class_name mock_class_name methods =
    method_head ++ for_each (test_of test_class_name mock_class_name) methods

module _ (test mock : Text) (a : IsClear test) (b : IsClear mock) where
  abbrev values : Method → List Text
  values m = m.name ∷ signature m ∷ test ∷ mock ∷ []

  method-Glued :
      (m : Method)
      → IsMethod m
      → All (λ mark. Glued mark (nth (values m)) method_template.rest) method_template.marks
  unfolding method_template
  method-Glued m c =
      let sig = signature-IsClear m c in
      let dollars : All NoDollar (values m) =
        (c.name_clear.no_dollar, (sig.no_dollar, (a.no_dollar, (b.no_dollar, tt)))) in
      (
        free-Glued (bytes "__method_name__") (values m) method_template.rest
            (c.name_clear.no_mark.0, (sig.no_mark.0, (a.no_mark.0, (b.no_mark.0, tt)))) refl,
        (
          free-Glued (bytes "__method_signature__") (values m) method_template.rest
              (c.name_clear.no_mark.1.0, (sig.no_mark.1.0, (a.no_mark.1.0, (b.no_mark.1.0, tt))))
              refl,
          (
            NoDollar-Glued (bytes "{testClassName}") (values m) method_template.rest dollars refl,
            (
              NoDollar-Glued (bytes "{mockClassName}") (values m) method_template.rest dollars refl,
              tt,
            ),
          ),
        ),
      )

  test_stub_lem :
      (fuel : ℕ) (m : Method) (accu : Text)
      → 9 ≤ fuel
      → IsMethod m
      → test_stub fuel test mock accu m.name (signature m) ≡ some (accu ++ test_of test mock m)
  unfolding test_stub
  test_stub_lem fuel m accu h c =
      let stub : instantiate fuel method_template (values m) ≡ some (test_of test mock m) =
        instantiate_lem fuel method_template (values m) method_is_template
          (unfold method_template in refl) (unfold method_template in omega arith)
          (method-Glued m c) in
      rw (stub, ◌>>=◌) refl

  test_of-NoDollar : (m : Method) → IsMethod m → NoDollar (test_of test mock m)
  test_of-NoDollar m c = filled-NoDollar method_template (values m) method_no_dollar (
    c.name_clear.no_dollar,
    ((signature-IsClear m c).no_dollar, (a.no_dollar, (b.no_dollar, tt))),
  )

  -- `gene_gtest_method_stub` writes a test for each method, behind a heading.
  pub gene_gtest_method_stub_lem :
      (fuel : ℕ) (methods : List Method)
      → 9 ≤ fuel
      → All IsMethod methods
      → gene_gtest_method_stub fuel test mock (symbols_of methods)
        ≡ some (tests_of test mock methods)
  unfolding gene_gtest_method_stub
  gene_gtest_method_stub_lem fuel methods h c =
      rw
        (
          reduce-for_each IsMethod (test_stub fuel test mock) (test_of test mock)
              (λ m accu d. test_stub_lem fuel m accu h d) methods [] c,
          ◌>>=◌,
        )
        refl

  pub tests_of-NoDollar :
      (methods : List Method) → All IsMethod methods → NoDollar (tests_of test mock methods)
  tests_of-NoDollar methods c =
      All-append (λ c. (36 == c) ≡ false) method_head (for_each (test_of test mock) methods)
        (has_no_dollar-NoDollar method_head head_no_dollar)
        (for_each-NoDollar IsMethod (test_of test mock) test_of-NoDollar methods c)
