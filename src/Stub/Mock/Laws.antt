-- ===== src/Stub/Mock/Laws.antt =====
-- What `gene_mock_stub` of cpp/scripts/gene-gtest-stub.cpp writes.
use c_workspace.Common.{ℕ, ◌<◌, ◌≡◌, refl, true, some, ◌>>=◌, List, [], ◌∷◌, arith, All}
use c_workspace.Utils.Text.{Text}
use c_workspace.Stub.{count_method_params}
use c_workspace.Stub.Laws.{IsPadding}
use c_workspace.Stub.Templates.{bytes, nth, filled}
use c_workspace.Stub.Templates.Fill.{Glued}
use c_workspace.Stub.Templates.Each.{is_template, instantiate_lem, rest_free}
use c_workspace.Stub.Templates.Dollar.{
  NoDollar, template_no_dollar, NoDollar-Glued, filled-NoDollar,
}
use c_workspace.Stub.Mock.{mock_template, on_call_stub, mock_method_stub, gene_mock_stub}
use c_workspace.Stub.Methods.{
  Method, signature, symbols_of, IsClear, IsMethod, on_call_of, mock_method_of, for_each,
  reduce-for_each, for_each-NoDollar,
}
use c_workspace.Stub.Mock.Statements.{
  Enough, on_call_stub_lem, mock_method_stub_lem, on_call_of-NoDollar, mock_method_of-NoDollar,
}

mock_is_template : is_template mock_template ≡ true
unfolding mock_template
mock_is_template = refl

mock_no_dollar : template_no_dollar mock_template ≡ true
unfolding mock_template
mock_no_dollar = refl

abbrev mock_values : (ℕ → Text) → Text → Text → List Method → List Text
mock_values padded orig_class_name mock_class_name methods =
    mock_class_name
    ∷ orig_class_name
    ∷ for_each (on_call_of padded orig_class_name) methods
    ∷ for_each mock_method_of methods
    ∷ []

-- The block with the mock.
abbrev pub mock_of : (ℕ → Text) → Text → Text → List Method → Text
mock_of padded orig_class_name mock_class_name methods =
    filled mock_template (mock_values padded orig_class_name mock_class_name methods)

-- A method that can be mocked with the fuel.
abbrev pub IsMockable : ℕ → Method → Type 0
IsMockable fuel m = IsMethod m × (count_method_params (signature m) < fuel)

module _ (padded : ℕ → Text) (law : IsPadding padded) (fuel : ℕ) (orig mock : Text)
    (methods : List Method) (clear : IsClear orig) (clear' : NoDollar mock)
    (mockable : All (IsMockable fuel) methods) where
  values-NoDollar : All NoDollar (mock_values padded orig mock methods)
  values-NoDollar = (
    clear',
    (
      clear.no_dollar,
      (
        for_each-NoDollar (IsMockable fuel) (on_call_of padded orig)
            (λ m a. on_call_of-NoDollar padded law orig m clear a.0) methods mockable,
        (
          for_each-NoDollar (IsMockable fuel) mock_method_of (λ m a. mock_method_of-NoDollar m a.0)
              methods mockable,
          tt,
        ),
      ),
    ),
  )

  pub mock_of-NoDollar : NoDollar (mock_of padded orig mock methods)
  mock_of-NoDollar =
      filled-NoDollar mock_template (mock_values padded orig mock methods) mock_no_dollar
        values-NoDollar

  mock-Glued :
      All
        (λ m. Glued m (nth (mock_values padded orig mock methods)) mock_template.rest)
        mock_template.marks
  unfolding mock_template
  mock-Glued =
      let glue = λ (p : Text) (r : rest_free (36 ∷ p) mock_template.rest ≡ true).
        NoDollar-Glued p (mock_values padded orig mock methods) mock_template.rest values-NoDollar
          r in
      (
        glue (bytes "{mockClassName}") refl,
        (
          glue (bytes "{origClassName}") refl,
          (glue (bytes "{onCallStub}") refl, (glue (bytes "{mockMethodStub}") refl, tt)),
        ),
      )

  -- `gene_mock_stub` fills its template with the names of the classes, and with the two statements for
  -- each method.
  pub gene_mock_stub_lem :
      Enough fuel
      → gene_mock_stub fuel padded orig mock (symbols_of methods)
        ≡ some (mock_of padded orig mock methods)
  unfolding gene_mock_stub
  gene_mock_stub_lem h =
      let on_calls =
        reduce-for_each (IsMockable fuel) (on_call_stub fuel padded orig) (on_call_of padded orig)
          (λ m accu a. on_call_stub_lem fuel padded orig m accu law h clear a.0 a.1) methods []
          mockable in
      let mock_methods =
        reduce-for_each (IsMockable fuel) (mock_method_stub fuel) mock_method_of
          (λ m accu a. mock_method_stub_lem fuel m accu h a.0) methods [] mockable in
      rw (on_calls, ◌>>=◌, mock_methods, ◌>>=◌)
        (instantiate_lem fuel mock_template (mock_values padded orig mock methods) mock_is_template
          (unfold mock_template in refl) (unfold mock_template in omega arith) mock-Glued)
