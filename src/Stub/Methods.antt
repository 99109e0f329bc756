-- ===== src/Stub/Methods.antt =====
-- The methods of a class as cpp/scripts/gene-gtest-stub.cpp has them, and what it writes for each.
use c_workspace.Common.{
  ℕ, ◌≤◌, ◌≡◌, sym, ap, ◌∙◌, ◌==◌, true, false, Option, some, ◌>>=◌, List, [], ◌∷◌, ◌++◌,
  append_assoc, append-nil, length, All, All-append,
}
use c_workspace.Utils.Text.{Text}
use c_workspace.Utils.Text.Template.{is_free, is_free-append}
use c_workspace.Stub.{MethodSymbols, count_method_params, reduce_method_symbols}
use c_workspace.Stub.Laws.{params}
use c_workspace.Stub.Templates.{bytes, filled}
use c_workspace.Stub.Templates.Dollar.{NoDollar}
use c_workspace.Stub.Mock.{on_call_template, mock_method_template, to_string}
use c_workspace.Stub.Method.{method_template}

-- A method, with what stands before and behind its name in the signature.
pub record Method : Type 0 where
  pub name : Text
  pub before : Text
  pub behind : Text

abbrev pub signature : Method → Text
signature m = m.before ++ (m.name ++ m.behind)

abbrev pub symbols_of : List Method → MethodSymbols
symbols_of [] = []
symbols_of (m ∷ methods) = (m.name, signature m) ∷ symbols_of methods

-- The marks of the templates for a method.
abbrev pub method_marks : List Text
method_marks =
    bytes "__method_name__"
    ∷ bytes "__method_signature__"
    ∷ bytes "__on_call_method_param_sig__"
    ∷ bytes "__method_param_count__"
    ∷ []

-- Has no "$", and none of the marks, nor the begin of one at its end.
pub record IsClear (v : Text) : Type 0 where
  pub no_dollar : NoDollar v
  pub no_mark : All (λ m. is_free m v ≡ true) method_marks

frees-append :
    (marks : List Text) (s t : Text)
    → All (λ m. is_free m s ≡ true) marks
    → All (λ m. is_free m t ≡ true) marks
    → All (λ m. is_free m (s ++ t) ≡ true) marks
frees-append [] s t a b = tt
frees-append (m ∷ marks) s t a b = (is_free-append m s t a.0 b.0, frees-append marks s t a.1 b.1)

pub IsClear-append : (s t : Text) → IsClear s → IsClear t → IsClear (s ++ t)
IsClear-append s t a b = record {
  no_dollar = All-append (λ c. (36 == c) ≡ false) s t a.no_dollar b.no_dollar;
  no_mark = frees-append method_marks s t a.no_mark b.no_mark;
}

-- A method whose name stands once in its signature, and which the templates can be filled with.
pub record IsMethod (m : Method) : Type 0 where
  pub named : 1 ≤ length m.name
  pub name_clear : IsClear m.name
  pub before_clear : IsClear m.before
  pub behind_clear : IsClear m.behind
  pub once_before : is_free m.name m.before ≡ true
  pub once_behind : is_free m.name m.behind ≡ true

-- The statement ON_CALL.
abbrev pub on_call_of : (ℕ → Text) → Text → Method → Text
on_call_of padded orig_class_name m =
    filled on_call_template
      (m.name ∷ params padded (count_method_params (signature m)) ∷ orig_class_name ∷ [])

-- The statement MOCK_METHOD, with the signature but for the name.
abbrev pub mock_method_of : Method → Text
mock_method_of m =
    filled mock_method_template
      (m.name ∷ (m.before ++ m.behind) ∷ to_string (count_method_params (signature m)) ∷ [])

-- The test of the method.
abbrev pub test_of : Text → Text → Method → Text
test_of test_class_name mock_class_name m =
    filled method_template (m.name ∷ signature m ∷ test_class_name ∷ mock_class_name ∷ [])

-- The texts for all methods, one behind the other.
abbrev pub for_each : (Method → Text) → List Method → Text
for_each f [] = []
for_each f (m ∷ methods) = f m ++ for_each f methods

pub reduce-for_each :
    (P : Method → Type 0) (lamda : Text → Text → Text → Option Text) (f : Method → Text)
    → ((m : Method) (accu : Text) → P m → lamda accu m.name (signature m) ≡ some (accu ++ f m))
    → (methods : List Method) (accu : Text) → All P methods
    → reduce_method_symbols (symbols_of methods) lamda accu ≡ some (accu ++ for_each f methods)
unfolding reduce_method_symbols
reduce-for_each P lamda f h [] accu a = ap some (sym (append-nil accu))
reduce-for_each P lamda f h (m ∷ methods) accu a =
    rw (h m accu a.0, ◌>>=◌)
      (reduce-for_each P lamda f h methods (accu ++ f m) a.1
        ∙ ap some (append_assoc accu (f m) (for_each f methods)))

pub for_each-NoDollar :
    (P : Method → Type 0) (f : Method → Text)
    → ((m : Method) → P m → NoDollar (f m))
    → (methods : List Method) → All P methods
    → NoDollar (for_each f methods)
for_each-NoDollar P f h [] a = tt
for_each-NoDollar P f h (m ∷ methods) a =
    All-append (λ c. (36 == c) ≡ false) (f m) (for_each f methods) (h m a.0)
      (for_each-NoDollar P f h methods a.1)
