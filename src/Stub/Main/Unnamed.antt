-- ===== src/Stub/Main/Unnamed.antt =====
-- cpp/scripts/gene-gtest-stub.cpp on a line of ctags that its regular expression does not match.
use c_workspace.Common.{
  ℕ, zero, suc, ◌≡◌, refl, Bool-cases, ◌⊎◌, inl, inr, Option, Option-cases, none, some, ◌>>=◌, List,
  [], ◌∷◌, ◌++◌,
}
use c_workspace.Utils.Text.{Text, codes, find, replace_all}
use c_workspace.Stub.{MethodSymbols, reduce_method_symbols}
use c_workspace.Stub.Ctags.{
  method_lines, match_name, symbol_of, precedes, emplace_symbol, emplace_all,
  parse_all_method_symbols_from_ctags,
}
use c_workspace.Stub.Paths.{get_class_name_from_path}
use c_workspace.Stub.Fixture.{gene_gtest_test_fixture_class_stub}
use c_workspace.Stub.Mock.{on_call_stub, mock_method_stub, gene_mock_stub}
use c_workspace.Stub.Main.{gtest_file_stub}

-- There is a symbol with an empty name.
abbrev HasUnnamed : MethodSymbols → Type 0
HasUnnamed [] = ⊥
HasUnnamed ((name, signature) ∷ symbols) = (name ≡ []) ⊎ HasUnnamed symbols

-- There is a line without a match.
abbrev pub HasUnmatched : List Text → Type 0
HasUnmatched [] = ⊥
HasUnmatched (line ∷ lines) = (match_name [] line ≡ none) ⊎ HasUnmatched lines

emplace_symbol_unnamed :
    (name signature : Text) (accu : MethodSymbols)
    → name ≡ []
    → HasUnnamed (emplace_symbol name signature accu)
emplace_symbol_unnamed [] signature [] e = inl refl
emplace_symbol_unnamed [] signature (([], old) ∷ accu) e = inl refl
emplace_symbol_unnamed [] signature ((c ∷ other', old) ∷ accu) e = inl refl
emplace_symbol_unnamed (c ∷ name) signature accu e = absurd (cc)

emplace_symbol-HasUnnamed :
    (name signature : Text) (accu : MethodSymbols)
    → HasUnnamed accu
    → HasUnnamed (emplace_symbol name signature accu)
emplace_symbol-HasUnnamed name signature [] h = elim h [ ]
emplace_symbol-HasUnnamed name signature ((other', old) ∷ accu) h =
    elim (Bool-cases (precedes name other')) [
      | inl first ↦ rw first (inr h)
      | inr behind ↦ elim (Bool-cases (precedes other' name)) [
        | inl later ↦
            rw (behind, later)
              (elim h [
                | inl here ↦ inl here
                | inr there ↦ inr (emplace_symbol-HasUnnamed name signature accu there)
              ])
        | inr same' ↦ rw (behind, same') h
      ]
    ]

symbol_of-none : (line : Text) → match_name [] line ≡ none → (symbol_of line).0 ≡ []
unfolding symbol_of
symbol_of-none line e = rw (e, symbol_of) refl

emplace_all-HasUnnamed :
    (lines : List Text) (accu : MethodSymbols)
    → HasUnnamed accu ⊎ HasUnmatched lines
    → HasUnnamed (emplace_all lines accu)
emplace_all-HasUnnamed [] accu (inl h) = h
emplace_all-HasUnnamed [] accu (inr h) = elim h [ ]
emplace_all-HasUnnamed (line ∷ lines) accu (inl h) =
    emplace_all-HasUnnamed lines _
      (inl (emplace_symbol-HasUnnamed (symbol_of line).0 (symbol_of line).1 accu h))
emplace_all-HasUnnamed (line ∷ lines) accu (inr (inl e)) = emplace_all-HasUnnamed lines _ (
    inl (emplace_symbol_unnamed (symbol_of line).0 (symbol_of line).1 accu (symbol_of-none line e)))
emplace_all-HasUnnamed (line ∷ lines) accu (inr (inr h)) = emplace_all-HasUnnamed lines _ (inr h)

-- An empty pattern is found again and again.
find_empty : (s : Text) → find [] s ≡ some 0
find_empty [] = refl
find_empty (c ∷ s) = refl

replace_all_empty : (fuel : ℕ) (s : Text) → replace_all fuel s [] [] ≡ none
unfolding replace_all
replace_all_empty zero s = refl
replace_all_empty (suc fuel) s = rw (find_empty s, replace_all) (replace_all_empty fuel s)

reduce_unnamed :
    (fuel : ℕ) (symbols : MethodSymbols) (accu : Text)
    → HasUnnamed symbols
    → reduce_method_symbols symbols (mock_method_stub fuel) accu ≡ none
unfolding reduce_method_symbols
reduce_unnamed fuel [] accu h = elim h [ ]
reduce_unnamed fuel ((name, signature) ∷ symbols) accu (inl e) =
    rw e (unfold mock_method_stub in rw (replace_all_empty fuel signature) refl)
reduce_unnamed fuel ((name, signature) ∷ symbols) accu (inr h) =
    elim (Option-cases (mock_method_stub fuel accu name signature)) [
      | inl e ↦ rw e refl
      | inr (accu', e) ↦ rw (e, ◌>>=◌) (reduce_unnamed fuel symbols accu' h)
    ]

bind_none {ℓ κ} :
    {A : Type ℓ} {B : Type κ} (o : Option A) (f : A → Option B)
    → ((a : A) → f a ≡ none)
    → (o >>= f) ≡ none
bind_none none f h = refl
bind_none (some a) f h = h a

gene_mock_stub_unnamed :
    (fuel : ℕ) (padded : ℕ → Text) (orig mock : Text) (symbols : MethodSymbols)
    → HasUnnamed symbols
    → gene_mock_stub fuel padded orig mock symbols ≡ none
unfolding gene_mock_stub
gene_mock_stub_unnamed fuel padded orig mock symbols h =
    bind_none (reduce_method_symbols symbols (on_call_stub fuel padded orig) []) _
      (λ on_calls. rw (reduce_unnamed fuel symbols [] h) refl)

-- If one of the lines about methods, behind the first of them, is not matched by the regular expression for
-- the name and the signature, then no fuel is enough: the program does not end, and writes no file.
pub gtest_file_stub-diverges :
    (fuel : ℕ) (padded : ℕ → Text) (path : Text) (lines : List Text) (first : Text)
    (rest : List Text)
    → method_lines lines ≡ first ∷ rest
    → HasUnmatched rest
    → gtest_file_stub fuel padded path lines ≡ none
unfolding gtest_file_stub parse_all_method_symbols_from_ctags
gtest_file_stub-diverges fuel padded path lines first rest e h =
    let class_name = get_class_name_from_path path in
    rw (e, ◌>>=◌)
      (bind_none (gene_gtest_test_fixture_class_stub fuel class_name (class_name ++ codes "Test")) _
        (λ fixture.
          rw
            (gene_mock_stub_unnamed fuel padded class_name (class_name ++ codes "Mock")
              (emplace_all rest []) (emplace_all-HasUnnamed rest [] (inr h)))
            refl))
