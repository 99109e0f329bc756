-- ===== src/Stub/MainExamples.antt =====
-- A run of cpp/scripts/gene-gtest-stub.cpp on lines of ctags about utils/pipe/Pipe.h.
use c_workspace.Common.{
  ◌==◌, Bool, Bool-cases, ℕ, zero, suc, ◌≡◌, refl, true, false, none, some, List, [], ◌∷◌, ◌++◌,
  arith, All, inl, inr, replicate, if◌then◌else◌,
}
use c_workspace.Utils.Text.{Text, codes, same}
use c_workspace.Stub.Ctags.Laws.{Tag, line_of, Dots, Lacks}
use c_workspace.Stub.Ctags.Symbols.{Entry, tagged, other, lines_of, unlines}
use c_workspace.Stub.{is_dot, are_dots}
use c_workspace.Stub.Paths.{get_class_name_from_path, gene_gtest_file_path}
use c_workspace.Stub.Paths.Laws.{path_of, paths_lem}
use c_workspace.Stub.Methods.{Method}
use c_workspace.Stub.Main.Unnamed.{gtest_file_stub-diverges}
use c_workspace.Stub.Main.{gtest_file_stub, Files}

abbrev path : Text
path = codes "utils/pipe/Pipe.h"

abbrev test_path : Text
test_path = codes "test/utils/pipe/Pipe_unittest.cc"

abbrev place : Text
place = path ++ (9 ∷ [])

abbrev rest : Text
rest = codes "$/;\"\tf\tclass:Pipe"

-- The constructor, and the method that runs the steps.
abbrev constructor : Tag
constructor = record {
  name = codes "Pipe";
  place = place;
  signature = codes "Pipe() ";
  rest = rest;
}

abbrev start : Tag
start = record {
  name = codes "start";
  place = place;
  signature = codes "ReturnType start(const T &initValue) ";
  rest = rest;
}

abbrev class_line : Text
class_line = codes "Pipe\tutils/pipe/Pipe.h\t/^class Pipe {$/;\"\tc"

abbrev dtor_line : Text
dtor_line = codes "~Pipe\tutils/pipe/Pipe.h\t/^  ~Pipe() { delete _steps; }$/;\"\tf\tclass:Pipe"

abbrev entries : List Entry
entries = tagged constructor ∷ other class_line ∷ tagged start ∷ other dtor_line ∷ []

abbrev start_method : Method
start_method = record {
  name = codes "start";
  before = codes "ReturnType ";
  behind = codes "(const T &initValue) ";
}

-- Tests for the hypotheses.
avoids : ℕ → Text → Bool
avoids x [] = true
avoids x (c ∷ s) = if c == x then false else avoids x s

avoids-All : (x : ℕ) (s : Text) → avoids x s ≡ true → All (λ c. (c == x) ≡ false) s
unfolding avoids
avoids-All x [] h = tt
avoids-All x (c ∷ s) h = elim (Bool-cases (c == x)) [
  | inl same' ↦ absurd (ground arith)
  | inr other' ↦ (other', avoids-All x s (ground arith))
]

are_dots-Dots : (s : Text) → are_dots s ≡ true → Dots s
are_dots-Dots [] h = tt
are_dots-Dots (c ∷ s) h = elim (Bool-cases (is_dot c)) [
  | inl dot ↦ (dot, are_dots-Dots s (ground arith))
  | inr none' ↦ absurd (ground arith)
]

both-Lacks : (x : ℕ) (s : Text) → Dots s → All (λ c. (c == x) ≡ false) s → Lacks x s
both-Lacks x [] a b = tt
both-Lacks x (c ∷ s) a b = ((a.0, b.0), both-Lacks x s a.1 b.1)

lacks : (x : ℕ) (s : Text) → are_dots s ≡ true → avoids x s ≡ true → Lacks x s
lacks x s h k = both-Lacks x s (are_dots-Dots s h) (avoids-All x s k)

paths_lem_example :
    (get_class_name_from_path (path_of (codes "utils/pipe") (codes "Pipe") (codes "h"))
      ≡ codes "Pipe")
    × (gene_gtest_file_path (path_of (codes "utils/pipe") (codes "Pipe") (codes "h"))
        ≡ codes "test/" ++ (codes "utils/pipe" ++ (47 ∷ (codes "Pipe" ++ codes "_unittest.cc"))))
unfolding avoids
paths_lem_example =
    paths_lem (codes "utils/pipe") (codes "Pipe") (codes "h") refl
      (are_dots-Dots (codes "utils/pipe") refl) refl (lacks 46 (codes "Pipe") refl refl)
      (lacks 47 (codes "Pipe") refl refl) refl (lacks 46 (codes "h") refl refl)
      (lacks 47 (codes "h") refl refl)

-- There is the file of ctags only, with one line about another file, and each file can be written.
abbrev main_line : Text
main_line = codes "main\tdemo.cpp\t/^int main() {$/;\"\tf"

abbrev all : List Text
all = main_line ∷ lines_of entries

abbrev files : Files
files = record {
  opens = λ name. if same name (codes "tags") then some (unlines all) else none;
  writable = λ name. true;
}

-- Blanks, and the zero behind them.
abbrev blanks_and_zero : ℕ → Text
blanks_and_zero zero = []
blanks_and_zero (suc zero) = 48 ∷ []
blanks_and_zero (suc (suc n)) = 32 ∷ blanks_and_zero (suc n)

-- A method whose body does not begin on its line.
abbrev split_line : Text
split_line = codes "stop\tutils/pipe/Pipe.h\t/^  void stop()$/;\"\tf\tclass:Pipe"

gtest_file_stub-diverges_example :
    gtest_file_stub 100 (λ n. replicate n 48) path (line_of constructor ∷ split_line ∷ []) ≡ none
gtest_file_stub-diverges_example =
    gtest_file_stub-diverges 100 (λ n. replicate n 48) path (line_of constructor ∷ split_line ∷ [])
      (line_of constructor) (split_line ∷ []) refl (inl refl)
