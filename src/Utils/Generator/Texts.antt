-- ===== src/Utils/Generator/Texts.antt =====
-- The parts of the URL of cpp/demo.cpp, and their concatenation.
use c_workspace.Common.{
  ◌≤◌, ◌≡◌, refl, sym, ap, ◌∙◌, inl, inr, leb, Bool, true, false, Bool-cases, if◌then◌else◌, some,
  ◌>>=◌, List, [], ◌∷◌, ◌++◌, append_assoc, append-nil, arith, length, drop,
}
use c_workspace.Utils.Text.{Text, codes, same, string_to_upper}
use c_workspace.Utils.Combinator.{accumulate, remove_if, not_that}
use c_workspace.Utils.Generator.Made.{made}

-- What `map` makes of a name, if the data have the three bytes that are cut off.
abbrev pub text_of : Text → Text → Text
text_of data_to_process name =
    if same name (codes "username")
    then codes "username=" ++ drop 3 data_to_process
    else if same name (codes "pwd")
    then codes "pwd=" ++ string_to_upper data_to_process
    else if same name (codes "ip")
    then codes "ip=10.0.0.27"
    else codes "="

abbrev pub texts : Text → List Text → List Text
texts data_to_process [] = []
texts data_to_process (name ∷ names) = text_of data_to_process name ∷ texts data_to_process names

-- A part of the URL: nothing of an unknown name.
abbrev pub url_part : Text → Text → Text
url_part data_to_process name =
    if same name (codes "username")
    then codes "username=" ++ (drop 3 data_to_process ++ codes "&")
    else if same name (codes "pwd")
    then codes "pwd=" ++ (string_to_upper data_to_process ++ codes "&")
    else if same name (codes "ip")
    then codes "ip=10.0.0.27&"
    else []

abbrev pub url_parts : Text → List Text → Text
url_parts data_to_process [] = []
url_parts data_to_process (name ∷ names) =
    url_part data_to_process name ++ url_parts data_to_process names

abbrev is_kept : Text → Bool
is_kept s = if same s (codes "=") then false else true

abbrev joined : Text → Text → Text
joined accu s = (accu ++ s) ++ codes "&"

pub text_made :
    (data_to_process name : Text)
    → 3 ≤ length data_to_process
    → (made (name, data_to_process) >>= λ p. some (p.0 ++ (codes "=" ++ p.1)))
      ≡ some (text_of data_to_process name)
text_made data_to_process name h =
    let l : leb 3 (length data_to_process) ≡ true = ground arith in
    elim (Bool-cases (same name (codes "username"))) [
      | inl b ↦ rw (b, l) refl
      | inr b ↦ elim (Bool-cases (same name (codes "pwd"))) [
        | inl c ↦ rw (b, c) refl
        | inr c ↦ elim (Bool-cases (same name (codes "ip"))) [
          | inl d ↦ rw (b, c, d) refl
          | inr d ↦ rw (b, c, d) refl
        ]
      ]
    ]

-- What is joined of a text, and of those behind it.
joined_part :
    (data_to_process name accu : Text) (l : List Text)
    → accumulate joined (remove_if (not_that is_kept) (text_of data_to_process name ∷ l)) accu
      ≡ accumulate joined (remove_if (not_that is_kept) l) (accu ++ url_part data_to_process name)
joined_part data_to_process name accu l =
    let then_rest = λ (t : Text). accumulate joined (remove_if (not_that is_kept) l) t in
    elim (Bool-cases (same name (codes "username"))) [
      | inl b ↦ rw b (ap then_rest (simp append_assoc))
      | inr b ↦ elim (Bool-cases (same name (codes "pwd"))) [
        | inl c ↦ rw (b, c) (ap then_rest (simp append_assoc))
        | inr c ↦ elim (Bool-cases (same name (codes "ip"))) [
          | inl d ↦ rw (b, c, d) (ap then_rest (simp append_assoc))
          | inr d ↦ rw (b, c, d) (ap then_rest (sym (append-nil accu)))
        ]
      ]
    ]

pub joined_parts :
    (data_to_process accu : Text) (names : List Text)
    → accumulate joined (remove_if (not_that is_kept) (texts data_to_process names)) accu
      ≡ accu ++ url_parts data_to_process names
joined_parts data_to_process accu [] = sym (append-nil accu)
joined_parts data_to_process accu (name ∷ names) =
    joined_part data_to_process name accu (texts data_to_process names)
    ∙ joined_parts data_to_process (accu ++ url_part data_to_process name) names
    ∙ append_assoc accu (url_part data_to_process name) (url_parts data_to_process names)
