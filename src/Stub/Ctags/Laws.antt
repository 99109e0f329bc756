-- ===== src/Stub/Ctags/Laws.antt =====
-- cpp/scripts/gene-gtest-stub.cpp reads the lines that ctags writes about methods.
use c_workspace.Common.{
  ℕ, ◌≡◌, refl, sym, ap, ◌∙◌, ◌==◌, ◌&&◌, ◌||◌, Bool, true, false, none, some, ◌>>=◌, [], ◌∷◌, ◌++◌,
  append_assoc, append-nil, arith, All,
}
use c_workspace.Utils.Text.{Text, codes}
use c_workspace.Utils.Text.Template.{differ, is_free}
use c_workspace.Stub.{is_dot}
use c_workspace.Stub.Ctags.{
  after, begins_dot, is_function_line, is_some_text, match_signature, match_address, match_name,
  symbol_of,
}

pub is_some_text-append : (s : Text) (c : ℕ) → is_some_text (s ++ (c ∷ [])) ≡ true
is_some_text-append [] c = refl
is_some_text-append (d ∷ s) c = refl

-- On one line, and without a byte.
abbrev pub Lacks : ℕ → Text → Type 0
Lacks x = All (λ c. (is_dot c ≡ true) × ((c == x) ≡ false))

pub and_false : (b : Bool) → (b && false) ≡ false
and_false true = refl
and_false false = refl

match_signature_lem :
    (group signature rest : Text)
    → Lacks 123 signature
    → is_some_text (group ++ signature) ≡ true
    → begins_dot rest ≡ true
    → match_signature group (signature ++ (123 ∷ rest)) ≡ some (group ++ signature)
match_signature_lem group [] rest a h k =
    let e : is_some_text group ≡ true = ap is_some_text (sym (append-nil group)) ∙ h in
    rw (e, k, append-nil group) refl
match_signature_lem group (c ∷ s) rest a h k =
    let more : match_signature (group ++ (c ∷ [])) (s ++ (123 ∷ rest)) ≡ some (group ++ (c ∷ s)) =
      match_signature_lem (group ++ (c ∷ [])) s rest a.1
        (ap is_some_text (append_assoc group (c ∷ []) s) ∙ h) k
      ∙ ap some (append_assoc group (c ∷ []) s) in
    rw (a.0.1, and_false (is_some_text group), a.0.0) more

-- A text that differs from a pattern is no match for it.
differ-after : (p s t : Text) → differ p s ≡ true → after p (s ++ t) ≡ none
differ-after [] s t h = absurd (ground arith)
differ-after (x ∷ p) [] t h = absurd (ground arith)
differ-after (x ∷ p) (c ∷ s) t h = ground (arith, differ-after p s t)

abbrev pub Dots : Text → Type 0
Dots = All (λ c. is_dot c ≡ true)

match_address_lem :
    (seen : Bool) (place t signature : Text)
    → Dots place
    → is_free (codes "/^  ") place ≡ true
    → (seen || is_some_text place) ≡ true
    → match_signature [] t ≡ some signature
    → match_address seen (place ++ (codes "/^  " ++ t)) ≡ some signature
match_address_lem true [] t signature a f h e = rw (e, match_address) refl
match_address_lem false [] t signature a f h e = absurd (ground arith)
match_address_lem true (c ∷ place) t signature a f h e =
    let more = match_address_lem true place t signature a.1 (ground arith) refl e in
    let here : after (codes "/^  ") (c ∷ (place ++ (codes "/^  " ++ t))) ≡ none =
      differ-after (codes "/^  ") (c ∷ place) (codes "/^  " ++ t) (ground arith) in
    rw (here, match_address, ◌>>=◌, a.0) more
match_address_lem false (c ∷ place) t signature a f h e =
    rw (a.0, match_address) (match_address_lem true place t signature a.1 (ground arith) refl e)

match_name_lem :
    (group name s signature : Text)
    → Lacks 9 name
    → is_some_text (group ++ name) ≡ true
    → match_address false s ≡ some signature
    → match_name group (name ++ (9 ∷ s)) ≡ some (group ++ name, signature)
match_name_lem group [] s signature a h e =
    let b : is_some_text group ≡ true = ap is_some_text (sym (append-nil group)) ∙ h in
    rw (b, match_name, e, append-nil group) refl
match_name_lem group (c ∷ name) s signature a h e =
    let more : match_name (group ++ (c ∷ [])) (name ++ (9 ∷ s))
        ≡ some (group ++ (c ∷ name), signature) =
      match_name_lem (group ++ (c ∷ [])) name s signature a.1
        (ap is_some_text (append_assoc group (c ∷ []) name) ∙ h) e
      ∙ ap (λ g. some (g, signature)) (append_assoc group (c ∷ []) name) in
    rw (a.0.1, match_name, and_false (is_some_text group), a.0.0) more

-- A line of ctags about a method: its name, the file, the line of the file up to the body, and the rest.
pub record Tag : Type 0 where
  pub name : Text
  pub place : Text
  pub signature : Text
  pub rest : Text

abbrev pub line_of : Tag → Text
line_of t = t.name ++ (9 ∷ (t.place ++ (codes "/^  " ++ (t.signature ++ (123 ∷ t.rest)))))

-- There is a name, and it is without a tab; the line of the file begins at the first "/^  ", and its first
-- "{" is behind the signature; no "~" stands in the line, and the class stands in the rest.
pub record IsTag (t : Tag) : Type 0 where
  pub named : is_some_text t.name ≡ true
  pub name_plain : Lacks 9 t.name
  pub placed : is_some_text t.place ≡ true
  pub place_plain : Dots t.place
  pub place_free : is_free (codes "/^  ") t.place ≡ true
  pub signed : is_some_text t.signature ≡ true
  pub signature_plain : Lacks 123 t.signature
  pub body : begins_dot t.rest ≡ true
  pub in_class : is_function_line t.rest ≡ true
  pub no_dtor : All (λ c. (c == 126) ≡ false) (line_of t)

pub symbol_of-line_of : (t : Tag) → IsTag t → symbol_of (line_of t) ≡ (t.name, t.signature)
unfolding symbol_of
symbol_of-line_of t a =
    rw
      (
        symbol_of,
        match_name_lem [] t.name (t.place ++ (codes "/^  " ++ (t.signature ++ (123 ∷ t.rest))))
            t.signature a.name_plain a.named
            (match_address_lem false t.place (t.signature ++ (123 ∷ t.rest)) t.signature
              a.place_plain a.place_free a.placed
              (match_signature_lem [] t.signature t.rest a.signature_plain a.signed a.body)),
      )
      refl
