-- ===== src/Stub/Mock/Statements.antt =====
-- What `gene_mock_stub` of cpp/scripts/gene-gtest-stub.cpp writes for one method.
use c_workspace.Common.{
  ℕ, zero, suc, ◌+◌, ◌/◌, ◌%◌, ◌≤◌, ◌<◌, ◌≡◌, refl, ◌==◌, true, false, Bool, List, Bool-cases, inl,
  inr, some, ◌>>=◌, [], ◌∷◌, ◌++◌, arith, length, All, All-append, ◌⊎◌,
}
use c_workspace.Utils.Text.{Text, replace_all}
use c_workspace.Utils.Text.Template.{is_free, is_free-append, is_free_of_first, replace_all-fill}
use c_workspace.Utils.Text.Replace.{substitute}
use c_workspace.Stub.{pop_back, count_method_params, gene_on_call_method_param_sig}
use c_workspace.Stub.Laws.{chars, IsPadding, params, param_sig_lem}
use c_workspace.Stub.Templates.{bytes, nth, instantiate}
use c_workspace.Stub.Templates.Fill.{Glued}
use c_workspace.Stub.Templates.Each.{is_template, instantiate_lem, rest_free, free-Glued}
use c_workspace.Stub.Templates.Dollar.{
  NoDollar, template_no_dollar, NoDollar-Glued, filled-NoDollar,
}
use c_workspace.Stub.Mock.{
  on_call_template, mock_method_template, digits, to_string, on_call_stub, mock_method_stub,
}
use c_workspace.Stub.Methods.{
  Method, signature, IsClear, IsClear-append, IsMethod, on_call_of, mock_method_of,
}

on_call_is_template : is_template on_call_template ≡ true
unfolding on_call_template
on_call_is_template = refl

mock_method_is_template : is_template mock_method_template ≡ true
unfolding mock_method_template
mock_method_is_template = refl

-- Digits are neither "$" nor "_".
digits-lacks : (k fuel n : ℕ) → (57 < k) ⊎ (k < 48) → All (λ c. (k == c) ≡ false) (digits fuel n)
digits-lacks k zero n h = tt
digits-lacks k (suc fuel) n h =
    let last : (k == 48 + n % 10) ≡ false = ground arith in
    elim (Bool-cases (n / 10 == 0)) [
      | inl one ↦ rw one (last, tt)
      | inr many ↦ rw many (
          All-append (λ c. (k == c) ≡ false) (digits fuel (n / 10)) ((48 + n % 10) ∷ [])
            (digits-lacks k fuel (n / 10) h) (last, tt))
    ]

abbrev params_of : List Bool → Text
params_of zeros = pop_back (substitute 48 (bytes "_,") (chars zeros))

-- A list of parameters before a parenthesis makes no mark that begins with two underscores.
params_of-free :
    (p s : Text) (zeros : List Bool)
    → is_free (95 ∷ 95 ∷ p) (41 ∷ s) ≡ true
    → is_free (95 ∷ 95 ∷ p) (params_of zeros ++ (41 ∷ s)) ≡ true
params_of-free p s [] h = h
params_of-free p s (true ∷ []) h = h
params_of-free p s (false ∷ []) h = h
params_of-free p s (true ∷ true ∷ zeros) h = params_of-free p s (true ∷ zeros) h
params_of-free p s (true ∷ false ∷ zeros) h = params_of-free p s (false ∷ zeros) h
params_of-free p s (false ∷ true ∷ zeros) h = params_of-free p s (true ∷ zeros) h
params_of-free p s (false ∷ false ∷ zeros) h = params_of-free p s (false ∷ zeros) h

params_of-NoDollar : (zeros : List Bool) → NoDollar (params_of zeros)
params_of-NoDollar [] = tt
params_of-NoDollar (true ∷ []) = (refl, tt)
params_of-NoDollar (false ∷ []) = tt
params_of-NoDollar (true ∷ true ∷ zeros) = (refl, (refl, params_of-NoDollar (true ∷ zeros)))
params_of-NoDollar (true ∷ false ∷ zeros) = (refl, (refl, params_of-NoDollar (false ∷ zeros)))
params_of-NoDollar (false ∷ true ∷ zeros) = (refl, params_of-NoDollar (true ∷ zeros))
params_of-NoDollar (false ∷ false ∷ zeros) = (refl, params_of-NoDollar (false ∷ zeros))

module _ (padded : ℕ → Text) (law : IsPadding padded) where
  params-glued :
      (p s : Text) (n : ℕ)
      → is_free (95 ∷ 95 ∷ p) (41 ∷ s) ≡ true
      → is_free (95 ∷ 95 ∷ p) (params padded n ++ (41 ∷ s)) ≡ true
  params-glued p s n h = elim (Bool-cases (n == 0)) [
    | inl zero' ↦ rw zero' h
    | inr some' ↦ let (zeros, size, e) = law n in rw (some', e) (params_of-free p s zeros h)
  ]

  params-NoDollar : (n : ℕ) → NoDollar (params padded n)
  params-NoDollar n = elim (Bool-cases (n == 0)) [
    | inl zero' ↦ rw zero' tt
    | inr some' ↦ let (zeros, size, e) = law n in rw (some', e) (params_of-NoDollar zeros)
  ]

-- The template of ON_CALL is filled with no mark arising.
on_call-Glued :
    (padded : ℕ → Text) (law : IsPadding padded) (name orig : Text) (n : ℕ)
    → IsClear name
    → IsClear orig
    → All
        (λ m. Glued m (nth (name ∷ params padded n ∷ orig ∷ [])) on_call_template.rest)
        on_call_template.marks
unfolding on_call_template
on_call-Glued padded law name orig n a b =
    let values = name ∷ params padded n ∷ orig ∷ [] in
    let m = bytes "__method_name__" in
    let m' = bytes "__on_call_method_param_sig__" in
    (
      (
        is_free-append m name (bytes "(") a.no_mark.0 refl,
        (
          params-glued padded law (bytes "method_name__") _ n refl,
          (
            is_free-append m orig (bytes "::") b.no_mark.0 refl,
            (is_free-append m name (bytes "));") a.no_mark.0 refl, tt),
          ),
        ),
      ),
      (
        (
          is_free-append m' name (bytes "(") a.no_mark.1.1.0 refl,
          (
            params-glued padded law (bytes "on_call_method_param_sig__") _ n refl,
            (
              is_free-append m' orig (bytes "::") b.no_mark.1.1.0 refl,
              (is_free-append m' name (bytes "));") a.no_mark.1.1.0 refl, tt),
            ),
          ),
        ),
        (
          NoDollar-Glued (bytes "origClassName") values on_call_template.rest
              (a.no_dollar, (params-NoDollar padded law n, (b.no_dollar, tt))) refl,
          tt,
        ),
      ),
    )

mock_method-Glued :
    (name sig count : Text)
    → IsClear name
    → IsClear sig
    → All (λ c. (95 == c) ≡ false) count
    → All
        (λ m. Glued m (nth (name ∷ sig ∷ count ∷ [])) mock_method_template.rest)
        mock_method_template.marks
unfolding mock_method_template
mock_method-Glued name sig count a b d =
    let glue =
      λ (p : Text) (h : is_free (95 ∷ p) name ≡ true) (k : is_free (95 ∷ p) sig ≡ true)
          (r : rest_free (95 ∷ p) mock_method_template.rest ≡ true).
        free-Glued (95 ∷ p) (name ∷ sig ∷ count ∷ []) mock_method_template.rest
          (h, (k, (is_free_of_first 95 p count d, tt))) r in
    (
      glue (bytes "_method_name__") a.no_mark.0 b.no_mark.0 refl,
      (
        glue (bytes "_method_signature__") a.no_mark.1.0 b.no_mark.1.0 refl,
        (glue (bytes "_method_param_count__") a.no_mark.1.1.1.0 b.no_mark.1.1.1.0 refl, tt),
      ),
    )

-- The copy of the signature has its name taken out.
name_removed :
    (fuel : ℕ) (name before behind : Text)
    → 1 ≤ length name
    → is_free name before ≡ true
    → is_free name behind ≡ true
    → 1 < fuel
    → replace_all fuel (before ++ (name ++ behind)) name [] ≡ some (false, before ++ behind)
name_removed fuel [] before behind l h k f = absurd (omega arith)
name_removed fuel (x ∷ name) before behind l h k f =
    replace_all-fill fuel x name [] before (behind ∷ []) refl h (k, tt) f

-- What `instantiate` needs of the templates: `is_template`, and not more than eight places.
abbrev pub Enough : ℕ → Type 0
Enough fuel = 9 ≤ fuel

pub on_call_stub_lem :
    (fuel : ℕ) (padded : ℕ → Text) (orig : Text) (m : Method) (accu : Text)
    → IsPadding padded
    → Enough fuel
    → IsClear orig
    → IsMethod m
    → count_method_params (signature m) < fuel
    → on_call_stub fuel padded orig accu m.name (signature m)
      ≡ some (accu ++ on_call_of padded orig m)
unfolding on_call_stub
on_call_stub_lem fuel padded orig m accu law h b a c =
    let n = count_method_params (signature m) in
    let sig : gene_on_call_method_param_sig fuel padded n ≡ some (params padded n) =
      param_sig_lem padded law fuel n c in
    let stub : instantiate fuel on_call_template (m.name ∷ params padded n ∷ orig ∷ [])
        ≡ some (on_call_of padded orig m) =
      instantiate_lem fuel on_call_template (m.name ∷ params padded n ∷ orig ∷ [])
        on_call_is_template (unfold on_call_template in refl)
        (unfold on_call_template in omega arith)
        (on_call-Glued padded law m.name orig n a.name_clear b) in
    rw (sig, ◌>>=◌, stub) refl

pub mock_method_stub_lem :
    (fuel : ℕ) (m : Method) (accu : Text)
    → Enough fuel
    → IsMethod m
    → mock_method_stub fuel accu m.name (signature m) ≡ some (accu ++ mock_method_of m)
unfolding mock_method_stub
mock_method_stub_lem fuel m accu h a =
    let count = to_string (count_method_params (signature m)) in
    let values = m.name ∷ (m.before ++ m.behind) ∷ count ∷ [] in
    let copy : replace_all fuel (signature m) m.name [] ≡ some (false, m.before ++ m.behind) =
      name_removed fuel m.name m.before m.behind a.named a.once_before a.once_behind
        (omega arith) in
    let clear = IsClear-append m.before m.behind a.before_clear a.behind_clear in
    let number =
      digits-lacks 95 (count_method_params (signature m) + 1) (count_method_params (signature m))
        (inl (omega arith)) in
    let stub : instantiate fuel mock_method_template values ≡ some (mock_method_of m) =
      instantiate_lem fuel mock_method_template values mock_method_is_template
        (unfold mock_method_template in refl) (unfold mock_method_template in omega arith)
        (mock_method-Glued m.name (m.before ++ m.behind) count a.name_clear clear number) in
    rw (copy, ◌>>=◌, stub) refl

on_call_no_dollar : template_no_dollar on_call_template ≡ true
unfolding on_call_template
on_call_no_dollar = refl

mock_method_no_dollar : template_no_dollar mock_method_template ≡ true
unfolding mock_method_template
mock_method_no_dollar = refl

pub on_call_of-NoDollar :
    (padded : ℕ → Text)
    → IsPadding padded
    → (orig : Text) (m : Method) → IsClear orig
    → IsMethod m
    → NoDollar (on_call_of padded orig m)
on_call_of-NoDollar padded law orig m b a =
    filled-NoDollar on_call_template
      (m.name ∷ params padded (count_method_params (signature m)) ∷ orig ∷ []) on_call_no_dollar
      (
        a.name_clear.no_dollar,
        (params-NoDollar padded law (count_method_params (signature m)), (b.no_dollar, tt)),
      )

pub mock_method_of-NoDollar : (m : Method) → IsMethod m → NoDollar (mock_method_of m)
mock_method_of-NoDollar m a =
    let n = count_method_params (signature m) in
    filled-NoDollar mock_method_template (m.name ∷ (m.before ++ m.behind) ∷ to_string n ∷ [])
      mock_method_no_dollar
      (
        a.name_clear.no_dollar,
        (
          (IsClear-append m.before m.behind a.before_clear a.behind_clear).no_dollar,
          (digits-lacks 36 (n + 1) n (inr (omega arith)), tt),
        ),
      )
