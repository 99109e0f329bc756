-- ===== src/Stub/Laws.antt =====
-- What the parts of cpp/scripts/gene-gtest-stub.cpp generate.
use c_workspace.Common.{
  Bool, length, ℕ, zero, suc, ◌+◌, ◌≤◌, ◌<◌, ◌≡◌, refl, ap, ◌∙◌, ◌==◌, ltb, true, false,
  if◌then◌else◌, some, ◌>>=◌, List, [], ◌∷◌, ◌++◌, append_assoc, arith, replicate, All, All-append,
}
use c_workspace.Utils.Text.{Text, codes, replace_all}
use c_workspace.Utils.Text.Replace.{substitute, replace_all-substitute, count}
use c_workspace.Utils.Text.Template.{
  is_free-append, is_free_of_first, fill, fill-appends, replace_all-fill,
}
use c_workspace.Stub.{
  join, join_from, count_of, count_method_params, pop_back, gene_on_call_method_param_sig,
  gene_gtest_file_stub, file_head, file_middle, file_tail, list_mark,
}

-- `n` parameters and one more.
abbrev pub underscores : ℕ → Text
underscores zero = codes "_"
underscores (suc n) = codes "_," ++ underscores n

popped : (n : ℕ) → pop_back (substitute 48 (codes "_,") (replicate (suc n) 48)) ≡ underscores n
popped zero = refl
popped (suc n) = ap (λ s. 95 ∷ 44 ∷ s) (popped n)

-- Zeros and blanks: a list of which are zeros.
abbrev pub chars : List Bool → Text
chars [] = []
chars (true ∷ zeros) = 48 ∷ chars zeros
chars (false ∷ zeros) = 32 ∷ chars zeros

-- What may stand for "%0nc" and '0', as the flag 0 with the conversion c is undefined in C: `n` characters,
-- each of them a zero or a blank.
abbrev pub IsPadding : (ℕ → Text) → Type 0
IsPadding padded = (n : ℕ) → (zeros : List Bool) × (length zeros ≡ n) × (padded n ≡ chars zeros)

-- The parameters: "_," for each zero, without the last character.
abbrev pub params : (ℕ → Text) → ℕ → Text
params padded n = if n == 0 then [] else pop_back (substitute 48 (codes "_,") (padded n))

zeros_count : (zeros : List Bool) → count 48 (chars zeros) ≤ length zeros
zeros_count [] = omega arith
zeros_count (true ∷ zeros) = omega (arith, zeros_count zeros)
zeros_count (false ∷ zeros) = omega (arith, zeros_count zeros)

commas : (n : ℕ) → count_of 44 (underscores n) ≡ n
commas zero = refl
commas (suc n) = omega (arith, commas n)

count_of-append : (c : ℕ) (s t : Text) → count_of c (s ++ t) ≡ count_of c s + count_of c t
count_of-append c [] t = omega arith
count_of-append c (x ∷ s) t = omega (arith, count_of-append c s t)

-- `gene_onCall_method_param_sig` gives nothing for no parameter, and for more puts "_," for each zero, without
-- the last character, in at most one round of `replaceAll` more than parameters.
pub param_sig_lem :
    (padded : ℕ → Text)
    → IsPadding padded
    → (fuel param_num : ℕ) → param_num < fuel
    → gene_on_call_method_param_sig fuel padded param_num ≡ some (params padded param_num)
unfolding gene_on_call_method_param_sig
param_sig_lem padded law fuel zero h = refl
param_sig_lem padded law fuel (suc n) h =
    let (zeros, size, e) = law (suc n) in
    let b : (suc n == 0) ≡ false = ground arith in
    let few = zeros_count zeros in
    let r : replace_all fuel (padded (suc n)) (codes "0") (codes "_,")
        ≡ some (false, substitute 48 (codes "_,") (padded (suc n))) =
      rw e (replace_all-substitute fuel 48 (chars zeros) (codes "_,") refl (omega arith)) in
    rw (b, r, ◌>>=◌) refl

-- Where all are zeros, these are as many "_" as parameters, with commas between them, and from two on
-- `countMethodParams` counts as many in a signature with that list, whose name has no comma.
pub zeros_lem :
    (n : ℕ) (name : Text)
    → count_of 44 name ≡ 0
    → (params (λ m. replicate m 48) (suc n) ≡ underscores n)
      × (1 ≤ n → count_method_params (name ++ (codes "(" ++ (underscores n ++ codes ")"))) ≡ suc n)
unfolding count_method_params
zeros_lem n name k =
    let b : (suc n == 0) ≡ false = ground arith in
    let text = name ++ (codes "(" ++ (underscores n ++ codes ")")) in
    let e : count_of 44 text ≡ n = omega (
      arith,
      count_of-append 44 name (codes "(" ++ (underscores n ++ codes ")")),
      count_of-append 44 (underscores n) (codes ")"),
      commas n,
      k,
    ) in
    (rw b (popped n), λ one. let l : ltb 0 n ≡ true = ground arith in rw (e, l) (omega arith))

join_from-fill :
    (first : Text) (v : List Text) (separator : Text)
    → join_from first v separator ≡ fill separator first v
join_from-fill first [] separator = refl
join_from-fill first (element ∷ v) separator =
    join_from-fill (first ++ (separator ++ element)) v separator
    ∙ fill-appends separator first separator element v

fill-All :
    (c : ℕ) (first : Text) (v : List Text)
    → (36 == c) ≡ false
    → All (λ d. (36 == d) ≡ false) first
    → All (λ block. All (λ d. (36 == d) ≡ false) block) v
    → All (λ d. (36 == d) ≡ false) (fill (c ∷ []) first v)
fill-All c first [] e f h = f
fill-All c first (next ∷ v) e f h =
    All-append _ first ((c ∷ []) ++ fill (c ∷ []) next v) f (e, fill-All c next v e h.0 h.1)

-- For a path and blocks without a "$", `gene_gtest_file_stub` fills the template with the path, and with the
-- blocks, of which there is one at least, with an end of line between each two.
pub file_stub_lem :
    (fuel : ℕ) (path first : Text) (blocks : List Text)
    → 2 ≤ fuel
    → All (λ c. (36 == c) ≡ false) path
    → All (λ c. (36 == c) ≡ false) first
    → All (λ block. All (λ c. (36 == c) ≡ false) block) blocks
    → gene_gtest_file_stub fuel path (first ∷ blocks)
      ≡ some (file_head ++ (path ++ (file_middle ++ (fill (10 ∷ []) first blocks ++ file_tail))))
unfolding gene_gtest_file_stub join
file_stub_lem fuel path first blocks h p f b =
    let mark = codes "{origSrcFilePath}" in
    let other = codes "{stubBlockList}" in
    let rest = file_middle ++ (list_mark ++ file_tail) in
    let filled = fill (10 ∷ []) first blocks in
    let one =
      replace_all-fill fuel 36 mark path file_head (rest ∷ []) (is_free_of_first 36 mark path p)
        refl (refl, tt) (omega arith) in
    let front =
      is_free-append list_mark file_head (path ++ file_middle) refl
        (is_free-append list_mark path file_middle (is_free_of_first 36 other path p) refl) in
    let two =
      replace_all-fill fuel 36 other filled (file_head ++ (path ++ file_middle)) (file_tail ∷ [])
        (is_free_of_first 36 other filled (fill-All 10 first blocks refl f b)) front (refl, tt)
        (omega arith) in
    let same : file_head ++ (path ++ rest)
        ≡ (file_head ++ (path ++ file_middle)) ++ (list_mark ++ file_tail) =
      simp append_assoc in
    ap
      (λ o. o >>= λ r.
        replace_all fuel r.1 list_mark (join_from first blocks (10 ∷ [])) >>= λ r'. some r'.1)
      one
    ∙ ap (λ t. replace_all fuel (file_head ++ (path ++ rest)) list_mark t >>= λ r'. some r'.1)
        (join_from-fill first blocks (10 ∷ []))
    ∙ ap (λ t. replace_all fuel t list_mark filled >>= λ r'. some r'.1) same
    ∙ ap (λ o. o >>= λ r'. some r'.1) two
    ∙ ap some (simp append_assoc)
