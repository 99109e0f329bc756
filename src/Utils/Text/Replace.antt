-- ===== src/Utils/Text/Replace.antt =====
-- When `replaceAll` of cpp/src/utils/common/str.cpp ends, and with what.
use c_workspace.Common.{
  length, ℕ, zero, suc, ◌+◌, ◌≤◌, ◌<◌, ◌≡◌, ◌≢◌, refl, sym, ap, ◌∙◌, inl, inr, ◌==◌, true, false,
  Bool-cases, if◌then◌else◌, Option-cases, none, some, [], ◌∷◌, ◌++◌, append_assoc, arith, Returns,
}
use c_workspace.Utils.Text.{Text, find, replace, replace_all}
use c_workspace.Utils.Text.Search.{Contains, IsFound, find-IsFound, find-none}

-- How often a byte stands in a text.
abbrev pub count : ℕ → Text → ℕ
count c [] = 0
count c (x ∷ s) = (if x == c then 1 else 0) + count c s

count-append : (c : ℕ) (s t : Text) → count c (s ++ t) ≡ count c s + count c t
count-append c [] t = omega arith
count-append c (x ∷ s) t = omega (arith, count-append c s t)

-- `to` in the place of each `c`.
abbrev pub substitute : ℕ → Text → Text → Text
substitute c to [] = []
substitute c to (x ∷ s) = (if x == c then to else (x ∷ [])) ++ substitute c to s

substitute-append :
    (c : ℕ) (to s t : Text) → substitute c to (s ++ t) ≡ substitute c to s ++ substitute c to t
substitute-append c to [] t = refl
substitute-append c to (x ∷ s) t =
    ap (λ l. (if x == c then to else (x ∷ [])) ++ l) (substitute-append c to s t)
    ∙ sym (append_assoc (if x == c then to else (x ∷ [])) (substitute c to s) (substitute c to t))

substitute_absent : (c : ℕ) (to s : Text) → count c s ≡ 0 → substitute c to s ≡ s
substitute_absent c to [] h = refl
substitute_absent c to (x ∷ s) h =
    let b : (x == c) ≡ false = ground arith in
    rw b (ap (λ l. x ∷ l) (substitute_absent c to s (ground arith)))

substitute_once :
    (c : ℕ) (to before after : Text)
    → count c to ≡ 0
    → substitute c to (before ++ (to ++ after)) ≡ substitute c to (before ++ ((c ∷ []) ++ after))
substitute_once c to before after k =
    let b : (c == c) ≡ true = ground arith in
    let there : substitute c to (to ++ after) ≡ to ++ substitute c to after =
      substitute-append c to to after
      ∙ ap (λ t. t ++ substitute c to after) (substitute_absent c to to k) in
    let here : substitute c to (c ∷ after) ≡ to ++ substitute c to after = rw b refl in
    substitute-append c to before (to ++ after)
    ∙ ap (λ t. substitute c to before ++ t) (there ∙ sym here)
    ∙ sym (substitute-append c to before (c ∷ after))

stands :
    (c : ℕ) (s : Text) → 1 ≤ count c s → (before after : Text) × (s ≡ before ++ ((c ∷ []) ++ after))
stands c [] h = absurd (omega arith)
stands c (x ∷ s) h = elim (Bool-cases (x == c)) [
  | inl b ↦ let e : x ≡ c = ground arith in ([], s, ap (λ y. y ∷ s) e)
  | inr b ↦
      let (before, after, p) = stands c s (ground arith) in (x ∷ before, after, ap (λ l. x ∷ l) p)
]

-- The new text has the byte less often.
fewer :
    (c : ℕ) (from to before after : Text)
    → 1 ≤ count c from
    → count c to ≡ 0
    → count c (before ++ (to ++ after)) < count c (before ++ (from ++ after))
fewer c from to before after h k = omega (
  arith,
  count-append c before (to ++ after),
  count-append c before (from ++ after),
  count-append c to after,
  count-append c from after,
)

-- A round of the loop.
pub round_none :
    (fuel : ℕ) (str from to : Text)
    → find from str ≡ none
    → replace_all (suc fuel) str from to ≡ some (false, str)
unfolding replace_all
round_none fuel str from to e = rw (replace_all, e) refl

pub round_at :
    (fuel : ℕ) (str from to : Text) (i : ℕ)
    → find from str ≡ some i
    → replace_all (suc fuel) str from to ≡ replace_all fuel (replace i (length from) to str) from to
unfolding replace_all
round_at fuel str from to i e = rw (replace_all, e) refl

round_some :
    (fuel : ℕ) (str from to : Text) (i : ℕ) (f : IsFound from str i)
    → find from str ≡ some i
    → replace_all (suc fuel) str from to ≡ replace_all fuel (f.before ++ (to ++ f.after)) from to
unfolding replace_all
round_some fuel str from to i f e = rw (replace_all, e, f.replaced to) refl

-- If some byte of the pattern is not in the text put in its place, then `replaceAll` ends after at most
-- as many rounds as the byte stands in the text, and one more. It returns false, and it leaves a text
-- without the pattern.
pub replace_all-ends :
    (fuel c : ℕ) (str from to : Text)
    → 1 ≤ count c from
    → count c to ≡ 0
    → count c str < fuel
    → Returns
        (replace_all fuel str from to)
        (λ o. (o.0 ≡ false) × ((before after : Text) → o.1 ≢ before ++ (from ++ after)))
replace_all-ends zero c str from to h k l = absurd (omega arith)
replace_all-ends (suc fuel) c str from to h k l = elim (Option-cases (find from str)) [
  | inl e ↦ (
    (false, str),
    round_none fuel str from to e,
    (refl, λ before after p. find-none from str before after e p),
  )
  | inr (i, e) ↦
      let f = find-IsFound from str i e in
      rw (round_some fuel str from to i f e) (
        replace_all-ends fuel c (f.before ++ (to ++ f.after)) from to h k
          (omega (arith, fewer c from to f.before f.after h k, ap (count c) f.parts)))
]

-- If the text put in the place of the pattern has the pattern in it, and the text has it too, then
-- `replaceAll` does not end: no number of rounds is enough.
pub replace_all-diverges :
    (fuel : ℕ) (str from to : Text)
    → Contains from to
    → Contains from str
    → replace_all fuel str from to ≡ none
replace_all-diverges zero str from to inside there = unfold replace_all in refl
replace_all-diverges (suc fuel) str from to inside there = elim (Option-cases (find from str)) [
  | inl e ↦ absurd (find-none from str there.before there.after e there.parts)
  | inr (i, e) ↦
      let f = find-IsFound from str i e in
      round_some fuel str from to i f e
      ∙ (replace_all-diverges fuel (f.before ++ (to ++ f.after)) from to inside
          (again f.before f.after))
]
  where
    again : (before after : Text) → Contains from (before ++ (to ++ after))
    again before after = record {
      before = before ++ inside.before;
      after = inside.after ++ after;
      parts = ap (λ t. before ++ (t ++ after)) inside.parts ∙ simp append_assoc;
    }

-- For a pattern of one byte that is not in the text put in its place, `replaceAll` puts that text in the
-- place of each such byte, and returns false.
pub replace_all-substitute :
    (fuel c : ℕ) (str to : Text)
    → count c to ≡ 0
    → count c str < fuel
    → replace_all fuel str (c ∷ []) to ≡ some (false, substitute c to str)
replace_all-substitute zero c str to k l = absurd (omega arith)
replace_all-substitute (suc fuel) c str to k l = elim (Option-cases (find (c ∷ []) str)) [
  | inl e ↦
      round_none fuel str (c ∷ []) to e
      ∙ ap (λ t. some (false, t)) (sym (substitute_absent c to str (missing e)))
  | inr (i, e) ↦
      let f = find-IsFound (c ∷ []) str i e in
      let one : 1 ≤ count c (c ∷ []) = ground arith in
      round_some fuel str (c ∷ []) to i f e
      ∙ replace_all-substitute fuel c (f.before ++ (to ++ f.after)) to k
          (omega (arith, fewer c (c ∷ []) to f.before f.after one k, ap (count c) f.parts))
      ∙ ap (λ t. some (false, t))
          (substitute_once c to f.before f.after k ∙ ap (substitute c to) (sym f.parts))
]
  where
    missing : find (c ∷ []) str ≡ none → count c str ≡ 0
    missing e = elim (Bool-cases (count c str == 0)) [
      | inl b ↦ ground arith
      | inr b ↦
          let (before, after, p) = stands c str (ground arith) in
          absurd (find-none (c ∷ []) str before after e p)
    ]
