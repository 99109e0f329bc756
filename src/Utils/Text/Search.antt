-- ===== src/Utils/Text/Search.antt =====
-- Where `find` of cpp/src/utils/common/str.cpp finds a pattern.
use c_workspace.Common.{
  ℕ, zero, suc, ◌+◌, ◌-◌, ◌≤◌, ◌≡◌, ◌↔◌, refl, sym, ap, ◌∙◌, inl, inr, Bool, true, false,
  Bool-cases, if◌then◌else◌, Option, Option-cases, none, some, [], ◌∷◌, ◌++◌, arith, length,
  length-append, length-drop, take, drop,
}
use c_workspace.Utils.Text.{Text, same, begins, find, replace, str_starts_with, str_ends_with}

-- The pattern stands somewhere in the text.
pub record Contains (pattern s : Text) : Type 0 where
  pub before : Text
  pub after : Text
  pub parts : s ≡ before ++ (pattern ++ after)

-- Where a pattern stands that was found.
pub record IsFound (pattern s : Text) (i : ℕ) : Type 0 where
  pub before : Text
  pub after : Text
  pub parts : s ≡ before ++ (pattern ++ after)
  pub replaced : (to : Text) → replace i (length pattern) to s ≡ before ++ (to ++ after)

begins-drop : (p s : Text) → begins p s ≡ true → s ≡ p ++ drop (length p) s
begins-drop [] s h = refl
begins-drop (x ∷ p) [] h = absurd (ground arith)
begins-drop (x ∷ p) (y ∷ s) h =
    let e : x ≡ y = ground arith in
    let f = begins-drop p s (ground arith) in rw e (ap (λ l. y ∷ l) f)

pub begins-append : (p t : Text) → begins p (p ++ t) ≡ true
begins-append [] t = refl
begins-append (x ∷ p) t = ground (arith, begins-append p t)

here-IsFound : (p s : Text) → begins p s ≡ true → IsFound p s 0
here-IsFound p s b =
    let e : 0 + length p ≡ length p = omega arith in
    record {
      before = [];
      after = drop (length p) s;
      parts = begins-drop p s b;
      replaced = λ to. rw e refl;
    }

later-IsFound : (p s : Text) (c j : ℕ) → IsFound p s j → IsFound p (c ∷ s) (suc j)
later-IsFound p s c j f =
    let e : suc j + length p ≡ suc (j + length p) = omega arith in
    record {
      before = c ∷ f.before;
      after = f.after;
      parts = ap (λ l. c ∷ l) f.parts;
      replaced = λ to. rw e (ap (λ l. c ∷ l) (f.replaced to));
    }

pub find-IsFound : (p s : Text) (i : ℕ) → find p s ≡ some i → IsFound p s i
find-IsFound p [] i h = elim (Bool-cases (begins p [])) [
  | inl b ↦ let z : i ≡ 0 = ground arith in rw z (here-IsFound p [] b)
  | inr b ↦ absurd (ground arith)
]
find-IsFound p (c ∷ s) i h = elim (Bool-cases (begins p (c ∷ s))) [
  | inl b ↦ let z : i ≡ 0 = ground arith in rw z (here-IsFound p (c ∷ s) b)
  | inr b ↦ elim (Option-cases (find p s)) [
    | inl e ↦ absurd (ground arith)
    | inr (j, e) ↦
        let z : i ≡ suc j = ground arith in rw z (later-IsFound p s c j (find-IsFound p s j e))
  ]
]

abbrev tail_of : Text → Text
tail_of [] = []
tail_of (x ∷ s) = s

begins_of_parts : (p s after : Text) → s ≡ p ++ after → begins p s ≡ true
begins_of_parts p s after e = rw e (begins-append p after)

-- Where nothing is found, the pattern stands nowhere.
pub find-none : (p s before after : Text) → find p s ≡ none → s ≡ before ++ (p ++ after) → ⊥
find-none p [] [] after h e = let b = begins_of_parts p [] after e in absurd (ground arith)
find-none p (c ∷ s) [] after h e =
    let b = begins_of_parts p (c ∷ s) after e in absurd (ground arith)
find-none p [] (x ∷ before) after h e = absurd (ground arith)
find-none p (c ∷ s) (x ∷ before) after h e =
    find-none p s before after (later (begins p (c ∷ s)) (find p s) h) (ap tail_of e)
  where
    later :
        (b : Bool) (o : Option ℕ)
        → (if b then some 0 else elim o as (λ x. Option ℕ) [ none ↦ none | some i ↦ some (suc i) ])
          ≡ none
        → o ≡ none
    later true o h = absurd (ground arith)
    later false none h = refl
    later false (some i) h = absurd (ground arith)

pub same_iff : (s t : Text) → (same s t ≡ true) ↔ (s ≡ t)
same_iff [] [] = (λ h. refl, λ h. refl)
same_iff [] (y ∷ t) = ground arith
same_iff (x ∷ s) [] = ground arith
same_iff (x ∷ s) (y ∷ t) = ground (arith, same_iff s t)

pub take-append : (p t : Text) → take (length p) (p ++ t) ≡ p
take-append [] t = refl
take-append (x ∷ p) t = ap (λ l. x ∷ l) (take-append p t)

pub drop-append : (p t : Text) → drop (length p) (p ++ t) ≡ t
drop-append [] t = refl
drop-append (x ∷ p) t = drop-append p t

take-all : (n : ℕ) (s : Text) → length s ≤ n → take n s ≡ s
take-all zero [] h = refl
take-all zero (x ∷ s) h = absurd (omega arith)
take-all (suc n) [] h = refl
take-all (suc n) (x ∷ s) h = ap (λ l. x ∷ l) (take-all n s (omega arith))

cut : (n : ℕ) (s : Text) → take n s ++ drop n s ≡ s
cut zero s = refl
cut (suc n) [] = refl
cut (suc n) (x ∷ s) = ap (λ l. x ∷ l) (cut n s)

starts_iff :
    (str prefix : Text)
    → (str_starts_with str prefix ≡ true) ↔ ((rest : Text) × (str ≡ prefix ++ rest))
unfolding str_starts_with
starts_iff str prefix = (forth, back)
  where
    forth : str_starts_with str prefix ≡ true → (rest : Text) × (str ≡ prefix ++ rest)
    forth h =
        let e : take (length prefix) str ≡ prefix =
          ground (arith, same_iff (take (length prefix) str) prefix) in
        (
          drop (length prefix) str,
          sym (cut (length prefix) str) ∙ ap (λ l. l ++ drop (length prefix) str) e,
        )

    back : ((rest : Text) × (str ≡ prefix ++ rest)) → str_starts_with str prefix ≡ true
    back (rest, e) = rw e (
        ground (
          arith,
          length-append prefix rest,
          (same_iff (take (length prefix) (prefix ++ rest)) prefix).1 (take-append prefix rest),
        ))

ends_iff :
    (str suffix : Text)
    → (str_ends_with str suffix ≡ true) ↔ ((start : Text) × (str ≡ start ++ suffix))
unfolding str_ends_with
ends_iff str suffix = (forth, back)
  where
    forth : str_ends_with str suffix ≡ true → (start : Text) × (str ≡ start ++ suffix)
    forth h =
        let n = length str - length suffix in
        let e : take (length suffix) (drop n str) ≡ suffix =
          ground (arith, same_iff (take (length suffix) (drop n str)) suffix) in
        let l : length suffix ≤ length str = ground arith in
        let f = take-all (length suffix) (drop n str) (omega (arith, length-drop n str)) in
        (take n str, sym (cut n str) ∙ ap (λ t. take n str ++ t) (sym f ∙ e))

    back : ((start : Text) × (str ≡ start ++ suffix)) → str_ends_with str suffix ≡ true
    back (start, e) =
        let n : length (start ++ suffix) - length suffix ≡ length start =
          omega (arith, length-append start suffix) in
        rw (e, n, drop-append start suffix)
          (ground (
            arith,
            length-append start suffix,
            (same_iff (take (length suffix) suffix) suffix).1
                (take-all (length suffix) suffix (omega arith)),
          ))

-- `str_starts_with` answers whether the prefix stands before some text, and `str_ends_with` whether the
-- suffix stands behind some text.
pub affix_lem :
    (str affix : Text)
    → ((str_starts_with str affix ≡ true) ↔ ((rest : Text) × (str ≡ affix ++ rest)))
      × ((str_ends_with str affix ≡ true) ↔ ((start : Text) × (str ≡ start ++ affix)))
affix_lem str affix = (starts_iff str affix, ends_iff str affix)
