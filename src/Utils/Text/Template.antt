-- ===== src/Utils/Text/Template.antt =====
-- `replaceAll` of cpp/src/utils/common/str.cpp on a template.
use c_workspace.Common.{
  ℕ, zero, suc, ◌+◌, ◌<◌, ◌≡◌, refl, sym, ap, ◌∙◌, ◌==◌, Bool, true, false, ◌&&◌, if◌then◌else◌,
  none, some, List, [], ◌∷◌, ◌++◌, append_assoc, arith, length, length-append, drop, All, All-imp,
}
use c_workspace.Utils.Text.{Text, begins, find, replace, replace_all}
use c_workspace.Utils.Text.Search.{begins-append, take-append, drop-append}
use c_workspace.Utils.Text.Replace.{round_none, round_at}

-- Two texts differ at a place that both have.
abbrev pub differ : Text → Text → Bool
differ [] s = false
differ (x ∷ p) [] = false
differ (x ∷ p) (c ∷ s) = if x == c then differ p s else true

-- The pattern neither stands in the text nor begins there.
abbrev pub is_free : Text → Text → Bool
is_free p [] = true
is_free p (c ∷ s) = differ p (c ∷ s) && is_free p s

-- The texts with a filling between each two.
abbrev pub fill : Text → Text → List Text → Text
fill filling first [] = first
fill filling first (next ∷ rest) = first ++ (filling ++ fill filling next rest)

differ-append : (p s t : Text) → differ p s ≡ true → differ p (s ++ t) ≡ true
differ-append [] s t h = absurd (ground arith)
differ-append (x ∷ p) [] t h = absurd (ground arith)
differ-append (x ∷ p) (c ∷ s) t h = ground (arith, differ-append p s t)

differ-begins : (p s : Text) → differ p s ≡ true → begins p s ≡ false
differ-begins [] s h = absurd (ground arith)
differ-begins (x ∷ p) [] h = absurd (ground arith)
differ-begins (x ∷ p) (c ∷ s) h = ground (arith, differ-begins p s)

pub is_free-append :
    (p s t : Text) → is_free p s ≡ true → is_free p t ≡ true → is_free p (s ++ t) ≡ true
is_free-append p [] t h k = k
is_free-append p (c ∷ s) t h k = ground (arith, differ-append p (c ∷ s) t, is_free-append p s t)

-- Free of a pattern is what does not have its first byte.
pub is_free_of_first :
    (x : ℕ) (p s : Text) → All (λ c. (x == c) ≡ false) s → is_free (x ∷ p) s ≡ true
is_free_of_first x p [] h = refl
is_free_of_first x p (c ∷ s) h = rw (h.0) (is_free_of_first x p s h.1)

-- A free text is passed over.
free_passed :
    (x : ℕ) (p s t : Text) (i : ℕ)
    → is_free (x ∷ p) s ≡ true
    → find (x ∷ p) t ≡ some i
    → find (x ∷ p) (s ++ t) ≡ some (length s + i)
free_passed x p [] t i h e = e ∙ ap some (omega arith)
free_passed x p (c ∷ s) t i h e =
    let b = differ-begins (x ∷ p) (c ∷ (s ++ t)) (differ-append (x ∷ p) (c ∷ s) t (ground arith)) in
    let f = free_passed x p s t i (ground arith) e in rw (b, f) (ap some (omega arith))

free_none : (x : ℕ) (p s : Text) → is_free (x ∷ p) s ≡ true → find (x ∷ p) s ≡ none
free_none x p [] h = refl
free_none x p (c ∷ s) h =
    let b = differ-begins (x ∷ p) (c ∷ s) (ground arith) in
    let f = free_none x p s (ground arith) in rw (b, f) refl

at_pattern : (x : ℕ) (p t : Text) → find (x ∷ p) ((x ∷ p) ++ t) ≡ some 0
at_pattern x p t = rw (begins-append (x ∷ p) t) refl

replace_there :
    (p s t to : Text) → replace (length s) (length p) to (s ++ (p ++ t)) ≡ s ++ (to ++ t)
replace_there p s t to =
    let n : length s + length p ≡ length (s ++ p) = sym (length-append s p) in
    let e : drop (length (s ++ p)) (s ++ (p ++ t)) ≡ t =
      ap (drop (length (s ++ p))) (sym (append_assoc s p t)) ∙ drop-append (s ++ p) t in
    rw (take-append s (p ++ t), n, e) refl

fill-append :
    (f a first : Text) (rest : List Text) → fill f (a ++ first) rest ≡ a ++ fill f first rest
fill-append f a first [] = refl
fill-append f a first (next ∷ rest) = append_assoc a first (f ++ fill f next rest)

pub fill-appends :
    (f a b first : Text) (rest : List Text)
    → fill f (a ++ (b ++ first)) rest ≡ a ++ (b ++ fill f first rest)
fill-appends f a b first rest =
    fill-append f a (b ++ first) rest ∙ ap (λ t. a ++ t) (fill-append f b first rest)

-- It is enough that the pattern neither stands nor begins in a text with what is put before it.
pub replace_all-fill_glued :
    (fuel x : ℕ) (p to first : Text) (rest : List Text)
    → is_free (x ∷ p) first ≡ true
    → All (λ s. is_free (x ∷ p) (to ++ s) ≡ true) rest
    → length rest < fuel
    → replace_all fuel (fill (x ∷ p) first rest) (x ∷ p) to ≡ some (false, fill to first rest)
replace_all-fill_glued zero x p to first rest k l m = absurd (omega arith)
replace_all-fill_glued (suc fuel) x p to first [] k l m =
    round_none fuel first (x ∷ p) to (free_none x p first k)
replace_all-fill_glued (suc fuel) x p to first (next ∷ rest) k l m =
    let t = fill (x ∷ p) next rest in
    let e : find (x ∷ p) (first ++ ((x ∷ p) ++ t)) ≡ some (length first) =
      free_passed x p first ((x ∷ p) ++ t) 0 k (at_pattern x p t) ∙ ap some (omega arith) in
    round_at fuel (first ++ ((x ∷ p) ++ t)) (x ∷ p) to (length first) e
    ∙ ap (λ s. replace_all fuel s (x ∷ p) to)
        (replace_there (x ∷ p) first t to ∙ sym (fill-appends (x ∷ p) first to next rest))
    ∙ replace_all-fill_glued fuel x p to (first ++ (to ++ next)) rest
        (is_free-append (x ∷ p) first (to ++ next) k l.0) l.1 (omega arith)
    ∙ ap (λ s. some (false, s)) (fill-appends to first to next rest)

-- Where a pattern stands just between the texts of a template, as it neither stands nor begins in them or
-- in what is put in its place, `replaceAll` fills the template, in one round more than the pattern stands
-- there, and returns false.
pub replace_all-fill :
    (fuel x : ℕ) (p to first : Text) (rest : List Text)
    → is_free (x ∷ p) to ≡ true
    → is_free (x ∷ p) first ≡ true
    → All (λ s. is_free (x ∷ p) s ≡ true) rest
    → length rest < fuel
    → replace_all fuel (fill (x ∷ p) first rest) (x ∷ p) to ≡ some (false, fill to first rest)
replace_all-fill fuel x p to first rest h k l m =
    replace_all-fill_glued fuel x p to first rest k
      (All-imp (λ s f. is_free-append (x ∷ p) to s h f) rest l) m
