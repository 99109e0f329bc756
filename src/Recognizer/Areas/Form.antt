-- ===== src/Recognizer/Areas/Form.antt =====
-- `_try_to_get_answer_area_range` on the lines of a form.
use mathlib.Core.List.{map}
use c_workspace.Common.{
  ℕ, zero, suc, ◌+◌, ◌-◌, ◌*◌, ◌≤◌, ◌<◌, ◌≡◌, refl, ap, sym, ◌∙◌, max, ◌==◌, true, false, leb,
  Bool-cases, inl, inr, some, ◌>>=◌, List, [], ◌∷◌, ◌++◌, arith, length, get_or, get_or-append,
  get_elem?-eq-get_or, take, overlay, Returns, All,
}
use c_workspace.Recognizer.Image.{Point, Range}
use c_workspace.Recognizer.Areas.{
  Counters, continues, down_loop, tops_loop, try_to_get_answer_area_range,
}
use c_workspace.Recognizer.Areas.Tops.{
  neighbours, is_bold, bold_tops, down_loop-grows, tops_loop-bold, between_loop-neighbours,
}

abbrev nowhere : Point
nowhere = record { x = 0; y = 0; c = 0 }

-- The range in a row and column of the lines.
abbrev pub cell : List Range → ℕ → ℕ → ℕ → Range
cell ranges width row col =
    get_or ranges (row * width + col) (record { from = nowhere; to = nowhere })

-- The lines of a form: all lines of the first row are bold, and the first is straight down for some rows,
-- 5 or more, and then stops above the last row.
pub record IsForm (ranges : List Range) (width height : ℕ) : Type 0 where
  pub rows : ℕ
  pub five : 5 ≤ rows
  pub inside : rows < height
  pub straight :
      (row : ℕ)
      → 1 ≤ row
      → row < rows
      → continues (cell ranges width 0 0) row (cell ranges width row 0) ≡ true
  pub broken : continues (cell ranges width 0 0) rows (cell ranges width rows 0) ≡ false
  pub bold : All (λ r. is_bold r ≡ true) (take width ranges)

-- The left ends of the first row.
abbrev pub corners : List Range → ℕ → List Point
corners ranges width = map (λ (r : Range). r.from) (take width ranges)

module _ (ranges : List Range) (width : ℕ) where
  -- A straight line that stops below the row `row` is counted.
  down_loop-counts :
      (top : Range) (stop rounds row : ℕ) (k : Counters)
      → 1 ≤ width
      → (row + rounds) * width ≤ length ranges
      → ((j : ℕ) → row ≤ j → j < stop → continues top j (cell ranges width j 0) ≡ true)
      → continues top stop (cell ranges width stop 0) ≡ false
      → row ≤ stop
      → stop < row + rounds
      → Returns (down_loop ranges width 0 top rounds row k) (λ k'. k.count + (stop - row) ≤ k'.most)
  unfolding down_loop
  down_loop-counts top stop zero row k one h s b low high = absurd (omega arith)
  down_loop-counts top stop (suc rounds) row k one h s b low high =
      let d : Range = record { from = nowhere; to = nowhere } in
      let e = get_elem?-eq-get_or ranges (row * width + 0) d (omega arith) in
      elim (Bool-cases (row == stop)) [
        | inl t ↦
            let same : row ≡ stop = ground arith in
            let f : continues top row (cell ranges width row 0) ≡ false = rw same b in
            let (k', g, m) =
              down_loop-grows ranges width 0 top rounds (row + 1)
                (record { count = 1; most = max k.most k.count }) (omega arith) (omega arith) in
            (k', rw (e, ◌>>=◌, f) g, ground (arith, m, same))
        | inr t ↦
            let f : continues top row (cell ranges width row 0) ≡ true =
              s row (omega arith) (ground arith) in
            let (k', g, m) =
              down_loop-counts top stop rounds (row + 1) (record k { count = k.count + 1 }) one
                (omega arith) (λ j l. s j (omega arith)) b (ground arith) (omega arith) in
            (k', rw (e, ◌>>=◌, f) g, (let l : row < stop = ground arith in omega (arith, m, l)))
      ]

bold_tops-all :
    (rs : List Range)
    → All (λ r. is_bold r ≡ true) rs
    → bold_tops rs ≡ map (λ (r : Range). r.from) rs
bold_tops-all [] h = refl
bold_tops-all (r ∷ rs) h = rw (h.0) (ap (λ l. r.from ∷ l) (bold_tops-all rs h.1))

form_tops :
    (r : Range) (rs : List Range) (width height rounds : ℕ)
    → width ≡ suc rounds
    → height * width ≤ length (r ∷ rs)
    → IsForm (r ∷ rs) width height
    → tops_loop (r ∷ rs) width height (suc rounds) 0 (record { count = 1; most = 0 }) []
      ≡ some (corners (r ∷ rs) width)
unfolding tops_loop
form_tops r rs width height rounds e full f =
    let tall : 1 ≤ height = let l = f.inside in omega arith in
    let first : 0 * width + 0 ≡ 0 = omega arith in
    let top : cell (r ∷ rs) width 0 0 ≡ r = rw first refl in
    let bold : All (λ q. is_bold q ≡ true) (r ∷ take rounds rs) = rw e at f.bold in
    let whole : 1 + (height - 1) ≡ height = omega arith in
    let (k, g, m) =
      down_loop-counts (r ∷ rs) width r f.rows (height - 1) 1 (record { count = 1; most = 0 })
        (omega arith) (rw whole full) (λ j a b. rw top at (f.straight j a b)) (rw top at f.broken)
        (let a = f.five in omega arith) (let a = f.inside in omega arith) in
    let five : 5 ≤ k.most = let a = f.five in omega (arith, m) in
    let l : leb 5 k.most ≡ true = ground arith in
    let rest =
      tops_loop-bold (r ∷ rs) width height tall full rounds 1 k (r.from ∷ []) (omega arith) five in
    rw (bold.0, g, ◌>>=◌, l)
      (rest
        ∙ ap (λ t. some (r.from ∷ t)) (bold_tops-all (take rounds rs) bold.1)
        ∙ ap (λ n. some (map (λ (q : Range). q.from) (take n (r ∷ rs)))) (sym e))

length-lefts : (n : ℕ) (rs : List Range) → length (map (λ (q : Range). q.from) (take n rs)) ≤ n
length-lefts zero rs = omega arith
length-lefts (suc n) [] = omega arith
length-lefts (suc n) (r ∷ rs) = omega (arith, length-lefts n rs)

-- On the lines of a form it writes the ranges between the left ends of the first row.
pub areas_of_form :
    (ranges : List Range) (width height : ℕ) (areas : List Range)
    → 1 ≤ width
    → width ≤ length areas + 1
    → height * width ≤ length ranges
    → IsForm ranges width height
    → try_to_get_answer_area_range ranges width height areas
      ≡ some (overlay (neighbours (corners ranges width)) areas)
unfolding try_to_get_answer_area_range
areas_of_form ranges zero height areas one room full f = absurd (omega arith)
areas_of_form [] (suc w) height areas one room full f = let l = f.inside in absurd (omega arith)
areas_of_form (r ∷ rs) (suc w) height areas one room full f =
    rw (form_tops r rs (suc w) height w refl full f) (
      between_loop-neighbours (map (λ (q : Range). q.from) (take w rs)) r.from 0 [] areas refl
        (omega (arith, length-lefts w rs)))

take-append : (n : ℕ) (xs ys : List Range) → n ≤ length xs → take n (xs ++ ys) ≡ take n xs
take-append zero xs ys h = refl
take-append (suc n) [] ys h = absurd (omega arith)
take-append (suc n) (x ∷ xs) ys h = ap (λ l. x ∷ l) (take-append n xs ys (omega arith))

-- What stands behind the lines of a form does not matter.
pub append-IsForm :
    (xs ys : List Range) (width height : ℕ)
    → 1 ≤ width
    → height * width ≤ length xs
    → IsForm xs width height
    → IsForm (xs ++ ys) width height × (corners (xs ++ ys) width ≡ corners xs width)
append-IsForm xs ys width height one full f =
    let i = f.inside in
    let same : (row : ℕ) → row < height → cell (xs ++ ys) width row 0 ≡ cell xs width row 0 =
      λ row l. get_or-append xs ys (row * width + 0) _ (grind arith) in
    let top = same 0 (omega arith) in
    let row_of = take-append width xs ys (grind arith) in
    (
      record {
        rows = f.rows;
        five = f.five;
        inside = f.inside;
        straight = λ row a b. rw (top, same row (omega arith)) (f.straight row a b);
        broken = rw (top, same f.rows i) f.broken;
        bold = rw row_of f.bold;
      },
      ap (map (λ (q : Range). q.from)) row_of,
    )
