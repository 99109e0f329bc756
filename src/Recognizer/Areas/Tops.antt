-- ===== src/Recognizer/Areas/Tops.antt =====
-- `_try_to_get_answer_area_range`: the lines it takes, and the ranges between them.
use c_workspace.Common.{
  ℕ, zero, suc, ◌+◌, ◌-◌, ◌*◌, ◌≤◌, ◌<◌, ◌≡◌, refl, ap, sym, max, Bool, true, ltb, leb, Bool-cases,
  inl, inr, if◌then◌else◌, some, ◌>>=◌, List, [], ◌∷◌, ◌++◌, append_assoc, append-nil, arith,
  length, length-append, write-append, drop, take, drop-elem, overlay, Returns,
}
use c_workspace.Recognizer.Image.{Point, Range}
use c_workspace.Recognizer.Areas.{Counters, continues, down_loop, tops_loop, between_loop}

-- Each two neighbours, as a range.
abbrev pub neighbours : List Point → List Range
neighbours [] = []
neighbours (p ∷ []) = []
neighbours (p ∷ q ∷ tops) = record { from = p; to = q } ∷ neighbours (q ∷ tops)

abbrev pub is_bold : Range → Bool
is_bold top = ltb (top.from.x + 2) top.to.x

-- The left ends of the bold ranges.
abbrev pub bold_tops : List Range → List Point
bold_tops [] = []
bold_tops (r ∷ rs) = if is_bold r then r.from ∷ bold_tops rs else bold_tops rs

pub between_loop-neighbours :
    (tops : List Point) (prev : Point) (n : ℕ) (done junk : List Range)
    → n ≡ length done
    → length tops ≤ length junk
    → between_loop prev tops n (done ++ junk)
      ≡ some (done ++ overlay (neighbours (prev ∷ tops)) junk)
unfolding between_loop
between_loop-neighbours [] prev n done junk e h = refl
between_loop-neighbours (curr ∷ tops) prev n done [] e h = absurd (omega arith)
between_loop-neighbours (curr ∷ tops) prev n done (j ∷ junk) e h =
    let r : Range = record { from = prev; to = curr } in
    rw (write-append done j junk n r e) (
      rw
        (
          append_assoc done (r ∷ []) junk,
          append_assoc done (r ∷ []) (overlay (neighbours (curr ∷ tops)) junk),
        )
        at
        (between_loop-neighbours tops curr (n + 1) (done ++ (r ∷ [])) junk
          (omega (arith, length-append done (r ∷ []))) (omega arith)))

one_less : (n : ℕ) → 1 ≤ n → (m : ℕ) × (n ≡ m + 1)
one_less zero h = absurd (omega arith)
one_less (suc m) h = (m, omega arith)

module _ (ranges : List Range) (width : ℕ) where
  -- Down a column within the memory: the greatest count does not go down.
  pub down_loop-grows :
      (col : ℕ) (top : Range) (rounds row : ℕ) (k : Counters)
      → col < width
      → (row + rounds) * width ≤ length ranges
      → Returns (down_loop ranges width col top rounds row k) (λ k'. k.most ≤ k'.most)
  unfolding down_loop
  down_loop-grows col top zero row k hc h = (k, refl, omega arith)
  down_loop-grows col top (suc rounds) row k hc h =
      let (r, e, _) = drop-elem ranges (row * width + col) (omega arith) in
      let k' : Counters =
        if continues top row r
        then record k { count = k.count + 1 }
        else record { count = 1; most = max k.most k.count } in
      let step : k.most ≤ k'.most = ground arith in
      let (k2, f, g) = down_loop-grows col top rounds (row + 1) k' hc (omega arith) in
      (k2, rw e f, omega arith)

  module _ (height : ℕ) (tall : 1 ≤ height) (full : height * width ≤ length ranges) where
    pub wide : width ≤ length ranges
    wide =
        let (h, e) = one_less height tall in
        let f : h * width + width ≡ height * width = rw e (omega arith) in omega (arith, f)

    down_column :
        (col : ℕ) (top : Range) (k : Counters)
        → col < width
        → Returns (down_loop ranges width col top (height - 1) 1 k) (λ k'. k.most ≤ k'.most)
    down_column col top k hc =
        let e : 1 + (height - 1) ≡ height = omega arith in
        down_loop-grows col top (height - 1) 1 k hc (rw e full)

    -- On memory for `height` rows of `width` ranges, from a greatest count of 5 on, the loop over the
    -- columns takes every bold column, whatever stands below its top: the count is not reset.
    pub tops_loop-bold :
        (rounds col : ℕ) (k : Counters) (tops : List Point)
        → col + rounds ≤ width
        → 5 ≤ k.most
        → tops_loop ranges width height rounds col k tops
          ≡ some (tops ++ bold_tops (take rounds (drop col ranges)))
    unfolding tops_loop
    tops_loop-bold zero col k tops h five = ap some (sym (append-nil tops))
    tops_loop-bold (suc rounds) col k tops h five =
        let (top, e, d) = drop-elem ranges col (omega (arith, wide)) in
        elim (Bool-cases (is_bold top)) [
          | inl b ↦
              let (k', f, g) = down_column col top k (omega arith) in
              let l : leb 5 k'.most ≡ true = ground arith in
              rw (e, ◌>>=◌, b, f, ◌>>=◌, l, d, b)
                (rw
                  (append_assoc tops (top.from ∷ [])
                    (bold_tops (take rounds (drop (col + 1) ranges))))
                  at
                  (tops_loop-bold rounds (col + 1) k' (tops ++ (top.from ∷ [])) (omega arith)
                    (omega arith)))
          | inr b ↦
              rw (e, ◌>>=◌, b, d, b) (tops_loop-bold rounds (col + 1) k tops (omega arith) five)
        ]
